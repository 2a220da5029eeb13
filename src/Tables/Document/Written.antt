-- ===== src/Tables/Document/Written.antt =====
-- `main` of tools/measure/bucketfs/tex_tables.py writes its document to the end.
mod Parts
use syncfs.Base.{
  ℕ, ◌-◌, ◌≡◌, refl, ap, sym, ◌⊎◌, inl, inr, ◌++◌, ◌<>◌, ◌&&◌, Bool, true, false, not, Option, none,
  some, List, [], ◌∷◌, map, String, arith, keep, length, if◌then◌else◌, All, is_empty,
}
use mathlib.Core.Path.{subst}
use syncfs.Base.Equality.{◌==◌, string_eq, contains}
use syncfs.Tables.Macros.{macros}
use syncfs.Tables.Notes.{environment_note, generated}
use syncfs.Tables.Document.Written.Parts.{
  IsWritten, known-keep, matrix_table-IsWritten, files_table-IsWritten, baseline_table-IsWritten,
  nonconvergence_note-IsWritten,
}
use syncfs.Tables.Samples.{Sample, Metric, drop_arm, is_dropped, drop_arm-length}
use syncfs.Tables.Grid.{known, collected, matrix_table}
use syncfs.Tables.Grid.Shape.{matrix_table-Rectangular, tree_table-Rectangular}
use syncfs.Tables.Group.{as_group}
use syncfs.Tables.Cells.{fmt}
use syncfs.Tables.Figures.{human}
use syncfs.Tables.Baseline.{
  two_rows, ingest_arms, all_sizes, ingest_of, plain_text, ingest_text, baseline_row,
  baseline_lines, baseline_table, baseline_cells,
}
use syncfs.Tables.Notes.Misses.{nonconvergence_note}
use syncfs.Tables.Document.{
  when, of_experiment, has_rows, tables_of, Document, opening, closed_by, propagation_table,
  fanout_table, files_table, closed_by, run_tables, scenario_table,
}

module _ (rows : List Sample) where
  has_rows-contains :
      (e : String) (l : List Sample)
      → has_rows (of_experiment e l) ≡ contains e (map (λ r. r.experiment) l)
  has_rows-contains e [] = refl
  has_rows-contains e (r ∷ l) = ground (
    arith,
    has_rows-contains e l,
    string_eq.eqb_iff e r.experiment,
    string_eq.eqb_iff r.experiment e,
  )

  -- The lines of a table that is printed where there is a row of the experiment.
  abbrev pub Part : String → Option (List String) → List String → Type 0
  Part e table lines =
      ((contains e (map (λ r. r.experiment) rows) ≡ true) × (table ≡ some lines))
      ⊎ ((contains e (map (λ r. r.experiment) rows) ≡ false) × (lines ≡ []))

  -- A part is printed, and is what it should be.
  abbrev Printed : String → Option (List String) → Type 0
  Printed e table =
      (lines : List String) × (when (has_rows (of_experiment e rows)) table ≡ some lines)
      × Part e table lines

  printed : (e : String) (table : Option (List String)) → IsWritten table → Printed e table
  printed e table h = go table h (has_rows (of_experiment e rows)) (sym (has_rows-contains e rows))
    where
      go :
          (t : Option (List String))
          → IsWritten t
          → (b : Bool) → contains e (map (λ r. r.experiment) rows) ≡ b
          → (lines : List String) × (when b t ≡ some lines)
            × (((contains e (map (λ r. r.experiment) rows) ≡ true) × (t ≡ some lines))
                ⊎ ((contains e (map (λ r. r.experiment) rows) ≡ false) × (lines ≡ [])))
      go none k b is = absurd k
      go (some lines) k true is = (lines, refl, inl (is, refl))
      go (some lines) k false is = ([], refl, inr (is, refl))

  given : {A : Type 0} (o : Option A) → IsWritten o → (a : A) × (o ≡ some a)
  given none h = absurd h
  given (some a) h = (a, refl)

  -- The lines behind the opening: the tables of the experiments that have rows, in their order, and
  -- the table of non-convergences.
  pub record InOrder (lines : List String) : Type 0 where
    pub propagation : List String
    pub fanout : List String
    pub many : List String
    pub baseline : List String
    pub verdicts : List String
    pub misses : List String
    pub is_propagation : Part "A" (propagation_table (of_experiment "A" rows)) propagation
    pub is_fanout : Part "A" (fanout_table (of_experiment "A" rows)) fanout
    pub is_many : Part "B" (files_table (of_experiment "B" rows)) many
    pub is_baseline : Part "C" (baseline_table rows) baseline
    pub is_verdicts : Part "A" (some (scenario_table rows)) verdicts
    pub is_misses : nonconvergence_note rows ≡ some misses
    pub split :
        lines ≡ propagation ++ (fanout ++ (many ++ (baseline ++ (verdicts ++ (misses ++ [])))))

  tables_of-InOrder :
      known rows ≡ true → (lines : List String) × (tables_of rows ≡ some lines) × InOrder lines
  unfolding tables_of
  tables_of-InOrder h =
      let (a, ae, ap) =
        printed "A" (propagation_table (of_experiment "A" rows))
          (matrix_table-IsWritten rows _ _ _ "tab:results-propagation" h) in
      let (b, be, bp) =
        printed "A" (fanout_table (of_experiment "A" rows))
          (matrix_table-IsWritten rows _ _ _ "tab:results-fanout" h) in
      let (c, ce, cp) =
        printed "B" (files_table (of_experiment "B" rows)) (files_table-IsWritten rows h) in
      let (d, de, dp) = printed "C" (baseline_table rows) (baseline_table-IsWritten rows h) in
      let (v, ve, vp) = printed "A" (some (scenario_table rows)) tt in
      let (n, ne) = given (nonconvergence_note rows) (nonconvergence_note-IsWritten rows h) in
      (
        a ++ (b ++ (c ++ (d ++ (v ++ (n ++ []))))),
        rw (ae, be, ce, de, ve, ne) refl,
        record {
          propagation = a;
          fanout = b;
          many = c;
          baseline = d;
          verdicts = v;
          misses = n;
          is_propagation = ap;
          is_fanout = bp;
          is_many = cp;
          is_baseline = dp;
          is_verdicts = vp;
          is_misses = ne;
          split = refl;
        },
      )

-- The rows without the arm that is not tabulated.
abbrev pub tabulated : List Sample → List Sample
tabulated rows = keep (λ r. not (r.system == "bucketfs" && r.config == "tuned")) rows

-- The two files: the notes and the macros, and, behind them or in a file of their own, the tables.
abbrev pub Opens : Option String → List Sample → ℕ → List String → Document → Type 0
Opens none kept dropped lines d =
    (d.defs ≡ none) × (d.out ≡ (environment_note kept dropped ++ macros kept) ++ lines)
Opens (some name) kept dropped lines d =
    (d.defs ≡ some (environment_note kept dropped ++ macros kept))
    × (d.out ≡ generated ∷ ("% Macros for the prose are in " <> (name <> ".")) ∷ "" ∷ lines)

-- Where there is a row and every system of the rows has a label, no table raises: `main` returns 0 and
-- has written the notes and the macros of the rows that are tabulated, to the file of the macros if
-- one is named, and, in this order, the two matrix tables where experiment A has a row, the table of
-- many files where B has one, the baseline where C has one, the verdicts where A has one, and the
-- table of non-convergences.
pub run_tables-InOrder :
    (name : Option String) (row : Sample) (rows : List Sample)
    → known (row ∷ rows) ≡ true
    → let kept = tabulated (row ∷ rows) in
      (d : Document) × (lines : List String) × (run_tables name (row ∷ rows) ≡ some (0, d))
      × Opens name kept (length (row ∷ rows) - length kept) lines d
      × InOrder kept lines
unfolding run_tables drop_arm
run_tables-InOrder name row rows h =
    let (lines, e, in_order) =
      tables_of-InOrder kept (known-keep (λ x. not (is_dropped x)) (row ∷ rows) h) in
    (
      record (opening name kept dropped) { out = (opening name kept dropped).out ++ lines },
      lines,
      ap
          (λ t. elim (closed_by (opening name kept dropped) t) [
            | none ↦ none
            | some d ↦ some (0, d)
          ])
          e,
      opens name lines,
      in_order,
    )
  where
    kept : List Sample
    kept = tabulated (row ∷ rows)

    dropped : ℕ
    dropped = length (keep is_dropped (row ∷ rows))

    left : dropped ≡ length (row ∷ rows) - length kept
    left = omega (arith, drop_arm-length (row ∷ rows))

    opens :
        (n : Option String) (lines : List String)
        → Opens n kept
            (length (row ∷ rows) - length kept)
            lines
            (record (opening n kept dropped) { out = (opening n kept dropped).out ++ lines })
    opens none lines = (refl, ap (λ k. (environment_note kept k ++ macros kept) ++ lines) left)
    opens (some file) lines = (ap (λ k. some (environment_note kept k ++ macros kept)) left, refl)
