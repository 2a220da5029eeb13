-- ===== src/Tables/Document/Written/Parts.antt =====
-- No part of the document of tools/measure/bucketfs/tex_tables.py raises, where every system has a label.
use syncfs.Base.{
  ℕ, ◌≡◌, refl, sym, Bool, true, false, not, Option, none, some, List, [], ◌∷◌, map, String, arith,
  keep, if◌then◌else◌, All, is_empty,
}
use mathlib.Core.Path.{subst}
use syncfs.Base.Equality.{◌==◌, string_eq}
use syncfs.Tables.Samples.{Sample, Metric}
use syncfs.Tables.Grid.{known, collected, matrix_table}
use syncfs.Tables.Grid.Shape.{matrix_table-Rectangular, tree_table-Rectangular}
use syncfs.Tables.Group.{as_group}
use syncfs.Tables.Cells.{fmt}
use syncfs.Tables.Figures.{human}
use syncfs.Tables.Baseline.{
  two_rows, ingest_arms, all_sizes, ingest_of, plain_text, ingest_text, baseline_row,
  baseline_lines, baseline_table, baseline_cells,
}
use syncfs.Tables.Notes.Misses.{nonconvergence_note}
use syncfs.Tables.Document.{of_experiment, files_table}

-- There is a value.
abbrev pub IsWritten : {A : Type 0} → Option A → Type 0
IsWritten none = ⊥
IsWritten (some a) = Unit

IsWritten-of : {A : Type 0} (o : Option A) (a : A) → o ≡ some a → IsWritten o
IsWritten-of o a e = subst IsWritten (sym e) tt

pub known-keep :
    (p : Sample → Bool) (rows : List Sample) → known rows ≡ true → known (keep p rows) ≡ true
known-keep p [] h = refl
known-keep p (r ∷ rows) h = ground (arith, known-keep p rows)

collected-IsWritten : {A : Type 0} (l : List (Option A)) → All IsWritten l → IsWritten (collected l)
collected-IsWritten [] h = tt
collected-IsWritten (none ∷ l) (h, hs) = absurd h
collected-IsWritten {A = A} (some x ∷ l) (h, hs) = go (collected l) (collected-IsWritten l hs)
  where
    go :
        (o : Option (List A))
        → IsWritten o
        → IsWritten (elim o [ none ↦ none | some xs ↦ some (x ∷ xs) ])
    go none k = k
    go (some xs) k = tt

All-map :
    {A B : Type 0} (P : B → Type 0) (f : A → B) (xs : List A)
    → ((a : A) → P (f a))
    → All P (map f xs)
All-map P f [] h = tt
All-map P f (x ∷ xs) h = (h x, All-map P f xs h)

-- A group that is there has a row.
ingest_of-IsWritten : (rows group : List Sample) → IsWritten (ingest_of rows (as_group group))
unfolding fmt
ingest_of-IsWritten rows [] = tt
ingest_of-IsWritten rows (r ∷ rest) = tt

module _ (rows : List Sample) where
  plain_text-IsWritten : (size : ℕ) → IsWritten (plain_text rows size)
  plain_text-IsWritten size =
      subst IsWritten (sym (baseline_cells rows size "").0) (ingest_of-IsWritten rows _)

  ingest_text-IsWritten : (size : ℕ) (a : String) → IsWritten (ingest_text rows size a)
  ingest_text-IsWritten size a =
      subst IsWritten (sym (baseline_cells rows size a).1) (ingest_of-IsWritten rows _)

  baseline_row-IsWritten : (size : ℕ) → IsWritten (baseline_row rows size)
  unfolding baseline_row
  baseline_row-IsWritten size =
      go (collected (plain_text rows size ∷ map (ingest_text rows size) (ingest_arms rows))) (
        collected-IsWritten (plain_text rows size ∷ map (ingest_text rows size) (ingest_arms rows))
          (
            plain_text-IsWritten size,
            All-map IsWritten (ingest_text rows size) (ingest_arms rows)
                (ingest_text-IsWritten size),
          ))
    where
      go :
          (o : Option (List String))
          → IsWritten o
          → IsWritten (elim o [ none ↦ none | some texts ↦ some (human size ∷ texts) ])
      go none k = k
      go (some texts) k = tt

  pub baseline_table-IsWritten : known rows ≡ true → IsWritten (baseline_table rows)
  unfolding baseline_table
  baseline_table-IsWritten h =
      let two : known (two_rows rows) ≡ true = known-keep _ rows h in
      rw two (
        go (collected (map (baseline_row rows) (all_sizes rows))) (
          collected-IsWritten (map (baseline_row rows) (all_sizes rows))
            (All-map IsWritten (baseline_row rows) (all_sizes rows) baseline_row-IsWritten)))
    where
      go :
          (o : Option (List (List String)))
          → IsWritten o
          → IsWritten (elim o [ none ↦ none | some body ↦ some (baseline_lines rows body) ])
      go none k = k
      go (some body) k = tt

  pub nonconvergence_note-IsWritten : known rows ≡ true → IsWritten (nonconvergence_note rows)
  unfolding nonconvergence_note
  nonconvergence_note-IsWritten h =
      let bad : known (keep (λ r. not r.converged) rows) ≡ true = known-keep _ rows h in
      rw bad (either (is_empty (keep (λ r. not r.converged) rows)) _)
    where
      either : (b : Bool) (lines : List String) → IsWritten (if b then some [] else some lines)
      either true lines = tt
      either false lines = tt

  pub matrix_table-IsWritten :
      (m : Metric) (short caption label : String)
      → known rows ≡ true
      → IsWritten (matrix_table (of_experiment "A" rows) m short caption label)
  matrix_table-IsWritten m short caption label h =
      IsWritten-of (matrix_table (of_experiment "A" rows) m short caption label) _
        (matrix_table-Rectangular (of_experiment "A" rows) m short caption label
          (known-keep (λ r. r.experiment == "A") rows h)).1

  pub files_table-IsWritten : known rows ≡ true → IsWritten (files_table (of_experiment "B" rows))
  files_table-IsWritten h =
      IsWritten-of (files_table (of_experiment "B" rows)) _
        (tree_table-Rectangular (of_experiment "B" rows) _ _ "tab:results-manyfiles"
          (known-keep (λ r. r.experiment == "B") rows h)).1
