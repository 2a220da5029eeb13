-- ===== src/Tables/Notes/Verdicts.antt =====
-- `scenario_table` of tools/measure/bucketfs/tex_tables.py: what was asked, what was measured, and
-- the verdict.
use syncfs.Base.{
  ℕ, zero, suc, ◌+◌, ◌-◌, ◌*◌, ◌≤◌, ◌≡◌, refl, Bool, true, ◌&&◌, Option, none, some, List, [], ◌∷◌,
  map, String, ◌<>◌, arith, ltb, leb, nat_beq, if◌then◌else◌, length, keep, All, inl, inr, ◌⊎◌,
  if_rule, ltb→lt, le_of_ltb,
}
use mathlib.Core.Path.{subst}
use syncfs.Base.Decimal.{show}
use syncfs.Base.Equality.{◌==◌, string_eq, nat_eq, contains, beq_refl}
use syncfs.Tables.Samples.{Sample, propagation_s, cell_values, bad_count}
use syncfs.Tables.Figures.{human, fixed, kib, gib}
use syncfs.Tables.Cells.{median2}
use syncfs.Tables.Grid.{sorted_set}

abbrev pub medians : List ℕ → Option ℕ
medians [] = none
medians (x ∷ xs) = some (median2 (x ∷ xs))

module _ (rows : List Sample) where
  abbrev pub group_of : String → ℕ → ℕ → List Sample
  group_of system nodes size =
      keep
        (λ r.
          r.experiment == "A"
          && r.system == system
          && nat_beq r.nodes nodes
          && nat_beq r.size_bytes size)
        rows

  -- Twice the median, in ten-thousandths of a second.
  unfoldable pub median_of : String → ℕ → ℕ → Option ℕ
  median_of system nodes size = medians (cell_values (group_of system nodes size) propagation_s)

  unfoldable pub measured_sizes : ℕ → List ℕ
  measured_sizes nodes = sorted_set ltb (
      map (λ r. r.size_bytes)
        (keep (λ r. r.experiment == "A" && r.system == "syncfs" && nat_beq r.nodes nodes) rows))

-- `abs(s - 10 * KIB)`
abbrev pub off : ℕ → ℕ
off s = (s - 10 * kib) + (10 * kib - s)

-- `min(at_ten, key=…)`: the first of the nearest sizes
abbrev pub nearest : ℕ → List ℕ → ℕ
nearest s [] = s
nearest s (t ∷ ts) = nearest (if ltb (off t) (off s) then t else s) ts

unfoldable pub small_of : List ℕ → Option ℕ
small_of [] = none
small_of (s ∷ ss) = some (nearest s ss)

-- one line of the table
pub record Verdict : Type 0 where
  pub scenario : String
  pub requirement : String
  pub measured : String
  pub verdict : String

abbrev pub met_if : Bool → String
met_if b = if b then "met" else "not met"

-- A size of 0 is no size: `if small`, `if largest`.
abbrev pub median_at : List Sample → ℕ → Option ℕ → Option ℕ
median_at rows nodes none = none
median_at rows nodes (some zero) = none
median_at rows nodes (some (suc n)) = median_of rows "syncfs" nodes (suc n)

abbrev pub small_line : Option ℕ → Option ℕ → Verdict
small_line small value = record {
  scenario = "\\ref{req:synch_small_file}";
  requirement = "$10$\\,KiB across $10$ nodes in $\\leq 5$\\,s";
  measured = elim value [
    | none ↦ "---"
    | some v ↦ fixed 2 v 20000 <> ("\\,s at " <> elim small [ none ↦ "" | some s ↦ human s ])
  ];
  verdict = elim value [ none ↦ "---" | some v ↦ met_if (leb v (5 * 20000)) ];
}

abbrev pub big_line : Option ℕ → Verdict
big_line gib_value = record {
  scenario = "\\ref{req:synch_big_file}";
  requirement = "$1$\\,GiB across $10$ nodes in $\\leq 120$\\,s";
  measured = elim gib_value [ none ↦ "---" | some v ↦ fixed 2 v 20000 <> "\\,s" ];
  verdict = elim gib_value [ none ↦ "---" | some v ↦ met_if (leb v (120 * 20000)) ];
}

abbrev pub growth : String → String → Verdict
growth measured verdict = record {
  scenario = "\\ref{req:no_linear_growth}";
  requirement = "$10 \\rightarrow 20$ nodes costs less than $2\\times$";
  measured = measured;
  verdict = verdict;
}

-- `if ten and twenty:`, in which a median of 0 counts as none
abbrev pub growth_line : Option ℕ → Option ℕ → Option ℕ → Verdict
growth_line (some size) (some (suc ten)) (some (suc twenty)) =
    growth ("$\\times" <> (fixed 2 (suc twenty) (suc ten) <> ("$ at " <> human size)))
      (met_if (ltb (suc twenty) (2 * suc ten)))
growth_line size ten twenty = growth "---" "---"

abbrev pub runs_of : List Sample → String → List Sample
runs_of rows experiment = keep (λ r. r.experiment == experiment && r.system == "syncfs") rows

abbrev pub bounded_line : List Sample → List Sample → Verdict
bounded_line single many = record {
  scenario = "\\ref{req:files_are_synch_bounded}";
  requirement = "bounded convergence time";
  measured =
      show (bad_count single)
      <> (" of "
          <> (show (length single)
              <> (" single-file and "
                  <> (show (bad_count many)
                      <> (" of " <> (show (length many) <> " many-file syncfs runs"))))));
  verdict = if nat_beq (bad_count single) 0 && nat_beq (bad_count many) 0 then "met" else "partly";
}

abbrev pub last_of : List ℕ → Option ℕ
last_of [] = none
last_of (x ∷ []) = some x
last_of (x ∷ y ∷ ys) = last_of (y ∷ ys)

-- `max(both)`, where `both` is ascending
abbrev pub largest_of : List Sample → Option ℕ
largest_of rows = last_of (keep (λ s. contains s (measured_sizes rows 20)) (measured_sizes rows 10))

unfoldable pub scenario_lines : List Sample → List Verdict
unfolding median_of measured_sizes small_of bad_count show
scenario_lines rows =
    let small = small_of (measured_sizes rows 10) in
    let largest = largest_of rows in
    small_line small (median_at rows 10 small)
    ∷ big_line (median_of rows "syncfs" 10 gib)
    ∷ growth_line largest (median_at rows 10 largest) (median_at rows 20 largest)
    ∷ bounded_line (runs_of rows "A") (runs_of rows "B")
    ∷ []

-- `nearest` chose `w` of `sizes`, which none of them beats.
abbrev pub Chosen : ℕ → List ℕ → Type 0
Chosen w sizes = (contains w sizes ≡ true) × All (λ t. off w ≤ off t) sizes

either_contains :
    (x w s t : ℕ) (ts : List ℕ)
    → (w ≡ s) ⊎ (w ≡ t)
    → contains x (w ∷ ts) ≡ true
    → contains x (s ∷ t ∷ ts) ≡ true
either_contains x w s t ts (inl e) h =
    let back : contains x (s ∷ ts) ≡ true = subst (λ v. contains x (v ∷ ts) ≡ true) e h in
    ground arith
either_contains x w s t ts (inr e) h =
    let back : contains x (t ∷ ts) ≡ true = subst (λ v. contains x (v ∷ ts) ≡ true) e h in
    ground arith

nearest_step :
    (w s t : ℕ) (ts : List ℕ)
    → Chosen (nearest w ts) (w ∷ ts)
    → (w ≡ s) ⊎ (w ≡ t)
    → off w ≤ off s
    → off w ≤ off t
    → Chosen (nearest w ts) (s ∷ t ∷ ts)
nearest_step w s t ts (m, (c, rest)) which a b = (
  either_contains (nearest w ts) w s t ts which m,
  (omega (arith, a, c), (omega (arith, b, c), rest)),
)

nearest-Chosen : (s : ℕ) (ts : List ℕ) → Chosen (nearest s ts) (s ∷ ts)
nearest-Chosen s [] = (ground (arith, beq_refl s), (omega arith, tt))
nearest-Chosen s (t ∷ ts) =
    if_rule (λ w. Chosen (nearest w ts) (s ∷ t ∷ ts)) (ltb (off t) (off s)) t s
      (λ closer.
        nearest_step t s t ts (nearest-Chosen t ts) (inr refl)
          (omega (arith, ltb→lt (off t) (off s) closer)) (omega arith))
      (λ farther.
        nearest_step s s t ts (nearest-Chosen s ts) (inl refl) (omega arith)
          (le_of_ltb (off t) (off s) farther))

-- The size that stands in for 10 KiB is one of the measured sizes, and none of them is nearer.
pub small_of_lem : (sizes : List ℕ) (s : ℕ) → small_of sizes ≡ some s → Chosen s sizes
unfolding small_of
small_of_lem [] s h = cc
small_of_lem (t ∷ ts) s h =
    let e : nearest t ts ≡ s = ground arith in
    subst (λ w. Chosen w (t ∷ ts)) e (nearest-Chosen t ts)
