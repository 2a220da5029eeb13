-- ===== src/Tables/Notes/Misses.antt =====
-- `nonconvergence_note` of tools/measure/bucketfs/tex_tables.py: the table of the runs that missed
-- their deadline.
use syncfs.Base.{
  ℕ, ◌+◌, ◌≡◌, refl, ◌∙◌, Bool, not, ◌&&◌, ◌||◌, Option, none, some, List, [], ◌∷◌, ◌++◌, map,
  String, ◌<>◌, arith, ltb, nat_beq, if◌then◌else◌, keep, is_empty, length,
}
use syncfs.Base.Decimal.{show}
use syncfs.Base.Equality.{◌==◌, string_eq}
use syncfs.Tables.Samples.{Sample, bad_count}
use syncfs.Tables.Group.{total}
use syncfs.Tables.Grid.{known, str_lt}
use syncfs.Tables.Notes.{MissKey, misses, misses_lem}

-- The order of the first four columns, as tuples are compared.
abbrev pub miss_lt : MissKey → MissKey → Bool
miss_lt (e, (s, (n, (p, rest)))) (e', (s', (n', (p', rest')))) =
    str_lt e e'
    || (e == e' && (str_lt s s' || (s == s' && (ltb n n' || (nat_beq n n' && str_lt p p')))))

abbrev pub put_miss : MissKey × ℕ → List (MissKey × ℕ) → List (MissKey × ℕ)
put_miss x [] = x ∷ []
put_miss x (y ∷ ys) = if miss_lt y.0 x.0 then y ∷ put_miss x ys else x ∷ y ∷ ys

-- `sorted(tally, …)`, in which keys that agree in the four columns keep their order
unfoldable pub sorted_misses : List (MissKey × ℕ) → List (MissKey × ℕ)
sorted_misses [] = []
sorted_misses (x ∷ xs) = put_miss x (sorted_misses xs)

-- The rows of the table, with the number of runs of each.
unfoldable pub miss_rows : List Sample → List (MissKey × ℕ)
unfolding sorted_misses
miss_rows rows = sorted_misses (misses rows)

abbrev pub miss_line : MissKey × ℕ → String
miss_line ((experiment, (system, (nodes, (payload, (deadline, detail))))), runs) =
    experiment
    <> (" & "
        <> (system
            <> (" & "
                <> (show nodes
                    <> (" & "
                        <> (payload
                            <> (" & "
                                <> (show deadline
                                    <> ("\\,s & "
                                        <> (show runs <> (" & " <> (detail <> " \\\\"))))))))))))

abbrev pub miss_head : List String
miss_head =
    "\\begin{table}[H]"
    ∷ "\\centering"
    ∷ "\\footnotesize"
    ∷ "\\setlength{\\tabcolsep}{4pt}"
    ∷ "\\begin{tabular}{llrlrrp{2.6cm}}"
    ∷ "\\hline"
    ∷ ("Experiment & System & $N$ & Payload & Deadline & Runs & "
        <> "Nodes that never received it \\\\")
    ∷ "\\hline"
    ∷ []

abbrev pub miss_foot : List String
miss_foot =
    "\\hline"
    ∷ "\\end{tabular}"
    ∷ ("\\caption[Cells that missed their deadline]"
        <> ("{Cells that did not converge inside their deadline, with "
            <> ("the number of repeats that failed the same way. A non-convergence "
                <> "is a result and is recorded, not retried away.}")))
    ∷ "\\label{tab:results-nonconvergence}"
    ∷ "\\end{table}"
    ∷ ""
    ∷ []

-- `none` is the KeyError of `SYSTEM_LABEL`.
unfoldable pub nonconvergence_note : List Sample → Option (List String)
unfolding miss_rows
nonconvergence_note rows =
    let bad = keep (λ r. not r.converged) rows in
    let lines = miss_head ++ (map miss_line (miss_rows rows) ++ miss_foot) in
    if is_empty bad then some [] else if known bad then some lines else none

total-put_miss :
    (x : MissKey × ℕ) (xs : List (MissKey × ℕ)) → total (put_miss x xs) ≡ x.1 + total xs
total-put_miss x [] = refl
total-put_miss x (y ∷ ys) = ground (arith, total-put_miss x ys)

total-sorted_misses : (xs : List (MissKey × ℕ)) → total (sorted_misses xs) ≡ total xs
unfolding sorted_misses
total-sorted_misses [] = refl
total-sorted_misses (x ∷ xs) =
    omega (arith, total-put_miss x (sorted_misses xs), total-sorted_misses xs)

length-put_miss :
    (x : MissKey × ℕ) (xs : List (MissKey × ℕ)) → length (put_miss x xs) ≡ length xs + 1
length-put_miss x [] = refl
length-put_miss x (y ∷ ys) = ground (arith, length-put_miss x ys)

length-sorted_misses : (xs : List (MissKey × ℕ)) → length (sorted_misses xs) ≡ length xs
unfolding sorted_misses
length-sorted_misses [] = refl
length-sorted_misses (x ∷ xs) =
    omega (arith, length-put_miss x (sorted_misses xs), length-sorted_misses xs)

-- The runs column of the table adds up to the number of rows that did not converge, and there is
-- one line for each outcome of the tally.
pub miss_rows_lem :
    (rows : List Sample)
    → (total (miss_rows rows) ≡ bad_count rows) × (length (miss_rows rows) ≡ length (misses rows))
unfolding miss_rows
miss_rows_lem rows = (
  total-sorted_misses (misses rows) ∙ (misses_lem rows ("", ("", (0, ("", (0, "")))))).0,
  length-sorted_misses (misses rows),
)
