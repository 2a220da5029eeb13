-- ===== src/Tables/Notes.antt =====
-- The notes that tools/measure/bucketfs/tex_tables.py derives from the rows: `environment_note`,
-- `nonconvergence_note` and the verdicts of `scenario_table`.
pub mod Verdicts
pub mod Misses
use Prim.Native.Char.{Char, code}
use text.Mathlib.Text.{is_lt}
use syncfs.Base.{
  ℕ, zero, suc, ◌+◌, ◌-◌, ◌*◌, ◌/◌, ◌%◌, ◌≤◌, ◌≡◌, refl, Bool, true, false, not, ◌&&◌, ◌||◌, Option,
  none, some, List, [], ◌∷◌, ◌++◌, map, String, ◌<>◌, arith, ltb, leb, nat_beq, if◌then◌else◌,
  length, keep, is_empty,
}
use syncfs.Base.Decimal.{show}
use syncfs.Base.Equality.{Eq, ◌==◌, string_eq, nat_eq, pair_eq, contains}
use syncfs.Base.Dict
use syncfs.Base.Dict.{Dict}
use syncfs.Tables.Samples.{Sample, Metric, ingest_s, propagation_s, cell_values, bad_count}
use syncfs.Tables.Group.{tally_by, tally_by_lem, total, or_zero, rows_with}
use syncfs.Tables.Figures.{human, deadline_for, fixed, kib, gib}
use syncfs.Tables.Cells.{median2, least, greatest}
use syncfs.Tables.Grid.{arm, sorted_set, str_lt, joined, thousands}

abbrev pub RepeatKey : Type 0
RepeatKey = String × (String × (String × (ℕ × (ℕ × ℕ))))

-- The six columns that name a cell.
abbrev pub repeat_key : Sample → RepeatKey
repeat_key r = (r.experiment, (r.system, (r.config, (r.nodes, (r.size_bytes, r.file_count)))))

unfoldable pub repeats_of : List Sample → Dict RepeatKey ℕ
repeats_of rows = tally_by rows repeat_key

abbrev pub values_of : {K : Type 0} → Dict K ℕ → List ℕ
values_of [] = []
values_of ((k, n) ∷ d) = n ∷ values_of d

abbrev pub loads_of : List Sample → List ℕ
loads_of [] = []
loads_of (r ∷ rows) = let rest = loads_of rows in elim r.loadavg [ none ↦ rest | some l ↦ l ∷ rest ]

abbrev pub nofile_of : List Sample → List String
nofile_of [] = []
nofile_of (r ∷ rows) = let rest = nofile_of rows in if r.nofile == "" then rest else r.nofile ∷ rest

-- Python's `print` of a list of numbers, and of a list of plain strings
abbrev pub list_text : List String → String
list_text items = "[" <> (joined ", " items <> "]")

abbrev pub load_lines : List ℕ → List String
load_lines [] = []
load_lines (l ∷ ls) =
    ("% host load average at t0: min "
      <> (fixed 2 (least l ls) 100 <> (", max " <> fixed 2 (greatest l ls) 100)))
    ∷ []

abbrev pub generated : String
generated = "% Generated by tools/measure/bucketfs/tex_tables.py -- do not edit by hand."

-- Load averages are read in hundredths, as the matrix writes them.
unfoldable pub environment_note : List Sample → ℕ → List String
unfolding repeats_of fixed
environment_note rows dropped =
    let repeats = repeats_of rows in
    let files = sorted_set str_lt (nofile_of rows) in
    generated
    ∷ ("% cells: "
        <> (show (length repeats)
            <> (", samples: "
                <> (show (length rows)
                    <> (", repeats per cell: "
                        <> list_text (map show (sorted_set ltb (values_of repeats))))))))
    ∷ ((if is_empty files
          then []
          else ("% RLIMIT_NOFILE observed in the containers: "
              <> list_text (map (λ f. "'" <> (f <> "'")) files))
            ∷ [])
        ++ (load_lines (loads_of rows)
            ++ ((if nat_beq dropped 0
                  then []
                  else ("% BucketFS (tuned) rows measured and not tabulated: " <> show dropped)
                    ∷ [])
                ++ ("" ∷ []))))

abbrev pub is_digit : Char → Bool
is_digit c = leb 48 (code c) && leb (code c) 57

-- `re.sub(r"\d+", "", name)`
abbrev pub without_digits : String → String
without_digits String.[] = String.[]
without_digits (String.◌∷◌ c s) =
    let rest = without_digits s in if is_digit c then rest else String.◌∷◌ c rest

-- the last run of digits, as a number, or 0: `last` is the run before this place, `run` the one
-- that reaches it
abbrev pub last_number : Bool → ℕ → String → ℕ
last_number in_run last String.[] = last
last_number in_run last (String.◌∷◌ c s) =
    last_number (is_digit c)
      (if is_digit c then (if in_run then last * 10 else 0) + (code c - 48) else last) s

-- `node_key(name)`
abbrev pub node_key : String → String × ℕ
node_key name = (without_digits name, last_number false 0 name)

abbrev pub node_lt : String → String → Bool
node_lt a b =
    let (p, m) = node_key a in let (q, n) = node_key b in str_lt p q || (p == q && ltb m n)

abbrev pub put_node : String → List String → List String
put_node x [] = x ∷ []
put_node x (y ∷ ys) = if node_lt y x then y ∷ put_node x ys else x ∷ y ∷ ys

-- `sorted(missing, key=node_key)`, in which nodes of one key keep their order
unfoldable pub by_number : List String → List String
by_number [] = []
by_number (x ∷ xs) = put_node x (by_number xs)

abbrev pub detail_of : List String → String
detail_of [] = "arrived, hashes disagreed"
detail_of (n ∷ ns) = joined ", " (by_number (n ∷ ns))

abbrev pub payload_of : Sample → String
payload_of r =
    if nat_beq r.file_count 1 then human r.size_bytes else thousands r.file_count <> " files"

abbrev pub MissKey : Type 0
MissKey = String × (String × (ℕ × (String × (ℕ × String))))

-- The key of the tally: experiment, system, node count, payload, deadline and detail.
abbrev pub miss_key : Sample → MissKey
miss_key r = (
  r.experiment,
  (arm r, (r.nodes, (payload_of r, (deadline_for r.experiment r.size_bytes, detail_of r.missing)))),
)

-- The tally of `nonconvergence_note`.
unfoldable pub misses : List Sample → Dict MissKey ℕ
unfolding by_number
misses rows = tally_by (keep (λ r. not r.converged) rows) miss_key

-- Each run that did not converge is counted once in the note: the counts add up to their number,
-- and there are as many runs under a key as rows that did not converge with that key.
pub misses_lem :
    (rows : List Sample) (k : MissKey)
    → (total (misses rows) ≡ bad_count rows)
      × (or_zero (Dict.get k (misses rows))
          ≡ length (rows_with miss_key k (keep (λ r. not r.converged) rows)))
unfolding misses bad_count
misses_lem rows k =
    let (a, b) = tally_by_lem (keep (λ (r : Sample). not r.converged) rows) miss_key k in (b, a)

-- The number of repeats of each cell in the environment note is the number of rows of that cell,
-- and the repeats add up to the number of samples.
pub repeats_of_lem :
    (rows : List Sample) (k : RepeatKey)
    → (or_zero (Dict.get k (repeats_of rows)) ≡ length (rows_with repeat_key k rows))
      × (total (repeats_of rows) ≡ length rows)
unfolding repeats_of
repeats_of_lem rows k = tally_by_lem rows repeat_key k

sorted_nodes : by_number ("sfs10" ∷ "sfs2" ∷ "n11" ∷ []) ≡ "n11" ∷ "sfs2" ∷ "sfs10" ∷ []
unfolding by_number
sorted_nodes = refl
