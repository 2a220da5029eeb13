-- ===== src/Tables/Grid.antt =====
-- `matrix_table` and `tree_table` of tools/measure/bucketfs/tex_tables.py: a row for an arm and a
-- payload, a column for a node count.
pub mod Cell
pub mod Shape
use Prim.Native.String.{compare}
use text.Mathlib.Text.{is_lt}
use syncfs.Base.{
  ℕ, zero, suc, ◌+◌, ◌*◌, ◌/◌, ◌%◌, ◌≡◌, refl, Bool, true, false, not, ◌&&◌, Option, none, some,
  List, [], ◌∷◌, ◌++◌, map, String, ◌<>◌, arith, ltb, nat_beq, if◌then◌else◌, length,
}
use syncfs.Base.Decimal.{show}
use syncfs.Base.Equality.{Eq, ◌==◌, string_eq, nat_eq, pair_eq}
use syncfs.Base.Dict
use syncfs.Base.Dict.{Dict}
use syncfs.Tables.Samples.{Sample, Metric, propagation_s, bad_count}
use syncfs.Tables.Group.{group_by}
use syncfs.Tables.Figures.{human, padded}
use syncfs.Tables.Cells.{fmt}

-- `SYSTEM_LABEL`, which raises KeyError for a system that it does not list
abbrev pub label_of : String → Option String
label_of system =
    if system == "syncfs"
    then some "syncfs"
    else if system == "bucketfs"
    then some "BucketFS"
    else if system == "plainfile"
    then some "plain file"
    else none

abbrev pub known : List Sample → Bool
known [] = true
known (r ∷ rows) = elim (label_of r.system) [ none ↦ false | some l ↦ known rows ]

abbrev pub text_or : Option String → String
text_or none = ""
text_or (some s) = s

-- `arm(row)`, where the label is known
abbrev pub arm : Sample → String
arm r = text_or (label_of r.system)

-- `sorted({…})`: each value once, in ascending order
abbrev pub place : {A : Type 0} → (A → A → Bool) → A → List A → List A
place lt x [] = x ∷ []
place lt x (y ∷ ys) =
    let later = place lt x ys in if lt x y then x ∷ y ∷ ys else if lt y x then y ∷ later else y ∷ ys

unfoldable pub sorted_set : {A : Type 0} → (A → A → Bool) → List A → List A
sorted_set lt [] = []
sorted_set lt (x ∷ xs) = place lt x (sorted_set lt xs)

abbrev pub str_lt : String → String → Bool
str_lt a b = is_lt (compare a b)

-- `f"{count:,}".replace(",", "\\,")`
abbrev pub thousands_onto : ℕ → ℕ → String
thousands_onto zero n = ""
thousands_onto (suc fuel) n =
    let front = thousands_onto fuel (n / 1000) in
    if ltb n 1000 then show n else front <> ("\\," <> padded 3 (n % 1000))

unfoldable pub thousands : ℕ → String
unfolding show
thousands n = thousands_onto (suc n) n

abbrev pub missing_text : String
missing_text = "\\multicolumn{1}{c}{---}"

-- The rows of a list of fallible values, or the exception of one of them.
abbrev pub collected : {A : Type 0} → List (Option A) → Option (List A)
collected [] = some []
collected (none ∷ rest) = none
collected (some x ∷ rest) = elim (collected rest) [ none ↦ none | some xs ↦ some (x ∷ xs) ]

abbrev pub CellKey : Type 0
CellKey = String × (ℕ × ℕ)

module _ (payload : Sample → ℕ) (metric : Metric) (rows : List Sample) where
  abbrev pub cell_key : Sample → CellKey
  cell_key r = (arm r, (payload r, r.nodes))

  unfoldable pub cells : Dict CellKey (List Sample)
  cells = group_by rows cell_key

  abbrev pub arms : List String
  arms = sorted_set str_lt (map arm rows)

  abbrev pub payloads : List ℕ
  payloads = sorted_set ltb (map payload rows)

  abbrev pub node_counts : List ℕ
  node_counts = sorted_set ltb (map (λ r. r.nodes) rows)

  -- `MISSING if group is None else fmt(group, metric)`
  abbrev pub cell_of : Option (List Sample) → Option String
  cell_of none = some missing_text
  cell_of (some group) = fmt group metric none

  unfoldable pub cell_text : String → ℕ → ℕ → Option String
  unfolding cells
  cell_text a size n = cell_of (Dict.get (a, (size, n)) cells)

  -- One row: the arm in the first row of its block alone, the payload, and a cell for each count.
  unfoldable pub table_row : (ℕ → String) → String → Bool → ℕ → Option (List String)
  unfolding cell_text
  table_row name_of a first size = elim (collected (map (cell_text a size) node_counts)) [
    | none ↦ none
    | some texts ↦ some ((if first then a else "") ∷ name_of size ∷ texts)
  ]

  unfoldable pub block : (ℕ → String) → String → Bool → List ℕ → List (Option (List String))
  unfolding table_row
  block name_of a first [] = []
  block name_of a first (size ∷ sizes) =
      table_row name_of a first size ∷ block name_of a false sizes

  -- All the rows, a block for each arm.
  unfoldable pub blocks : (ℕ → String) → List String → List (Option (List (List String)))
  unfolding block
  blocks name_of [] = []
  blocks name_of (a ∷ rest) = collected (block name_of a true payloads) ∷ blocks name_of rest

abbrev pub joined : String → List String → String
joined separator [] = ""
joined separator (x ∷ []) = x
joined separator (x ∷ y ∷ rest) = x <> (separator <> joined separator (y ∷ rest))

abbrev pub repeated : String → ℕ → String
repeated s zero = ""
repeated s (suc n) = s <> repeated s n

abbrev pub table_line : List String → String
table_line row = joined " & " row <> " \\\\"

abbrev pub block_lines : List (List (List String)) → List String
block_lines [] = []
block_lines (b ∷ bs) = map table_line b ++ ("\\hline" ∷ block_lines bs)

abbrev pub dagger_legend : String
dagger_legend =
    " A $\\dagger$ marks runs that did not converge inside the deadline, and "
    <> ("the count beside it says how many of the repeats those were; a time next "
        <> ("to one is the last arrival among the nodes that did receive the payload, "
            <> "not a convergence time."))

-- The frame that `matrix_table` and `tree_table` share, for one heading of the payload column.
unfoldable pub table_lines :
    String
    → List Sample
    → List ℕ
    → List (List (List String))
    → String
    → String
    → String
    → List String
table_lines heading rows counts body short caption label =
    "\\begin{table}[H]"
    ∷ "\\centering"
    ∷ "\\footnotesize"
    ∷ "\\setlength{\\tabcolsep}{4pt}"
    ∷ ("\\begin{tabular}{ll" <> (repeated "r" (length counts) <> "}"))
    ∷ "\\hline"
    ∷ ("System & "
        <> (heading
            <> (" & " <> (joined " & " (map (λ n. "$N{=}" <> (show n <> "$")) counts) <> " \\\\"))))
    ∷ "\\hline"
    ∷ (block_lines body
        ++ ("\\end{tabular}"
            ∷ ("\\caption["
                <> (short
                    <> ("]{"
                        <> ((if nat_beq (bad_count rows) 0
                              then caption
                              else caption <> dagger_legend)
                            <> "}"))))
            ∷ ("\\label{" <> (label <> "}"))
            ∷ "\\end{table}"
            ∷ ""
            ∷ []))

-- `none` is a KeyError of `SYSTEM_LABEL` or an IndexError of `fmt`.
unfoldable pub matrix_table : List Sample → Metric → String → String → String → Option (List String)
unfolding table_lines blocks
matrix_table rows metric short caption label =
    let counts = node_counts (λ r. r.size_bytes) metric rows in
    let body =
      collected
        (blocks (λ r. r.size_bytes) metric rows human (arms (λ r. r.size_bytes) metric rows)) in
    if known rows
    then elim body [
      | none ↦ none
      | some b ↦ some (table_lines "Size" rows counts b short caption label)
    ]
    else none

unfoldable pub tree_table : List Sample → String → String → String → Option (List String)
unfolding table_lines blocks
tree_table rows short caption label =
    let counts = node_counts (λ r. r.file_count) propagation_s rows in
    let body = collected (
      blocks (λ r. r.file_count) propagation_s rows thousands
        (arms (λ r. r.file_count) propagation_s rows)) in
    if known rows
    then elim body [
      | none ↦ none
      | some b ↦ some (table_lines "Files" rows counts b short caption label)
    ]
    else none
