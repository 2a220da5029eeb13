-- ===== src/Tables/Summarise.antt =====
-- tools/measure/bucketfs/summarise.py: the same groups as plain text.
use syncfs.Base.{
  ℕ, suc, ◌+◌, ◌-◌, ◌≡◌, refl, Bool, ◌&&◌, ◌||◌, List, [], ◌∷◌, ◌++◌, String, ◌<>◌, arith, ltb,
  if◌then◌else◌, length, length-append, Bool-cases, inl, inr,
}
use syncfs.Base.Decimal.{show}
use syncfs.Base.Equality.{◌==◌, string_eq, nat_eq, pair_eq}
use syncfs.Base.Dict
use syncfs.Base.Dict.{Dict}
use syncfs.Tables.Samples.{Sample, Metric, cell_values, bad_count}
use syncfs.Tables.Group.{group_by, group_onto, add_row, members}
use syncfs.Tables.Figures.{general, unit_of, fixed}
use syncfs.Tables.Cells.{median2, least, greatest}
use syncfs.Tables.Grid.{str_lt, repeated}

abbrev pub SummaryKey : Type 0
SummaryKey = String × (String × (ℕ × ℕ))

abbrev pub summary_key : Sample → SummaryKey
summary_key r = (r.system, (r.config, (r.nodes, r.size_bytes)))

abbrev pub Cell : Type 0
Cell = SummaryKey × List Sample

-- by system, configuration, size and then node count
abbrev pub cell_lt : Cell → Cell → Bool
cell_lt ((s, (c, (n, z))), _) ((s', (c', (n', z'))), _) =
    str_lt s s' || (s == s' && (str_lt c c' || (c == c' && (ltb z z' || (z == z' && ltb n n')))))

abbrev pub put_cell : Cell → List Cell → List Cell
put_cell x [] = x ∷ []
put_cell x (y ∷ ys) = let later = put_cell x ys in if cell_lt y x then y ∷ later else x ∷ y ∷ ys

unfoldable pub sorted_cells : List Cell → List Cell
sorted_cells [] = []
sorted_cells (x ∷ xs) = put_cell x (sorted_cells xs)

-- The groups in the order in which `main` prints them.
unfoldable pub summary_cells : List Sample → List Cell
unfolding sorted_cells
summary_cells rows = sorted_cells (group_by rows summary_key)

abbrev pub text_length : String → ℕ
text_length String.[] = 0
text_length (String.◌∷◌ c s) = suc (text_length s)

-- `f"{s:{w}}"` of a text, and `f"{s:>{w}}"`
abbrev pub left : ℕ → String → String
left w s = s <> repeated " " (w - text_length s)

abbrev pub right : ℕ → String → String
right w s = repeated " " (w - text_length s) <> s

-- `human` of summarise.py, with a blank before the unit
unfoldable pub plain_human : ℕ → String
unfolding unit_of general show
plain_human size =
    let (unit, scale) = unit_of size in
    if ltb 1 scale then general size scale <> (" " <> unit) else show size <> " B"

abbrev pub figures : List ℕ → String
unfolding fixed median2
figures [] = right 9 "--" <> (" " <> (right 9 "--" <> (" " <> right 9 "--")))
figures (x ∷ xs) =
    right 9 (fixed 3 (median2 (x ∷ xs)) 20000)
    <> (" "
        <> (right 9 (fixed 3 (least x xs) 10000)
            <> (" " <> right 9 (fixed 3 (greatest x xs) 10000))))

unfoldable pub summary_line : Metric → Cell → String
unfolding plain_human figures show cell_values bad_count
summary_line metric ((system, (config, (nodes, size))), group) =
    left 10 system
    <> (" "
        <> (left 8 config
            <> (" "
                <> (right 3 (show nodes)
                    <> (" "
                        <> (right 9 (plain_human size)
                            <> (" "
                                <> (figures (cell_values group metric)
                                    <> (" "
                                        <> (right 3 (show (length group))
                                            <> (" " <> right 4 (show (bad_count group)))))))))))))

-- the column of the numbers of runs
abbrev pub runs : List Cell → ℕ
runs [] = 0
runs ((k, group) ∷ rest) = length group + runs rest

runs-put :
    (k : SummaryKey) (v : List Sample) (d : Dict SummaryKey (List Sample))
    → runs (Dict.put k v d) + length (members (Dict.get k d)) ≡ runs d + length v
runs-put k v [] = omega arith
runs-put k v ((j, group) ∷ d) = elim (Bool-cases (j == k)) [
  | inl same ↦ rw same (omega arith)
  | inr other ↦ rw other (omega (arith, runs-put k v d))
]

runs-add_row :
    (row : Sample) (d : Dict SummaryKey (List Sample))
    → runs (add_row summary_key d row) ≡ runs d + 1
runs-add_row row d =
    let old : List Sample = members (Dict.get (summary_key row) d) in
    omega (arith, runs-put (summary_key row) (old ++ (row ∷ [])) d, length-append old (row ∷ []))

runs-group_onto :
    (d : Dict SummaryKey (List Sample)) (rows : List Sample)
    → runs (group_onto summary_key d rows) ≡ runs d + length rows
unfolding group_onto
runs-group_onto d [] = omega arith
runs-group_onto d (row ∷ rows) =
    omega (arith, runs-group_onto (add_row summary_key d row) rows, runs-add_row row d)

runs-put_cell : (x : Cell) (xs : List Cell) → runs (put_cell x xs) ≡ length x.1 + runs xs
runs-put_cell x [] = refl
runs-put_cell x (y ∷ ys) = ground (arith, runs-put_cell x ys)

runs-sorted_cells : (xs : List Cell) → runs (sorted_cells xs) ≡ runs xs
unfolding sorted_cells
runs-sorted_cells [] = refl
runs-sorted_cells (x ∷ xs) = omega (arith, runs-put_cell x (sorted_cells xs), runs-sorted_cells xs)

-- The summary loses no row: the numbers of runs that it prints add up to the number of rows.
pub summary_cells_lem : (rows : List Sample) → runs (summary_cells rows) ≡ length rows
unfolding summary_cells group_by
summary_cells_lem rows =
    omega (arith, runs-sorted_cells (group_by rows summary_key), runs-group_onto [] rows)
