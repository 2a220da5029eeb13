-- ===== src/Tables/Grid/Shape.antt =====
-- The tables of tools/measure/bucketfs/tex_tables.py are complete and rectangular.
use syncfs.Base.{
  ℕ, suc, ◌+◌, ◌≡◌, refl, ap, ◌∙◌, Bool, true, false, Option, some, List, [], ◌∷◌, map, String,
  arith, length, All, length-map, if◌then◌else◌,
}
use syncfs.Tables.Samples.{Sample, Metric, propagation_s}
use syncfs.Tables.Figures.{human}
use syncfs.Tables.Grid.{
  known, arms, payloads, node_counts, cell_text, table_row, block, blocks, collected, table_lines,
  matrix_table, tree_table, thousands,
}
use syncfs.Tables.Grid.Cell.{cell_total}

-- The values of fallible entries that are all there.
abbrev There : {A : Type 0} → (A → Type 0) → Option A → Type 0
There {A} P o = (x : A) × (o ≡ some x) × P x

collected-All :
    {A : Type 0} (P : A → Type 0) (l : List (Option A))
    → All (There P) l
    → (xs : List A) × (collected l ≡ some xs) × (length xs ≡ length l) × All P xs
collected-All P [] h = ([], refl, refl, tt)
collected-All P (o ∷ l) ((x, e, p), h) =
    let (xs, e', n, ps) = collected-All P l h in (x ∷ xs, rw (e, e'), ap suc n, (p, ps))

module _ (payload : Sample → ℕ) (metric : Metric) (rows : List Sample) (name_of : ℕ → String) where
  abbrev row_texts : String → ℕ → List ℕ → List (Option String)
  row_texts a size = map (cell_text payload metric rows a size)

  cells-There :
      (a : String) (size : ℕ) (ns : List ℕ) → All (There (λ _. Unit {0})) (row_texts a size ns)
  cells-There a size [] = tt
  cells-There a size (n ∷ ns) =
      let (t, e) = cell_total payload metric rows a size n in ((t, e, tt), cells-There a size ns)

  abbrev pub Wide : List String → Type 0
  Wide row = length row ≡ 2 + length (node_counts payload metric rows)

  table_row-There :
      (a : String) (first : Bool) (size : ℕ)
      → There Wide (table_row payload metric rows name_of a first size)
  unfolding table_row
  table_row-There a first size =
      let ns = node_counts payload metric rows in
      let (ts, e, n, _) =
        collected-All (λ _. Unit {0}) (row_texts a size ns) (cells-There a size ns) in
      (
        (if first then a else "") ∷ name_of size ∷ ts,
        rw (e, table_row) refl,
        omega (arith, n, length-map (cell_text payload metric rows a size) ns),
      )

  block-There :
      (a : String) (first : Bool) (sizes : List ℕ)
      → All (There Wide) (block payload metric rows name_of a first sizes)
  unfolding block
  block-There a first [] = tt
  block-There a first (size ∷ sizes) = (table_row-There a first size, block-There a false sizes)

  length-block :
      (a : String) (first : Bool) (sizes : List ℕ)
      → length (block payload metric rows name_of a first sizes) ≡ length sizes
  unfolding block
  length-block a first [] = refl
  length-block a first (size ∷ sizes) = ap suc (length-block a false sizes)

  -- A block has a row for each payload.
  abbrev pub Full : List (List String) → Type 0
  Full b = (length b ≡ length (payloads payload metric rows)) × All Wide b

  blocks-There : (as' : List String) → All (There Full) (blocks payload metric rows name_of as')
  unfolding blocks
  blocks-There [] = tt
  blocks-There (a ∷ rest) =
      let ps = payloads payload metric rows in
      let (b, e, n, wide) =
        collected-All Wide (block payload metric rows name_of a true ps) (block-There a true ps) in
      ((b, e, (n ∙ length-block a true ps, wide)), blocks-There rest)

  length-blocks : (as' : List String) → length (blocks payload metric rows name_of as') ≡ length as'
  unfolding blocks
  length-blocks [] = refl
  length-blocks (a ∷ rest) = ap suc (length-blocks rest)

  -- The rows of a table: a block for each arm.
  pub record Rectangular (body : List (List (List String))) : Type 0 where
    pub arm_blocks : length body ≡ length (arms payload metric rows)
    pub all_full : All Full body

  pub body_there :
      (body : List (List (List String))) × (collected
          (blocks payload metric rows name_of (arms payload metric rows))
        ≡ some body)
      × Rectangular body
  body_there =
      let as' = arms payload metric rows in
      let (body, e, n, full) =
        collected-All Full (blocks payload metric rows name_of as') (blocks-There as') in
      (body, e, record { arm_blocks = n ∙ length-blocks as'; all_full = full })

-- Where every system has a label, `matrix_table` raises nothing. Its body has a block for each arm of
-- the data, a block has a row for each payload size, and a row has a column for each node count
-- behind the two that name it.
pub matrix_table-Rectangular :
    (rows : List Sample) (metric : Metric) (short caption label : String)
    → known rows ≡ true
    → (body : List (List (List String))) × (matrix_table rows metric short caption label
        ≡ some (
            table_lines "Size" rows
              (node_counts (λ r. r.size_bytes) metric rows)
              body
              short
              caption
              label))
      × Rectangular (λ r. r.size_bytes) metric rows human body
unfolding matrix_table
matrix_table-Rectangular rows metric short caption label k =
    let (body, e, shape) = body_there (λ r. r.size_bytes) metric rows human in
    (body, rw (k, e) refl, shape)

-- Where every system has a label, `tree_table` raises nothing. Its body has a block for each arm of
-- the data, a block has a row for each file count, and a row has a column for each node count behind
-- the two that name it.
pub tree_table-Rectangular :
    (rows : List Sample) (short caption label : String)
    → known rows ≡ true
    → (body : List (List (List String))) × (tree_table rows short caption label
        ≡ some (
            table_lines "Files" rows
              (node_counts (λ r. r.file_count) propagation_s rows)
              body
              short
              caption
              label))
      × Rectangular (λ r. r.file_count) propagation_s rows thousands body
unfolding tree_table
tree_table-Rectangular rows short caption label k =
    let (body, e, shape) = body_there (λ r. r.file_count) propagation_s rows thousands in
    (body, rw (k, e) refl, shape)
