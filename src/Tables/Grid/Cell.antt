-- ===== src/Tables/Grid/Cell.antt =====
-- One cell of a table of tools/measure/bucketfs/tex_tables.py.
use syncfs.Base.{ℕ, ◌≡◌, refl, ap, ◌∙◌, ◌&&◌, keep, Option, some, none, List, [], ◌∷◌, String}
use syncfs.Base.Equality.{◌==◌, string_eq, nat_eq, pair_eq}
use syncfs.Tables.Samples.{Sample, Metric}
use syncfs.Tables.Group.{as_group, get-group_by}
use syncfs.Tables.Cells.{fmt}
use syncfs.Tables.Grid.{cell_key, cell_of, cell_text, arm}

module _ (payload : Sample → ℕ) (metric : Metric) (rows : List Sample) (a : String)
    (size n : ℕ) where
  -- The rows of the cell: those with its label, its payload and its node count.
  abbrev pub own_rows : List Sample
  own_rows = keep (λ r. arm r == a && ((payload r == size) && (r.nodes == n))) rows

  -- What is to be shown of them: the mark for a missing cell, or what `fmt` makes of the times.
  abbrev pub shown_of : List Sample → Option String
  shown_of [] = some "\\multicolumn{1}{c}{---}"
  shown_of (r ∷ rest) = fmt (r ∷ rest) metric none

  cell_of-as_group :
      (group : List Sample) → cell_of payload metric rows (as_group group) ≡ shown_of group
  cell_of-as_group [] = refl
  cell_of-as_group (r ∷ rest) = refl

  -- A cell shows `fmt` of exactly the rows that have its label, its payload and its node count, in
  -- their order, and the mark for a missing cell where there is no such row.
  pub cell_text_lem : cell_text payload metric rows a size n ≡ shown_of own_rows
  unfolding cell_text
  cell_text_lem =
      ap (cell_of payload metric rows)
        (get-group_by rows (cell_key payload metric rows) (a, (size, n)))
      ∙ cell_of-as_group own_rows

  shown : (group : List Sample) → (t : String) × (shown_of group ≡ some t)
  unfolding fmt
  shown [] = ("\\multicolumn{1}{c}{---}", refl)
  shown (r ∷ rest) = (_, refl)

  -- No cell meets the IndexError of `fmt`.
  pub cell_total : (t : String) × (cell_text payload metric rows a size n ≡ some t)
  cell_total = let (t, e) = shown own_rows in (t, cell_text_lem ∙ e)
