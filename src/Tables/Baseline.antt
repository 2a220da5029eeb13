-- ===== src/Tables/Baseline.antt =====
-- `baseline_table` of tools/measure/bucketfs/tex_tables.py: a plain copy beside each system's ingest.
use syncfs.Base.{
  ℕ, ◌+◌, ◌≡◌, ap, ◌&&◌, Option, none, some, List, [], ◌∷◌, ◌++◌, map, String, ◌<>◌, ltb, nat_beq,
  if◌then◌else◌, keep, length,
}
use syncfs.Base.Equality.{◌==◌, string_eq, nat_eq, pair_eq}
use syncfs.Base.Dict
use syncfs.Base.Dict.{Dict}
use syncfs.Tables.Samples.{Sample, ingest_s}
use syncfs.Tables.Group.{group_by, get-group_by, as_group, rows_with}
use syncfs.Tables.Figures.{human}
use syncfs.Tables.Cells.{fmt}
use syncfs.Tables.Grid.{
  arm, known, collected, missing_text, repeated, table_line, sorted_set, str_lt,
}

module _ (rows : List Sample) where
  abbrev pub plain_rows : List Sample
  plain_rows = keep (λ r. r.experiment == "C") rows

  abbrev pub two_rows : List Sample
  two_rows = keep (λ r. r.experiment == "A" && nat_beq r.nodes 2) rows

  abbrev pub size_key : Sample → ℕ
  size_key r = r.size_bytes

  abbrev pub ingest_key : Sample → String × ℕ
  ingest_key r = (arm r, r.size_bytes)

  abbrev pub ingest_arms : List String
  ingest_arms = sorted_set str_lt (map arm two_rows)

  -- `sorted(set(plain) | {s for _, s in ingest})`
  abbrev pub all_sizes : List ℕ
  all_sizes = sorted_set ltb (map size_key plain_rows ++ map size_key two_rows)

  abbrev pub ingest_of : Option (List Sample) → Option String
  ingest_of none = some missing_text
  ingest_of (some group) = fmt group ingest_s none

  -- the second column of a row, and the column of an arm
  unfoldable pub plain_text : ℕ → Option String
  plain_text size = ingest_of (Dict.get size (group_by plain_rows size_key))

  unfoldable pub ingest_text : ℕ → String → Option String
  ingest_text size a = ingest_of (Dict.get (a, size) (group_by two_rows ingest_key))

  unfoldable pub baseline_row : ℕ → Option (List String)
  unfolding plain_text ingest_text
  baseline_row size = elim (collected (plain_text size ∷ map (ingest_text size) ingest_arms)) [
    | none ↦ none
    | some texts ↦ some (human size ∷ texts)
  ]

  abbrev pub baseline_lines : List (List String) → List String
  baseline_lines body =
      "\\begin{table}[H]"
      ∷ "\\centering"
      ∷ "\\footnotesize"
      ∷ ("\\begin{tabular}{l" <> (repeated "r" (length ingest_arms + 1) <> "}"))
      ∷ "\\hline"
      ∷ table_line ("Size" ∷ "plain file" ∷ ingest_arms)
      ∷ "\\hline"
      ∷ (map table_line body
          ++ ("\\hline"
              ∷ "\\end{tabular}"
              ∷ ("\\caption[Writer-side ingest time against a plain file copy]"
                  <> ("{Writer-side ingest time in seconds, median with range: a "
                      <> ("plain copy on the same filesystem against what each system's writer "
                          <> ("waits for at $N=2$. A syncfs write returns once the bytes are on "
                              <> ("local disk; a BucketFS PUT returns once every node has them. The "
                                  <> ("baseline column is the stricter measurement of the two: it waits "
                                      <> ("for an explicit flush to the device, where the other columns are "
                                          <> "sampled by the same host-side probe as every other cell.}")))))))
              ∷ "\\label{tab:results-ingest-baseline}"
              ∷ "\\end{table}"
              ∷ ""
              ∷ []))

  -- `none` is the KeyError of `SYSTEM_LABEL`.
  unfoldable pub baseline_table : Option (List String)
  unfolding baseline_row
  baseline_table =
      if known two_rows
      then elim (collected (map baseline_row all_sizes)) [
        | none ↦ none
        | some body ↦ some (baseline_lines body)
      ]
      else none

  -- The cells of a size show `fmt` of exactly the plain copies of that size, and of the runs at two
  -- nodes with that size and the arm of the column.
  pub baseline_cells :
      (size : ℕ) (a : String)
      → (plain_text size ≡ ingest_of (as_group (rows_with size_key size plain_rows)))
        × (ingest_text size a ≡ ingest_of (as_group (rows_with ingest_key (a, size) two_rows)))
  unfolding plain_text ingest_text
  baseline_cells size a = (
    ap ingest_of (get-group_by plain_rows size_key size),
    ap ingest_of (get-group_by two_rows ingest_key (a, size)),
  )
