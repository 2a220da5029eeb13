-- ===== src/Tests/Tables.antt =====
-- The tables of a few rows.
use syncfs.Base.{
  none, map, ℕ, ◌+◌, ◌-◌, ◌*◌, ◌^◌, ◌≡◌, ◌≢◌, ◌≤◌, ◌⊎◌, refl, true, false, some, String, List, [],
  ◌∷◌, length,
}
use syncfs.Base.Equality.{string_eq, nat_eq, pair_eq}
use syncfs.Base.Dict
use syncfs.Tables.Samples.{Sample, cell_values, propagation_s, bad_count}
use syncfs.Tables.Group.{group_by, get-group_by, as_group, rows_with, total}
use syncfs.Tables.Figures.{human}
use syncfs.Tables.Cells.{median_range, least, greatest}
use syncfs.Tables.Cells.Range.{median_range_cases, alone, ranged, figure}
use syncfs.Tables.Document.{Document, run_tables}
use syncfs.Tables.Document.Written.{Opens, InOrder, tabulated, run_tables-InOrder}
use syncfs.Tables.Grid.{cell_text, cell_of, matrix_table, tree_table, thousands}
use syncfs.Tables.Grid.Cell.{cell_text_lem, own_rows, shown_of}
use syncfs.Tables.Grid.Shape.{Rectangular, matrix_table-Rectangular}
use syncfs.Tables.Grid
use syncfs.Tables.Notes.{misses, miss_key, MissKey, repeat_key, RepeatKey}
use syncfs.Tables.Summarise.{runs, summary_cells, summary_cells_lem, summary_line, sorted_cells}
use syncfs.Tables.Notes.Misses.{miss_rows, miss_rows_lem}
use syncfs.Tables.Macros.{macros, macros_of, macro_median}

abbrev sample : String → String → ℕ → ℕ → Sample
sample system config nodes t = record {
  experiment = "A";
  system = system;
  config = config;
  nodes = nodes;
  size_bytes = 4096;
  file_count = 1;
  time_of = λ m. some t;
  converged = true;
  nofile = "1048576";
  loadavg = some 12;
  missing = [];
}

abbrev rows : List Sample
rows =
    sample "syncfs" "default" 10 4000
    ∷ sample "bucketfs" "default" 10 8000
    ∷ record (sample "syncfs" "default" 10 6000) { converged = false; missing = "sfs2" ∷ [] }
    ∷ []

get-group_by_example :
    Dict.get "syncfs" (group_by rows (λ r. r.system))
    ≡ as_group (rows_with (λ (r : Sample). r.system) "syncfs" rows)
get-group_by_example = get-group_by rows (λ r. r.system) "syncfs"

median_range_cases_example :
    ((median_range 10150 (10250 ∷ []) 1 "" ≡ alone 10150 (10250 ∷ []) 1 "")
      × (figure 1 (greatest 10150 (10250 ∷ [])) ≤ figure 1 (least 10150 (10250 ∷ [])) + 1))
    ⊎ ((median_range 10150 (10250 ∷ []) 1 "" ≡ ranged 10150 (10250 ∷ []) 1 "")
        × ((figure 1 (least 10150 (10250 ∷ [])) ≢ figure 1 (greatest 10150 (10250 ∷ [])))
            ⊎ ((greatest 10150 (10250 ∷ []) - least 10150 (10250 ∷ [])) * 10 ^ 1 ≡ 10000)))
median_range_cases_example = median_range_cases 10150 (10250 ∷ []) 1 ""

cell_text_lem_example :
    cell_text (λ r. r.size_bytes) propagation_s rows "syncfs" 4096 10
    ≡ shown_of
        (λ r. r.size_bytes)
        propagation_s
        rows
        "syncfs"
        4096
        10
        (own_rows (λ r. r.size_bytes) propagation_s rows "syncfs" 4096 10)
cell_text_lem_example = cell_text_lem (λ r. r.size_bytes) propagation_s rows "syncfs" 4096 10

matrix_table-Rectangular_example :
    (body : List (List (List String))) × (matrix_table rows propagation_s "s" "c" "l"
      ≡ some (
          Grid.table_lines "Size" rows
            (Grid.node_counts (λ r. r.size_bytes) propagation_s rows)
            body
            "s"
            "c"
            "l"))
    × Rectangular (λ r. r.size_bytes) propagation_s rows human body
matrix_table-Rectangular_example = matrix_table-Rectangular rows propagation_s "s" "c" "l" refl

abbrev miss : MissKey
miss =
    miss_key
      (record (sample "syncfs" "default" 10 6000) { converged = false; missing = "sfs2" ∷ [] })

abbrev repeat : RepeatKey
repeat = repeat_key (sample "syncfs" "default" 10 4000)

miss_rows_lem_example :
    (total (miss_rows rows) ≡ bad_count rows) × (length (miss_rows rows) ≡ length (misses rows))
miss_rows_lem_example = miss_rows_lem rows

macros_run : macros rows ≡ "" ∷ []
unfolding macros macros_of macro_median cell_values
macros_run = refl

summary_cells_lem_example : runs (summary_cells rows) ≡ 3
summary_cells_lem_example = summary_cells_lem rows

summary_run :
    map (summary_line propagation_s) (summary_cells rows)
    ≡ "bucketfs   default   10     4 KiB     0.800     0.800     0.800   1    0"
      ∷ "syncfs     default   10     4 KiB     0.500     0.400     0.600   2    1" ∷ []
unfolding summary_cells summary_line sorted_cells group_by
summary_run = refl

run_tables-InOrder_example :
    (d : Document) × (lines : List String) × (run_tables (some "macros.tex") rows ≡ some (0, d))
    × Opens (some "macros.tex") (tabulated rows) (3 - length (tabulated rows)) lines d
    × InOrder (tabulated rows) lines
run_tables-InOrder_example =
    run_tables-InOrder (some "macros.tex") (sample "syncfs" "default" 10 4000)
      (sample "bucketfs" "default" 10 8000
        ∷ record (sample "syncfs" "default" 10 6000) { converged = false; missing = "sfs2" ∷ [] }
        ∷ [])
      refl

no_rows : run_tables none [] ≡ some (1, record { out = []; defs = none })
unfolding run_tables
no_rows = refl
