-- ===== src/Tables/Document.antt =====
-- `main` of tools/measure/bucketfs/tex_tables.py, behind its command line: what is written, and where.
pub mod Written
use syncfs.Base.{
  ℕ, Bool, true, false, not, Option, none, some, List, [], ◌∷◌, ◌++◌, map, String, ◌<>◌, is_empty,
  keep, length,
}
use syncfs.Base.Equality.{◌==◌, string_eq}
use syncfs.Tables.Samples.{Sample, Metric, propagation_s, fanout_s, drop_arm}
use syncfs.Tables.Grid.{matrix_table, tree_table}
use syncfs.Tables.Baseline.{baseline_table}
use syncfs.Tables.Macros.{macros}
use syncfs.Tables.Notes.{environment_note, generated}
use syncfs.Tables.Notes.Verdicts.{Verdict, scenario_lines}
use syncfs.Tables.Notes.Misses.{nonconvergence_note}

abbrev pub verdict_line : Verdict → String
verdict_line v =
    v.scenario
    <> (" & " <> (v.requirement <> (" & " <> (v.measured <> (" & " <> (v.verdict <> " \\\\"))))))

unfoldable pub scenario_table : List Sample → List String
unfolding scenario_lines
scenario_table rows =
    "\\begin{table}[H]"
    ∷ "\\centering"
    ∷ "\\footnotesize"
    ∷ "\\begin{tabular}{lp{5.0cm}p{3.6cm}l}"
    ∷ "\\hline"
    ∷ "Scenario & Requirement & Measured & Verdict \\\\"
    ∷ "\\hline"
    ∷ (map verdict_line (scenario_lines rows)
        ++ ("\\hline"
            ∷ "\\end{tabular}"
            ∷ ("\\caption[The requirements against the measured medians]"
                <> ("{The requirements the matrix was run to answer, against "
                    <> "syncfs's measured medians.}"))
            ∷ "\\label{tab:results-scenarios}"
            ∷ "\\end{table}"
            ∷ ""
            ∷ []))

-- `if b:` round what prints a table
abbrev pub when : Bool → Option (List String) → Option (List String)
when true part = part
when false part = some []

-- One part behind the other; an exception ends the writing.
abbrev pub behind : List String → Option (List String) → Option (List String)
behind lines none = none
behind lines (some more) = some (lines ++ more)

abbrev pub in_order : List (Option (List String)) → Option (List String)
in_order [] = some []
in_order (none ∷ parts) = none
in_order (some lines ∷ parts) = behind lines (in_order parts)

abbrev pub of_experiment : String → List Sample → List Sample
of_experiment e rows = keep (λ r. r.experiment == e) rows

abbrev pub propagation_table : List Sample → Option (List String)
propagation_table rows =
    matrix_table rows propagation_s "Propagation time by node count and file size"
      ("Propagation time in seconds, median with range: from the first "
        <> ("byte written to the last node holding the whole file. This is "
            <> "the user-visible number."))
      "tab:results-propagation"

abbrev pub fanout_table : List Sample → Option (List String)
fanout_table rows =
    matrix_table rows fanout_s "Fan-out time by node count and file size"
      ("Fan-out time in seconds, median with range: from the writer "
        <> ("holding the file to the last node holding it. Replication "
            <> ("alone, and the only term that compares the two mechanisms " <> "directly.")))
      "tab:results-fanout"

abbrev pub files_table : List Sample → Option (List String)
files_table rows =
    tree_table rows "Propagation time for many small files written at once"
      ("Propagation time in seconds for $4$\\,KiB files written at "
        <> "once, median with range: the UDF-load case.")
      "tab:results-manyfiles"

abbrev pub has_rows : List Sample → Bool
has_rows rows = not (is_empty rows)

-- What is printed behind the opening, in its order.
abbrev pub parts_of : List Sample → List (Option (List String))
parts_of rows =
    when (has_rows (of_experiment "A" rows)) (propagation_table (of_experiment "A" rows))
    ∷ when (has_rows (of_experiment "A" rows)) (fanout_table (of_experiment "A" rows))
    ∷ when (has_rows (of_experiment "B" rows)) (files_table (of_experiment "B" rows))
    ∷ when (has_rows (of_experiment "C" rows)) (baseline_table rows)
    ∷ when (has_rows (of_experiment "A" rows)) (some (scenario_table rows))
    ∷ nonconvergence_note rows
    ∷ []

unfoldable pub tables_of : List Sample → Option (List String)
unfolding matrix_table tree_table baseline_table scenario_table nonconvergence_note
tables_of rows = in_order (parts_of rows)

-- The lines of the two files, of which the second is none where the macros go into the first.
pub record Document : Type 0 where
  pub out : List String
  pub defs : Option (List String)

-- The lines before the tables, for the name of the file of macros, if there is one.
unfoldable pub opening : Option String → List Sample → ℕ → Document
unfolding environment_note macros
opening none rows dropped = record {
  out = environment_note rows dropped ++ macros rows;
  defs = none;
}
opening (some name) rows dropped = record {
  out = generated ∷ ("% Macros for the prose are in " <> (name <> ".")) ∷ "" ∷ [];
  defs = some (environment_note rows dropped ++ macros rows);
}

abbrev pub closed_by : Document → Option (List String) → Option Document
closed_by d none = none
closed_by d (some tables) = some (record d { out = d.out ++ tables })

-- What is written in the end, with the exit code; `none` is an exception, which leaves a part of it.
-- Without a row nothing is opened.
unfoldable pub run_tables : Option String → List Sample → Option (ℕ × Document)
unfolding tables_of opening drop_arm
run_tables name [] = some (1, record { out = []; defs = none })
run_tables name (r ∷ rows) =
    let (kept, dropped) = drop_arm (r ∷ rows) in
    elim (closed_by (opening name kept (length dropped)) (tables_of kept)) [
      | none ↦ none
      | some d ↦ some (0, d)
    ]
