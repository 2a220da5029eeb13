-- ===== src/Tables/Macros.antt =====
-- `macros` of tools/measure/bucketfs/tex_tables.py: the numbers that the prose quotes.
use syncfs.Base.{
  ℕ, suc, ◌*◌, ◌&&◌, Option, none, some, List, [], ◌∷◌, ◌++◌, String, ◌<>◌, nat_beq, keep,
}
use syncfs.Base.Equality.{◌==◌, string_eq}
use syncfs.Tables.Samples.{Sample, Metric, propagation_s, ingest_s, cell_values}
use syncfs.Tables.Figures.{fixed, mib, gib}
use syncfs.Tables.Notes.Verdicts.{medians}

abbrev pub define_text : String → Option ℕ → ℕ → ℕ → List String
define_text name none den digits = []
define_text name (some value) den digits =
    ("\\newcommand{\\" <> (name <> ("}{" <> (fixed digits value den <> "}")))) ∷ []

-- `if ten and twenty:`, in which a median of 0 counts as none
abbrev pub scaling : String → Option ℕ → Option ℕ → List String
scaling name (some (suc ten)) (some (suc twenty)) = define_text name (some (suc twenty)) (suc ten) 2
scaling name ten twenty = []

module _ (rows : List Sample) where
  -- twice the median, in ten-thousandths of a second
  unfoldable pub macro_median : String → ℕ → ℕ → Metric → String → Option ℕ
  macro_median system nodes size metric experiment = medians (
      cell_values
        (keep
          (λ r.
            r.experiment == experiment
            && r.system == system
            && nat_beq r.nodes nodes
            && nat_beq r.size_bytes size)
          rows)
        metric)

  abbrev pub of_matrix : String → ℕ → ℕ → Option ℕ
  of_matrix system nodes size = macro_median system nodes size propagation_s "A"

  -- the six macros of one node count
  unfoldable pub macros_of : String × ℕ → List String
  unfolding macro_median fixed
  macros_of (label, nodes) =
      define_text ("syncfsGib" <> label) (of_matrix "syncfs" nodes gib) 20000 2
      ++ define_text ("syncfsFourGib" <> label) (of_matrix "syncfs" nodes (4 * gib)) 20000 2
      ++ define_text ("bucketfsGib" <> label) (of_matrix "bucketfs" nodes gib) 20000 2
      ++ define_text ("bucketfsFourGib" <> label) (of_matrix "bucketfs" nodes (4 * gib)) 20000 2
      ++ define_text ("syncfsHundredMib" <> label) (of_matrix "syncfs" nodes (100 * mib)) 20000 2
      ++ define_text ("bucketfsHundredMib" <> label) (of_matrix "bucketfs" nodes (100 * mib)) 20000
          2

  unfoldable pub macros : List String
  unfolding macros_of macro_median fixed
  macros =
      macros_of ("Two", 2)
      ++ macros_of ("Four", 4)
      ++ macros_of ("Ten", 10)
      ++ macros_of ("Twenty", 20)
      ++ scaling "syncfsGibScaling" (of_matrix "syncfs" 10 gib) (of_matrix "syncfs" 20 gib)
      ++ scaling "syncfsFourGibScaling" (of_matrix "syncfs" 10 (4 * gib))
          (of_matrix "syncfs" 20 (4 * gib))
      ++ define_text "plainGib" (macro_median "plainfile" 0 gib ingest_s "C") 20000 2
      ++ define_text "plainFourGib" (macro_median "plainfile" 0 (4 * gib) ingest_s "C") 20000 2
      ++ define_text "syncfsGibIngest" (macro_median "syncfs" 2 gib ingest_s "A") 20000 3
      ++ define_text "bucketfsGibIngest" (macro_median "bucketfs" 2 gib ingest_s "A") 20000 3
      ++ ("" ∷ [])
