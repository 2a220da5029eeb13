-- ===== src/Tables/Samples.antt =====
-- The rows that tools/measure/bucketfs/tex_tables.py reads, and its filters over them. Times are
-- read as ten-thousandths of a second, the precision with which the matrix writes them.
use syncfs.Base.{
  ℕ, ◌+◌, ◌≡◌, refl, Bool, not, ◌&&◌, Option, none, some, List, [], ◌∷◌, String, arith, keep,
  length,
}
use syncfs.Base.Equality.{◌==◌, string_eq}

pub data Metric : Type 0 where
  ingest_s propagation_s fanout_s : Metric

-- `time_of` of an empty column is `none`.
pub record Sample : Type 0 where
  pub experiment : String
  pub system : String
  pub config : String
  pub nodes : ℕ
  pub size_bytes : ℕ
  pub file_count : ℕ
  pub time_of : Metric → Option ℕ
  pub converged : Bool
  pub nofile : String
  pub loadavg : Option ℕ
  -- the nodes of `arrivals` whose value is null
  pub missing : List String

-- `(r["system"], r["config"]) == DROPPED_ARM`
abbrev pub is_dropped : Sample → Bool
is_dropped r = r.system == "bucketfs" && r.config == "tuned"

unfoldable pub drop_arm : List Sample → List Sample × List Sample
drop_arm rows = (keep (λ r. not (is_dropped r)) rows, keep is_dropped rows)

-- `[float(r[metric]) for r in group if r[metric]]`
unfoldable pub cell_values : List Sample → Metric → List ℕ
cell_values [] metric = []
cell_values (r ∷ rest) metric =
    let others = cell_values rest metric in
    elim (r.time_of metric) [ none ↦ others | some v ↦ v ∷ others ]

-- `sum(1 for r in rows if r["converged"] != "True")`
unfoldable pub bad_count : List Sample → ℕ
bad_count rows = length (keep (λ r. not r.converged) rows)

keep_split :
    (p : Sample → Bool) (rows : List Sample)
    → length (keep (λ r. not (p r)) rows) + length (keep p rows) ≡ length rows
keep_split p [] = refl
keep_split p (r ∷ rows) = ground (arith, keep_split p rows)

-- Dropping an arm loses no row: the rows kept and the rows dropped are together as many as the
-- rows read.
pub drop_arm-length :
    (rows : List Sample) → length (drop_arm rows).0 + length (drop_arm rows).1 ≡ length rows
unfolding drop_arm
drop_arm-length rows = keep_split is_dropped rows
