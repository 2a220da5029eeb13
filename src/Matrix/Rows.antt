-- ===== src/Matrix/Rows.antt =====
-- The rows of the results file, the keys by which a finished cell is known again, and the cells
-- that are still wanted: `append`, `done_cells` and the comprehensions over `SIZES` and `repeats` of
-- tools/measure/bucketfs/run_matrix.py.

use syncfs.Base.{
  arith, length, ◌≡◌, refl, ℕ, zero, suc, ◌+◌, Bool, not, Option, none, some, List, [], ◌∷◌, ◌++◌,
  map, String, keep,
}
use syncfs.Base.Int.{ℤ}
use syncfs.Base.Decimal.{show}
use syncfs.Base.Exec.{Result, ok, raised}
use syncfs.Base.Equality.{string_eq, pair_eq, contains}

-- What `summarise` and `row.update` put into a row.
pub record Measure : Type 0 where
  pub ingest_s : Option ℤ
  pub propagation_s : Option ℤ
  pub fanout_s : Option ℤ
  pub converged : Bool
  pub distinct_hashes : ℕ
  pub arrivals : List (String × Option ℤ)
  pub nofile : Option ℕ
  pub loadavg : ℕ

-- A row, with the names of `FIELDS`.
pub record Row : Type 0 where
  pub experiment : String
  pub system : String
  pub config : String
  pub nodes : ℕ
  pub size_bytes : ℕ
  pub file_count : ℕ
  pub repeat : ℕ
  pub t0 : ℕ
  pub measure : Measure

-- The seven columns, as the text that a CSV reader returns.
abbrev pub Key : Type 0
Key = String × (String × (String × (String × (String × (String × String)))))

abbrev pub key_of : String → String → String → ℕ → ℕ → ℕ → ℕ → Key
key_of experiment system config nodes size count repeat =
    (experiment, (system, (config, (show nodes, (show size, (show count, show repeat))))))

abbrev pub row_key : Row → Key
row_key r = key_of r.experiment r.system r.config r.nodes r.size_bytes r.file_count r.repeat

-- The file, `none` where it does not exist. A file that exists has its header.
abbrev pub Csv : Type 0
Csv = Option (List Row)

abbrev pub rows_of : Csv → List Row
rows_of none = []
rows_of (some rows) = rows

unfoldable pub append : Csv → Row → Csv
append none row = some (row ∷ [])
append (some rows) row = some (rows ++ (row ∷ []))

-- The file behind the call that writes the row: an error leaves the rows as they were.
abbrev pub saved : Result (Unit {0}) → Csv → Row → Csv
saved (ok u) out row = append out row
saved (raised e) out row = out

unfoldable pub done_cells : Csv → List Key
done_cells none = []
done_cells (some rows) = map row_key rows

abbrev pub range_from : ℕ → ℕ → List ℕ
range_from start zero = []
range_from start (suc n) = start ∷ range_from (start + 1) n

pub length-range_from : (start n : ℕ) → length (range_from start n) ≡ n
length-range_from start zero = refl
length-range_from start (suc n) = omega (arith, length-range_from (start + 1) n)

-- `range(n)`
abbrev pub range : ℕ → List ℕ
range n = range_from 0 n

-- `for size in sizes for repeat in range(repeats)`
unfoldable pub grid : List ℕ → ℕ → List (ℕ × ℕ)
grid [] repeats = []
grid (size ∷ sizes) repeats = map (λ repeat. (size, repeat)) (range repeats) ++ grid sizes repeats

-- `wanted`: the cells of the grid whose key is not in `done`
unfoldable pub wanted : (ℕ × ℕ → Key) → List Key → List (ℕ × ℕ) → List (ℕ × ℕ)
wanted key done cells = keep (λ c. not (contains (key c) done)) cells
