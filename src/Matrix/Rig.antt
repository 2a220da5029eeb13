-- ===== src/Matrix/Rig.antt =====
-- What an experiment of tools/measure/bucketfs/run_matrix.py asks of a cluster and of the file
-- system under it.
use syncfs.Base.{ℕ, ◌≡◌, Bool, true, false, String}
use syncfs.Base.Exec.{Result, ok, raised, Exec}
use syncfs.Matrix.Rows.{Measure, Row}

pub record Rig : Type 1 where
  pub State : Type 0
  pub Info : Type 0
  pub time : State → ℕ × State
  -- `mkdir(parents=True, exist_ok=True)`
  pub mkdir : String → Exec State (Unit {0})
  pub cluster_up : String → ℕ → String → ℕ → Exec State Info
  pub cluster_down : String → ℕ → String → Exec State (Unit {0})
  pub propagation_cell : Info → ℕ → ℕ → String → Exec State Measure
  pub tree_cell : Info → ℕ → ℕ → String → Exec State Measure
  -- `open(out, "a")`, the row, behind the header where the file is new, and the close
  pub save : Row → Exec State (Unit {0})
  pub clear_cell : Info → String → Exec State (Unit {0})

abbrev pub is_ok {ℓ} : {A : Type ℓ} → Result A → Bool
is_ok (ok a) = true
is_ok (raised e) = false

-- Taking a cluster down does not raise: `podman rm -f` is run unchecked, and errors of the
-- removal are ignored.
pub record IsTidy (R : Rig) : Type 0 where
  pub down_ok :
      (system : String) (nodes : ℕ) (root : String) (s : R.State)
      → is_ok (R.cluster_down system nodes root s).0 ≡ true
