-- ===== src/Matrix/Main.antt =====
-- `main` of tools/measure/bucketfs/run_matrix.py, behind its command line: the plan, the sizes, and the
-- experiment that is run.
pub mod Ends
use Prim.Native.Char.{Char, code}
use syncfs.Base.{
  ℕ, ◌*◌, Bool, true, false, Option, none, some, List, [], ◌∷◌, ◌++◌, map, String, if◌then◌else◌,
  nat_beq,
}
use syncfs.Base.Exec.{Result, ok, raised, os_error, Exec, pure, raise, ◌>>=◌, ◌>>◌}
use syncfs.Host.{Host}
use syncfs.Podman.{Podman}
use syncfs.Exasol.{Files}
use syncfs.Peak.{onto_first, number}
use syncfs.Poller.Watch.{Record}
use syncfs.Matrix.Payload.{mib}
use syncfs.Matrix.Workshop.{Workshop}
use syncfs.Matrix.Bucket.{whole}
use syncfs.Matrix.Experiments.{Arm, Bench, experiment_a, experiment_b}
use syncfs.Matrix.Drive.{Purge, drive}
use syncfs.Matrix.Plain.{Disk, Ledger, on_host, experiment_c}

-- `SIZES`
abbrev pub default_sizes : List ℕ
default_sizes = 1024 ∷ mib ∷ (100 * mib) ∷ (1024 * mib) ∷ (4096 * mib) ∷ []

abbrev pub arm_of : String → String → ℕ → ℕ → Arm
arm_of system config sync_period n = record {
  system = system;
  config = config;
  nodes = n;
  sync_period = sync_period;
}

unfoldable pub default_plan : List Arm
default_plan =
    map (arm_of "syncfs" "default" 0) (2 ∷ 4 ∷ 10 ∷ 20 ∷ [])
    ++ map (arm_of "bucketfs" "default" 30000) (2 ∷ 4 ∷ [])
    ++ map (arm_of "bucketfs" "tuned" 1000) (2 ∷ 4 ∷ [])

-- `text.split(",")`
abbrev pub split_commas : String → List String
split_commas String.[] = String.[] ∷ []
split_commas (String.◌∷◌ c s) =
    let rest = split_commas s in if nat_beq (code c) 44 then String.[] ∷ rest else onto_first c rest

-- `int(s)` of digits
abbrev pub int_of : Option (String × String) → Option ℕ
int_of none = none
int_of (some parts) = whole parts

abbrev pub put_first : Option ℕ → Option (List ℕ) → Option (List ℕ)
put_first none rest = none
put_first (some n) none = none
put_first (some n) (some ns) = some (n ∷ ns)

abbrev pub ints_of : List String → Option (List ℕ)
ints_of [] = some []
ints_of (t ∷ ts) = put_first (int_of (number t)) (ints_of ts)

-- `[int(s) for s in text.split(",")]`, and none for a ValueError
unfoldable pub numbers_of : String → Option (List ℕ)
unfolding number
numbers_of text = ints_of (split_commas text)

pub data Experiment : Type 0 where
  propagation small_files ingest : Experiment

-- The arguments; `plan` is the file's content, if one is given.
pub record Arguments : Type 0 where
  pub experiment : Experiment
  pub root : String
  pub repeats : ℕ
  pub sizes : Option String
  pub plan : Option (List Arm)
  pub counts : String

abbrev pub plan_of : Option (List Arm) → List Arm
unfolding default_plan
plan_of none = default_plan
plan_of (some plan) = plan

abbrev pub sizes_of : Option String → Option (List ℕ)
unfolding numbers_of
sizes_of none = some default_sizes
sizes_of (some text) = if is_blank text then some default_sizes else numbers_of text
  where
    is_blank : String → Bool
    is_blank String.[] = true
    is_blank (String.◌∷◌ c s) = false

module _ (H : Host) (P : Podman H) (F : Files H) (G : Purge H) (W : Workshop H) (D : Disk H)
    (dumps : Record → String) (fuel : ℕ) where
  abbrev pub with_numbers :
      Option (List ℕ) → (List ℕ → Exec (Bench H.State) (Unit {0})) → Exec (Bench H.State) (Unit {0})
  with_numbers none f = raise (os_error "ValueError")
  with_numbers (some ns) f = f ns

  -- The results file is the bench's. The counts are read for the second experiment only.
  unfoldable pub dispatch : Experiment → Arguments → List ℕ → Exec (Bench H.State) (Unit {0})
  unfolding experiment_a experiment_b experiment_c numbers_of
  dispatch propagation a sizes =
      experiment_a (drive H P F G W dumps fuel) a.root sizes a.repeats (plan_of a.plan)
  dispatch small_files a sizes =
      with_numbers (numbers_of a.counts) (λ counts.
        experiment_b (drive H P F G W dumps fuel) a.root counts a.repeats (plan_of a.plan))
  dispatch ingest a sizes = experiment_c H W D a.root sizes a.repeats

  unfoldable pub main_matrix : Arguments → Exec (Bench H.State) (Unit {0})
  unfolding dispatch
  main_matrix a =
      with_numbers (sizes_of a.sizes)
        (λ sizes. do on_host H W D (D.mkdir a.root); dispatch a.experiment a sizes)
