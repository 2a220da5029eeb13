-- ===== src/Peak/Run.antt =====
-- `run` of tools/measure/measure_peak.py: a mesh of daemons, watched until every node has every file.
-- The clock of the machine is `time.monotonic()` here.
pub mod Seen
pub mod Mesh
use syncfs.Base.{
  ℕ, ◌+◌, ◌-◌, ◌*◌, max, Bool, true, false, not, Option, none, some, List, [], ◌∷◌, String, ◌<>◌,
  if◌then◌else◌, ltb, nat_beq, ◌^◌, ◌++◌, map,
}
use mathlib.Core.Option
use syncfs.Base.Int.{ℤ, pos, negsuc, sub_ℕ}
use syncfs.Base.Decimal.{show}
use syncfs.Base.Exec.{
  Result, ok, raised, runtime_error, os_error, Exec, pure, raise, call, finally, ◌>>=◌, ◌>>◌,
}
use syncfs.Host.{Host}
use syncfs.Podman.{list_text}
use syncfs.Poller.Loop.{poll}
use syncfs.Matrix.Rows.{range}
use syncfs.Tables.Figures.{padded}
use syncfs.Matrix.Workshop.{first_of}
use syncfs.Peak.{peak_peers}

-- The processes, and the directories and files of a run.
pub record Daemons (H : Host) : Type 0 where
  pub mkdtemp : Exec H.State String
  pub cleanup : String → Exec H.State (Unit {0})
  -- `open(path, "w+")`, its close, and all of it after a flush and a seek
  pub open_log : String → Exec H.State ℕ
  pub close_log : ℕ → Exec H.State (Unit {0})
  pub read_log : ℕ → Exec H.State String
  pub write_text : String → String → Exec H.State (Unit {0})
  -- `Popen(["syncfs", peers, addr], cwd=…, stdout=log)`
  pub popen : String → String → String → ℕ → Exec H.State ℕ
  -- `poll() is not None`
  pub has_exited : ℕ → H.State → Bool × H.State
  -- `len(os.listdir(f"/proc/{pid}/fd"))`, or none for the errors that are caught
  pub list_fds : ℕ → H.State → Option ℕ × H.State
  pub write_bytes : String → ℕ → Exec H.State (Unit {0})
  pub is_file : String → H.State → Bool × H.State
  pub terminate : ℕ → H.State → H.State
  -- `wait(timeout=20)`, and whether the timeout expired
  pub wait : ℕ → H.State → Bool × H.State
  pub kill : ℕ → H.State → H.State

-- What the loop keeps: the peak, none once the fuel of the inner loop ran out, and `converged`.
pub record Sampled : Type 0 where
  pub peak : Option ℕ
  pub converged : Bool

abbrev pub searching : Sampled → Bool
searching p = not p.converged

abbrev pub always : Option ℕ → Bool
always p = true

abbrev pub count_of : Option ℕ → ℤ
count_of none = negsuc 0
count_of (some n) = pos n

-- `max(peak_fd, fd_count(p.pid))`, with a peak that is not negative
abbrev pub raise_peak : ℕ → ℤ → ℕ
raise_peak peak (pos n) = max peak n
raise_peak peak (negsuc n) = peak

-- `f"{n:0{width}}"`
abbrev pub zero_padded : ℕ → ℕ → String
zero_padded width n = if ltb n (10 ^ width) then padded width n else show n

module _ (H : Host) (D : Daemons H) where
  -- `for p in procs: peak_fd = max(peak_fd, fd_count(p.pid))`
  unfoldable pub sample : List ℕ → Option ℕ → H.State → Option ℕ × H.State
  sample procs none s = (none, s)
  sample [] (some peak) s = (some peak, s)
  sample (p ∷ ps) (some peak) s =
      let (fds, s') = D.list_fds p s in sample ps (some (raise_peak peak (count_of fds))) s'

  abbrev pub and_then : (H.State → Bool × H.State) → Bool × H.State → Bool × H.State
  and_then rest (false, s) = (false, s)
  and_then rest (true, s) = rest s

  -- `all(… is_file() for d in dirs for n in names)`, which stops at the first that is missing
  unfoldable pub all_files : List String → H.State → Bool × H.State
  all_files [] s = (true, s)
  all_files (p ∷ ps) s = and_then (all_files ps) (D.is_file p s)

  abbrev pub paths_in : String → List String → List String
  paths_in dir [] = []
  paths_in dir (n ∷ names) = (dir <> ("/" <> n)) ∷ paths_in dir names

  unfoldable pub paths_of : List String → List String → List String
  paths_of [] names = []
  paths_of (d ∷ dirs) names = paths_in d names ++ paths_of dirs names

  -- `fuel` is for each of the two loops.
  module _ (fuel : ℕ) (procs : List ℕ) (paths : List String) where
    abbrev pub sample_again : Option ℕ → Exec H.State (Option ℕ)
    sample_again p = call (sample procs p)

    abbrev pub flat : Option (Option ℕ) → Option ℕ
    flat none = none
    flat (some p) = p

    -- The four seconds after every node has every file; none where the fuel runs out.
    unfoldable pub settle_down : Option ℕ → Exec H.State (Option ℕ)
    unfolding sample
    settle_down peak = do
      t ← call H.time
      last ← poll H always sample_again fuel 100000 (t + 4000000) peak
      pure (flat last)

    abbrev pub conclude : Option ℕ → Bool → Exec H.State Sampled
    conclude peak false = pure (record { peak = peak; converged = false })
    conclude peak true = do p ← settle_down peak; pure (record { peak = p; converged = true })

    -- one round of the loop, up to its sleep
    unfoldable pub round : Sampled → Exec H.State Sampled
    unfolding all_files settle_down
    round p = do peak ← call (sample procs p.peak); all ← call (all_files paths); conclude peak all

    -- the loop; none where the fuel runs out
    unfoldable pub search_files : ℕ → Exec H.State (Option Sampled)
    unfolding round
    search_files budget = do
      t ← call H.time
      poll H searching round fuel 100000 (t + budget) (record { peak = some 0; converged = false })
