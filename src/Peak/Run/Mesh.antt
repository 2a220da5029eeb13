-- ===== src/Peak/Run/Mesh.antt =====
-- `run` of tools/measure/measure_peak.py round its loop: the daemons, their files, and what is reported.
use syncfs.Base.{
  ℕ, ◌+◌, ◌*◌, max, Bool, true, false, Option, none, some, List, [], ◌∷◌, String, ◌<>◌,
  if◌then◌else◌, nat_beq, map,
}
use mathlib.Core.Option
use syncfs.Base.Int.{ℤ, sub_ℕ}
use syncfs.Base.Decimal.{show}
use syncfs.Base.Exec.{runtime_error, os_error, Exec, pure, raise, call, finally, ◌>>=◌, ◌>>◌}
use syncfs.Host.{Host}
use syncfs.Podman.{list_text}
use syncfs.Matrix.Rows.{range}
use syncfs.Matrix.Workshop.{first_of}
use syncfs.Peak.{peak_peers}
use syncfs.Peak.Run.{Daemons, Sampled, zero_padded, search_files, paths_of}

pub record Outcome : Type 0 where
  pub nodes : ℕ
  pub files : ℕ
  pub size : ℕ
  pub converged : Bool
  pub peak_fd : ℕ
  pub peak_peers : ℕ
  pub peak_torrents : ℕ
  pub product : ℤ

abbrev pub addr_of : ℕ → String
addr_of n = "localhost:" <> show (6200 + n)

abbrev pub file_name : ℕ → String
file_name n = "f" <> zero_padded 4 n

-- the indices of the processes that have exited, of which `i` is the first's
abbrev pub put_if : Bool → ℕ → List ℕ → List ℕ
put_if true i is = i ∷ is
put_if false i is = is

module _ (H : Host) (D : Daemons H) where
  abbrev pub terminate_all : List ℕ → H.State → H.State
  terminate_all [] s = s
  terminate_all (p ∷ ps) s = terminate_all ps (D.terminate p s)

  abbrev pub kill_if : ℕ → Bool × H.State → H.State
  kill_if p (true, s) = D.kill p s
  kill_if p (false, s) = s

  abbrev pub wait_all : List ℕ → H.State → H.State
  wait_all [] s = s
  wait_all (p ∷ ps) s = wait_all ps (kill_if p (D.wait p s))

  -- `terminate` of each, and then the `wait` of each with its `kill`
  unfoldable pub reap : List ℕ → H.State → H.State
  reap procs s = wait_all procs (terminate_all procs s)

  abbrev pub greater : ℕ × ℕ → ℕ × ℕ → ℕ × ℕ
  greater (peers, torrents) (pk, tk) = (max peers pk, max torrents tk)

  unfoldable pub read_logs : List ℕ → ℕ × ℕ → Exec H.State (ℕ × ℕ)
  unfolding peak_peers
  read_logs [] best = pure best
  read_logs (f ∷ fs) best = do text ← D.read_log f; read_logs fs (greater best (peak_peers text))

  -- `[i for i, p in enumerate(procs) if p.poll() is not None]`
  unfoldable pub dead_from : ℕ → List ℕ → H.State → List ℕ × H.State
  dead_from i [] s = ([], s)
  dead_from i (p ∷ ps) s =
      let (gone, s') = D.has_exited p s in
      let (later, s'') = dead_from (i + 1) ps s' in (put_if gone i later, s'')

  unfoldable pub write_files : Option String → ℕ → List String → Exec H.State (Unit {0})
  write_files dir size [] = pure tt
  write_files none size (n ∷ names) = raise (os_error "IndexError")
  write_files (some dir) size (n ∷ names) = do
    D.write_bytes (dir <> ("/" <> n)) size
    write_files (some dir) size names

  -- the addresses of the others, as a peers file names them
  unfoldable pub others : ℕ → ℕ → List String → List String
  others j index [] = []
  others j index (a ∷ addrs) =
      let later = others (j + 1) index addrs in
      if nat_beq j index then later else ("tcp://" <> a) ∷ later

  abbrev pub join_lines : List String → String
  join_lines [] = ""
  join_lines (l ∷ []) = l
  join_lines (l ∷ k ∷ ls) = l <> ("\n" <> join_lines (k ∷ ls))

  unfoldable pub peers_file : String → ℕ → List String → Exec H.State String
  unfolding others
  peers_file directory index addrs = do
    D.write_text (directory <> ("/peers" <> zero_padded 2 index))
        (join_lines (others 0 index addrs))
    pure (directory <> ("/peers" <> zero_padded 2 index))

  unfoldable pub spawn : String → ℕ → List String → List String → List ℕ → Exec H.State (List ℕ)
  unfolding peers_file
  spawn scratch i addrs [] logs = pure []
  spawn scratch i addrs (d ∷ ds) [] = raise (os_error "IndexError")
  spawn scratch i addrs (d ∷ ds) (log ∷ logs) = do
    peers ← peers_file scratch i addrs
    pid ← D.popen peers (addr_of i) d log
    later ← spawn scratch (i + 1) addrs ds logs
    pure (pid ∷ later)

  abbrev pub summary : ℕ → ℕ → ℕ → Bool → ℕ → ℕ × ℕ → Outcome
  summary nodes files size converged peak (peers, torrents) = record {
    nodes = nodes;
    files = files;
    size = size;
    converged = converged;
    peak_fd = peak;
    peak_peers = peers;
    peak_torrents = torrents;
    product = sub_ℕ (files * nodes) files;
  }

  abbrev pub outcome_of : ℕ → ℕ → ℕ → Option Sampled → ℕ × ℕ → Option Outcome
  outcome_of nodes files size none best = none
  outcome_of nodes files size (some p) best =
      Option.map (λ peak. summary nodes files size p.converged peak best) p.peak

  module _ (nodes files size : ℕ) where
    -- What follows the test for dead nodes.
    unfoldable pub observe :
        ℕ → ℕ → List String → List ℕ → List ℕ → List ℕ → Exec H.State (Option Outcome)
    unfolding write_files search_files reap read_logs paths_of
    observe fuel budget dirs logs procs (i ∷ dead) =
        raise
          (runtime_error ("nodes [" <> (list_text (i ∷ dead) <> "] exited before the run began")))
    observe fuel budget dirs logs procs [] = do
      write_files (first_of dirs) size (map file_name (range files))
      found ← search_files H D fuel procs (paths_of H D dirs (map file_name (range files))) budget
      call (λ s. (tt, reap procs s))
      best ← read_logs logs (0, 0)
      pure (outcome_of nodes files size found best)

    unfoldable pub run_mesh : ℕ → ℕ → String → List String → List ℕ → Exec H.State (Option Outcome)
    unfolding spawn dead_from observe
    run_mesh fuel budget scratch dirs logs = do
      procs ← spawn scratch 0 (map addr_of (range nodes)) dirs logs
      call (λ s. (tt, H.sleep 3000000 s))
      dead ← call (dead_from 0 procs)
      observe fuel budget dirs logs procs dead

    -- the `finally`: the logs are closed, and the directories are removed
    unfoldable pub tidy_up : List ℕ → List String → Exec H.State (Unit {0})
    tidy_up [] [] = pure tt
    tidy_up [] (d ∷ ds) = do D.cleanup d; tidy_up [] ds
    tidy_up (f ∷ fs) ds = do D.close_log f; tidy_up fs ds

    unfoldable pub make_dirs : List ℕ → Exec H.State (List String)
    make_dirs [] = pure []
    make_dirs (i ∷ is) = do d ← D.mkdtemp; ds ← make_dirs is; pure (d ∷ ds)

    unfoldable pub open_logs : String → List ℕ → Exec H.State (List ℕ)
    open_logs scratch [] = pure []
    open_logs scratch (i ∷ is) = do
      f ← D.open_log (scratch <> ("/log" <> zero_padded 2 i))
      fs ← open_logs scratch is
      pure (f ∷ fs)

    -- inside of the scratch directory
    unfoldable pub run_in : ℕ → ℕ → String → Exec H.State (Option Outcome)
    unfolding run_mesh tidy_up make_dirs open_logs finally
    run_in fuel budget scratch = do
      dirs ← make_dirs (range nodes)
      logs ← open_logs scratch (range nodes)
      finally (run_mesh fuel budget scratch dirs logs) (tidy_up logs dirs)

    unfoldable pub run : ℕ → ℕ → Exec H.State (Option Outcome)
    unfolding run_in finally
    run fuel budget = do
      scratch ← D.mkdtemp
      finally (run_in fuel budget scratch) (D.cleanup scratch)
