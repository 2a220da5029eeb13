-- ===== src/Readiness.antt =====
-- The loop in which both cluster scripts of tools/measure/bucketfs wait for their containers: ask
-- podman for the state of each pending one, report one that has exited, and probe the others.
pub mod Heard
use syncfs.Base.{
  ℕ, ◌+◌, Bool, true, false, not, Option, none, some, List, [], ◌∷◌, String, ◌<>◌, if◌then◌else◌,
  is_empty,
}
use syncfs.Base.Equality.{◌==◌, string_eq}
use syncfs.Base.Exec.{Result, ok, raised, runtime_error, Exec, pure, raise, call, ◌>>=◌}
use syncfs.Host.{Host}
use syncfs.Podman.{Podman, list_text}
use syncfs.Poller.Loop.{poll}

-- `name` is the name of a node's container, and `probe` the question whether the node is ready.
module _ (H : Host) (P : Podman H) (name : ℕ → String) (probe : ℕ → H.State → Bool × H.State) where
  -- A container that has exited, with the end of its log.
  abbrev pub exited : ℕ → String × H.State → Result Bool × H.State
  exited i (log, s) = (raised (runtime_error (name i <> (" exited during startup:\n" <> log))), s)

  abbrev pub answer : Bool × H.State → Result Bool × H.State
  answer (ready, s) = (ok ready, s)

  unfoldable pub judge : ℕ → String × H.State → Result Bool × H.State
  judge i (state, s) =
      if state == "exited" then exited i (P.tail (name i) s) else answer (probe i s)

  -- whether a node is seen to be ready
  unfoldable pub is_ready : ℕ → Exec H.State Bool
  unfolding judge
  is_ready i s = judge i (P.status (name i) s)

  -- one round, and the nodes that are pending after it
  unfoldable pub ready_each : List ℕ → Exec H.State (List ℕ)
  unfolding is_ready
  ready_each [] = pure []
  ready_each (i ∷ is) = do
    ready ← is_ready i
    left ← ready_each is
    pure (if ready then left else i ∷ left)

  abbrev pub waiting : List ℕ → Bool
  waiting pending = not (is_empty pending)

  -- The nodes that are pending when the loop ends; `none` where the fuel runs out. The ids ascend, as
  -- `node_ids` gives them, so a round takes them in the order of `sorted(pending)`.
  unfoldable pub wait_pending : ℕ → ℕ → List ℕ → ℕ → Exec H.State (Option (List ℕ))
  unfolding ready_each
  wait_pending fuel interval ids deadline = do
    t ← call H.time
    poll H waiting ready_each fuel interval (t + deadline) ids

  -- `raise RuntimeError(f"nodes not ready within {deadline}s: {sorted(pending)}")`
  abbrev pub not_ready : ℕ → List ℕ → Exec H.State (Option (Unit {0}))
  not_ready deadline pending = raise (
      runtime_error (
        "nodes not ready within "
        <> (P.seconds deadline <> ("s: [" <> (list_text pending <> "]")))))
