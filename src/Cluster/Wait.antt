-- ===== src/Cluster/Wait.antt =====
-- `wait_ready` of tools/measure/bucketfs/syncfs_cluster.py: the nodes are ready when it returns, and
-- it does come to an end.
use syncfs.Base.{ℕ, ◌+◌, ◌≤◌, ◌<◌, Option, none, some, List, [], ◌∷◌, String, arith, All}
use syncfs.Base.Exec.{Result, ok, raised, continue}
use syncfs.Host.{Host, IsClock}
use syncfs.Podman.{Podman, Root, container, subscribe_grace}
use syncfs.Readiness.{wait_pending}
use syncfs.Readiness.Heard.{Heard, Pending, none_left, wait_pending-Pending}
use syncfs.Cluster.{listen, settle, wait_ready}

-- Asking podman takes no negative time.
pub record IsPrompt {H : Host} (C : IsClock H) (P : Podman H) : Type 0 where
  pub status-le-now : (n : String) (s : H.State) → C.now s ≤ C.now (P.status n s).1
  pub pid-le-now : (n : String) (s : H.State) → C.now s ≤ C.now (P.pid n s).1
  pub limits-le-now : (n : String) (s : H.State) → C.now s ≤ C.now (P.limits n s).1
  pub network-le-now : (n : String) (s : H.State) → C.now s ≤ C.now (P.network_exists n s).1
  pub remove-le-now : (n : String) (s : H.State) → C.now s ≤ C.now (P.remove n s)
  pub run-le-now : (args : List String) (s : H.State) → C.now s ≤ C.now (P.run args s).1
  pub mkdir-le-now : (p : String) (s : H.State) → C.now s ≤ C.now (P.mkdir p s).1
  pub write-le-now : (p t : String) (s : H.State) → C.now s ≤ C.now (P.write_text p t s).1
  pub logs-le-now : (n : String) (s : H.State) → C.now s ≤ C.now (P.logs n s).1

module _ (H : Host) (C : IsClock H) (P : Podman H) (Q : IsPrompt C P) (root : Root) where
  open C use {now}

  listened : (i : ℕ) (s : H.State) → now s ≤ now (listen H P root i s).1
  listened i s = Q.logs-le-now (container root i) s

  -- The log of the node's container told of the start at a moment between `start` and `s`.
  abbrev pub Told : ℕ → ℕ → H.State → Type 0
  Told = Heard H C (listen H P root)

  -- The node was heard, and the time to subscribe has passed since.
  pub record Settled (start i : ℕ) (s : H.State) : Type 0 where
    pub at : H.State
    pub heard : Told start i at
    pub graced : now at + subscribe_grace ≤ now s

  abbrev pub Ready : ℕ → List ℕ → Result (Option (Unit {0})) × H.State → Type 0
  Ready start ids (raised e, s) = Unit
  Ready start ids (ok none, s) = ⊥
  Ready start ids (ok (some u), s) = All (λ i. Settled start i s) ids

  graced_each :
      (start : ℕ) (ids : List ℕ) (at s : H.State)
      → now at + subscribe_grace ≤ now s
      → All (λ i. Told start i at) ids
      → All (λ i. Settled start i s) ids
  graced_each start [] at s late h = tt
  graced_each start (i ∷ ids) at s late (h, hs) =
      (record { at = at; heard = h; graced = late }, graced_each start ids at s late hs)

  settle-Ready :
      (start : ℕ) (ids : List ℕ) (deadline : ℕ) (r : Result (Option (List ℕ)) × H.State)
      → Pending H C (listen H P root) start ids r
      → Ready start ids (continue r.0 (settle H P root deadline) r.1)
  settle-Ready start ids deadline (raised e, s) h = tt
  settle-Ready start ids deadline (ok none, s) h = h
  settle-Ready start ids deadline (ok (some (j ∷ js)), s) h = tt
  settle-Ready start ids deadline (ok (some []), s) h =
      graced_each start ids s (H.sleep subscribe_grace s) (C.sleep_lasts subscribe_grace s)
        (none_left H C (listen H P root) start ids s h)

  -- With more fuel than there are microseconds to the deadline, a clock that does not run back, and
  -- a podman that takes no negative time, `wait_ready` comes to an end. Where it returns, podman's
  -- log of each node's container told of the start at some moment since the call, and five seconds
  -- have passed since all of them had.
  pub wait_ready-Ready :
      (fuel : ℕ) (ids : List ℕ) (deadline : ℕ) (s : H.State)
      → deadline < fuel
      → Ready (now s) ids (wait_ready H P root fuel ids deadline s)
  unfolding wait_ready
  wait_ready-Ready fuel ids deadline s room =
      settle-Ready (now s) ids deadline
        (wait_pending H P (container root) (listen H P root) fuel 500000 ids deadline s)
        (wait_pending-Pending H C P (container root) (listen H P root) Q.status-le-now listened fuel
          500000 ids deadline s (omega arith) room)
