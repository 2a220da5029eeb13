-- ===== src/Cluster.antt =====
-- tools/measure/bucketfs/syncfs_cluster.py: bringing a mesh of containers up and down.
pub mod Wait
pub mod Peers
pub mod Up
use syncfs.Base.{
  ℕ, zero, suc, ◌+◌, ◌≡◌, Bool, true, false, not, Option, none, some, List, [], ◌∷◌, ◌++◌, map,
  String, ◌<>◌, if◌then◌else◌, ltb, nat_beq, keep, is_empty, length,
}
use text.Mathlib.Text
use syncfs.Base.Decimal.{show}
use syncfs.Base.Equality.{◌==◌, string_eq}
use syncfs.Base.Exec.{
  Result, ok, raised, Exn, runtime_error, system_exit, Exec, pure, raise, call, ◌>>=◌, ◌>>◌,
}
use syncfs.Host.{Host}
use syncfs.Readiness.{wait_pending, not_ready}
use syncfs.Matrix.Rows.{range}
use syncfs.Podman.{
  Podman, Root, network, subscribe_grace, node_ids, node_name, container, node_root, data_dir,
  peers_of, peer_line, joined, peers_text, image_args, run_args, within, started, list_text, fourth,
  then_int, nofile_of, nofile_in, remove_all, Node, Mesh,
}

module _ (H : Host) (P : Podman H) where
  abbrev pub create : Bool → Exec H.State (Unit {0})
  create true = pure tt
  create false =
      P.run ("podman" ∷ "network" ∷ "create" ∷ "--subnet" ∷ "10.10.20.0/24" ∷ network ∷ [])

  unfoldable pub ensure_network : Exec H.State (Unit {0})
  ensure_network = do there ← call (P.network_exists network); create there

  module _ (root : Root) where
    unfoldable pub start_node : Option String → List ℕ → ℕ → Exec H.State (Unit {0})
    unfolding peers_text container run_args
    start_node debug ids i = do
      P.mkdir (data_dir root i)
      P.write_text (node_root root i <> "/peers") (peers_text i ids)
      call (λ s. (tt, P.remove (container root i) s))
      P.run (run_args root P.uid i debug)

    unfoldable pub start_each : Option String → List ℕ → List ℕ → Exec H.State (Unit {0})
    unfolding start_node
    start_each debug ids [] = pure tt
    start_each debug ids (i ∷ is) = do start_node debug ids i; start_each debug ids is

    -- `"Started libtorrent session" in logs.stdout + logs.stderr`
    abbrev pub listen : ℕ → H.State → Bool × H.State
    listen i s = let (text, s') = P.logs (container root i) s in (started text, s')

    -- what follows the loop
    abbrev pub settle : ℕ → Option (List ℕ) → Exec H.State (Option (Unit {0}))
    settle deadline none = pure none
    settle deadline (some []) = call (λ s. (some tt, H.sleep subscribe_grace s))
    settle deadline (some (i ∷ is)) = not_ready H P (container root) listen deadline (i ∷ is)

    -- `none` where the fuel runs out.
    unfoldable pub wait_ready : ℕ → List ℕ → ℕ → Exec H.State (Option (Unit {0}))
    unfolding wait_pending container
    wait_ready fuel ids deadline = do
      pending ← wait_pending H P (container root) listen fuel 500000 ids deadline
      settle deadline pending

    unfoldable pub observed_nofile : ℕ → Exec H.State (Option ℕ)
    unfolding container nofile_of
    observed_nofile i = do
      pid ← call (P.pid (container root i))
      lines ← call (P.limits pid)
      pure (nofile_in P.int lines)

    abbrev pub first_of : List ℕ → ℕ
    first_of [] = 0
    first_of (i ∷ is) = i

    abbrev pub describe : ℕ → List ℕ → Option ℕ → Mesh
    describe count ids nofile = record {
      nodes = count;
      nofile = nofile;
      node =
          map
            (λ i. (
              node_name i,
              record { container_name = container root i; data_dir = data_dir root i },
            ))
            ids;
      writer = node_name (first_of ids);
    }

    -- the end of `up`, once the nodes are ready
    abbrev pub present : ℕ → List ℕ → Option (Unit {0}) → Exec H.State (Option Mesh)
    present count ids none = pure none
    present count ids (some u) = do
      nofile ← observed_nofile (first_of ids)
      pure (some (describe count ids nofile))

    unfoldable pub up_mesh : ℕ → Option String → ℕ → List ℕ → ℕ → Exec H.State (Option Mesh)
    unfolding ensure_network start_each wait_ready observed_nofile container node_name
    up_mesh fuel debug count ids deadline = do
      ensure_network
      P.mkdir root.path
      start_each debug ids ids
      ready ← wait_ready fuel ids deadline
      present count ids ready

    unfoldable pub up : ℕ → Option String → ℕ → ℕ → Exec H.State (Option Mesh)
    unfolding up_mesh node_ids
    up fuel debug count deadline =
        if ltb count 2
        then raise (system_exit "a syncfs mesh needs at least 2 nodes: an empty peer list is fatal")
        else up_mesh fuel debug count (node_ids count) deadline

    unfoldable pub down : ℕ → Exec H.State (Unit {0})
    unfolding node_ids container
    down count = call (λ s. (tt, remove_all P (container root) (node_ids count) s))
