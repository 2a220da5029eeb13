-- ===== src/Tests/Cluster.antt =====
-- Bringing a mesh up on the machine.
use syncfs.Base.{
  ℕ, ◌+◌, ◌≡◌, ◌≢◌, ◌↔◌, ◌<◌, ◌≤◌, refl, true, false, none, arith, ltb, if◌then◌else◌, length,
}
use syncfs.Base.Decimal.{show}
use syncfs.Base.Equality.{nat_eq, contains}
use syncfs.Base.Exec.{ok, raised, system_exit, Ensures}
use syncfs.Podman.{Podman, Root, node_ids, peers_of, peers_text}
use syncfs.Cluster.{up}
use syncfs.Cluster.Wait.{IsPrompt}
use syncfs.Cluster.Up.{Stands, up-Stands}
use syncfs.Cluster.Peers.{peers_of_lem}
use syncfs.Tests.Machine.{machine, clock}

-- Every node starts at time 50.
abbrev pub podman : Podman machine
podman = record {
  run = λ args s. (ok tt, s + 1);
  network_exists = λ n s. (false, s);
  remove = λ n s. s;
  status = λ n s. ("running", s);
  pid = λ n s. ("77", s);
  logs = λ n s. ((if ltb s 50 then "" else "[info] Started libtorrent session"), s);
  tail = λ n s. ("", s);
  mkdir = λ p s. (ok tt, s);
  write_text = λ p t s. (ok tt, s);
  limits = λ p s. (none, s);
  int = λ t. none;
  seconds = λ d. "300.0";
  uid = "1000";
}

abbrev pub prompt : IsPrompt clock podman
prompt = record {
  status-le-now = λ n s. omega arith;
  pid-le-now = λ n s. omega arith;
  limits-le-now = λ n s. omega arith;
  network-le-now = λ n s. omega arith;
  remove-le-now = λ n s. omega arith;
  run-le-now = λ args s. omega arith;
  mkdir-le-now = λ p s. omega arith;
  write-le-now = λ p t s. omega arith;
  logs-le-now = λ n s. omega arith;
}

abbrev pub root : Root
root = record { path = "/tmp/m"; name = "m" }

up-Stands_example :
    Ensures (Stands machine clock podman prompt root 3 2) (up machine podman root 600 none 2 500 3)
up-Stands_example = up-Stands machine clock podman prompt root 600 none 2 500 3 (omega arith)

peers_of_lem_example :
    (length (peers_of 2 (node_ids 3)) + 1 ≡ 3)
    × ((j : ℕ)
        → (contains j (peers_of 2 (node_ids 3)) ≡ true)
          ↔ ((contains j (node_ids 3) ≡ true) × (j ≢ 2)))
    × ((j : ℕ) → (contains j (node_ids 3) ≡ true) ↔ ((0 < j) × (j ≤ 3)))
peers_of_lem_example = peers_of_lem 3 2 (omega arith) (omega arith)

peers_runs : peers_text 2 (node_ids 3) ≡ "tcp://sfs1:5555\ntcp://sfs3:5555\n"
unfolding peers_text node_ids peers_of show
peers_runs = refl

one_node :
    up machine podman root 600 none 1 500 3
    ≡ (raised (system_exit "a syncfs mesh needs at least 2 nodes: an empty peer list is fatal"), 3)
unfolding up
one_node = refl
