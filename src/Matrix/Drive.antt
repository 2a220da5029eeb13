-- ===== src/Matrix/Drive.antt =====
-- `cluster_up`, `cluster_down` and `purge` of tools/measure/bucketfs/run_matrix.py, and the rig that the
-- experiments drive: the two cluster scripts and the cells.
pub mod Down
pub mod Up
use Prim.Native.Char.{Char, code}
use syncfs.Base.{
  ℕ, Bool, true, false, Option, none, some, List, [], ◌∷◌, String, if◌then◌else◌, nat_beq, ◌*◌,
}
use syncfs.Base.Dict.{Dict}
use syncfs.Base.Equality.{◌==◌, string_eq}
use syncfs.Base.Exec.{Result, ok, raised, os_error, Exec, pure, raise, call, ◌>>=◌, ◌>>◌}
use syncfs.Host.{Host}
use syncfs.Podman.{Podman, Root, Node, Mesh}
use syncfs.ExaConf.{or_else}
use syncfs.Exasol.{Files, ExaNode, Exa, up_exa, down_exa}
use syncfs.Cluster.{up, down}
use syncfs.Poller.Watch.{Record}
use syncfs.Matrix.Rows.{Measure}
use syncfs.Matrix.Rig.{Rig}
use syncfs.Matrix.Workshop.{Site, Info, Workshop, microseconds}
use syncfs.Matrix.Cells.{propagation_cell, tree_cell, clear_cell}

-- What stands behind the last slash, if there is one.
abbrev pub behind_slash : String → Option String
behind_slash String.[] = none
behind_slash (String.◌∷◌ c s) =
    let later = behind_slash s in or_else later (if nat_beq (code c) 47 then some s else none)

abbrev pub named : String → Option String → Root
named path none = record { path = path; name = path }
named path (some name) = record { path = path; name = name }

-- A path without a slash at its end, with its `name`.
abbrev pub root_at : String → Root
root_at path = named path (behind_slash path)

-- What the two scripts' `up` returns, as the cells read it.
abbrev pub site_of_node : Node → Site
site_of_node n = record { data_dir = n.data_dir; bucket_dir = ""; url = "" }

abbrev pub sites_of_mesh : Dict String Node → Dict String Site
sites_of_mesh [] = []
sites_of_mesh ((name, n) ∷ rest) = (name, site_of_node n) ∷ sites_of_mesh rest

abbrev pub info_of_mesh : Mesh → Info
info_of_mesh m = record {
  system = "syncfs";
  nodes = m.nodes;
  nofile = m.nofile;
  node = sites_of_mesh m.node;
  writer = some m.writer;
  write_passwd = "";
}

abbrev pub site_of_exa : ExaNode → Site
site_of_exa n = record { data_dir = ""; bucket_dir = n.bucket_dir; url = n.url }

abbrev pub sites_of_exa : Dict String ExaNode → Dict String Site
sites_of_exa [] = []
sites_of_exa ((name, n) ∷ rest) = (name, site_of_exa n) ∷ sites_of_exa rest

abbrev pub info_of_exa : Exa → Info
info_of_exa e = record {
  system = "bucketfs";
  nodes = e.nodes;
  nofile = none;
  node = sites_of_exa e.node;
  writer = none;
  write_passwd = e.passwords.write;
}

-- The calls of `purge` that no other part makes, neither of which tells of an error.
pub record Purge (H : Host) : Type 0 where
  -- `podman unshare rm -rf`
  pub unshare : String → H.State → H.State
  -- `shutil.rmtree(root, ignore_errors=True)`
  pub rmtree : String → H.State → H.State

abbrev pub mesh_up : Option Mesh → Option Info
mesh_up none = none
mesh_up (some m) = some (info_of_mesh m)

abbrev pub exa_up : Option Exa → Option Info
exa_up none = none
exa_up (some e) = some (info_of_exa e)

module _ (H : Host) (P : Podman H) (F : Files H) (G : Purge H) where
  -- The script of syncfs, and the other.
  abbrev pub up_by : ℕ → ℕ → String → ℕ → Bool → Exec H.State (Option Info)
  up_by fuel nodes root sync_period true =
      up H P (root_at root) fuel none nodes (600 * microseconds) >>= λ mesh. pure (mesh_up mesh)
  up_by fuel nodes root sync_period false =
      up_exa H P F (root_at root) fuel nodes sync_period (900 * microseconds) >>= λ exa.
      pure (exa_up exa)

  -- `none` where the fuel runs out.
  unfoldable pub cluster_up : ℕ → String → ℕ → String → ℕ → Exec H.State (Option Info)
  cluster_up fuel system nodes root sync_period =
      up_by fuel nodes root sync_period (system == "syncfs")

  abbrev pub purge_from : String → Bool × H.State → H.State
  purge_from root (false, s) = s
  purge_from root (true, s) = G.rmtree root (G.unshare root s)

  unfoldable pub purge : String → Exec H.State (Unit {0})
  purge root = call (λ s. (tt, purge_from root (F.exists root s)))

  abbrev pub down_by : ℕ → String → Bool → Exec H.State (Unit {0})
  down_by nodes root true = down H P (root_at root) nodes
  down_by nodes root false = down_exa H P F (root_at root) nodes

  unfoldable pub cluster_down : String → ℕ → String → Exec H.State (Unit {0})
  unfolding purge
  cluster_down system nodes root = do down_by nodes root (system == "syncfs"); purge root

  -- What the experiments see of a call that was given too little fuel.
  abbrev pub forced : {A : Type 0} → Option A → Exec H.State A
  forced none = raise (os_error "out of fuel")
  forced (some a) = pure a

  abbrev pub settled : Option Bool → Exec H.State (Unit {0})
  settled none = raise (os_error "out of fuel")
  settled (some gone) = pure tt

  -- The rig of the experiments. A file that is still there after three minutes is warned about, and
  -- the experiment goes on.
  abbrev pub drive : Workshop H → (Record → String) → ℕ → Rig
  drive W dumps fuel = record {
    State = H.State;
    Info = Info;
    time = H.time;
    mkdir = P.mkdir;
    cluster_up = λ system nodes root period. cluster_up fuel system nodes root period >>= forced;
    cluster_down = cluster_down;
    propagation_cell = λ info size repeat staging.
        propagation_cell H W dumps fuel info size repeat staging >>= forced;
    tree_cell =
        λ info count repeat staging. tree_cell H W dumps fuel info count repeat staging >>= forced;
    save = W.save;
    clear_cell = λ info name. clear_cell H W dumps fuel info name >>= settled;
  }
