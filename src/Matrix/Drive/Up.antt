-- ===== src/Matrix/Drive/Up.antt =====
-- `cluster_up` of tools/measure/bucketfs/run_matrix.py: the cluster that an experiment is given.
use syncfs.Base.{
  ℕ, ◌≡◌, ◌<◌, ◌*◌, refl, ap, ◌∙◌, suc, Bool, true, false, Option, none, some, [], ◌∷◌, String,
  arith, length,
}
use syncfs.Base.Dict.{Dict}
use syncfs.Base.Equality.{◌==◌, string_eq}
use syncfs.Base.Exec.{Result, ok, raised, Ensures, continue, pure}
use syncfs.Host.{Host, IsClock}
use syncfs.Podman.{Podman, Node, Mesh, node_ids}
use syncfs.Exasol.{Files, Exa, ExaNode}
use syncfs.ExaNet.{exa_ids}
use syncfs.Exasol.Up.{IsSwift, AllAnswered, Answers, up_exa-Answers}
use syncfs.Cluster.Wait.{IsPrompt}
use syncfs.Cluster.Up.{AllSettled, Stands, up-Stands}
use syncfs.Matrix.Workshop.{Info, microseconds}
use syncfs.Matrix.Drive.{
  Purge, root_at, sites_of_mesh, sites_of_exa, mesh_up, exa_up, up_by, cluster_up,
}

length-sites_of_mesh : (d : Dict String Node) → length (sites_of_mesh d) ≡ length d
length-sites_of_mesh [] = refl
length-sites_of_mesh ((name, n) ∷ rest) = ap suc (length-sites_of_mesh rest)

length-sites_of_exa : (d : Dict String ExaNode) → length (sites_of_exa d) ≡ length d
length-sites_of_exa [] = refl
length-sites_of_exa ((name, n) ∷ rest) = ap suc (length-sites_of_exa rest)

module _ (H : Host) (C : IsClock H) (P : Podman H) (Q : IsPrompt C P) (F : Files H)
    (S : IsSwift C F) (G : Purge H) where
  open C use {now}

  -- Each node of the mesh has settled, or each node of the BucketFS cluster has answered.
  abbrev pub AllReady : ℕ → ℕ → String → H.State → Bool → Type 0
  AllReady start nodes root s true = AllSettled H C P Q (root_at root) start (node_ids nodes) s
  AllReady start nodes root s false = AllAnswered H C P Q F S (root_at root) start (exa_ids nodes) s

  abbrev pub Brought : ℕ → ℕ → String → Bool → Option Info → H.State → Type 0
  Brought start nodes root mesh none s = ⊥
  Brought start nodes root mesh (some info) s =
      (length info.node ≡ nodes) × AllReady start nodes root s mesh

  mesh_up-Brought :
      (start nodes : ℕ) (root : String) (r : Result (Option Mesh) × H.State)
      → Ensures (Stands H C P Q (root_at root) start nodes) r
      → Ensures (Brought start nodes root true) (continue r.0 (λ mesh. pure (mesh_up mesh)) r.1)
  mesh_up-Brought start nodes root (raised e, s) h = tt
  mesh_up-Brought start nodes root (ok none, s) h = h
  mesh_up-Brought start nodes root (ok (some mesh), s) (two, n, all) =
      (length-sites_of_mesh mesh.node ∙ n, all)

  exa_up-Brought :
      (start nodes : ℕ) (root : String) (r : Result (Option Exa) × H.State)
      → Ensures (Answers H C P Q F S (root_at root) start nodes) r
      → Ensures (Brought start nodes root false) (continue r.0 (λ exa. pure (exa_up exa)) r.1)
  exa_up-Brought start nodes root (raised e, s) h = tt
  exa_up-Brought start nodes root (ok none, s) h = h
  exa_up-Brought start nodes root (ok (some exa), s) (n, all) =
      (length-sites_of_exa exa.node ∙ n, all)

  up_by-Brought :
      (fuel nodes : ℕ) (root : String) (period : ℕ) (s : H.State) (mesh : Bool)
      → 900 * microseconds < fuel
      → Ensures (Brought (now s) nodes root mesh) (up_by H P F G fuel nodes root period mesh s)
  up_by-Brought fuel nodes root period s true room = mesh_up-Brought (now s) nodes root _ (
      up-Stands H C P Q (root_at root) fuel none nodes (600 * microseconds) s (omega (arith, room)))
  up_by-Brought fuel nodes root period s false room =
      exa_up-Brought (now s) nodes root _
        (up_exa-Answers H C P Q F S (root_at root) fuel nodes period (900 * microseconds) s room)

  -- With fuel for more than fifteen minutes, a clock that does not run back, and calls that take no
  -- negative time, `cluster_up` returns or raises. Where it returns, what the experiment is given
  -- lists as many nodes as it asked for, and since the call each node of a syncfs mesh has been heard
  -- to start, five seconds or more ago, and each node of a BucketFS cluster has answered over HTTP.
  pub cluster_up-Brought :
      (fuel : ℕ) (system : String) (nodes : ℕ) (root : String) (period : ℕ) (s : H.State)
      → 900 * microseconds < fuel
      → Ensures
          (Brought (now s) nodes root (system == "syncfs"))
          (cluster_up H P F G fuel system nodes root period s)
  unfolding cluster_up
  cluster_up-Brought fuel system nodes root period s room =
      up_by-Brought fuel nodes root period s (system == "syncfs") room
