-- ===== src/Matrix/Drive/Down.antt =====
-- `cluster_down` of tools/measure/bucketfs/run_matrix.py leaves no container behind and does not raise, so
-- that the rig of the two cluster scripts is one that the experiments may rely on.
use syncfs.Base.{ℕ, ◌≡◌, refl, Bool, true, false, List, [], ◌∷◌, String, All}
use syncfs.Base.Equality.{◌==◌, string_eq}
use syncfs.Base.Exec.{ok, ◌>>=◌}
use syncfs.Host.{Host}
use syncfs.Podman.{Podman, container, node_ids, remove_all}
use syncfs.Exasol.{Files, down_exa}
use syncfs.ExaNet.{exa_container, exa_ids}
use syncfs.Cluster.{down}
use syncfs.Poller.Watch.{Record}
use syncfs.Matrix.Rig.{IsTidy, is_ok}
use syncfs.Matrix.Workshop.{Workshop}
use syncfs.Matrix.Experiments.{Arm, Bench, idle, experiment_a, experiment_b}
use syncfs.Matrix.Experiments.Stages.{experiment_a-idle, experiment_b-idle}
use syncfs.Matrix.Drive.{Purge, root_at, purge, purge_from, down_by, cluster_down, drive}

-- Whether a container of the name is there. `podman rm -f` takes the one that it names away, and
-- neither it nor the removal of a directory makes one.
pub record IsRemoval {H : Host} (P : Podman H) (F : Files H) (G : Purge H) : Type 0 where
  pub present : String → H.State → Bool
  pub remove_clears : (n : String) (s : H.State) → present n (P.remove n s) ≡ false
  pub remove_keeps :
      (n m : String) (s : H.State) → present n s ≡ false → present n (P.remove m s) ≡ false
  pub exists_keeps :
      (n p : String) (s : H.State) → present n s ≡ false → present n (F.exists p s).1 ≡ false
  pub unshare_keeps :
      (n p : String) (s : H.State) → present n s ≡ false → present n (G.unshare p s) ≡ false
  pub rmtree_keeps :
      (n p : String) (s : H.State) → present n s ≡ false → present n (G.rmtree p s) ≡ false

module _ {H : Host} {P : Podman H} {F : Files H} {G : Purge H} (V : IsRemoval P F G) where
  -- None of the nodes has a container.
  abbrev pub Gone : (ℕ → String) → List ℕ → H.State → Type 0
  Gone name ids s = All (λ i. V.present (name i) s ≡ false) ids

  abbrev pub GoneBy : ℕ → String → H.State → Bool → Type 0
  GoneBy nodes root s true = Gone (container (root_at root)) (node_ids nodes) s
  GoneBy nodes root s false = Gone (exa_container (root_at root)) (exa_ids nodes) s

  -- None of the nodes that the system's script names has a container.
  abbrev pub GoneAll : String → ℕ → String → H.State → Type 0
  GoneAll system nodes root s = GoneBy nodes root s (system == "syncfs")

module _ (H : Host) (P : Podman H) (F : Files H) (G : Purge H) (V : IsRemoval P F G) where
  remove_all_keeps :
      (name : ℕ → String) (n : String) (ids : List ℕ) (s : H.State)
      → V.present n s ≡ false
      → V.present n (remove_all P name ids s) ≡ false
  remove_all_keeps name n [] s h = h
  remove_all_keeps name n (i ∷ ids) s h =
      remove_all_keeps name n ids (P.remove (name i) s) (V.remove_keeps n (name i) s h)

  remove_all-Gone :
      (name : ℕ → String) (ids : List ℕ) (s : H.State) → Gone V name ids (remove_all P name ids s)
  remove_all-Gone name [] s = tt
  remove_all-Gone name (i ∷ ids) s = (
    remove_all_keeps name (name i) ids (P.remove (name i) s) (V.remove_clears (name i) s),
    remove_all-Gone name ids (P.remove (name i) s),
  )

  purge_keeps :
      (root n : String) (s : H.State)
      → V.present n s ≡ false
      → V.present n (purge H P F G root s).1 ≡ false
  unfolding purge
  purge_keeps root n s h = go (F.exists root s) (V.exists_keeps n root s h)
    where
      go :
          (r : Bool × H.State)
          → V.present n r.1 ≡ false
          → V.present n (purge_from H P F G root r) ≡ false
      go (false, t) k = k
      go (true, t) k = V.rmtree_keeps n root (G.unshare root t) (V.unshare_keeps n root t k)

  purge-Gone :
      (root : String) (name : ℕ → String) (ids : List ℕ) (s : H.State)
      → Gone V name ids s
      → Gone V name ids (purge H P F G root s).1
  purge-Gone root name [] s h = tt
  purge-Gone root name (i ∷ ids) s (h, hs) =
      (purge_keeps root (name i) s h, purge-Gone root name ids s hs)

  down_by-Gone :
      (nodes : ℕ) (root : String) (s : H.State) (mesh : Bool)
      → let r = (down_by H P F G nodes root mesh >>= λ u. purge H P F G root) s in
        (r.0 ≡ ok tt) × GoneBy V nodes root r.1 mesh
  unfolding purge down down_exa
  down_by-Gone nodes root s true = (
    refl,
    purge-Gone root (container (root_at root)) (node_ids nodes) _
        (remove_all-Gone (container (root_at root)) (node_ids nodes) s),
  )
  down_by-Gone nodes root s false = (
    refl,
    purge-Gone root (exa_container (root_at root)) (exa_ids nodes) _
        (remove_all-Gone (exa_container (root_at root)) (exa_ids nodes) s),
  )

  -- Where podman takes away the containers that it is told to and nothing makes one meanwhile,
  -- `cluster_down` returns, and none of the containers that the system's script names for the
  -- cluster's nodes is there.
  pub cluster_down-Gone :
      (system : String) (nodes : ℕ) (root : String) (s : H.State)
      → ((cluster_down H P F G system nodes root s).0 ≡ ok tt)
        × GoneAll V system nodes root (cluster_down H P F G system nodes root s).1
  unfolding cluster_down
  cluster_down-Gone system nodes root s = down_by-Gone nodes root s (system == "syncfs")

module _ (H : Host) (P : Podman H) (F : Files H) (G : Purge H) (W : Workshop H)
    (dumps : Record → String) (fuel : ℕ) where
  down_by_ok :
      (nodes : ℕ) (root : String) (s : H.State) (mesh : Bool)
      → is_ok ((down_by H P F G nodes root mesh >>= λ u. purge H P F G root) s).0 ≡ true
  unfolding purge down down_exa
  down_by_ok nodes root s true = refl
  down_by_ok nodes root s false = refl

  drive-IsTidy : IsTidy (drive H P F G W dumps fuel)
  unfolding cluster_down
  drive-IsTidy = record {
    down_ok = λ system nodes root s. down_by_ok nodes root s (system == "syncfs");
  }

  -- The two cluster scripts and the cells implement the interface that the experiments are written
  -- against: run on them from an idle bench, experiments A and B end idle, with every cluster that
  -- was brought up taken down, and no cell was measured or cleared without a cluster, whether they
  -- return or raise.
  pub drive-idle :
      (root : String) (sizes counts : List ℕ) (repeats : ℕ) (plan : List Arm)
      (b : Bench (drive H P F G W dumps fuel).State)
      → b.stage ≡ idle
      → ((experiment_a (drive H P F G W dumps fuel) root sizes repeats plan b).1.stage ≡ idle)
        × ((experiment_b (drive H P F G W dumps fuel) root counts repeats plan b).1.stage ≡ idle)
  drive-idle root sizes counts repeats plan b h = (
    experiment_a-idle (drive H P F G W dumps fuel) drive-IsTidy root sizes repeats plan b h,
    experiment_b-idle (drive H P F G W dumps fuel) drive-IsTidy root counts repeats plan b h,
  )
