-- ===== src/Matrix/Experiments/Stages.antt =====
-- Clusters through an experiment of run_matrix.py: a cell is measured only while its cluster is up,
-- and no cluster is left up, whether the experiment returns or raises.
mod Stays
mod Cycles
use syncfs.Base.{ℕ, ◌≡◌, refl, ◌⊎◌, inl, inr, true, List, [], ◌∷◌, String, ◌<>◌}
use syncfs.Base.Exec.{
  Result, ok, raised, Exec, Runs, Runs-continue, finally, after_finally, ◌>>=◌, ◌>>◌,
}
use syncfs.Matrix.Rig.{Rig, IsTidy, is_ok}
use syncfs.Matrix.Rows.{Measure, Row, Key, grid, wanted, done_cells}
use syncfs.Matrix.Experiments.Stages.Stays.{Is, both, cells_a-Stays}
use syncfs.Matrix.Experiments.Stages.Cycles.{Loose, bring_up_idle, finally_idle, cells_b-Loose}
use syncfs.Matrix.Experiments.{
  Arm, Stage, idle, running, misused, B, if_ok, raising, lowering, bring_up, bring_down, measure,
  clear, time, append_row, cell_a, cells_a, key_a, arm_a, arms_a, experiment_a, cell_b, cells_b,
  key_b, arm_b, arms_b, experiment_b, row_a, row_b, name_for, cluster_root, tree_root, on_rig,
}

module _ (R : Rig) where
  widen :
      (root : String) (r : Result (Unit {0}) × B R)
      → Runs (Is R (running root)) (λ _. Is R (running root)) r
      → Runs (Loose R root) (λ _. Loose R root) r
  widen root (ok u, b) h = inr h
  widen root (raised e, b) h = inr h

  whole : (r : Result (Unit {0}) × B R) → Runs (Is R idle) (λ _. Is R idle) r → r.1.stage ≡ idle
  whole (ok u, b) h = h
  whole (raised e, b) h = h

  -- What leaves no cluster up.
  abbrev Quiet : Exec (B R) (Unit {0}) → Type 0
  Quiet m = (b : B R) → Is R idle b → Runs (Is R idle) (λ _. Is R idle) (m b)

  Quiet-bind : (m k : Exec (B R) (Unit {0})) → Quiet m → Quiet k → Quiet (m >> k)
  Quiet-bind m k qm qk b h =
      Runs-continue (Is R idle) (λ _. Is R idle) (λ _. Is R idle) (m b) (λ _. k) (qm b h) (λ _. qk)

  module _ (T : IsTidy R) where
    session :
        (root : String) (a : Arm) (body : R.Info → Exec (B R) (Unit {0}))
        → ((info : R.Info) (b : B R)
            → Is R (running root) b
            → Runs (Loose R root) (λ _. Loose R root) (body info b))
        → Quiet (do info ← bring_up R a root; finally (body info) (bring_down R a root))
    session root a body safe b h =
        Runs-continue (Is R idle) (λ _. Is R (running root)) (λ _. Is R idle) (bring_up R a root b)
          _ (bring_up_idle R root a b h)
          (λ info b' h'. finally_idle R root T a (body info) b' (safe info b' h'))

    arm_a-Quiet : (root : String) (a : Arm) (cells : List (ℕ × ℕ)) → Quiet (arm_a R root a cells)
    unfolding arm_a
    arm_a-Quiet root a [] = λ b h. h
    arm_a-Quiet root a (c ∷ cells) =
        session (cluster_root root a) a (λ info. cells_a R (root <> "/staging") a info (c ∷ cells))
          (λ info b h.
            widen (cluster_root root a) _
              (cells_a-Stays R (cluster_root root a) (root <> "/staging") a info (c ∷ cells) b h))

    arms_a-Quiet :
        (root : String) (sizes : List ℕ) (repeats : ℕ) (done : List Key) (plan : List Arm)
        → Quiet (arms_a R root sizes repeats done plan)
    unfolding arms_a
    arms_a-Quiet root sizes repeats done [] = λ b h. h
    arms_a-Quiet root sizes repeats done (a ∷ plan) =
        Quiet-bind (arm_a R root a (wanted (key_a R a) done (grid sizes repeats))) _
          (arm_a-Quiet root a (wanted (key_a R a) done (grid sizes repeats)))
          (arms_a-Quiet root sizes repeats done plan)

    arm_b-Quiet : (root : String) (a : Arm) (cells : List (ℕ × ℕ)) → Quiet (arm_b R root a cells)
    unfolding arm_b
    arm_b-Quiet root a [] = λ b h. h
    arm_b-Quiet root a (c ∷ cells) =
        session (tree_root root a) a
          (λ info. cells_b R (root <> "/staging") (tree_root root a) a info (c ∷ cells))
          (λ info b h.
            cells_b-Loose R (tree_root root a) T (root <> "/staging") a info (c ∷ cells) b h)

    arms_b-Quiet :
        (root : String) (counts : List ℕ) (repeats : ℕ) (done : List Key) (plan : List Arm)
        → Quiet (arms_b R root counts repeats done plan)
    unfolding arms_b
    arms_b-Quiet root counts repeats done [] = λ b h. h
    arms_b-Quiet root counts repeats done (a ∷ plan) =
        Quiet-bind (arm_b R root a (wanted (key_b R a) done (grid counts repeats))) _
          (arm_b-Quiet root a (wanted (key_b R a) done (grid counts repeats)))
          (arms_b-Quiet root counts repeats done plan)

    mkdir-Quiet : (path : String) → Quiet (on_rig R (R.mkdir path))
    mkdir-Quiet path b h = both R (Is R idle) (on_rig R (R.mkdir path) b) h

    -- Where taking a cluster down does not raise, and from a bench with no cluster up, experiment A
    -- measures and clears its cells only while a cluster is up and brings up no cluster over
    -- another, and it ends with no cluster up, whether it returns or raises.
    pub experiment_a-idle :
        (root : String) (sizes : List ℕ) (repeats : ℕ) (plan : List Arm) (b : B R)
        → b.stage ≡ idle
        → (experiment_a R root sizes repeats plan b).1.stage ≡ idle
    unfolding experiment_a
    experiment_a-idle root sizes repeats plan b h = whole _ (
        Quiet-bind (on_rig R (R.mkdir (root <> "/staging")))
          (arms_a R root sizes repeats (done_cells b.out) plan) (mkdir-Quiet (root <> "/staging"))
          (arms_a-Quiet root sizes repeats (done_cells b.out) plan) b h)

    -- Where taking a cluster down does not raise, and from a bench with no cluster up, experiment B,
    -- which takes the cluster down and brings it up again after each cell, measures only while a
    -- cluster is up and brings up no cluster over another, and it ends with no cluster up, whether
    -- it returns or raises.
    pub experiment_b-idle :
        (root : String) (counts : List ℕ) (repeats : ℕ) (plan : List Arm) (b : B R)
        → b.stage ≡ idle
        → (experiment_b R root counts repeats plan b).1.stage ≡ idle
    unfolding experiment_b
    experiment_b-idle root counts repeats plan b h = whole _ (
        Quiet-bind (on_rig R (R.mkdir (root <> "/staging")))
          (arms_b R root counts repeats (done_cells b.out) plan) (mkdir-Quiet (root <> "/staging"))
          (arms_b-Quiet root counts repeats (done_cells b.out) plan) b h)
