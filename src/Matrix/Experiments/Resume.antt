-- ===== src/Matrix/Experiments/Resume.antt =====
-- The rows that an experiment of run_matrix.py adds, and what a second run does: an interrupted
-- matrix takes up where it stopped.
use mathlib.Core.List.{append-nil}
use syncfs.Base.{ℕ, refl, sym, List, [], ◌∷◌, ◌++◌, map, String, ◌<>◌}
use syncfs.Base.Equality.{string_eq, pair_eq}
use syncfs.Base.Exec.{Exec, finally}
use syncfs.Matrix.Rig.{Rig}
use syncfs.Matrix.Rows.{Measure, Row, Key, row_key, done_cells, grid, wanted}
use syncfs.Matrix.Experiments.Adds.{
  held, Appends, Adds, Adds-bind, none_added, closes, saved-Appends,
}
use syncfs.Matrix.Experiments.{
  Arm, B, bring_up, bring_down, measure, clear, time, append_row, cell_a, cells_a, key_a, arm_a,
  arms_a, experiment_a, row_a, name_for, cluster_root, on_rig,
}

module _ (R : Rig) where
  bring_up-Adds : (a : Arm) (root : String) → Adds R.State [] (bring_up R a root)
  unfolding bring_up
  bring_up-Adds a root b = none_added R.State b (bring_up R a root b) refl

  measure-Adds : (m : Exec R.State Measure) → Adds R.State [] (measure R m)
  unfolding measure
  measure-Adds m b = none_added R.State b (measure R m b) refl

  clear-Adds : (info : R.Info) (name : String) → Adds R.State [] (clear R info name)
  unfolding clear
  clear-Adds info name b = none_added R.State b (clear R info name b) refl

  time-Adds : Adds R.State [] (time R)
  unfolding time
  time-Adds b = none_added R.State b (time R b) refl

  append_row-Adds : (row : Row) → Adds R.State (row_key row ∷ []) (append_row R row)
  unfolding append_row
  append_row-Adds row b = saved-Appends R.State row b (R.save row b.rig).0 (R.save row b.rig).1

  finally-Adds :
      (todo : List Key) (m : Exec (B R) (Unit {0})) (a : Arm) (root : String)
      → Adds R.State todo m
      → Adds R.State todo (finally m (bring_down R a root))
  unfolding finally bring_down
  finally-Adds todo m a root h b =
      closes R.State (held R.State b) todo (m b) (bring_down R a root (m b).1) refl (h b)

  cell_a-Adds :
      (staging : String) (a : Arm) (info : R.Info) (c : ℕ × ℕ)
      → Adds R.State (key_a R a c ∷ []) (cell_a R staging a info c)
  unfolding cell_a
  cell_a-Adds staging a info (size, repeat) =
      let key : Key = key_a R a (size, repeat) in
      Adds-bind R.State [] (key ∷ []) (measure R (R.propagation_cell info size repeat staging)) _
        (measure-Adds _)
        λ m. Adds-bind R.State [] (key ∷ []) (time R) _ time-Adds λ t.
          Adds-bind R.State (key ∷ []) [] (append_row R (row_a R staging a (size, repeat) t m)) _
            (append_row-Adds (row_a R staging a (size, repeat) t m))
            λ _. clear-Adds info (name_for size repeat)

  cells_a-Adds :
      (staging : String) (a : Arm) (info : R.Info) (cs : List (ℕ × ℕ))
      → Adds R.State (map (key_a R a) cs) (cells_a R staging a info cs)
  unfolding cells_a
  cells_a-Adds staging a info [] = λ b. sym (append-nil _)
  cells_a-Adds staging a info (c ∷ cs) =
      Adds-bind R.State (key_a R a c ∷ []) (map (key_a R a) cs) (cell_a R staging a info c) _
        (cell_a-Adds staging a info c) λ _. cells_a-Adds staging a info cs

  arm_a-Adds :
      (root : String) (a : Arm) (cs : List (ℕ × ℕ))
      → Adds R.State (map (key_a R a) cs) (arm_a R root a cs)
  unfolding arm_a
  arm_a-Adds root a [] = λ b. sym (append-nil _)
  arm_a-Adds root a (c ∷ cs) =
      Adds-bind R.State [] (map (key_a R a) (c ∷ cs)) (bring_up R a (cluster_root root a)) _
        (bring_up-Adds a (cluster_root root a))
        λ info.
          finally-Adds (map (key_a R a) (c ∷ cs)) (cells_a R (root <> "/staging") a info (c ∷ cs)) a
            (cluster_root root a) (cells_a-Adds (root <> "/staging") a info (c ∷ cs))

  -- The keys that are planned and not yet done, in the order of the plan.
  unfoldable pub todo_a : List ℕ → ℕ → List Key → List Arm → List Key
  todo_a sizes repeats done [] = []
  todo_a sizes repeats done (a ∷ plan) =
      map (key_a R a) (wanted (key_a R a) done (grid sizes repeats))
      ++ todo_a sizes repeats done plan

  arms_a-Adds :
      (root : String) (sizes : List ℕ) (repeats : ℕ) (done : List Key) (plan : List Arm)
      → Adds R.State (todo_a sizes repeats done plan) (arms_a R root sizes repeats done plan)
  unfolding arms_a todo_a
  arms_a-Adds root sizes repeats done [] = λ b. sym (append-nil _)
  arms_a-Adds root sizes repeats done (a ∷ plan) =
      let cs : List (ℕ × ℕ) = wanted (key_a R a) done (grid sizes repeats) in
      Adds-bind R.State (map (key_a R a) cs) (todo_a sizes repeats done plan) (arm_a R root a cs) _
        (arm_a-Adds root a cs) λ _. arms_a-Adds root sizes repeats done plan

  -- Experiment A adds to the results file a row for each planned cell that it does not hold yet, in
  -- the order of the plan, and no other row: all of them where it returns, and the first few of
  -- them where it raises.
  pub experiment_a-Appends :
      (root : String) (sizes : List ℕ) (repeats : ℕ) (plan : List Arm) (b : B R)
      → Appends R.State
          (done_cells b.out)
          (todo_a sizes repeats (done_cells b.out) plan)
          (experiment_a R root sizes repeats plan b)
  unfolding experiment_a
  experiment_a-Appends root sizes repeats plan b =
      Adds-bind R.State [] (todo_a sizes repeats (done_cells b.out) plan)
        (on_rig R (R.mkdir (root <> "/staging"))) _
        (λ c. none_added R.State c (on_rig R (R.mkdir (root <> "/staging")) c) refl)
        (λ _. arms_a-Adds root sizes repeats (done_cells b.out) plan) b
