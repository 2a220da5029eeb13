-- ===== src/Matrix/Experiments/Stages/Stays.antt =====
-- Calls of an experiment of run_matrix.py that keep a cluster up, a cell of experiment A among them.
use syncfs.Base.{ℕ, ◌≡◌, refl, List, [], ◌∷◌, String}
use syncfs.Base.Exec.{Result, ok, raised, Exec, Runs, Runs-continue, ◌>>=◌}
use syncfs.Matrix.Rig.{Rig}
use syncfs.Matrix.Rows.{Measure, Row}
use syncfs.Matrix.Experiments.{
  Arm, Stage, running, B, measure, clear, time, append_row, cell_a, cells_a, row_a, name_for,
}

module _ (R : Rig) where
  abbrev pub Is : Stage → B R → Type 0
  Is stage b = b.stage ≡ stage

  -- A call that keeps the cluster of `root` up, whether it returns or raises.
  abbrev Stays : {A : Type 0} → String → Exec (B R) A → Type 0
  Stays root m =
      (b : B R) → Is (running root) b → Runs (Is (running root)) (λ _. Is (running root)) (m b)

  pub both : {A : Type 0} (P : B R → Type 0) (r : Result A × B R) → P r.1 → Runs P (λ _. P) r
  both P (ok a, b) h = h
  both P (raised e, b) h = h

  module _ (root : String) where
    pub measure-Stays : (m : Exec R.State Measure) → Stays root (measure R m)
    unfolding measure
    measure-Stays m b h = both (Is (running root)) (measure R m b) (rw h refl)

    clear-Stays : (info : R.Info) (name : String) → Stays root (clear R info name)
    unfolding clear
    clear-Stays info name b h = both (Is (running root)) (clear R info name b) (rw h refl)

    pub time-Stays : Stays root (time R)
    unfolding time
    time-Stays b h = h

    pub append_row-Stays : (row : Row) → Stays root (append_row R row)
    unfolding append_row
    append_row-Stays row b h = both (Is (running root)) (append_row R row b) h

    Stays-bind :
        {A C : Type 0} (m : Exec (B R) A) (f : A → Exec (B R) C)
        → Stays root m
        → ((a : A) → Stays root (f a))
        → Stays root (m >>= f)
    Stays-bind m f km kf b h =
        Runs-continue (Is (running root)) (λ _. Is (running root)) (λ _. Is (running root)) (m b) f
          (km b h) kf

    cell_a-Stays :
        (staging : String) (a : Arm) (info : R.Info) (c : ℕ × ℕ)
        → Stays root (cell_a R staging a info c)
    unfolding cell_a
    cell_a-Stays staging a info (size, repeat) =
        Stays-bind (measure R (R.propagation_cell info size repeat staging)) _ (measure-Stays _)
          λ m. Stays-bind (time R) _ time-Stays λ t.
            Stays-bind (append_row R (row_a R staging a (size, repeat) t m)) _
              (append_row-Stays (row_a R staging a (size, repeat) t m))
              λ _. clear-Stays info (name_for size repeat)

    pub cells_a-Stays :
        (staging : String) (a : Arm) (info : R.Info) (cs : List (ℕ × ℕ))
        → Stays root (cells_a R staging a info cs)
    unfolding cells_a
    cells_a-Stays staging a info [] b h = h
    cells_a-Stays staging a info (c ∷ cs) b h =
        Stays-bind (cell_a R staging a info c) _ (cell_a-Stays staging a info c)
          (λ _. cells_a-Stays staging a info cs) b h
