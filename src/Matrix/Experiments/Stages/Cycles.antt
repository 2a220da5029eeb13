-- ===== src/Matrix/Experiments/Stages/Cycles.antt =====
-- run_matrix.py: a cluster that is brought up and, by `finally`, taken down, and the cells of
-- experiment B, which cycle it.
use syncfs.Base.{ℕ, ◌≡◌, refl, ◌⊎◌, inl, inr, true, List, [], ◌∷◌, String}
use syncfs.Base.Exec.{Result, ok, raised, Exec, Runs, Runs-continue, finally, after_finally}
use syncfs.Matrix.Rig.{Rig, IsTidy, is_ok}
use syncfs.Matrix.Experiments.Stages.Stays.{Is, measure-Stays, time-Stays, append_row-Stays}
use syncfs.Matrix.Experiments.{
  Arm, Stage, idle, running, misused, B, if_ok, raising, lowering, bring_up, bring_down, measure,
  time, append_row, cell_b, cells_b, row_b,
}

module _ (R : Rig) where
  module _ (root : String) where
    -- Where a cell of experiment B raises its cluster may be down already.
    abbrev pub Loose : B R → Type 0
    Loose b = Is R idle b ⊎ Is R (running root) b

    loosen :
        {A : Type 0} (r : Result A × B R)
        → Runs (Is R (running root)) (λ _. Is R (running root)) r
        → Runs Loose (λ _. Is R (running root)) r
    loosen (ok a, b) h = h
    loosen (raised e, b) h = inr h

    pub bring_up_idle :
        (a : Arm) (b : B R)
        → Is R idle b
        → Runs (Is R idle) (λ _. Is R (running root)) (bring_up R a root b)
    unfolding bring_up
    bring_up_idle a b h = go (R.cluster_up a.system a.nodes root a.sync_period b.rig)
      where
        go :
            (r : Result R.Info × R.State)
            → Runs
                (Is R idle)
                (λ _. Is R (running root))
                (r.0, record b { rig = r.1; stage = if_ok r.0 (raising root b.stage) b.stage })
        go (ok info, s) = rw h refl
        go (raised e, s) = h

    module _ (T : IsTidy R) where
      bring_down_idle :
          (a : Arm) (b : B R) → Loose b → Runs (λ _. ⊥) (λ _. Is R idle) (bring_down R a root b)
      unfolding bring_down
      bring_down_idle a b h =
          go (R.cluster_down a.system a.nodes root b.rig) (T.down_ok a.system a.nodes root b.rig)
        where
          lowered :
              (stage : Stage) → (stage ≡ idle) ⊎ (stage ≡ running root) → lowering stage ≡ idle
          lowered idle k = refl
          lowered (running other) k = refl
          lowered misused (inl e) = cc
          lowered misused (inr e) = cc

          go :
              (r : Result (Unit {0}) × R.State)
              → is_ok r.0 ≡ true
              → Runs
                  (λ _. ⊥)
                  (λ _. Is R idle)
                  (r.0, record b { rig = r.1; stage = if_ok r.0 (lowering b.stage) misused })
          go (ok u, s) k = lowered b.stage h
          go (raised e, s) k = cc

      -- The body raises or returns with the cluster up or down, and `finally` leaves it down.
      pub finally_idle :
          (a : Arm) (m : Exec (B R) (Unit {0})) (b : B R)
          → Runs Loose (λ _. Loose) (m b)
          → Runs (Is R idle) (λ _. Is R idle) (finally m (bring_down R a root) b)
      unfolding finally
      finally_idle a m b h = go (m b) h
        where
          down :
              (r : Result (Unit {0})) (q : Result (Unit {0}) × B R)
              → Runs (λ _. ⊥) (λ _. Is R idle) q
              → Runs (Is R idle) (λ _. Is R idle) (after_finally r q)
          down (ok u) (ok v, c) k = k
          down (raised e) (ok v, c) k = k
          down r (raised e, c) k = absurd k

          go :
              (r : Result (Unit {0}) × B R)
              → Runs Loose (λ _. Loose) r
              → Runs (Is R idle) (λ _. Is R idle) (after_finally r.0 (bring_down R a root r.1))
          go (ok u, c) k = down (ok u) (bring_down R a root c) (bring_down_idle a c k)
          go (raised e, c) k = down (raised e) (bring_down R a root c) (bring_down_idle a c k)

      cell_b-Loose :
          (staging : String) (a : Arm) (info : R.Info) (c : ℕ × ℕ) (b : B R)
          → Is R (running root) b
          → Runs Loose (λ _. Is R (running root)) (cell_b R staging root a info c b)
      unfolding cell_b
      cell_b-Loose staging a info (count, repeat) b h =
          Runs-continue Loose (λ _. Is R (running root)) (λ _. Is R (running root))
            (measure R (R.tree_cell info count repeat staging) b) _
            (loosen (measure R (R.tree_cell info count repeat staging) b)
              (measure-Stays R root (R.tree_cell info count repeat staging) b h))
            λ m b₁ h₁.
              Runs-continue Loose (λ _. Is R (running root)) (λ _. Is R (running root)) (time R b₁)
                _ (loosen (time R b₁) (time-Stays R root b₁ h₁))
                λ t b₂ h₂.
                  Runs-continue Loose (λ _. Is R (running root)) (λ _. Is R (running root))
                    (append_row R (row_b R staging root a (count, repeat) t m) b₂) _
                    (loosen (append_row R (row_b R staging root a (count, repeat) t m) b₂)
                      (append_row-Stays R root (row_b R staging root a (count, repeat) t m) b₂ h₂))
                    λ _ b₃ h₃.
                      Runs-continue Loose (λ _. Is R idle) (λ _. Is R (running root))
                        (bring_down R a root b₃) _ (never _ (bring_down_idle a b₃ (inr h₃)))
                        λ _ b₄ h₄. lost _ (bring_up_idle a b₄ h₄)
        where
          never :
              (r : Result (Unit {0}) × B R)
              → Runs (λ _. ⊥) (λ _. Is R idle) r
              → Runs Loose (λ _. Is R idle) r
          never (ok u, c) k = k
          never (raised e, c) k = absurd k

          lost :
              (r : Result R.Info × B R)
              → Runs (Is R idle) (λ _. Is R (running root)) r
              → Runs Loose (λ _. Is R (running root)) r
          lost (ok u, c) k = k
          lost (raised e, c) k = inl k

      pub cells_b-Loose :
          (staging : String) (a : Arm) (info : R.Info) (cs : List (ℕ × ℕ)) (b : B R)
          → Is R (running root) b
          → Runs Loose (λ _. Loose) (cells_b R staging root a info cs b)
      unfolding cells_b
      cells_b-Loose staging a info [] b h = inr h
      cells_b-Loose staging a info (c ∷ cs) b h =
          Runs-continue Loose (λ _. Is R (running root)) (λ _. Loose)
            (cell_b R staging root a info c b) _ (cell_b-Loose staging a info c b h)
            (λ info' b' h'. cells_b-Loose staging a info' cs b' h')
