-- ===== src/Matrix/Cells/Idle.antt =====
-- `wait_for_idle` (tools/measure/bucketfs/run_matrix.py) comes to an end.
use syncfs.Base.{
  ℕ, zero, suc, ◌+◌, ◌*◌, ◌≤◌, ◌<◌, ◌⊎◌, inl, inr, Option, none, some, arith, ltb, if_rule, ltb→lt,
  le_of_ltb,
}
use syncfs.Host.{Host, IsClock, now-le-time_after}
use syncfs.Matrix.Workshop.{Workshop, microseconds}
use syncfs.Matrix.Cells.{idle_loop, again, wait_for_idle}

module _ (H : Host) (C : IsClock H) (W : Workshop H)
    (asked : (s : H.State) → C.now s ≤ C.now (W.loadavg s).1) where
  open C use {now}

  -- A load of 1.5 or less was read, or the time is up.
  abbrev pub Waited : ℕ → Option ℕ × H.State → Type 0
  Waited end (none, s) = ⊥
  Waited end (some load, s) = ((t : H.State) × ((W.loadavg t).0 ≤ 150)) ⊎ (end ≤ now s)

  abbrev round : ℕ
  round = 10 * microseconds

  idle_loop-Waited :
      (fuel end : ℕ) (s : H.State)
      → 0 < fuel
      → end + round ≤ now s + fuel * round
      → Waited end (idle_loop H W fuel end s)
  unfolding idle_loop
  idle_loop-Waited zero end s pos room = absurd (omega arith)
  idle_loop-Waited (suc fuel) end s pos room =
      if_rule (Waited end) (ltb 150 (W.loadavg s).0)
        (again H W (idle_loop H W fuel end) end (H.time s₁)) _
        (λ busy.
          if_rule (Waited end) (ltb (H.time s₁).0 end) (idle_loop H W fuel end (H.sleep round s₂)) _
            (λ early.
              idle_loop-Waited fuel end (H.sleep round s₂)
                (omega (arith, asked s, C.now-le-time s₁, ltb→lt _ _ early))
                (omega (arith, asked s, now-le-time_after C s₁, C.sleep_lasts round s₂)))
            (λ past. inr (omega (arith, C.time-le-now s₁, le_of_ltb _ _ past, asked s₂))))
        (λ calm. inl (s, le_of_ltb 150 (W.loadavg s).0 calm))
    where
      s₁ : H.State
      s₁ = (W.loadavg s).1

      s₂ : H.State
      s₂ = (H.time s₁).1

  -- Where the clock does not run back, also while the load is asked for, `wait_for_idle` returns: a
  -- round that does not end it sleeps ten seconds, and two minutes after the start it stops. It has
  -- read a load of 1.5 or less, or the two minutes are over.
  pub wait_for_idle-Waited :
      (s : H.State) → Waited ((H.time s).0 + 120 * microseconds) (wait_for_idle H W s)
  unfolding wait_for_idle
  wait_for_idle-Waited s =
      idle_loop-Waited 13 ((H.time s).0 + 120 * microseconds) (H.time s).1 (omega arith)
        (omega (arith, C.time-le-now s))
