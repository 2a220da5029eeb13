-- ===== src/Poller/Loop.antt =====
-- The loop that the pollers of tools/measure share: while something is pending and the deadline is
-- not past, look at everything that is pending, and sleep if something still is.
pub mod Live
use syncfs.Base.{
  ℕ, zero, suc, ◌+◌, ◌≤◌, ◌<◌, ◌≡◌, ◌⊎◌, inl, inr, Bool, true, false, Option, none, some, arith,
  ltb, if◌then◌else◌, if_rule, ltb→lt, Bool-cases,
}
use syncfs.Base.Exec.{Result, ok, raised, Exec}
use syncfs.Host.{Host, IsClock, now-le-time_after}

module _ (H : Host) {P : Type 0} (busy : P → Bool) (look : P → Exec H.State P) where
  -- `if pending: time.sleep(interval)`
  unfoldable pub doze : ℕ → P → H.State → H.State
  doze interval p s = if busy p then H.sleep interval s else s

  abbrev Next : Type 0
  Next = P → Exec H.State (Option P)

  -- the end of a round that did not raise, and the rounds after it
  unfoldable pub resume : Next → ℕ → Result P × H.State → Result (Option P) × H.State
  resume next interval (raised e, s) = (raised e, s)
  resume next interval (ok p, s) = next p (doze interval p s)

  -- `time.time() < end`, and the round if so
  unfoldable pub attempt : Next → ℕ → ℕ → P → ℕ × H.State → Result (Option P) × H.State
  attempt next interval end p (t, s) =
      if ltb t end then resume next interval (look p s) else (ok (some p), s)

  -- `while pending and time.time() < end:`, which returns `none` where the fuel runs out.
  unfoldable pub poll : ℕ → ℕ → ℕ → Next
  unfolding doze resume attempt
  poll zero interval end p s = (ok none, s)
  poll (suc fuel) interval end p s =
      if busy p
      then attempt (poll fuel interval end) interval end p (H.time s)
      else (ok (some p), s)

  module _ (C : IsClock H) (I : P → H.State → Type 0) where
    open C use {now}

    -- `look` does not turn the clock back, and keeps `I` where it returns.
    abbrev pub Looked : H.State → Result P × H.State → Type 0
    Looked s (raised e, s') = Unit
    Looked s (ok p, s') = I p s' × (now s ≤ now s')

    pub Looked-from :
        (s s' : H.State) (r : Result P × H.State) → now s ≤ now s' → Looked s' r → Looked s r
    Looked-from s s' (raised e, t) le h = tt
    Looked-from s s' (ok p, t) le (i, after) = (i, omega arith)

    -- What holds of the loop's result: an exception says nothing, and a returned value is in `I`
    -- and is done, or the deadline is past.
    abbrev pub Stopped : ℕ → Result (Option P) × H.State → Type 0
    Stopped end (raised e, s) = Unit
    Stopped end (ok none, s) = Unit
    Stopped end (ok (some p), s) = I p s × ((busy p ≡ false) ⊎ (end ≤ now s))

    -- The loop came to an end.
    abbrev pub Ended : Result (Option P) × H.State → Type 0
    Ended (raised e, s) = Unit
    Ended (ok none, s) = ⊥
    Ended (ok (some p), s) = Unit

    module _ (later : (p : P) (s s' : H.State) → now s ≤ now s' → I p s → I p s')
        (looked : (p : P) (s : H.State) → I p s → Looked s (look p s)) where
      now-le-doze : (d : ℕ) (p : P) (s : H.State) → now s ≤ now (doze d p s)
      unfolding doze
      now-le-doze d p s = ground (arith, C.sleep_lasts d s)

      doze_lasts : (d : ℕ) (p : P) (s : H.State) → busy p ≡ true → now s + d ≤ now (doze d p s)
      unfolding doze
      doze_lasts d p s more = rw more (C.sleep_lasts d s)

      resume-Stopped :
          (next : Next) (d end : ℕ) (s : H.State)
          → ((p : P) (t : H.State) → I p t → Stopped end (next p t))
          → (r : Result P × H.State) → Looked s r
          → Stopped end (resume next d r)
      unfolding resume
      resume-Stopped next d end s rest (raised e, s') h = tt
      resume-Stopped next d end s rest (ok p, s') (i, le) =
          rest p (doze d p s') (later p s' (doze d p s') (now-le-doze d p s') i)

      attempt-Stopped :
          (next : Next) (d end : ℕ) (p : P) (s : H.State)
          → ((p : P) (t : H.State) → I p t → Stopped end (next p t))
          → I p s
          → Stopped end (attempt next d end p (H.time s))
      unfolding attempt
      attempt-Stopped next d end p s rest i =
          let i₁ = later p s (H.time s).1 (now-le-time_after C s) i in
          if_rule (Stopped end) (ltb (H.time s).0 end) (resume next d (look p (H.time s).1))
            (ok (some p), (H.time s).1)
            (λ early. resume-Stopped next d end (H.time s).1 rest _ (looked p (H.time s).1 i₁))
            (λ past. (i₁, inr (ground (arith, C.time-le-now s))))

      -- The loop returns in `I`, and either done or past the deadline.
      pub poll-Stopped :
          (fuel d end : ℕ) (p : P) (s : H.State) → I p s → Stopped end (poll fuel d end p s)
      unfolding poll
      poll-Stopped zero d end p s i = tt
      poll-Stopped (suc fuel) d end p s i =
          if_rule (Stopped end) (busy p) (attempt (poll fuel d end) d end p (H.time s))
            (ok (some p), s)
            (λ more. attempt-Stopped (poll fuel d end) d end p s (poll-Stopped fuel d end) i)
            (λ done. (i, inl done))

      -- The fuel is enough for the time that is left, a tick or more of which passes in each round.
      abbrev pub Enough : ℕ → ℕ → P → H.State → Type 0
      Enough fuel end p s = (0 < fuel) × ((busy p ≡ false) ⊎ (end < now s + fuel))

      resume-Ended :
          (fuel d end : ℕ) (s : H.State)
          → 0 < d
          → ((p : P) (t : H.State) → I p t → Enough fuel end p t → Ended (poll fuel d end p t))
          → (r : Result P × H.State) → Looked s r
          → now s < end
          → end < now s + suc fuel
          → Ended (resume (poll fuel d end) d r)
      unfolding resume
      resume-Ended fuel d end s dpos rest (raised e, s') h early room = tt
      resume-Ended fuel d end s dpos rest (ok p, s') (i, le) early room =
          rest p (doze d p s') (later p s' (doze d p s') (now-le-doze d p s') i)
            (omega arith, rounds)
        where
          rounds : (busy p ≡ false) ⊎ (end < now (doze d p s') + fuel)
          rounds = elim (Bool-cases (busy p)) [
            | inl more ↦ inr (omega (arith, doze_lasts d p s' more))
            | inr done ↦ inl done
          ]

      attempt-Ended :
          (fuel d end : ℕ) (p : P) (s : H.State)
          → 0 < d
          → ((p : P) (t : H.State) → I p t → Enough fuel end p t → Ended (poll fuel d end p t))
          → I p s
          → end < now s + suc fuel
          → Ended (attempt (poll fuel d end) d end p (H.time s))
      unfolding attempt
      attempt-Ended fuel d end p s dpos rest i room =
          let s₁ = (H.time s).1 in
          let i₁ = later p s s₁ (now-le-time_after C s) i in
          if_rule Ended (ltb (H.time s).0 end) (resume (poll fuel d end) d (look p s₁))
            (ok (some p), s₁)
            (λ early.
              resume-Ended fuel d end s dpos rest _
                (Looked-from s s₁ (look p s₁) (now-le-time_after C s) (looked p s₁ i₁))
                (omega (arith, C.now-le-time s, ltb→lt _ _ early)) room)
            (λ past. tt)

      -- With an interval and enough fuel the loop never runs out: it returns, or it raises.
      pub poll-Ended :
          (fuel d end : ℕ) (p : P) (s : H.State)
          → 0 < d
          → I p s
          → Enough fuel end p s
          → Ended (poll fuel d end p s)
      unfolding poll
      poll-Ended zero d end p s dpos i enough = absurd (omega arith)
      poll-Ended (suc fuel) d end p s dpos i (pos, enough) =
          if_rule Ended (busy p) (attempt (poll fuel d end) d end p (H.time s)) (ok (some p), s)
            (λ more.
              attempt-Ended fuel d end p s dpos (λ q t j e. poll-Ended fuel d end q t dpos j e) i
                (ground arith))
            (λ done. tt)
