-- ===== src/Poller/Loop/Live.antt =====
-- The loop gets to what becomes reachable: where a look that begins late enough brings something
-- about, and a round takes a bounded time, the loop has it when it returns.
use syncfs.Base.{
  ℕ, zero, suc, ◌+◌, ◌≤◌, ◌<◌, ◌≡◌, ◌⊎◌, inl, inr, Bool, false, Option, none, some, arith, ltb,
  if_rule, le_of_ltb,
}
use syncfs.Base.Exec.{Result, ok, raised, Exec, Ensures}
use syncfs.Host.{Host, IsClock}
use syncfs.Poller.Loop.{doze, Next, resume, attempt, poll}

le_or_lt : (m n : ℕ) → (m ≤ n) ⊎ (n < m)
le_or_lt m n = ground arith

module _ (H : Host) {P : Type 0} (busy : P → Bool) (look : P → Exec H.State P) (C : IsClock H)
    (I : P → H.State → Type 0) (Good : P → Type 0) (from round tick d end : ℕ) where
  open C use {now}

  -- What a round needs to do: keep `I` and `Good`, bring `Good` about from the moment `from` on, and
  -- come to its end in the time that a round is given.
  pub record IsProductive : Type 0 where
    pub later : (p : P) (s s' : H.State) → now s ≤ now s' → I p s → I p s'
    pub keeps_I :
        (p : P) (s : H.State) → I p s → Ensures (λ q t. I q t × (now s ≤ now t)) (look p s)
    pub keeps_Good : (p : P) (s : H.State) → I p s → Good p → Ensures (λ q t. Good q) (look p s)
    pub reaches : (p : P) (s : H.State) → I p s → from ≤ now s → Ensures (λ q t. Good q) (look p s)
    pub ends :
        (p : P) (s : H.State)
        → I p s
        → Ensures (λ q t. now (doze H busy look d q t) ≤ now s + round) (look p s)
    pub ticks : (s : H.State) → (now s ≤ now (H.time s).1) × (now (H.time s).1 ≤ now s + tick)
    pub dozes : (p : P) (s : H.State) → now s ≤ now (doze H busy look d p s)
    pub idles : (p : P) (s : H.State) → I p s → busy p ≡ false → Good p

  -- What is returned is good.
  abbrev pub Gets : Result (Option P) × H.State → Type 0
  Gets (raised e, s) = Unit
  Gets (ok none, s) = Unit
  Gets (ok (some p), s) = Good p

  -- It is good already, or there is time for another round.
  abbrev pub Hopeful : P → H.State → Type 0
  Hopeful p s = Good p ⊎ (now s + tick < end)

  module _ (W : IsProductive) (room : from + round + tick ≤ end) where
    hope :
        (p q : P) (s₀ s t : H.State)
        → Hopeful p s₀
        → (Good p → Good q)
        → (from ≤ now s → Good q)
        → now (doze H busy look d q t) ≤ now s + round
        → Hopeful q (doze H busy look d q t)
    hope p q s₀ s t (inl good) keep reach le = inl (keep good)
    hope p q s₀ s t (inr early) keep reach le = elim (le_or_lt from (now s)) [
      | inl late ↦ inl (reach late)
      | inr soon ↦ inr (omega (arith, le, soon, room))
    ]

    resume-Gets :
        (next : Next H busy look) (p : P) (s₀ s : H.State) (r : Result P × H.State)
        → ((q : P) (t : H.State) → I q t → Hopeful q t → Gets (next q t))
        → Hopeful p s₀
        → Ensures (λ q t. I q t × (now s ≤ now t)) r
        → (Good p → Ensures (λ q t. Good q) r)
        → (from ≤ now s → Ensures (λ q t. Good q) r)
        → Ensures (λ q t. now (doze H busy look d q t) ≤ now s + round) r
        → Gets (resume H busy look next d r)
    unfolding resume
    resume-Gets next p s₀ s (raised e, t) rest h i keep reach le = tt
    resume-Gets next p s₀ s (ok q, t) rest h (i, after) keep reach le =
        rest q (doze H busy look d q t) (W.later q t (doze H busy look d q t) (W.dozes q t) i)
          (hope p q s₀ s t h keep reach le)

    attempt-Gets :
        (next : Next H busy look) (p : P) (s : H.State)
        → ((q : P) (t : H.State) → I q t → Hopeful q t → Gets (next q t))
        → I p s
        → Hopeful p s
        → Gets (attempt H busy look next d end p (H.time s))
    unfolding attempt
    attempt-Gets next p s rest i h =
        let s₁ = (H.time s).1 in
        let i₁ = W.later p s s₁ (W.ticks s).0 i in
        if_rule Gets (ltb (H.time s).0 end) (resume H busy look next d (look p s₁))
          (ok (some p), s₁)
          (λ early.
            resume-Gets next p s s₁ (look p s₁) rest h (W.keeps_I p s₁ i₁) (W.keeps_Good p s₁ i₁)
              (W.reaches p s₁ i₁) (W.ends p s₁ i₁))
          (λ past. elim h [
            | inl good ↦ good
            | inr soon ↦
                absurd (omega (arith, C.time-le-now s, (W.ticks s).1, le_of_ltb _ _ past, soon))
          ])

    pub poll-Gets :
        (fuel : ℕ) (p : P) (s : H.State)
        → I p s
        → Hopeful p s
        → Gets (poll H busy look fuel d end p s)
    unfolding poll
    poll-Gets zero p s i h = tt
    poll-Gets (suc fuel) p s i h =
        if_rule Gets (busy p) (attempt H busy look (poll H busy look fuel d end) d end p (H.time s))
          (ok (some p), s)
          (λ more. attempt-Gets (poll H busy look fuel d end) p s (poll-Gets fuel) i h)
          (λ done. W.idles p s i done)
