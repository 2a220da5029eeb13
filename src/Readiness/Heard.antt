-- ===== src/Readiness/Heard.antt =====
-- What the waiting loop of the cluster scripts tells of the nodes: each one that it lets go of was
-- probed, and said that it was ready, at some moment of the call.
use syncfs.Base.{
  ℕ, ◌+◌, ◌≤◌, ◌<◌, ◌≡◌, refl, ◌⊎◌, inl, inr, Bool, true, false, Option, none, some, List, [], ◌∷◌,
  String, arith, if◌then◌else◌, if_rule, Bool-cases, All,
}
use mathlib.Core.Path.{subst}
use syncfs.Base.Equality.{◌==◌, string_eq, nat_eq, contains, beq_refl}
use syncfs.Base.Exec.{Result, ok, raised, Ensures, Ensures-continue}
use syncfs.Host.{Host, IsClock, now-le-time_after}
use syncfs.Poller.Loop.{poll, Looked, Stopped, Ended, poll-Stopped, poll-Ended}
use syncfs.Podman.{Podman}
use syncfs.Readiness.{judge, answer, exited, is_ready, ready_each, waiting, wait_pending}

All-of_contains : {P : ℕ → Type 0} (is : List ℕ) → ((i : ℕ) → contains i is ≡ true → P i) → All P is
All-of_contains [] f = tt
All-of_contains (i ∷ is) f =
    (f i (ground (arith, beq_refl i)), All-of_contains is (λ j h. f j (ground arith)))

module _ (H : Host) (C : IsClock H) {A : Type 0} (probe : A → H.State → Bool × H.State) where
  open C use {now}

  -- Where it was probed, it said yes, at a moment between `start` and `s`.
  pub record Heard (start : ℕ) (i : A) (s : H.State) : Type 0 where
    pub state : H.State
    pub said : (probe i state).0 ≡ true
    pub began : start ≤ now state
    pub by : now state ≤ now s

  pub Heard-later :
      (start : ℕ) (i : A) (s s' : H.State) → now s ≤ now s' → Heard start i s → Heard start i s'
  Heard-later start i s s' le h = record {
    state = h.state;
    said = h.said;
    began = h.began;
    by = omega (arith, h.by);
  }

  pub none_left_later :
      (start start' : ℕ) (ids : List A) (s s' : H.State)
      → start' ≤ start
      → now s ≤ now s'
      → All (λ i. Heard start i s) ids
      → All (λ i. Heard start' i s') ids
  none_left_later start start' [] s s' before after all = tt
  none_left_later start start' (i ∷ ids) s s' before after (k, all) = (
    record {
      state = k.state;
      said = k.said;
      began = omega (arith, k.began);
      by = omega (arith, k.by);
    },
    none_left_later start start' ids s s' before after all,
  )

module _ (H : Host) (C : IsClock H) (probe : ℕ → H.State → Bool × H.State) where
  open C use {now}

  -- Each of `ids` is still in `left`, or was heard.
  abbrev pub Sifted : ℕ → List ℕ → List ℕ → H.State → Type 0
  Sifted start ids left s =
      (i : ℕ) → contains i ids ≡ true → (contains i left ≡ true) ⊎ Heard H C probe start i s

  module _ (start : ℕ) (ids : List ℕ) where
    -- What holds where the loop ends: every node is still pending, or was heard.
    abbrev pub Pending : Result (Option (List ℕ)) × H.State → Type 0
    Pending (raised e, s) = Unit
    Pending (ok none, s) = ⊥
    Pending (ok (some left), s) = Sifted start ids left s

  -- Where nothing is pending, all were heard.
  pub none_left :
      (start : ℕ) (ids : List ℕ) (s : H.State)
      → Sifted start ids [] s
      → All (λ i. Heard H C probe start i s) ids
  none_left start ids s sifted =
      All-of_contains ids (λ i h. elim (sifted i h) [ inl there ↦ cc | inr heard ↦ heard ])

module _ (H : Host) (C : IsClock H) (P : Podman H) (name : ℕ → String)
    (probe : ℕ → H.State → Bool × H.State)
    (asked : (n : String) (s : H.State) → C.now s ≤ C.now (P.status n s).1)
    (probed : (i : ℕ) (s : H.State) → C.now s ≤ C.now (probe i s).1) where
  open C use {now}

  abbrev Judged : ℕ → ℕ → H.State → Result Bool × H.State → Type 0
  Judged start i s =
      Ensures (λ ready t. (ready ≡ true → Heard H C probe start i t) × (now s ≤ now t))

  judge-Judged :
      (start i : ℕ) (s : H.State) (r : String × H.State)
      → start ≤ now s
      → now s ≤ now r.1
      → Judged start i s (judge H P name probe i r)
  unfolding judge
  judge-Judged start i s (state, t) begun le =
      if_rule (Judged start i s) (state == "exited") (exited H P name probe i (P.tail (name i) t))
        (answer H P name probe (probe i t)) (λ over. tt)
        (λ going. (
          (λ yes. record { state = t; said = yes; began = omega arith; by = probed i t }),
          omega (arith, probed i t),
        ))

  is_ready-Judged :
      (start i : ℕ) (s : H.State) → start ≤ now s → Judged start i s (is_ready H P name probe i s)
  unfolding is_ready
  is_ready-Judged start i s begun =
      judge-Judged start i s (P.status (name i) s) begun (asked (name i) s)

  keep_or_drop :
      (start i : ℕ) (is left : List ℕ) (ready : Bool) (s : H.State)
      → (ready ≡ true → Heard H C probe start i s)
      → Sifted H C probe start is left s
      → Sifted H C probe start (i ∷ is) (if ready then left else i ∷ left) s
  keep_or_drop start i is left true s heard rest j h = elim (Bool-cases (i == j)) [
    | inl same ↦
        inr (subst (λ k. Heard H C probe start k s) ((nat_eq.eqb_iff i j).0 same) (heard refl))
    | inr other ↦ rest j (ground arith)
  ]
  keep_or_drop start i is left false s heard rest j h = elim (Bool-cases (i == j)) [
    | inl same ↦ inl (ground arith)
    | inr other ↦ elim (rest j (ground arith)) [
      | inl there ↦ inl (ground arith)
      | inr heard ↦ inr heard
    ]
  ]

  ready_each-Sifted :
      (start : ℕ) (ids : List ℕ) (s : H.State)
      → start ≤ now s
      → Ensures
          (λ left t. Sifted H C probe start ids left t × (now s ≤ now t))
          (ready_each H P name probe ids s)
  unfolding ready_each
  ready_each-Sifted start [] s begun = ((λ i h. inl h), omega arith)
  ready_each-Sifted start (i ∷ is) s begun =
      Ensures-continue (λ ready t. (ready ≡ true → Heard H C probe start i t) × (now s ≤ now t))
        (After s (i ∷ is)) (is_ready H P name probe i s) _ (is_ready-Judged start i s begun)
        (λ ready t (heard, le).
          Ensures-continue (After t is) (After s (i ∷ is)) (ready_each H P name probe is t) _
            (ready_each-Sifted start is t (omega arith))
            (λ left u (rest, le'). (
              keep_or_drop start i is left ready u
                  (λ yes. Heard-later H C probe start i t u le' (heard yes)) rest,
              omega arith,
            )))
    where
      After : H.State → List ℕ → List ℕ → H.State → Type 0
      After t ids left u = Sifted H C probe start ids left u × (now t ≤ now u)

  module _ (start : ℕ) (ids : List ℕ) where
    -- The loop's invariant.
    abbrev Waited : List ℕ → H.State → Type 0
    Waited pending s = (start ≤ now s) × Sifted H C probe start ids pending s

    Waited-later : (p : List ℕ) (s s' : H.State) → now s ≤ now s' → Waited p s → Waited p s'
    Waited-later p s s' le (begun, sifted) = (
      omega arith,
      (λ i h. elim (sifted i h) [
        | inl there ↦ inl there
        | inr heard ↦ inr (Heard-later H C probe start i s s' le heard)
      ]),
    )

    abbrev Round : H.State → Result (List ℕ) × H.State → Type 0
    Round = Looked H (waiting H P name probe) (ready_each H P name probe) C Waited

    round :
        (p : List ℕ) (s : H.State) (r : Result (List ℕ) × H.State)
        → Waited p s
        → Ensures (λ left t. Sifted H C probe start p left t × (now s ≤ now t)) r
        → Round s r
    round p s (raised e, t) w h = tt
    round p s (ok left, t) (begun, sifted) (rest, le) = (
      (
        omega arith,
        (λ i h. elim (sifted i h) [
          | inl there ↦ rest i there
          | inr heard ↦ inr (Heard-later H C probe start i s t le heard)
        ]),
      ),
      le,
    )

    ready_each-Round :
        (p : List ℕ) (s : H.State) → Waited p s → Round s (ready_each H P name probe p s)
    ready_each-Round p s w =
        round p s (ready_each H P name probe p s) w (ready_each-Sifted start p s w.0)

    ending-Pending :
        (end : ℕ) (r : Result (Option (List ℕ)) × H.State)
        → Stopped H (waiting H P name probe) (ready_each H P name probe) C Waited end r
        → Ended H (waiting H P name probe) (ready_each H P name probe) C Waited r
        → Pending H C probe start ids r
    ending-Pending end (raised e, s) h k = tt
    ending-Pending end (ok none, s) h k = k
    ending-Pending end (ok (some left), s) ((begun, sifted), stop) k = sifted

  pub wait_pending-Pending :
      (fuel interval : ℕ) (ids : List ℕ) (deadline : ℕ) (s : H.State)
      → 0 < interval
      → deadline < fuel
      → Pending H C probe (now s) ids (wait_pending H P name probe fuel interval ids deadline s)
  unfolding wait_pending
  wait_pending-Pending fuel interval ids deadline s ipos room =
      ending-Pending (now s) ids end
        (poll H (waiting H P name probe) (ready_each H P name probe) fuel interval end ids s₁)
        (poll-Stopped H (waiting H P name probe) (ready_each H P name probe) C (Waited (now s) ids)
          (Waited-later (now s) ids) (ready_each-Round (now s) ids) fuel interval end ids s₁ first)
        (poll-Ended H (waiting H P name probe) (ready_each H P name probe) C (Waited (now s) ids)
          (Waited-later (now s) ids) (ready_each-Round (now s) ids) fuel interval end ids s₁ ipos
          first (omega arith, inr (omega (arith, C.time-le-now s))))
    where
      s₁ : H.State
      s₁ = (H.time s).1

      end : ℕ
      end = (H.time s).0 + deadline

      first : Waited (now s) ids ids s₁
      first = (now-le-time_after C s, λ i h. inl h)
