-- ===== src/Poller/Watch/Look.antt =====
-- One node through the polling loop of `watch`: it is pending, or it was seen to arrive.
use syncfs.Base.{
  ℕ, ◌≤◌, ◌≡◌, refl, ap, ◌∙◌, ◌⊎◌, inl, inr, Bool, true, false, none, some, [], ◌∷◌, String, arith,
  Bool-cases, All,
}
use mathlib.Core.Path.{subst}
use syncfs.Base.Equality.{string_eq}
use syncfs.Base.Dict
use syncfs.Base.Dict.{Dict}
use syncfs.Base.Exec.{Result, ok, raised, Exec, continue}
use syncfs.Host.{Host, IsClock, now-le-time_after}
use syncfs.Poller.Arrival.{tree_size-le-now, complete-le-now}
use syncfs.Poller.Loop.{Looked, Looked-from}
use syncfs.Poller.Watch.{fresh, Nodes, Progress, Target, busy, arrived, settle, look_each, look}

-- Every entry of the name has the path.
abbrev pub Only : String → String → Nodes → Type 0
Only name path = All (λ (e : String × String). e.0 ≡ name → e.1 ≡ path)

pub Only-of_absent : (name path : String) (d : Nodes) → Dict.get name d ≡ none → Only name path d
Only-of_absent name path [] h = tt
Only-of_absent name path ((n, q) ∷ d) h = elim (Bool-cases (string_eq.eqb n name)) [
  | inl same ↦ absurd (ground arith)
  | inr other ↦ (
    λ e. absurd (ground (arith, string_eq.eqb_iff n name)),
    Only-of_absent name path d (rw other at h),
  )
]

pub Only-of_get :
    (name path : String) (d : Nodes)
    → Dict.NodupKeys d
    → Dict.get name d ≡ some path
    → Only name path d
Only-of_get name path [] u h = tt
Only-of_get name path ((n, q) ∷ d) (fresh_key, u) h = elim (Bool-cases (string_eq.eqb n name)) [
  | inl same ↦
      let e : n ≡ name = (string_eq.eqb_iff n name).0 same in
      (λ _. ground arith, Only-of_absent name path d (rw e at fresh_key))
  | inr other ↦ (
    λ e. absurd (ground (arith, string_eq.eqb_iff n name)),
    Only-of_get name path d u (rw other at h),
  )
]

pub Only-remove :
    (name path n : String) (d : Nodes) → Only name path d → Only name path (Dict.remove n d)
Only-remove name path n [] h = tt
Only-remove name path n ((m, q) ∷ d) h = ground (arith, Only-remove name path n d h.1)

module _ (H : Host) (C : IsClock H) (g : Target) where
  open C use {now}

  pub arrived-le-now : (q : String) (s : H.State) → now s ≤ now (arrived H g q s).1
  unfolding arrived
  arrived-le-now q s = ground (arith, tree_size-le-now H C q s, complete-le-now H C q g.size s)

module _ (H : Host) (C : IsClock H) (g : Target) (start : ℕ) (name path : String) where
  open C use {now}

  -- The test said yes at some state between the start and `t`.
  pub record Seen (t : ℕ) : Type 0 where
    pub state : H.State
    pub said : (arrived H g path state).0 ≡ ok true
    pub began : start ≤ now state
    pub by : now state ≤ t

  abbrev pub Waiting : Progress → Type 0
  Waiting p = (Dict.get name p.pending ≡ some path) × (Dict.get name p.records ≡ none)

  abbrev pub Arrived : Progress → Type 0
  Arrived p =
      (Dict.get name p.pending ≡ none)
      × ((t : ℕ) × (Dict.get name p.records ≡ some (fresh name (some t))) × Seen t)

  pub record Tracked (p : Progress) (s : H.State) : Type 0 where
    pub begun : start ≤ now s
    pub only : Only name path p.pending
    pub here : Waiting p ⊎ Arrived p

  pub Tracked-later : (p : Progress) (s s' : H.State) → now s ≤ now s' → Tracked p s → Tracked p s'
  Tracked-later p s s' le h = record { begun = omega arith; only = h.only; here = h.here }

  abbrev written : String → ℕ → Progress → Progress
  written n t p = record {
    pending = Dict.remove n p.pending;
    records = Dict.put n (fresh n (some t)) p.records;
  }

  written_same :
      (n : String) (t : ℕ) (p : Progress)
      → string_eq.eqb n name ≡ true
      → Seen t
      → Arrived (written n t p)
  written_same n t p same seen = (
    Dict.get-remove_eq n name p.pending same,
    (
      t,
      Dict.get-put_eq n name p.records (fresh n (some t)) same
          ∙ ap (λ m. some (fresh m (some t))) ((string_eq.eqb_iff n name).0 same),
      seen,
    ),
  )

  written_other :
      (n : String) (t : ℕ) (p : Progress)
      → string_eq.eqb n name ≡ false
      → Waiting p ⊎ Arrived p
      → Waiting (written n t p) ⊎ Arrived (written n t p)
  written_other n t p other (inl (a, b)) =
      inl (
        Dict.get-remove_ne n name p.pending other ∙ a,
        Dict.get-put_ne n name p.records _ other ∙ b,
      )
  written_other n t p other (inr (a, (u, b, seen))) = inr (
    Dict.get-remove_ne n name p.pending other ∙ a,
    (u, Dict.get-put_ne n name p.records _ other ∙ b, seen),
  )

  -- One node's turn keeps what is known of the node `name`.
  settle-Looked :
      (n : String) (p : Progress) (s : H.State) (r : Result Bool × H.State)
      → (n ≡ name → r.0 ≡ ok true → (t : ℕ) → now r.1 ≤ t → Seen t)
      → now s ≤ now r.1
      → Tracked p s
      → Looked H busy (look H g) C Tracked s (settle H g n p r)
  unfolding settle
  settle-Looked n p s (raised e, s₁) seen le h = tt
  settle-Looked n p s (ok false, s₁) seen le h = (Tracked-later p s s₁ le h, le)
  settle-Looked n p s (ok true, s₁) seen le h =
      let t = (H.time s₁).0 in
      let le' : now s ≤ now (H.time s₁).1 = omega (arith, now-le-time_after C s₁) in
      (
        record {
          begun = omega (arith, h.begun);
          only = Only-remove name path n p.pending h.only;
          here = elim (Bool-cases (string_eq.eqb n name)) [
            | inl same ↦ inr (
                written_same n t p same
                  (seen ((string_eq.eqb_iff n name).0 same) refl t (C.now-le-time s₁)))
            | inr other ↦ written_other n t p other h.here
          ];
        },
        le',
      )

  then-Looked :
      (next : Progress → Exec H.State Progress) (s : H.State) (r : Result Progress × H.State)
      → ((p : Progress) (t : H.State)
          → Tracked p t
          → Looked H busy (look H g) C Tracked t (next p t))
      → Looked H busy (look H g) C Tracked s r
      → Looked H busy (look H g) C Tracked s (continue r.0 next r.1)
  then-Looked next s (raised e, t) rest h = tt
  then-Looked next s (ok p, t) rest (h, le) =
      Looked-from H busy (look H g) C Tracked s t (next p t) le (rest p t h)

  look_each-Looked :
      (ns : Nodes) (p : Progress) (s : H.State)
      → Only name path ns
      → Tracked p s
      → Looked H busy (look H g) C Tracked s (look_each H g ns p s)
  unfolding look_each
  look_each-Looked [] p s only h = (h, omega arith)
  look_each-Looked ((n, q) ∷ ns) p s only h =
      then-Looked (look_each H g ns) s (settle H g n p (arrived H g q s))
        (λ p' t h'. look_each-Looked ns p' t only.1 h')
        (settle-Looked n p s (arrived H g q s)
          (λ same said t le. record {
            state = s;
            said = subst (λ x. (arrived H g x s).0 ≡ ok true) (only.0 same) said;
            began = h.begun;
            by = omega (arith, arrived-le-now H C g q s);
          })
          (arrived-le-now H C g q s) h)

  pub look-Looked :
      (p : Progress) (s : H.State)
      → Tracked p s
      → Looked H busy (look H g) C Tracked s (look H g p s)
  unfolding look
  look-Looked p s h = look_each-Looked p.pending p s h.only h

-- Whatever is watched, a round does not turn the clock back.
module _ (H : Host) (C : IsClock H) (g : Target) where
  open C use {now}

  abbrev pub Always : Progress → H.State → Type 0
  Always p s = Unit

  abbrev Forward : H.State → Result Progress × H.State → Type 0
  Forward = Looked H busy (look H g) C Always

  settle-Forward :
      (n : String) (p : Progress) (s : H.State) (r : Result Bool × H.State)
      → now s ≤ now r.1
      → Forward s (settle H g n p r)
  unfolding settle
  settle-Forward n p s (raised e, s₁) le = tt
  settle-Forward n p s (ok false, s₁) le = (tt, le)
  settle-Forward n p s (ok true, s₁) le = (tt, omega (arith, now-le-time_after C s₁))

  then-Forward :
      (next : Progress → Exec H.State Progress) (s : H.State) (r : Result Progress × H.State)
      → ((p : Progress) (t : H.State) → Forward t (next p t))
      → Forward s r
      → Forward s (continue r.0 next r.1)
  then-Forward next s (raised e, t) rest h = tt
  then-Forward next s (ok p, t) rest (h, le) =
      Looked-from H busy (look H g) C Always s t (next p t) le (rest p t)

  look_each-Forward : (ns : Nodes) (p : Progress) (s : H.State) → Forward s (look_each H g ns p s)
  unfolding look_each
  look_each-Forward [] p s = (tt, omega arith)
  look_each-Forward ((n, q) ∷ ns) p s =
      then-Forward (look_each H g ns) s (settle H g n p (arrived H g q s))
        (λ p' t. look_each-Forward ns p' t)
        (settle-Forward n p s (arrived H g q s) (arrived-le-now H C g q s))

  pub look-Forward :
      (p : Progress) (s : H.State) → Always p s → Looked H busy (look H g) C Always s (look H g p s)
  unfolding look
  look-Forward p s _ = look_each-Forward p.pending p s
