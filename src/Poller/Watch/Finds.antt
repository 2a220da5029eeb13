-- ===== src/Poller/Watch/Finds.antt =====
-- A round of `watch` (tools/measure/bucketfs/poller.py) finds a copy that is there, and adds no node to
-- those that are pending.
use syncfs.Base.{
  ℕ, ◌≤◌, ◌≡◌, refl, sym, inl, inr, Bool, true, false, not, none, some, [], ◌∷◌, String, arith,
  is_empty, Bool-cases, length,
}
use mathlib.Core.Path.{subst}
use syncfs.Base.Equality.{string_eq}
use syncfs.Base.Dict
use syncfs.Base.Dict.{Dict}
use syncfs.Base.Exec.{Result, ok, raised, Ensures, Ensures-continue}
use syncfs.Host.{Host, IsClock, now-le-time_after}
use syncfs.Poller.Watch.{Nodes, Progress, Target, busy, arrived, settle, look_each, look}
use syncfs.Poller.Watch.Look.{Only, arrived-le-now, Tracked}

module _ (name : String) where
  -- The node is not pending.
  abbrev pub IsIn : Progress → Type 0
  IsIn p = Dict.get name p.pending ≡ none

  pub IsIn-idle : (p : Progress) → busy p ≡ false → IsIn p
  IsIn-idle p h = go p.pending h
    where
      go : (d : Nodes) → not (is_empty d) ≡ false → Dict.get name d ≡ none
      go [] k = refl
      go (e ∷ d) k = absurd cc

  get-remove_none :
      (n : String) (d : Nodes) → Dict.get name d ≡ none → Dict.get name (Dict.remove n d) ≡ none
  get-remove_none n d h = ground (arith, Dict.get-remove n name d)

  module _ (H : Host) (g : Target) where
    settle-IsIn :
        (n : String) (p : Progress) (r : Result Bool × H.State)
        → IsIn p
        → Ensures (λ q t. IsIn q) (settle H g n p r)
    unfolding settle
    settle-IsIn n p (raised e, s) h = tt
    settle-IsIn n p (ok false, s) h = h
    settle-IsIn n p (ok true, s) h = get-remove_none n p.pending h

    -- A node that is in stays in.
    pub look_each-IsIn :
        (ns : Nodes) (p : Progress) (s : H.State)
        → IsIn p
        → Ensures (λ q t. IsIn q) (look_each H g ns p s)
    unfolding look_each
    look_each-IsIn [] p s h = h
    look_each-IsIn ((n, q) ∷ ns) p s h =
        Ensures-continue (λ q t. IsIn q) (λ q t. IsIn q) (settle H g n p (arrived H g q s)) _
          (settle-IsIn n p (arrived H g q s) h) (λ p' t h'. look_each-IsIn ns p' t h')

    -- The test says yes, and the node is in.
    settle_yes :
        (n : String) (p : Progress) (r : Result Bool × H.State)
        → string_eq.eqb n name ≡ true
        → r.0 ≡ ok true
        → Ensures (λ q t. IsIn q) (settle H g n p r)
    unfolding settle
    settle_yes n p (raised e, s) same said = tt
    settle_yes n p (ok false, s) same said = absurd cc
    settle_yes n p (ok true, s) same said = Dict.get-remove_eq n name p.pending same

length-remove : (n : String) (d : Nodes) → length (Dict.remove n d) ≤ length d
length-remove n [] = omega arith
length-remove n ((m, q) ∷ d) = ground (arith, length-remove n d)

-- No node is added to those that are pending.
module _ (H : Host) (g : Target) (count : ℕ) where
  abbrev pub IsFew : Progress → Type 0
  IsFew p = length p.pending ≤ count

  settle-IsFew :
      (n : String) (p : Progress) (r : Result Bool × H.State)
      → IsFew p
      → Ensures (λ q t. IsFew q) (settle H g n p r)
  unfolding settle
  settle-IsFew n p (raised e, s) h = tt
  settle-IsFew n p (ok false, s) h = h
  settle-IsFew n p (ok true, s) h = omega (arith, length-remove n p.pending, h)

  pub look_each-IsFew :
      (ns : Nodes) (p : Progress) (s : H.State)
      → IsFew p
      → Ensures (λ q t. IsFew q) (look_each H g ns p s)
  unfolding look_each
  look_each-IsFew [] p s h = h
  look_each-IsFew ((n, q) ∷ ns) p s h =
      Ensures-continue (λ q t. IsFew q) (λ q t. IsFew q) (settle H g n p (arrived H g q s)) _
        (settle-IsFew n p (arrived H g q s) h) (λ p' t h'. look_each-IsFew ns p' t h')

module _ (H : Host) (C : IsClock H) (g : Target) (name path : String) (from : ℕ)
    (stays : (s : H.State) → from ≤ C.now s → (arrived H g path s).0 ≡ ok true) where
  open C use {now}

  settle-le-now :
      (n : String) (p : Progress) (s : H.State) (r : Result Bool × H.State)
      → now s ≤ now r.1
      → Ensures (λ q t. now s ≤ now t) (settle H g n p r)
  unfolding settle
  settle-le-now n p s (raised e, t) le = tt
  settle-le-now n p s (ok false, t) le = le
  settle-le-now n p s (ok true, t) le = omega (arith, now-le-time_after C t)

  -- A round that begins when the copy is there, and goes by the node, finds it.
  look_each_finds :
      (ns : Nodes) (p : Progress) (s : H.State)
      → Only name path ns
      → Dict.get name ns ≡ some path
      → from ≤ now s
      → Ensures (λ q t. IsIn name q) (look_each H g ns p s)
  unfolding look_each
  look_each_finds [] p s only there late = absurd cc
  look_each_finds ((n, q) ∷ ns) p s only there late = elim (Bool-cases (string_eq.eqb n name)) [
    | inl same ↦
        Ensures-continue (λ q t. IsIn name q) (λ q t. IsIn name q)
          (settle H g n p (arrived H g q s)) _
          (settle_yes name H g n p (arrived H g q s) same (
            subst (λ x. (arrived H g x s).0 ≡ ok true)
              (sym (only.0 ((string_eq.eqb_iff n name).0 same))) (stays s late)))
          (λ p' t h. look_each-IsIn name H g ns p' t h)
    | inr other ↦
        Ensures-continue (λ q t. now s ≤ now t) (λ q t. IsIn name q)
          (settle H g n p (arrived H g q s)) _
          (settle-le-now n p s (arrived H g q s) (arrived-le-now H C g q s))
          (λ p' t le. look_each_finds ns p' t only.1 (rw other at there) (omega arith))
  ]

  pub look_finds :
      (start : ℕ) (p : Progress) (s : H.State)
      → Tracked H C g start name path p s
      → from ≤ now s
      → Ensures (λ q t. IsIn name q) (look H g p s)
  unfolding look
  look_finds start p s k late = elim k.here [
    | inl (waiting, nothing) ↦ look_each_finds p.pending p s k.only waiting late
    | inr (gone, row) ↦ look_each-IsIn name H g p.pending p s gone
  ]
