-- ===== src/Poller/Watch/Report.antt =====
-- One node's record, from the end of the polling loop of `watch` to what it returns.

use syncfs.Base.{
  ℕ, ◌≤◌, ◌≡◌, refl, ◌∙◌, ◌⊎◌, inl, inr, Bool, true, false, Option, none, some, List, [], ◌∷◌, ◌++◌,
  String, arith, Bool-cases,
}
use syncfs.Base.Int.{ℤ, sub_ℕ}
use syncfs.Base.Equality.{string_eq}
use syncfs.Base.Dict
use syncfs.Base.Dict.{Dict}
use syncfs.Base.Exec.{Result, ok, raised, Ensures, Ensures-continue, pure, ◌>>=◌}
use syncfs.Host.{Host, IsClock, now-le-time_after, now-le-continue}
use syncfs.Poller.Arrival.{tree_updates}
use syncfs.Poller.Watch.{
  Record, fresh, Nodes, Target, close_pending, digest, verify_at, verify, record_of, verify_each,
  stamp, stamp_each,
}

abbrev pub is_set {ℓ} : {A : Type ℓ} → Option A → Bool
is_set none = false
is_set (some a) = true

abbrev pub since : ℕ → Option ℕ → Option ℤ
since t0 none = none
since t0 (some t) = some (sub_ℕ t t0)

-- The record of the name is there, and is in `Q`.
pub record At (Q : Record → Type 0) (name : String) (records : Dict String Record) : Type 0 where
  pub it : Record
  pub is_it : Dict.get name records ≡ some it
  pub meets : Q it

module _ (name path : String) where
  pub close_pending_absent :
      (d : Nodes) (records : Dict String Record)
      → Dict.get name d ≡ none
      → Dict.get name (close_pending d records) ≡ Dict.get name records
  unfolding close_pending
  close_pending_absent [] records h = refl
  close_pending_absent ((n, q) ∷ d) records h = elim (Bool-cases (string_eq.eqb n name)) [
    | inl same ↦ absurd (ground (arith))
    | inr other ↦
        close_pending_absent d (Dict.put n (fresh n none) records) (rw other at h)
        ∙ Dict.get-put_ne n name records (fresh n none) other
  ]

  close_pending_kept :
      (d : Nodes) (records : Dict String Record)
      → Dict.get name records ≡ some (fresh name none)
      → Dict.get name (close_pending d records) ≡ some (fresh name none)
  unfolding close_pending
  close_pending_kept [] records h = h
  close_pending_kept ((n, q) ∷ d) records h =
      close_pending_kept d (Dict.put n (fresh n none) records)
        (ground (arith, Dict.get-put n name (fresh n none) records, string_eq.eqb_iff n name))

  pub close_pending_there :
      (d : Nodes) (records : Dict String Record)
      → Dict.get name d ≡ some path
      → Dict.get name (close_pending d records) ≡ some (fresh name none)
  unfolding close_pending
  close_pending_there [] records h = cc
  close_pending_there ((n, q) ∷ d) records h = elim (Bool-cases (string_eq.eqb n name)) [
    | inl same ↦
        close_pending_kept d (Dict.put n (fresh n none) records)
          (ground (arith, Dict.get-put n name (fresh n none) records, string_eq.eqb_iff n name))
    | inr other ↦ close_pending_there d (Dict.put n (fresh n none) records) (rw other at h)
  ]

  -- Before the node's turn, and after it.
  abbrev pub Plain : Option ℕ → Record → Type 0
  Plain at r = (r.arrived_at ≡ at) × (r.elapsed ≡ none)

  abbrev pub Hashed : Option ℕ → Record → Type 0
  Hashed at r = (r.arrived_at ≡ at) × (r.elapsed ≡ none) × (is_set r.sha256 ≡ is_set at)

  -- All that `watch` promises of the record itself.
  abbrev pub Stamped : ℕ → Option ℕ → Record → Type 0
  Stamped t0 at r = (r.arrived_at ≡ at) × (is_set r.sha256 ≡ is_set at) × (r.elapsed ≡ since t0 at)

  abbrev pub Turn : (Record → Type 0) → (Record → Type 0) → Nodes → Dict String Record → Type 0
  Turn P Q d records = At Q name records ⊎ (At P name records × (Dict.get name d ≡ some path))

  -- One entry's turn, which writes `r` for `n`.
  turn :
      (P Q : Record → Type 0) (n q : String) (d : Nodes) (records : Dict String Record) (r : Record)
      → ((old : Record) → P old ⊎ Q old → record_of n records ≡ old → Q r)
      → Turn P Q ((n, q) ∷ d) records
      → Turn P Q d (Dict.put n r records)
  turn P Q n q d records r step h = elim (Bool-cases (string_eq.eqb n name)) [
    | inl same ↦
        inl (record { it = r; is_it = Dict.get-put_eq n name records r same; meets = mine same h })
    | inr other ↦ others other h
  ]
    where
      mine : string_eq.eqb n name ≡ true → Turn P Q ((n, q) ∷ d) records → Q r
      mine same (inl a) =
          step a.it (inr a.meets) (ground (arith, a.is_it, string_eq.eqb_iff n name))
      mine same (inr (a, b)) =
          step a.it (inl a.meets) (ground (arith, a.is_it, string_eq.eqb_iff n name))

      moved :
          (R : Record → Type 0)
          → string_eq.eqb n name ≡ false
          → At R name records
          → At R name (Dict.put n r records)
      moved R other a = record {
        it = a.it;
        is_it = Dict.get-put_ne n name records r other ∙ a.is_it;
        meets = a.meets;
      }

      others :
          string_eq.eqb n name ≡ false
          → Turn P Q ((n, q) ∷ d) records
          → Turn P Q d (Dict.put n r records)
      others other (inl a) = inl (moved Q other a)
      others other (inr (a, b)) = inr (moved P other a, rw other at b)

  pub stamp_each_lem :
      (t0 : ℕ) (at : Option ℕ) (d : Nodes) (records : Dict String Record)
      → Turn (Hashed at) (Stamped t0 at) d records
      → At (Stamped t0 at) name (stamp_each t0 d records)
  unfolding stamp_each
  stamp_each_lem t0 at [] records (inl a) = a
  stamp_each_lem t0 at [] records (inr (a, b)) = absurd (ground arith)
  stamp_each_lem t0 at ((n, q) ∷ d) records h =
      stamp_each_lem t0 at d (Dict.put n (stamp t0 (record_of n records)) records)
        (turn (Hashed at) (Stamped t0 at) n q d records _ step h)
    where
      step :
          (old : Record)
          → Hashed at old ⊎ Stamped t0 at old
          → record_of n records ≡ old
          → Stamped t0 at (stamp t0 (record_of n records))
      step old k e = rw e (stamped old k)
        where
          stamped :
              (old : Record) → Hashed at old ⊎ Stamped t0 at old → Stamped t0 at (stamp t0 old)
          stamped old k = ground arith

module _ (H : Host) (C : IsClock H) (g : Target) where
  open C use {now}

  tree_updates-le-now :
      (names : List (String × String)) (out : List String) (s : H.State)
      → now s ≤ now (tree_updates H names out s).1
  unfolding tree_updates
  tree_updates-le-now [] out s = omega arith
  tree_updates-le-now ((entry, relative) ∷ names) out s =
      now-le-continue C s (H.file_digest entry s) _ (C.file_digest-le-now entry s)
        (λ h t. tree_updates-le-now names (out ++ (relative ∷ "\0" ∷ h ∷ "\0" ∷ [])) t)

  digest-le-now : (path : String) (s : H.State) → now s ≤ now (digest H g path s).1
  unfolding digest
  digest-le-now path s = elim (Bool-cases g.tree) [
    | inl tree ↦ rw tree (omega (arith, C.files_below-le-now path s, all))
    | inr file ↦ rw file (C.file_digest-le-now path s)
  ]
    where
      below : List (String × String) × H.State
      below = H.files_below path s

      all :
          now below.1
          ≤ now ((do updates ← tree_updates H below.0 []; pure (H.hexdigest updates)) below.1).1
      all =
          now-le-continue C below.1 (tree_updates H below.0 [] below.1) _
            (tree_updates-le-now below.0 [] below.1) (λ a t. omega arith)

  -- A returned record keeps its arrival, has a hash exactly if it arrived, and the clock went on.
  abbrev Verified : Record → H.State → Record → H.State → Type 0
  Verified old s r s' =
      (r.arrived_at ≡ old.arrived_at)
      × (r.elapsed ≡ old.elapsed)
      × (is_set r.sha256 ≡ is_set old.arrived_at)
      × (now s ≤ now s')

  pub later_Ensures :
      {A : Type 0} (s : H.State) (r : Result A × H.State)
      → now s ≤ now r.1
      → Ensures (λ a t. now s ≤ now t) r
  later_Ensures s (ok a, t) h = h
  later_Ensures s (raised e, t) h = tt

  verify_at_lem :
      (path : String) (old : Record) (at : Option ℕ) (s : H.State)
      → old.arrived_at ≡ at
      → Ensures (Verified old s) (verify_at H g path old at s)
  unfolding verify_at
  verify_at_lem path old none s e = (refl, refl, rw e refl, omega arith)
  verify_at_lem path old (some at) s e =
      Ensures-continue (λ h t. now s ≤ now t) (Verified old s) (digest H g path s) _
        (later_Ensures s (digest H g path s) (digest-le-now path s))
        (λ h t le. (refl, refl, rw e refl, omega (arith, now-le-time_after C t)))

  verify_lem :
      (path : String) (old : Record) (s : H.State)
      → Ensures (Verified old s) (verify H g path old s)
  unfolding verify
  verify_lem path old s = verify_at_lem path old old.arrived_at s refl

  module _ (name path : String) (at : Option ℕ) where
    verify-Turn :
        (n q : String) (d : Nodes) (records : Dict String Record) (s : H.State) (r : Record)
        (s' : H.State)
        → Turn name path (Plain name path at) (Hashed name path at) ((n, q) ∷ d) records
        → Verified (record_of n records) s r s'
        → Turn name path (Plain name path at) (Hashed name path at) d (Dict.put n r records)
    verify-Turn n q d records s r s' h v =
        turn name path (Plain name path at) (Hashed name path at) n q d records r step h
      where
        step :
            (old : Record)
            → Plain name path at old ⊎ Hashed name path at old
            → record_of n records ≡ old
            → Hashed name path at r
        step old (inl k) e = ground arith
        step old (inr k) e = ground arith

    pub verify_each_lem :
        (d : Nodes) (records : Dict String Record) (s : H.State)
        → Turn name path (Plain name path at) (Hashed name path at) d records
        → Ensures
            (λ out s'. At (Hashed name path at) name out × (now s ≤ now s'))
            (verify_each H g d records s)
    unfolding verify_each
    verify_each_lem [] records s (inl a) = (a, omega arith)
    verify_each_lem [] records s (inr (a, b)) = absurd (ground arith)
    verify_each_lem ((n, q) ∷ d) records s h =
        Ensures-continue (Verified (record_of n records) s) _ (verify H g q (record_of n records) s)
          _ (verify_lem q (record_of n records) s)
          (λ r s' v.
            after s s' _ v.3
              (verify_each_lem d (Dict.put n r records) s' (verify-Turn n q d records s r s' h v)))
      where
        after :
            (s s' : H.State) (r : Result (Dict String Record) × H.State)
            → now s ≤ now s'
            → Ensures (λ out t. At (Hashed name path at) name out × (now s' ≤ now t)) r
            → Ensures (λ out t. At (Hashed name path at) name out × (now s ≤ now t)) r
        after s s' (ok a, t) le (x, y) = (x, omega arith)
        after s s' (raised e, t) le h = tt
