-- ===== src/Poller/Absent.antt =====
-- `watch_absent` of tools/measure/bucketfs/poller.py: wait until a path is gone from every node.
pub mod Ends
use syncfs.Base.{
  ℕ, zero, suc, ◌+◌, ◌≤◌, ◌<◌, ◌≡◌, refl, ◌∙◌, ◌⊎◌, inl, inr, Bool, true, false, not, Option, none,
  some, [], ◌∷◌, String, arith, if◌then◌else◌, is_empty, Bool-cases, if_rule, ap,
}
use mathlib.Core.Path.{subst}
use syncfs.Base.Int.{ℤ, pos, negsuc}
use syncfs.Base.Equality.{string_eq}
use syncfs.Base.Dict
use syncfs.Base.Exec.{Result, ok, raised, Exec, pure, call, continue, ◌>>=◌}
use syncfs.Host.{Host, IsClock, now-le-time_after}
use syncfs.Poller.Arrival.{file_size, file_size-le-now}
use syncfs.Poller.Loop.{poll, Looked, Looked-from, Stopped, Ended, poll-Stopped, poll-Ended}
use syncfs.Poller.Watch.{Nodes}
use syncfs.Poller.Watch.Look.{Only, Only-remove, Only-of_get}

abbrev pub waiting : Nodes → Bool
waiting pending = not (is_empty pending)

-- `file_size(path) == -1`
abbrev pub gone : ℤ → Bool
gone (pos n) = false
gone (negsuc zero) = true
gone (negsuc (suc n)) = false

module _ (H : Host) where
  -- `del pending[name]` where the path is gone
  unfoldable pub drop_gone : String → Nodes → Result ℤ × H.State → Result Nodes × H.State
  drop_gone name pending (raised e, s) = (raised e, s)
  drop_gone name pending (ok size, s) =
      (ok (if gone size then Dict.remove name pending else pending), s)

  unfoldable pub look_gone : Nodes → Nodes → Exec H.State Nodes
  unfolding drop_gone
  look_gone [] pending = pure pending
  look_gone ((name, path) ∷ rest) pending = do
    left ← λ s. drop_gone name pending (file_size H path s)
    look_gone rest left

  -- one round, over `list(pending.items())`
  unfoldable pub look_absent : Nodes → Exec H.State Nodes
  unfolding look_gone
  look_absent pending = look_gone pending pending

  -- `return not pending`
  abbrev pub verdict : Option Nodes → Exec H.State (Option Bool)
  verdict none = pure none
  verdict (some pending) = pure (some (is_empty pending))

  -- `none` where the fuel runs out.
  unfoldable pub watch_absent : ℕ → Nodes → ℕ → ℕ → Exec H.State (Option Bool)
  unfolding look_absent
  watch_absent fuel nodes interval deadline = do
    t ← call H.time
    stopped ← poll H waiting look_absent fuel interval (t + deadline) nodes
    verdict stopped

module _ (H : Host) (C : IsClock H) (start : ℕ) (name path : String) where
  open C use {now}

  -- The path was found missing at a state between the start and `s`.
  pub record Missing (s : H.State) : Type 0 where
    pub state : H.State
    pub said : (file_size H path state).0 ≡ ok (negsuc 0)
    pub began : start ≤ now state
    pub by : now state ≤ now s

  pub record Watched (pending : Nodes) (s : H.State) : Type 0 where
    pub begun : start ≤ now s
    pub only : Only name path pending
    pub here : (Dict.get name pending ≡ some path) ⊎ Missing s

  Watched-later : (p : Nodes) (s s' : H.State) → now s ≤ now s' → Watched p s → Watched p s'
  Watched-later p s s' le h = record {
    begun = omega arith;
    only = h.only;
    here = elim h.here [
      | inl a ↦ inl a
      | inr m ↦ inr (record { state = m.state; said = m.said; began = m.began; by = omega arith })
    ];
  }

  abbrev Kept : H.State → Result Nodes × H.State → Type 0
  Kept = Looked H waiting (look_absent H) C Watched

  gone_lem : (size : ℤ) → gone size ≡ true → size ≡ negsuc 0
  gone_lem (pos n) h = cc
  gone_lem (negsuc zero) h = refl
  gone_lem (negsuc (suc n)) h = cc

  dropped :
      (n : String) (p : Nodes) (s : H.State)
      → (n ≡ name → Missing s)
      → Watched p s
      → Watched (Dict.remove n p) s
  dropped n p s missing h = record {
    begun = h.begun;
    only = Only-remove name path n p h.only;
    here = elim (Bool-cases (string_eq.eqb n name)) [
      | inl same ↦ inr (missing ((string_eq.eqb_iff n name).0 same))
      | inr other ↦ elim h.here [
        | inl a ↦ inl (Dict.get-remove_ne n name p other ∙ a)
        | inr m ↦ inr m
      ]
    ];
  }

  drop_gone-Kept :
      (n : String) (p : Nodes) (s : H.State) (r : Result ℤ × H.State)
      → (n ≡ name → r.0 ≡ ok (negsuc 0) → Missing r.1)
      → now s ≤ now r.1
      → Watched p s
      → Kept s (drop_gone H n p r)
  unfolding drop_gone
  drop_gone-Kept n p s (raised e, s₁) missing le h = tt
  drop_gone-Kept n p s (ok size, s₁) missing le h = (
    if_rule (λ q. Watched q s₁) (gone size) (Dict.remove n p) p
        (λ g. dropped n p s₁ (λ e. missing e (ap ok (gone_lem size g))) (Watched-later p s s₁ le h))
        (λ g. Watched-later p s s₁ le h),
    le,
  )

  then-Kept :
      (next : Nodes → Exec H.State Nodes) (s : H.State) (r : Result Nodes × H.State)
      → ((p : Nodes) (t : H.State) → Watched p t → Kept t (next p t))
      → Kept s r
      → Kept s (continue r.0 next r.1)
  then-Kept next s (raised e, t) rest h = tt
  then-Kept next s (ok p, t) rest (h, le) =
      Looked-from H waiting (look_absent H) C Watched s t (next p t) le (rest p t h)

  look_gone-Kept :
      (ns p : Nodes) (s : H.State) → Only name path ns → Watched p s → Kept s (look_gone H ns p s)
  unfolding look_gone
  look_gone-Kept [] p s only h = (h, omega arith)
  look_gone-Kept ((n, q) ∷ ns) p s only h =
      then-Kept (look_gone H ns) s (drop_gone H n p (file_size H q s))
        (λ p' t h'. look_gone-Kept ns p' t only.1 h')
        (drop_gone-Kept n p s (file_size H q s)
          (λ same said. record {
            state = s;
            said = subst (λ x. (file_size H x s).0 ≡ ok (negsuc 0)) (only.0 same) said;
            began = h.begun;
            by = omega (arith, file_size-le-now H C q s);
          })
          (file_size-le-now H C q s) h)

  look_absent-Kept : (p : Nodes) (s : H.State) → Watched p s → Kept s (look_absent H p s)
  unfolding look_absent
  look_absent-Kept p s h = look_gone-Kept p p s h.only h

  -- What the three ways to end say.
  abbrev pub Absence : ℕ → Result (Option Bool) × H.State → Type 0
  Absence end (raised e, s) = Unit
  Absence end (ok none, s) = ⊥
  Absence end (ok (some true), s) = Missing s
  Absence end (ok (some false), s) = end ≤ now s

  verdict_lem :
      (end : ℕ) (r : Result (Option Nodes) × H.State)
      → Stopped H waiting (look_absent H) C Watched end r
      → Ended H waiting (look_absent H) C Watched r
      → Absence end (continue r.0 (verdict H) r.1)
  verdict_lem end (raised e, s) h k = tt
  verdict_lem end (ok none, s) h k = k
  verdict_lem end (ok (some []), s) (h, stop) k = elim h.here [ inl a ↦ cc | inr m ↦ m ]
  verdict_lem end (ok (some (e ∷ p)), s) (h, stop) k = elim stop [ inl idle ↦ cc | inr past ↦ past ]

module _ (H : Host) (C : IsClock H) (name path : String) where
  open C use {now}

  -- With an interval, more fuel than there are microseconds to the deadline, distinct names, and a
  -- clock that does not run back, `watch_absent` comes to an end. Where it returns true, the path of
  -- every node was found missing during the call; where it returns false, the deadline is past.
  pub watch_absent-Absence :
      (fuel interval deadline : ℕ) (nodes : Nodes) (s : H.State)
      → Dict.NodupKeys nodes
      → Dict.get name nodes ≡ some path
      → 0 < interval
      → deadline < fuel
      → Absence H C
          (now s)
          name
          path
          ((H.time s).0 + deadline)
          (watch_absent H fuel nodes interval deadline s)
  unfolding watch_absent
  watch_absent-Absence fuel interval deadline nodes s u named ipos room =
      verdict_lem H C (now s) name path end
        (poll H waiting (look_absent H) fuel interval end nodes s₁)
        (poll-Stopped H waiting (look_absent H) C W later kept fuel interval end nodes s₁ first)
        (poll-Ended H waiting (look_absent H) C W later kept fuel interval end nodes s₁ ipos first
          (omega arith, inr (omega (arith, C.time-le-now s))))
    where
      s₁ : H.State
      s₁ = (H.time s).1

      end : ℕ
      end = (H.time s).0 + deadline

      W : Nodes → H.State → Type 0
      W = Watched H C (now s) name path

      later : (p : Nodes) (t t' : H.State) → now t ≤ now t' → W p t → W p t'
      later = Watched-later H C (now s) name path

      kept :
          (p : Nodes) (t : H.State)
          → W p t
          → Looked H waiting (look_absent H) C W t (look_absent H p t)
      kept = look_absent-Kept H C (now s) name path

      first : W nodes s₁
      first = record {
        begun = now-le-time_after C s;
        only = Only-of_get name path nodes u named;
        here = inl named;
      }
