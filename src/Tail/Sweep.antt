-- ===== src/Tail/Sweep.antt =====
-- A sweep comes to an end, with a value for each write.
use syncfs.Base.{
  ℕ, zero, suc, ◌+◌, ◌≤◌, ◌<◌, ◌≡◌, ◌≢◌, refl, ap, Bool, Option, none, some, List, String, arith,
  length, if◌then◌else◌,
}
use syncfs.Base.Int.{ℤ}
use syncfs.Base.Exec.{
  Result, ok, raised, Exec, continue, finally, after_finally, Ensures, Ensures-continue,
}
use syncfs.Host.{Host, IsClock}
use syncfs.Poller.Watch.{Record, Target, watch}
use syncfs.Poller.Watch.Outcome.{watch-Ended}
use syncfs.Poller.Absent.{watch_absent}
use syncfs.Poller.Absent.Ends.{watch_absent-Ended}
use syncfs.Podman.{Podman, Root, Mesh}
use syncfs.Cluster.{up}
use syncfs.Cluster.Wait.{IsPrompt}
use syncfs.Cluster.Up.{Stands, up-Stands}
use syncfs.Matrix.Summary.{last_arrival}
use syncfs.Tail.{
  Disk, places, place_of, elapsed_of, write_name, target, forget, write_one, write_each, and_then,
  prepend, take_down, on_mesh, sweep, payload, unit_size,
}

abbrev There : {A : Type 0} → Option A → Type 0
There none = ⊥
There (some a) = Unit

module _ {S : Type 0} where
  There-ended :
      {A : Type 0} (r : Result (Option A) × S) → r.0 ≢ ok none → Ensures (λ o t. There o) r
  There-ended (ok none, s) h = h refl
  There-ended (ok (some a), s) h = tt
  There-ended (raised e, s) h = tt

  -- What holds of the value alone survives what runs in the end.
  Ensures-finally :
      {A : Type 0} (Q : A → Type 0) (m : Exec S A) (k : Exec S (Unit {0})) (s : S)
      → Ensures (λ a t. Q a) (m s)
      → Ensures (λ a t. Q a) (finally m k s)
  unfolding finally
  Ensures-finally {A} Q m k s h = go (m s) h
    where
      end :
          (r : Result A) (t : S) (u : Result (Unit {0}) × S)
          → Ensures (λ a w. Q a) (r, t)
          → Ensures (λ a w. Q a) (after_finally r u)
      end (ok a) t (ok v, w) h = h
      end (raised e) t (ok v, w) h = tt
      end r t (raised e, w) h = tt

      go :
          (r : Result A × S)
          → Ensures (λ a w. Q a) r
          → Ensures (λ a w. Q a) (after_finally r.0 (k r.1))
      go (r, t) h = end r t (k t) h

module _ (H : Host) (C : IsClock H) (P : Podman H) (Q : IsPrompt C P) (D : Disk H)
    (copied : (a b : String) (s : H.State) → C.now s ≤ C.now (D.copyfile a b s).1)
    (dumps : Record → String) (fuel : ℕ) (root : Root) (room : 600000000 < fuel) where
  open C use {now}

  -- as many values as writes
  abbrev pub Counted : ℕ → Option (List (Option ℤ)) → Type 0
  Counted n none = ⊥
  Counted n (some values) = length values ≡ n

  forget_lem :
      (mesh : Mesh) (previous : Option String) (s : H.State)
      → Ensures (λ o t. There o) (forget H P D dumps fuel root mesh previous s)
  unfolding forget
  forget_lem mesh none s = tt
  forget_lem mesh (some previous) s =
      Ensures-continue (λ u t. Unit {0}) (λ o t. There o)
        (D.unlink (place_of mesh.writer (places previous mesh.node)) s) _
        (anything (D.unlink (place_of mesh.writer (places previous mesh.node)) s))
        (λ u t h. There-ended (watch_absent H fuel (places previous mesh.node) 200000 120000000 t) (
          watch_absent-Ended H C fuel 200000 120000000 (places previous mesh.node) t (omega arith)
            (omega (arith, room))))
    where
      anything :
          {A : Type 0} (r : Result A × H.State) → Ensures (λ (a : A) (t : H.State). Unit {0}) r
      anything (ok a, t) = tt
      anything (raised e, t) = tt

  write_one_lem :
      (mesh : Mesh) (name : String) (s : H.State)
      → Ensures (λ o t. There o) (write_one H P D dumps fuel root mesh name s)
  unfolding write_one
  write_one_lem mesh name s =
      Ensures-continue (λ u t. now s₁ ≤ now t) (λ o t. There o) (D.copyfile source goal s₁) _
        (after (D.copyfile source goal s₁) (copied source goal s₁))
        (λ u t le.
          There-ended
            (watch H g dumps fuel (places name mesh.node) 50000 120000000 t0 "/dev/null" t)
            (watch-Ended H C g dumps (places name mesh.node) t0 "/dev/null" fuel 50000 120000000 t
              (omega arith) (omega (arith, room)) (omega (arith, room, C.time-le-now s))))
    where
      g : Target
      g = target H P D dumps fuel root

      source : String
      source = payload H P D dumps fuel root

      goal : String
      goal = place_of mesh.writer (places name mesh.node)

      s₁ : H.State
      s₁ = (H.time s).1

      t0 : ℕ
      t0 = (H.time s).0

      after :
          (r : Result (Unit {0}) × H.State)
          → now s₁ ≤ now r.1
          → Ensures (λ (u : Unit {0}) t. now s₁ ≤ now t) r
      after (ok u, t) h = h
      after (raised e, t) h = tt

  prepend_lem :
      (n : ℕ) (v : Option ℤ) (r : Result (Option (List (Option ℤ))) × H.State)
      → Ensures (λ o t. Counted n o) r
      → Ensures
          (λ o t. Counted (suc n) o)
          (continue r.0
            (λ values (t : H.State). (ok (prepend H P D dumps fuel root v values), t))
            r.1)
  prepend_lem n v (ok none, t) h = h
  prepend_lem n v (ok (some values), t) h = ap suc h
  prepend_lem n v (raised e, t) h = tt

  and_then_lem :
      {A : Type 0} (n : ℕ) (o : Option A) (f : A → Exec H.State (Option (List (Option ℤ))))
      (s : H.State)
      → There o
      → ((a : A) (t : H.State) → Ensures (λ o t. Counted n o) (f a t))
      → Ensures (λ o t. Counted n o) (and_then H P D dumps fuel root o f s)
  and_then_lem n none f s there h = absurd there
  and_then_lem n (some a) f s there h = h a s

  write_each-Counted :
      (mesh : Mesh) (deletes : Bool) (n i : ℕ) (previous : Option String) (s : H.State)
      → Ensures (λ o t. Counted n o) (write_each H P D dumps fuel root mesh deletes n i previous s)
  unfolding write_each
  write_each-Counted mesh deletes zero i previous s = refl
  write_each-Counted mesh deletes (suc n) i previous s =
      Ensures-continue (λ o t. There o) (λ o t. Counted (suc n) o)
        (forget H P D dumps fuel root mesh (if deletes then previous else none) s) _
        (forget_lem mesh (if deletes then previous else none) s)
        (λ gone t h. and_then_lem (suc n) gone _ t h (λ g t'.
          Ensures-continue (λ o w. There o) (λ o w. Counted (suc n) o)
            (write_one H P D dumps fuel root mesh (write_name i) t') _
            (write_one_lem mesh (write_name i) t')
            (λ records w k. and_then_lem (suc n) records _ w k (λ rs w'.
              prepend_lem n (last_arrival (elapsed_of rs))
                (write_each H P D dumps fuel root mesh deletes n (i + 1) (some (write_name i)) w')
                (write_each-Counted mesh deletes n (i + 1) (some (write_name i)) w')))))

  on_mesh-Counted :
      (nodes writes start : ℕ) (deletes : Bool) (mesh : Option Mesh) (s : H.State)
      → Stands H C P Q root start nodes mesh s
      → Ensures
          (λ o t. Counted writes o)
          (on_mesh H P D dumps fuel root nodes writes deletes mesh s)
  unfolding on_mesh
  on_mesh-Counted nodes writes start deletes none s h = absurd h
  on_mesh-Counted nodes writes start deletes (some mesh) s h =
      go (D.write_random (payload H P D dumps fuel root) unit_size s)
    where
      k : Exec H.State (Option (List (Option ℤ)))
      k =
          finally (write_each H P D dumps fuel root mesh deletes writes 0 none)
            (take_down H P D dumps fuel root nodes)

      go :
          (r : Result (Unit {0}) × H.State)
          → Ensures (λ o t. Counted writes o) (continue r.0 (λ u. k) r.1)
      go (raised e, t) = tt
      go (ok u, t) =
          Ensures-finally (Counted writes)
            (write_each H P D dumps fuel root mesh deletes writes 0 none)
            (take_down H P D dumps fuel root nodes) t
            (write_each-Counted mesh deletes writes 0 none t)

  -- With more fuel than there are microseconds in ten minutes, a clock that does not run back, and a
  -- podman and a copy that take no negative time, a sweep returns or raises. Where it returns, it
  -- has a value for each write.
  pub sweep-Counted :
      (nodes writes : ℕ) (deletes : Bool) (s : H.State)
      → Ensures (λ o t. Counted writes o) (sweep H P D dumps fuel root nodes writes deletes s)
  unfolding sweep
  sweep-Counted nodes writes deletes s =
      Ensures-continue (Stands H C P Q root (now s) nodes) (λ o t. Counted writes o)
        (up H P root fuel none nodes 600000000 s) _
        (up-Stands H C P Q root fuel none nodes 600000000 s room)
        (λ mesh t h. on_mesh-Counted nodes writes (now s) deletes mesh t h)
