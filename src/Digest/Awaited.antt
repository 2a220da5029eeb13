-- ===== src/Digest/Awaited.antt =====
-- `measure` of tools/measure/measure_digest.py comes to an end.
use syncfs.Base.{
  ℕ, zero, suc, ◌+◌, ◌*◌, ◌≤◌, ◌<◌, ◌≡◌, ◌≢◌, refl, Bool, true, false, Option, none, some, List, [],
  ◌∷◌, String, ◌<>◌, arith, ltb, ltb→lt, le_of_ltb, if_rule,
}
use syncfs.Base.Exec.{
  Result, ok, raised, Exec, continue, pure, finally, after_finally, Ensures, Ensures-continue,
}
use syncfs.Host.{Host, IsClock, now-le-time_after}
use syncfs.Matrix.Rows.{range}
use syncfs.Digest.{
  Wire, node_addr, probe_addr, probe_endpoint, addressed, write_tree, answer, ask, await, reported,
  converse, see_off, attend, measure_in, with_tree, measure,
}

-- A poll that finds no message has lasted as long as it was to, and sending takes no negative time.
pub record IsPatient {H : Host} (C : IsClock H) (W : Wire H) : Type 0 where
  pub send-le-now : (m : List String) (s : H.State) → C.now s ≤ C.now (W.send m s).1
  pub poll_lasts :
      (d : ℕ) (s : H.State) → (W.poll d s).0 ≡ false → C.now s + d ≤ C.now (W.poll d s).1

module _ (H : Host) (C : IsClock H) (W : Wire H) (Q : IsPatient C W) where
  open C use {now}

  abbrev second : ℕ
  second = 1000000

  -- The loop returned parts, or is past the deadline.
  abbrev Awaited : ℕ → Option (Option (List ℕ)) → H.State → Type 0
  Awaited end none s = ⊥
  Awaited end (some none) s = end ≤ now s
  Awaited end (some (some parts)) s = Unit

  received :
      (end : ℕ) (r : Result (List ℕ) × H.State)
      → Ensures (Awaited end) (continue r.0 (λ parts. pure (some (some parts))) r.1)
  received end (ok parts, s) = tt
  received end (raised e, s) = tt

  answer-Awaited :
      (end : ℕ) (next : Exec H.State (Option (Option (List ℕ)))) (r : Bool × H.State)
      → (r.0 ≡ false → Ensures (Awaited end) (next r.1))
      → Ensures (Awaited end) (answer H W next r.0 r.1)
  answer-Awaited end next (true, t) h = received end (W.recv t)
  answer-Awaited end next (false, t) h = h refl

  sent :
      (s : H.State) (m : List String) (r : Result (Unit {0}) × H.State)
      → now s ≤ now r.1
      → Ensures (λ u t. now s ≤ now t) r
  sent s m (ok u, t) le = le
  sent s m (raised e, t) le = tt

  await-Awaited :
      (fuel end : ℕ) (s : H.State)
      → 0 < fuel
      → end + second ≤ now s + fuel * second
      → Ensures (Awaited end) (await H W fuel end s)
  unfolding await
  await-Awaited zero end s pos room = absurd (omega arith)
  await-Awaited (suc fuel) end s pos room =
      if_rule (λ (m : Exec H.State (Option (Option (List ℕ)))). Ensures (Awaited end) (m s₁))
        (ltb (H.time s).0 end) (ask H W (await H W fuel end)) (pure (some none))
        (λ early.
          Ensures-continue (λ u t. now s₁ ≤ now t) (Awaited end) (W.send _ s₁) _
            (sent s₁ [] (W.send _ s₁) (Q.send-le-now _ s₁))
            (λ u t le. answer-Awaited end (await H W fuel end) (W.poll second t) (λ silent.
              await-Awaited fuel end (W.poll second t).1
                (omega (arith, C.now-le-time s, ltb→lt _ _ early, room))
                (omega (arith, now-le-time_after C s, le, Q.poll_lasts second t silent, room)))))
        (λ past. omega (arith, C.time-le-now s, le_of_ltb _ _ past))
    where
      s₁ : H.State
      s₁ = (H.time s).1

  -- A call that does not run out of fuel.
  abbrev Ends : {A : Type 0} → Exec H.State (Option A) → Type 0
  Ends m = (s : H.State) → (m s).0 ≢ ok none

  continue-Ends :
      {A B : Type 0} (r : Result A × H.State) (f : A → Exec H.State (Option B))
      → ((a : A) → Ends (f a))
      → (continue r.0 f r.1).0 ≢ ok none
  continue-Ends (ok a, s) f h = h a s
  continue-Ends (raised e, s) f h = λ x. cc

  finally-Ends :
      {A : Type 0} (m : Exec H.State (Option A)) (k : Exec H.State (Unit {0}))
      → Ends m
      → Ends (finally m k)
  unfolding finally
  finally-Ends m k h s = go (m s).0 (k (m s).1) (h s)
    where
      go :
          {A : Type 0} (r : Result (Option A)) (q : Result (Unit {0}) × H.State)
          → r ≢ ok none
          → (after_finally r q).0 ≢ ok none
      go r (ok u, t) j = j
      go r (raised e, t) j = λ x. cc

  reported-Ends :
      (files : ℕ) (depth_one : Bool) (end : ℕ) (r : Result (Option (Option (List ℕ))) × H.State)
      → Ensures (Awaited end) r
      → (continue r.0 (reported H W files depth_one) r.1).0 ≢ ok none
  reported-Ends files depth_one end (raised e, s) h = λ x. cc
  reported-Ends files depth_one end (ok none, s) h = absurd h
  reported-Ends files depth_one end (ok (some none), s) h = λ x. cc
  reported-Ends files depth_one end (ok (some (some [])), s) h = λ x. cc
  reported-Ends files depth_one end (ok (some (some (a ∷ []))), s) h = λ x. cc
  reported-Ends files depth_one end (ok (some (some (a ∷ b ∷ rest))), s) h = λ x. cc

  module _ (fuel budget files : ℕ) (depth_one : Bool) (room : budget + second ≤ fuel * second) where
    converse-Ends : Ends (converse H W fuel budget files depth_one)
    unfolding converse
    converse-Ends s = reported-Ends files depth_one ((H.time s₁).0 + budget) _ (
        await-Awaited fuel ((H.time s₁).0 + budget) (H.time s₁).1 (omega (arith, room))
          (omega (arith, C.time-le-now s₁, room)))
      where
        s₁ : H.State
        s₁ = H.sleep 3000000 s

    measure_in-Ends :
        (scratch tree : String) → Ends (measure_in H W fuel budget files depth_one scratch tree)
    unfolding measure_in attend
    measure_in-Ends scratch tree s =
        continue-Ends (W.write_text (scratch <> "/peers") probe_endpoint s) _ λ _ t₁.
          continue-Ends (write_tree H W depth_one tree (range files) t₁) _ λ _ t₂.
            continue-Ends
              (W.subscribe (addressed "digest" probe_endpoint) ("tcp://" <> node_addr) t₂) _
              λ _ t₃. continue-Ends (W.publish ("tcp://" <> probe_addr) t₃) _ λ _ t₄.
                continue-Ends (W.popen (scratch <> "/peers") node_addr tree t₄) _ λ node.
                  finally-Ends (converse H W fuel budget files depth_one) (see_off H W node)
                    converse-Ends

    with_tree-Ends : (scratch : String) → Ends (with_tree H W fuel budget files depth_one scratch)
    unfolding with_tree
    with_tree-Ends scratch s = continue-Ends (W.mkdtemp s) _ λ tree.
        finally-Ends (measure_in H W fuel budget files depth_one scratch tree) (W.cleanup tree)
          (measure_in-Ends scratch tree)

    -- With a round's fuel for each second of the budget and one more, a clock that does not run back,
    -- and polls that last their time where they find no message, `measure` comes to an end: it returns
    -- a report or nothing, or raises.
    pub measure-Ends : (s : H.State) → (measure H W fuel budget files depth_one s).0 ≢ ok none
    unfolding measure
    measure-Ends s = continue-Ends (W.mkdtemp s) _ λ scratch.
        finally-Ends (with_tree H W fuel budget files depth_one scratch) (W.cleanup scratch)
          (with_tree-Ends scratch)
