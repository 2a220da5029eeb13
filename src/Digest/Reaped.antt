-- ===== src/Digest/Reaped.antt =====
-- `measure` of tools/measure/measure_digest.py leaves no node running, on any path.
use syncfs.Base.{
  ℕ, zero, suc, ◌+◌, ◌-◌, ◌≡◌, refl, ap, ◌∙◌, Bool, true, false, Option, none, some, List, [], ◌∷◌,
  String, ◌<>◌, arith, ltb, if_rule, if◌then◌else◌,
}
use syncfs.Base.Exec.{Result, ok, raised, Exec, continue, pure, finally, after_finally, Runs}
use syncfs.Host.{Host}
use syncfs.Matrix.Rows.{range}
use syncfs.Digest.{
  Wire, node_addr, probe_addr, probe_endpoint, addressed, name_of, parent_of, write_tree, answer,
  ask, await, reported, converse, kill_late, see_off, attend, measure_in, with_tree, measure,
}

-- The number of nodes that were started and not yet seen off: a node is seen off by a wait that does
-- not time out, or by a kill. No other call changes it.
pub record IsTally {H : Host} (W : Wire H) : Type 0 where
  pub open_nodes : H.State → ℕ
  pub popen_tally :
      (p a d : String) (s : H.State)
      → Runs
          (λ t. open_nodes t ≡ open_nodes s)
          (λ node t. open_nodes t ≡ suc (open_nodes s))
          (W.popen p a d s)
  pub wait_tally :
      (n : ℕ) (s : H.State)
      → open_nodes (W.wait n s).1 ≡ (if (W.wait n s).0 then open_nodes s else open_nodes s - 1)
  pub kill_tally : (n : ℕ) (s : H.State) → open_nodes (W.kill n s) ≡ open_nodes s - 1
  pub terminate_tally : (n : ℕ) (s : H.State) → open_nodes (W.terminate n s) ≡ open_nodes s
  pub close_tally : (s : H.State) → open_nodes (W.close s) ≡ open_nodes s
  pub mkdtemp_tally : (s : H.State) → open_nodes (W.mkdtemp s).1 ≡ open_nodes s
  pub cleanup_tally : (p : String) (s : H.State) → open_nodes (W.cleanup p s).1 ≡ open_nodes s
  pub mkdir_tally : (p : String) (s : H.State) → open_nodes (W.mkdir p s).1 ≡ open_nodes s
  pub write_tally : (p t : String) (s : H.State) → open_nodes (W.write_text p t s).1 ≡ open_nodes s
  pub subscribe_tally :
      (t e : String) (s : H.State) → open_nodes (W.subscribe t e s).1 ≡ open_nodes s
  pub publish_tally : (e : String) (s : H.State) → open_nodes (W.publish e s).1 ≡ open_nodes s
  pub send_tally : (m : List String) (s : H.State) → open_nodes (W.send m s).1 ≡ open_nodes s
  pub poll_tally : (d : ℕ) (s : H.State) → open_nodes (W.poll d s).1 ≡ open_nodes s
  pub recv_tally : (s : H.State) → open_nodes (W.recv s).1 ≡ open_nodes s
  pub time_tally : (s : H.State) → open_nodes (H.time s).1 ≡ open_nodes s
  pub sleep_tally : (d : ℕ) (s : H.State) → open_nodes (H.sleep d s) ≡ open_nodes s

module _ (H : Host) (W : Wire H) (T : IsTally W) where
  open T use {open_nodes}

  -- The call leaves the number as it is, whether it returns or raises.
  abbrev Level : {A : Type 0} → Exec H.State A → Type 0
  Level m = (s : H.State) → open_nodes (m s).1 ≡ open_nodes s

  continue-Level :
      {A C : Type 0} (n : ℕ) (r : Result A × H.State) (f : A → Exec H.State C)
      → open_nodes r.1 ≡ n
      → ((a : A) → Level (f a))
      → open_nodes (continue r.0 f r.1).1 ≡ n
  continue-Level n (ok a, s) f h k = k a s ∙ h
  continue-Level n (raised e, s) f h k = h

  finally-Level :
      {A : Type 0} (m : Exec H.State A) (k : Exec H.State (Unit {0}))
      → Level m
      → Level k
      → Level (finally m k)
  unfolding finally
  finally-Level m k h j s = go (m s).0 (k (m s).1) ∙ j (m s).1 ∙ h s
    where
      go :
          {A : Type 0} (r : Result A) (q : Result (Unit {0}) × H.State)
          → open_nodes (after_finally r q).1 ≡ open_nodes q.1
      go r (ok u, t) = refl
      go r (raised e, t) = refl

  write_tree-Level :
      (depth_one : Bool) (tree : String) (ns : List ℕ) → Level (write_tree H W depth_one tree ns)
  unfolding write_tree
  write_tree-Level depth_one tree [] s = refl
  write_tree-Level depth_one tree (n ∷ ns) s =
      continue-Level (open_nodes s) (W.mkdir (parent_of depth_one tree n) s) _
        (T.mkdir_tally (parent_of depth_one tree n) s)
        (λ u t.
          continue-Level (open_nodes t) (W.write_text (tree <> ("/" <> name_of depth_one n)) _ t) _
            (T.write_tally (tree <> ("/" <> name_of depth_one n)) _ t)
            (λ v. write_tree-Level depth_one tree ns))

  answer-Level :
      (next : Exec H.State (Option (Option (List ℕ)))) (got : Bool)
      → Level next
      → Level (answer H W next got)
  answer-Level next true h s =
      continue-Level (open_nodes s) (W.recv s) (λ parts. pure (some (some parts))) (T.recv_tally s)
        (λ parts t. refl)
  answer-Level next false h s = h s

  ask-Level : (next : Exec H.State (Option (Option (List ℕ)))) → Level next → Level (ask H W next)
  ask-Level next h s = continue-Level (open_nodes s) (W.send _ s) _ (T.send_tally _ s) (λ u t.
      answer-Level next (W.poll 1000000 t).0 h (W.poll 1000000 t).1 ∙ T.poll_tally 1000000 t)

  await-Level : (fuel end : ℕ) → Level (await H W fuel end)
  unfolding await
  await-Level zero end s = refl
  await-Level (suc fuel) end s =
      if_rule
        (λ (m : Exec H.State (Option (Option (List ℕ)))).
          open_nodes (m (H.time s).1).1 ≡ open_nodes s)
        (ltb (H.time s).0 end) (ask H W (await H W fuel end)) (pure (some none))
        (λ early.
          ask-Level (await H W fuel end) (await-Level fuel end) (H.time s).1 ∙ T.time_tally s)
        (λ past. T.time_tally s)

  reported-Level :
      (files : ℕ) (depth_one : Bool) (parts : Option (Option (List ℕ)))
      → Level (reported H W files depth_one parts)
  reported-Level files depth_one none s = refl
  reported-Level files depth_one (some none) s = refl
  reported-Level files depth_one (some (some [])) s = refl
  reported-Level files depth_one (some (some (a ∷ []))) s = refl
  reported-Level files depth_one (some (some (a ∷ b ∷ rest))) s = refl

  converse-Level :
      (fuel budget files : ℕ) (depth_one : Bool) → Level (converse H W fuel budget files depth_one)
  unfolding converse
  converse-Level fuel budget files depth_one s =
      let s₁ = H.sleep 3000000 s in
      let s₂ = (H.time s₁).1 in
      continue-Level (open_nodes s) (await H W fuel ((H.time s₁).0 + budget) s₂) _
        (await-Level fuel ((H.time s₁).0 + budget) s₂ ∙ T.time_tally s₁ ∙ T.sleep_tally 3000000 s)
        (reported-Level files depth_one)

  kill_late_tally :
      (node : ℕ) (s : H.State) (r : Bool × H.State)
      → open_nodes r.1 ≡ (if r.0 then open_nodes s else open_nodes s - 1)
      → open_nodes (kill_late H W node r) ≡ open_nodes s - 1
  kill_late_tally node s (true, t) h = T.kill_tally node t ∙ ap (λ n. n - 1) h
  kill_late_tally node s (false, t) h = h

  see_off_tally : (node : ℕ) (s : H.State) → open_nodes (see_off H W node s).1 ≡ open_nodes s - 1
  unfolding see_off
  see_off_tally node s =
      let t = W.terminate node s in
      T.close_tally (kill_late H W node (W.wait node t))
      ∙ kill_late_tally node t (W.wait node t) (T.wait_tally node t)
      ∙ ap (λ n. n - 1) (T.terminate_tally node s)

  -- A node is seen off whatever the talk with it comes to.
  attend_tally :
      (fuel budget files : ℕ) (depth_one : Bool) (node : ℕ) (s : H.State)
      → open_nodes (attend H W fuel budget files depth_one node s).1 ≡ open_nodes s - 1
  unfolding attend finally see_off
  attend_tally fuel budget files depth_one node s =
      see_off_tally node (converse H W fuel budget files depth_one s).1
      ∙ ap (λ n. n - 1) (converse-Level fuel budget files depth_one s)

  started-Level :
      (fuel budget files : ℕ) (depth_one : Bool) (n : ℕ) (r : Result ℕ × H.State)
      → Runs (λ t. open_nodes t ≡ n) (λ node t. open_nodes t ≡ suc n) r
      → open_nodes (continue r.0 (attend H W fuel budget files depth_one) r.1).1 ≡ n
  started-Level fuel budget files depth_one n (ok node, t) h =
      attend_tally fuel budget files depth_one node t ∙ omega (arith, h)
  started-Level fuel budget files depth_one n (raised e, t) h = h

  measure_in-Level :
      (fuel budget files : ℕ) (depth_one : Bool) (scratch tree : String)
      → Level (measure_in H W fuel budget files depth_one scratch tree)
  unfolding measure_in
  measure_in-Level fuel budget files depth_one scratch tree s =
      continue-Level (open_nodes s) (W.write_text (scratch <> "/peers") probe_endpoint s) _
        (T.write_tally (scratch <> "/peers") probe_endpoint s)
        λ _ t₁.
          continue-Level (open_nodes t₁) (write_tree H W depth_one tree (range files) t₁) _
            (write_tree-Level depth_one tree (range files) t₁)
            λ _ t₂.
              continue-Level (open_nodes t₂)
                (W.subscribe (addressed "digest" probe_endpoint) ("tcp://" <> node_addr) t₂) _
                (T.subscribe_tally _ _ t₂)
                λ _ t₃.
                  continue-Level (open_nodes t₃) (W.publish ("tcp://" <> probe_addr) t₃) _
                    (T.publish_tally _ t₃)
                    λ _ t₄.
                      started-Level fuel budget files depth_one (open_nodes t₄)
                        (W.popen (scratch <> "/peers") node_addr tree t₄)
                        (T.popen_tally (scratch <> "/peers") node_addr tree t₄)

  with_tree-Level :
      (fuel budget files : ℕ) (depth_one : Bool) (scratch : String)
      → Level (with_tree H W fuel budget files depth_one scratch)
  unfolding with_tree
  with_tree-Level fuel budget files depth_one scratch s =
      continue-Level (open_nodes s) (W.mkdtemp s) _ (T.mkdtemp_tally s) λ tree.
        finally-Level (measure_in H W fuel budget files depth_one scratch tree) (W.cleanup tree)
          (measure_in-Level fuel budget files depth_one scratch tree) (T.cleanup_tally tree)

  -- Let a node be seen off by a wait that does not time out or by a kill, and let no call but the start
  -- of a node add to those that are not. Whether it returns a report, nothing, or raises, `measure` leaves as many nodes running as there
  -- were: the node that it starts has ended within the wait, or is killed, also when a socket, the
  -- digest or the removal of a directory fails.
  pub measure-Level :
      (fuel budget files : ℕ) (depth_one : Bool) (s : H.State)
      → open_nodes (measure H W fuel budget files depth_one s).1 ≡ open_nodes s
  unfolding measure
  measure-Level fuel budget files depth_one s =
      continue-Level (open_nodes s) (W.mkdtemp s) _ (T.mkdtemp_tally s) (λ scratch.
        finally-Level (with_tree H W fuel budget files depth_one scratch) (W.cleanup scratch)
          (with_tree-Level fuel budget files depth_one scratch) (T.cleanup_tally scratch))
