-- ===== src/Exasol/Up.antt =====
-- `up` of tools/measure/bucketfs/exasol_cluster.py: a cluster that it returns answers.
use syncfs.Base.{
  ℕ, ◌+◌, ◌≤◌, ◌<◌, ◌≡◌, ◌∙◌, Bool, true, false, Option, none, some, List, [], ◌∷◌, String, ◌<>◌,
  arith, All, length, length-map,
}
use syncfs.Base.Exec.{Result, ok, raised, Exec, pure, ◌>>◌, continue, Ensures, Ensures-continue}
use syncfs.Host.{Host, IsClock, now-le-continue, after_Ensures}
use syncfs.Matrix.Rows.{range, length-range_from}
use syncfs.Podman.{Podman, Root}
use syncfs.Readiness.{wait_pending}
use syncfs.Readiness.Heard.{Heard, Pending, none_left, none_left_later, wait_pending-Pending}
use syncfs.Cluster.Wait.{IsPrompt}
use syncfs.ExaConf.{Passwords, read_passwords}
use syncfs.Exasol.{
  Files, Exa, create_exanet, ensure_exanet, clear_template, write_template, start_exa, start_exas,
  ask, settle_exa, wait_answers, describe_exa, present_exa, up_exa,
}
use syncfs.ExaNet.{
  exanet, exa_ids, exa_container, exa_root, template_of, exaconf_of, init_args, modify_args,
  exa_run_args, url_of,
}

-- The calls besides those of podman take no negative time.
pub record IsSwift {H : Host} (C : IsClock H) (F : Files H) : Type 0 where
  pub exists-le-now : (p : String) (s : H.State) → C.now s ≤ C.now (F.exists p s).1
  pub rmtree-le-now : (p : String) (s : H.State) → C.now s ≤ C.now (F.rmtree p s).1
  pub copy-le-now : (a b : String) (s : H.State) → C.now s ≤ C.now (F.copy a b s).1
  pub read-le-now : (p : String) (s : H.State) → C.now s ≤ C.now (F.read_text p s).1
  pub http-le-now : (u : String) (s : H.State) → C.now s ≤ C.now (F.http_code u s).1

module _ (H : Host) (C : IsClock H) (P : Podman H) (Q : IsPrompt C P) (F : Files H)
    (S : IsSwift C F) where
  open C use {now}

  asked : (i : ℕ) (s : H.State) → now s ≤ now (ask H P F i s).1
  asked i s = S.http-le-now (url_of i <> "/") s

  ensure_exanet-le-now : (s : H.State) → now s ≤ now (ensure_exanet H P F s).1
  unfolding ensure_exanet
  ensure_exanet-le-now s = go (P.network_exists exanet s) (Q.network-le-now exanet s)
    where
      go : (r : Bool × H.State) → now s ≤ now r.1 → now s ≤ now (create_exanet H P F r.0 r.1).1
      go (true, t) h = h
      go (false, t) h = omega (arith, Q.run-le-now _ t)

  abbrev made : Root → ℕ → ℕ → Exec H.State (Unit {0})
  made root count period = do
    P.mkdir (template_of root <> "/etc")
    P.run (init_args root count)
    P.run (modify_args root period)

  abbrev shown : Root → ℕ → ℕ → Passwords → Exec H.State (Option Exa)
  shown root count period p = pure (some (describe_exa H P F root count (exa_ids count) period p))

  clear_template-le-now :
      (root : Root) (there : Bool) (s : H.State) → now s ≤ now (clear_template H P F root there s).1
  clear_template-le-now root true s = S.rmtree-le-now (template_of root) s
  clear_template-le-now root false s = omega arith

  made-le-now :
      (root : Root) (count period : ℕ) (s : H.State) → now s ≤ now (made root count period s).1
  made-le-now root count period s =
      now-le-continue C s (P.mkdir (template_of root <> "/etc") s) _ (Q.mkdir-le-now _ s) (λ u t.
        now-le-continue C t (P.run (init_args root count) t) _ (Q.run-le-now _ t)
          (λ v w. Q.run-le-now (modify_args root period) w))

  write_template-le-now :
      (root : Root) (count period : ℕ) (s : H.State)
      → now s ≤ now (write_template H P F root count period s).1
  unfolding write_template
  write_template-le-now root count period s =
      let r = F.exists (template_of root) s in
      omega (
        arith,
        S.exists-le-now (template_of root) s,
        now-le-continue C r.1 (clear_template H P F root r.0 r.1) (λ u t. made root count period t)
            (clear_template-le-now root r.0 r.1) (λ u t. made-le-now root count period t),
      )

  module _ (root : Root) where
    start_exa-le-now : (i : ℕ) (s : H.State) → now s ≤ now (start_exa H P F root i s).1
    unfolding start_exa
    start_exa-le-now i s =
        now-le-continue C s (P.mkdir (exa_root root i <> "/etc") s) _ (Q.mkdir-le-now _ s) (λ u t.
          now-le-continue C t (F.copy (exaconf_of root) (exa_root root i <> "/etc/EXAConf") t) _
            (S.copy-le-now _ _ t)
            (λ v w. omega (
              arith,
              Q.remove-le-now (exa_container root i) w,
              Q.run-le-now (exa_run_args root i) (P.remove (exa_container root i) w),
            )))

    start_exas-le-now : (is : List ℕ) (s : H.State) → now s ≤ now (start_exas H P F root is s).1
    unfolding start_exas
    start_exas-le-now [] s = omega arith
    start_exas-le-now (i ∷ is) s =
        now-le-continue C s (start_exa H P F root i s) _ (start_exa-le-now i s)
          (λ u t. start_exas-le-now is t)

    -- Each of the nodes was asked between `start` and `s`, and answered.
    abbrev pub AllAnswered : ℕ → List ℕ → H.State → Type 0
    AllAnswered start ids s = All (λ i. Heard H C (ask H P F) start i s) ids

    abbrev Answering : ℕ → List ℕ → Result (Option (Unit {0})) × H.State → Type 0
    Answering start ids (raised e, s) = Unit
    Answering start ids (ok none, s) = ⊥
    Answering start ids (ok (some u), s) = AllAnswered start ids s

    settle_exa-Answering :
        (start : ℕ) (ids : List ℕ) (deadline : ℕ) (r : Result (Option (List ℕ)) × H.State)
        → Pending H C (ask H P F) start ids r
        → Answering start ids (continue r.0 (settle_exa H P F root deadline) r.1)
    settle_exa-Answering start ids deadline (raised e, s) h = tt
    settle_exa-Answering start ids deadline (ok none, s) h = h
    settle_exa-Answering start ids deadline (ok (some (j ∷ js)), s) h = tt
    settle_exa-Answering start ids deadline (ok (some []), s) h =
        none_left H C (ask H P F) start ids s h

    wait_answers-Answering :
        (fuel : ℕ) (ids : List ℕ) (deadline : ℕ) (s : H.State)
        → deadline < fuel
        → Answering (now s) ids (wait_answers H P F root fuel ids deadline s)
    unfolding wait_answers
    wait_answers-Answering fuel ids deadline s room =
        settle_exa-Answering (now s) ids deadline
          (wait_pending H P (exa_container root) (ask H P F) fuel 2000000 ids deadline s)
          (wait_pending-Pending H C P (exa_container root) (ask H P F) Q.status-le-now asked fuel
            2000000 ids deadline s (omega arith) room)

    -- What a cluster of `count` nodes is.
    abbrev pub Answers : ℕ → ℕ → Option Exa → H.State → Type 0
    Answers start count none s = ⊥
    Answers start count (some exa) s =
        (length exa.node ≡ count) × AllAnswered start (exa_ids count) s

    length-exa_ids : (count : ℕ) → length (exa_ids count) ≡ count
    unfolding exa_ids
    length-exa_ids count = length-map (λ i. 11 + i) (range count) ∙ length-range_from 0 count

    described :
        (start t₀ count period : ℕ) (s t : H.State)
        → start ≤ t₀
        → now s ≤ now t
        → AllAnswered t₀ (exa_ids count) s
        → (p : Result Passwords)
        → Ensures (Answers start count) (continue p (shown root count period) t)
    described start t₀ count period s t le after h (raised e) = tt
    described start t₀ count period s t le after h (ok p) = (
      length-map _ (exa_ids count) ∙ length-exa_ids count,
      none_left_later H C (ask H P F) t₀ start (exa_ids count) s t le after h,
    )

    present_exa-Answers :
        (start t₀ count period : ℕ) (r : Result (Option (Unit {0})) × H.State)
        → start ≤ t₀
        → Answering t₀ (exa_ids count) r
        → Ensures
            (Answers start count)
            (continue r.0 (present_exa H P F root count (exa_ids count) period) r.1)
    present_exa-Answers start t₀ count period (raised e, s) le h = tt
    present_exa-Answers start t₀ count period (ok none, s) le h = h
    present_exa-Answers start t₀ count period (ok (some u), s) le h =
        Ensures-continue (λ text t. now s ≤ now t) (Answers start count)
          (F.read_text (exaconf_of root) s) _
          (after_Ensures C s _ (S.read-le-now (exaconf_of root) s))
          (λ text t after.
            described start t₀ count period s t le after h
              (read_passwords F.b64decode (exaconf_of root) text))

    -- With more fuel than there are microseconds to the deadline, a clock that does not run back, and
    -- calls that take no negative time, `up` returns or raises. Where it returns, the cluster lists
    -- `count` nodes, and each of them has answered a request over HTTP with one of the four statuses at
    -- some moment since the call.
    pub up_exa-Answers :
        (fuel count period deadline : ℕ) (s : H.State)
        → deadline < fuel
        → Ensures (Answers (now s) count) (up_exa H P F root fuel count period deadline s)
    unfolding up_exa
    up_exa-Answers fuel count period deadline s room =
        Ensures-continue (λ u t. now s ≤ now t) A (ensure_exanet H P F s) _
          (after_Ensures C s _ (ensure_exanet-le-now s))
          (λ u t h.
            Ensures-continue (λ v t'. now t ≤ now t') A (P.mkdir root.path t) _
              (after_Ensures C t _ (Q.mkdir-le-now root.path t))
              (λ v w h'.
                Ensures-continue (λ x t'. now w ≤ now t') A
                  (write_template H P F root count period w) _
                  (after_Ensures C w _ (write_template-le-now root count period w))
                  (λ x y h₂.
                    Ensures-continue (λ b t'. now y ≤ now t') A
                      (start_exas H P F root (exa_ids count) y) _
                      (after_Ensures C y _ (start_exas-le-now (exa_ids count) y))
                      (λ b z h₃.
                        present_exa-Answers (now s) (now z) count period
                          (wait_answers H P F root fuel (exa_ids count) deadline z) (omega arith)
                          (wait_answers-Answering fuel (exa_ids count) deadline z room)))))
      where
        A : Option Exa → H.State → Type 0
        A = Answers (now s) count
