-- ===== src/Cluster/Up.antt =====
-- `up`: a mesh that it returns stands, with all its nodes ready.
use syncfs.Base.{
  ℕ, ◌+◌, ◌≤◌, ◌<◌, ◌≡◌, ◌∙◌, Bool, true, false, Option, none, some, List, [], ◌∷◌, String, ◌<>◌,
  arith, All, length, length-map, ltb, if_rule,
}
use syncfs.Base.Equality.{nat_eq}
use syncfs.Base.Exec.{
  Result, ok, raised, Exec, raise, continue, Ensures, Ensures-continue, system_exit,
}
use syncfs.Host.{Host, IsClock, now-le-continue, after_Ensures}
use syncfs.Matrix.Rows.{range, length-range_from}
use syncfs.Podman.{
  Podman, Root, Mesh, network, node_ids, container, peers_text, run_args, data_dir, node_root,
}
use syncfs.Cluster.{
  create, ensure_network, start_node, start_each, wait_ready, observed_nofile, first_of, present,
  up_mesh, up,
}
use syncfs.Cluster.Wait.{IsPrompt, Settled, Ready, wait_ready-Ready}

module _ (H : Host) (C : IsClock H) (P : Podman H) (Q : IsPrompt C P) where
  open C use {now}

  ensure_network-le-now : (s : H.State) → now s ≤ now (ensure_network H P s).1
  unfolding ensure_network
  ensure_network-le-now s = go (P.network_exists network s) (Q.network-le-now network s)
    where
      go : (r : Bool × H.State) → now s ≤ now r.1 → now s ≤ now (create H P r.0 r.1).1
      go (true, t) h = h
      go (false, t) h = omega (arith, Q.run-le-now _ t)

  module _ (root : Root) where
    start_node-le-now :
        (debug : Option String) (ids : List ℕ) (i : ℕ) (s : H.State)
        → now s ≤ now (start_node H P root debug ids i s).1
    unfolding start_node
    start_node-le-now debug ids i s =
        now-le-continue C s (P.mkdir (data_dir root i) s) _ (Q.mkdir-le-now _ s) (λ u t.
          now-le-continue C t (P.write_text (node_root root i <> "/peers") (peers_text i ids) t) _
            (Q.write-le-now _ _ t)
            (λ v w. omega (
              arith,
              Q.remove-le-now (container root i) w,
              Q.run-le-now (run_args root P.uid i debug) (P.remove (container root i) w),
            )))

    start_each-le-now :
        (debug : Option String) (ids is : List ℕ) (s : H.State)
        → now s ≤ now (start_each H P root debug ids is s).1
    unfolding start_each
    start_each-le-now debug ids [] s = omega arith
    start_each-le-now debug ids (i ∷ is) s =
        now-le-continue C s (start_node H P root debug ids i s) _ (start_node-le-now debug ids i s)
          (λ u t. start_each-le-now debug ids is t)

    observed_nofile-le-now : (i : ℕ) (s : H.State) → now s ≤ now (observed_nofile H P root i s).1
    unfolding observed_nofile
    observed_nofile-le-now i s =
        let t = P.pid (container root i) s in
        omega (arith, Q.pid-le-now (container root i) s, Q.limits-le-now t.0 t.1)

    -- Each of the nodes has settled since `start`.
    abbrev pub AllSettled : ℕ → List ℕ → H.State → Type 0
    AllSettled start ids s = All (λ i. Settled H C P Q root start i s) ids

    AllSettled-later :
        (start start' : ℕ) (ids : List ℕ) (s s' : H.State)
        → start' ≤ start
        → now s ≤ now s'
        → AllSettled start ids s
        → AllSettled start' ids s'
    AllSettled-later start start' [] s s' before after all = tt
    AllSettled-later start start' (i ∷ ids) s s' before after (k, all) = (
      record {
        at = k.at;
        heard = record {
          state = k.heard.state;
          said = k.heard.said;
          began = omega (arith, k.heard.began);
          by = k.heard.by;
        };
        graced = omega (arith, k.graced);
      },
      AllSettled-later start start' ids s s' before after all,
    )

    abbrev Standing : ℕ → List ℕ → Option Mesh → H.State → Type 0
    Standing start ids none s = ⊥
    Standing start ids (some mesh) s = (length mesh.node ≡ length ids) × AllSettled start ids s

    present-Standing :
        (start t₀ count : ℕ) (ids : List ℕ) (r : Result (Option (Unit {0})) × H.State)
        → start ≤ t₀
        → Ready H C P Q root t₀ ids r
        → Ensures (Standing start ids) (continue r.0 (present H P root count ids) r.1)
    present-Standing start t₀ count ids (raised e, s) le h = tt
    present-Standing start t₀ count ids (ok none, s) le h = h
    present-Standing start t₀ count ids (ok (some u), s) le h =
        Ensures-continue (λ n t. now s ≤ now t) (Standing start ids)
          (observed_nofile H P root (first_of H P root ids) s) _
          (after_Ensures C s _ (observed_nofile-le-now (first_of H P root ids) s))
          (λ n t after. (length-map _ ids, AllSettled-later t₀ start ids s t le after h))

    up_mesh-Standing :
        (fuel : ℕ) (debug : Option String) (count : ℕ) (ids : List ℕ) (deadline : ℕ) (s : H.State)
        → deadline < fuel
        → Ensures (Standing (now s) ids) (up_mesh H P root fuel debug count ids deadline s)
    unfolding up_mesh
    up_mesh-Standing fuel debug count ids deadline s room =
        Ensures-continue (λ u t. now s ≤ now t) S (ensure_network H P s) _
          (after_Ensures C s _ (ensure_network-le-now s))
          (λ u t h.
            Ensures-continue (λ v t'. now t ≤ now t') S (P.mkdir root.path t) _
              (after_Ensures C t _ (Q.mkdir-le-now root.path t))
              (λ v w h'.
                Ensures-continue (λ x t'. now w ≤ now t') S (start_each H P root debug ids ids w) _
                  (after_Ensures C w _ (start_each-le-now debug ids ids w))
                  (λ x y h''.
                    present-Standing (now s) (now y) count ids
                      (wait_ready H P root fuel ids deadline y) (omega arith)
                      (wait_ready-Ready H C P Q root fuel ids deadline y room))))
      where
        S : Option Mesh → H.State → Type 0
        S = Standing (now s) ids

    -- What a mesh of `count` nodes is.
    abbrev pub Stands : ℕ → ℕ → Option Mesh → H.State → Type 0
    Stands start count none s = ⊥
    Stands start count (some mesh) s =
        (2 ≤ count) × (length mesh.node ≡ count) × AllSettled start (node_ids count) s

length-node_ids : (count : ℕ) → length (node_ids count) ≡ count
unfolding node_ids
length-node_ids count = length-map (λ i. 1 + i) (range count) ∙ length-range_from 0 count

module _ (H : Host) (C : IsClock H) (P : Podman H) (Q : IsPrompt C P) (root : Root) where
  open C use {now}

  as_Stands :
      (start count : ℕ) (r : Result (Option Mesh) × H.State)
      → 2 ≤ count
      → Ensures (Standing H C P Q root start (node_ids count)) r
      → Ensures (Stands H C P Q root start count) r
  as_Stands start count (raised e, s) two h = tt
  as_Stands start count (ok none, s) two h = h
  as_Stands start count (ok (some mesh), s) two (n, all) = (two, n ∙ length-node_ids count, all)

  -- With more fuel than there are microseconds to the deadline, a clock that does not run back, and
  -- a podman that takes no negative time, `up` returns or raises. Where it returns, the mesh lists
  -- `count` nodes, which is 2 or more, and each of them has been heard to start since the call, five
  -- seconds or more before the return.
  pub up-Stands :
      (fuel : ℕ) (debug : Option String) (count deadline : ℕ) (s : H.State)
      → deadline < fuel
      → Ensures (Stands H C P Q root (now s) count) (up H P root fuel debug count deadline s)
  unfolding up
  up-Stands fuel debug count deadline s room =
      if_rule
        (λ (m : Exec H.State (Option Mesh)). Ensures (Stands H C P Q root (now s) count) (m s))
        (ltb count 2)
        (raise (system_exit "a syncfs mesh needs at least 2 nodes: an empty peer list is fatal"))
        (up_mesh H P root fuel debug count (node_ids count) deadline) (λ few. tt)
        (λ enough.
          as_Stands (now s) count _ (ground arith)
            (up_mesh-Standing H C P Q root fuel debug count (node_ids count) deadline s room))
