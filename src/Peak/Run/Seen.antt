-- ===== src/Peak/Run/Seen.antt =====
-- The loop of `run` (tools/measure/measure_peak.py) ends, and what it calls converged is.
use syncfs.Base.{
  ℕ, ◌+◌, ◌≤◌, ◌<◌, ◌≡◌, refl, inr, Bool, true, false, Option, none, some, List, [], ◌∷◌, String,
  arith, All,
}
use syncfs.Base.Exec.{Result, ok, raised, continue, pure, Ensures}
use syncfs.Host.{Host, IsClock, now-le-time_after}
use syncfs.Poller.Loop.{poll, Looked, Stopped, Ended, poll-Stopped, poll-Ended}
use syncfs.Readiness.Heard.{Heard, none_left_later}
use syncfs.Peak.Run.{
  Daemons, Sampled, searching, always, count_of, raise_peak, sample, sample_again, flat, and_then,
  all_files, settle_down, conclude, round, search_files,
}

-- Listing the descriptors of a process and looking for a file take no negative time.
pub record IsQuick {H : Host} (C : IsClock H) (D : Daemons H) : Type 0 where
  pub fds-le-now : (p : ℕ) (s : H.State) → C.now s ≤ C.now (D.list_fds p s).1
  pub file-le-now : (p : String) (s : H.State) → C.now s ≤ C.now (D.is_file p s).1

abbrev pub IsKnown : Option ℕ → Type 0
IsKnown none = ⊥
IsKnown (some n) = Unit

module _ (H : Host) (C : IsClock H) (D : Daemons H) (Q : IsQuick C D) where
  open C use {now}

  -- The file was there at a moment between `start` and `s`.
  abbrev pub Found : ℕ → String → H.State → Type 0
  Found = Heard H C D.is_file

  abbrev pub AllFound : ℕ → List String → H.State → Type 0
  AllFound start paths s = All (λ p. Found start p s) paths

  sample_lem :
      (procs : List ℕ) (peak : Option ℕ) (s : H.State)
      → IsKnown peak
      → IsKnown (sample H D procs peak s).0 × (now s ≤ now (sample H D procs peak s).1)
  unfolding sample
  sample_lem procs none s h = absurd h
  sample_lem [] (some n) s h = (tt, omega arith)
  sample_lem (p ∷ ps) (some n) s h =
      let (known, le) =
        sample_lem ps (some (raise_peak n (count_of (D.list_fds p s).0))) (D.list_fds p s).1 tt in
      (known, omega (arith, Q.fds-le-now p s, le))

  -- What a look at files tells: if it says yes, each of them was there since `start`.
  abbrev Looks : ℕ → List String → H.State → Bool × H.State → Type 0
  Looks start paths s r = (r.0 ≡ true → AllFound start paths r.1) × (now s ≤ now r.1)

  and_then_lem :
      (start : ℕ) (p : String) (ps : List String) (s : H.State) (r : Bool × H.State)
      → D.is_file p s ≡ r
      → start ≤ now s
      → now s ≤ now r.1
      → Looks start ps r.1 (all_files H D ps r.1)
      → Looks start (p ∷ ps) s (and_then H D (all_files H D ps) r)
  and_then_lem start p ps s (false, t) e begun le rest = (λ h. absurd cc, le)
  and_then_lem start p ps s (true, t) e begun le (all, later) = (
    λ h. (
      record { state = s; said = λ i. (e i).0; began = begun; by = omega (arith, later, le) },
      all h,
    ),
    omega (arith, later, le),
  )

  all_files-Looks :
      (start : ℕ) (paths : List String) (s : H.State)
      → start ≤ now s
      → Looks start paths s (all_files H D paths s)
  unfolding all_files
  all_files-Looks start [] s begun = (λ h. tt, omega arith)
  all_files-Looks start (p ∷ ps) s begun =
      and_then_lem start p ps s (D.is_file p s) refl begun (Q.file-le-now p s)
        (all_files-Looks start ps (D.is_file p s).1 (omega (arith, begun, Q.file-le-now p s)))

  module _ (fuel : ℕ) (procs : List ℕ) (paths : List String) where
    -- The peak is known, and `start` is over.
    abbrev Known : ℕ → Option ℕ → H.State → Type 0
    Known start p s = IsKnown p × (start ≤ now s)

    Known-later :
        (start : ℕ) (p : Option ℕ) (s s' : H.State)
        → now s ≤ now s'
        → Known start p s
        → Known start p s'
    Known-later start p s s' le (k, begun) = (k, omega (arith, begun))

    sample_again-Looked :
        (start : ℕ) (p : Option ℕ) (s : H.State)
        → Known start p s
        → Looked H always
            (sample_again H D fuel procs paths)
            C
            (Known start)
            s
            (sample_again H D fuel procs paths p s)
    sample_again-Looked start p s (k, begun) =
        let (known, le) = sample_lem procs p s k in ((known, omega (arith, le, begun)), le)

    flat-Known :
        (start end : ℕ) (r : Result (Option (Option ℕ)) × H.State)
        → Stopped H always (sample_again H D fuel procs paths) C (Known start) end r
        → Ended H always (sample_again H D fuel procs paths) C (Known start) r
        → Ensures (Known start) (continue r.0 (λ last. pure (flat H D fuel procs paths last)) r.1)
    flat-Known start end (raised e, t) h k = tt
    flat-Known start end (ok none, t) h k = absurd k
    flat-Known start end (ok (some p), t) h k = h.0

    -- The four seconds end, whatever the processes do.
    settle_down-Known :
        (p : Option ℕ) (s : H.State)
        → 4000000 < fuel
        → IsKnown p
        → Ensures (Known (now s)) (settle_down H D fuel procs paths p s)
    unfolding settle_down
    settle_down-Known p s long k =
        flat-Known (now s) end
          (poll H always (sample_again H D fuel procs paths) fuel 100000 end p s₁)
          (poll-Stopped H always (sample_again H D fuel procs paths) C (Known (now s))
            (Known-later (now s)) (sample_again-Looked (now s)) fuel 100000 end p s₁ first)
          (poll-Ended H always (sample_again H D fuel procs paths) C (Known (now s))
            (Known-later (now s)) (sample_again-Looked (now s)) fuel 100000 end p s₁ (omega arith)
            first (omega arith, inr (omega (arith, C.time-le-now s))))
      where
        s₁ : H.State
        s₁ = (H.time s).1

        end : ℕ
        end = (H.time s).0 + 4000000

        first : Known (now s) p s₁
        first = (k, now-le-time_after C s)

    -- The loop's invariant.
    abbrev Hunted : ℕ → Sampled → H.State → Type 0
    Hunted start p s =
        (start ≤ now s) × IsKnown p.peak × (p.converged ≡ true → AllFound start paths s)

    Hunted-later :
        (start : ℕ) (p : Sampled) (s s' : H.State)
        → now s ≤ now s'
        → Hunted start p s
        → Hunted start p s'
    Hunted-later start p s s' le (begun, k, all) = (
      omega (arith, begun),
      k,
      λ h. none_left_later H C D.is_file start start paths s s' (omega arith) le (all h),
    )

    abbrev Round : ℕ → H.State → Result Sampled × H.State → Type 0
    Round start = Looked H searching (round H D fuel procs paths) C (Hunted start)

    settled-Round :
        (start : ℕ) (s₀ s : H.State) (r : Result (Option ℕ) × H.State)
        → start ≤ now s₀
        → now s₀ ≤ now s
        → AllFound start paths s
        → Ensures (Known (now s)) r
        → Round start s₀ (continue r.0 (λ p. pure (record { peak = p; converged = true })) r.1)
    settled-Round start s₀ s (raised e, t) begun le all h = tt
    settled-Round start s₀ s (ok p, t) begun le all (k, after) = (
      (
        omega (arith, after),
        k,
        λ h. none_left_later H C D.is_file start start paths s t (omega arith) after all,
      ),
      omega (arith, after),
    )

    conclude-Round :
        (start : ℕ) (s₀ s : H.State) (peak : Option ℕ) (all : Bool)
        → 4000000 < fuel
        → start ≤ now s₀
        → now s₀ ≤ now s
        → IsKnown peak
        → (all ≡ true → AllFound start paths s)
        → Round start s₀ (conclude H D fuel procs paths peak all s)
    conclude-Round start s₀ s peak false long begun le k all =
        ((omega arith, k, λ h. absurd cc), le)
    conclude-Round start s₀ s peak true long begun le k all =
        settled-Round start s₀ s (settle_down H D fuel procs paths peak s) begun le (all refl)
          (settle_down-Known peak s long k)

    round-Round :
        (start : ℕ) (p : Sampled) (s : H.State)
        → 4000000 < fuel
        → Hunted start p s
        → Round start s (round H D fuel procs paths p s)
    unfolding round
    round-Round start p s long (begun, k, all) =
        let (known, le) = sample_lem procs p.peak s k in
        let t = (sample H D procs p.peak s).1 in
        let (seen, later) = all_files-Looks start paths t (omega (arith, begun, le)) in
        conclude-Round start s (all_files H D paths t).1 (sample H D procs p.peak s).0
          (all_files H D paths t).0 long begun (omega (arith, le, later)) known seen

    -- What the loop returns.
    abbrev pub Searched : ℕ → Option Sampled → H.State → Type 0
    Searched start none s = ⊥
    Searched start (some p) s = IsKnown p.peak × (p.converged ≡ true → AllFound start paths s)

    stopping-Searched :
        (start end : ℕ) (r : Result (Option Sampled) × H.State)
        → Stopped H searching (round H D fuel procs paths) C (Hunted start) end r
        → Ended H searching (round H D fuel procs paths) C (Hunted start) r
        → Ensures (Searched start) r
    stopping-Searched start end (raised e, s) h k = tt
    stopping-Searched start end (ok none, s) h k = k
    stopping-Searched start end (ok (some p), s) ((begun, known, all), stop) k = (known, all)

    -- With more fuel than there are microseconds in the budget, and in four seconds, the loop of `run` comes to an end, and
    -- so do the four seconds behind it. Where it says that the mesh has converged, each file of each
    -- node has been found there at some moment since the loop began.
    pub search_files-Searched :
        (budget : ℕ) (s : H.State)
        → budget < fuel
        → 4000000 < fuel
        → Ensures (Searched (now s)) (search_files H D fuel procs paths budget s)
    unfolding search_files
    search_files-Searched budget s room long =
        stopping-Searched (now s) end
          (poll H searching (round H D fuel procs paths) fuel 100000 end start_with s₁)
          (poll-Stopped H searching (round H D fuel procs paths) C (Hunted (now s))
            (Hunted-later (now s)) (λ p t h. round-Round (now s) p t long h) fuel 100000 end
            start_with s₁ first)
          (poll-Ended H searching (round H D fuel procs paths) C (Hunted (now s))
            (Hunted-later (now s)) (λ p t h. round-Round (now s) p t long h) fuel 100000 end
            start_with s₁ (omega arith) first (omega arith, inr (omega (arith, C.time-le-now s))))
      where
        s₁ : H.State
        s₁ = (H.time s).1

        end : ℕ
        end = (H.time s).0 + budget

        start_with : Sampled
        start_with = record { peak = some 0; converged = false }

        first : Hunted (now s) start_with s₁
        first = (now-le-time_after C s, tt, λ h. absurd cc)
