-- ===== src/Poller/Watch/Outcome.antt =====
-- What `watch` returns, for every node: it terminates, and its records are true.
use syncfs.Base.{
  ℕ, ◌+◌, ◌≤◌, ◌<◌, ◌≡◌, ◌≢◌, refl, ◌∙◌, ◌⊎◌, inl, inr, true, false, Option, none, some, [], ◌∷◌,
  String, arith, not, is_empty,
}
use syncfs.Base.Equality.{string_eq}
use syncfs.Base.Dict
use syncfs.Base.Dict.{Dict}
use syncfs.Base.Exec.{Result, ok, raised, Ensures, Ensures-continue, Ensures-map, continue}
use syncfs.Host.{Host, IsClock}
use syncfs.Poller.Loop.{poll, Stopped, Ended, poll-Stopped, poll-Ended}
use syncfs.Poller.Watch.{
  Record, fresh, Nodes, Progress, Target, busy, look, close_pending, verify_each, stamp_each,
  lines_of, report, watch, at_start, finish,
}
use syncfs.Poller.Watch.Look.{
  Only-of_get, Seen, Tracked, Tracked-later, look-Looked, Always, look-Forward,
}
use syncfs.Poller.Watch.Report.{
  At, Stamped, Plain, Hashed, close_pending_absent, close_pending_there, stamp_each_lem,
  verify_each_lem, later_Ensures,
}

module _ (H : Host) (C : IsClock H) (g : Target) (name path : String) where
  open C use {now}

  -- The arrival time is one at which the copy was seen, and no arrival means that the deadline
  -- passed.
  abbrev pub Explained : ℕ → ℕ → Option ℕ → H.State → Type 0
  Explained start end none s = end ≤ now s
  Explained start end (some t) s = Seen H C g start name path t

  pub record Reported (start t0 end : ℕ) (records : Dict String Record) (s : H.State) : Type 0 where
    pub at : Option ℕ
    pub entry : At (Stamped name path t0 at) name records
    pub explained : Explained start end at s

  -- The loop's end, and the record that the node has once `close_pending` has run.
  record Closed (start t0 end : ℕ) (p : Progress) (s : H.State) : Type 0 where
    at : Option ℕ
    row : At (Plain name path at) name (close_pending p.pending p.records)
    why : Explained start end at s

  -- A name that is pending keeps the loop busy.
  busy_of_get : (p : Progress) → Dict.get name p.pending ≡ some path → busy p ≡ true
  busy_of_get p h = go p.pending h
    where
      go : (d : Nodes) → Dict.get name d ≡ some path → not (is_empty d) ≡ true
      go [] h = cc
      go (e ∷ d) h = refl

  closed :
      (start t0 end : ℕ) (p : Progress) (s : H.State)
      → Tracked H C g start name path p s
      → (busy p ≡ false) ⊎ (end ≤ now s)
      → Closed start t0 end p s
  closed start t0 end p s k stop = elim k.here [
    | inl (waiting, nothing) ↦ record {
      at = none;
      row = record {
        it = fresh name none;
        is_it = close_pending_there name path p.pending p.records waiting;
        meets = (refl, refl);
      };
      why = past stop (busy_of_get p waiting);
    }
    | inr (gone, (t, there, seen)) ↦ record {
      at = some t;
      row = record {
        it = fresh name (some t);
        is_it = close_pending_absent name path p.pending p.records gone ∙ there;
        meets = (refl, refl);
      };
      why = seen;
    }
  ]
    where
      past : (busy p ≡ false) ⊎ (end ≤ now s) → busy p ≡ true → end ≤ now s
      past (inl idle) more = cc
      past (inr late) more = late

  Explained-later :
      (start end : ℕ) (at : Option ℕ) (s s' : H.State)
      → now s ≤ now s'
      → Explained start end at s
      → Explained start end at s'
  Explained-later start end none s s' le h = omega arith
  Explained-later start end (some t) s s' le h = h

  -- What holds of the records, where there are any.
  abbrev pub Answered :
      (Dict String Record → H.State → Type 0)
      → Result (Option (Dict String Record)) × H.State
      → Type 0
  Answered Q (raised e, s) = Unit
  Answered Q (ok none, s) = Unit
  Answered Q (ok (some records), s) = Q records s

  pub answered :
      (Q : Dict String Record → H.State → Type 0) (r : Result (Dict String Record) × H.State)
      → Ensures Q r
      → Answered Q (continue r.0 (λ records t. (ok (some records), t)) r.1)
  answered Q (ok a, s) h = h
  answered Q (raised e, s) h = tt

  module _ (dumps : Record → String) (nodes : Nodes) (t0 : ℕ) (out : String) where
    -- What becomes of the record that the node has when the loop is over.
    pub report_row :
        (at : Option ℕ) (p : Progress) (s : H.State)
        → Dict.get name nodes ≡ some path
        → At (Plain name path at) name (close_pending p.pending p.records)
        → Ensures
            (λ records t. At (Stamped name path t0 at) name records × (now s ≤ now t))
            (report H g dumps nodes t0 out p s)
    unfolding report
    report_row at p s named row =
        Ensures-continue (λ records t. At (Hashed name path at) name records × (now s ≤ now t))
          (λ records t. At (Stamped name path t0 at) name records × (now s ≤ now t))
          (verify_each H g nodes (close_pending p.pending p.records) s) _
          (verify_each_lem H C g name path at nodes (close_pending p.pending p.records) s
            (inr (row, named)))
          (λ records s₁ (hashed, le).
            Ensures-continue (λ u t. now s₁ ≤ now t)
              (λ records t. At (Stamped name path t0 at) name records × (now s ≤ now t))
              (H.write_lines out (lines_of dumps nodes (stamp_each t0 nodes records)) s₁) _
              (later_Ensures H C g s₁ _ (C.write_lines-le-now out _ s₁))
              (λ u t le'. (
                stamp_each_lem name path t0 at nodes records (inr (hashed, named)),
                omega (arith, le, le'),
              )))

    report_lem :
        (start end : ℕ) (p : Progress) (s : H.State)
        → Dict.get name nodes ≡ some path
        → Tracked H C g start name path p s
        → (busy p ≡ false) ⊎ (end ≤ now s)
        → Ensures (Reported start t0 end) (report H g dumps nodes t0 out p s)
    report_lem start end p s named k stop =
        let c = closed start t0 end p s k stop in
        Ensures-map (λ records t. At (Stamped name path t0 c.at) name records × (now s ≤ now t))
          (Reported start t0 end) (report H g dumps nodes t0 out p s)
          (λ records t (entry, le). record {
            at = c.at;
            entry = entry;
            explained = Explained-later start end c.at s t le c.why;
          })
          (report_row c.at p s named c.row)

    module _ (fuel interval deadline : ℕ) (s : H.State) where
      started :
          Dict.NodupKeys nodes
          → Dict.get name nodes ≡ some path
          → Tracked H C g (now s) name path (at_start nodes) s
      started u named = record {
        begun = omega arith;
        only = Only-of_get name path nodes u named;
        here = inl (named, refl);
      }

      -- Where the names of the nodes are distinct and the clock does not run back, the records that
      -- `watch` returns hold, for every node, one with the node's name. It has an arrival time only
      -- if the test said yes to the node's path at a moment between the call and that time, and has
      -- none only if the deadline is past; it has a hash exactly if it has an arrival time, and
      -- `elapsed` is that time less `t0`.
      pub watch-Reported :
          Dict.NodupKeys nodes
          → Dict.get name nodes ≡ some path
          → Answered
              (Reported (now s) t0 (t0 + deadline))
              (watch H g dumps fuel nodes interval deadline t0 out s)
      unfolding watch
      watch-Reported u named =
          go (poll H busy (look H g) fuel interval (t0 + deadline) (at_start nodes) s) (
            poll-Stopped H busy (look H g) C (Tracked H C g (now s) name path)
              (Tracked-later H C g (now s) name path) (look-Looked H C g (now s) name path) fuel
              interval (t0 + deadline) (at_start nodes) s (started u named))
        where
          go :
              (r : Result (Option Progress) × H.State)
              → Stopped H busy (look H g) C (Tracked H C g (now s) name path) (t0 + deadline) r
              → Answered
                  (Reported (now s) t0 (t0 + deadline))
                  (continue r.0 (finish H g dumps nodes t0 out) r.1)
          go (raised e, s') h = tt
          go (ok none, s') h = tt
          go (ok (some p), s') (k, stop) =
              answered (Reported (now s) t0 (t0 + deadline)) (report H g dumps nodes t0 out p s')
                (report_lem (now s) (t0 + deadline) p s' named k stop)

module _ (H : Host) (C : IsClock H) (g : Target) where
  open C use {now}

  -- With an interval, more fuel than there are microseconds until the deadline, and a clock that
  -- does not run back, `watch` does not run out of fuel: it returns records or it raises.
  pub watch-Ended :
      (dumps : Record → String) (nodes : Nodes) (t0 : ℕ) (out : String) (fuel interval deadline : ℕ)
      (s : H.State)
      → 0 < interval
      → 0 < fuel
      → t0 + deadline < now s + fuel
      → (watch H g dumps fuel nodes interval deadline t0 out s).0 ≢ ok none
  unfolding watch
  watch-Ended dumps nodes t0 out fuel interval deadline s ipos fpos room =
      go (poll H busy (look H g) fuel interval (t0 + deadline) (at_start nodes) s) (
        poll-Ended H busy (look H g) C (Always H C g) (λ p s s' le h. tt) (look-Forward H C g) fuel
          interval (t0 + deadline) (at_start nodes) s ipos tt (fpos, inr room))
    where
      some_records :
          (r : Result (Dict String Record) × H.State)
          → (continue r.0 (λ records (t : H.State). (ok (some records), t)) r.1).0 ≢ ok none
      some_records (ok a, t) h = cc
      some_records (raised e, t) h = cc

      go :
          (r : Result (Option Progress) × H.State)
          → Ended H busy (look H g) C (Always H C g) r
          → (continue r.0 (finish H g dumps nodes t0 out) r.1).0 ≢ ok none
      go (raised e, t) h = λ x. cc
      go (ok none, t) h = absurd h
      go (ok (some p), t) h = some_records (report H g dumps nodes t0 out p t)
