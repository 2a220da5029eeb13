-- ===== src/Poller/Watch/Live.antt =====
-- `watch` of tools/measure/bucketfs/poller.py does report a copy that arrives in time.
use syncfs.Base.{
  ℕ, ◌+◌, ◌≤◌, ◌<◌, ◌≡◌, ◌≢◌, refl, ◌∙◌, inl, inr, true, Option, none, some, String, arith, length,
}
use syncfs.Base.Equality.{string_eq}
use syncfs.Base.Dict
use syncfs.Base.Dict.{Dict}
use syncfs.Base.Exec.{Result, ok, raised, Ensures, Ensures-map, continue}
use syncfs.Host.{Host, IsClock, now-le-time_after}
use syncfs.Poller.Loop.{poll, doze, Stopped, Looked, poll-Stopped}
use syncfs.Poller.Loop.Live.{IsProductive, Gets, poll-Gets}
use syncfs.Poller.Watch.{
  Record, fresh, Nodes, Progress, Target, busy, arrived, look, at_start, finish, report, watch,
}
use syncfs.Poller.Watch.Look.{Only-of_get, Tracked, Tracked-later, look-Looked}
use syncfs.Poller.Watch.Report.{At, Stamped, close_pending_absent}
use syncfs.Poller.Watch.Outcome.{Answered, answered, report_row, watch-Ended}
use syncfs.Poller.Watch.Finds.{IsIn, IsIn-idle, look_each-IsIn, IsFew, look_each-IsFew, look_finds}

-- A round over `count` nodes or fewer looks for no longer than `round`, and reading the clock and
-- waking up take no longer than `slack`.
pub record IsTimely {H : Host} (C : IsClock H) (g : Target) (count round slack : ℕ) : Type 0 where
  pub look_within :
      (p : Progress) (s : H.State)
      → length p.pending ≤ count
      → Ensures (λ q t. C.now t ≤ C.now s + round) (look H g p s)
  pub sleep_within : (d : ℕ) (s : H.State) → C.now (H.sleep d s) ≤ C.now s + d + slack
  pub time_within : (s : H.State) → C.now (H.time s).1 ≤ C.now s + slack

module _ (H : Host) (C : IsClock H) (g : Target) (name path : String) (from : ℕ)
    (stays : (s : H.State) → from ≤ C.now s → (arrived H g path s).0 ≡ ok true) where
  open C use {now}

  module _ (count round slack : ℕ) (T : IsTimely C g count round slack) where
    -- What the loop keeps.
    abbrev Kept : ℕ → Progress → H.State → Type 0
    Kept start p s = Tracked H C g start name path p s × IsFew H g count p

    doze-le-now :
        (d : ℕ) (p : Progress) (s : H.State)
        → (now s ≤ now (doze H busy (look H g) d p s))
          × (now (doze H busy (look H g) d p s) ≤ now s + d + slack)
    unfolding doze
    doze-le-now d p s = ground (arith, C.sleep_lasts d s, T.sleep_within d s)

    kept :
        (start : ℕ) (s : H.State) (r : Result Progress × H.State)
        → Looked H busy (look H g) C (Tracked H C g start name path) s r
        → Ensures (λ q t. IsFew H g count q) r
        → Ensures (λ q t. Kept start q t × (now s ≤ now t)) r
    kept start s (raised e, t) h few = tt
    kept start s (ok q, t) (k, le) few = ((k, few), le)

    productive :
        (start d end : ℕ)
        → IsProductive H busy
            (look H g)
            C
            (Kept start)
            (IsIn name)
            from
            (round + d + slack)
            slack
            d
            end
    unfolding look
    productive start d end = record {
      later = λ p s s' le (k, few). (Tracked-later H C g start name path p s s' le k, few);
      keeps_I = λ p s (k, few).
          kept start s (look H g p s) (look-Looked H C g start name path p s k)
            (look_each-IsFew H g count p.pending p s few);
      keeps_Good = λ p s k h. look_each-IsIn name H g p.pending p s h;
      reaches = λ p s (k, few) late. look_finds H C g name path from stays start p s k late;
      ends = λ p s (k, few).
          Ensures-map (λ q t. now t ≤ now s + round) _ (look H g p s)
            (λ q t le. omega (arith, le, doze-le-now d q t)) (T.look_within p s few);
      ticks = λ s. (now-le-time_after C s, T.time_within s);
      dozes = λ p s. (doze-le-now d p s).0;
      idles = λ p s k idle. IsIn-idle name p idle;
    }

    -- The node is reported as arrived, at some time, with its hash and the time it took.
    abbrev pub Timed : ℕ → Dict String Record → H.State → Type 0
    Timed t0 records s = (t : ℕ) × At (Stamped name path t0 (some t)) name records

    -- What `watch` returns or raises.
    abbrev pub Reports : ℕ → Result (Option (Dict String Record)) × H.State → Type 0
    Reports t0 (raised e, s) = Unit
    Reports t0 (ok none, s) = ⊥
    Reports t0 (ok (some records), s) = Timed t0 records s

    as_Reports :
        (t0 : ℕ) (r : Result (Option (Dict String Record)) × H.State)
        → r.0 ≢ ok none
        → Answered H C g name path (Timed t0) r
        → Reports t0 r
    as_Reports t0 (raised e, s) more h = tt
    as_Reports t0 (ok none, s) more h = more refl
    as_Reports t0 (ok (some records), s) more h = h

    module _ (dumps : Record → String) (nodes : Nodes) (t0 : ℕ) (out : String) where
      arrived_row :
          (start : ℕ) (p : Progress) (s : H.State)
          → Dict.get name nodes ≡ some path
          → Tracked H C g start name path p s
          → IsIn name p
          → Ensures (Timed t0) (report H g dumps nodes t0 out p s)
      arrived_row start p s named k gone = elim k.here [
        | inl (waiting, nothing) ↦ absurd cc
        | inr (_, (t, there, seen)) ↦
            Ensures-map
              (λ records u. At (Stamped name path t0 (some t)) name records × (now s ≤ now u))
              (Timed t0) (report H g dumps nodes t0 out p s) (λ records u (entry, le). (t, entry))
              (report_row H C g name path dumps nodes t0 out (some t) p s named (record {
                it = fresh name (some t);
                is_it = close_pending_absent name path p.pending p.records gone ∙ there;
                meets = (refl, refl);
              }))
      ]

      finish-Timed :
          (start end : ℕ) (r : Result (Option Progress) × H.State)
          → Dict.get name nodes ≡ some path
          → Stopped H busy (look H g) C (Tracked H C g start name path) end r
          → Gets H busy (look H g) C (Kept start) (IsIn name) from round slack 0 end r
          → Answered H C g name path (Timed t0) (continue r.0 (finish H g dumps nodes t0 out) r.1)
      finish-Timed start end (raised e, s) named h k = tt
      finish-Timed start end (ok none, s) named h k = tt
      finish-Timed start end (ok (some p), s) named (h, stop) k =
          answered H C g name path (Timed t0) (report H g dumps nodes t0 out p s)
            (arrived_row start p s named h k)

      -- Let the names of the nodes be distinct, and let the test say yes to a node's path from the
      -- moment `from` on. If a round's looks take at most `round` for so many nodes, and reading the clock or waking up
      -- at most `slack` more than asked, and `from`, a round with its interval and the slack are over
      -- by the deadline, then `watch`, with fuel for the time to the deadline, raises, or returns
      -- records in which the node has arrived, with its hash and its time, whatever the other nodes
      -- do.
      pub watch-Reports :
          (fuel interval deadline : ℕ) (s : H.State)
          → Dict.NodupKeys nodes
          → Dict.get name nodes ≡ some path
          → length nodes ≤ count
          → 0 < interval
          → 0 < fuel
          → t0 + deadline < now s + fuel
          → now s + slack < t0 + deadline
          → from + (round + interval + slack) + slack ≤ t0 + deadline
          → Reports t0 (watch H g dumps fuel nodes interval deadline t0 out s)
      unfolding watch
      watch-Reports fuel interval deadline s u named few ipos fpos enough early room =
          as_Reports t0 (watch H g dumps fuel nodes interval deadline t0 out s)
            (watch-Ended H C g dumps nodes t0 out fuel interval deadline s ipos fpos enough)
            (finish-Timed (now s) end (poll H busy (look H g) fuel interval end (at_start nodes) s)
              named
              (poll-Stopped H busy (look H g) C (Tracked H C g (now s) name path)
                (Tracked-later H C g (now s) name path) (look-Looked H C g (now s) name path) fuel
                interval end (at_start nodes) s started)
              (poll-Gets H busy (look H g) C (Kept (now s)) (IsIn name) from
                (round + interval + slack) slack interval end (productive (now s) interval end) room
                fuel (at_start nodes) s (started, few) (inr early)))
        where
          end : ℕ
          end = t0 + deadline

          started : Tracked H C g (now s) name path (at_start nodes) s
          started = record {
            begun = omega arith;
            only = Only-of_get name path nodes u named;
            here = inl (named, refl);
          }
