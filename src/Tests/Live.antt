-- ===== src/Tests/Live.antt =====
-- A copy that arrives in time is reported, on a machine where it stays.
use syncfs.Base.{
  ℕ, ◌+◌, ◌≤◌, ◌≡◌, refl, true, false, String, [], ◌∷◌, arith, ltb, if◌then◌else◌, length,
}
use syncfs.Base.Equality.{string_eq}
use syncfs.Base.Exec.{Result, ok, raised, Ensures, Ensures-continue}
use syncfs.Host.{Host, IsClock, found, absent}
use syncfs.Poller.Arrival.{complete, holds}
use syncfs.Poller.Watch.{Record, Nodes, Progress, Target, watch, arrived, settle, look, look_each}
use syncfs.Poller.Watch.Live.{IsTimely, Reports, watch-Reports}
use syncfs.Tests.Machine.{small}

-- The copy of node b is complete from time 100 on, and there is no other.
abbrev steady : Host
steady = record {
  State = ℕ;
  time = λ s. (s, s + 1);
  sleep = λ d s. s + d;
  stat = λ p s.
      ((if string_eq.eqb p "/b/f" then (if ltb s 100 then absent else found small) else absent), s);
  lstat = λ p s. (absent, s);
  walk = λ p s. ([], s);
  file_digest = λ p s. (ok "00ff", s);
  files_below = λ p s. ([], s);
  write_lines = λ p l s. (ok tt, s);
  hexdigest = λ l. "abcd";
}

abbrev steady_clock : IsClock steady
steady_clock = record {
  now = λ s. s;
  now-le-time = λ s. omega arith;
  time-le-now = λ s. omega arith;
  sleep_lasts = λ d s. omega arith;
  stat-le-now = λ p s. omega arith;
  lstat-le-now = λ p s. omega arith;
  walk-le-now = λ p s. omega arith;
  file_digest-le-now = λ p s. omega arith;
  files_below-le-now = λ p s. omega arith;
  write_lines-le-now = λ p l s. omega arith;
}

abbrev target : Target
target = record { tree = false; size = 3; count = 1 }

-- A node's turn takes a tick, in which the clock is read.
turn :
    (n : String) (p : Progress) (s : ℕ) (r : Result _ × ℕ)
    → r.1 ≡ s
    → Ensures (λ q t. t ≤ s + 1) (settle steady target n p r)
unfolding settle
turn n p s (raised e, t) h = tt
turn n p s (ok false, t) h = omega (arith, h)
turn n p s (ok true, t) h = omega (arith, h)

turns :
    (ns : Nodes) (p : Progress) (s : ℕ)
    → Ensures (λ q t. t ≤ s + length ns) (look_each steady target ns p s)
unfolding look_each arrived complete
turns [] p s = omega arith
turns ((n, q) ∷ ns) p s =
    Ensures-continue (λ p' t. t ≤ s + 1) (λ p' t. t ≤ s + length ((n, q) ∷ ns))
      (settle steady target n p (arrived steady target q s)) _
      (turn n p s (arrived steady target q s) refl)
      (λ p' t h. later p' t h (look_each steady target ns p' t) (turns ns p' t))
  where
    later :
        (p' : Progress) (t : ℕ)
        → t ≤ s + 1
        → (r : Result Progress × ℕ) → Ensures (λ q' u. u ≤ t + length ns) r
        → Ensures (λ q' u. u ≤ s + length ((n, q) ∷ ns)) r
    later p' t h (raised e, u) k = tt
    later p' t h (ok q', u) k = omega (arith, h, k)

stays : (s : ℕ) → 100 ≤ s → (arrived steady target "/b/f" s).0 ≡ ok true
unfolding arrived complete holds
stays s h = let late : ltb s 100 ≡ false = ground arith in rw late refl

timely : IsTimely steady_clock target 2 2 1
unfolding look
timely = record {
  look_within = λ p s few.
      within s (look_each steady target p.pending p s) (length p.pending) few (turns p.pending p s);
  sleep_within = λ d s. omega arith;
  time_within = λ s. omega arith;
}
  where
    within :
        (s : ℕ) (r : Result Progress × ℕ) (k : ℕ)
        → k ≤ 2
        → Ensures (λ q t. t ≤ s + k) r
        → Ensures (λ q t. t ≤ s + 2) r
    within s (raised e, t) k few h = tt
    within s (ok q, t) k few h = omega (arith, few, h)

abbrev two_nodes : Nodes
two_nodes = ("a", "/a/f") ∷ ("b", "/b/f") ∷ []

abbrev blank : Record → String
blank r = r.node

watch-Reports_example :
    Reports steady steady_clock target "b" "/b/f" 100 stays 2 2 1 timely 10
      (watch steady target blank 600 two_nodes 50 500 10 "/out" 10)
watch-Reports_example =
    watch-Reports steady steady_clock target "b" "/b/f" 100 stays 2 2 1 timely blank two_nodes 10
      "/out" 600 50 500 10 (refl, (refl, tt)) refl (omega arith) (omega arith) (omega arith)
      (omega arith) (omega arith) (omega arith)
