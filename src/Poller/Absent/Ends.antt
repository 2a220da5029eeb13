-- ===== src/Poller/Absent/Ends.antt =====
-- `watch_absent` comes to an end, whatever the nodes are.
use syncfs.Base.{ℕ, ◌+◌, ◌≤◌, ◌<◌, ◌≢◌, inr, Option, none, some, [], ◌∷◌, String, arith}
use syncfs.Base.Int.{ℤ}
use syncfs.Base.Exec.{Result, ok, raised, Exec, continue}
use syncfs.Host.{Host, IsClock}
use syncfs.Poller.Arrival.{file_size, file_size-le-now}
use syncfs.Poller.Loop.{poll, Looked, Looked-from, Ended, poll-Ended}
use syncfs.Poller.Watch.{Nodes}
use syncfs.Poller.Absent.{waiting, drop_gone, look_gone, look_absent, verdict, watch_absent}

module _ (H : Host) (C : IsClock H) where
  open C use {now}

  abbrev Always : Nodes → H.State → Type 0
  Always p s = Unit

  abbrev Forward : H.State → Result Nodes × H.State → Type 0
  Forward = Looked H waiting (look_absent H) C Always

  drop_gone-Forward :
      (n : String) (p : Nodes) (s : H.State) (r : Result ℤ × H.State)
      → now s ≤ now r.1
      → Forward s (drop_gone H n p r)
  unfolding drop_gone
  drop_gone-Forward n p s (raised e, t) le = tt
  drop_gone-Forward n p s (ok size, t) le = (tt, le)

  then-Forward :
      (next : Nodes → Exec H.State Nodes) (s : H.State) (r : Result Nodes × H.State)
      → ((p : Nodes) (t : H.State) → Forward t (next p t))
      → Forward s r
      → Forward s (continue r.0 next r.1)
  then-Forward next s (raised e, t) rest h = tt
  then-Forward next s (ok p, t) rest (u, le) =
      Looked-from H waiting (look_absent H) C Always s t (next p t) le (rest p t)

  look_gone-Forward : (ns p : Nodes) (s : H.State) → Forward s (look_gone H ns p s)
  unfolding look_gone
  look_gone-Forward [] p s = (tt, omega arith)
  look_gone-Forward ((n, q) ∷ ns) p s =
      then-Forward (look_gone H ns) s (drop_gone H n p (file_size H q s)) (look_gone-Forward ns)
        (drop_gone-Forward n p s (file_size H q s) (file_size-le-now H C q s))

  look_absent-Forward : (p : Nodes) (s : H.State) → Always p s → Forward s (look_absent H p s)
  unfolding look_absent
  look_absent-Forward p s h = look_gone-Forward p p s

  verdict_there :
      (r : Result (Option Nodes) × H.State)
      → Ended H waiting (look_absent H) C Always r
      → (continue r.0 (verdict H) r.1).0 ≢ ok none
  verdict_there (raised e, t) h = λ x. cc
  verdict_there (ok none, t) h = absurd h
  verdict_there (ok (some p), t) h = λ x. cc

  pub watch_absent-Ended :
      (fuel interval deadline : ℕ) (nodes : Nodes) (s : H.State)
      → 0 < interval
      → deadline < fuel
      → (watch_absent H fuel nodes interval deadline s).0 ≢ ok none
  unfolding watch_absent
  watch_absent-Ended fuel interval deadline nodes s ipos room =
      verdict_there
        (poll H waiting (look_absent H) fuel interval ((H.time s).0 + deadline) nodes (H.time s).1)
        (poll-Ended H waiting (look_absent H) C Always (λ p t t' le h. tt) look_absent-Forward fuel
          interval ((H.time s).0 + deadline) nodes (H.time s).1 ipos tt
          (omega arith, inr (omega (arith, C.time-le-now s))))
