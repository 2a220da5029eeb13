-- ===== src/Tests/Machine.antt =====
-- A machine whose state is its clock, in microseconds.
use syncfs.Base.{ℕ, ◌+◌, [], ◌∷◌, true, arith, ltb, if◌then◌else◌}
use syncfs.Base.Exec.{ok}
use syncfs.Host.{Host, IsClock, Stat, found, absent}

abbrev pub small : Stat
small = record { st_size = 3; st_blocks = 8; is_reg = true }

-- Every file arrives at time 100, and is gone from time 1000 on.
abbrev pub machine : Host
machine = record {
  State = ℕ;
  time = λ s. (s, s + 1);
  sleep = λ d s. s + d;
  stat = λ p s. ((if ltb s 100 then absent else if ltb s 1000 then found small else absent), s);
  lstat = λ p s. (found small, s);
  walk = λ p s. ("/a/x" ∷ "/a/y" ∷ [], s);
  file_digest = λ p s. (ok "00ff", s);
  files_below = λ p s. (("/a/x", "x") ∷ [], s);
  write_lines = λ p l s. (ok tt, s);
  hexdigest = λ l. "abcd";
}

abbrev pub clock : IsClock machine
clock = record {
  now = λ s. s;
  now-le-time = λ s. omega arith;
  time-le-now = λ s. omega arith;
  sleep_lasts = λ d s. omega arith;
  stat-le-now = λ p s. omega arith;
  lstat-le-now = λ p s. omega arith;
  walk-le-now = λ p s. omega arith;
  file_digest-le-now = λ p s. omega arith;
  files_below-le-now = λ p s. omega arith;
  write_lines-le-now = λ p l s. omega arith;
}
