-- ===== src/Tests/Digest.antt =====
-- A measurement of a digest on a machine that counts its nodes.
use syncfs.Base.{ℕ, suc, ◌+◌, ◌-◌, ◌≡◌, ◌≢◌, refl, true, false, none, [], arith}
use syncfs.Base.Exec.{ok, raised, os_error}
use syncfs.Host.{Host, IsClock, absent}
use syncfs.Digest.{Wire, addressed, measure}
use syncfs.Digest.Reaped.{IsTally, measure-Level}
use syncfs.Digest.Awaited.{IsPatient, measure-Ends}

-- The clock, and the nodes.
abbrev box : Host
box = record {
  State = ℕ × ℕ;
  time = λ (s, n). (s, (s + 1, n));
  sleep = λ d (s, n). (s + d, n);
  stat = λ p s. (absent, s);
  lstat = λ p s. (absent, s);
  walk = λ p s. ([], s);
  file_digest = λ p s. (ok "00ff", s);
  files_below = λ p s. ([], s);
  write_lines = λ p l s. (ok tt, s);
  hexdigest = λ l. "abcd";
}

abbrev box_clock : IsClock box
box_clock = record {
  now = λ s. s.0;
  now-le-time = λ s. omega arith;
  time-le-now = λ s. omega arith;
  sleep_lasts = λ d s. omega arith;
  stat-le-now = λ p s. omega arith;
  lstat-le-now = λ p s. omega arith;
  walk-le-now = λ p s. omega arith;
  file_digest-le-now = λ p s. omega arith;
  files_below-le-now = λ p s. omega arith;
  write_lines-le-now = λ p l s. omega arith;
}

-- No message comes, and the node does not heed its termination.
abbrev wire : Wire box
wire = record {
  mkdtemp = λ s. (ok "/tmp/x", s);
  cleanup = λ p s. (raised (os_error "EACCES"), s);
  mkdir = λ p s. (ok tt, s);
  write_text = λ p t s. (ok tt, s);
  subscribe = λ t e s. (ok tt, s);
  publish = λ e s. (ok tt, s);
  send = λ m s. (ok tt, s);
  poll = λ d (s, n). (false, (s + d, n));
  recv = λ s. (ok [], s);
  close = λ s. s;
  popen = λ p a d (s, n). (ok 77, (s, suc n));
  terminate = λ n s. s;
  wait = λ n s. (true, s);
  kill = λ p (s, n). (s, n - 1);
}

abbrev tally : IsTally wire
tally = record {
  open_nodes = λ s. s.1;
  popen_tally = λ p a d s. refl;
  wait_tally = λ n s. refl;
  kill_tally = λ n s. refl;
  terminate_tally = λ n s. refl;
  close_tally = λ s. refl;
  mkdtemp_tally = λ s. refl;
  cleanup_tally = λ p s. refl;
  mkdir_tally = λ p s. refl;
  write_tally = λ p t s. refl;
  subscribe_tally = λ t e s. refl;
  publish_tally = λ e s. refl;
  send_tally = λ m s. refl;
  poll_tally = λ d s. refl;
  recv_tally = λ s. refl;
  time_tally = λ s. refl;
  sleep_tally = λ d s. refl;
}

abbrev patient : IsPatient box_clock wire
patient = record { send-le-now = λ m s. omega arith; poll_lasts = λ d s silent. omega arith }

measure-Level_example : (measure box wire 4 3000000 10 true (5, 2)).1.1 ≡ 2
measure-Level_example = measure-Level box wire tally 4 3000000 10 true (5, 2)

measure-Ends_example : (measure box wire 4 3000000 10 true (5, 2)).0 ≢ ok none
measure-Ends_example =
    measure-Ends box box_clock wire patient 4 3000000 10 true (omega arith) (5, 2)

topic_run : addressed "digest" "a" ≡ "digest\0a\0"
unfolding addressed
topic_run = refl
