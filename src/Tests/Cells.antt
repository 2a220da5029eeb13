-- ===== src/Tests/Cells.antt =====
-- Cells on the machine, with a workshop whose threads do nothing and report what they are told to.
use syncfs.Base.{ℕ, ◌+◌, ◌*◌, refl, Option, none, some, String, [], ◌∷◌, arith}
use syncfs.Base.Exec.{Exn, ok}
use syncfs.Poller.Watch.{Record}
use syncfs.Matrix.Workshop.{Info, Body, ended, files, asks, Ran, Workshop, IsThreaded, microseconds}
use syncfs.Matrix.Cells.{wait_for_idle}
use syncfs.Matrix.Cells.Idle.{Waited, wait_for_idle-Waited}
use syncfs.Matrix.Cells.Written.{Written}
use syncfs.Tests.Machine.{machine, clock}

-- What a body does if no other thread gets in between.
abbrev left_by : Body machine → ℕ → Option Exn × ℕ
left_by (ended e) s = (e, s)
left_by (files m next) s = left_by (next (m s).0) (m s).1
left_by (asks m next) s = left_by (next (m s).0) (m s).1

abbrev pub workshop : Workshop machine
workshop = record {
  Thread = Body machine;
  loadavg = λ s. (200, s);
  write_random = λ p sizes s. (ok tt, s);
  unlink = λ p s. (ok tt, s);
  mkdir = λ p s. (ok tt, s);
  copyfile = λ a b s. (ok tt, s + 1);
  save = λ row s. (ok tt, s);
  http = record { request = λ m p h f s. (ok 204, s + 1); close = λ b s. s; b64encode = λ t. t };
  start = λ b s. (b, s);
  join = left_by;
}

left_by-Ran : (b : Body machine) (t : ℕ) → Ran machine b (left_by b t).0
unfolding Ran
left_by-Ran (ended e) t = refl
left_by-Ran (files m next) t = (t, left_by-Ran (next (m t).0) (m t).1)
left_by-Ran (asks m next) t = (t, left_by-Ran (next (m t).0) (m t).1)

abbrev threaded : IsThreaded machine workshop
threaded = record { ran = λ b s t. left_by-Ran b t }

abbrev mesh : Info
mesh = record {
  system = "syncfs";
  nodes = 2;
  nofile = none;
  node =
      ("sfs1", record { data_dir = "/r/sfs1/data"; bucket_dir = ""; url = "" })
      ∷ ("sfs2", record { data_dir = "/r/sfs2/data"; bucket_dir = ""; url = "" })
      ∷ [];
  writer = some "sfs1";
  write_passwd = "";
}

abbrev shelves : Info
shelves = record {
  system = "bucketfs";
  nodes = 1;
  nofile = none;
  node =
      (
        "n11",
        record { data_dir = ""; bucket_dir = "/r/n11"; url = "http://localhost:2600/default" },
      )
      ∷ [];
  writer = none;
  write_passwd = "pw";
}

abbrev pub text_of : Record → String
text_of r = r.node

wait_for_idle-Waited_example :
    Waited machine clock workshop
      (λ s. omega arith)
      (40 + 120 * microseconds)
      (wait_for_idle machine workshop 40)
wait_for_idle-Waited_example = wait_for_idle-Waited machine clock workshop (λ s. omega arith) 40
