-- ===== src/Tests/Tail.antt =====
-- A sweep on the machine.
use syncfs.Base.{false, String, arith}
use syncfs.Base.Exec.{ok, Ensures}
use syncfs.Poller.Watch.{Record}
use syncfs.Tail.{Disk, sweep}
use syncfs.Tail.Sweep.{Counted, sweep-Counted}
use syncfs.Tests.Machine.{machine, clock}
use syncfs.Tests.Cluster.{podman, prompt, root}

abbrev disk : Disk machine
disk = record {
  write_random = λ p n s. (ok tt, s);
  copyfile = λ a b s. (ok tt, s);
  unlink = λ p s. (ok tt, s);
  purge = λ p s. s;
}

abbrev text : Record → String
text r = r.node

sweep-Counted_example :
    Ensures
      (λ o t.
        Counted machine clock podman prompt disk
          (λ a b s. omega arith)
          text
          600000001
          root
          (omega arith)
          3
          o)
      (sweep machine podman disk text 600000001 root 2 3 false 5)
sweep-Counted_example =
    sweep-Counted machine clock podman prompt disk (λ a b s. omega arith) text 600000001 root
      (omega arith) 2 3 false 5
