-- ===== src/Tests/Drive.antt =====
-- The rig of the two cluster scripts, on the machine.
use syncfs.Base.{ℕ, ◌+◌, ◌*◌, ◌≡◌, refl, false, none, List, [], ◌∷◌, arith, some, ◌<>◌}
use syncfs.Base.Exec.{Ensures}
use syncfs.Matrix.Workshop.{microseconds}
use syncfs.Matrix.Experiments.{Bench, idle, Arm}
use syncfs.Matrix.Drive.{Purge, root_at, cluster_up}
use syncfs.Matrix.Drive.Up.{Brought, cluster_up-Brought}
use syncfs.Matrix.Main.{Arguments, propagation, numbers_of, main_matrix}
use syncfs.Matrix.Main.Ends.{main_matrix-Rests}
use syncfs.Matrix.Bucket.{bucket_at}
use syncfs.Matrix.Bucket.Url.{bucket_at-url_of}
use syncfs.ExaNet.{host_port, url_of}
use syncfs.Peak.{number, digits}
use syncfs.Base.Decimal.{value}
use syncfs.Tests.Plain.{disk}
use syncfs.Tests.Machine.{machine, clock}
use syncfs.Tests.Cluster.{podman, prompt}
use syncfs.Tests.Exasol.{files, swift}
use syncfs.Tests.Cells.{workshop, text_of}

abbrev cleaning : Purge machine
cleaning = record { unshare = λ p s. s + 1; rmtree = λ p s. s + 1 }

cluster_up-Brought_example :
    Ensures
      (Brought machine clock podman prompt files swift cleaning 3 2 "/r/bucketfs-default-2" false)
      (cluster_up machine podman files cleaning
        (901 * microseconds)
        "bucketfs"
        2
        "/r/bucketfs-default-2"
        30000
        3)
cluster_up-Brought_example =
    cluster_up-Brought machine clock podman prompt files swift cleaning (901 * microseconds)
      "bucketfs" 2 "/r/bucketfs-default-2" 30000 3 (omega arith)

abbrev plan : List Arm
plan = record { system = "bucketfs"; config = "tuned"; nodes = 2; sync_period = 1000 } ∷ []

abbrev bench : Bench ℕ
bench = record { out = none; rig = 0; stage = idle }

abbrev arguments : Arguments
arguments = record {
  experiment = propagation;
  root = "/r";
  repeats = 2;
  sizes = some "1024,4096";
  plan = some plan;
  counts = "100";
}

main_matrix-Rests_example :
    (main_matrix machine podman files cleaning workshop disk text_of 1000 arguments bench).1.stage
    ≡ idle
main_matrix-Rests_example =
    main_matrix-Rests machine podman files cleaning workshop disk text_of 1000 arguments bench refl

numbers_run : numbers_of "100,1000,10000" ≡ some (100 ∷ 1000 ∷ 10000 ∷ [])
unfolding numbers_of number digits value
numbers_run = refl

bucket_at-url_of_example :
    bucket_at (url_of 13) "pw"
    ≡ some (record {
      host = "localhost";
      port = host_port 13;
      bucket = "default";
      auth = "w:" <> "pw";
    })
bucket_at-url_of_example = bucket_at-url_of 13 "pw"

root_run :
    root_at "/r/syncfs-default-10"
    ≡ record { path = "/r/syncfs-default-10"; name = "syncfs-default-10" }
root_run = refl
