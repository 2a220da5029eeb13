-- ===== src/Tests/Poller.antt =====
-- `watch` and `watch_absent` on the machine.
use syncfs.Base.{All, ◌≡◌, ◌≢◌, refl, ◌↔◌, false, none, some, String, [], ◌∷◌, arith, map}
use syncfs.Base.Int.{pos}
use syncfs.Base.Dict.{Dict}
use syncfs.Base.Exec.{ok}
use syncfs.Poller.Arrival.{complete, tree_size, tree_size_lem, replies, Tallied}
use syncfs.Poller.Loop.{poll, doze, resume, attempt}
use syncfs.Poller.Watch.{
  fresh, Record, Nodes, Target, watch, look, look_each, arrived, settle, report, close_pending,
  verify_each, verify_at, digest, stamp_each, stamp,
}
use syncfs.Poller.Watch.Outcome.{Answered, Reported, watch-Reported, watch-Ended}
use syncfs.Poller.Main.{
  exit_code, exit_code_iff, parse_targets, parse_targets_lem, target_of, HasArrived,
}
use syncfs.Matrix.Summary.{hashes_of}
use syncfs.Matrix.Summary.Converged.{Unanimous}
use syncfs.Poller.Absent.{Absence, watch_absent, watch_absent-Absence}
use syncfs.Tests.Machine.{machine, clock}

abbrev target : Target
target = record { tree = false; size = 3; count = 1 }

abbrev two_nodes : Nodes
two_nodes = ("a", "/a/f") ∷ ("b", "/b/f") ∷ []

abbrev blank : Record → String
blank r = r.node

watch-Reported_example :
    Answered machine clock target "b" "/b/f"
      (Reported machine clock target "b" "/b/f" 10 10 510)
      (watch machine target blank 600 two_nodes 50 500 10 "/out" 10)
watch-Reported_example =
    watch-Reported machine clock target "b" "/b/f" blank two_nodes 10 "/out" 600 50 500 10
      (refl, (refl, tt)) refl

watch-Ended_example : (watch machine target blank 600 two_nodes 50 500 10 "/out" 10).0 ≢ ok none
watch-Ended_example =
    watch-Ended machine clock target blank two_nodes 10 "/out" 600 50 500 10 (omega arith)
      (omega arith) (omega arith)

watch_absent-Absence_example :
    Absence machine clock 200 "b" "/b/f" 2200 (watch_absent machine 2100 two_nodes 50 2000 200)
watch_absent-Absence_example =
    watch_absent-Absence machine clock "b" "/b/f" 2100 50 2000 two_nodes 200 (refl, (refl, tt)) refl
      (omega arith) (omega arith)

tree_size_lem_example :
    Tallied machine
      (replies machine ("/a/x" ∷ "/a/y" ∷ []) 5)
      (tree_size machine "/a" 5).0.0
      (tree_size machine "/a" 5).0.1
tree_size_lem_example = tree_size_lem machine "/a" 5

-- The run of the first witness: the copies are first seen after a sleep, at 111.
watch_runs :
    (watch machine target blank 600 (("a", "/a/f") ∷ []) 50 500 10 "/out" 10).0
    ≡ ok (
        some (
          (
            "a",
            record {
              node = "a";
              arrived_at = some 113;
              sha256 = some "00ff";
              verified_at = some 114;
              t0 = some 10;
              elapsed = some (pos 103);
            },
          )
          ∷ []))
unfolding watch poll look look_each arrived complete settle report close_pending verify_each
    verify_at digest stamp_each stamp doze resume attempt
watch_runs = refl

abbrev two_records : Dict String Record
two_records = ("a", fresh "a" (some 113)) ∷ ("b", fresh "b" none) ∷ []

exit_code_iff_example :
    (exit_code two_records ≡ 0) ↔ (All HasArrived two_records × Unanimous (hashes_of two_records))
exit_code_iff_example = exit_code_iff two_records

parse_targets_lem_example :
    parse_targets (map target_of (("n11", "/a=b") ∷ ("n12", "/c") ∷ [])) []
    ≡ ok (("n11", "/a=b") ∷ ("n12", "/c") ∷ [])
parse_targets_lem_example =
    parse_targets_lem (("n11", "/a=b") ∷ ("n12", "/c") ∷ [])
      (((refl, (refl, (refl, tt))), refl), (((refl, (refl, (refl, tt))), refl), tt))
      (refl, (refl, tt))
