-- ===== src/Matrix/Cells/Written.antt =====
-- A cell that returns has written its payload: what the threads of tools/measure/bucketfs/run_matrix.py
-- leave behind, and the row that the cell makes of what it watched.
pub mod Bodies
mod Joins
use syncfs.Base.{ℕ, ◌≤◌, ◌≡◌, inl, inr, Option, none, some, String, leb, if_rule}
use syncfs.Base.Dict.{Dict}
use syncfs.Base.Exec.{ok, Exec, continue, ◌>>=◌, ◌>>◌}
use syncfs.Host.{Host, IsClock}
use syncfs.Poller.Watch.{Record, Nodes, Target, watch}
use syncfs.Matrix.Rows.{Measure}
use syncfs.Matrix.Summary.{summarise}
use syncfs.Matrix.Workshop.{Info, Workshop, IsThreaded, Body, writer_of}
use syncfs.Matrix.Cells.{wait_for_idle}

-- What a row says of the records.
pub record Summed (info : Info) (writer : String) (records : Dict String Record) (m : Measure)
    : Type 0 where
  pub ingest : m.ingest_s ≡ (summarise records writer).ingest_s
  pub propagation : m.propagation_s ≡ (summarise records writer).propagation_s
  pub fanout : m.fanout_s ≡ (summarise records writer).fanout_s
  pub converged : m.converged ≡ (summarise records writer).converged
  pub hashes : m.distinct_hashes ≡ (summarise records writer).distinct_hashes
  pub arrivals : m.arrivals ≡ (summarise records writer).arrivals
  pub nofile : m.nofile ≡ info.nofile

module _ (H : Host) (C : IsClock H) (W : Workshop H) (T : IsThreaded H W)
    (asked : (s : H.State) → C.now s ≤ C.now (W.loadavg s).1)
    (begun : (b : Body H) (s : H.State) → C.now s ≤ C.now (W.start b s).1) (dumps : Record → String)
    (fuel : ℕ) where
  open C use {now}

  module _ (info : Info) (FileIs : String → Type 0) (g : Target) (nodes : Nodes)
      (interval deadline : ℕ) where
    -- The row sums up the records that `watch` returned, and has the load that was waited for.
    abbrev pub Observed : String → Measure → Type 0
    Observed writer m =
        (records : Dict String Record) × (t0 : H.State) × (t : H.State) × (v : H.State) × ((watch H
            g dumps fuel nodes interval deadline (H.time t0).0 "/dev/null" t).0
          ≡ ok (some records))
        × Summed info writer records m
        × ((wait_for_idle H W v).0 ≡ some m.loadavg)

    -- There is a row, the writer has written, and the row sums up what was watched.
    abbrev pub Written : Option Measure → H.State → Type 0
    Written none s = ⊥
    Written (some m) s =
        (writer : String) × (writer_of info ≡ some writer) × FileIs writer × Observed writer m
