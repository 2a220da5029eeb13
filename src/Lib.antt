-- ===== src/Lib.antt =====
-- The measurement tools of tools/measure/bucketfs, which bring a mesh of syncfs or BucketFS nodes up,
-- write payloads into it, watch them arrive, and turn the rows into tables.
--
-- The parts, and the file that models each:
--
-- Host.antt: what the tools ask of the machine (the clock, sleep, stat, walk, hashing, writing), as a
-- record of calls that pass the state on, and IsClock, what is relied on: time does not run back, and a
-- sleep lasts at least as long as asked. Every theorem about time has an IsClock as a hypothesis.
--
-- Base.antt: numbers, lists, association lists (Base/Dict, a Python dict in insertion order), integers,
-- decimal text, and calls that pass state and may raise (Base/Exec).
--
-- Poller.antt: tools/measure/bucketfs/poller.py. Poller/Loop is the loop that watch, watch_absent, the
-- waiting for containers and the peak measurement share, Poller/Loop/Live what it gets to; Poller/Arrival the tests on a path (file_size, complete, tree_size, the updates of
-- tree_sha256); Poller/Watch is watch, its proofs below it; Poller/Absent is watch_absent;
-- Poller/Main the targets and the exit code.
--
-- Readiness.antt: the loop in which both cluster scripts wait for their containers, over the question
-- that is put to a node. Readiness/Heard is what it tells of the nodes.
--
-- Cluster.antt: tools/measure/bucketfs/syncfs_cluster.py, over Podman.antt,
-- which has the calls of podman as a record, and the names, files and arguments that are made up for them.
-- Cluster/Wait is wait_ready, Cluster/Up is up, Cluster/Peers the peers files.
--
-- Exasol.antt and ExaNet.antt, its names and command lines: tools/measure/bucketfs/exasol_cluster.py, over the same record and the further calls of
-- Files. ExaConf.antt is the search of an EXAConf for the passwords, Exasol/Up is about up.
--
-- Matrix.antt: tools/measure/bucketfs/run_matrix.py. Matrix/Rows is append and done_cells;
-- Matrix/Experiments is experiment_a and experiment_b over the interface Matrix/Rig, with a monitor
-- (Stage) of whether a cluster stands; Matrix/Summary is summarise; Matrix/Payload is make_payload;
-- Matrix/Cells is propagation_cell, tree_cell, clear_cell and wait_for_idle over Matrix/Workshop, which has
-- the bodies of the four threads: a body is a sequence of calls, each of which is made in some state of
-- the machine while other calls happen between them, and what it leaves in its error list.
-- Matrix/Cells/Written is about what a cell has written, its Bodies and Joins about the threads. Where the row of a
-- cell cannot be saved, the rows of the file stay as they were, and the call raises. Matrix/Drive is
-- cluster_up, cluster_down and purge, and the rig that the experiments are run on, which fills the
-- interface with the cluster scripts and the cells. Matrix/Plain is experiment_c, Matrix/Main main behind
-- its command line, and Matrix/Bucket the client Bucket, which the threads of the cells put with.
--
-- Tables.antt: tools/measure/bucketfs/tex_tables.py. Tables/Samples has the rows and filters,
-- Tables/Group group_by and the tallies, Tables/Figures the printing of numbers, Tables/Cells
-- median_range and fmt, Tables/Grid the two big tables, Tables/Notes the notes, and
-- Tables/Notes/Verdicts scenario_table, Tables/Notes/Misses the table of non-convergences, Tables/Baseline
-- baseline_table, Tables/Macros macros, Tables/Document what main writes and in which order, and
-- Tables/Summarise the lines of tools/measure/bucketfs/summarise.py.
--
-- Tail.antt: sweep of tools/measure/bucketfs/measure_tail.py, which composes up, watch, watch_absent and
-- down; Tail/Sweep is about how it ends.
--
-- Peak.antt: peak_peers of tools/measure/measure_peak.py, with the pattern of a row; Peak/Printed is about
-- the rows as print_session_statistics of src/syncfs.cpp prints them, Peak/Run is the loop of run, and
-- Peak/Run/Mesh the rest of it.
--
-- Digest.antt: measure of tools/measure/measure_digest.py, over a record of sockets, processes and files.
--
-- Numbers: times are whole microseconds in the poller and the matrix, and ten-thousandths of a second,
-- the precision of the results file, in the tables; the source has floats. Rounding and printing are
-- those of Python on exact decimals, a tie going to the even figure.
--
-- Fuel: a polling loop takes fuel and returns none where it runs out. Each round reads the clock and
-- sleeps for the interval, so fuel above the microseconds to the deadline is enough.
-- make_payload is given its size in fuel, and a round per 8 MiB. The loop of measure_digest lasts a second in
-- each round that finds no message. Where an experiment's call runs out of fuel, the rig raises.
--
-- Parameters: podman, HTTP, the file system, hashing and the clock are outside the sources and are
-- records of functions. What is relied on of them is IsClock; IsPrompt, IsSwift and IsQuick (calls take
-- no negative time); IsTimely (a round of looks and a wake-up take a bounded time); IsPatient (a poll
-- without a message lasts its timeout); IsRemoval (podman rm takes a container away); IsTally (a wait
-- that does not time out, or a kill, sees a process off); and IsThreaded (a thread that was joined has run
-- its body). IsTidy (taking a cluster down does not raise) is
-- what the experiments ask of a rig.
--
-- Not modelled: the command lines, the printing of progress, and the C++ daemon itself, of which only the
-- printing of a statistics row is.
pub mod Base
pub mod Host
pub mod Poller
pub mod Podman
pub mod Readiness
pub mod Cluster
pub mod ExaConf
pub mod ExaNet
pub mod Exasol
pub mod Peak
pub mod Digest
pub mod Matrix
pub mod Tables
pub mod Tail
pub mod Tests
