-- ===== src/Poller/Watch.antt =====
-- `watch` of tools/measure/bucketfs/poller.py: poll every node until its copy arrives or the
-- deadline passes, and only then hash what arrived.
pub mod Look
pub mod Report
pub mod Outcome
pub mod Finds
pub mod Live
use syncfs.Base.{
  ℕ, ◌+◌, ◌≡◌, Bool, true, false, not, ◌&&◌, Option, none, some, List, [], ◌∷◌, String, nat_beq,
  is_empty, if◌then◌else◌,
}
use syncfs.Base.Int.{ℤ, sub_ℕ}
use syncfs.Base.Equality.{string_eq}
use syncfs.Base.Dict
use syncfs.Base.Dict.{Dict}
use syncfs.Base.Exec.{Result, ok, raised, Exec, pure, call, ◌>>=◌, ◌>>◌}
use syncfs.Host.{Host}
use syncfs.Poller.Arrival.{complete, tree_size, tree_updates}
use syncfs.Poller.Loop.{poll}

-- One node's record. `none` is a field that is not set or that is `None`.
pub record Record : Type 0 where
  pub node : String
  pub arrived_at : Option ℕ
  pub sha256 : Option String
  pub verified_at : Option ℕ
  pub t0 : Option ℕ
  pub elapsed : Option ℤ

abbrev pub fresh : String → Option ℕ → Record
fresh name at = record {
  node = name;
  arrived_at = at;
  sha256 = none;
  verified_at = none;
  t0 = none;
  elapsed = none;
}

abbrev pub Nodes : Type 0
Nodes = Dict String String

pub record Progress : Type 0 where
  pub pending : Nodes
  pub records : Dict String Record

-- The arguments of `watch` that do not change.
pub record Target : Type 0 where
  pub tree : Bool
  pub size : ℕ
  pub count : ℕ

abbrev pub busy : Progress → Bool
busy p = not (is_empty p.pending)

-- `for name in pending: records[name] = …`
unfoldable pub close_pending : Nodes → Dict String Record → Dict String Record
close_pending [] records = records
close_pending ((name, path) ∷ rest) records =
    close_pending rest (Dict.put name (fresh name none) records)

-- A node with no record is a `KeyError`, which no node meets.
abbrev pub record_of : String → Dict String Record → Record
record_of name records = elim (Dict.get name records) [ none ↦ fresh name none | some r ↦ r ]

unfoldable pub stamp : ℕ → Record → Record
stamp t0 r = record r {
  t0 = some t0;
  elapsed = elim r.arrived_at [ none ↦ r.elapsed | some t ↦ some (sub_ℕ t t0) ];
}

-- The last loop, without the lines that it writes.
unfoldable pub stamp_each : ℕ → Nodes → Dict String Record → Dict String Record
unfolding stamp
stamp_each t0 [] records = records
stamp_each t0 ((name, path) ∷ rest) records =
    stamp_each t0 rest (Dict.put name (stamp t0 (record_of name records)) records)

abbrev lines_of : (Record → String) → Nodes → Dict String Record → List String
lines_of dumps [] records = []
lines_of dumps ((name, path) ∷ rest) records =
    dumps (record_of name records) ∷ lines_of dumps rest records

abbrev pub at_start : Nodes → Progress
at_start nodes = record { pending = nodes; records = [] }

module _ (H : Host) (g : Target) where
  -- the test on one node
  unfoldable pub arrived : String → Exec H.State Bool
  arrived path s =
      if g.tree
      then (let (found, s') = tree_size H path s in
          (ok (nat_beq found.0 g.count && nat_beq found.1 g.size), s'))
      else complete H path g.size s

  -- `records[name] = …; del pending[name]`, at the time it is
  unfoldable pub settle : String → Progress → Result Bool × H.State → Result Progress × H.State
  settle name p (raised e, s) = (raised e, s)
  settle name p (ok false, s) = (ok p, s)
  settle name p (ok true, s) =
      let (t, s') = H.time s in
      (
        ok (record {
          pending = Dict.remove name p.pending;
          records = Dict.put name (fresh name (some t)) p.records;
        }),
        s',
      )

  unfoldable pub look_each : Nodes → Progress → Exec H.State Progress
  unfolding settle
  look_each [] p = pure p
  look_each ((name, path) ∷ rest) p = do q ← λ s. settle name p (arrived path s); look_each rest q

  -- `for name, path in list(pending.items()):`
  unfoldable pub look : Progress → Exec H.State Progress
  unfolding look_each
  look p = look_each p.pending p

  -- `tree_sha256(path) if tree else sha256(path)`
  unfoldable pub digest : String → Exec H.State String
  digest path =
      if g.tree
      then (λ s.
          let (names, s') = H.files_below path s in
          (do updates ← tree_updates H names []; pure (H.hexdigest updates)) s')
      else H.file_digest path

  -- the hash of one node's copy, outside the loop above
  unfoldable pub verify_at : String → Record → Option ℕ → Exec H.State Record
  unfolding digest
  verify_at path r none = pure (record r { sha256 = none })
  verify_at path r (some t) = do
    h ← digest path
    now ← call H.time
    pure (record r { sha256 = some h; verified_at = some now })

  unfoldable pub verify : String → Record → Exec H.State Record
  unfolding verify_at
  verify path r = verify_at path r r.arrived_at

  unfoldable pub verify_each : Nodes → Dict String Record → Exec H.State (Dict String Record)
  unfolding verify
  verify_each [] records = pure records
  verify_each ((name, path) ∷ rest) records = do
    r ← verify path (record_of name records)
    verify_each rest (Dict.put name r records)

  -- what follows the loop
  unfoldable pub report :
      (Record → String) → Nodes → ℕ → String → Progress → Exec H.State (Dict String Record)
  unfolding close_pending verify_each stamp_each
  report dumps nodes t0 out p = do
    verified ← verify_each nodes (close_pending p.pending p.records)
    let stamped = stamp_each t0 nodes verified
    H.write_lines out (lines_of dumps nodes stamped)
    pure stamped

  abbrev pub finish :
      (Record → String)
      → Nodes
      → ℕ
      → String
      → Option Progress
      → Exec H.State (Option (Dict String Record))
  finish dumps nodes t0 out none = pure none
  finish dumps nodes t0 out (some p) = do records ← report dumps nodes t0 out p; pure (some records)

  -- `dumps` is `json.dumps`. `none` where the fuel runs out.
  unfoldable pub watch :
      (Record → String)
      → ℕ
      → Nodes
      → ℕ
      → ℕ
      → ℕ
      → String
      → Exec H.State (Option (Dict String Record))
  unfolding report look
  watch dumps fuel nodes interval deadline t0 out = do
    stopped ← poll H busy look fuel interval (t0 + deadline) (at_start nodes)
    finish dumps nodes t0 out stopped
