-- ===== src/Matrix/Workshop.antt =====
-- Where a payload of run_matrix.py (tools/measure/bucketfs) lands, and the bodies of the threads that put
-- it there.
use syncfs.Base.{
  ℕ, ◌≡◌, Bool, ◌||◌, ltb, Option, none, some, List, [], ◌∷◌, String, ◌<>◌, if◌then◌else◌, nat_beq,
}
use syncfs.Base.Decimal.{show}
use syncfs.Base.Equality.{◌==◌, string_eq}
use syncfs.Base.Dict.{Dict}
use syncfs.Base.Exec.{Result, ok, raised, Exn, runtime_error, Exec}
use syncfs.Matrix.Bucket.{Bucket, Http, put}
use syncfs.Matrix.Rows.{Row, range}
use syncfs.Matrix.Experiments.{small_file}
use syncfs.Tables.Figures.{padded}
use syncfs.Host.{Host}
use syncfs.Poller.Watch.{Nodes}
use syncfs.Tables.Grid.{sorted_set, str_lt}

-- What `up` reports of a node. A field that a system does not set is not read for that system.
pub record Site : Type 0 where
  pub data_dir : String
  pub bucket_dir : String
  pub url : String

pub record Info : Type 0 where
  pub system : String
  pub nodes : ℕ
  pub nofile : Option ℕ
  pub node : Dict String Site
  pub writer : Option String
  pub write_passwd : String

abbrev pub is_syncfs : Info → Bool
is_syncfs info = info.system == "syncfs"

abbrev pub dir_of : Info → Site → String
dir_of info site = if is_syncfs info then site.data_dir else site.bucket_dir

abbrev pub dirs_onto : Info → String → Dict String Site → Nodes
dirs_onto info suffix [] = []
dirs_onto info suffix ((name, site) ∷ rest) =
    (name, dir_of info site <> suffix) ∷ dirs_onto info suffix rest

-- `Path(…) / name`, for every node
unfoldable pub target_paths : Info → String → Nodes
target_paths info name = dirs_onto info ("/" <> name) info.node

unfoldable pub target_dirs : Info → Nodes
target_dirs info = dirs_onto info "" info.node

abbrev pub first_of : List String → Option String
first_of [] = none
first_of (x ∷ xs) = some x

abbrev pub names_of : Dict String Site → List String
names_of [] = []
names_of ((name, site) ∷ rest) = name ∷ names_of rest

-- `info.get("writer") or sorted(info["node"])[0]`, and none for the IndexError
unfoldable pub writer_of : Info → Option String
writer_of info = elim info.writer [
  | none ↦ first_of (sorted_set str_lt (names_of info.node))
  | some w ↦ if w == "" then first_of (sorted_set str_lt (names_of info.node)) else some w
]

-- What the body of a thread does: calls of the machine, one after the other, and in the end what it
-- leaves in `error`. Calls of other threads happen between them.
pub data Body (H : Host) : Type 0 where
  ended : Option Exn → Body H
  files : Exec H.State (Unit {0}) → (Result (Unit {0}) → Body H) → Body H
  asks : Exec H.State ℕ → (Result ℕ → Body H) → Body H

-- A run of the body, each call of which is made in some state of the machine, leaves this error.
unfoldable pub Ran : (H : Host) → Body H → Option Exn → Type 0
Ran H (ended left) e = left ≡ e
Ran H (files m next) e = (s : H.State) × Ran H (next (m s).0) e
Ran H (asks m next) e = (s : H.State) × Ran H (next (m s).0) e

-- The load, the random bytes, the threads, the HTTP connections and the files of the machine.
pub record Workshop (H : Host) : Type 1 where
  pub Thread : Type 0
  pub loadavg : H.State → ℕ × H.State
  -- `os.urandom` written in chunks of these sizes
  pub write_random : String → List ℕ → Exec H.State (Unit {0})
  -- `unlink(missing_ok=True)`
  pub unlink : String → Exec H.State (Unit {0})
  -- `mkdir(parents=True, exist_ok=True)` and `shutil.copyfile`
  pub mkdir : String → Exec H.State (Unit {0})
  pub copyfile : String → String → Exec H.State (Unit {0})
  -- `open(out, "a")`, the row, behind the header where the file is new, and the close
  pub save : Row → Exec H.State (Unit {0})
  pub http : Http H
  -- `threading.Thread(target=body)` and its start, and a `join` with what is then in `error`
  pub start : Body H → H.State → Thread × H.State
  pub join : Thread → H.State → Option Exn × H.State

-- A thread that was joined has run its body to the end.
pub record IsThreaded (H : Host) (W : Workshop H) : Type 0 where
  pub ran : (body : Body H) (s t : H.State) → Ran H body (W.join (W.start body s).0 t).0

-- `status in (200, 201, 204)`
abbrev pub is_good : ℕ → Bool
is_good status = nat_beq status 200 || (nat_beq status 201 || nat_beq status 204)

abbrev pub microseconds : ℕ
microseconds = 1000000

-- `f"f{i:05}.bin"`
abbrev pub file_name : ℕ → String
file_name i = "f" <> ((if ltb i 100000 then padded 5 i else show i) <> ".bin")

abbrev pub error_of : Result (Unit {0}) → Option Exn
error_of (ok u) = none
error_of (raised e) = some e

abbrev pub put_error : Result ℕ → Option Exn
put_error (raised e) = some e
put_error (ok status) =
    if is_good status then none else some (runtime_error ("PUT returned " <> show status))

-- What follows a copy of the loop, and a put of the loop.
abbrev pub copied : {H : Host} → Body H → Result (Unit {0}) → Body H
copied next (ok u) = next
copied next (raised e) = ended (some e)

abbrev pub answered : {H : Host} → ℕ → Body H → Result ℕ → Body H
answered i next (raised e) = ended (some e)
answered i next (ok status) =
    if is_good status
    then next
    else ended (some (runtime_error ("PUT " <> (show i <> (" returned " <> show status)))))

-- The bodies of the four threads.
module _ (H : Host) (W : Workshop H) where
  unfoldable pub copy_body : String → String → Body H
  copy_body src dst = files (W.copyfile src dst) (λ r. ended (error_of r))

  unfoldable pub put_body : Bucket → String → String → ℕ → Body H
  unfolding put
  put_body bucket name payload size =
      asks (put H W.http bucket name payload size) (λ r. ended (put_error r))

  unfoldable pub copies : String → String → List ℕ → Body H
  copies unit target [] = ended none
  copies unit target (i ∷ is) =
      files (W.copyfile unit (target <> ("/" <> file_name i))) (copied (copies unit target is))

  unfoldable pub tree_copy_body : String → String → ℕ → Body H
  unfolding copies
  tree_copy_body unit target count =
      files (W.mkdir target) (copied (copies unit target (range count)))

  unfoldable pub puts : Bucket → String → String → List ℕ → Body H
  unfolding put
  puts bucket prefix unit [] = ended none
  puts bucket prefix unit (i ∷ is) =
      asks (put H W.http bucket (prefix <> ("/" <> file_name i)) unit small_file)
        (answered i (puts bucket prefix unit is))

  unfoldable pub tree_put_body : Bucket → String → String → ℕ → Body H
  unfolding puts
  tree_put_body bucket prefix unit count = puts bucket prefix unit (range count)
