-- ===== src/Host.antt =====
-- What tools/measure asks of the machine it runs on, and what it relies on of the clock. Times are
-- whole microseconds: `time.time()` and `time.sleep()` of the source count the same in seconds.
use syncfs.Base.{ℕ, String, List, Bool, ◌+◌, ◌≤◌, arith}
use syncfs.Base.Exec.{Result, ok, raised, Exec, continue, Ensures}

-- The fields that the tools read of an `os.stat_result`.
pub record Stat : Type 0 where
  pub st_size : ℕ
  pub st_blocks : ℕ
  pub is_reg : Bool

-- `absent` stands for the three errors that the tools catch: FileNotFoundError,
-- NotADirectoryError and PermissionError. Every other `OSError` is `failed`.
pub data StatReply : Type 0 where
  found : Stat → StatReply
  absent : StatReply
  failed : String → StatReply

pub record Host : Type 1 where
  pub State : Type 0
  pub time : State → ℕ × State
  pub sleep : ℕ → State → State
  -- `Path.stat()`, and `Path.stat(follow_symlinks=False)`
  pub stat : String → State → StatReply × State
  pub lstat : String → State → StatReply × State
  -- the paths of the names that `os.walk` reports below a directory, in its order
  pub walk : String → State → List String × State
  -- `hashlib.file_digest` of an opened file, in hexadecimal
  pub file_digest : String → State → Result String × State
  -- `sorted(p for p in path.rglob("*") if p.is_file())`, each with its path relative to `path`
  pub files_below : String → State → List (String × String) × State
  -- `open(path, "w")`, the lines, and the close
  pub write_lines : String → List String → State → Result (Unit {0}) × State
  -- SHA-256 of a sequence of updates, in hexadecimal
  pub hexdigest : List String → String

-- Time does not run backwards while the tools run, and a sleep lasts at least as long as asked.
pub record IsClock (H : Host) : Type 0 where
  pub now : H.State → ℕ
  pub now-le-time : (s : H.State) → now s ≤ (H.time s).0
  pub time-le-now : (s : H.State) → (H.time s).0 ≤ now (H.time s).1
  pub sleep_lasts : (d : ℕ) (s : H.State) → now s + d ≤ now (H.sleep d s)
  pub stat-le-now : (p : String) (s : H.State) → now s ≤ now (H.stat p s).1
  pub lstat-le-now : (p : String) (s : H.State) → now s ≤ now (H.lstat p s).1
  pub walk-le-now : (p : String) (s : H.State) → now s ≤ now (H.walk p s).1
  pub file_digest-le-now : (p : String) (s : H.State) → now s ≤ now (H.file_digest p s).1
  pub files_below-le-now : (p : String) (s : H.State) → now s ≤ now (H.files_below p s).1
  pub write_lines-le-now :
      (p : String) (l : List String) (s : H.State) → now s ≤ now (H.write_lines p l s).1

module _ {H : Host} (C : IsClock H) where
  pub now-le-time_after : (s : H.State) → C.now s ≤ C.now (H.time s).1
  now-le-time_after s = omega (arith, C.now-le-time s, C.time-le-now s)

  pub now-le-continue :
      {A B : Type 0} (s : H.State) (r : Result A × H.State) (f : A → Exec H.State B)
      → C.now s ≤ C.now r.1
      → ((a : A) (t : H.State) → C.now t ≤ C.now (f a t).1)
      → C.now s ≤ C.now (continue r.0 f r.1).1
  now-le-continue s (ok a, t) f h k = omega (arith, k a t)
  now-le-continue s (raised e, t) f h k = h

  pub after_Ensures :
      {A : Type 0} (s : H.State) (r : Result A × H.State)
      → C.now s ≤ C.now r.1
      → Ensures (λ a t. C.now s ≤ C.now t) r
  after_Ensures s (ok a, t) h = h
  after_Ensures s (raised e, t) h = tt
