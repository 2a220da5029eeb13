-- ===== src/Matrix/Bucket.antt =====
-- `Bucket` of tools/measure/bucketfs/run_matrix.py: the client of a BucketFS node, and what it makes of
-- the node's URL.
pub mod Url
use Prim.Native.Char.{Char, code}
use syncfs.Base.{
  ℕ, Bool, true, false, Option, none, some, List, [], ◌∷◌, String, ◌<>◌, if◌then◌else◌, nat_beq,
}
use syncfs.Base.Decimal.{show, value}
use syncfs.Base.Exec.{Result, ok, raised, Exec, pure, call, finally}
use syncfs.Base.Exec
use syncfs.Host.{Host}
use syncfs.Peak.{◌>>=◌, digits, number}

pub record Bucket : Type 0 where
  pub host : String
  pub port : ℕ
  pub bucket : String
  pub auth : String

-- What stands before and behind the first character of the code.
abbrev pub in_front : Char → Option (String × String) → Option (String × String)
in_front c none = none
in_front c (some (a, b)) = some (String.◌∷◌ c a, b)

abbrev pub cut : ℕ → String → Option (String × String)
cut at String.[] = none
cut at (String.◌∷◌ c s) =
    let later = cut at s in if nat_beq (code c) at then some (String.[], s) else in_front c later

-- `int(port)` of digits, and none for a ValueError
abbrev pub whole : String × String → Option ℕ
whole (d, String.[]) = some (value 0 d)
whole (d, String.◌∷◌ c s) = none

abbrev pub client : String → String → String × String → Option Bucket
client passwd name (host, port) = do
  d ← number port
  n ← whole d
  some (record { host = host; port = n; bucket = name; auth = "w:" <> passwd })

-- `hostport.partition(":")`, whose last part is empty where there is no colon
abbrev pub or_all : String → Option (String × String) → String × String
or_all s none = (s, "")
or_all s (some parts) = parts

-- `Bucket(url, write_passwd)`: `url.split("/", 3)` has to have four parts.
unfoldable pub bucket_at : String → String → Option Bucket
unfolding number value
bucket_at url passwd = do
  a ← cut 47 url
  b ← cut 47 a.1
  c ← cut 47 b.1
  client passwd c.1 (or_all c.0 (cut 58 c.0))

-- The connection: a request of a method, a path, the headers and the file that is its body, if any,
-- whose response is read to its end.
pub record Http (H : Host) : Type 1 where
  pub request : String → String → List (String × String) → Option String → Exec H.State ℕ
  pub close : Bucket → H.State → H.State
  pub b64encode : String → String

module _ (H : Host) (N : Http H) where
  abbrev pub authorization : Bucket → String × String
  authorization b = ("Authorization", "Basic " <> N.b64encode b.auth)

  abbrev pub path_in : Bucket → String → String
  path_in b name = "/" <> (b.bucket <> ("/" <> name))

  unfoldable pub put : Bucket → String → String → ℕ → Exec H.State ℕ
  put b name path size =
      N.request "PUT" (path_in b name) (("Content-Length", show size) ∷ authorization b ∷ [])
        (some path)

  unfoldable pub delete : Bucket → String → Exec H.State ℕ
  delete b name = N.request "DELETE" (path_in b name) (authorization b ∷ []) none
