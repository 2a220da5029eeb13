-- ===== src/ExaConf.antt =====
-- `read_passwords` of tools/measure/bucketfs/exasol_cluster.py: the search of an EXAConf for a field.
-- White space is that of ASCII.
use Prim.Native.Char.{Char, code}
use syncfs.Base.{
  Bool, true, ◌&&◌, ◌||◌, Option, none, some, String, ◌<>◌, if◌then◌else◌, nat_beq, leb,
}
use syncfs.Base.Exec.{Result, ok, raised, runtime_error}

-- `\n`
abbrev pub is_newline : Char → Bool
is_newline c = nat_beq (code c) 10

-- `\s`
abbrev pub is_space : Char → Bool
is_space c =
    nat_beq (code c) 32
    || ((leb 9 (code c) && leb (code c) 13) || (leb 28 (code c) && leb (code c) 31))

-- `\s*`, as far as it goes
abbrev pub skip_spaces : String → String
skip_spaces String.[] = String.[]
skip_spaces (String.◌∷◌ c s) =
    let later = skip_spaces s in if is_space c then later else String.◌∷◌ c s

-- What stands behind a text that is read literally.
abbrev pub after : String → String → Option String
after String.[] s = some s
after (String.◌∷◌ p ps) String.[] = none
after (String.◌∷◌ p ps) (String.◌∷◌ c s) =
    let rest = after ps s in if nat_beq (code p) (code c) then rest else none

-- `\S+`, as far as it goes, and what stands behind it
abbrev pub take_word : String → String × String
take_word String.[] = (String.[], String.[])
take_word (String.◌∷◌ c s) =
    let (word, rest) = take_word s in
    if is_space c then (String.[], String.◌∷◌ c s) else (String.◌∷◌ c word, rest)

-- `\s*$`: white space up to the end of a line or of the text
abbrev pub ends_line : String → Bool
ends_line String.[] = true
ends_line (String.◌∷◌ c s) = let later = ends_line s in is_newline c || (is_space c && later)

-- `(\S+)\s*$`, and the group
abbrev pub word_line : String × String → Option String
word_line (String.[], rest) = none
word_line (String.◌∷◌ c word, rest) = if ends_line rest then some (String.◌∷◌ c word) else none

abbrev pub after_equals : Option String → Option String
after_equals none = none
after_equals (some s) = word_line (take_word (skip_spaces s))

abbrev pub after_field : Option String → Option String
after_field none = none
after_field (some s) = after_equals (after "=" (skip_spaces s))

-- `^\s*{field}\s*=\s*(\S+)\s*$` at the start of a line. A field has no white space, and so has the
-- equals sign, so that no part of the pattern has a second way to match.
unfoldable pub match_line : String → String → Option String
match_line field s = after_field (after field (skip_spaces s))

abbrev pub or_else : Option String → Option String → Option String
or_else none later = later
or_else (some word) later = some word

-- `re.search(…, text, re.M)`: the first line start that matches
unfoldable pub search_from : Bool → String → String → Option String
unfolding match_line
search_from at_start field String.[] = if at_start then match_line field String.[] else none
search_from at_start field (String.◌∷◌ c s) =
    let later = search_from (is_newline c) field s in
    let here = if at_start then match_line field (String.◌∷◌ c s) else none in or_else here later

unfoldable pub search : String → String → Option String
unfolding search_from
search field text = search_from true field text

pub record Passwords : Type 0 where
  pub read : String
  pub write : String

-- `b64decode` is `base64.b64decode(…).decode()`.
module _ (b64decode : String → Result String) (path : String) where
  abbrev pub password_of : String → Option String → Result String
  password_of field none = raised (runtime_error ("no " <> (field <> (" in " <> path))))
  password_of field (some word) = b64decode word

  abbrev pub both : Result String → Result String → Result Passwords
  both (raised e) w = raised e
  both (ok r) (raised e) = raised e
  both (ok r) (ok w) = ok (record { read = r; write = w })

  -- The read password is looked for first, and its exception is the one that is raised.
  unfoldable pub read_passwords : String → Result Passwords
  unfolding search
  read_passwords text =
      both (password_of "ReadPasswd" (search "ReadPasswd" text))
        (password_of "WritePasswd" (search "WritePasswd" text))
