-- ===== src/Peak.antt =====
-- `ROW` and `peak_peers` of tools/measure/measure_peak.py: the peer counts in the log of a node. The
-- digits of the log are those of ASCII.
pub mod Printed
pub mod Most
pub mod Run
use Prim.Native.Char.{Char, code}
use syncfs.Base.{
  ℕ, zero, suc, ◌+◌, max, Bool, true, false, ◌&&◌, ◌||◌, Option, none, some, List, [], ◌∷◌, String,
  if◌then◌else◌, nat_beq, leb,
}
use syncfs.Base.Decimal.{value}
use syncfs.ExaConf.{is_space, after, take_word}

infixl 10 ◌>>=◌
abbrev pub ◌>>=◌ : {A B : Type 0} → Option A → (A → Option B) → Option B
none >>= f = none
some a >>= f = f a

abbrev pub is_digit : Char → Bool
is_digit c = leb 48 (code c) && leb (code c) 57

-- `[^\t]*`, and what stands behind it
unfoldable pub from_tab : String → String
from_tab String.[] = String.[]
from_tab (String.◌∷◌ c s) =
    let later = from_tab s in if nat_beq (code c) 9 then String.◌∷◌ c s else later

-- `\d*`, as far as it goes, and what stands behind it
unfoldable pub digits : String → String × String
digits String.[] = (String.[], String.[])
digits (String.◌∷◌ c s) =
    let (d, rest) = digits s in
    if is_digit c then (String.◌∷◌ c d, rest) else (String.[], String.◌∷◌ c s)

abbrev pub some_digits : String × String → Option (String × String)
some_digits (String.[], rest) = none
some_digits (String.◌∷◌ c d, rest) = some (String.◌∷◌ c d, rest)

-- `\d+`
unfoldable pub number : String → Option (String × String)
unfolding digits
number s = some_digits (digits s)

-- `\d\d`
unfoldable pub two_digits : String → Option String
two_digits String.[] = none
two_digits (String.◌∷◌ c String.[]) = none
two_digits (String.◌∷◌ c (String.◌∷◌ d s)) = if is_digit c && is_digit d then some s else none

-- `(\S+)$`, in a line, which has no newline
abbrev pub is_word : String × String → Bool
is_word (String.[], rest) = false
is_word (String.◌∷◌ c word, String.[]) = true
is_word (String.◌∷◌ c word, String.◌∷◌ d rest) = false

abbrev pub match_state : String → String → Option ℕ
match_state peers s = if is_word (take_word s) then some (value 0 peers) else none

abbrev pub match_peers : String → Option ℕ
match_peers s = do (peers, s) ← number s; s ← after "\t" s; match_state peers s

abbrev pub match_seeds : String → Option ℕ
match_seeds s = do (seeds, s) ← number s; s ← after "\t" s; match_peers s

abbrev pub match_total : String → Option ℕ
match_total s = do (total, s) ← number s; s ← after "\t\t" s; match_seeds s

abbrev pub match_progress : String → Option ℕ
match_progress s = do
  (whole, s) ← number s
  s ← after "." s
  s ← two_digits s
  s ← after "\t\t" s
  match_total s

-- `int(found.group(2))` where `ROW` matches a line. Each part of the pattern ends where the next one
-- cannot go on, so that there is no second way to match.
unfoldable pub match_row : String → Option ℕ
unfolding from_tab number two_digits value
match_row line = do s ← after "\t\t" (from_tab line); match_progress s

-- `log.split("Name\t\tProgr")`, of which `skip` characters are still to be passed over
abbrev pub heading : String
heading = "Name\t\tProgr"

abbrev pub onto_first : Char → List String → List String
onto_first c [] = String.◌∷◌ c String.[] ∷ []
onto_first c (t ∷ ts) = String.◌∷◌ c t ∷ ts

abbrev pub is_found : Option String → Bool
is_found none = false
is_found (some s) = true

unfoldable pub blocks : ℕ → String → List String
blocks skip String.[] = String.[] ∷ []
blocks (suc skip) (String.◌∷◌ c s) = blocks skip s
blocks zero (String.◌∷◌ c s) = elim (is_found (after heading (String.◌∷◌ c s))) [
  | true ↦ String.[] ∷ blocks 10 s
  | false ↦ onto_first c (blocks 0 s)
]

-- The characters at which `splitlines` ends a line.
abbrev pub is_break : Char → Bool
is_break c =
    (leb 10 (code c) && leb (code c) 13)
    || ((leb 28 (code c) && leb (code c) 30)
        || (nat_beq (code c) 133 || (nat_beq (code c) 8232 || nat_beq (code c) 8233)))

-- `block.splitlines()`; `after_cr` behind a carriage return, whose newline ends the same line
unfoldable pub split_lines : Bool → String → List String
split_lines after_cr String.[] = []
split_lines after_cr (String.◌∷◌ c s) = elim (after_cr && nat_beq (code c) 10) [
  | true ↦ split_lines false s
  | false ↦ elim (is_break c) [
    | true ↦ String.[] ∷ split_lines (nat_beq (code c) 13) s
    | false ↦ onto_first c (split_lines false s)
  ]
]

-- one line of a block: `total += …; rows += 1`
abbrev pub count_row : ℕ × ℕ → Option ℕ → ℕ × ℕ
count_row sums none = sums
count_row (total, rows) (some peers) = (total + peers, rows + 1)

unfoldable pub count_rows : ℕ × ℕ → List String → ℕ × ℕ
unfolding match_row
count_rows sums [] = sums
count_rows sums (line ∷ lines) = count_rows (count_row sums (match_row line)) lines

-- the peers and the torrents of one table
unfoldable pub table_sums : String → ℕ × ℕ
unfolding split_lines count_rows
table_sums block = count_rows (0, 0) (split_lines false block)

abbrev pub better : ℕ × ℕ → ℕ × ℕ → ℕ × ℕ
better (peers, torrents) (total, rows) = (max peers total, max torrents rows)

unfoldable pub best_of : ℕ × ℕ → List String → ℕ × ℕ
unfolding table_sums
best_of best [] = best
best_of best (block ∷ rest) = best_of (better best (table_sums block)) rest

unfoldable pub peak_peers : String → ℕ × ℕ
unfolding best_of blocks
peak_peers log = best_of (0, 0) (blocks 0 log)
