-- ===== src/Peak/Printed.antt =====
-- The rows that the daemon's `print_session_statistics` (src/syncfs.cpp) prints, as `ROW` of
-- tools/measure/measure_peak.py reads them.
use Prim.Native.Char.{Char, code}
use Prim.Native.String.append
use syncfs.Base.{
  ℕ, zero, suc, ◌/◌, ◌%◌, ◌<◌, ◌≡◌, refl, ap, sym, ◌∙◌, true, false, Option, some, String, ◌<>◌,
  arith, ltb, nat_beq, Bool-cases, inl, inr,
}
use syncfs.Base.Decimal.{show, show_onto, digit, code-digit, value, value-show}
use syncfs.ExaConf.{is_space, after, take_word}
use syncfs.Peak.{
  ◌>>=◌, is_digit, from_tab, digits, some_digits, number, two_digits, match_state, match_peers,
  match_seeds, match_total, match_progress, match_row,
}

-- A statistics row: the path, the progress in hundredths, the bytes, the seeds, the peers and the
-- state's name.
pub record Torrent : Type 0 where
  pub file_path : String
  pub progress : ℕ
  pub total_done : ℕ
  pub num_seeds : ℕ
  pub num_peers : ℕ
  pub state : String

-- `{:.2f}`
abbrev pub hundredths : ℕ → String → String
hundredths n rest = show (n / 100) <> ("." <> (show (n % 100 / 10) <> (show (n % 10) <> rest)))

-- What stands behind the path.
abbrev pub columns : ℕ → ℕ → ℕ → ℕ → String → String
columns progress total seeds peers state = hundredths progress (
    "\t\t" <> (show total <> ("\t\t" <> (show seeds <> ("\t" <> (show peers <> ("\t" <> state)))))))

-- `std::format("{}\t\t{:.2f}\t\t{}\t\t{}\t{}\t{}", …)`
unfoldable pub printed_row : Torrent → String
printed_row t =
    t.file_path <> ("\t\t" <> columns t.progress t.total_done t.num_seeds t.num_peers t.state)

after-append : (p s : String) → after p (p <> s) ≡ some s
after-append String.[] s = λ i. some (append.nil s i)
after-append (String.◌∷◌ c p) s =
    ap (after (String.◌∷◌ c p)) (λ i. append.cons c p s i)
    ∙ rw (same (code c), after-append p s) refl
  where
    same : (n : ℕ) → nat_beq n n ≡ true
    same n = ground arith

is_digit-digit : (n : ℕ) → n < 10 → is_digit (digit n) ≡ true
is_digit-digit n h = ground (arith, code-digit n h)

pub show_onto-append :
    (fuel n : ℕ) (s rest : String) → show_onto fuel n s <> rest ≡ show_onto fuel n (s <> rest)
unfolding show_onto
show_onto-append zero n s rest = refl
show_onto-append (suc fuel) n s rest = elim (Bool-cases (ltb n 10)) [
  | inl small ↦ rw small (λ i. append.cons (digit (n % 10)) s rest i)
  | inr large ↦ rw large (
      show_onto-append fuel (n / 10) (String.◌∷◌ (digit (n % 10)) s) rest
      ∙ ap (show_onto fuel (n / 10)) (λ i. append.cons (digit (n % 10)) s rest i))
]

pub digits-show_onto :
    (fuel n : ℕ) (s d rest : String)
    → digits s ≡ (d, rest)
    → digits (show_onto fuel n s) ≡ (show_onto fuel n d, rest)
unfolding show_onto digits
digits-show_onto zero n s d rest h = h
digits-show_onto (suc fuel) n s d rest h = elim (Bool-cases (ltb n 10)) [
  | inl small ↦ rw (small, h, is_digit-digit (n % 10) (omega arith)) refl
  | inr large ↦ rw large (
      digits-show_onto fuel (n / 10) (String.◌∷◌ (digit (n % 10)) s) (String.◌∷◌ (digit (n % 10)) d)
        rest (rw (h, is_digit-digit (n % 10) (omega arith)) refl))
]

some_digits-show_onto :
    (fuel n : ℕ) (c : Char) (d rest : String)
    → some_digits (show_onto fuel n (String.◌∷◌ c d), rest)
      ≡ some (show_onto fuel n (String.◌∷◌ c d), rest)
unfolding show_onto
some_digits-show_onto zero n c d rest = refl
some_digits-show_onto (suc fuel) n c d rest = elim (Bool-cases (ltb n 10)) [
  | inl small ↦ rw small refl
  | inr large ↦
      rw large (some_digits-show_onto fuel (n / 10) (digit (n % 10)) (String.◌∷◌ c d) rest)
]

pub some_digits-show : (n : ℕ) (rest : String) → some_digits (show n, rest) ≡ some (show n, rest)
unfolding show show_onto
some_digits-show n rest = elim (Bool-cases (ltb n 10)) [
  | inl small ↦ rw small refl
  | inr large ↦ rw large (some_digits-show_onto n (n / 10) (digit (n % 10)) "" rest)
]

-- A number is read up to where no digit follows.
number-show :
    (n : ℕ) (rest : String)
    → digits rest ≡ ("", rest)
    → number (show n <> rest) ≡ some (show n, rest)
unfolding show number
number-show n rest h =
    ap (λ s. some_digits (digits s))
      (show_onto-append (suc n) n "" rest ∙ ap (show_onto (suc n) n) (λ i. append.nil rest i))
    ∙ ap some_digits (digits-show_onto (suc n) n rest "" rest h)
    ∙ some_digits-show n rest

cons-append : (c : Char) (s t : String) → String.◌∷◌ c s <> t ≡ String.◌∷◌ c (s <> t)
cons-append c s t i = append.cons c s t i

digits-other :
    (c : Char) (t s : String)
    → is_digit c ≡ false
    → digits (String.◌∷◌ c t <> s) ≡ ("", String.◌∷◌ c t <> s)
unfolding digits
digits-other c t s h =
    ap digits (cons-append c t s) ∙ rw h (ap (λ x. ("", x)) (sym (cons-append c t s)))

-- A text without a tab.
abbrev pub IsUntabbed : String → Type 0
IsUntabbed String.[] = Unit
IsUntabbed (String.◌∷◌ c s) = (nat_beq (code c) 9 ≡ false) × IsUntabbed s

from_tab-append :
    (name t s : String)
    → IsUntabbed name
    → from_tab (name <> (String.◌∷◌ "\t" t <> s)) ≡ String.◌∷◌ "\t" t <> s
unfolding from_tab
from_tab-append String.[] t s h =
    ap from_tab (λ i. append.nil (String.◌∷◌ "\t" t <> s) i)
    ∙ ap from_tab (cons-append "\t" t s)
    ∙ sym (cons-append "\t" t s)
from_tab-append (String.◌∷◌ c name) t s (h, k) =
    ap from_tab (cons-append c name (String.◌∷◌ "\t" t <> s)) ∙ rw h (from_tab-append name t s k)

-- A word without white space, which is not empty.
abbrev pub IsUnspaced : String → Type 0
IsUnspaced String.[] = Unit
IsUnspaced (String.◌∷◌ c s) = (is_space c ≡ false) × IsUnspaced s

take_word_lem : (s : String) → IsUnspaced s → take_word s ≡ (s, "")
take_word_lem String.[] h = refl
take_word_lem (String.◌∷◌ c s) (h, k) = rw (take_word_lem s k, h) refl

match_state_lem :
    (peers : String) (c : Char) (s : String)
    → IsUnspaced (String.◌∷◌ c s)
    → match_state peers (String.◌∷◌ c s) ≡ some (value 0 peers)
match_state_lem peers c s h = rw (take_word_lem (String.◌∷◌ c s) h) refl

-- Reading a number that is followed by a separator, and going on behind it.
number_then :
    (n : ℕ) (c : Char) (t rest : String) (k : String → String → Option ℕ)
    → is_digit c ≡ false
    → (number (show n <> (String.◌∷◌ c t <> rest)) >>= λ r. after (String.◌∷◌ c t) r.1 >>= k r.0)
      ≡ k (show n) rest
number_then n c t rest k h =
    ap (λ o. o >>= λ r. after (String.◌∷◌ c t) r.1 >>= k r.0)
      (number-show n (String.◌∷◌ c t <> rest) (digits-other c t rest h))
    ∙ ap (λ o. o >>= k (show n)) (after-append (String.◌∷◌ c t) rest)

show-digit : (n : ℕ) → n < 10 → show n ≡ String.◌∷◌ (digit n) ""
unfolding show show_onto
show-digit n h =
    let small : ltb n 10 ≡ true = ground arith in
    rw small (ap (λ m. String.◌∷◌ (digit m) "") (omega arith))

two_digits-show :
    (m n : ℕ) (rest : String)
    → m < 10
    → n < 10
    → two_digits (show m <> (show n <> rest)) ≡ some rest
unfolding two_digits
two_digits-show m n rest hm hn =
    ap two_digits (
      ap (λ s. s <> (show n <> rest)) (show-digit m hm)
      ∙ cons-append (digit m) "" (show n <> rest)
      ∙ ap (String.◌∷◌ (digit m)) (
          (λ i. append.nil (show n <> rest) i)
          ∙ ap (λ s. s <> rest) (show-digit n hn)
          ∙ cons-append (digit n) "" rest
          ∙ ap (String.◌∷◌ (digit n)) (λ i. append.nil rest i)))
    ∙ rw (is_digit-digit m hm, is_digit-digit n hn) refl

match_total_lem :
    (total seeds peers : ℕ) (c : Char) (s : String)
    → IsUnspaced (String.◌∷◌ c s)
    → match_total (
        show total
        <> ("\t\t" <> (show seeds <> ("\t" <> (show peers <> ("\t" <> String.◌∷◌ c s))))))
      ≡ some peers
match_total_lem total seeds peers c s h =
    number_then total "\t" "\t" _ (λ d r. match_seeds r) refl
    ∙ number_then seeds "\t" "" _ (λ d r. match_peers r) refl
    ∙ number_then peers "\t" "" _ match_state refl
    ∙ match_state_lem (show peers) c s h
    ∙ ap some (value-show peers)

match_progress_lem :
    (progress total seeds peers : ℕ) (c : Char) (s : String)
    → IsUnspaced (String.◌∷◌ c s)
    → match_progress (columns progress total seeds peers (String.◌∷◌ c s)) ≡ some peers
match_progress_lem progress total seeds peers c s h =
    number_then (progress / 100) "." "" _
      (λ d r. two_digits r >>= λ r. after "\t\t" r >>= match_total) refl
    ∙ ap (λ o. o >>= λ r. after "\t\t" r >>= match_total)
        (two_digits-show (progress % 100 / 10) (progress % 10) _ (omega arith) (omega arith))
    ∙ ap (λ o. o >>= match_total) (after-append "\t\t" _)
    ∙ match_total_lem total seeds peers c s h

-- From a row that the daemon prints the tool reads the number of its peers, if the path has no tab and
-- the state's name is a word without white space.
pub match_row-printed_row :
    (t : Torrent) (c : Char) (s : String)
    → IsUntabbed t.file_path
    → t.state ≡ String.◌∷◌ c s
    → IsUnspaced (String.◌∷◌ c s)
    → match_row (printed_row t) ≡ some t.num_peers
unfolding match_row printed_row
match_row-printed_row t c s path word h = rw word (
    ap (λ r. after "\t\t" r >>= match_progress) (from_tab-append t.file_path "\t" _ path)
    ∙ ap (λ o. o >>= match_progress)
        (after-append "\t\t"
          (columns t.progress t.total_done t.num_seeds t.num_peers (String.◌∷◌ c s)))
    ∙ match_progress_lem t.progress t.total_done t.num_seeds t.num_peers c s h)
