-- ===== src/Tables/Figures.antt =====
-- How tools/measure/bucketfs/tex_tables.py prints a number: rounding, `human`, `digits_for` and
-- `deadline_for`. A quotient is exact here, so a value half way between two goes to the even one.
use syncfs.Base.{
  ℕ, zero, suc, ◌+◌, ◌-◌, ◌*◌, ◌/◌, ◌%◌, ◌^◌, ◌≡◌, refl, ◌&&◌, String, ◌<>◌, ltb, leb, nat_beq,
  if◌then◌else◌,
}
use syncfs.Base.Decimal.{show}
use syncfs.Base.Equality.{◌==◌, string_eq}

abbrev pub kib : ℕ
kib = 1024

abbrev pub mib : ℕ
mib = 1024 * 1024

abbrev pub gib : ℕ
gib = 1024 * 1024 * 1024

-- `num / den` to the nearest whole number
unfoldable pub round_div : ℕ → ℕ → ℕ
round_div num den =
    let q = num / den in
    let r = num % den in if ltb (2 * r) den then q else if ltb den (2 * r) then q + 1 else q + q % 2

abbrev pub text_tail : String → String
text_tail String.[] = String.[]
text_tail (String.◌∷◌ c s) = s

-- the last `places` digits of a number below `10 ** places`
abbrev pub padded : ℕ → ℕ → String
padded places n = text_tail (show (10 ^ places + n))

abbrev pub with_point : ℕ → ℕ → String
with_point zero figure = show figure
with_point (suc p) figure =
    show (figure / 10 ^ suc p) <> ("." <> padded (suc p) (figure % 10 ^ suc p))

-- `f"{num / den:.{places}f}"`
unfoldable pub fixed : ℕ → ℕ → ℕ → String
unfolding round_div show
fixed places num den = with_point places (round_div (num * 10 ^ places) den)

-- the digits of a positive number
abbrev pub digits_onto : ℕ → ℕ → ℕ
digits_onto zero n = 0
digits_onto (suc fuel) n = let more = digits_onto fuel (n / 10) in if ltb n 10 then 1 else more + 1

-- a fraction without the zeros at its end, in `places` digits
unfoldable pub stripped : ℕ → ℕ → String
unfolding show
stripped zero figure = show figure
stripped (suc p) figure =
    let shorter = stripped p (figure / 10) in
    if nat_beq (figure % 10) 0 then shorter else with_point (suc p) figure

-- `f"{num / den:g}"` of a quotient that is at least 1: six significant digits
unfoldable pub general : ℕ → ℕ → String
unfolding stripped round_div
general num den =
    let whole = digits_onto 20 (num / den) in
    let figure = round_div (num * 10 ^ (6 - whole)) den in
    if ltb whole 7 && ltb figure 1000000
    then stripped (6 - whole) figure
    else stripped 5 (round_div (num * 10 ^ 5) (den * 10 ^ (digits_onto 20 (round_div num den) - 1)))
      <> ("e+" <> padded 2 (digits_onto 20 (round_div num den) - 1))

-- The unit of a size, and how many bytes it has.
unfoldable pub unit_of : ℕ → String × ℕ
unit_of size =
    if leb gib size
    then ("GiB", gib)
    else if leb mib size
    then ("MiB", mib)
    else if leb kib size
    then ("KiB", kib)
    else ("B", 1)

unfoldable pub human : ℕ → String
unfolding unit_of general
human size =
    let (unit, scale) = unit_of size in
    if ltb 1 scale then general size scale <> ("\\," <> unit) else show size <> "\\,B"

-- The deadline of a cell, in seconds.
unfoldable pub deadline_for : String → ℕ → ℕ
deadline_for experiment size = if experiment == "A" && leb gib size then 1800 else 900

-- A value in twenty-thousandths of a second.
unfoldable pub digits_for : ℕ → ℕ
digits_for value =
    if leb (100 * 20000) value
    then 0
    else if leb (10 * 20000) value
    then 1
    else if leb 20000 value
    then 2
    else 3

human_runs :
    (human 1024 ≡ "1\\,KiB")
    × (human 104857600 ≡ "100\\,MiB")
    × (human 1536 ≡ "1.5\\,KiB")
    × (human 12 ≡ "12\\,B")
unfolding human
human_runs = (refl, refl, refl, refl)

fixed_runs :
    (fixed 3 1234 20000 ≡ "0.062")
    × (fixed 0 2030000 20000 ≡ "102")
    × (fixed 2 60000 20000 ≡ "3.00")
unfolding fixed
fixed_runs = (refl, refl, refl)
