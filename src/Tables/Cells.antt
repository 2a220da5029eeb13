-- ===== src/Tables/Cells.antt =====
-- One cell of a table: `median_range` and `fmt` of tools/measure/bucketfs/tex_tables.py, with
-- `statistics.median`, `min` and `max` over what the cell measured.
pub mod Range
use syncfs.Base.{
  ℕ, zero, suc, ◌+◌, ◌-◌, ◌*◌, ◌/◌, ◌%◌, ◌^◌, ◌≡◌, refl, Bool, true, false, Option, none, some,
  List, [], ◌∷◌, String, ◌<>◌, arith, ltb, leb, nat_beq, if◌then◌else◌, length,
}
use syncfs.Base.Decimal.{show}
use syncfs.Tables.Samples.{Sample, Metric, cell_values, bad_count}
use syncfs.Tables.Figures.{fixed, digits_for, deadline_for}

abbrev pub insert : ℕ → List ℕ → List ℕ
insert x [] = x ∷ []
insert x (y ∷ ys) = if leb x y then x ∷ y ∷ ys else y ∷ insert x ys

-- `sorted(values)`
unfoldable pub sorted : List ℕ → List ℕ
sorted [] = []
sorted (x ∷ xs) = insert x (sorted xs)

abbrev pub get_or : List ℕ → ℕ → ℕ → ℕ
get_or [] i d = d
get_or (x ∷ xs) zero d = x
get_or (x ∷ xs) (suc i) d = get_or xs i d

-- Twice `statistics.median(values)`: the middle value, or the mean of the two in the middle.
unfoldable pub median2 : List ℕ → ℕ
unfolding sorted
median2 values =
    let n = length values in
    if nat_beq (n % 2) 1
    then 2 * get_or (sorted values) (n / 2) 0
    else get_or (sorted values) (n / 2 - 1) 0 + get_or (sorted values) (n / 2) 0

-- `min(values)` and `max(values)` of a list that is not empty
abbrev pub least : ℕ → List ℕ → ℕ
least x [] = x
least x (y ∷ ys) = least (if ltb y x then y else x) ys

abbrev pub greatest : ℕ → List ℕ → ℕ
greatest x [] = x
greatest x (y ∷ ys) = greatest (if ltb x y then y else x) ys

-- `high - low < 10 ** -places`, in ten-thousandths of a second
abbrev pub narrow : ℕ → ℕ → ℕ → Bool
narrow places low high = ltb ((high - low) * 10 ^ places) 10000

abbrev pub tabular : String → String → String → String
tabular body low high =
    "\\begin{tabular}[t]{@{}r@{}}"
    <> (body <> ("\\\\{\\tiny " <> (low <> ("--" <> (high <> "}\\end{tabular}")))))

unfoldable pub median_range : ℕ → List ℕ → ℕ → String → String
unfolding median2 fixed
median_range x xs places suffix =
    let body = fixed places (median2 (x ∷ xs)) 20000 <> suffix in
    let low = least x xs in
    let high = greatest x xs in
    if narrow places low high
    then body
    else tabular body (fixed places low 10000) (fixed places high 10000)

-- `$^{{{bad}\dagger}}$`
abbrev pub dagger : ℕ → String
dagger bad = "$^{" <> (show bad <> "\\dagger}$")

abbrev pub suffix_of : ℕ → String
suffix_of zero = ""
suffix_of (suc n) = "\\," <> dagger (suc n)

abbrev fmt_values : List Sample → Sample → List ℕ → Option ℕ → String
fmt_values group r [] digits =
    "$>" <> (show (deadline_for r.experiment r.size_bytes) <> ("$\\," <> dagger (bad_count group)))
fmt_values group r (x ∷ xs) none =
    median_range x xs (digits_for (median2 (x ∷ xs))) (suffix_of (bad_count group))
fmt_values group r (x ∷ xs) (some places) = median_range x xs places (suffix_of (bad_count group))

-- `none` is the IndexError of `group[0]` in an empty group.
unfoldable pub fmt : List Sample → Metric → Option ℕ → Option String
unfolding median_range digits_for deadline_for show
fmt [] metric digits = none
fmt (r ∷ rest) metric digits = some (fmt_values (r ∷ rest) r (cell_values (r ∷ rest) metric) digits)
