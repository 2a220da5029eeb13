-- ===== src/Matrix/Summary/Converged.antt =====
-- When `summarise` (tools/measure/bucketfs/run_matrix.py) calls a cell converged.

use syncfs.Base.{
  ◌≡◌, ◌↔◌, refl, ap, sym, ◌∙◌, inl, inr, true, ◌||◌, Option, none, some, List, [], ◌∷◌, String,
  arith, length, All, Bool-cases,
}
use text.Mathlib.TextEquality.{eq_iff}
use syncfs.Base.Int.{ℤ}
use syncfs.Base.Equality.{string_eq, contains, beq_refl}
use syncfs.Base.Dict.{Dict}
use syncfs.Poller.Watch.{Record}
use syncfs.Matrix.Summary.{arrivals, all_arrived, hashes_of, distinct, summarise}

distinct_same :
    (h x : String) (xs : List String) → All (λ y. y ≡ h) (x ∷ xs) → distinct (x ∷ xs) ≡ h ∷ []
unfolding distinct
distinct_same h x [] (e, _) = ap (λ y. y ∷ []) e
distinct_same h x (y ∷ ys) (e, es) = rw (distinct_same h y ys es) (ground (arith, eq_iff h x))

contains-distinct : (a : String) (xs : List String) → contains a (distinct xs) ≡ contains a xs
unfolding distinct
contains-distinct a [] = refl
contains-distinct a (x ∷ xs) = elim (Bool-cases (contains x (distinct xs))) [
  | inl old ↦ rw old (ground (arith, contains-distinct a xs, eq_iff x a))
  | inr new ↦ rw new (ap (λ b. string_eq.eqb x a || b) (contains-distinct a xs))
]

-- Every entry of a list whose set has one member is that member.
All-of_contains :
    (h : String) (xs : List String)
    → ((x : String) → contains x xs ≡ true → x ≡ h)
    → All (λ y. y ≡ h) xs
All-of_contains h [] f = tt
All-of_contains h (x ∷ xs) f =
    (f x (ground (arith, beq_refl x)), All-of_contains h xs (λ y m. f y (ground arith)))

-- The list is not empty, and its entries are all the same.
abbrev pub Unanimous : List String → Type 0
Unanimous xs = (h : String) × (contains h xs ≡ true) × All (λ y. y ≡ h) xs

pub distinct_one : (xs : List String) → length (distinct xs) ≡ 1 → Unanimous xs
distinct_one xs n = go (distinct xs) refl n
  where
    go : (ys : List String) → distinct xs ≡ ys → length ys ≡ 1 → Unanimous xs
    go [] e n = absurd (omega arith)
    go (h ∷ []) e n = (
      h,
      sym (contains-distinct h xs) ∙ rw e (ground (arith, beq_refl h)),
      All-of_contains h xs (λ x m. ground (arith, contains-distinct x xs, eq_iff h x)),
    )
    go (h ∷ k ∷ ys) e n = absurd (omega arith)

pub one_distinct : (xs : List String) → Unanimous xs → length (distinct xs) ≡ 1
one_distinct [] (h, m, all) = cc
one_distinct (x ∷ xs) (h, m, all) = ap length (distinct_same h x xs all)

abbrev pub EveryoneArrived : Dict String Record → Type 0
EveryoneArrived = All (λ (e : String × Record). (t : ℤ) × (e.1.elapsed ≡ some t))

all_arrived_cons :
    (name : String) (r : Record) (rest : Dict String Record)
    → (all_arrived (arrivals rest) ≡ true) ↔ EveryoneArrived rest
    → (o : Option ℤ) → r.elapsed ≡ o
    → (all_arrived (arrivals ((name, r) ∷ rest)) ≡ true) ↔ EveryoneArrived ((name, r) ∷ rest)
unfolding all_arrived
all_arrived_cons name r rest ih none e =
    (λ h. absurd (ground arith), λ (k, _). absurd (ground arith))
all_arrived_cons name r rest ih (some t) e =
    (λ h. ((t, e), ih.0 (ground arith)), λ (k, ks). ground (arith, ih.1 ks))

all_arrived_iff :
    (records : Dict String Record)
    → (all_arrived (arrivals records) ≡ true) ↔ EveryoneArrived records
unfolding all_arrived
all_arrived_iff [] = (λ h. tt, λ h. refl)
all_arrived_iff ((name, r) ∷ rest) =
    all_arrived_cons name r rest (all_arrived_iff rest) r.elapsed refl

-- A cell counts as converged exactly where every record has an arrival and the hashes that the
-- records hold are all the same, and at least one.
pub converged_iff :
    (records : Dict String Record) (writer : String)
    → ((summarise records writer).converged ≡ true)
      ↔ (EveryoneArrived records × Unanimous (hashes_of records))
unfolding summarise
converged_iff records writer = (
  λ h.
      ((all_arrived_iff records).0 (ground arith), distinct_one (hashes_of records) (ground arith)),
  λ (all, same).
      ground (arith, (all_arrived_iff records).1 all, one_distinct (hashes_of records) same),
)
