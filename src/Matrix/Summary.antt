-- ===== src/Matrix/Summary.antt =====
-- `summarise` of tools/measure/bucketfs/run_matrix.py: the three times of a cell, and its verdict.
pub mod Times
pub mod Converged
use mathlib.Core.Option
use syncfs.Base.{
  ℕ, zero, suc, ◌+◌, ◌-◌, ◌*◌, ◌/◌, ◌%◌, ◌≤◌, ◌<◌, ◌≡◌, ◌≢◌, ◌↔◌, refl, ap, sym, ◌∙◌, inl, inr,
  Bool, true, false, not, ◌&&◌, ◌||◌, Option, none, some, List, [], ◌∷◌, String, arith, ltb,
  nat_beq, if◌then◌else◌, length, All, Bool-cases,
}
use text.Mathlib.TextEquality.{eq_iff}
use syncfs.Base.Int.{ℤ, pos, negsuc, sub_ℕ, pos_part, neg_part, ltb_ℤ, ◌≤ℤ◌, ◌-ℤ◌, -ℤ_parts}
use syncfs.Base.Equality.{Eq, string_eq, contains, beq_refl}
use syncfs.Base.Dict
use syncfs.Base.Dict.{Dict}
use syncfs.Poller.Watch.{Record}

-- `round(x, 4)` of a time in microseconds, as a number of ten-thousandths of a second. A time that
-- stands exactly between two goes to the even one.
abbrev pub round_up : ℕ → ℕ → ℕ
round_up q r = if ltb r 50 then q else if ltb 50 r then q + 1 else q + q % 2

unfoldable pub round4 : ℤ → ℤ
round4 (pos n) = pos (round_up (n / 100) (n % 100))
round4 (negsuc n) = sub_ℕ 0 (round_up ((n + 1) / 100) ((n + 1) % 100))

-- `{n: r.get("elapsed") for n, r in records.items()}`
abbrev pub arrivals : Dict String Record → Dict String (Option ℤ)
arrivals [] = []
arrivals ((name, r) ∷ rest) = (name, r.elapsed) ∷ arrivals rest

-- `arrivals.get(writer)`, where a missing name and a node that did not arrive are both `None`
abbrev pub arrival_of : String → Dict String (Option ℤ) → Option ℤ
arrival_of writer [] = none
arrival_of writer ((name, t) ∷ rest) =
    if string_eq.eqb name writer then t else arrival_of writer rest

unfoldable pub all_arrived : Dict String (Option ℤ) → Bool
all_arrived [] = true
all_arrived ((name, none) ∷ rest) = false
all_arrived ((name, some t) ∷ rest) = all_arrived rest

-- `max(v for v in arrivals.values() if v is not None), default=None)`
abbrev pub later_of : ℤ → Option ℤ → ℤ
later_of t none = t
later_of t (some u) = if ltb_ℤ t u then u else t

unfoldable pub last_arrival : Dict String (Option ℤ) → Option ℤ
last_arrival [] = none
last_arrival ((name, none) ∷ rest) = last_arrival rest
last_arrival ((name, some t) ∷ rest) = some (later_of t (last_arrival rest))

-- The hashes that are set and not empty.
abbrev pub hashes_of : Dict String Record → List String
hashes_of [] = []
hashes_of ((name, r) ∷ rest) =
    let others = hashes_of rest in
    elim r.sha256 [ none ↦ others | some h ↦ if string_eq.eqb h "" then others else h ∷ others ]

-- The members of a set that is built from the list.
unfoldable pub distinct : List String → List String
distinct [] = []
distinct (x ∷ xs) = let rest = distinct xs in if contains x rest then rest else x ∷ rest

pub record Summary : Type 0 where
  pub ingest_s : Option ℤ
  pub propagation_s : Option ℤ
  pub fanout_s : Option ℤ
  pub converged : Bool
  pub distinct_hashes : ℕ
  pub arrivals : Dict String (Option ℤ)

abbrev pub rounded : Option ℤ → Option ℤ
rounded none = none
rounded (some t) = some (round4 t)

abbrev pub fanout : Option ℤ → Option ℤ → Option ℤ
fanout none ingest = none
fanout (some last) none = none
fanout (some last) (some ingest) = some (round4 (last -ℤ ingest))

abbrev pub round_all : Dict String (Option ℤ) → Dict String (Option ℤ)
round_all [] = []
round_all ((name, t) ∷ rest) = (name, rounded t) ∷ round_all rest

unfoldable pub summarise : Dict String Record → String → Summary
unfolding all_arrived last_arrival distinct round4
summarise records writer =
    let times = arrivals records in
    let hashes = distinct (hashes_of records) in
    let ingest = arrival_of writer times in
    let last = last_arrival times in
    record {
      ingest_s = rounded ingest;
      propagation_s = rounded last;
      fanout_s = fanout last ingest;
      converged = all_arrived times && nat_beq (length hashes) 1;
      distinct_hashes = length hashes;
      arrivals = round_all times;
    }
