-- ===== src/Matrix/Summary/Times.antt =====
-- The three times of `summarise` (tools/measure/bucketfs/run_matrix.py).

use syncfs.Base.{
  ℕ, ◌+◌, ◌*◌, ◌/◌, ◌%◌, ◌≤◌, ◌≡◌, refl, ap, inl, inr, Option, none, some, [], ◌∷◌, String, arith,
  Bool-cases,
}
use syncfs.Base.Int.{ℤ, pos, negsuc, sub_ℕ, pos_part, neg_part, ◌≤ℤ◌, ◌-ℤ◌, -ℤ_parts}
use syncfs.Base.Equality.{string_eq}
use syncfs.Base.Dict.{Dict}
use syncfs.Poller.Watch.{Record}
use syncfs.Matrix.Summary.{
  round_up, round4, arrivals, arrival_of, later_of, last_arrival, rounded, summarise,
}

later_of_bounds :
    (t : ℤ) (o : Option ℤ) → (t ≤ℤ later_of t o) × ((u : ℤ) → o ≡ some u → u ≤ℤ later_of t o)
later_of_bounds t none = (omega arith, λ u e. cc)
later_of_bounds t (some v) = (ground arith, λ u e. ground arith)

-- The writer's arrival is no later than the last one.
arrival-le-last :
    (writer : String) (times : Dict String (Option ℤ)) (t : ℤ)
    → arrival_of writer times ≡ some t
    → (u : ℤ) × (last_arrival times ≡ some u) × (t ≤ℤ u)
unfolding last_arrival
arrival-le-last writer [] t h = cc
arrival-le-last writer ((name, none) ∷ rest) t h = elim (Bool-cases (string_eq.eqb name writer)) [
  | inl same ↦ absurd (ground arith)
  | inr other ↦ arrival-le-last writer rest t (ground arith)
]
arrival-le-last writer ((name, some v) ∷ rest) t h = elim (Bool-cases (string_eq.eqb name writer)) [
  | inl same ↦
      let e : v ≡ t = ground arith in
      (later_of v (last_arrival rest), refl, rw (← e) (later_of_bounds v (last_arrival rest)).0)
  | inr other ↦
      let (u, e, le) = arrival-le-last writer rest t (ground arith) in
      (
        later_of v (last_arrival rest),
        refl,
        omega (arith, (later_of_bounds v (last_arrival rest)).1 u e),
      )
]

-- Rounding moves a time by half a unit at most.
round_up_near :
    (n : ℕ)
    → (100 * round_up (n / 100) (n % 100) ≤ n + 50) × (n ≤ 100 * round_up (n / 100) (n % 100) + 50)
round_up_near n = ground arith

minus_parts : (m : ℕ) → (pos_part (sub_ℕ 0 m) ≡ 0) × (neg_part (sub_ℕ 0 m) ≡ m)
minus_parts m = ground arith

round4_near :
    (a : ℤ)
    → (100 * pos_part (round4 a) + neg_part a ≤ pos_part a + 100 * neg_part (round4 a) + 50)
      × (pos_part a + 100 * neg_part (round4 a) ≤ 100 * pos_part (round4 a) + neg_part a + 50)
unfolding round4
round4_near (pos n) = omega (arith, round_up_near n)
round4_near (negsuc n) =
    omega (arith, round_up_near (n + 1), minus_parts (round_up ((n + 1) / 100) ((n + 1) % 100)))

round4_nonneg : (a : ℤ) → pos 0 ≤ℤ a → pos 0 ≤ℤ round4 a
unfolding round4
round4_nonneg (pos n) h = omega arith
round4_nonneg (negsuc n) h = absurd (omega arith)

-- What `summarise` says of a writer that has its own copy: both other times are there, and in
-- ten-thousandths of a second the ingest time and the fan-out add up to the propagation time, give
-- or take one for the rounding.
pub summarise_times :
    (records : Dict String Record) (writer : String) (t : ℤ)
    → arrival_of writer (arrivals records) ≡ some t
    → let s = summarise records writer in
      (i : ℤ) × (p : ℤ) × (f : ℤ) × (s.ingest_s ≡ some i)
      × (s.propagation_s ≡ some p)
      × (s.fanout_s ≡ some f)
      × (pos 0 ≤ℤ f)
      × (pos_part i + pos_part f + neg_part p ≤ pos_part p + neg_part i + neg_part f + 1)
      × (pos_part p + neg_part i + neg_part f ≤ pos_part i + pos_part f + neg_part p + 1)
unfolding summarise
summarise_times records writer t h =
    let (u, e, le) = arrival-le-last writer (arrivals records) t h in
    let d = u -ℤ t in
    (
      round4 t,
      round4 u,
      round4 d,
      ap rounded h,
      ap rounded e,
      rw (e, h),
      round4_nonneg d (omega (arith, -ℤ_parts u t)),
      omega (arith, round4_near t, round4_near u, round4_near d, -ℤ_parts u t),
      omega (arith, round4_near t, round4_near u, round4_near d, -ℤ_parts u t),
    )
