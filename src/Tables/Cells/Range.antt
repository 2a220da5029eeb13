-- ===== src/Tables/Cells/Range.antt =====
-- When `median_range` (tools/measure/bucketfs/tex_tables.py) prints the range under the median.
use native.Mathlib.Nat.{mod-lt, div-add-mod}
use syncfs.Base.{
  ℕ, zero, suc, ◌+◌, ◌-◌, ◌*◌, ◌/◌, ◌%◌, ◌^◌, ◌≤◌, ◌<◌, ◌≡◌, ◌≢◌, refl, ap, ◌⊎◌, inl, inr, List,
  ◌∷◌, String, ◌<>◌, arith, ltb, if◌then◌else◌, nat_beq, nat_beq_iff, Bool-cases, ltb→lt, le_of_ltb,
}
use syncfs.Tables.Cells.{median2, least, greatest, narrow, tabular, median_range}
use syncfs.Tables.Figures.{round_div, fixed}

-- the nearer of the two, with the bit of a tie given
near :
    (q r d bit : ℕ)
    → r < d
    → bit ≤ 1
    → let m = if ltb (2 * r) d then q else if ltb d (2 * r) then q + 1 else q + bit in
      (2 * (d * q + r) ≤ 2 * (d * m) + d) × (2 * (d * m) ≤ 2 * (d * q + r) + d)
near q r d bit h b = elim (Bool-cases (ltb (2 * r) d)) [
  | inl low ↦ rw low (omega (arith, ltb→lt (2 * r) d low))
  | inr notlow ↦ rw notlow (elim (Bool-cases (ltb d (2 * r))) [
    | inl high ↦ rw high (omega (arith, ltb→lt d (2 * r) high))
    | inr tie ↦
        rw tie (tied bit b (omega (arith, le_of_ltb (2 * r) d notlow, le_of_ltb d (2 * r) tie)))
  ])
]
  where
    tied :
        (bit : ℕ)
        → bit ≤ 1
        → 2 * r ≡ d
        → (2 * (d * q + r) ≤ 2 * (d * (q + bit)) + d) × (2 * (d * (q + bit)) ≤ 2 * (d * q + r) + d)
    tied zero b e = omega arith
    tied (suc zero) b e = omega arith
    tied (suc (suc n)) b e = absurd (omega arith)

round_div_near :
    (n d : ℕ)
    → 0 < d
    → (2 * n ≤ 2 * (d * round_div n d) + d) × (2 * (d * round_div n d) ≤ 2 * n + d)
unfolding round_div
round_div_near n d pos =
    omega (arith, near (n / d) (n % d) d (n / d % 2) (mod-lt n pos) (omega arith), div-add-mod n d)

-- A multiplied difference, which is 0 where `hi` is below `lo`.
scaled_gap :
    (lo hi p : ℕ)
    → (hi * p ≤ lo * p + (hi - lo) * p) × (0 < (hi - lo) * p → lo * p + (hi - lo) * p ≡ hi * p)
scaled_gap lo hi p = elim (Bool-cases (ltb hi lo)) [
  | inl less ↦
      let e : hi - lo ≡ 0 = omega (arith, ltb→lt hi lo less) in
      let z : (hi - lo) * p ≡ 0 = rw e (omega arith) in
      (
        omega (
          arith,
          z,
          below (lo - hi) hi p,
          ap (λ t. t * p) (rejoin hi lo (omega (arith, ltb→lt hi lo less))),
        ),
        λ pos. absurd (omega (arith, z)),
      )
  | inr more ↦
      let e = ap (λ t. t * p) (rejoin lo hi (le_of_ltb hi lo more)) in
      (omega (arith, e, below (hi - lo) lo p), λ pos. omega (arith, e, below (hi - lo) lo p))
]
  where
    rejoin : (a b : ℕ) → a ≤ b → a + (b - a) ≡ b
    rejoin a b h = omega arith

    below : (k a p : ℕ) → (a + k) * p ≡ a * p + k * p
    below k a p = omega arith

figures_close :
    (lo hi p : ℕ) → (hi - lo) * p < 10000 → round_div (hi * p) 10000 ≤ round_div (lo * p) 10000 + 1
figures_close lo hi p h = omega (
  arith,
  (scaled_gap lo hi p).0,
  round_div_near (hi * p) 10000 (omega arith),
  round_div_near (lo * p) 10000 (omega arith),
)

figures_apart :
    (lo hi p : ℕ)
    → 10000 ≤ (hi - lo) * p
    → round_div (lo * p) 10000 ≡ round_div (hi * p) 10000
    → (hi - lo) * p ≡ 10000
figures_apart lo hi p h same = omega (
  arith,
  (scaled_gap lo hi p).1 (omega arith),
  round_div_near (hi * p) 10000 (omega arith),
  round_div_near (lo * p) 10000 (omega arith),
  same,
)

-- Two ways to print a cell that measured `x` and `xs`.
abbrev pub alone : ℕ → List ℕ → ℕ → String → String
alone x xs places suffix = fixed places (median2 (x ∷ xs)) 20000 <> suffix

abbrev pub ranged : ℕ → List ℕ → ℕ → String → String
ranged x xs places suffix =
    tabular (alone x xs places suffix) (fixed places (least x xs) 10000)
      (fixed places (greatest x xs) 10000)

-- the figures that `fixed places _ 10000` prints
abbrev pub figure : ℕ → ℕ → ℕ
figure places value = round_div (value * 10 ^ places) 10000

-- `median_range` prints the median alone or with the range under it. Alone, the figures of the
-- minimum and of the maximum differ by one unit in the last place at most; with the range, they
-- differ, unless the two values lie exactly one unit apart.
pub median_range_cases :
    (x : ℕ) (xs : List ℕ) (places : ℕ) (suffix : String)
    → ((median_range x xs places suffix ≡ alone x xs places suffix)
        × (figure places (greatest x xs) ≤ figure places (least x xs) + 1))
      ⊎ ((median_range x xs places suffix ≡ ranged x xs places suffix)
          × ((figure places (least x xs) ≢ figure places (greatest x xs))
              ⊎ ((greatest x xs - least x xs) * 10 ^ places ≡ 10000)))
unfolding median_range
median_range_cases x xs places suffix =
    elim (Bool-cases (narrow places (least x xs) (greatest x xs))) [
      | inl tight ↦ inl (
        rw tight refl,
        figures_close (least x xs) (greatest x xs) (10 ^ places) (ltb→lt _ _ tight),
      )
      | inr wide ↦ inr (
        rw wide refl,
        differ (figure places (least x xs)) (figure places (greatest x xs))
            (figures_apart (least x xs) (greatest x xs) (10 ^ places) (le_of_ltb _ _ wide)),
      )
    ]
  where
    differ : {A : Type 0} (a b : ℕ) → (a ≡ b → A) → (a ≢ b) ⊎ A
    differ a b f = elim (Bool-cases (nat_beq a b)) [
      | inl same ↦ inr (f ((nat_beq_iff a b).0 same))
      | inr other ↦ inl (λ e. ground (arith, e))
    ]
