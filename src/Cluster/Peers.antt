-- ===== src/Cluster/Peers.antt =====
-- The mesh of peers files: each node names every other, and never itself.
use syncfs.Base.{
  ℕ, zero, suc, ◌+◌, ◌≤◌, ◌<◌, ◌≡◌, ◌≢◌, ◌↔◌, refl, inl, inr, Bool, true, false, not, List, [], ◌∷◌,
  map, arith, length, nat_beq, Bool-cases, if_rule, ◌||◌,
}
use syncfs.Base.Equality.{nat_eq, contains}
use syncfs.Matrix.Rows.{range_from}
use syncfs.Podman.{node_ids, peers_of}

-- The numbers from `start` on, of which there are `n`.
abbrev Within : ℕ → ℕ → ℕ → Type 0
Within start n j = (start < j) × (j ≤ start + n)

abbrev ids : ℕ → ℕ → List ℕ
ids start n = map (λ i. 1 + i) (range_from start n)

contains-ids : (start n j : ℕ) → (contains j (ids start n) ≡ true) ↔ Within start n j
contains-ids start zero j = ((λ h. cc), λ h. absurd (omega (arith, h.0, h.1)))
contains-ids start (suc n) j =
    let (to, from) = contains-ids (start + 1) n j in
    (
      (λ h. elim (Bool-cases (nat_beq (1 + start) j)) [
        | inl same ↦ ground arith
        | inr other ↦ let w = to (ground arith) in ground arith
      ]),
      (λ (low, high). elim (Bool-cases (nat_beq (1 + start) j)) [
        | inl same ↦ ground arith
        | inr other ↦ let there = from (ground arith, omega arith) in ground arith
      ]),
    )

-- Whether `j` is kept, by the answers for the rest of the list.
abbrev Other : ℕ → ℕ → Bool → Bool → Type 0
Other i j x y = (x ≡ true) ↔ ((y ≡ true) × (j ≢ i))

kept :
    (k i j : ℕ) (x y : Bool)
    → k ≢ i
    → Other i j x y
    → Other i j (nat_beq k j || x) (nat_beq k j || y)
kept k i j true y new (to, from) = ((λ h. (ground arith, (to refl).1)), λ h. ground arith)
kept k i j false y new (to, from) = elim (Bool-cases (nat_beq k j)) [
  | inl same ↦ ((λ h. (ground arith, ground arith)), λ h. ground arith)
  | inr other ↦
      ((λ h. absurd (ground arith)), λ (h, ne). let z = from (ground arith, ne) in ground arith)
]

left_out : (k i j : ℕ) (x y : Bool) → k ≡ i → Other i j x y → Other i j x (nat_beq k j || y)
left_out k i j x y same (to, from) =
    ((λ h. let (there, ne) = to h in (ground arith, ne)), (λ (h, ne). from (ground arith, ne)))

contains-peers_of :
    (i j : ℕ) (js : List ℕ)
    → (contains j (peers_of i js) ≡ true) ↔ ((contains j js ≡ true) × (j ≢ i))
unfolding peers_of
contains-peers_of i j [] = ((λ h. cc), λ h. h.0)
contains-peers_of i j (k ∷ js) =
    let (to, from) = contains-peers_of i j js in
    if_rule (λ ps. (contains j ps ≡ true) ↔ ((contains j (k ∷ js) ≡ true) × (j ≢ i)))
      (not (nat_beq k i)) (k ∷ peers_of i js) (peers_of i js)
      (λ other. kept k i j (contains j (peers_of i js)) (contains j js) (ground arith) (to, from))
      (λ same.
        left_out k i j (contains j (peers_of i js)) (contains j js) (ground arith) (to, from))

length-peers_of-apart : (start n i : ℕ) → i ≤ start → length (peers_of i (ids start n)) ≡ n
unfolding peers_of
length-peers_of-apart start zero i h = refl
length-peers_of-apart start (suc n) i h =
    let rest = length-peers_of-apart (start + 1) n i (omega arith) in ground arith

length-peers_of : (start n i : ℕ) → Within start n i → length (peers_of i (ids start n)) + 1 ≡ n
unfolding peers_of
length-peers_of start zero i (low, high) = absurd (omega arith)
length-peers_of start (suc n) i (low, high) = elim (Bool-cases (nat_beq (1 + start) i)) [
  | inl same ↦ let rest = length-peers_of-apart (start + 1) n i (ground arith) in ground arith
  | inr other ↦
      let rest = length-peers_of (start + 1) n i (ground arith, omega arith) in ground arith
]

-- In a mesh of `count` nodes, the peers file of a node from 1 to `count` has `count` lines less one,
-- and it names `j` exactly if `j` is a node and another one; the nodes are the numbers from 1 to
-- `count`.
pub peers_of_lem :
    (count i : ℕ)
    → 0 < i
    → i ≤ count
    → (length (peers_of i (node_ids count)) + 1 ≡ count)
      × ((j : ℕ)
          → (contains j (peers_of i (node_ids count)) ≡ true)
            ↔ ((contains j (node_ids count) ≡ true) × (j ≢ i)))
      × ((j : ℕ) → (contains j (node_ids count) ≡ true) ↔ ((0 < j) × (j ≤ count)))
unfolding node_ids
peers_of_lem count i low high = (
  length-peers_of 0 count i (low, omega arith),
  (λ j. contains-peers_of i j (ids 0 count)),
  (λ j.
      let (to, from) = contains-ids 0 count j in
      ((λ h. let (l, u) = to h in (l, omega arith)), λ (l, u). from (l, omega arith))),
)
