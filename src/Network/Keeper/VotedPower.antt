-- ===== src/Network/Keeper/VotedPower.antt =====
-- CalculateVotedPower is the sum of the powers at the set bits, or the error of a missing power.
use go_execution_abci.Prelude.{
  ℕ, zero, suc, ◌+◌, ◌*◌, ◌%◌, ◌<◌, ◌≡◌, refl, sym, ap, ◌∙◌, true, false, Option, none, some, arith,
  nat_eq, if◌then◌else◌, length, inl, inr, Bool-cases, Option-cases,
}
use go_execution_abci.Prelude.Int.{pos, u16_mod, u64_mod}
use go_execution_abci.Prelude.Map
use go_execution_abci.Prelude.Sums.{total, total-zero, total-suc_left, total-eq}
use go_execution_abci.Prelude.Exec.{ok, err}
use go_execution_abci.Network.Bitmap.{Bytes, is_set}
use go_execution_abci.Network.Types.{not_found, State}
use go_execution_abci.Network.Keeper.{get_validator_power, voted_power_loop, calculate_voted_power}

abbrev value_or_zero : Option ℕ → ℕ
value_or_zero none = 0
value_or_zero (some p) = p

-- What bit i adds: the power stored for the validator with that index, if the bit is set.
abbrev pub weight : State → Bytes → ℕ → ℕ
weight s bitmap i =
    if is_set bitmap (pos i) then value_or_zero (Map.get s.validator_power (i % u16_mod)) else 0

-- Every set bit from i on has a power.
abbrev pub HasPowers : State → Bytes → ℕ → Type 0
HasPowers s bitmap n =
    (i : ℕ)
    → i < n
    → is_set bitmap (pos i) ≡ true
    → (p : ℕ) × (Map.get s.validator_power (i % u16_mod) ≡ some p)

loop_shift :
    (s : State) (bitmap : Bytes) (rounds i : ℕ)
    → total (suc rounds) (λ j. weight s bitmap (i + j))
      ≡ weight s bitmap i + total rounds (λ j. weight s bitmap (i + 1 + j))
loop_shift s bitmap rounds i = omega (
  arith,
  total-suc_left rounds (λ j. weight s bitmap (i + j)),
  weight-eq (i + 0) i (omega arith),
  total-eq rounds (λ j. weight s bitmap (i + suc j)) (λ j. weight s bitmap (i + 1 + j))
      (λ j _. weight-eq (i + suc j) (i + 1 + j) (omega arith)),
)
  where
    weight-eq : (a b : ℕ) → a ≡ b → weight s bitmap a ≡ weight s bitmap b
    weight-eq a b e = ap (weight s bitmap) e

-- One round of the loop, in each of its cases.
module _ (s : State) (bitmap : Bytes) (rounds i acc : ℕ) where
  loop_off :
      is_set bitmap (pos i) ≡ false
      → voted_power_loop s bitmap (suc rounds) i acc ≡ voted_power_loop s bitmap rounds (i + 1) acc
  unfolding voted_power_loop
  loop_off off = rw (off, voted_power_loop)

  loop_on :
      (p : ℕ)
      → is_set bitmap (pos i) ≡ true
      → Map.get s.validator_power (i % u16_mod) ≡ some p
      → voted_power_loop s bitmap (suc rounds) i acc
        ≡ voted_power_loop s bitmap rounds (i + 1) ((acc + p) % u64_mod)
  unfolding voted_power_loop get_validator_power
  loop_on p on found = rw (on, found, voted_power_loop)

  loop_gone :
      is_set bitmap (pos i) ≡ true
      → Map.get s.validator_power (i % u16_mod) ≡ none
      → voted_power_loop s bitmap (suc rounds) i acc ≡ err not_found
  unfolding voted_power_loop get_validator_power
  loop_gone on missing = rw (on, missing, voted_power_loop)

weight_off :
    (s : State) (bitmap : Bytes) (i : ℕ) → is_set bitmap (pos i) ≡ false → weight s bitmap i ≡ 0
weight_off s bitmap i off = rw off

weight_on :
    (s : State) (bitmap : Bytes) (i p : ℕ)
    → is_set bitmap (pos i) ≡ true
    → Map.get s.validator_power (i % u16_mod) ≡ some p
    → weight s bitmap i ≡ p
weight_on s bitmap i p on found = rw (on, found)

loop-total :
    (s : State) (bitmap : Bytes) (rounds i acc : ℕ)
    → HasPowers s bitmap (i + rounds)
    → acc < u64_mod
    → voted_power_loop s bitmap rounds i acc
      ≡ ok ((acc + total rounds (λ j. weight s bitmap (i + j))) % u64_mod)
unfolding voted_power_loop
loop-total s bitmap zero i acc powers small =
    ap ok (omega (arith, total-zero (λ j. weight s bitmap (i + j))))
loop-total s bitmap (suc rounds) i acc powers small = elim (Bool-cases (is_set bitmap (pos i))) [
  | inl on ↦
      let (p, found) = powers i (omega arith) on in
      loop_on s bitmap rounds i acc p on found
      ∙ loop-total s bitmap rounds (i + 1) ((acc + p) % u64_mod) (λ j h. powers j (omega arith))
          (omega arith)
      ∙ ap ok (omega (arith, loop_shift s bitmap rounds i, weight_on s bitmap i p on found))
  | inr off ↦
      loop_off s bitmap rounds i acc off
      ∙ loop-total s bitmap rounds (i + 1) acc (λ j h. powers j (omega arith)) small
      ∙ ap ok (omega (arith, loop_shift s bitmap rounds i, weight_off s bitmap i off))
]

-- If a power is stored for each set bit, at its index as a uint16, the voted power is the sum of these
-- powers modulo 2^64.
pub calculate_voted_power-total :
    (s : State) (bitmap : Bytes)
    → HasPowers s bitmap (length bitmap * 8)
    → calculate_voted_power bitmap s ≡ ok (total (length bitmap * 8) (weight s bitmap) % u64_mod)
unfolding calculate_voted_power
calculate_voted_power-total s bitmap powers =
    let n : ℕ = length bitmap * 8 in
    loop-total s bitmap n 0 0 (λ i h. powers i (omega arith)) (omega arith)
    ∙ ap (λ (t : ℕ). ok (t % u64_mod))
        (omega (
          arith,
          total-eq n (λ j. weight s bitmap (0 + j)) (weight s bitmap)
              (λ j _. ap (weight s bitmap) {x = 0 + j} {y = j} (omega arith)),
        ))

loop-missing :
    (s : State) (bitmap : Bytes) (rounds i j acc : ℕ)
    → j < rounds
    → is_set bitmap (pos (i + j)) ≡ true
    → Map.get s.validator_power ((i + j) % u16_mod) ≡ none
    → voted_power_loop s bitmap rounds i acc ≡ err not_found
loop-missing s bitmap zero i j acc h on missing = absurd (omega arith)
loop-missing s bitmap (suc rounds) i zero acc h on missing =
    let e : i + 0 ≡ i = omega arith in
    loop_gone s bitmap rounds i acc (rw e at on) (rw e at missing)
loop-missing s bitmap (suc rounds) i (suc j) acc h on missing =
    let e : i + suc j ≡ i + 1 + j = omega arith in
    let rest : (a : ℕ) → voted_power_loop s bitmap rounds (i + 1) a ≡ err not_found =
      λ a. loop-missing s bitmap rounds (i + 1) j a (omega arith) (rw e at on) (rw e at missing) in
    elim (Bool-cases (is_set bitmap (pos i))) [
      | inr off ↦ loop_off s bitmap rounds i acc off ∙ rest acc
      | inl now ↦ elim (Option-cases (Map.get s.validator_power (i % u16_mod))) [
        | inl gone ↦ loop_gone s bitmap rounds i acc now gone
        | inr (p, found) ↦ loop_on s bitmap rounds i acc p now found ∙ rest ((acc + p) % u64_mod)
      ]
    ]

-- A set bit without a stored power is an error.
pub calculate_voted_power-missing :
    (s : State) (bitmap : Bytes) (i : ℕ)
    → i < length bitmap * 8
    → is_set bitmap (pos i) ≡ true
    → Map.get s.validator_power (i % u16_mod) ≡ none
    → calculate_voted_power bitmap s ≡ err not_found
unfolding calculate_voted_power
calculate_voted_power-missing s bitmap i h on missing =
    let e : i ≡ 0 + i = omega arith in
    loop-missing s bitmap (length bitmap * 8) 0 i 0 h (rw e at on) (rw e at missing)

-- The voted power reads the stored powers alone.
pub voted_power_frame :
    (s t : State) (bitmap : Bytes)
    → t.validator_power ≡ s.validator_power
    → calculate_voted_power bitmap t ≡ calculate_voted_power bitmap s
unfolding calculate_voted_power voted_power_loop
voted_power_frame s t bitmap same = go (length bitmap * 8) 0 0
  where
    lift :
        (i : ℕ) {o : Option ℕ} → Map.get s.validator_power i ≡ o → Map.get t.validator_power i ≡ o
    lift i e = rw same e

    go :
        (rounds i acc : ℕ)
        → voted_power_loop t bitmap rounds i acc ≡ voted_power_loop s bitmap rounds i acc
    go zero i acc = refl
    go (suc rounds) i acc = elim (Bool-cases (is_set bitmap (pos i))) [
      | inr off ↦
          loop_off t bitmap rounds i acc off
          ∙ go rounds (i + 1) acc
          ∙ sym (loop_off s bitmap rounds i acc off)
      | inl on ↦ elim (Option-cases (Map.get s.validator_power (i % u16_mod))) [
        | inl gone ↦
            loop_gone t bitmap rounds i acc on (lift (i % u16_mod) gone)
            ∙ sym (loop_gone s bitmap rounds i acc on gone)
        | inr (p, found) ↦
            loop_on t bitmap rounds i acc p on (lift (i % u16_mod) found)
            ∙ go rounds (i + 1) ((acc + p) % u64_mod)
            ∙ sym (loop_on s bitmap rounds i acc p on found)
      ]
    ]
