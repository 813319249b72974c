-- ===== src/Scripts/FirFreq/Laws.antt =====
-- The address bits are enough for the taps, and no more than that.
use native.Mathlib.Omega.{pow_step}
use pound_drever_hall.Common.{
  ℕ, zero, suc, ◌+◌, ◌-◌, ◌/◌, ◌^◌, ◌≤◌, ◌<◌, ◌≡◌, refl, max, true, arith, dec_lt, lt→ltb,
  not_lt→ltb, leb,
}
use pound_drever_hall.Scripts.FirFreq.{bit_length, address_width}

bit_length_zero : (fuel : ℕ) → bit_length fuel 0 ≡ 0
unfolding bit_length
bit_length_zero zero = refl
bit_length_zero (suc fuel) = refl

-- A number is below 2 to its bit length, and a positive one is not below half of that.
bit_length-bounds :
    (fuel n : ℕ)
    → n ≤ fuel
    → (n < 2 ^ bit_length fuel n) × (0 < n → 2 ^ (bit_length fuel n - 1) ≤ n)
unfolding bit_length
bit_length-bounds zero n h = (omega arith, λ p. absurd (omega arith))
bit_length-bounds (suc fuel) n h = elim (dec_lt 0 n) [
  | no p ↦ rw (not_lt→ltb 0 n p) (omega arith, λ q. absurd (p q))
  | yes p ↦
      let b = bit_length fuel (n / 2) in
      let (below, above) = bit_length-bounds fuel (n / 2) (omega arith) in
      rw (lt→ltb 0 n p)
        (omega (arith, below, pow_step 2 b), λ q. half b p (λ e. rw e (bit_length_zero fuel)) above)
]
  where
    half :
        (b : ℕ)
        → 0 < n
        → (n / 2 ≡ 0 → b ≡ 0)
        → (0 < n / 2 → 2 ^ (b - 1) ≤ n / 2)
        → 2 ^ (suc b - 1) ≤ n
    half zero p small above = omega arith
    half (suc b) p small above = elim (dec_lt 0 (n / 2)) [
      | yes q ↦
          let outer : suc (suc b) - 1 ≡ suc b = omega arith in
          let inner : suc b - 1 ≡ b = omega arith in
          let a : 2 ^ b ≤ n / 2 = rw inner at above q in rw outer (omega (arith, a, pow_step 2 b))
      | no q ↦ absurd (omega (arith, small (omega arith)))
    ]

-- The width that is passed to the simulation has an address for every tap, and with one bit less
-- there would be too few, for a filter of more than one tap.
pub address_width-bounds :
    (ntaps : ℕ)
    → 1 < ntaps
    → (ntaps ≤ 2 ^ address_width ntaps) × (2 ^ (address_width ntaps - 1) < ntaps)
unfolding address_width
address_width-bounds ntaps h =
    let least : leb 1 ntaps ≡ true = ground arith in
    let same : ntaps - 1 + 0 ≡ ntaps - 1 = omega arith in
    rw (least, same)
      (widths (bit_length (ntaps - 1) (ntaps - 1)) (bit_length-bounds _ _ (omega arith)))
  where
    widths :
        (b : ℕ)
        → (ntaps - 1 < 2 ^ b) × (0 < ntaps - 1 → 2 ^ (b - 1) ≤ ntaps - 1)
        → (ntaps ≤ 2 ^ max 1 b) × (2 ^ (max 1 b - 1) < ntaps)
    widths zero (below, above) = absurd (omega arith)
    widths (suc b) (below, above) =
        let e : max 1 (suc b) ≡ suc b = omega arith in
        rw e (omega (arith, below), omega (arith, above (omega arith)))
