-- ===== src/Board/Guards/Bounds.antt =====
-- Bounds that the handlers of the board keep, and `float`s that they refuse.
use pound_drever_hall.Common.{
  ℕ, ◌%◌, ◌^◌, ◌≤◌, ◌≡◌, refl, subst, Bool, true, false, ◌&&◌, some, none, List, [], ◌∷◌, map,
  codes, leb, All, arith, if◌then◌else◌,
}
use pound_drever_hall.Common.Int.{ℤ, ◌≤ℤ◌, pos, negsuc, pos_part}
use pound_drever_hall.Python.Float.{Float}
use pound_drever_hall.Api.Types
use pound_drever_hall.Api.Types.{
  DacDatSel, PidDatSel, DemodRefSel, DemodInSel, dac_dat_sel_enum, pid_dat_sel_enum,
  demod_ref_sel_enum, demod_in_sel_enum,
}
use pound_drever_hall.Gui.Check.{is_unit, whole}
use pound_drever_hall.Board.Context.Commands.{IsUint}
use pound_drever_hall.Board.Guards.{CFloat, uint32, beyond_one, any_beyond, guarded}

-- Rounding to the nearest `float` keeps the order, and 1 and -1 as they are.
pub record Rounds {F G : Type 0} (fl : Float F) (cf : CFloat G) (narrow : F → G) : Type 0 where
  pub monotone : (x y : F) → fl.le x y ≡ true → cf.lt (narrow y) (narrow x) ≡ false
  pub one : narrow (fl.of_int (pos 1)) ≡ cf.one
  pub minus_one : narrow (fl.neg (fl.of_int (pos 1))) ≡ cf.minus_one

pub uint32-pos_part : (us : List ℤ) → All IsUint us → map uint32 (map pos_part us) ≡ map pos_part us
uint32-pos_part [] h = refl
uint32-pos_part (pos n ∷ us) (h, hs) =
    let same : n % 2 ^ 32 ≡ n = omega (arith, h) in rw (same, uint32-pos_part us hs) refl
uint32-pos_part (negsuc n ∷ us) (h, hs) = absurd h

-- Both sides of a test that holds.
both-true : (a b : Bool) → (a && b) ≡ true → (a ≡ true) × (b ≡ true)
both-true a b h = ground arith

module _ {F G : Type 0} ⦃fl : Float F⦄ (cf : CFloat G) {narrow : F → G}
    (rounds : Rounds fl cf narrow) where
  -- What is in [-1, 1] is not refused as a `float`.
  pub unit-beyond_one : (x : F) → is_unit x ≡ true → beyond_one cf (narrow x) ≡ false
  unit-beyond_one x h =
      let (low, high) = both-true (fl.le (fl.neg (whole 1)) x) (fl.le x (whole 1)) h in
      let above : cf.lt cf.one (narrow x) ≡ false =
        subst (λ v. cf.lt v (narrow x) ≡ false) rounds.one (rounds.monotone x (whole 1) high) in
      let below : cf.lt (narrow x) cf.minus_one ≡ false =
        subst (λ v. cf.lt (narrow x) v ≡ false) rounds.minus_one
          (rounds.monotone (fl.neg (whole 1)) x low) in
      rw (above, below) refl

  pub unit-any_beyond :
      (xs : List F) → All (λ x. is_unit x ≡ true) xs → any_beyond cf (map narrow xs) ≡ false
  unit-any_beyond [] h = refl
  unit-any_beyond (x ∷ xs) (h, hs) = rw (unit-beyond_one x h, unit-any_beyond xs hs) refl

ramp_points :
    (pts : ℤ) (us : List ℕ)
    → pos 2 ≤ℤ pts
    → pts ≤ℤ pos 16384
    → (if leb 2 (pos_part pts) && leb (pos_part pts) 16384 then some (pos_part pts ∷ us) else none)
      ≡ some (pos_part pts ∷ us)
ramp_points pts us i j = ground arith

module _ {G : Type 0} (cf : CFloat G) (fs : List G) where
  pub led_args-ok : (n : ℕ) → n ≤ 255 → guarded cf (codes "set_led") fs (n ∷ []) ≡ some (n ∷ [])
  unfolding guarded
  led_args-ok n h = ground arith

  pub io_args-ok :
      (a b c : ℕ)
      → a ≤ 3
      → b ≤ 3
      → c ≤ 6
      → guarded cf (codes "config_io") fs (a ∷ b ∷ c ∷ []) ≡ some (a ∷ b ∷ c ∷ [])
  unfolding guarded
  io_args-ok a b c h i j = ground arith

  pub demod_args-ok :
      (a b n : ℕ)
      → a ≤ 1
      → b ≤ 6
      → n ≤ 15
      → guarded cf (codes "config_demod") fs (a ∷ b ∷ n ∷ []) ≡ some (a ∷ b ∷ n ∷ [])
  unfolding guarded
  demod_args-ok a b n h i j = ground arith

  pub pid_args-ok :
      (dec alpha sat en : ℤ)
      → dec ≤ℤ pos 16383
      → alpha ≤ℤ pos 15
      → sat ≤ℤ pos 31
      → let us = map pos_part (dec ∷ alpha ∷ sat ∷ en ∷ []) in
        guarded cf (codes "set_pid") fs us ≡ some us
  unfolding guarded
  pid_args-ok dec alpha sat en h i j = ground arith

module _ {G : Type 0} (cf : CFloat G) where
  pub ramp_args-ok :
      (v0 v1 : G) (pts : ℤ) (us : List ℕ)
      → beyond_one cf v0 ≡ false
      → beyond_one cf v1 ≡ false
      → pos 2 ≤ℤ pts
      → pts ≤ℤ pos 16384
      → guarded cf (codes "sweep_ramp") (v0 ∷ v1 ∷ []) (pos_part pts ∷ us)
        ≡ some (pos_part pts ∷ us)
  unfolding guarded
  ramp_args-ok v0 v1 pts us h k i j = rw (h, k) (ramp_points pts us i j)

pub dac_dat_value-le : (s : DacDatSel) → dac_dat_sel_enum.value s ≤ 3
dac_dat_value-le s = elim s as (λ k. dac_dat_sel_enum.value k ≤ 3) [
  | Types.register ↦ omega arith
  | _ ↦ omega arith
]

pub pid_dat_value-le : (s : PidDatSel) → pid_dat_sel_enum.value s ≤ 6
pid_dat_value-le s = elim s as (λ k. pid_dat_sel_enum.value k ≤ 6) [
  | Types.i_feed ↦ omega arith
  | _ ↦ omega arith
]

pub demod_ref_value-le : (s : DemodRefSel) → demod_ref_sel_enum.value s ≤ 1
demod_ref_value-le s = elim s as (λ k. demod_ref_sel_enum.value k ≤ 1) [
  | Types.nco1 ↦ omega arith
  | _ ↦ omega arith
]

pub demod_in_value-le : (s : DemodInSel) → demod_in_sel_enum.value s ≤ 6
demod_in_value-le s = elim s as (λ k. demod_in_sel_enum.value k ≤ 6) [
  | Types.nco1 ↦ omega arith
  | _ ↦ omega arith
]
