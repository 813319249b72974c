-- ===== src/Board/Guards.antt =====
-- core/sw/control/control.c: what the handlers do with their numbers before they write a register. A
-- `uint32_t` is a number below 2 ^ 32. The tests that `cmd_set_nco` makes of the stride and the shift
-- it computes, the limits of floats that are cut down, the comparison of what the hardware echoes, and
-- failures to open a log are left out.
pub mod Bounds
pub mod Laws
use pound_drever_hall.Common.{
  ℕ, ◌%◌, ◌^◌, ◌&&◌, ◌||◌, Bool, false, Option, none, some, List, [], ◌∷◌, map, Text, codes, leb,
  text_eq, if◌then◌else◌, min, max,
}

-- The comparison of `float`, and the constants 1.0f and -1.0f.
pub record CFloat (G : Type 0) : Type 0 where
  pub lt : G → G → Bool
  pub one : G
  pub minus_one : G

abbrev pub uint32 : ℕ → ℕ
uint32 n = n % 2 ^ 32

abbrev when : Bool → List ℕ → Option (List ℕ)
when test us = if test then some us else none

-- `cmd_set_led`
abbrev led_args : List ℕ → Option (List ℕ)
led_args (code ∷ us) = when (leb code 255) (code ∷ us)
led_args [] = none

-- `cmd_set_pid`, which cuts its integers down
abbrev pid_args : List ℕ → Option (List ℕ)
pid_args (dec ∷ alpha ∷ sat ∷ us) = some (min dec 0x3fff ∷ min alpha 15 ∷ min sat 31 ∷ us)
pid_args us = none

-- `cmd_get_frame`
abbrev frame_args : List ℕ → Option (List ℕ)
frame_args (dec ∷ us) = some (max dec 1 ∷ us)
frame_args [] = none

-- `cmd_config_io`
abbrev io_args : List ℕ → Option (List ℕ)
io_args (dac1 ∷ dac2 ∷ pid ∷ us) =
    when (leb dac1 3 && leb dac2 3 && leb pid 6) (dac1 ∷ dac2 ∷ pid ∷ us)
io_args us = none

-- `cmd_config_demod`, which keeps four bits of the smoothing
abbrev demod_args : List ℕ → Option (List ℕ)
demod_args (ref ∷ in_sel ∷ alpha ∷ us) =
    when (leb ref 1 && leb in_sel 6) (ref ∷ in_sel ∷ alpha % 16 ∷ us)
demod_args us = none

module _ {G : Type 0} (cf : CFloat G) where
  -- `v > 1.0f || v < -1.0f`
  abbrev pub beyond_one : G → Bool
  beyond_one v = cf.lt cf.one v || cf.lt v cf.minus_one

  abbrev pub any_beyond : List G → Bool
  any_beyond [] = false
  any_beyond (v ∷ vs) = beyond_one v || any_beyond vs

  -- `cmd_set_fir`, where all the floats are coefficients
  abbrev fir_args : List G → List ℕ → Option (List ℕ)
  fir_args coeffs (input_sel ∷ us) =
      if leb input_sel 3 then if any_beyond coeffs then none else some (input_sel ∷ us) else none
  fir_args coeffs [] = none

  -- `cmd_sweep_ramp`
  abbrev ramp_args : List G → List ℕ → Option (List ℕ)
  ramp_args (v0 ∷ v1 ∷ _) (points ∷ us) =
      if beyond_one v0 || beyond_one v1
      then none
      else when (leb 2 points && leb points 16384) (points ∷ us)
  ramp_args _ _ = none

  -- What a handler does with the `uint32_t`s of a command.
  unfoldable pub guarded : Text → List G → List ℕ → Option (List ℕ)
  guarded name fs us =
      if text_eq name (codes "set_led")
      then led_args us
      else if text_eq name (codes "set_pid")
      then pid_args us
      else if text_eq name (codes "set_fir")
      then fir_args fs us
      else if text_eq name (codes "config_io")
      then io_args us
      else if text_eq name (codes "config_demod")
      then demod_args us
      else if text_eq name (codes "sweep_ramp")
      then ramp_args fs us
      else if text_eq name (codes "get_frame")
      then frame_args us
      else some us

  -- The integers that a command goes on with, or `none` where it answers with a status of its own.
  abbrev pub handler_args : Text → List G → List ℕ → Option (List ℕ)
  handler_args name fs us = guarded name fs (map uint32 us)
