-- ===== src/Board/Calls/Runs.antt =====
-- The board runs what a panel calls.
use pound_drever_hall.Common.{
  ◌≤◌, ◌≡◌, refl, subst, Bool, true, ◌&&◌, some, [], ◌∷◌, map, Text, codes, ltb, length, All, arith,
}
use pound_drever_hall.Common.Int.{pos_part}
use pound_drever_hall.Python.Result.{ok}
use pound_drever_hall.Python.Float.{Float}
use pound_drever_hall.Api.Transport.{World, Outside}
use pound_drever_hall.Api.Transport.Laws.{Sent}
use pound_drever_hall.Api.Analysis.Numeric.{Numeric}
use pound_drever_hall.Gui.Check.{
  Call, reset_fpga, get_adc, set_dac, set_led, config_io, set_nco, set_rotation, config_demod,
  set_fir_coeffs, set_pid, sweep_ramp,
}
use pound_drever_hall.Api.Commands.{command}
use pound_drever_hall.Gui.Calls.{call_api}
use pound_drever_hall.Board.Context.{CLib}
use pound_drever_hall.Board.Context.Laws.{IsWord}
use pound_drever_hall.Board.Context.Commands.{Prints, IsUint}
use pound_drever_hall.Board.Dispatch.{Entry, cmd_entry, cmds, find_entry, Runs, command-Runs}
use pound_drever_hall.Board.Calls.{
  name_of, floats_of, uints_of, arguments, packet_text, HasCoeffs, call_api-Sent,
}

abbrev is_word : Text → Bool
is_word [] = true
is_word (c ∷ s) = ltb 10 c && is_word s

is_word-IsWord : (s : Text) → is_word s ≡ true → IsWord s
is_word-IsWord [] h = tt
is_word-IsWord (c ∷ s) h = (ground arith, is_word-IsWord s (ground arith))

-- The size of a call: what the buffers of the board hold.
pub record Fits {F : Type 0} ⦃fl : Float F⦄ (call : Call F) : Type 0 where
  pub coeffs : HasCoeffs call
  pub floats : length (floats_of call) ≤ 64
  pub uints : All IsUint (uints_of call)
  pub size : length (packet_text call) ≤ 1024

-- The entry of a command.
abbrev entry_of : {F : Type 0} → ⦃fl : Float F⦄ → Call F → Entry
entry_of reset_fpga = cmd_entry (codes "reset_fpga") 0 0 0
entry_of get_adc = cmd_entry (codes "get_adc") 0 0 0
entry_of (set_dac v sel) = cmd_entry (codes "set_dac") 1 0 1
entry_of (set_led v) = cmd_entry (codes "set_led") 0 0 1
entry_of (config_io d1 d2 pid) = cmd_entry (codes "config_io") 0 0 3
entry_of (set_nco freq shift en) = cmd_entry (codes "set_nco") 2 0 1
entry_of (set_rotation theta) = cmd_entry (codes "set_rotation") 1 0 0
entry_of (config_demod ref in_sel alpha) = cmd_entry (codes "config_demod") 0 0 3
entry_of (set_fir_coeffs coeffs sel) = cmd_entry (codes "set_fir") 0 0 1
entry_of (set_pid p) = cmd_entry (codes "set_pid") 4 0 4
entry_of (sweep_ramp v0 v1 pts sel delay mode) = cmd_entry (codes "sweep_ramp") 2 0 4
entry_of _ = cmd_entry (codes "get_frame") 0 0 2

-- The entry is found by its name and asks for no more numbers than the call sends.
pub record IsEntry {F : Type 0} ⦃fl : Float F⦄ (call : Call F) (e : Entry) : Type 0 where
  pub named : e.name ≡ name_of call
  pub found : find_entry e.name cmds ≡ some e
  pub word : is_word e.name ≡ true
  pub short : length e.name ≤ 255
  pub required_floats : e.required_floats ≤ length (floats_of call)
  pub required_ints : e.required_ints ≤ 0
  pub required_uints : e.required_uints ≤ length (uints_of call)
  pub uints : length (uints_of call) ≤ 10

entry_of-IsEntry : {F : Type 0} ⦃fl : Float F⦄ (call : Call F) → IsEntry call (entry_of call)
unfolding find_entry
entry_of-IsEntry call = elim call as (λ k. IsEntry k (entry_of k)) [
  | reset_fpga ↦ record {
    named = refl;
    found = refl;
    word = refl;
    short = omega arith;
    required_floats = omega arith;
    required_ints = omega arith;
    required_uints = omega arith;
    uints = omega arith;
  }
  | _ ↦ record {
    named = refl;
    found = refl;
    word = refl;
    short = omega arith;
    required_floats = omega arith;
    required_ints = omega arith;
    required_uints = omega arith;
    uints = omega arith;
  }
]

module _ {F G : Type 0} ⦃fl : Float F⦄ (c : CLib G) {narrow : F → G}
    (prints : Prints fl c narrow) where
  pub call-Runs :
      (call : Call F)
      → Fits call
      → Runs c
          (packet_text call)
          (name_of call)
          (map narrow (floats_of call))
          (map pos_part (uints_of call))
  call-Runs call fits =
      let e = entry_of-IsEntry call in
      subst
        (λ name.
          length (command name (arguments call)) ≤ 1024
          → Runs c (command name (arguments call)) name (map narrow (floats_of call))
              (map pos_part (uints_of call)))
        e.named
        (command-Runs c prints (entry_of call) (floats_of call) (uints_of call) e.found
          (is_word-IsWord _ e.word) e.short e.required_floats e.required_ints e.required_uints
          fits.floats e.uints fits.uints)
        fits.size

  -- From the panels to the board: a call that returns and whose text fits the buffers of the board
  -- has put one packet on the wire, to the server that the globals name, and of that packet the board
  -- runs the command of the call, with each of its numbers: the integers as they are, the floats as
  -- the nearest `float`.
  pub call_api-Runs :
      (out : Outside F) (np : Numeric F) (call : Call F) (w : World) {w' : World}
      → Fits call
      → call_api out np call w ≡ (ok tt, w')
      → Sent w (packet_text call) w'
        × Runs c
            (packet_text call)
            (name_of call)
            (map narrow (floats_of call))
            (map pos_part (uints_of call))
  call_api-Runs out np call w fits h =
      (call_api-Sent out np call w fits.coeffs h, call-Runs call fits)
