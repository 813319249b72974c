-- ===== src/Board/Dispatch.antt =====
-- core/sw/server.c: `gCmds` and `dispatch_command`. The handlers drive registers, so that a command
-- that runs is given as its entry.
use pound_drever_hall.Common.{
  ℕ, ◌≤◌, ◌≡◌, refl, none, some, Option, List, [], ◌∷◌, map, Text, codes, ltb, text_eq, length,
  length-map, All, ◌++◌, if◌then◌else◌, arith,
}
use pound_drever_hall.Common.Int.{ℤ, pos_part}
use pound_drever_hall.Python.Float.{Float}
use pound_drever_hall.Api.Commands.{command}
use pound_drever_hall.Board.Context.{CLib, Context, inbuff, load_context}
use pound_drever_hall.Board.Context.Laws.{IsWord}
use pound_drever_hall.Board.Context.Commands.{
  Prints, IsUint, float_part, uint_part, load_context-command,
}

-- `cmd_entry_t`, of which `func` is left out.
pub record Entry : Type 0 where
  pub name : Text
  pub required_floats : ℕ
  pub required_ints : ℕ
  pub required_uints : ℕ

abbrev pub cmd_entry : Text → ℕ → ℕ → ℕ → Entry
cmd_entry name floats ints uints = record {
  name = name;
  required_floats = floats;
  required_ints = ints;
  required_uints = uints;
}

-- `gCmds`
abbrev pub cmds : List Entry
cmds =
    cmd_entry (codes "set_led") 0 0 1
    ∷ cmd_entry (codes "reset_fpga") 0 0 0
    ∷ cmd_entry (codes "set_dac") 1 0 1
    ∷ cmd_entry (codes "get_adc") 0 0 0
    ∷ cmd_entry (codes "check_signed") 0 0 1
    ∷ cmd_entry (codes "set_rotation") 1 0 0
    ∷ cmd_entry (codes "get_frame") 0 0 2
    ∷ cmd_entry (codes "test_frame") 0 0 1
    ∷ cmd_entry (codes "set_pid") 4 0 4
    ∷ cmd_entry (codes "set_fir") 0 0 1
    ∷ cmd_entry (codes "set_nco") 2 0 1
    ∷ cmd_entry (codes "config_io") 0 0 3
    ∷ cmd_entry (codes "config_demod") 0 0 3
    ∷ cmd_entry (codes "sweep_ramp") 2 0 4
    ∷ []

-- The first entry with the name.
unfoldable pub find_entry : Text → List Entry → Option Entry
find_entry name [] = none
find_entry name (e ∷ es) =
    let rest = find_entry name es in if text_eq name e.name then some e else rest

pub data Dispatch : Type 0 where
  no_cmd float_arg_mismatch int_arg_mismatch uint_arg_mismatch : Dispatch
  -- DISPATCH_CMD_OK, where the function of the entry is called
  runs : Entry → Dispatch

module _ {G : Type 0} where
  unfoldable pub check_args : Context G → Entry → Dispatch
  check_args ctx e =
      if ltb (length ctx.float_args) e.required_floats
      then float_arg_mismatch
      else if ltb (length ctx.int_args) e.required_ints
      then int_arg_mismatch
      else if ltb (length ctx.uint_args) e.required_uints
      then uint_arg_mismatch
      else runs e

  unfoldable pub dispatch_command : Context G → Dispatch
  dispatch_command ctx = elim (find_entry ctx.name cmds) [
    | none ↦ no_cmd
    | some e ↦ check_args ctx e
  ]

-- What the board runs: the entry, with the numbers of the command.
pub record Runs {G : Type 0} (c : CLib G) (sent name : Text) (fs : List G) (us : List ℕ)
    : Type 0 where
  pub context : Context G
  pub entry : Entry
  pub loaded : load_context c (inbuff sent) ≡ some context
  pub dispatched : dispatch_command context ≡ runs entry
  pub named : entry.name ≡ name
  pub float_args : context.float_args ≡ fs
  pub uint_args : context.uint_args ≡ us

module _ {G : Type 0} where
  dispatch_command-entry :
      (ctx : Context G) (e : Entry)
      → find_entry ctx.name cmds ≡ some e
      → e.required_floats ≤ length ctx.float_args
      → e.required_ints ≤ length ctx.int_args
      → e.required_uints ≤ length ctx.uint_args
      → dispatch_command ctx ≡ runs e
  unfolding dispatch_command check_args
  dispatch_command-entry ctx e found floats ints uints = rw (dispatch_command, found) (ground arith)

module _ {F G : Type 0} ⦃fl : Float F⦄ (c : CLib G) {narrow : F → G}
    (prints : Prints fl c narrow) where
  -- A command with the name of an entry and as many numbers as the entry asks for is run with them.
  pub command-Runs :
      (e : Entry) (fs : List F) (us : List ℤ)
      → find_entry e.name cmds ≡ some e
      → IsWord e.name
      → length e.name ≤ 255
      → e.required_floats ≤ length fs
      → e.required_ints ≤ 0
      → e.required_uints ≤ length us
      → length fs ≤ 64
      → length us ≤ 10
      → All IsUint us
      → length (command e.name (float_part fs ++ uint_part us)) ≤ 1024
      → Runs c
          (command e.name (float_part fs ++ uint_part us))
          e.name
          (map narrow fs)
          (map pos_part us)
  command-Runs e fs us found word short f i u nf nu fits size = record {
    context = _;
    entry = e;
    loaded = load_context-command c prints e.name fs us word (omega arith) nf nu fits size;
    dispatched =
        dispatch_command-entry _ e found (omega (arith, length-map narrow fs)) (omega arith)
          (omega (arith, length-map pos_part us));
    named = refl;
    float_args = refl;
    uint_args = refl;
  }
