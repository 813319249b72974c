-- ===== src/Board/Context.antt =====
-- core/sw/server.c: `load_context`. A C string is a list of bytes without the NUL that ends it.
pub mod Laws
pub mod Commands
use pound_drever_hall.Common.{
  ℕ, zero, suc, ◌-◌, ◌%◌, ◌^◌, Bool, true, false, Option, none, some, List, [], ◌∷◌, map, Text,
  codes, ltb, ◌==◌, if◌then◌else◌, length, take,
}
use pound_drever_hall.Common.Int.{ℤ}
use pound_drever_hall.Python.Pattern.{after_prefix}
use pound_drever_hall.Board.Number.{strtol, strtoul}

-- What the server takes from the C library on its numbers of type `float`: `strtof`, with what `end`
-- points to or `none` where it is the start, and the print by "%f".
pub record CLib (G : Type 0) : Type 0 where
  pub strtof : Text → Option (G × Text)
  pub print_f : G → Text

-- The C string in a buffer: what stands before the first NUL.
unfoldable pub c_string : List ℕ → Text
c_string [] = []
c_string (c ∷ s) = let rest = c_string s in if c == 0 then [] else c ∷ rest

abbrev max_bytes : ℕ
max_bytes = 1024

abbrev without_last : {A : Type 0} → List A → List A
without_last [] = []
without_last (x ∷ []) = []
without_last (x ∷ y ∷ xs) = x ∷ without_last (y ∷ xs)

-- One `read` into the buffer, whose last byte is overwritten with NUL.
unfoldable pub inbuff : List ℕ → Text
inbuff sent = c_string (without_last (take max_bytes sent))

-- What stands behind the key on the first line that starts with it; the flag says whether a line
-- starts here.
unfoldable pub find_from : Bool → Text → Text → Option Text
find_from start key [] = none
find_from false key (c ∷ s) = find_from (c == 10) key s
find_from true key (c ∷ s) =
    let later = find_from (c == 10) key s in
    elim (after_prefix key (c ∷ s)) [ some rest ↦ some rest | none ↦ later ]

abbrev pub find_key : Text → Text → Option Text
find_key src key = find_from true key src

-- A number that has been read, with those behind the comma that follows it.
abbrev then_more : {A : Type 0} → (Text → List A) → Option (A × Text) → List A
then_more more none = []
then_more more (some (v, [])) = v ∷ []
then_more more (some (v, c ∷ s)) = let rest = more s in v ∷ (if c == b',' then rest else [])

-- Numbers with commas between them, up to `max` of them.
unfoldable pub parse_list : {A : Type 0} → (Text → Option (A × Text)) → ℕ → Text → List A
parse_list read zero line = []
parse_list read (suc max) line = then_more (parse_list read max) (read line)

-- The part of `cmd_ctx_t` that a command fills; `num_floats` and its like are the lengths.
pub record Context (G : Type 0) : Type 0 where
  pub name : Text
  pub float_args : List G
  pub int_args : List ℤ
  pub uint_args : List ℕ

abbrev command_size : ℕ
command_size = 256

abbrev args_at : {A : Type 0} → (Text → List A) → Option Text → List A
args_at parse none = []
args_at parse (some line) = parse line

-- The text up to the end of its line, cut to the size of the field.
unfoldable pub first_line : Text → Text
first_line [] = []
first_line (c ∷ s) = let rest = first_line s in if c == 10 then [] else c ∷ rest

abbrev command_name : Text → Text
command_name cmd = take (command_size - 1) (first_line cmd)

-- `load_context`; `none` is LOAD_CTX_LOAD_CMD_FAIL.
unfoldable pub load_context : {G : Type 0} → CLib G → Text → Option (Context G)
load_context c text = elim (find_key text (codes "CMD:")) [
  | none ↦ none
  | some cmd ↦ some record {
    name = command_name cmd;
    float_args = args_at (parse_list c.strtof 64) (find_key text (codes "F:"));
    int_args = args_at (parse_list strtol 10) (find_key text (codes "I:"));
    uint_args = args_at (parse_list strtoul 10) (find_key text (codes "U:"));
  }
]
