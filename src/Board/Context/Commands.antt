-- ===== src/Board/Context/Commands.antt =====
-- Every command of client/pdh_api/api.py is read as its name with its numbers.
use mathlib.Core.List.{append_assoc, append-nil}
use pound_drever_hall.Common.{
  ℕ, ◌<◌, ◌≤◌, ◌^◌, ◌≡◌, refl, ap, sym, ◌∙◌, false, ◌==◌, none, some, List, [], ◌∷◌, ◌++◌, map,
  Text, codes, length, All, All-append, arith, length-append, take,
}
use pound_drever_hall.Common.Int.{ℤ, pos, negsuc, pos_part}
use pound_drever_hall.Python.Number.{show_int}
use pound_drever_hall.Python.Float.{Float}
use pound_drever_hall.Api.Commands.{join, command, floats, ints}
use pound_drever_hall.Board.Number.{strtoul, strtol, strtoul-show_int}
use pound_drever_hall.Board.Context.{
  CLib, inbuff, find_key, parse_list, command_name, load_context, args_at,
}
use pound_drever_hall.Board.Context.Laws.{
  IsWord, take-all, inbuff-line, tail_lines, find_next, find_key-other, find_key-here,
  first_line-append, Ends, Ends-Stops, parse_list-join, join-IsWord, show_int-IsWord,
  tail_lines-Closes,
}

-- `strtof` reads what `repr` prints, up to the character behind it, as the nearest `float`.
pub record Prints {F G : Type 0} (fl : Float F) (c : CLib G) (narrow : F → G) : Type 0 where
  pub strtof-repr : (x : F) (t : Text) → Ends t → c.strtof (fl.repr x ++ t) ≡ some (narrow x, t)
  pub repr-IsWord : (x : F) → IsWord (fl.repr x)

-- An integer that fits `uint32_t`.
abbrev pub IsUint : ℤ → Type 0
IsUint (pos n) = n < 2 ^ 32
IsUint (negsuc n) = ⊥

strtoul-IsUint :
    (u : ℤ) (t : Text) → IsUint u → Ends t → strtoul (show_int u ++ t) ≡ some (pos_part u, t)
strtoul-IsUint (pos n) t h e = strtoul-show_int n t h (Ends-Stops t e)
strtoul-IsUint (negsuc n) t h e = absurd h

All-tt : {A : Type 0} (xs : List A) → All (λ _. Unit {0}) xs
All-tt [] = tt
All-tt (x ∷ xs) = (tt, All-tt xs)

IsWord-positive : (s : Text) → IsWord s → All (λ c. 0 < c) s
IsWord-positive [] h = tt
IsWord-positive (c ∷ s) (h, hs) = (omega arith, IsWord-positive s hs)

lines-positive : (ls : List Text) → All IsWord ls → All (λ c. 0 < c) (tail_lines ls)
lines-positive [] h = tt
lines-positive (l ∷ ls) (h, hs) =
    (omega arith, All-append _ l _ (IsWord-positive l h) (lines-positive ls hs))

uint_line-IsWord : (us : List ℤ) → All IsUint us → IsWord (codes "U:" ++ join (map show_int us))
uint_line-IsWord us h =
    (omega arith, ((omega arith), join-IsWord show_int IsUint (λ u _. show_int-IsWord u) us h))

abbrev uint_lines : List ℤ → List Text
uint_lines [] = []
uint_lines (u ∷ us) = (codes "U:" ++ join (map show_int (u ∷ us))) ∷ []

-- The line of the integers of a command that has any.
abbrev pub uint_part : List ℤ → Text
uint_part [] = []
uint_part (u ∷ us) = ints (u ∷ us)

-- The line of the floats of a command that has any.
abbrev pub float_part : {F : Type 0} ⦃fl : Float F⦄ → List F → Text
float_part [] = []
float_part (x ∷ xs) = floats (x ∷ xs)

module _ {F G : Type 0} ⦃fl : Float F⦄ (c : CLib G) {narrow : F → G}
    (prints : Prints fl c narrow) where
  abbrev float_lines : List F → List Text
  float_lines [] = []
  float_lines (x ∷ xs) = (codes "F:" ++ join (map fl.repr (x ∷ xs))) ∷ []

  abbrev arg_lines : List F → List ℤ → List Text
  arg_lines fs us = float_lines fs ++ uint_lines us

  uints-read :
      (us : List ℤ)
      → All IsUint us
      → length us ≤ 10
      → args_at (parse_list strtoul 10) (find_next (codes "U:") (uint_lines us)) ≡ map pos_part us
  uints-read [] h p = refl
  uints-read (u ∷ us) h p =
      ap (args_at (parse_list strtoul 10))
        (find_key-here b'U' (codes ":") (join (map show_int (u ∷ us)) ++ []))
      ∙ parse_list-join strtoul show_int pos_part IsUint strtoul-IsUint 10 u us [] h (omega arith)
          tt

  floats-IsWord : (xs : List F) → IsWord (join (map fl.repr xs))
  floats-IsWord xs =
      join-IsWord fl.repr (λ _. Unit {0}) (λ x _. prints.repr-IsWord x) xs (All-tt xs)

  float_line-IsWord : (xs : List F) → IsWord (codes "F:" ++ join (map fl.repr xs))
  float_line-IsWord xs = (omega arith, ((omega arith), floats-IsWord xs))

  find_uints :
      (fs : List F) (us : List ℤ)
      → find_next (codes "U:") (arg_lines fs us) ≡ find_next (codes "U:") (uint_lines us)
  find_uints [] us = refl
  find_uints (x ∷ xs) us =
      find_key-other b'U' (codes ":") b'F' (codes ":" ++ join (map fl.repr (x ∷ xs)))
        (uint_lines us) refl (omega arith) ((omega arith), floats-IsWord (x ∷ xs))

  -- No line has a key that starts with another letter.
  find_other :
      (k : ℕ) (key : Text) (us : List ℤ)
      → (b'U' == k) ≡ false
      → All IsUint us
      → find_next (k ∷ key) (uint_lines us) ≡ none
  find_other k key [] n h = refl
  find_other k key (u ∷ us) n h =
      find_key-other k key b'U' (codes ":" ++ join (map show_int (u ∷ us))) [] n (omega arith)
        ((omega arith), join-IsWord show_int IsUint (λ u _. show_int-IsWord u) (u ∷ us) h)

  find_ints :
      (fs : List F) (us : List ℤ) → All IsUint us → find_next (codes "I:") (arg_lines fs us) ≡ none
  find_ints [] us h = find_other b'I' (codes ":") us refl h
  find_ints (x ∷ xs) us h =
      find_key-other b'I' (codes ":") b'F' (codes ":" ++ join (map fl.repr (x ∷ xs)))
        (uint_lines us) refl (omega arith) ((omega arith), floats-IsWord (x ∷ xs))
      ∙ find_other b'I' (codes ":") us refl h

  floats-read :
      (fs : List F) (us : List ℤ)
      → All IsUint us
      → length fs ≤ 64
      → args_at (parse_list c.strtof 64) (find_next (codes "F:") (arg_lines fs us)) ≡ map narrow fs
  floats-read [] us h p =
      ap (args_at (parse_list c.strtof 64)) (find_other b'F' (codes ":") us refl h)
  floats-read (x ∷ xs) us h p =
      ap (λ l. args_at (parse_list c.strtof 64) (find_key l (codes "F:")))
        (append_assoc (codes "F:") _ (tail_lines (uint_lines us)))
      ∙ ap (args_at (parse_list c.strtof 64)) (
          find_key-here b'F' (codes ":")
            (join (map fl.repr (x ∷ xs)) ++ tail_lines (uint_lines us)))
      ∙ parse_list-join c.strtof fl.repr narrow (λ _. Unit {0}) (λ x t _. prints.strtof-repr x t) 64
          x xs (tail_lines (uint_lines us)) (All-tt (x ∷ xs)) (omega arith)
          (tail_lines-Closes (uint_lines us))

  abbrev text : Text → List F → List ℤ → Text
  text name fs us = codes "CMD:" ++ (name ++ tail_lines (arg_lines fs us))

  parts-lines :
      (fs : List F) (us : List ℤ)
      → 10 ∷ (float_part fs ++ uint_part us) ≡ tail_lines (arg_lines fs us) ++ (10 ∷ [])
  parts-lines [] [] = refl
  parts-lines [] (u ∷ us) = simp append_assoc
  parts-lines (x ∷ xs) [] = simp (append_assoc, append-nil)
  parts-lines (x ∷ xs) (u ∷ us) = simp append_assoc

  text-lines :
      (name : Text) (fs : List F) (us : List ℤ)
      → command name (float_part fs ++ uint_part us) ≡ text name fs us ++ (10 ∷ [])
  text-lines name fs us =
      ap (λ l. codes "CMD:" ++ (name ++ l)) (parts-lines fs us)
      ∙ ap (λ l. codes "CMD:" ++ l)
          (sym (append_assoc name (tail_lines (arg_lines fs us)) (10 ∷ [])))

  arg_lines-IsWord : (fs : List F) (us : List ℤ) → All IsUint us → All IsWord (arg_lines fs us)
  arg_lines-IsWord [] [] g = tt
  arg_lines-IsWord [] (u ∷ us) g = (uint_line-IsWord (u ∷ us) g, tt)
  arg_lines-IsWord (x ∷ xs) [] g = (float_line-IsWord (x ∷ xs), tt)
  arg_lines-IsWord (x ∷ xs) (u ∷ us) g =
      (float_line-IsWord (x ∷ xs), (uint_line-IsWord (u ∷ us) g, tt))

  text-positive :
      (name : Text) (fs : List F) (us : List ℤ)
      → IsWord name
      → All IsUint us
      → All (λ c. 0 < c) (text name fs us)
  text-positive name fs us h g = (
    omega arith,
    (
      omega arith,
      (
        omega arith,
        (
          omega arith,
          All-append _ name _ (IsWord-positive name h)
              (lines-positive (arg_lines fs us) (arg_lines-IsWord fs us g)),
        ),
      ),
    ),
  )

  load_context-named :
      (t cmd : Text)
      → find_key t (codes "CMD:") ≡ some cmd
      → load_context c t
        ≡ some record {
          name = command_name cmd;
          float_args = args_at (parse_list c.strtof 64) (find_key t (codes "F:"));
          int_args = args_at (parse_list strtol 10) (find_key t (codes "I:"));
          uint_args = args_at (parse_list strtoul 10) (find_key t (codes "U:"));
        }
  unfolding load_context
  load_context-named t cmd e = rw (load_context, e)

  -- A command of at most 1024 characters whose name is short and whose integers fit `uint32_t`
  -- reaches the board as the name, the floats, each as the nearest `float`, and the integers,
  -- with none left out.
  pub load_context-command :
      (name : Text) (fs : List F) (us : List ℤ)
      → IsWord name
      → length name < 256
      → length fs ≤ 64
      → length us ≤ 10
      → All IsUint us
      → let sent = command name (float_part fs ++ uint_part us) in
        length sent ≤ 1024
        → load_context c (inbuff sent)
          ≡ some record {
            name = name;
            float_args = map narrow fs;
            int_args = [];
            uint_args = map pos_part us;
          }
  load_context-command name fs us word short n m g size =
      let ls = arg_lines fs us in
      let sent = text-lines name fs us in
      let arrives : inbuff (command name (float_part fs ++ uint_part us)) ≡ text name fs us =
        ap inbuff sent
        ∙ inbuff-line (text name fs us) (text-positive name fs us word g)
            (omega (arith, size, ap length sent, length-append (text name fs us) (10 ∷ []))) in
      let other : (k : ℕ)
          → (b'C' == k) ≡ false
          → find_key (text name fs us) (k ∷ codes ":") ≡ find_next (k ∷ codes ":") ls =
        λ k e.
          find_key-other k (codes ":") b'C' (codes "MD:" ++ name) ls e (omega arith)
            ((omega arith), ((omega arith), ((omega arith), word))) in
      let named : find_key (text name fs us) (codes "CMD:") ≡ some (name ++ tail_lines ls) =
        find_key-here b'C' (codes "MD:") (name ++ tail_lines ls) in
      let whole : command_name (name ++ tail_lines ls) ≡ name =
        ap (take 255) (first_line-append name ls word) ∙ take-all 255 name (omega arith) in
      let float_args =
        ap (args_at (parse_list c.strtof 64)) (other b'F' refl) ∙ floats-read fs us g n in
      let int_args = ap (args_at (parse_list strtol 10)) (other b'I' refl ∙ find_ints fs us g) in
      let uint_args =
        ap (args_at (parse_list strtoul 10)) (other b'U' refl ∙ find_uints fs us)
        ∙ uints-read us g m in
      ap (load_context c) arrives
      ∙ load_context-named (text name fs us) (name ++ tail_lines ls) named
      ∙ (λ i. some record {
        name = whole i;
        float_args = float_args i;
        int_args = int_args i;
        uint_args = uint_args i;
      })
