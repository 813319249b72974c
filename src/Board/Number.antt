-- ===== src/Board/Number.antt =====
-- core/sw/server.c: the numbers that `strtol` and `strtoul` read, on a machine with a `long` of 32
-- bits, and how they read what Python prints.
use pound_drever_hall.Common.{
  ℕ, zero, suc, ◌+◌, ◌-◌, ◌*◌, ◌/◌, ◌%◌, ◌^◌, ◌<◌, ◌≡◌, refl, ap, sym, ◌∙◌, Bool, true, false, ◌&&◌,
  ◌||◌, Option, none, some, [], ◌∷◌, ◌++◌, Text, leb, ltb, ◌==◌, if◌then◌else◌, arith, dec_lt,
  lt→ltb, not_lt→ltb,
}
use pound_drever_hall.Common.Int.{ℤ, pos, negsuc, neg_ℤ}
use pound_drever_hall.Python.Pattern.{is_digit}
use pound_drever_hall.Python.Number.{digits, show_nat, show_int, StartsDigit, digits-StartsDigit}

-- `isspace`
abbrev c_space : ℕ → Bool
c_space c = (leb 9 c && leb c 13) || c == 32

-- The digits at the front behind the value `n`, and what stands behind them.
unfoldable pub read_digits : ℕ → Text → ℕ × Text
read_digits n [] = (n, [])
read_digits n (c ∷ s) =
    let more = read_digits (n * 10 + (c - b'0')) s in if is_digit c then more else (n, c ∷ s)

-- At least one digit.
abbrev magnitude : Text → Option (ℕ × Text)
magnitude [] = none
magnitude (c ∷ s) = if is_digit c then some (read_digits 0 (c ∷ s)) else none

abbrev with_sign : Bool → Option (ℕ × Text) → Option ((Bool × ℕ) × Text)
with_sign b none = none
with_sign b (some (n, s)) = some ((b, n), s)

-- A number with its sign: whether it has a minus, and its magnitude.
unfoldable pub read_number : Text → Option ((Bool × ℕ) × Text)
read_number [] = none
read_number (c ∷ s) =
    let rest = read_number s in
    if c_space c
    then rest
    else if c == b'-'
    then with_sign true (magnitude s)
    else if c == b'+'
    then with_sign false (magnitude s)
    else with_sign false (magnitude (c ∷ s))

abbrev long_max : ℕ
long_max = 2 ^ 31 - 1

abbrev ulong_max : ℕ
ulong_max = 2 ^ 32 - 1

abbrev clamp_long : Bool × ℕ → ℤ
clamp_long (true, n) = if ltb (2 ^ 31) n then neg_ℤ (pos (2 ^ 31)) else neg_ℤ (pos n)
clamp_long (false, n) = if ltb long_max n then pos long_max else pos n

-- A number with a minus wraps around.
abbrev clamp_ulong : Bool × ℕ → ℕ
clamp_ulong (minus, n) =
    if ltb ulong_max n then ulong_max else if minus then (2 ^ 32 - n) % 2 ^ 32 else n

-- `strtol(p, &end, 10)` and `strtoul(p, &end, 10)`: the number and what `end` points to, or `none`
-- where `end == p`.
unfoldable pub strtol : Text → Option (ℤ × Text)
strtol s = elim (read_number s) [ none ↦ none | some (x, end) ↦ some (clamp_long x, end) ]

unfoldable pub strtoul : Text → Option (ℕ × Text)
strtoul s = elim (read_number s) [ none ↦ none | some (x, end) ↦ some (clamp_ulong x, end) ]

read_digits_digit :
    (n d : ℕ) (s : Text) → d < 10 → read_digits n ((b'0' + d) ∷ s) ≡ read_digits (n * 10 + d) s
unfolding read_digits
read_digits_digit n d s h = ground arith

read_digits-digits :
    (fuel n : ℕ) (out : Text) → n < fuel → read_digits 0 (digits fuel n out) ≡ read_digits n out
unfolding digits
read_digits-digits zero n out h = absurd (omega arith)
read_digits-digits (suc fuel) n out h = elim (dec_lt n 10) [
  | yes small ↦
      rw (lt→ltb n 10 small)
        (read_digits_digit 0 n out small ∙ ap (λ k. read_digits k out) (omega arith))
  | no large ↦ rw (not_lt→ltb n 10 large) (
      read_digits-digits fuel (n / 10) ((b'0' + n % 10) ∷ out) (omega arith)
      ∙ read_digits_digit (n / 10) (n % 10) out (omega arith)
      ∙ ap (λ k. read_digits k out) (omega arith))
]

digits-append : (fuel n : ℕ) (s t : Text) → digits fuel n (s ++ t) ≡ digits fuel n s ++ t
unfolding digits
digits-append zero n s t = refl
digits-append (suc fuel) n s t = ground (arith, digits-append fuel (n / 10) ((b'0' + n % 10) ∷ s) t)

-- No digit comes next.
abbrev pub Stops : Text → Type 0
Stops [] = Unit
Stops (c ∷ s) = is_digit c ≡ false

read_digits-Stops : (n : ℕ) (s : Text) → Stops s → read_digits n s ≡ (n, s)
unfolding read_digits
read_digits-Stops n [] h = refl
read_digits-Stops n (c ∷ s) h = rw h

read_number-StartsDigit :
    (s : Text) → StartsDigit s → read_number s ≡ with_sign false (some (read_digits 0 s))
unfolding read_number
read_number-StartsDigit [] d = absurd d
read_number-StartsDigit (c ∷ s) d = ground arith

read_number-show_nat :
    (n : ℕ) (s : Text) → Stops s → read_number (show_nat n ++ s) ≡ some ((false, n), s)
unfolding show_nat
read_number-show_nat n s h =
    ap read_number (sym (digits-append (suc n) n [] s))
    ∙ read_number-StartsDigit _ (digits-StartsDigit (suc n) n s (omega arith))
    ∙ ap (λ r. with_sign false (some r))
        (read_digits-digits (suc n) n s (omega arith) ∙ read_digits-Stops n s h)

abbrev pub sign_of : ℤ → Bool × ℕ
sign_of (pos n) = (false, n)
sign_of (negsuc n) = (true, suc n)

magnitude-StartsDigit : (s : Text) → StartsDigit s → magnitude s ≡ some (read_digits 0 s)
magnitude-StartsDigit [] d = absurd d
magnitude-StartsDigit (c ∷ s) d = ground arith

read_number_minus : (s : Text) → read_number (b'-' ∷ s) ≡ with_sign true (magnitude s)
unfolding read_number
read_number_minus s = refl

-- Every integer that Python prints is read, up to what stands behind it.
pub read_number-show_int :
    (i : ℤ) (s : Text) → Stops s → read_number (show_int i ++ s) ≡ some (sign_of i, s)
unfolding show_int show_nat
read_number-show_int (pos n) s h = read_number-show_nat n s h
read_number-show_int (negsuc n) s h =
    read_number_minus (show_nat (suc n) ++ s)
    ∙ ap (with_sign true) (
        ap magnitude (sym (digits-append (suc (suc n)) (suc n) [] s))
        ∙ magnitude-StartsDigit _ (digits-StartsDigit (suc (suc n)) (suc n) s (omega arith))
        ∙ ap some (
            read_digits-digits (suc (suc n)) (suc n) s (omega arith)
            ∙ read_digits-Stops (suc n) s h))

strtoul-eq-read :
    (t : Text) {x : Bool × ℕ} {s : Text}
    → read_number t ≡ some (x, s)
    → strtoul t ≡ some (clamp_ulong x, s)
unfolding strtoul
strtoul-eq-read t e = rw (strtoul, e)

-- An integer from 0 to 2 ^ 32 - 1 that Python prints is read back, up to what stands behind it.
pub strtoul-show_int :
    (n : ℕ) (s : Text) → n < 2 ^ 32 → Stops s → strtoul (show_int (pos n) ++ s) ≡ some (n, s)
unfolding show_int
strtoul-show_int n s h p =
    strtoul-eq-read _ (read_number-show_nat n s p) ∙ ap (λ k. some (k, s)) (ground arith)
