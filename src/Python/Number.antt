-- ===== src/Python/Number.antt =====
-- `int(s)`, `int(s, 0)` and the decimal print of an `int`. Digits are the ASCII ones.
use pound_drever_hall.Common.{
  ℕ, zero, suc, ◌+◌, ◌-◌, ◌*◌, ◌/◌, ◌%◌, ◌≤◌, ◌<◌, ◌≡◌, refl, ap, ◌∙◌, Bool, true, false, ◌&&◌,
  ◌||◌, Option, none, some, [], ◌∷◌, Text, ltb, leb, ◌==◌, if◌then◌else◌, arith, dec_lt, lt→ltb,
  not_lt→ltb,
}
use pound_drever_hall.Common.Int.{ℤ, pos, negsuc, neg_ℤ}
use pound_drever_hall.Python.Str.{is_space, IsPlain, strip, strip-plain}

-- The value of a digit or a letter.
abbrev value_of : ℕ → Option ℕ
value_of c =
    if leb b'0' c && leb c b'9'
    then some (c - b'0')
    else if leb b'a' c && leb c b'z'
    then some (c - b'a' + 10)
    else if leb b'A' c && leb c b'Z'
    then some (c - b'A' + 10)
    else none

abbrev digit : ℕ → ℕ → Option ℕ
digit base c = elim (value_of c) [ none ↦ none | some d ↦ if ltb d base then some d else none ]

-- One character of a literal: whether a digit has just been read, and the value so far. A single
-- underscore may stand between two digits.
abbrev scan_step : ℕ → Bool → ℕ → ℕ → Option (Bool × ℕ)
scan_step base after n c =
    if c == b'_'
    then if after then some (false, n) else none
    else elim (digit base c) [ none ↦ none | some d ↦ some (true, n * base + d) ]

unfoldable pub scan : ℕ → Bool → ℕ → Text → Option ℕ
scan base after n [] = if after then some n else none
scan base after n (c ∷ s) = elim (scan_step base after n c) [
  | none ↦ none
  | some (after', n') ↦ scan base after' n' s
]

abbrev decimal_digits : Text → Option ℕ
decimal_digits s = scan 10 false 0 s

abbrev signed : (Text → Option ℕ) → Text → Option ℤ
signed read [] = none
signed read (c ∷ s) =
    if c == b'-'
    then elim (read s) [ none ↦ none | some n ↦ some (neg_ℤ (pos n)) ]
    else if c == b'+'
    then elim (read s) [ none ↦ none | some n ↦ some (pos n) ]
    else elim (read (c ∷ s)) [ none ↦ none | some n ↦ some (pos n) ]

-- `int(s)`; `none` is the `ValueError`.
unfoldable pub int_of : Text → Option ℤ
int_of s = signed decimal_digits (strip s)

-- The digits behind a prefix such as `0x`, which an underscore may follow.
abbrev prefixed : ℕ → Text → Option ℕ
prefixed base [] = none
prefixed base (c ∷ s) = if c == b'_' then scan base false 0 s else scan base false 0 (c ∷ s)

abbrev only_zero : Option ℕ → Option ℕ
only_zero (some zero) = some 0
only_zero _ = none

abbrev literal : Text → Option ℕ
literal [] = none
literal (c ∷ []) = decimal_digits (c ∷ [])
literal (c ∷ d ∷ s) =
    if c == b'0'
    then if d == b'x' || d == b'X'
      then prefixed 16 s
      else if d == b'o' || d == b'O'
      then prefixed 8 s
      else if d == b'b' || d == b'B'
      then prefixed 2 s
      else only_zero (decimal_digits (c ∷ d ∷ s))
    else decimal_digits (c ∷ d ∷ s)

-- `int(s, 0)`: the base is read from the prefix, and a decimal literal has no leading zero.
unfoldable pub int_base0 : Text → Option ℤ
int_base0 s = signed literal (strip s)

-- The decimal digits of `n` in front of `out`, on fuel above `n`.
unfoldable pub digits : ℕ → ℕ → Text → Text
digits zero n out = out
digits (suc fuel) n out =
    let more = digits fuel (n / 10) ((b'0' + n % 10) ∷ out) in
    if ltb n 10 then (b'0' + n) ∷ out else more

unfoldable pub show_nat : ℕ → Text
show_nat n = digits (suc n) n []

unfoldable pub show_int : ℤ → Text
unfolding show_nat
show_int (pos n) = show_nat n
show_int (negsuc n) = b'-' ∷ show_nat (suc n)

scan_step_digit :
    (after : Bool) (n d : ℕ) → d < 10 → scan_step 10 after n (b'0' + d) ≡ some (true, n * 10 + d)
scan_step_digit after n d h = ground arith

scan_digit :
    (after : Bool) (n d : ℕ) (s : Text)
    → d < 10
    → scan 10 after n ((b'0' + d) ∷ s) ≡ scan 10 true (n * 10 + d) s
unfolding scan
scan_digit after n d s h = rw (scan_step_digit after n d h, scan)

scan-digits :
    (fuel n : ℕ) (after : Bool) (out : Text)
    → n < fuel
    → scan 10 after 0 (digits fuel n out) ≡ scan 10 true n out
unfolding digits
scan-digits zero n after out h = absurd (omega arith)
scan-digits (suc fuel) n after out h = elim (dec_lt n 10) [
  | yes small ↦
      rw (lt→ltb n 10 small)
        (scan_digit after 0 n out small ∙ ap (λ k. scan 10 true k out) (omega arith))
  | no large ↦ rw (not_lt→ltb n 10 large) (
      scan-digits fuel (n / 10) after ((b'0' + n % 10) ∷ out) (omega arith)
      ∙ scan_digit true (n / 10) (n % 10) out (omega arith)
      ∙ ap (λ k. scan 10 true k out) (omega arith))
]

scan_end : (n : ℕ) → scan 10 true n [] ≡ some n
unfolding scan
scan_end n = refl

-- The decimal digits of a number are read back.
scan-show_nat : (n : ℕ) → scan 10 false 0 (show_nat n) ≡ some n
unfolding show_nat
scan-show_nat n = scan-digits (suc n) n false [] (omega arith) ∙ scan_end n

digits-IsPlain : (fuel n : ℕ) (out : Text) → IsPlain out → IsPlain (digits fuel n out)
unfolding digits is_space
digits-IsPlain zero n out p = p
digits-IsPlain (suc fuel) n out p =
    ground (arith, digits-IsPlain fuel (n / 10) ((b'0' + n % 10) ∷ out))

-- The first character is a digit.
abbrev pub StartsDigit : Text → Type 0
StartsDigit [] = ⊥
StartsDigit (c ∷ s) = (b'0' ≤ c) × (c ≤ b'9')

pub digits-StartsDigit : (fuel n : ℕ) (out : Text) → n < fuel → StartsDigit (digits fuel n out)
unfolding digits
digits-StartsDigit zero n out h = absurd (omega arith)
digits-StartsDigit (suc fuel) n out h =
    ground (arith, digits-StartsDigit fuel (n / 10) ((b'0' + n % 10) ∷ out))

signed-digits :
    (s : Text)
    → StartsDigit s
    → (read : Text → Option ℕ) {n : ℕ} → read s ≡ some n
    → signed read s ≡ some (pos n)
signed-digits [] d read e = absurd d
signed-digits (c ∷ s) d read e = ground arith

show_nat-IsPlain : (n : ℕ) → IsPlain (show_nat n)
unfolding show_nat
show_nat-IsPlain n = digits-IsPlain (suc n) n [] tt

show_nat-StartsDigit : (n : ℕ) → StartsDigit (show_nat n)
unfolding show_nat
show_nat-StartsDigit n = digits-StartsDigit (suc n) n [] (omega arith)

pub show_int-IsPlain : (i : ℤ) → IsPlain (show_int i)
unfolding show_int is_space
show_int-IsPlain (pos n) = show_nat-IsPlain n
show_int-IsPlain (negsuc n) = (refl, show_nat-IsPlain (suc n))

signed-show_int : (i : ℤ) → signed decimal_digits (show_int i) ≡ some i
unfolding show_int
signed-show_int (pos n) =
    signed-digits (show_nat n) (show_nat-StartsDigit n) decimal_digits (scan-show_nat n)
signed-show_int (negsuc n) = rw (scan-show_nat (suc n)) (ground arith)

-- A print starts with a digit or a sign.
pub show_int-first : (i : ℤ) → (c : ℕ) × (s : Text) × (show_int i ≡ c ∷ s) × (c ≤ b'9')
unfolding show_int
show_int-first (pos n) = digit_first (show_nat n) (show_nat-StartsDigit n)
  where
    digit_first : (s : Text) → StartsDigit s → (c : ℕ) × (t : Text) × (s ≡ c ∷ t) × (c ≤ b'9')
    digit_first [] d = absurd d
    digit_first (c ∷ s) d = (c, s, refl, d.1)
show_int-first (negsuc n) = (b'-', show_nat (suc n), refl, omega arith)

-- `int` reads back what an `int` prints.
pub int_of-show_int : (i : ℤ) → int_of (show_int i) ≡ some i
unfolding int_of
int_of-show_int i = rw (strip-plain (show_int i) (show_int-IsPlain i)) (signed-show_int i)
