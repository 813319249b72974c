-- ===== src/Tests/Numbers.antt =====
-- A small arithmetic to run the code with: the integers and NaN. Literals with a fraction are rounded
-- up, quotients are truncated, and the sine and the cosine are 0;
-- the logarithm changes nothing.
use pound_drever_hall.Common.{
  ◌+◌, ◌-◌, ◌*◌, ◌/◌, ◌^◌, ◌≡◌, refl, Bool, true, false, Option, none, some, List, [], ◌∷◌, Text,
  codes, arith, ◌==◌, if◌then◌else◌,
}
use pound_drever_hall.Common.Int.{
  ℤ, pos, pos_part, neg_part, neg_ℤ, sub_ℕ, ◌+ℤ◌, ◌-ℤ◌, leb_ℤ, ltb_ℤ, eq_ℤ,
}
use pound_drever_hall.Python.Number.{int_of, show_int, show_int-first, int_of-show_int}
use pound_drever_hall.Python.Float.{Float, HasNan}
use pound_drever_hall.Fir.Design.Laws.{IsOrdered}

abbrev pub Real : Type 0
Real = Option ℤ

abbrev map_real : (ℤ → ℤ) → Real → Real
map_real f none = none
map_real f (some a) = some (f a)

abbrev zip_real : (ℤ → ℤ → ℤ) → Real → Real → Real
zip_real f (some a) (some b) = some (f a b)
zip_real f _ _ = none

abbrev test_real : (ℤ → ℤ → Bool) → Real → Real → Bool
test_real f (some a) (some b) = f a b
test_real f _ _ = false

abbrev abs_ℤ : ℤ → ℤ
abs_ℤ a = pos (pos_part a + neg_part a)

abbrev mul_ℤ : ℤ → ℤ → ℤ
mul_ℤ a b =
    sub_ℕ (pos_part a * pos_part b + neg_part a * neg_part b)
      (pos_part a * neg_part b + neg_part a * pos_part b)

abbrev quotient_ℤ : ℤ → ℤ → ℤ
quotient_ℤ a b =
    let q = (pos_part a + neg_part a) / (pos_part b + neg_part b) in
    if (neg_part a == 0)
    then (if neg_part b == 0 then pos q else neg_ℤ (pos q))
    else (if neg_part b == 0 then neg_ℤ (pos q) else pos q)

abbrev sum_real : List Real → Real
sum_real [] = some (pos 0)
sum_real (x ∷ xs) = zip_real (λ a b. a +ℤ b) x (sum_real xs)

abbrev pub show_real : Real → Text
show_real none = codes "nan"
show_real (some n) = show_int n

abbrev pub is_nan_text : Text → Bool
is_nan_text [] = false
is_nan_text (c ∷ s) = c == b'n'

abbrev read_real : Text → Option Real
read_real s =
    if is_nan_text s then some none else elim (int_of s) [ none ↦ none | some n ↦ some (some n) ]

show_int-not_nan : (n : ℤ) → is_nan_text (show_int n) ≡ false
show_int-not_nan n = let (c, s, e, digit) = show_int-first n in rw e (ground arith)

pub read_real-show_real : (x : Real) → read_real (show_real x) ≡ some x
read_real-show_real none = refl
read_real-show_real (some n) = rw (show_int-not_nan n, int_of-show_int n)

instance abbrev pub real_float : Float Real
real_float = record {
  nan = none;
  pi = some (pos 3);
  of_int = λ n. some n;
  decimal = λ m e. some (pos ((m + 10 ^ e - 1) / 10 ^ e));
  neg = map_real neg_ℤ;
  abs = map_real abs_ℤ;
  add = zip_real (λ a b. a +ℤ b);
  sub = zip_real (λ a b. a -ℤ b);
  mul = zip_real mul_ℤ;
  quotient = zip_real quotient_ℤ;
  sin = λ _. some (some (pos 0));
  cos = λ _. some (some (pos 0));
  log10 = λ x. some x;
  is_finite = elim [ none ↦ false | some a ↦ true ];
  sum = sum_real;
  round = λ x. x;
  lt = test_real ltb_ℤ;
  le = test_real leb_ℤ;
  eq = test_real eq_ℤ;
  parse = read_real;
  repr = show_real;
  fixed = λ _. show_real;
}

-- The same with a sine that is 6 everywhere.
abbrev pub steep_float : Float Real
steep_float = record real_float { sin = λ _. some (some (pos 6)) }

pub real-HasNan : HasNan real_float
real-HasNan = record {
  lt-nan = elim [ none ↦ refl | some a ↦ refl ];
  nan-lt = λ x. refl;
  le-nan = elim [ none ↦ refl | some a ↦ refl ];
  nan-le = λ x. refl;
  eq-nan = elim [ none ↦ refl | some a ↦ refl ];
  abs-nan = refl;
  quotient-nan = elim [ none ↦ refl | some a ↦ refl ];
}

le_trans :
    (x y z : Real) → real_float.le x y ≡ true → real_float.le y z ≡ true → real_float.le x z ≡ true
le_trans x y z h k = ground arith

not-lt→le :
    (x y : Real)
    → real_float.le x x ≡ true
    → real_float.le y y ≡ true
    → real_float.lt x y ≡ false
    → real_float.le y x ≡ true
not-lt→le x y h k l = ground arith

lt→le : (x y : Real) → real_float.lt x y ≡ true → real_float.le x y ≡ true
lt→le x y h = ground arith

le-false→lt :
    (x y : Real)
    → real_float.le x x ≡ true
    → real_float.le y y ≡ true
    → real_float.le x y ≡ false
    → real_float.lt y x ≡ true
le-false→lt x y h k l = ground arith

pub real-IsOrdered : IsOrdered real_float
real-IsOrdered = record {
  le_trans = le_trans;
  not-lt→le = not-lt→le;
  lt→le = lt→le;
  le-false→lt = le-false→lt;
}
