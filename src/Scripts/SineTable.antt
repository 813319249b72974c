-- ===== src/Scripts/SineTable.antt =====
-- core/hw/generate_lut.py: the quarter wave of the sine and the file that the RTL reads.
pub mod Laws
use pound_drever_hall.Common.{
  ℕ, zero, suc, ◌+◌, ◌-◌, ◌*◌, ◌/◌, ◌%◌, ◌^◌, Option, none, some, List, [], ◌∷◌, ◌++◌, Text, codes,
  ltb, if◌then◌else◌, length,
}
use pound_drever_hall.Common.Int.{ℤ, pos, negsuc, pos_part}
use pound_drever_hall.Python.Result.{Result, ok, err, value_error, bad_literal, math_domain, ◌>>=◌}
use pound_drever_hall.Python.Float.{Float}
use pound_drever_hall.Fir.Design.{num, divide, math}

-- if v < 0: v = 0; if v > maxv: v = maxv
unfoldable pub clamp : ℕ → ℤ → ℕ
clamp maxv (negsuc v) = 0
clamp maxv (pos v) = if ltb maxv v then maxv else v

module _ {F : Type 0} ⦃fl : Float F⦄ where
  -- `int(round(x))`, which raises at NaN and at an infinity
  abbrev rounded : F → Result ℤ
  rounded x = elim (fl.round x) [ none ↦ err (bad_literal (fl.repr x)) | some v ↦ ok v ]

  -- (k + 0.5) * (math.pi / 2.0) / n
  abbrev midpoint : ℕ → ℕ → Result F
  midpoint k n = divide fl.pi (num 2) >>= λ quarter.
      divide (fl.mul (fl.add (num k) (fl.decimal 5 1)) quarter) (num n)

module _ (F : Type 0) ⦃fl : Float F⦄ where
  -- One round of the loop.
  unfoldable pub entry : ℕ → ℕ → ℕ → Result ℕ
  entry maxv n k = do
    theta ← midpoint {F = F} k n
    s ← math (fl.sin theta)
    v ← rounded (fl.mul s (num maxv))
    ok (clamp maxv v)

  -- Rounds `k` up to `k + left - 1`.
  unfoldable pub entries : ℕ → ℕ → ℕ → ℕ → Result (List ℕ)
  entries maxv n k zero = ok []
  entries maxv n k (suc left) =
      entry maxv n k >>= λ v. entries maxv n (k + 1) left >>= λ vals. ok (v ∷ vals)

  -- `1 << dw` raises for a negative `dw`, and `range(n)` is empty for a negative `n`.
  unfoldable pub gen_qtr_wave : ℤ → ℤ → Result (List ℕ)
  gen_qtr_wave n (negsuc dw) = err (value_error (codes "negative shift count"))
  gen_qtr_wave n (pos dw) = entries (2 ^ dw - 1) (pos_part n) 0 (pos_part n)

abbrev hex_char : ℕ → ℕ
hex_char d = if ltb d 10 then b'0' + d else b'A' + (d - 10)

-- The hexadecimal digits of `v` in front of `out`, on fuel above `v`.
unfoldable pub hex_digits_of : ℕ → ℕ → Text → Text
hex_digits_of zero v out = out
hex_digits_of (suc fuel) v out =
    let more = hex_digits_of fuel (v / 16) (hex_char (v % 16) ∷ out) in
    if ltb v 16 then hex_char v ∷ out else more

abbrev zeros : ℕ → Text → Text
zeros zero s = s
zeros (suc n) s = b'0' ∷ zeros n s

-- f"{v:0{width}X}"
unfoldable pub hex : ℕ → ℕ → Text
hex width v = let s = hex_digits_of (suc v) v [] in zeros (width - length s) s

-- (dw + 3) // 4
abbrev pub hex_digits : ℕ → ℕ
hex_digits dw = (dw + 3) / 4

-- What `main` writes: a line for each value.
unfoldable pub table : ℕ → List ℕ → Text
table dw [] = []
table dw (v ∷ vals) = hex (hex_digits dw) v ++ (10 ∷ table dw vals)

-- The file's text, if the wave can be computed.
unfoldable pub write_table : (F : Type 0) → ⦃fl : Float F⦄ → ℤ → ℕ → Result Text
write_table F n dw = gen_qtr_wave F n (pos dw) >>= λ vals. ok (table dw vals)
