-- ===== src/Scripts/SineTable/Laws.antt =====
-- The values fit the width of the table, and its lines are read back.
use native.Mathlib.Nat.{pow-le-pow_right}
use native.Mathlib.Omega.{pow_step}
use pound_drever_hall.Common.{
  ℕ, zero, suc, ◌+◌, ◌-◌, ◌*◌, ◌/◌, ◌%◌, ◌^◌, ◌≤◌, ◌<◌, ◌≡◌, refl, ap, ◌∙◌, Bool, true, false, some,
  List, [], ◌∷◌, map, Text, arith, length, All, dec_lt, lt→ltb, not_lt→ltb,
}
use pound_drever_hall.Common.Int.{ℤ, pos, negsuc, pos_part}
use pound_drever_hall.Python.Str.{is_space, IsPlain, file_lines, file_lines-line}
use pound_drever_hall.Python.Number.{scan}
use pound_drever_hall.Python.Result.{ok, >>=-eq-ok}
use pound_drever_hall.Python.Float.{Float}
use pound_drever_hall.Fir.Design.{num, math}
use pound_drever_hall.Scripts.SineTable.{
  midpoint, rounded, clamp, entry, entries, gen_qtr_wave, hex_char, hex_digits_of, zeros, hex,
  hex_digits, table, write_table,
}

clamp-le : (maxv : ℕ) (v : ℤ) → clamp maxv v ≤ maxv
unfolding clamp
clamp-le maxv (pos v) = ground arith
clamp-le maxv (negsuc v) = omega arith

module _ (F : Type 0) ⦃fl : Float F⦄ where
  entry-le : (maxv n k : ℕ) {v : ℕ} → entry F maxv n k ≡ ok v → v ≤ maxv
  unfolding entry
  entry-le maxv n k {v} h =
      let (theta, _, h₁) = >>=-eq-ok (midpoint k n) _ h in
      let (s, _, h₂) = >>=-eq-ok (math (fl.sin theta)) _ h₁ in
      let (i, _, h₃) = >>=-eq-ok (rounded (fl.mul s (num maxv))) _ h₂ in
      let e : clamp maxv i ≡ v = cc in rw (← e) (clamp-le maxv i)

  entries-bounds :
      (maxv n k left : ℕ) {vals : List ℕ}
      → entries F maxv n k left ≡ ok vals
      → (length vals ≡ left) × All (λ v. v ≤ maxv) vals
  unfolding entries
  entries-bounds maxv n k zero {vals} h = let e : [] ≡ vals = cc in rw (← e) (refl, tt)
  entries-bounds maxv n k (suc left) {vals} h =
      let (v, here, h₁) = >>=-eq-ok (entry F maxv n k) _ h in
      let (rest, there, h₂) = >>=-eq-ok (entries F maxv n (k + 1) left) _ h₁ in
      let e : (v ∷ rest) ≡ vals = cc in
      let (size, small) = entries-bounds maxv n (k + 1) left there in
      rw (← e) (ap suc size, (entry-le maxv n k here, small))

  -- A quarter wave that is computed has an entry for each of the `n` rounds, and every entry fits
  -- into `dw` bits.
  pub gen_qtr_wave-bounds :
      (n : ℤ) (dw : ℕ) {vals : List ℕ}
      → gen_qtr_wave F n (pos dw) ≡ ok vals
      → (length vals ≡ pos_part n) × All (λ v. v ≤ 2 ^ dw - 1) vals
  unfolding gen_qtr_wave
  gen_qtr_wave-bounds n dw h = entries-bounds (2 ^ dw - 1) (pos_part n) 0 (pos_part n) h

scan_hex :
    (after : Bool) (n d : ℕ) (s : Text)
    → d < 16
    → scan 16 after n (hex_char d ∷ s) ≡ scan 16 true (n * 16 + d) s
unfolding scan
scan_hex after n d s h = ground arith

scan-hex_digits_of :
    (fuel v : ℕ) (after : Bool) (out : Text)
    → v < fuel
    → scan 16 after 0 (hex_digits_of fuel v out) ≡ scan 16 true v out
unfolding hex_digits_of
scan-hex_digits_of zero v after out h = absurd (omega arith)
scan-hex_digits_of (suc fuel) v after out h = elim (dec_lt v 16) [
  | yes small ↦
      rw (lt→ltb v 16 small)
        (scan_hex after 0 v out small ∙ ap (λ k. scan 16 true k out) (omega arith))
  | no large ↦ rw (not_lt→ltb v 16 large) (
      scan-hex_digits_of fuel (v / 16) after (hex_char (v % 16) ∷ out) (omega arith)
      ∙ scan_hex true (v / 16) (v % 16) out (omega arith)
      ∙ ap (λ k. scan 16 true k out) (omega arith))
]

scan-zeros :
    (width v : ℕ) (after : Bool) (s : Text)
    → ((after : Bool) → scan 16 after 0 s ≡ some v)
    → scan 16 after 0 (zeros width s) ≡ some v
scan-zeros zero v after s h = h after
scan-zeros (suc width) v after s h =
    scan_hex after 0 0 (zeros width s) (omega arith) ∙ scan-zeros width v true s h

scan_end : (v : ℕ) → scan 16 true v [] ≡ some v
unfolding scan
scan_end v = refl

-- The digits of a line are read back as its value.
scan-hex : (width v : ℕ) → scan 16 false 0 (hex width v) ≡ some v
unfolding hex
scan-hex width v =
    scan-zeros _ v false _ λ after. scan-hex_digits_of (suc v) v after [] (omega arith) ∙ scan_end v

hex_digits_of-length :
    (fuel v width : ℕ) (out : Text)
    → v < fuel
    → v < 16 ^ suc width
    → length (hex_digits_of fuel v out) ≤ suc width + length out
unfolding hex_digits_of
hex_digits_of-length zero v width out h k = absurd (omega arith)
hex_digits_of-length (suc fuel) v zero out h k =
    let small : v < 16 = omega (arith, pow_step 16 0) in rw (lt→ltb v 16 small) (omega arith)
hex_digits_of-length (suc fuel) v (suc width) out h k = elim (dec_lt v 16) [
  | yes small ↦ rw (lt→ltb v 16 small) (omega arith)
  | no large ↦ rw (not_lt→ltb v 16 large) (
      omega (
        arith,
        hex_digits_of-length fuel (v / 16) width (hex_char (v % 16) ∷ out) (omega arith)
            (omega (arith, pow_step 16 (suc width))),
      ))
]

length-zeros : (n : ℕ) (s : Text) → length (zeros n s) ≡ n + length s
length-zeros zero s = omega arith
length-zeros (suc n) s = omega (arith, length-zeros n s)

sixteen_pow : (k : ℕ) → 16 ^ k ≡ 2 ^ (k * 4)
sixteen_pow zero = refl
sixteen_pow (suc k) =
    let e : suc k * 4 ≡ suc (suc (suc (suc (k * 4)))) = omega arith in
    rw e (
      omega (
        arith,
        sixteen_pow k,
        pow_step 16 k,
        pow_step 2 (k * 4),
        pow_step 2 (suc (k * 4)),
        pow_step 2 (suc (suc (k * 4))),
        pow_step 2 (suc (suc (suc (k * 4)))),
      ))

-- A value of `dw` bits fits into the digits of a line.
fits_digits : (dw v : ℕ) → v ≤ 2 ^ dw - 1 → v < 16 ^ hex_digits dw
fits_digits dw v h =
    let two : 0 < 2 = omega arith in
    rw (sixteen_pow (hex_digits dw)) (
      omega (
        arith,
        h,
        pow-le-pow_right {n = 2} two {i = 0} {j = dw} (omega arith),
        pow-le-pow_right {n = 2} two {i = dw} {j = hex_digits dw * 4} (omega arith),
      ))

-- Every line has the digits that the width of the table asks for.
hex-length : (dw v : ℕ) → 1 ≤ dw → v ≤ 2 ^ dw - 1 → length (hex (hex_digits dw) v) ≡ hex_digits dw
unfolding hex
hex-length dw v h k =
    let width = hex_digits dw in
    let s = hex_digits_of (suc v) v [] in
    let e : width ≡ suc (width - 1) = omega arith in
    let fits : v < 16 ^ suc (width - 1) = rw (← e) (fits_digits dw v k) in
    omega (
      arith,
      length-zeros (width - length s) s,
      hex_digits_of-length (suc v) v (width - 1) [] (omega arith) fits,
    )

hex_digits_of-IsPlain : (fuel v : ℕ) (out : Text) → IsPlain out → IsPlain (hex_digits_of fuel v out)
unfolding hex_digits_of is_space
hex_digits_of-IsPlain zero v out p = p
hex_digits_of-IsPlain (suc fuel) v out p =
    ground (arith, hex_digits_of-IsPlain fuel (v / 16) (hex_char (v % 16) ∷ out))

zeros-IsPlain : (n : ℕ) (s : Text) → IsPlain s → IsPlain (zeros n s)
unfolding is_space
zeros-IsPlain zero s p = p
zeros-IsPlain (suc n) s p = (refl, zeros-IsPlain n s p)

hex-IsPlain : (width v : ℕ) → IsPlain (hex width v)
unfolding hex
hex-IsPlain width v = zeros-IsPlain _ _ (hex_digits_of-IsPlain (suc v) v [] tt)

-- The lines of the file are the entries, each in its digits.
file_lines-table :
    (dw : ℕ) (vals : List ℕ)
    → 1 ≤ dw
    → All (λ v. v ≤ 2 ^ dw - 1) vals
    → (map (scan 16 false 0) (file_lines (table dw vals)) ≡ map some vals)
      × All (λ line. length line ≡ hex_digits dw) (file_lines (table dw vals))
unfolding table file_lines
file_lines-table dw [] h p = (refl, tt)
file_lines-table dw (v ∷ vals) h (p, ps) =
    let line = hex (hex_digits dw) v in
    let (values, widths) = file_lines-table dw vals h ps in
    rw (file_lines-line line (table dw vals) (hex-IsPlain _ v))
      (rw (scan-hex (hex_digits dw) v) (ap (λ t. some v ∷ t) values), (hex-length dw v h p, widths))

module _ (F : Type 0) ⦃fl : Float F⦄ where
  -- A table of entries of at least one bit that is written has the entries of the wave as its
  -- lines, in this order: each line has ceil(dw / 4) characters, and they are the entry's
  -- hexadecimal digits.
  pub write_table-lines :
      (n : ℤ) (dw : ℕ) {content : Text}
      → 1 ≤ dw
      → write_table F n dw ≡ ok content
      → (vals : List ℕ) × (gen_qtr_wave F n (pos dw) ≡ ok vals)
        × (map (scan 16 false 0) (file_lines content) ≡ map some vals)
        × All (λ line. length line ≡ hex_digits dw) (file_lines content)
  unfolding write_table
  write_table-lines n dw {content} h k =
      let (vals, made, e) = >>=-eq-ok (gen_qtr_wave F n (pos dw)) _ k in
      let same : table dw vals ≡ content = cc in
      let (values, widths) = file_lines-table dw vals h (gen_qtr_wave-bounds F n dw made).1 in
      (vals, made, rw same at values, rw same at widths)
