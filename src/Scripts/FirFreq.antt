-- ===== src/Scripts/FirFreq.antt =====
-- core/hw/sim/run_fir_freq.py: the coefficients that are simulated, the call of make, and the tables
-- of the response. The design is `design_for_sim` of Fir/Design.
pub mod Laws
use pound_drever_hall.Common.{
  ℕ, zero, suc, ◌+◌, ◌/◌, max, Bool, true, false, Option, none, some, List, [], ◌∷◌, ◌++◌, map,
  Text, codes, ltb, if◌then◌else◌, drop,
}
use pound_drever_hall.Common.Int.{ℤ, pos, pos_part, neg_part, sub_ℕ, neg_ℤ}
use pound_drever_hall.Python.Number.{show_int}
use pound_drever_hall.Python.Result.{Result, ok, err, math_domain, ◌>>=◌, ◌>>◌}
use pound_drever_hall.Python.Float.{Float}
use pound_drever_hall.Fir.Design.{num, design_for_sim, math}
use pound_drever_hall.Scripts.Runs.{Make, check_return, setting}
use pound_drever_hall.Scripts.FirCoeffs.{coeff_text}

-- `n.bit_length()` for n >= 0, on fuel not below `n`.
unfoldable pub bit_length : ℕ → ℕ → ℕ
bit_length zero n = 0
bit_length (suc fuel) n = let rest = bit_length fuel (n / 2) in if ltb 0 n then suc rest else 0

-- max(1, (ntaps - 1).bit_length()), where `bit_length` reads the magnitude.
unfoldable pub address_width : ℕ → ℕ
address_width ntaps =
    let last = sub_ℕ ntaps 1 in let n = pos_part last + neg_part last in max 1 (bit_length n n)

-- What json holds of the response after the run.
pub record FreqResults (F : Type 0) : Type 0 where
  pub freqs_ideal : List F
  pub h_ideal : List F
  pub freqs_rtl : List F
  pub h_rtl : List F

module _ {F : Type 0} ⦃fl : Float F⦄ where
  -- _db
  unfoldable pub db : F → Result F
  db v = do
    l ← math (fl.log10 (if fl.lt v (fl.decimal 1 6) then fl.decimal 1 6 else v))
    ok (fl.mul (num 20) l)

  unfoldable pub fir_arguments :
      (sim makefiles python coeff_csv results_json : Text) → F → ℕ → List Text
  fir_arguments sim makefiles python coeff_csv results_json corner ntaps =
      codes "make"
      ∷ codes "-f"
      ∷ codes "Makefile.fir_freq"
      ∷ setting (codes "SIM") sim
      ∷ setting (codes "COCOTB_MAKEFILES") makefiles
      ∷ setting (codes "PYTHON_BIN") python
      ∷ setting (codes "COEFF_CSV") coeff_csv
      ∷ setting (codes "RESULTS_JSON") results_json
      ∷ setting (codes "CORNER_HZ") (fl.repr corner)
      ∷ setting (codes "NTAPS") (show_int (pos ntaps))
      ∷ setting (codes "AW") (show_int (pos (address_width ntaps)))
      ∷ []

  fir_environment : (sim coeff_csv results_json : Text) → F → List (Text × Text)
  fir_environment sim coeff_csv results_json corner =
      (codes "SIM", sim)
      ∷ (codes "COEFF_CSV", coeff_csv)
      ∷ (codes "RESULTS_JSON", results_json)
      ∷ (codes "CORNER_HZ", fl.repr corner)
      ∷ []

  -- The run without --no-sim up to the return of make: what is in the file of coefficients.
  unfoldable pub simulate :
      Make → (sim makefiles python coeff_csv results_json : Text) → ℕ → F → Text → Result Text
  unfolding fir_environment
  simulate make sim makefiles python coeff_csv results_json ntaps corner window = do
    coeffs ← design_for_sim ntaps corner window
    check_return (
        make (fir_arguments sim makefiles python coeff_csv results_json corner ntaps)
          (fir_environment sim coeff_csv results_json corner))
    ok (coeff_text coeffs)

  -- A row of fir_rtl_response.csv: freq_hz, gain_mag, gain_db.
  unfoldable pub rtl_rows : List F → List F → Result (List (F × F × F))
  rtl_rows (freq ∷ freqs) (mag ∷ mags) =
      db mag >>= λ gain. rtl_rows freqs mags >>= λ rows. ok ((freq, mag, gain) ∷ rows)
  rtl_rows _ _ = ok []

  unfoldable pub all_of : List F → Result (List F)
  all_of [] = ok []
  all_of (h ∷ hs) = db h >>= λ x. all_of hs >>= λ xs. ok (x ∷ xs)

  -- [v for v in values if math.isfinite(v)]
  unfoldable pub finite : List F → List F
  finite [] = []
  finite (v ∷ vs) = let rest = finite vs in if fl.is_finite v then v ∷ rest else rest

  -- `min` and `max` of at least one value, the first of equals
  unfoldable pub least : F → List F → F
  least m [] = m
  least m (x ∷ xs) = least (if fl.lt x m then x else m) xs

  unfoldable pub most : F → List F → F
  most m [] = m
  most m (x ∷ xs) = most (if fl.lt m x then x else m) xs

  abbrev limits_of : List F → Option (F × F)
  limits_of [] = none
  limits_of (v ∷ vs) =
      let lo = least v (vs ++ (fl.neg (num 40) ∷ [])) in
      let hi = most v (vs ++ (fl.neg (num 3) ∷ num 0 ∷ [])) in
      some (fl.sub lo (num 5), fl.add hi (num 3))

  -- The limits of the axis in dB; the first ideal value is left out.
  unfoldable pub db_limits : FreqResults F → Result (Option (F × F))
  db_limits r = do
    ideal ← all_of (drop 1 r.h_ideal)
    rtl ← all_of r.h_rtl
    ok (limits_of (finite (ideal ++ rtl)))
