-- ===== src/Api/Commands/Coefficients.antt =====
-- client/pdh_api/api.py: the commands that load the coefficients of the FIR filter.
use pound_drever_hall.Common.{none, some, List, [], ◌∷◌, ◌++◌, Text, codes}
use pound_drever_hall.Common.Int.{ℤ}
use pound_drever_hall.Python.Str.{strip, file_lines}
use pound_drever_hall.Python.Result
use pound_drever_hall.Python.Result.{Result, ok, err, bad_literal, os_error}
use pound_drever_hall.Python.Float.{Float}
use pound_drever_hall.Api.Transport.{Outside, Api, ◌>>=◌, return, execute_cmd, api_cmd, file_at}
use pound_drever_hall.Api.Results.{SetFirResult}
use pound_drever_hall.Api.Commands.Line.{command, ints, floats, status_of, code_of}

module _ {F : Type 0} ⦃fl : Float F⦄ where
  -- `float(line)`
  abbrev pub read_float : Text → Result F
  read_float s = elim (fl.parse s) [ none ↦ err (bad_literal s) | some x ↦ ok x ]

  abbrev pub read_coeff : Text → Result (List F) → Result (List F)
  read_coeff [] rest = rest
  read_coeff (c ∷ s) rest =
      Result.◌>>=◌ (read_float (c ∷ s)) λ x. Result.◌>>=◌ rest λ xs. ok (x ∷ xs)

  -- The stripped lines that are not empty, as floats.
  unfoldable pub read_coeffs : List Text → Result (List F)
  read_coeffs [] = ok []
  read_coeffs (line ∷ lines) = read_coeff (strip line) (read_coeffs lines)

module _ {F : Type 0} ⦃fl : Float F⦄ (out : Outside F) where
  unfoldable pub send_fir_coeffs : List F → ℤ → Api (SetFirResult F)
  send_fir_coeffs coeffs input_sel = do
    r ← execute_cmd out (command (codes "set_fir") (floats coeffs ++ ints (input_sel ∷ [])))
    return record {
      status = status_of r;
      input_sel_cb = code_of r (codes "INPUT_SEL_CB");
      mem_wen_en_cb = code_of r (codes "MEM_WEN_EN_CB");
      mem_wen_dis_cb = code_of r (codes "MEM_WEN_DIS_CB");
      chain_wen_cb = code_of r (codes "CHAIN_WEN_CB");
    }

  unfoldable pub load_coeffs : Text → Api (List F)
  load_coeffs csv_path w = elim (file_at csv_path w.files) [
    | none ↦ (err os_error, w)
    | some content ↦ (read_coeffs (file_lines content), w)
  ]

  abbrev api_set_fir_call : Text → ℤ → Api (SetFirResult F)
  api_set_fir_call csv_path input_sel = do
    coeffs ← load_coeffs csv_path
    send_fir_coeffs coeffs input_sel

  unfoldable pub api_set_fir : Text → ℤ → Api (SetFirResult F)
  api_set_fir csv_path input_sel =
      api_cmd (codes "api_set_fir") (λ (r : SetFirResult F). some r.status)
        (api_set_fir_call csv_path input_sel)

  unfoldable pub api_set_fir_coeffs : List F → ℤ → Api (SetFirResult F)
  api_set_fir_coeffs coeffs input_sel =
      api_cmd (codes "api_set_fir_coeffs") (λ (r : SetFirResult F). some r.status)
        (send_fir_coeffs coeffs input_sel)
