-- ===== src/Scripts/Bode.antt =====
-- core/hw/sim/run_bode.py: the call of make, and the tables and series that are made of its results.
pub mod Laws
pub mod Diagrams
use pound_drever_hall.Common.{
  ℕ, ◌/◌, Bool, true, false, not, ◌&&◌, Option, none, some, List, [], ◌∷◌, ◌++◌, map, Text, codes,
  text_eq, if◌then◌else◌, length, get_elem?,
}
use pound_drever_hall.Common.Int.{ℤ, pos, eq_ℤ, ltb_ℤ}
use pound_drever_hall.Python.Number.{int_of, show_int}
use pound_drever_hall.Python.Result.{Result, ok, err, bad_literal, index_error, ◌>>=◌, ◌>>◌}
use pound_drever_hall.Python.Float.{Float}
use pound_drever_hall.Fir.Design.{num, divide}
use pound_drever_hall.Scripts.Runs.{Make, check_return, setting}
use pound_drever_hall.Scripts.FirFreq.{finite, least, most}

-- The arguments of the script as texts, as it passes them on.
pub record Arguments : Type 0 where
  pub sim : Text
  pub coeff_csv : Text
  pub results_json : Text
  pub kp : Text
  pub ki : Text
  pub kd : Text
  pub alpha : Text
  pub satwidth : Text
  pub delay : Text
  pub dec : Text

-- What is added to the environment; make gets the same names and values as arguments.
abbrev bode_settings : Arguments → List (Text × Text)
bode_settings a =
    (codes "COEFF_CSV", a.coeff_csv)
    ∷ (codes "RESULTS_JSON", a.results_json)
    ∷ (codes "KP_TEST", a.kp)
    ∷ (codes "KI_TEST", a.ki)
    ∷ (codes "KD_TEST", a.kd)
    ∷ (codes "ALPHA_TEST", a.alpha)
    ∷ (codes "SATWIDTH_TEST", a.satwidth)
    ∷ (codes "LINE_DELAY_NS", a.delay)
    ∷ (codes "DEC_CODES", a.dec)
    ∷ []

abbrev bode_arguments : (makefiles python : Text) → Arguments → List Text
bode_arguments makefiles python a =
    codes "make"
    ∷ codes "-f"
    ∷ codes "Makefile.bode"
    ∷ setting (codes "SIM") a.sim
    ∷ setting (codes "COCOTB_MAKEFILES") makefiles
    ∷ setting (codes "PYTHON_BIN") python
    ∷ map (λ (name, value). setting name value) (bode_settings a)

unfoldable pub run_bode : Make → (makefiles python : Text) → Arguments → Result (Unit {0})
run_bode make makefiles python a =
    check_return (make (bode_arguments makefiles python a) ((codes "SIM", a.sim) ∷ bode_settings a))

-- The margins at one decimation, where the JSON may have null.
pub record Margins (F : Type 0) : Type 0 where
  pub f_gc : Option F
  pub pm_deg : Option F
  pub f_pc : Option F
  pub gm_db : Option F

-- cfg["data"], by the texts of the decimation codes
abbrev pub Data : Type 0 → Type 0
Data F = List (Text × Margins F)

-- The results of each configuration, by its name.
abbrev pub Configs : Type 0 → Type 0
Configs F = List (Text × Data F)

-- `int(k)`
abbrev pub code_number : Text → Result ℤ
code_number k = elim (int_of k) [ none ↦ err (bad_literal k) | some n ↦ ok n ]

module _ {F : Type 0} where
  -- The codes of one configuration, in front of those that follow.
  unfoldable pub codes_of : Data F → Result (List ℤ) → Result (List ℤ)
  codes_of [] rest = rest
  codes_of ((k, d) ∷ table) rest = code_number k >>= λ n. codes_of table rest >>= λ ns. ok (n ∷ ns)

  unfoldable pub all_codes : Configs F → Result (List ℤ)
  all_codes [] = ok []
  all_codes ((name, table) ∷ configs) = codes_of table (all_codes configs)

-- A set of numbers in ascending order.
unfoldable pub put : ℤ → List ℤ → List ℤ
put n [] = n ∷ []
put n (m ∷ ms) =
    let rest = put n ms in if ltb_ℤ n m then n ∷ m ∷ ms else if eq_ℤ n m then m ∷ ms else m ∷ rest

unfoldable pub sorted_set : List ℤ → List ℤ
sorted_set [] = []
sorted_set (n ∷ ns) = put n (sorted_set ns)

-- The code that is asked for, or else the middle one.
unfoldable pub plot_dec : Option ℤ → List ℤ → Result ℤ
plot_dec (some d) dec_codes = ok d
plot_dec none dec_codes = elim (get_elem? dec_codes (length dec_codes / 2)) [
  | none ↦ err index_error
  | some d ↦ ok d
]

module _ {F : Type 0} where
  -- dec_codes_all
  unfoldable pub dec_codes_all : Configs F → Result (List ℤ)
  dec_codes_all configs = all_codes configs >>= λ ns. ok (sorted_set ns)

  -- A stable sort of the entries by `int` of their keys.
  unfoldable pub put_entry : ℤ × Margins F → List (ℤ × Margins F) → List (ℤ × Margins F)
  put_entry e [] = e ∷ []
  put_entry e (f ∷ fs) = let rest = put_entry e fs in if ltb_ℤ f.0 e.0 then f ∷ rest else e ∷ f ∷ fs

  unfoldable pub sorted_data : Data F → Result (List (ℤ × Margins F))
  sorted_data [] = ok []
  sorted_data ((k, d) ∷ table) =
      code_number k >>= λ n. sorted_data table >>= λ rest. ok (put_entry (n, d) rest)

-- A row of stability_margins.csv; an empty field stands for null.
pub record MarginRow (F : Type 0) : Type 0 where
  pub config : Text
  pub decimation : ℤ
  pub f_control_hz : F
  pub margins : Margins F

-- What figure 2 shows of a configuration.
pub record Series (F : Type 0) : Type 0 where
  pub config : Text
  pub f_ctrl : List F
  pub pm_plot : List F
  pub gm_plot : List F

module _ {F : Type 0} ⦃fl : Float F⦄ where
  unfoldable pub config_rows : F → Text → List (ℤ × Margins F) → Result (List (MarginRow F))
  config_rows fs config [] = ok []
  config_rows fs config ((dec, d) ∷ entries) = divide fs (fl.of_int dec) >>= λ f.
      config_rows fs config entries >>= λ rows.
      ok (record { config = config; decimation = dec; f_control_hz = f; margins = d } ∷ rows)

  -- The rows of stability_margins.csv, one list for each configuration.
  unfoldable pub margin_rows : F → Configs F → Result (List (List (MarginRow F)))
  margin_rows fs [] = ok []
  margin_rows fs ((name, table) ∷ configs) = sorted_data table >>= λ entries.
      config_rows fs name entries >>= λ rows. margin_rows fs configs >>= λ rest. ok (rows ∷ rest)

  -- v if v is not None else float("nan")
  abbrev pub or_nan : Option F → F
  or_nan none = fl.nan
  or_nan (some v) = v

  unfoldable pub control_rates : F → List (ℤ × Margins F) → Result (List F)
  control_rates fs [] = ok []
  control_rates fs ((dec, d) ∷ entries) =
      divide fs (fl.of_int dec) >>= λ f. control_rates fs entries >>= λ rates. ok (f ∷ rates)

  abbrev pub series_of : F → Text → List (ℤ × Margins F) → Result (Series F)
  series_of fs name entries = control_rates fs entries >>= λ rates. ok record {
    config = name;
    f_ctrl = rates;
    pm_plot = map (λ (dec, d). or_nan d.pm_deg) entries;
    gm_plot = map (λ (dec, d). or_nan d.gm_db) entries;
  }

  unfoldable pub margin_series : F → Configs F → Result (List (Series F))
  margin_series fs [] = ok []
  margin_series fs ((name, table) ∷ configs) = sorted_data table >>= λ entries.
      series_of fs name entries >>= λ series.
      margin_series fs configs >>= λ rest. ok (series ∷ rest)

  -- `hi - lo or 1.0`
  abbrev span_of : F → F → F
  span_of lo hi = let span = fl.sub hi lo in if fl.eq span (num 0) then num 1 else span

  abbrev pub padded : F → List F → Option (F × F)
  padded pad_frac [] = none
  padded pad_frac (v ∷ vs) =
      let lo = least v vs in
      let hi = most v vs in
      let pad = fl.mul pad_frac (span_of lo hi) in some (fl.sub lo pad, fl.add hi pad)

  -- _autolim
  unfoldable pub autolim : List F → F → List F → Option (F × F)
  autolim values pad_frac ref_vals = padded pad_frac (finite (values ++ ref_vals))
