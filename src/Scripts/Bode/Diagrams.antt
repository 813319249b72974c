-- ===== src/Scripts/Bode/Diagrams.antt =====
-- core/hw/sim/run_bode.py: what the two figures show. The drawing is left out.
pub mod Laws
use pound_drever_hall.Common.{
  ℕ, Bool, true, false, Option, none, some, List, [], ◌∷◌, ◌++◌, map, take, Text, codes, text_eq,
  if◌then◌else◌,
}
use pound_drever_hall.Common.Int.{ℤ}
use pound_drever_hall.Python.Number.{show_int}
use pound_drever_hall.Python.Result.{Result, ok, ◌>>=◌}
use pound_drever_hall.Python.Float.{Float}
use pound_drever_hall.Fir.Design.{num}
use pound_drever_hall.Scripts.Bode.{Margins, Data, Configs, sorted_data, autolim}

-- The response at one decimation.
pub record BodeResponse (F : Type 0) : Type 0 where
  pub freqs : List F
  pub gain_db : List F
  pub phase_deg : List F
  pub margins : Margins F

-- One panel of figure 1: its title, and unless the code is not in the results what it shows: the two
-- curves, the crossovers with their labels, and the limits of both axes.
pub record Curves (F : Type 0) : Type 0 where
  pub freqs : List F
  pub gain_db : List F
  pub phase : List F
  pub gain_crossover : Option (F × Text)
  pub phase_crossover : Option (F × Text)
  pub gain_limits : Option (F × F)
  pub phase_limits : Option (F × F)

pub record Diagram (F : Type 0) : Type 0 where
  pub title : Text
  pub curves : Option (Curves F)

-- The axes of figure 2, and whether the note that there is no gain crossover stands on the first.
pub record MarginAxes (F : Type 0) : Type 0 where
  pub pm_limits : F × F
  pub gm_limits : F × F
  pub note : Bool

abbrev pub config_labels : List (Text × Text)
config_labels =
    (codes "direct_adc", codes "Direct ADC (SAT_A_16S)")
    ∷ (codes "rotation", codes "Rotation 0° (I_FEED)")
    ∷ (codes "fir_adc", codes "FIR + ADC (FIR_OUT, input=ADC1)")
    ∷ (codes "fir_rotation", codes "FIR + Rotation (FIR_OUT, input=I_FEED)")
    ∷ []

unfoldable pub at_key : {A : Type 0} → Text → List (Text × A) → Option A
at_key k [] = none
at_key k ((j, x) ∷ rest) = let later = at_key k rest in if text_eq j k then some x else later

-- CONFIG_LABELS.get(cfg_name, cfg_name)
abbrev pub config_label : Text → Text
config_label name = elim (at_key name config_labels) [ none ↦ name | some label ↦ label ]

module _ {F : Type 0} ⦃fl : Float F⦄ where
  -- pad_frac=0.08
  abbrev pub pad_frac : F
  pad_frac = fl.decimal 8 2

  abbrev crossover : Text → Option F → Option (F × Text)
  crossover name none = none
  crossover name (some f) =
      some (f, name ++ (codes "=" ++ (fl.fixed 1 (fl.quotient f (num 1000)) ++ codes " kHz")))

  abbrev pm_text : Option F → Text
  pm_text none = codes "∞ (no G.C.)"
  pm_text (some v) = fl.fixed 1 v ++ codes "°"

  abbrev gm_text : Option F → Text
  gm_text none = codes "N/A"
  gm_text (some v) = fl.fixed 1 v ++ codes " dB"

  -- `unwrap` is the phase in degrees without its jumps, from numpy.
  unfoldable pub diagram :
      (unwrap : List F → List F) → ℤ → Text × List (Text × BodeResponse F) → Diagram F
  diagram unwrap plot_dec (name, table) = elim (at_key (show_int plot_dec) table) [
    | none ↦ record {
      title =
          config_label name ++ (codes "\n(dec=" ++ (show_int plot_dec ++ codes " not in results)"));
      curves = none;
    }
    | some d ↦ record {
      title =
          config_label name
          ++ (codes "\nPM="
              ++ (pm_text d.margins.pm_deg ++ (codes "  GM=" ++ gm_text d.margins.gm_db)));
      curves = some record {
        freqs = d.freqs;
        gain_db = d.gain_db;
        phase = unwrap d.phase_deg;
        gain_crossover = crossover (codes "f_gc") d.margins.f_gc;
        phase_crossover = crossover (codes "f_pc") d.margins.f_pc;
        gain_limits = autolim d.gain_db pad_frac (num 0 ∷ []);
        phase_limits = autolim (unwrap d.phase_deg) pad_frac (fl.neg (num 180) ∷ []);
      };
    }
  ]

  -- The four panels of figure 1.
  unfoldable pub diagrams :
      (unwrap : List F → List F) → ℤ → List (Text × List (Text × BodeResponse F)) → List (Diagram F)
  diagrams unwrap plot_dec configs = map (diagram unwrap plot_dec) (take 4 configs)

  -- [v for v in vals if v is not None]
  abbrev pub present : (Margins F → Option F) → List (ℤ × Margins F) → List F
  present margin [] = []
  present margin ((dec, d) ∷ entries) = elim (margin d) [
    | none ↦ present margin entries
    | some v ↦ v ∷ present margin entries
  ]

  -- `all_pm` and `all_gm`
  unfoldable pub all_present : (Margins F → Option F) → Configs F → Result (List F)
  all_present margin [] = ok []
  all_present margin ((name, table) ∷ configs) = sorted_data table >>= λ entries.
      all_present margin configs >>= λ rest. ok (present margin entries ++ rest)

  abbrev limits_or : Option (F × F) → F × F → F × F
  limits_or none limits = limits
  limits_or (some limits) _ = limits

  abbrev pub pm_limits : List F → Option (F × F)
  pm_limits values = autolim values pad_frac (num 0 ∷ num 45 ∷ [])

  abbrev pub gm_limits : List F → Option (F × F)
  gm_limits values = autolim values pad_frac (num 0 ∷ num 6 ∷ [])

  abbrev is_none : Option (F × F) → Bool
  is_none none = true
  is_none (some limits) = false

  abbrev pub axes_of : List F → List F → MarginAxes F
  axes_of all_pm all_gm = record {
    pm_limits = limits_or (pm_limits all_pm) (fl.neg (num 10), num 50);
    gm_limits = limits_or (gm_limits all_gm) (fl.neg (num 5), num 20);
    note = is_none (pm_limits all_pm);
  }

  unfoldable pub margin_axes : Configs F → Result (MarginAxes F)
  margin_axes configs = all_present (λ d. d.pm_deg) configs >>= λ all_pm.
      all_present (λ d. d.gm_db) configs >>= λ all_gm. ok (axes_of all_pm all_gm)
