-- ===== src/Tests/Panels.antt =====
-- Runs of the theorems on the panels of client/gui.py.
use pound_drever_hall.Common.{◌≡◌, refl, ◌↔◌, true, none, some, List, [], ◌∷◌, codes}
use pound_drever_hall.Common.Int.{pos}
use pound_drever_hall.Python.Result.{ok}
use pound_drever_hall.Python.Str.{strip, lstrip, rstrip, is_space}
use pound_drever_hall.Python.Number.{int_of, scan}
use pound_drever_hall.Fir.Design
use pound_drever_hall.Fir.Design.{num, design_lowpass, design_or, taps, sinc, window_weight}
use pound_drever_hall.Fir.Design.Laws.{design_lowpass-below_one}
use pound_drever_hall.Api.Commands.{PidParams}
use pound_drever_hall.Api.Types.{frame_code_enum, dac_sel_enum, fir_input_sel_enum}
use pound_drever_hall.Gui.Check.{accepted, set_pid, set_nco}
use pound_drever_hall.Gui.Forms.Signal.{NcoForm, on_apply_nco}
use pound_drever_hall.Gui.Forms.Signal.Laws.{on_apply_nco-nan}
use pound_drever_hall.Gui.Forms.Pid.{initial_pid, read_params, on_apply_pid}
use pound_drever_hall.Gui.Forms.Pid.Laws.{IsLegal, on_apply_pid-accepted_iff}
use pound_drever_hall.Tests.Numbers.{Real, real_float, real-HasNan, real-IsOrdered}

abbrev nco_form : NcoForm
nco_form = record { freq_var = codes "2000000"; shift_var = codes "90"; en_var = true }

ninety : real_float.parse (codes "90") ≡ some (some (pos 90))
unfolding int_of strip lstrip rstrip scan is_space
ninety = refl

abbrev nan_form : NcoForm
nan_form = record nco_form { freq_var = codes "nan" }

on_apply_nco-nan_example : on_apply_nco nan_form ≡ accepted (set_nco none (some (pos 90)) (pos 1))
on_apply_nco-nan_example = on_apply_nco-nan real-HasNan nan_form (some (pos 90)) refl ninety refl

abbrev zeros : List Real
zeros = some (pos 0) ∷ some (pos 0) ∷ []

two_taps : design_lowpass {F = Real} 2 (some (pos 5_000_000)) (codes "hann") ≡ ok zeros
unfolding design_lowpass design_or taps sinc window_weight Design.hann
two_taps = refl

design_lowpass-below_one_example :
    (real_float.lt (some (pos 0)) (some (pos 1)) ≡ true)
    × ((real_float.lt (some (pos 0)) (some (pos 1)) ≡ true) × Unit {0})
design_lowpass-below_one_example =
    design_lowpass-below_one real-IsOrdered refl 2 (some (pos 5_000_000)) (codes "hann") two_taps
      (refl, (refl, tt))

abbrev pid_params : PidParams Real
pid_params = record {
  kp = some (pos 0);
  kd = some (pos 0);
  ki = some (pos 0);
  sp = some (pos 0);
  dec = pos 100;
  alpha = pos 4;
  sat = pos 31;
  en = pos 0;
  gain = some (pos 1);
  bias = some (pos 0);
  egain = some (pos 1);
}

on_apply_pid-accepted_iff_example : (on_apply_pid initial_pid ≡ accepted (set_pid pid_params)) ↔ (
    (p : PidParams Real) × (read_params initial_pid ≡ accepted p)
    × IsLegal p
    × (set_pid pid_params ≡ set_pid p))
on_apply_pid-accepted_iff_example = on_apply_pid-accepted_iff initial_pid (set_pid pid_params)
