-- ===== src/Tests/Board.antt =====
-- Runs of the theorems on the server of the board. Its `float` is the small arithmetic too.
use pound_drever_hall.Common.{
  ℕ, zero, suc, ◌≡◌, ◌≢◌, ◌↔◌, ◌⊎◌, refl, ap, Bool, true, false, Option, none, some, List, [], ◌∷◌,
  ◌++◌, map, Text, codes, drop, All, arith, if◌then◌else◌,
}
use pound_drever_hall.Common.Int.{ℤ, pos, negsuc, pos_part, neg_ℤ}
use pound_drever_hall.Python.Str.{
  IsPlain, is_space, is_break, strip, lstrip, rstrip, splitlines, contains, partition,
}
use pound_drever_hall.Python.Number.{int_of, scan, show_int, show_int-first, digits}
use pound_drever_hall.Python.Result.{ok}
use pound_drever_hall.Api.Types.{
  FirInputSel, fir_input_sel_enum, dac_dat_sel_enum, pid_dat_sel_enum,
}
use pound_drever_hall.Api.Response.{
  int, insert, lookup, get, coerce, read_line, read_lines, parse_response, is_zero,
}
use pound_drever_hall.Api.Transport.{World, execute_cmd, check_status, api_cmd}
use pound_drever_hall.Api.Transport.Laws.{Sent}
use pound_drever_hall.Api.Commands.{api_config_io}
use pound_drever_hall.Gui.Check.{Call, accepted, config_io, sweep_ramp, set_fir_coeffs}
use pound_drever_hall.Fir.Design
use pound_drever_hall.Fir.Design.{design_lowpass, design_or, taps, sinc, window_weight}
use pound_drever_hall.Gui.Forms.Signal.{FirForm, initial_fir, on_apply_fir}
use pound_drever_hall.Gui.Check.{is_unit}
use pound_drever_hall.Gui.Forms.Capture.{
  SweepForm, initial_sweep, sweep_cols, check_ramp, on_run_sweep,
}
use pound_drever_hall.Fir.Design.Laws.{IsNumber}
use pound_drever_hall.Board.Guards.{CFloat, handler_args}
use pound_drever_hall.Board.Guards.Bounds.{Rounds}
use pound_drever_hall.Board.Guards.Laws.{Passes, by_sweep, Made-Passes, fir_call-refused_iff}
use pound_drever_hall.Board.Answer.{Item, uint_item, int_item, send_response, respond}
use pound_drever_hall.Board.Answer.Laws.{
  fields_of, Distinct, item_name, value_of_item, send_response-read,
}
use pound_drever_hall.Board.Answer.Failure.{is_plain-IsPlain, printed-IsKey, respond-not_run}
use pound_drever_hall.Board.Dispatch.{Entry, find_entry, dispatch_command, runs}
use pound_drever_hall.Api.Response.Laws.{IsField}
use pound_drever_hall.Gui.Calls.{call_api}
use pound_drever_hall.Board.Number.{read_number, sign_of, read_number-show_int}
use pound_drever_hall.Board.Context.{CLib, Context}
use pound_drever_hall.Board.Context.Laws.{Ends, Ends-Stops, show_int-IsWord}
use pound_drever_hall.Board.Context.Commands.{Prints}
use pound_drever_hall.Board.Dispatch.{Runs}
use pound_drever_hall.Board.Calls.{name_of, floats_of, uints_of, packet_text}
use pound_drever_hall.Board.Calls.Runs.{Fits, call_api-Runs}
use pound_drever_hall.Tests.Numbers.{Real, real_float, real-IsOrdered, show_real, is_nan_text}
use pound_drever_hall.Tests.Server.{server, start}
use pound_drever_hall.Tests.Analysis.{numeric}

abbrev of_sign : Bool × ℕ → ℤ
of_sign (true, n) = neg_ℤ (pos n)
of_sign (false, n) = pos n

of_sign-sign_of : (i : ℤ) → of_sign (sign_of i) ≡ i
of_sign-sign_of (pos n) = refl
of_sign-sign_of (negsuc n) = ground arith

abbrev strtof_real : Text → Option (Real × Text)
strtof_real s =
    if is_nan_text s
    then some (none, drop 3 s)
    else elim (read_number s) [ none ↦ none | some (x, end) ↦ some (some (of_sign x), end) ]

abbrev small_lib : CLib Real
small_lib = record { strtof = strtof_real; print_f = show_real }

strtof_real-repr : (x : Real) (t : Text) → Ends t → strtof_real (show_real x ++ t) ≡ some (x, t)
strtof_real-repr none t e = refl
strtof_real-repr (some i) t e =
    let (c, s, first, digit) = show_int-first i in
    let number : is_nan_text (show_int i ++ t) ≡ false = rw first (ground arith) in
    rw (number, read_number-show_int i t (Ends-Stops t e))
      (ap (λ k. some (some k, t)) (of_sign-sign_of i))

small-Prints : Prints real_float small_lib (λ x. x)
small-Prints = record {
  strtof-repr = strtof_real-repr;
  repr-IsWord = elim [
    | none ↦ (omega arith, (omega arith, (omega arith, tt)))
    | some i ↦ show_int-IsWord i
  ];
}

abbrev routing : Call Real
routing = config_io (pos 1) (pos 2) (pos 0)

abbrev routed : World
routed = (call_api server numeric routing start).1

routing_run : call_api server numeric routing start ≡ (ok tt, routed)
unfolding call_api api_config_io api_cmd check_status execute_cmd parse_response read_lines
    read_line insert lookup get coerce is_zero splitlines contains partition int_of strip lstrip
    rstrip scan is_space is_break show_int digits
routing_run = refl

routing-Fits : Fits routing
unfolding show_int digits
routing-Fits = record {
  coeffs = tt;
  floats = omega arith;
  uints = (omega arith, (omega arith, (omega arith, tt)));
  size = omega arith;
}

call_api-Runs_example :
    Sent start (packet_text routing) routed
    × Runs small_lib
        (packet_text routing)
        (name_of routing)
        (map (λ x. x) (floats_of routing))
        (map pos_part (uints_of routing))
call_api-Runs_example =
    call_api-Runs small_lib small-Prints server numeric routing start routing-Fits routing_run

abbrev small_float : CFloat Real
small_float = record {
  lt = real_float.lt;
  one = some (pos 1);
  minus_one = real_float.neg (some (pos 1));
}

le-not_lt : (x y : Real) → real_float.le x y ≡ true → real_float.lt y x ≡ false
le-not_lt x y h = ground arith

small-Rounds : Rounds real_float small_float (λ x. x)
small-Rounds = record { monotone = le-not_lt; one = refl; minus_one = refl }

-- The sweep that the panel starts with.
abbrev sweep_call : Call Real
sweep_call = sweep_ramp (some (negsuc 0)) (some (pos 1)) (pos 1000) (pos 0) (pos 0) (pos 0)

abbrev sweep_form : SweepForm
sweep_form = record initial_sweep { v0_var = codes "-1"; v1_var = codes "1" }

sweep_made :
    on_run_sweep {F = Real} sweep_form
    ≡ accepted (record { call = sweep_call; active_cols = sweep_cols sweep_form })
unfolding on_run_sweep check_ramp int_of scan strip lstrip rstrip is_space
sweep_made = refl

sweep-Fits : Fits sweep_call
unfolding show_int digits
sweep-Fits = record {
  coeffs = tt;
  floats = omega arith;
  uints = (omega arith, (omega arith, (omega arith, (omega arith, tt))));
  size = omega arith;
}

Made-Passes_example : Passes small_float small-Rounds small_lib small-Prints sweep_call
Made-Passes_example =
    Made-Passes small_float small-Rounds small_lib small-Prints sweep_call
      (by_sweep sweep_form sweep_made) sweep-Fits

-- The panel with the demodulated signal as the input of the filter.
abbrev demod_fir : FirForm
demod_fir = record initial_fir { input_sel = FirInputSel.iq_demod_lpf }

abbrev zero_taps : ℕ → List Real
zero_taps zero = []
zero_taps (suc n) = some (pos 0) ∷ zero_taps n

abbrev fir_call : Call Real
fir_call = set_fir_coeffs (zero_taps 32) (pos 5)

fir_run : on_apply_fir demod_fir ≡ accepted fir_call
unfolding on_apply_fir design_lowpass design_or taps sinc window_weight Design.hann int_of strip
    lstrip rstrip scan is_space
fir_run = refl

below_one-unit :
    (x : Real) → real_float.lt (real_float.abs x) (some (pos 1)) ≡ true → is_unit x ≡ true
below_one-unit x h = ground arith

zero_taps-IsNumber : (n : ℕ) → All IsNumber (map real_float.abs (zero_taps n))
zero_taps-IsNumber zero = tt
zero_taps-IsNumber (suc n) = (refl, zero_taps-IsNumber n)

fir_call-refused_iff_example :
    (handler_args small_float (codes "set_fir") (map (λ x. x) (zero_taps 32)) (5 ∷ []) ≡ none) ↔ (
      (FirInputSel.iq_demod_lpf ≡ FirInputSel.iq_demod_out)
      ⊎ (FirInputSel.iq_demod_lpf ≡ FirInputSel.iq_demod_lpf))
fir_call-refused_iff_example =
    fir_call-refused_iff small_float small-Rounds real-IsOrdered refl below_one-unit demod_fir
      fir_call fir_run (zero_taps-IsNumber 32)

abbrev two_items : List (Item Real)
two_items = uint_item (codes "LED_CODE_CB") 7 ∷ int_item (codes "REG_VALUE_CB") (negsuc 4) ∷ []

abbrev led_answer : Text
led_answer = codes "type:output\nname:set_led\nstatus:0\nLED_CODE_CB:7\nREG_VALUE_CB:-5\n"

led_answer_run : send_response small_lib (pos 0) (codes "set_led") two_items ≡ some led_answer
unfolding send_response show_int digits
led_answer_run = refl

led_answer-IsField : All IsField (fields_of small_lib (pos 0) (codes "set_led") two_items)
unfolding is_space contains show_int digits
led_answer-IsField = (
  (printed-IsKey _ _ refl refl, is_plain-IsPlain (codes "output") refl),
  (
    (printed-IsKey _ _ refl refl, is_plain-IsPlain (codes "set_led") refl),
    (
      (printed-IsKey _ _ refl refl, is_plain-IsPlain (codes "0") refl),
      (
        (printed-IsKey _ _ refl refl, is_plain-IsPlain (codes "7") refl),
        ((printed-IsKey _ _ refl refl, is_plain-IsPlain (codes "-5") refl), tt),
      ),
    ),
  ),
)

led_answer-Distinct : Distinct (fields_of small_lib (pos 0) (codes "set_led") two_items)
led_answer-Distinct = (
  (refl, (refl, (refl, (refl, tt)))),
  ((refl, (refl, (refl, tt))), ((refl, (refl, tt)), ((refl, tt), (tt, tt)))),
)

send_response-read_example :
    (lookup {F = Real} (codes "status") (parse_response led_answer) ≡ some (int (pos 0)))
    × All
        (λ item.
          lookup (item_name item) (parse_response led_answer)
          ≡ some (value_of_item {F = Real} small_lib item))
        two_items
send_response-read_example =
    send_response-read small_lib (pos 0) (codes "set_led") two_items led_answer_run
      led_answer-IsField led_answer-Distinct

abbrev unknown : Context Real
unknown = record { name = codes "set_fan"; float_args = []; int_args = []; uint_args = [] }

unknown-not_run : (e : Entry) → dispatch_command unknown ≢ runs e
unfolding dispatch_command find_entry
unknown-not_run e h = cc

unknown-IsPlain : IsPlain unknown.name
unfolding is_space
unknown-IsPlain = is_plain-IsPlain (codes "set_fan") refl

respond-not_run_example :
    (text : Text) × (respond small_lib (λ e ctx. (pos 1, [])) unknown ≡ some text)
    × (lookup {F = Real} (codes "status") (parse_response text) ≡ some (int (pos 0)))
respond-not_run_example =
    respond-not_run small_lib (λ e ctx. (pos 1, [])) unknown unknown-not_run unknown-IsPlain
      (omega arith)
