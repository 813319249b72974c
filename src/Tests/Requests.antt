-- ===== src/Tests/Requests.antt =====
-- Runs of the theorems on the requests of client/gui.py.
use pound_drever_hall.Common.{
  ℕ, ◌≡◌, refl, none, some, [], ◌∷◌, ◌++◌, Text, codes, ◌==◌, if◌then◌else◌,
}
use pound_drever_hall.Common.Int.{pos}
use pound_drever_hall.Python.Result.{ok}
use pound_drever_hall.Python.Str.{
  strip, lstrip, rstrip, is_space, is_break, splitlines, contains, partition,
}
use pound_drever_hall.Python.Number.{int_of, scan, show_int, digits}
use pound_drever_hall.Api.Response.{
  insert, lookup, get, coerce, read_line, read_lines, parse_response, is_zero,
}
use pound_drever_hall.Api.Transport.{World, execute_cmd, check_status, api_cmd}
use pound_drever_hall.Api.Commands.{PidParams, api_set_pid, set_pid_command}
use pound_drever_hall.Gui.Check.{accepted, get_adc, set_pid}
use pound_drever_hall.Gui.Panel.Laws.{ready, IsConsistent}
use pound_drever_hall.Gui.Forms.Pid.{PidForm, initial_pid, read_params, check_params, on_apply_pid}
use pound_drever_hall.Gui.Forms.Pid.Laws.{IsLegal}
use pound_drever_hall.Gui.Window
use pound_drever_hall.Gui.Window.{connection_params}
use pound_drever_hall.Gui.Request.{Session, click, on_reset_connection, update_connection}
use pound_drever_hall.Gui.Request.Laws.{click-reset}
use pound_drever_hall.Gui.Calls.{call_api}
use pound_drever_hall.Gui.Calls.Laws.{pid_click-Sent}
use pound_drever_hall.Tests.Numbers.{Real, real_float}
use pound_drever_hall.Tests.Analysis.{numeric}
use pound_drever_hall.Tests.Server.{server, start}

abbrev two_labels : ℕ → Text
two_labels i = if i == 0 then codes "Read ADC" else codes "Set LEDs"

abbrev pub session : Session Real
session = record {
  panel = record { buttons = λ i. ready (two_labels i); busy_btns = [] };
  world = start;
  bar = record {
    status = Window.ready;
    status_timer = none;
    timers = record { pending = []; next_id = 0 };
  };
  settings = record { ip_var = codes " 10.0.0.7 "; port_var = codes "6000" };
  requests = [];
}

abbrev pub reading : Session Real
reading = click 0 (codes "Read ADC") (codes "Working…") (accepted get_adc) session

session-IsConsistent : IsConsistent two_labels session.panel
session-IsConsistent = record { agrees = λ i. refl; saved = tt }

click-reset_example : (on_reset_connection reading).panel.buttons 0 ≡ ready (two_labels 0)
click-reset_example =
    click-reset two_labels 0 (codes "Read ADC") (codes "Working…") get_adc session 0
      session-IsConsistent

abbrev whole_pid : PidForm
whole_pid = record initial_pid {
  kp = codes "0";
  ki = codes "0";
  kd = codes "0";
  sp = codes "0";
  gain = codes "1";
  bias = codes "0";
  egain = codes "1";
}

abbrev whole_params : PidParams Real
whole_params = record {
  kp = some (pos 0);
  kd = some (pos 0);
  ki = some (pos 0);
  sp = some (pos 0);
  dec = pos 100;
  alpha = pos 4;
  sat = pos 31;
  en = pos 0;
  gain = some (pos 1);
  bias = some (pos 0);
  egain = some (pos 1);
}

pid_accepted : on_apply_pid whole_pid ≡ accepted (set_pid whole_params)
unfolding on_apply_pid read_params check_params int_of strip lstrip rstrip scan is_space
pid_accepted = refl

abbrev pid_clicked : World
pid_clicked = (click 0 (codes "Apply") (codes "Working…") (on_apply_pid whole_pid) session).world

abbrev after_pid : World
after_pid = (call_api server numeric (set_pid whole_params) pid_clicked).1

pid_returned : call_api server numeric (set_pid whole_params) pid_clicked ≡ (ok tt, after_pid)
unfolding call_api api_set_pid api_cmd check_status execute_cmd parse_response read_lines read_line
    insert lookup get coerce is_zero splitlines contains partition int_of strip lstrip rstrip scan
    is_space is_break show_int digits click update_connection on_apply_pid read_params check_params
    connection_params
pid_returned = refl

pid_click-Sent_example :
    (p : PidParams Real) × (read_params whole_pid ≡ accepted p)
    × IsLegal p
    × (after_pid.sent
        ≡ []
          ++ (record {
            ip = (connection_params session.settings).0;
            port = (connection_params session.settings).1;
            payload = set_pid_command p;
          }
              ∷ []))
pid_click-Sent_example =
    pid_click-Sent server numeric whole_pid (set_pid whole_params) 0 (codes "Apply")
      (codes "Working…") session pid_accepted pid_returned
