-- ===== src/Tests/Answers.antt =====
-- Runs of the theorems on what answers write into the window.
use pound_drever_hall.Common.{◌≡◌, refl, ◌↔◌, true, none, some, codes, text_eq, if◌then◌else◌}
use pound_drever_hall.Common.Int.{pos, negsuc}
use pound_drever_hall.Python.Str.{strip, lstrip, rstrip, is_space}
use pound_drever_hall.Python.Number.{int_of, scan, show_int, digits}
use pound_drever_hall.Python.Result.{ok}
use pound_drever_hall.Python.Float.{Float}
use pound_drever_hall.Api.Types
use pound_drever_hall.Api.Types.{DacDatSel, PidDatSel, dac_dat_sel_enum, pid_dat_sel_enum}
use pound_drever_hall.Api.Response.{int}
use pound_drever_hall.Api.Results.{ConfigIoResult}
use pound_drever_hall.Api.Commands.{PidParams}
use pound_drever_hall.Gui.Check.{accepted, config_io}
use pound_drever_hall.Gui.Forms.System.{initial_routing, on_apply_routing}
use pound_drever_hall.Gui.Forms.Pid.{PidForm, initial_pid, read_params}
use pound_drever_hall.Gui.Request.{Request, click}
use pound_drever_hall.Gui.Autolock.{LockPoint, lock_pid_params}
use pound_drever_hall.Gui.Autolock.Sync.{sync_routing, sync_pid}
use pound_drever_hall.Gui.Autolock.Sync.Laws.{sync-params}
use pound_drever_hall.Gui.Answers.{member_of, routing_answered}
use pound_drever_hall.Gui.Answers.Laws.{routing_answered-normal_iff}
use pound_drever_hall.Tests.Numbers.{Real, real_float}
use pound_drever_hall.Tests.Requests.{session}

-- The echo of the second DAC is no member.
abbrev echoes : ConfigIoResult Real
echoes = record {
  status = int (pos 0);
  dac1_dat_sel_cb = int (pos 1);
  dac2_dat_sel_cb = int (pos 9);
  pid_dat_sel_cb = int (pos 0);
}

abbrev routing_request : Request Real
routing_request = record {
  btn = 0;
  label = codes "Apply";
  call = config_io (pos 0) (pos 0) (pos 0);
  outcome = none;
}

routing_answered-normal_iff_example :
    (((routing_answered routing_request echoes (
      codes "",
      click 0
          (codes "Apply")
          (codes "Working…")
          (accepted (config_io (pos 0) (pos 0) (pos 0)))
          session,
    )).1.panel.buttons
        0).normal
      ≡ true)
    ↔ ((d1 : DacDatSel) × (d2 : DacDatSel) × (pid : PidDatSel) × (member_of {F = Real} (int (pos 1))
          ≡ ok d1)
        × (member_of {F = Real} (int (pos 9)) ≡ ok d2)
        × (member_of {F = Real} (int (pos 0)) ≡ ok pid))
routing_answered-normal_iff_example =
    routing_answered-normal_iff 0 (codes "Apply") (codes "Working…")
      (config_io (pos 0) (pos 0) (pos 0)) none echoes (codes "") session

-- The small arithmetic, with "0.0" as a text for 0.
abbrev dotted_float : Float Real
dotted_float = record real_float {
  parse = λ s. if text_eq s (codes "0.0") then some (some (pos 0)) else real_float.parse s;
}

abbrev whole_form : PidForm
whole_form = record initial_pid { kp = codes "1"; gain = codes "1" }

abbrev found_point : LockPoint Real
found_point = record { lock_point = some (negsuc 0); slope = some (pos 20); egain = some (pos 5) }

engaged : (p : PidParams Real) × (lock_pid_params ⦃fl = dotted_float⦄ whole_form found_point ≡ ok p)
unfolding lock_pid_params int_of scan strip lstrip rstrip is_space
engaged = (_, refl)

bias_run : dotted_float.parse (dotted_float.fixed 6 found_point.lock_point) ≡ some (some (negsuc 0))
unfolding int_of scan strip lstrip rstrip is_space show_int digits
bias_run = refl

egain_run : dotted_float.parse (dotted_float.fixed 6 found_point.egain) ≡ some (some (pos 5))
unfolding int_of scan strip lstrip rstrip is_space show_int digits
egain_run = refl

sync-params_example :
    (on_apply_routing {F = Real} (sync_routing PidDatSel.q_feed initial_routing)
      ≡ accepted (config_io (Types.int DacDatSel.pid) (pos 0) (Types.int PidDatSel.q_feed)))
    × (read_params ⦃fl = dotted_float⦄ (sync_pid ⦃fl = dotted_float⦄ found_point whole_form)
        ≡ accepted (record engaged.0 { bias = some (negsuc 0); egain = some (pos 5) }))
sync-params_example =
    sync-params ⦃fl = dotted_float⦄ initial_routing whole_form found_point PidDatSel.q_feed
      (some (negsuc 0)) (some (pos 5)) engaged.1 refl bias_run egain_run
