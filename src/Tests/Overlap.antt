-- ===== src/Tests/Overlap.antt =====
-- Runs of the theorems on requests of client/gui.py that overlap.
use pound_drever_hall.Common.{◌≡◌, ◌≤◌, ◌+◌, refl, true, ◌||◌, none, [], ◌∷◌, ◌++◌, Text, codes}
use pound_drever_hall.Common.Int.{ℤ, pos, eq_ℤ}
use pound_drever_hall.Python.Result.{Result, ok}
use pound_drever_hall.Python.Str.{
  strip, lstrip, rstrip, is_space, is_break, splitlines, contains, partition,
}
use pound_drever_hall.Python.Number.{int_of, scan, show_int, digits}
use pound_drever_hall.Api.Response.{
  Response, insert, lookup, get, coerce, read_line, read_lines, parse_response, is_zero,
}
use pound_drever_hall.Api.Transport.{
  Api, World, execute_cmd, check_status, api_cmd, ssh_fetch_csv, load_csv,
}
use pound_drever_hall.Api.Transport.Laws.{packet_of}
use pound_drever_hall.Api.Types.{FrameCode, frame_columns}
use pound_drever_hall.Api.Results.{FrameResult}
use pound_drever_hall.Api.Commands.{
  api_config_io, default_remote_dir, frame_command, capture_rest, fetch, status_of, code_of,
}
use pound_drever_hall.Api.Commands.Captures.Race.{Logged, overlapped_captures-same}
use pound_drever_hall.Board.Calls.{packet_text}
use pound_drever_hall.Gui.Check.{Call, accepted, get_adc, set_led, config_io}
use pound_drever_hall.Gui.Panel.{busy}
use pound_drever_hall.Gui.Window.{Settings, connection_params}
use pound_drever_hall.Gui.Request.{Session, Request, click, update_connection}
use pound_drever_hall.Gui.Request.Overlap.{
  Reach, start, later, edits, clicks, works, worked, in_flight, ready_count, Reach-IsOnePerButton,
}
use pound_drever_hall.Gui.Request.Overlap.Address.{
  IsKnown, EditsKnown, Reach-IsKnown, late_request-Sent,
}
use pound_drever_hall.Gui.Calls.{call_api}
use pound_drever_hall.Tests.Numbers.{Real, real_float}
use pound_drever_hall.Tests.Analysis.{numeric}
use pound_drever_hall.Tests.Server
use pound_drever_hall.Tests.Server.{server, two_rows}
use pound_drever_hall.Tests.Requests.{session, reading}

abbrev other : Settings
other = record { ip_var = codes "10.0.0.8"; port_var = codes "7000" }

abbrev edited : Session Real
edited = record reading { settings = other }

-- Two requests are under way, made with different entries.
abbrev both : Session Real
both = click 1 (codes "Set LEDs") (codes "Working…") (accepted (set_led (pos 3))) edited

abbrev first : Request Real
first = record { btn = 0; label = codes "Read ADC"; call = get_adc; outcome = none }

abbrev second : Request Real
second = record { btn = 1; label = codes "Set LEDs"; call = set_led (pos 3); outcome = none }

abbrev run : Call Real → Api (Unit {0})
run = call_api server numeric

-- The second thread ends first.
abbrev overlapped : Session Real
overlapped = worked run [] second (first ∷ []) both

two_waiting : both.requests ≡ [] ++ (second ∷ first ∷ [])
unfolding click
two_waiting = refl

overlap : Reach run session overlapped
unfolding click busy
overlap =
    later
      (later
        (later
          (later start (clicks 0 (codes "Read ADC") (codes "Working…") (accepted get_adc) refl))
          (edits other))
        (clicks 1 (codes "Set LEDs") (codes "Working…") (accepted (set_led (pos 3))) refl))
      (works [] second (first ∷ []) two_waiting refl)

Reach-IsOnePerButton_example :
    in_flight 0 overlapped.requests + ready_count (overlapped.panel.buttons 0).normal ≤ 1
Reach-IsOnePerButton_example = Reach-IsOnePerButton run refl overlap 0

abbrev Known : Text × ℤ → Type 0
Known a = (eq_ℤ a.1 (pos 5555) || eq_ℤ a.1 (pos 6000) || eq_ℤ a.1 (pos 7000)) ≡ true

session-IsKnown : IsKnown Known session
unfolding connection_params int_of strip lstrip rstrip scan is_space
session-IsKnown = record { entries = refl; globals = refl; sent = tt }

overlap-EditsKnown : EditsKnown Known overlap
unfolding overlap EditsKnown connection_params int_of strip lstrip rstrip scan is_space
overlap-EditsKnown = (tt, refl)

Reach-IsKnown_example : IsKnown Known overlapped
Reach-IsKnown_example =
    Reach-IsKnown Known server numeric overlap overlap-EditsKnown session-IsKnown

abbrev routing : Call Real
routing = config_io (pos 1) (pos 2) (pos 0)

abbrev late_world : World
late_world =
    (click 1 (codes "Set LEDs") (codes "Working…") (accepted (set_led (pos 3)))
      (record (click 0 (codes "Apply") (codes "Working…") (accepted routing) session) {
        settings = other;
      })).world

abbrev after_late : World
after_late = (call_api server numeric routing late_world).1

late_run : call_api server numeric routing late_world ≡ (ok tt, after_late)
unfolding call_api api_config_io api_cmd check_status execute_cmd parse_response read_lines
    read_line insert lookup get coerce is_zero splitlines contains partition int_of strip lstrip
    rstrip scan is_space is_break show_int digits click update_connection connection_params
late_run = refl

late_request-Sent_example :
    after_late.sent
    ≡ []
      ++ (record {
        ip = (connection_params other).0;
        port = (connection_params other).1;
        payload = packet_text routing;
      }
          ∷ [])
late_request-Sent_example =
    late_request-Sent server numeric routing (set_led (pos 3)) 0 1 (codes "Apply")
      (codes "Set LEDs") (codes "Working…") (codes "Working…") other session tt late_run

abbrev small_frame : Text
small_frame = frame_command (pos 1) FrameCode.pid_io

abbrev raw_frame : Text
raw_frame = frame_command (pos 4) FrameCode.loopback

abbrev one_sent : World
one_sent = (execute_cmd server small_frame Server.start).1

abbrev two_sent : World
two_sent = (execute_cmd server raw_frame one_sent).1

-- What the server answers.
abbrev good : Response Real
good = parse_response (codes "status:0\n")

good_answer :
    (execute_cmd server small_frame Server.start ≡ (ok good, one_sent))
    × (execute_cmd server raw_frame one_sent ≡ (ok good, two_sent))
    × (is_zero (status_of good) ≡ true)
unfolding execute_cmd parse_response read_lines read_line insert lookup get coerce is_zero
    splitlines contains partition int_of strip lstrip rstrip scan is_space is_break show_int digits
good_answer = (refl, refl, refl)

abbrev rest : FrameCode → World → Result (FrameResult Real) × World
rest fc = capture_rest server fc default_remote_dir good

abbrev small_result : FrameResult Real
small_result = record {
  status = status_of good;
  dma_engaged = code_of good (codes "DMA_ENGAGED_CB");
  decimation_cb = code_of good (codes "DECIMATION_CODE_CB");
  frame_code_cb = code_of good (codes "FRAME_CODE_CB");
  samples = two_rows;
  columns = frame_columns FrameCode.pid_io;
}

abbrev raw_result : FrameResult Real
raw_result = record small_result { columns = frame_columns FrameCode.loopback }

two_results :
    (rest FrameCode.pid_io two_sent ≡ (ok small_result, (rest FrameCode.pid_io two_sent).1))
    × (rest FrameCode.loopback (rest FrameCode.pid_io two_sent).1
        ≡ (ok raw_result, (rest FrameCode.loopback (rest FrameCode.pid_io two_sent).1).1))
unfolding execute_cmd parse_response read_lines read_line insert lookup get coerce is_zero
    splitlines contains partition int_of strip lstrip rstrip scan is_space is_break show_int digits
    fetch ssh_fetch_csv load_csv
two_results = (refl, refl)

overlapped_captures-same_example :
    (two_sent.sent
      ≡ [] ++ (packet_of Server.start small_frame ∷ packet_of Server.start raw_frame ∷ []))
    × Logged server two_sent (default_remote_dir ++ codes "/dma_log.csv") small_result.samples
    × (raw_result.samples ≡ small_result.samples)
    × (small_result.columns ≡ frame_columns FrameCode.pid_io)
    × (raw_result.columns ≡ frame_columns FrameCode.loopback)
overlapped_captures-same_example =
    overlapped_captures-same server (pos 1) (pos 4) FrameCode.pid_io FrameCode.loopback
      default_remote_dir Server.start (λ u v path same. refl) good_answer.0 good_answer.1
      good_answer.2 good_answer.2 two_results.0 two_results.1
