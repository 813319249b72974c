-- ===== src/Tests/Api.antt =====
-- Runs of the theorems on client/pdh_api.
use pound_drever_hall.Common.{◌≡◌, refl, ◌↔◌, true, some, List, [], ◌∷◌, Text, codes}
use pound_drever_hall.Common.Int.{pos}
use pound_drever_hall.Python.Result.{ok}
use pound_drever_hall.Python.Str.{is_space, contains}
use pound_drever_hall.Api.Types.{frame_code_enum}
use pound_drever_hall.Api.Response.{Value, int, parse_response, is_zero}
use pound_drever_hall.Api.Response.Laws.{parse_response-render, IsField, IsKey, Field, enter}
use pound_drever_hall.Api.Transport.{api_cmd, return}
use pound_drever_hall.Api.Transport.Laws.{api_cmd-ok_iff}
use pound_drever_hall.Api.Results.{ResetResult}
use pound_drever_hall.Tests.Numbers.{Real, real_float}
use pound_drever_hall.Tests.Server.{start}

abbrev status_key : Text
status_key = codes "status"

status_key-IsKey : IsKey status_key
unfolding contains is_space
status_key-IsKey = record {
  not_empty = λ e. cc;
  plain = (refl, (refl, (refl, (refl, (refl, (refl, tt))))));
  no_colon = refl;
}

abbrev reset_result : ResetResult Real
reset_result = record { status = int (pos 0); rst_raw_cb = int (pos 0) }

abbrev status_of_reset : ResetResult Real → Value Real
status_of_reset r = r.status

api_cmd-ok_iff_example :
    ((api_cmd
        (codes "api_reset_fpga")
        (λ r. some (status_of_reset r))
        (return reset_result)
        start).0
      ≡ ok reset_result)
    ↔ (((return reset_result start).0 ≡ ok reset_result) × (is_zero reset_result.status ≡ true))
api_cmd-ok_iff_example =
    api_cmd-ok_iff (codes "api_reset_fpga") status_of_reset (return reset_result) start reset_result

abbrev fields : List Field
fields = (status_key, codes "0") ∷ (status_key, codes "-1") ∷ []

fields-IsField : IsField (status_key, codes "0") × (IsField (status_key, codes "-1") × Unit {0})
unfolding is_space
fields-IsField = ((status_key-IsKey, (refl, tt)), ((status_key-IsKey, (refl, (refl, tt))), tt))

parse_response-render_example :
    parse_response {F = Real} (codes "status:0\nstatus:-1\n") ≡ enter fields []
parse_response-render_example = parse_response-render fields fields-IsField
