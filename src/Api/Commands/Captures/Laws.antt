-- ===== src/Api/Commands/Captures/Laws.antt =====
-- What a capture sends, and what it returns.
use pound_drever_hall.Common.{
  ◌≡◌, refl, ap, sym, ◌∙◌, Bool, true, false, Option, none, some, [], ◌∷◌, ◌++◌, Text, codes,
  length, if◌then◌else◌, arith,
}
use pound_drever_hall.Common.Int.{ℤ}
use pound_drever_hall.Python.Result.{ok}
use pound_drever_hall.Python.Float.{Float}
use pound_drever_hall.Api.Response.{Response, is_zero}
use pound_drever_hall.Api.Transport.{
  World, Outside, Api, ◌>>=◌, return, execute_cmd, ssh_fetch_csv, load_csv, Array, vector, matrix,
}
use pound_drever_hall.Api.Transport.Laws.{
  packet_of, Sent, execute_cmd-ok_sent, >>=-eq-ok, api_cmd-eq-ok,
}
use pound_drever_hall.Api.Results.{SweepRampResult, FrameResult}
use pound_drever_hall.Api.Types.{
  FrameCode, frame_code_enum, of_value, frame_code_name, frame_columns,
}
use pound_drever_hall.Api.Commands.Captures.{
  api_get_frame, api_get_frame_call, capture_known, capture, frame_command, lower, fetch,
  api_sweep_ramp, api_sweep_ramp_call, sweep_command, columns_of,
}
use pound_drever_hall.Api.Commands.Line.{status_of, code_of}

-- The worlds differ in their files at most.
abbrev pub SameWire : World → World → Type 0
SameWire v w = (v.sent ≡ w.sent) × (v.server_ip ≡ w.server_ip) × (v.server_port ≡ w.server_port)

wire-Sent :
    (cmd : Text) (w v u : World)
    → v ≡ record w { sent = w.sent ++ (packet_of w cmd ∷ []) }
    → SameWire u v
    → Sent w cmd u
wire-Sent cmd w v u e (a, b, c) =
    (a ∙ ap (λ x. x.sent) e, b ∙ ap (λ x. x.server_ip) e, c ∙ ap (λ x. x.server_port) e)

module _ {F : Type 0} ⦃fl : Float F⦄ (out : Outside F) where
  pub fetch-SameWire : (remote name : Text) (w : World) → SameWire (fetch out remote name w).1 w
  unfolding fetch ssh_fetch_csv load_csv
  fetch-SameWire remote name w = ground arith

  -- The rest of a sweep, after its command has been answered.
  rest-SameWire :
      (b : Bool) (remote name : Text) (empty : Array F) (w : World)
      → SameWire ((if b then fetch out remote name else return empty) w).1 w
  rest-SameWire true remote name empty w = fetch-SameWire remote name w
  rest-SameWire false remote name empty w = (refl, refl, refl)

  -- A capture: a command, then the file if the answer is good, then what is built from both.
  pub capture-ok :
      {R : Type 0} (cmd remote name : Text) (empty : Array F) (build : Response F → Array F → R)
      (w : World) {x : R} {w' : World}
      → (execute_cmd out cmd >>= λ r.
            (if is_zero (status_of r) then fetch out remote name else return empty) >>= λ samples.
            return (build r samples))
          w
        ≡ (ok x, w')
      → Sent w cmd w' × (r : Response F) × (samples : Array F) × (build r samples ≡ x)
  capture-ok cmd remote name empty build w {x} {w'} h =
      let rest : Response F → Api (Array F) =
        λ r. if is_zero (status_of r) then fetch out remote name else return empty in
      let (r, v, sent, next) =
        >>=-eq-ok (execute_cmd out cmd) (λ r. rest r >>= λ samples. return (build r samples)) w h in
      let (samples, u, got, built) =
        >>=-eq-ok (rest r) (λ samples. return (build r samples)) v next in
      let wire : SameWire (rest r v).1 v =
        rest-SameWire (is_zero (status_of r)) remote name empty v in
      let e = execute_cmd-ok_sent out cmd w sent in
      let end : (rest r v).1 ≡ w' = ap (λ p. p.1) got ∙ ap (λ p. p.1) built in
      (wire-Sent cmd w v w' e (rw (← end) wire), r, samples, cc)

  -- A sweep that returns has sent its command once, to the server that the globals name, has
  -- left the address of the server as it was, and has the columns of its mode.
  pub api_sweep_ramp-ok :
      (v0 v1 : F) (num_points dac_sel write_delay_us demod_mode : ℤ) (remote_dir : Text) (w : World)
      {r : SweepRampResult F} {w' : World}
      → api_sweep_ramp out v0 v1 num_points dac_sel write_delay_us demod_mode remote_dir w
        ≡ (ok r, w')
      → Sent w (sweep_command v0 v1 num_points dac_sel write_delay_us demod_mode) w'
        × (r.columns ≡ columns_of demod_mode)
  unfolding api_sweep_ramp
  api_sweep_ramp-ok v0 v1 num_points dac_sel write_delay_us demod_mode remote_dir w {r} {w'} h =
      let (call, zero) =
        api_cmd-eq-ok (codes "api_sweep_ramp") (λ (r : SweepRampResult F). r.status)
          (api_sweep_ramp_call out v0 v1 num_points dac_sel write_delay_us demod_mode remote_dir) w
          h in
      let (sent, answer, samples, built) =
        capture-ok (sweep_command v0 v1 num_points dac_sel write_delay_us demod_mode)
          (remote_dir ++ codes "/sweep_log.csv") (codes "sweep_log.csv")
          (matrix (length (columns_of demod_mode)) [])
          (λ r samples. record {
            status = status_of r;
            num_points_cb = code_of r (codes "NUM_POINTS_CB");
            samples = samples;
            columns = columns_of demod_mode;
          })
          w call in
      (sent, sym (ap (λ (s : SweepRampResult F). s.columns) built))

  -- A frame that is captured has a code that is the value of a member of the enumeration; the command
  -- with that value has been sent once, to the server that the globals name, and the address of the
  -- server is as it was.
  pub api_get_frame-ok :
      (decimation frame_code : ℤ) (remote_dir : Text) (w : World) {r : FrameResult F} {w' : World}
      → api_get_frame out decimation frame_code remote_dir w ≡ (ok r, w')
      → (fc : FrameCode) × (of_value frame_code ≡ some fc)
        × (is_zero r.status ≡ true)
        × Sent w (frame_command decimation fc) w'
  unfolding api_get_frame
  api_get_frame-ok decimation frame_code remote_dir w {r} {w'} h =
      let (call, zero) =
        api_cmd-eq-ok (codes "api_get_frame") (λ (r : FrameResult F). r.status)
          (api_get_frame_call out decimation frame_code remote_dir) w h in
      let (fc, found, captured) = known (of_value frame_code) call in
      (
        fc,
        found,
        zero,
        (capture-ok (frame_command decimation fc) (remote_dir ++ codes "/dma_log.csv")
            (codes "dma_" ++ (lower (frame_code_name fc) ++ codes ".csv")) (vector [])
            (λ r samples. record {
              status = status_of r;
              dma_engaged = code_of r (codes "DMA_ENGAGED_CB");
              decimation_cb = code_of r (codes "DECIMATION_CODE_CB");
              frame_code_cb = code_of r (codes "FRAME_CODE_CB");
              samples = samples;
              columns = frame_columns fc;
            })
            w captured).0,
      )
    where
      known :
          (o : Option FrameCode)
          → capture_known out decimation frame_code remote_dir o w ≡ (ok r, w')
          → (fc : FrameCode) × (o ≡ some fc) × (capture out decimation fc remote_dir w ≡ (ok r, w'))
      known none e = cc
      known (some fc) e = (fc, refl, e)
