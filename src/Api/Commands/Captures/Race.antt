-- ===== src/Api/Commands/Captures/Race.antt =====
-- client/pdh_api/api.py: two threads that capture frames. The lock is held for one command only, so
-- the command of the second may come between the command of the first and its fetch.
use mathlib.Core.List.{append_assoc}
use pound_drever_hall.Common.{
  ◌≡◌, refl, ap, sym, ◌∙◌, true, some, List, [], ◌∷◌, ◌++◌, Text, codes, text_eq_refl, arith,
}
use pound_drever_hall.Common.Int.{ℤ}
use pound_drever_hall.Python.Result.{ok}
use pound_drever_hall.Python.Float.{Float}
use pound_drever_hall.Api.Response.{Response, is_zero}
use pound_drever_hall.Api.Types.{FrameCode, frame_columns, frame_code_name}
use pound_drever_hall.Api.Results.{FrameResult}
use pound_drever_hall.Api.Transport.{
  World, Outside, ◌>>=◌, return, execute_cmd, ssh_fetch_csv, load_csv, Transfer, refused, broken,
  complete, local_path, Array, file_at, write_file,
}
use pound_drever_hall.Api.Transport.Laws.{packet_of, execute_cmd-ok_sent, >>=-eq-ok, ok-injective}
use pound_drever_hall.Api.Commands.Captures.{capture_rest, frame_command, fetch, lower}
use pound_drever_hall.Api.Commands.Captures.Laws.{SameWire, fetch-SameWire}
use pound_drever_hall.Api.Commands.Line.{status_of, code_of}

file_at-write_file :
    (path content : Text) (files : List (Text × Text))
    → file_at path (write_file path content files) ≡ some content
file_at-write_file path content [] = rw (text_eq_refl path) refl
file_at-write_file path content ((p, c) ∷ files) =
    ground (arith, file_at-write_file path content files)

two_sent :
    (cmd cmd' : Text) (w : World) {w1 w2 : World}
    → w1 ≡ record w { sent = w.sent ++ (packet_of w cmd ∷ []) }
    → w2 ≡ record w1 { sent = w1.sent ++ (packet_of w1 cmd' ∷ []) }
    → w2.sent ≡ w.sent ++ (packet_of w cmd ∷ packet_of w cmd' ∷ [])
two_sent cmd cmd' w {w1} e e' =
    ap (λ u. u.sent) e'
    ∙ ap (λ u. u.sent ++ (packet_of u cmd' ∷ [])) e
    ∙ append_assoc w.sent (packet_of w cmd ∷ []) (packet_of w cmd' ∷ [])

module _ {F : Type 0} ⦃fl : Float F⦄ (out : Outside F) where
  -- What a fetch returns is in the file that the server has at that time.
  pub record Logged (w : World) (path : Text) (samples : Array F) : Type 0 where
    pub content : Text
    pub complete : out.sftp_get w path ≡ Transfer.complete content
    pub loaded : out.loadtxt content ≡ ok samples

  ssh_fetch-ok :
      (remote name : Text) (w : World) (t : Transfer) {path : Text} {v : World}
      → out.sftp_get w remote ≡ t
      → ssh_fetch_csv out remote name w ≡ (ok path, v)
      → (content : Text) × (out.sftp_get w remote ≡ complete content)
        × (file_at path v.files ≡ some content)
  unfolding ssh_fetch_csv
  ssh_fetch-ok remote name w refused e h = let h' = rw (e, ssh_fetch_csv) at h in cc
  ssh_fetch-ok remote name w (broken content) e h = let h' = rw (e, ssh_fetch_csv) at h in cc
  ssh_fetch-ok remote name w (complete content) {path} {v} e h =
      let path' = local_path name in
      let files = write_file path' content w.files in
      let h' : (ok path', record w { files = files }) ≡ (ok path, v) = rw (e, ssh_fetch_csv) at h in
      let at : file_at path' files ≡ some content = file_at-write_file path' content w.files in
      let same : path' ≡ path = ok-injective (ap (λ p. p.0) h') in
      let world : files ≡ v.files = ap (λ p. p.1.files) h' in (content, e, rw (← same, ← world) at)

  load_csv-ok :
      (path content : Text) (w : World) {samples : Array F} {w' : World}
      → file_at path w.files ≡ some content
      → load_csv out path w ≡ (ok samples, w')
      → out.loadtxt content ≡ ok samples
  unfolding load_csv
  load_csv-ok path content w e h =
      let h' : (out.loadtxt content, w) ≡ _ = rw (e, load_csv) at h in ap (λ p. p.0) h'

  fetch-Logged :
      (remote name : Text) (w : World) {samples : Array F} {w' : World}
      → fetch out remote name w ≡ (ok samples, w')
      → Logged w remote samples
  unfolding fetch
  fetch-Logged remote name w h =
      let (path, v, got, read) = >>=-eq-ok (ssh_fetch_csv out remote name) (load_csv out) w h in
      let (content, whole, at) = ssh_fetch-ok remote name w _ refl got in
      record { content = content; complete = whole; loaded = load_csv-ok path content v at read }

  -- The end of a capture that succeeded: its samples are in the file that the server has then.
  capture_rest-Logged :
      (fc : FrameCode) (dir : Text) (r : Response F) (w : World) {a : FrameResult F} {w' : World}
      → is_zero (status_of r) ≡ true
      → capture_rest out fc dir r w ≡ (ok a, w')
      → Logged w (dir ++ codes "/dma_log.csv") a.samples
        × SameWire w' w
        × (a.columns ≡ frame_columns fc)
  capture_rest-Logged fc dir r w {a} {w'} zero h =
      let remote = dir ++ codes "/dma_log.csv" in
      let name = codes "dma_" ++ (lower (frame_code_name fc) ++ codes ".csv") in
      let build : Array F → FrameResult F = λ samples. record {
        status = status_of r;
        dma_engaged = code_of r (codes "DMA_ENGAGED_CB");
        decimation_cb = code_of r (codes "DECIMATION_CODE_CB");
        frame_code_cb = code_of r (codes "FRAME_CODE_CB");
        samples = samples;
        columns = frame_columns fc;
      } in
      let fetched : (fetch out remote name >>= λ samples. return (build samples)) w ≡ (ok a, w') =
        rw zero at h in
      let (samples, v, got, made) =
        >>=-eq-ok (fetch out remote name) (λ samples. return (build samples)) w fetched in
      let built : build samples ≡ a = ok-injective (ap (λ p. p.0) made) in
      let end : (fetch out remote name w).1 ≡ w' = ap (λ p. p.1) got ∙ ap (λ p. p.1) made in
      (
        rw (← built) (fetch-Logged remote name w got),
        rw (← end) (fetch-SameWire out remote name w),
        sym (ap (λ (r : FrameResult F). r.columns) built),
      )

  Logged-same :
      (u v : World) (path : Text) {xs ys : Array F}
      → out.sftp_get v path ≡ out.sftp_get u path
      → Logged u path xs
      → Logged v path ys
      → ys ≡ xs
  Logged-same u v path {xs} {ys} same f g =
      let text : complete g.content ≡ complete f.content = sym g.complete ∙ same ∙ f.complete in
      let content : g.content ≡ f.content = cc in
      ok-injective (sym g.loaded ∙ ap out.loadtxt content ∙ f.loaded)

  -- Two threads capture frames of the same directory, and the command of the second comes between
  -- the command of the first and its fetch. What the server has logged is taken to depend only on
  -- what it has been sent and on its address. Where both captures succeed and return, both packets
  -- have gone before either fetch, both results hold the same samples, which are those that the server
  -- has logged after the second command, and each has the columns of its own frame.
  pub overlapped_captures-same :
      (dec dec' : ℤ) (fc fc' : FrameCode) (dir : Text) (w : World) {w1 w2 w3 w4 : World}
      {r r' : Response F} {a b : FrameResult F}
      → ((u v : World) (path : Text) → SameWire u v → out.sftp_get u path ≡ out.sftp_get v path)
      → execute_cmd out (frame_command dec fc) w ≡ (ok r, w1)
      → execute_cmd out (frame_command dec' fc') w1 ≡ (ok r', w2)
      → is_zero (status_of r) ≡ true
      → is_zero (status_of r') ≡ true
      → capture_rest out fc dir r w2 ≡ (ok a, w3)
      → capture_rest out fc' dir r' w3 ≡ (ok b, w4)
      → (w2.sent
          ≡ w.sent
            ++ (packet_of w (frame_command dec fc) ∷ packet_of w (frame_command dec' fc') ∷ []))
        × Logged w2 (dir ++ codes "/dma_log.csv") a.samples
        × (b.samples ≡ a.samples)
        × (a.columns ≡ frame_columns fc)
        × (b.columns ≡ frame_columns fc')
  overlapped_captures-same dec dec' fc fc' dir w {w1} {w2} {w3} {a} {b} by_wire c c' zero zero' h
        h' =
      let e = execute_cmd-ok_sent out (frame_command dec fc) w c in
      let e' = execute_cmd-ok_sent out (frame_command dec' fc') w1 c' in
      let (first, wire, cols) = capture_rest-Logged fc dir _ w2 zero h in
      let (second, _, cols') = capture_rest-Logged fc' dir _ w3 zero' h' in
      let same = by_wire w3 w2 (dir ++ codes "/dma_log.csv") wire in
      (two_sent _ _ w e e', first, Logged-same w2 w3 _ same first second, cols, cols')
