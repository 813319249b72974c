-- ===== src/Gui/Request/Overlap/Address.antt =====
-- client/gui.py: where the threads of overlapping requests send. The address of the server is a
-- global of the API: each accepted click sets it from the entries, and a thread reads it when it runs.
use pound_drever_hall.Common.{ℕ, ◌≡◌, sym, All-append, List, [], ◌∷◌, ◌++◌, Text, All, subst}
use pound_drever_hall.Common.Int.{ℤ}
use pound_drever_hall.Python.Result.{Result, ok}
use pound_drever_hall.Python.Float.{Float}
use pound_drever_hall.Api.Transport.{Packet, World, Outside, Api}
use pound_drever_hall.Api.Transport.Address.{IsTo, Keeps}
use pound_drever_hall.Api.Analysis.Numeric.{Numeric}
use pound_drever_hall.Gui.Check.{Call, Check, accepted, refused, dropped}
use pound_drever_hall.Gui.Window.{Settings, connection_params}
use pound_drever_hall.Gui.Calls.{call_api}
use pound_drever_hall.Board.Calls.{HasCoeffs, packet_text, call_api-Sent}
use pound_drever_hall.Gui.Calls.Address.{call_api-Keeps}
use pound_drever_hall.Gui.Request.{
  Request, Session, show, click, answered, run_in_bg, update_connection,
}
use pound_drever_hall.Gui.Request.Overlap.{
  worked, edits, clicks, works, answers, Reach, start, later,
}

-- The address that a packet has gone to.
abbrev pub sent_to : Packet → Text × ℤ
sent_to p = (p.ip, p.port)

-- The address that the globals of the API name.
abbrev pub address_of : World → Text × ℤ
address_of w = (w.server_ip, w.server_port)

module _ (Known : Text × ℤ → Type 0) where
  -- What is known of an address is known of an equal one.
  address-Known :
      {ip ip' : Text} {port port' : ℤ}
      → ip' ≡ ip
      → port' ≡ port
      → Known (ip, port)
      → Known (ip', port')
  address-Known {ip} {ip'} {port} {port'} e f known =
      subst (λ i. Known (i, port')) (sym e) (subst (λ k. Known (ip, k)) (sym f) known)

  IsTo-Known :
      (ip : Text) (port : ℤ) (packets : List Packet)
      → Known (ip, port)
      → All (IsTo ip port) packets
      → All (λ p. Known (sent_to p)) packets
  IsTo-Known ip port [] known all = tt
  IsTo-Known ip port (p ∷ packets) known ((e, f), all) =
      (address-Known e f known, IsTo-Known ip port packets known all)

module _ {F : Type 0} (Known : Text × ℤ → Type 0) where
  -- The entries and the globals name known addresses, and so far all has gone to known ones.
  pub record IsKnown (s : Session F) : Type 0 where
    pub entries : Known (connection_params s.settings)
    pub globals : Known (address_of s.world)
    pub sent : All (λ p. Known (sent_to p)) s.world.sent

  -- Each edit of the entries on the way names a known address.
  unfoldable pub EditsKnown :
      {run : Call F → Api (Unit {0})} {s t : Session F} → Reach run s t → Type 0
  EditsKnown start = Unit
  EditsKnown (later reach (edits settings)) = EditsKnown reach × Known (connection_params settings)
  EditsKnown (later reach _) = EditsKnown reach

  -- A thread whose call keeps the address sends to known addresses.
  worked-IsKnown :
      (run : Call F → Api (Unit {0})) (before : List (Request F)) (r : Request F)
      (after : List (Request F)) (s : Session F)
      → Keeps (run r.call)
      → IsKnown s
      → IsKnown (worked run before r after s)
  unfolding worked run_in_bg
  worked-IsKnown run before r after s keeps known =
      let e = keeps.extends s.world in
      let ip = s.world.server_ip in
      let port = s.world.server_port in
      record {
        entries = known.entries;
        globals = address-Known Known e.ip e.port known.globals;
        sent = subst (All (λ p. Known (sent_to p))) (sym e.sent) (
            All-append (λ p. Known (sent_to p)) s.world.sent e.packets known.sent
              (IsTo-Known Known ip port e.packets known.globals e.address));
      }

  click-IsKnown :
      (btn : ℕ) (label busy_label : Text) (check : Check F (Call F)) (s : Session F)
      → IsKnown s
      → IsKnown (click btn label busy_label check s)
  unfolding click show update_connection
  click-IsKnown btn label busy_label (accepted call) s known = record {
    entries = known.entries;
    globals = known.entries;
    sent = known.sent;
  }
  click-IsKnown btn label busy_label (refused m) s known = record {
    entries = known.entries;
    globals = known.globals;
    sent = known.sent;
  }
  click-IsKnown btn label busy_label dropped s known = known

  answered-IsKnown :
      (r : Request F) (result : Result (Unit {0})) (rest : List (Request F)) (s : Session F)
      → IsKnown s
      → IsKnown (answered r result (record s { requests = rest }))
  unfolding answered show
  answered-IsKnown r result rest s known = record {
    entries = known.entries;
    globals = known.globals;
    sent = known.sent;
  }

  module _ ⦃fl : Float F⦄ (out : Outside F) (np : Numeric F) where
    -- However the requests overlap, all that is sent goes to a known address, where the globals and
    -- the entries name known addresses at the start, what has been sent by then has gone to such, and
    -- each later edit of the entries names one. No call of a panel changes the address.
    pub Reach-IsKnown :
        {s t : Session F} (reach : Reach (call_api out np) s t)
        → EditsKnown reach
        → IsKnown s
        → IsKnown t
    unfolding EditsKnown
    Reach-IsKnown start e known = known
    Reach-IsKnown (later reach (edits settings)) (e, k) known =
        let before = Reach-IsKnown reach e known in
        record { entries = k; globals = before.globals; sent = before.sent }
    Reach-IsKnown (later {t} reach (clicks btn label busy_label check ready)) e known =
        click-IsKnown btn label busy_label check t (Reach-IsKnown reach e known)
    Reach-IsKnown (later {t} reach (works before r after held waits)) e known =
        worked-IsKnown (call_api out np) before r after t (call_api-Keeps out np r.call)
          (Reach-IsKnown reach e known)
    Reach-IsKnown (later {t} reach (answers before r after result held done)) e known =
        answered-IsKnown r result (before ++ after) t (Reach-IsKnown reach e known)

module _ {F : Type 0} ⦃fl : Float F⦄ (out : Outside F) (np : Numeric F) where
  -- Two requests overlap: the entries are edited after the first click and before the second, and the
  -- thread of the first runs after the second click. Where its call returns, and coefficients that it
  -- sends are not empty, its command has gone to the address that was entered for the second request,
  -- whatever the entries were at its own click.
  pub late_request-Sent :
      (first second : Call F) (btn btn' : ℕ) (label label' busy_label busy_label' : Text)
      (settings : Settings) (s : Session F) {w' : World}
      → HasCoeffs first
      → (let clicked = click btn label busy_label (accepted first) s in
          let edited : Session F = record clicked { settings = settings } in
          call_api out np first (click btn' label' busy_label' (accepted second) edited).world)
        ≡ (ok tt, w')
      → w'.sent
        ≡ s.world.sent
          ++ (record {
            ip = (connection_params settings).0;
            port = (connection_params settings).1;
            payload = packet_text first;
          }
              ∷ [])
  unfolding click update_connection
  late_request-Sent first second btn btn' label label' busy_label busy_label' settings s full h =
      (call_api-Sent out np first _ full h).0
