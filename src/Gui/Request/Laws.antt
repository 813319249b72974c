-- ===== src/Gui/Request/Laws.antt =====
-- What a request leaves behind.
use pound_drever_hall.Common.{ℕ, ◌≡◌, refl, false, Option, Text, arith}
use pound_drever_hall.Python.Result.{Result}
use pound_drever_hall.Gui.Check.{Message, Call, accepted, refused}
use pound_drever_hall.Gui.Panel.{busy, unbusy}
use pound_drever_hall.Gui.Panel.Laws.{ready, IsConsistent, busy-IsConsistent, unlock_all-ready}
use pound_drever_hall.Gui.Window.{connection_params}
use pound_drever_hall.Gui.Request.{
  Session, Request, show, click, answered, update_connection, on_reset_connection,
}

module _ {F : Type 0} where
  -- A handler that refuses sends nothing: the panel, the globals with what has been sent, and the
  -- requests under way are as they were.
  pub click-refused :
      (btn : ℕ) (label busy_label : Text) (m : Message F) (s : Session F)
      → let t = click btn label busy_label (refused m) s in
        (t.panel ≡ s.panel) × (t.world ≡ s.world) × (t.requests ≡ s.requests)
  unfolding click show
  click-refused btn label busy_label m s = (refl, refl, refl)

  -- A request freezes its button, sends nothing by itself, and makes the entries' address that of
  -- the commands to come; an outcome that comes next, whether it is a result or an exception, makes
  -- the button ready again under its label.
  pub click-answered :
      (btn : ℕ) (label busy_label : Text) (call : Call F) (outcome : Option (Result (Unit {0})))
      (result : Result (Unit {0})) (s : Session F)
      → let t = click btn label busy_label (accepted call) s in
        let r : Request F = record { btn = btn; label = label; call = call; outcome = outcome } in
        ((t.panel.buttons btn).normal ≡ false)
        × (t.world.server_ip ≡ (connection_params s.settings).0)
        × (t.world.server_port ≡ (connection_params s.settings).1)
        × (t.world.sent ≡ s.world.sent)
        × ((answered r result t).panel.buttons btn ≡ ready label)
  unfolding click answered show busy unbusy update_connection
  click-answered btn label busy_label call outcome result s =
      (ground arith, refl, refl, refl, ground arith)

  -- In a panel whose frozen buttons have their own labels saved, a request that hangs does not keep
  -- its button frozen: after a reset of the connection every button is ready under its own label.
  pub click-reset :
      (labels : ℕ → Text) (btn : ℕ) (label busy_label : Text) (call : Call F) (s : Session F)
      (i : ℕ)
      → IsConsistent labels s.panel
      → (on_reset_connection (click btn label busy_label (accepted call) s)).panel.buttons i
        ≡ ready (labels i)
  unfolding click on_reset_connection show
  click-reset labels btn label busy_label call s i c =
      (unlock_all-ready labels (busy btn busy_label s.panel) i
        (busy-IsConsistent labels btn busy_label s.panel c)).0
