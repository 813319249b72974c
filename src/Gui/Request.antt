-- ===== src/Gui/Request.antt =====
-- client/gui.py: the life of a request, `_update_connection`, `_prep_call`, `run_in_bg` with the
-- answers of its thread, and `_on_reset_connection`. A request is made by a button; the thread runs
-- the call at some later time and hands its outcome to the event loop, which may be later still.
pub mod Laws
pub mod Overlap
use pound_drever_hall.Common.{
  ℕ, suc, Bool, true, false, Option, none, some, List, [], ◌∷◌, Text, ◌==◌, if◌then◌else◌,
}
use pound_drever_hall.Common.Int.{ℤ}
use pound_drever_hall.Python.Result.{Error, Result, ok, err}
use pound_drever_hall.Api.Transport.{World, Api}
use pound_drever_hall.Gui.Check.{Message, caught, Call, Check, accepted, refused, dropped}
use pound_drever_hall.Gui.Panel.{Button, Panel, busy, unbusy, unlock_all}
use pound_drever_hall.Gui.Window.{
  Settings, connection_params, Status, failed, succeeded, unlocked, StatusBar, set_status,
}

-- A request that is under way: the button that made it with the label that it gets back, its call,
-- and what the thread has handed to the event loop.
pub record Request (F : Type 0) : Type 0 where
  pub btn : ℕ
  pub label : Text
  pub call : Call F
  pub outcome : Option (Result (Unit {0}))

-- One panel, the module's globals, the status bar, the connection entries, and the requests.
pub record Session (F : Type 0) : Type 0 where
  pub panel : Panel
  pub world : World
  pub bar : StatusBar F
  pub settings : Settings
  pub requests : List (Request F)

-- `_update_connection`, whose two assignments are one step here
unfoldable pub update_connection : Text × ℤ → World → World
update_connection (ip, port) w = record w { server_ip = ip; server_port = port }

module _ {F : Type 0} where
  -- `self.err(e)` and `self.ok(msg)`
  unfoldable pub show : Status F → Session F → Session F
  show m s = record s { bar = set_status m s.bar }

  -- What a handler does with its fields: it refuses, or it makes a request.
  unfoldable pub click : ℕ → Text → Text → Check F (Call F) → Session F → Session F
  click btn label busy_label (accepted call) s = record s {
    panel = busy btn busy_label s.panel;
    world = update_connection (connection_params s.settings) s.world;
    requests = record { btn = btn; label = label; call = call; outcome = none } ∷ s.requests;
  }
  click btn label busy_label (refused m) s = show (failed m) s
  click btn label busy_label dropped s = s

  -- The status that an outcome is shown as.
  abbrev shown : Request F → Result (Unit {0}) → Status F
  shown r (ok _) = succeeded r.call
  shown r (err e) = failed (caught e)

  -- `on_ok` and `on_err`
  unfoldable pub answered : Request F → Result (Unit {0}) → Session F → Session F
  answered r result s = show (shown r result) (record s { panel = unbusy r.btn r.label s.panel })

  -- `_on_reset_connection`
  pub on_reset_connection : Session F → Session F
  on_reset_connection s = show unlocked (record s { panel = unlock_all s.panel })

  -- The thread of a request: the call is run on the globals as they are then.
  unfoldable pub run_in_bg : (Call F → Api (Unit {0})) → Request F → World → Request F × World
  run_in_bg run r w = let (result, w') = run r.call w in (record r { outcome = some result }, w')
