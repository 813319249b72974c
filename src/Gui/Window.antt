-- ===== src/Gui/Window.antt =====
-- client/gui.py: the settings bar and the status bar of `_App`. Tk's `after` gives every timer a
-- number of its own; a timer that is pending fires once, unless it is cancelled.
pub mod Laws
use pound_drever_hall.Common.{
  ℕ, suc, ◌+◌, Bool, true, false, Option, none, some, List, [], ◌∷◌, Text, codes, ◌==◌,
  if◌then◌else◌,
}
use pound_drever_hall.Common.Int.{ℤ, pos}
use pound_drever_hall.Python.Str.{strip}
use pound_drever_hall.Python.Number.{int_of}
use pound_drever_hall.Gui.Check.{Message, Call}

abbrev default_ip : Text
default_ip = codes "10.42.0.62"

abbrev default_port : ℤ
default_port = pos 5555

-- The entries of the settings bar.
pub record Settings : Type 0 where
  pub ip_var : Text
  pub port_var : Text

-- `strip() or DEFAULT_IP`
abbrev or_default : Text → Text
or_default [] = default_ip
or_default (c ∷ s) = c ∷ s

-- `_connection_params`
unfoldable pub connection_params : Settings → Text × ℤ
connection_params s = (
  or_default (strip s.ip_var),
  elim (int_of s.port_var) [ none ↦ default_port | some port ↦ port ],
)

pub data Status (F : Type 0) : Type 0 where
  ready : Status F
  failed : Message F → Status F
  -- the message of the success of a call, and that of a reset of the connection
  succeeded : Call F → Status F
  unlocked : Status F

-- The timers of the event loop that are pending, and the number of the next one.
pub record Timers : Type 0 where
  pub pending : List ℕ
  pub next_id : ℕ

abbrev pub remove : ℕ → List ℕ → List ℕ
remove t [] = []
remove t (u ∷ ts) = if u == t then remove t ts else u ∷ remove t ts

abbrev pub has : ℕ → List ℕ → Bool
has t [] = false
has t (u ∷ ts) = if u == t then true else has t ts

-- `after` and `after_cancel`
unfoldable pub after : Timers → ℕ × Timers
after t = (t.next_id, record { pending = t.next_id ∷ t.pending; next_id = suc t.next_id })

unfoldable pub after_cancel : ℕ → Timers → Timers
after_cancel id t = record t { pending = remove id t.pending }

unfoldable pub cancel_any : Option ℕ → Timers → Timers
cancel_any none t = t
cancel_any (some id) t = after_cancel id t

pub record StatusBar (F : Type 0) : Type 0 where
  pub status : Status F
  pub status_timer : Option ℕ
  pub timers : Timers

module _ {F : Type 0} where
  pub set_status : Status F → StatusBar F → StatusBar F
  set_status s b =
      let (id, timers) = after (cancel_any b.status_timer b.timers) in
      record { status = s; status_timer = some id; timers = timers }

  pub clear_status : StatusBar F → StatusBar F
  clear_status b = record b { status = ready; status_timer = none }

  -- The event loop takes a timer that is due and runs its callback.
  pub fire : ℕ → StatusBar F → StatusBar F
  fire id b = clear_status (record b { timers = after_cancel id b.timers })
