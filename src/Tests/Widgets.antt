-- ===== src/Tests/Widgets.antt =====
-- Runs of the theorems on the status bar and on the panels' base of client/gui.py.
use pound_drever_hall.Common.{ℕ, refl, none, [], Text, codes}
use pound_drever_hall.Gui.Panel.{Panel, busy, unbusy}
use pound_drever_hall.Gui.Panel.Laws as Buttons
use pound_drever_hall.Gui.Panel.Laws.{
  ready, IsConsistent, busy-IsConsistent, Reach-IsConsistent, unlock_all-ready,
}
use pound_drever_hall.Gui.Window
use pound_drever_hall.Gui.Window.{Status, unlocked, StatusBar, set_status, fire, after, cancel_any}
use pound_drever_hall.Gui.Window.Laws
use pound_drever_hall.Gui.Window.Laws.{IsTidy, Reach-IsTidy}
use pound_drever_hall.Tests.Numbers.{Real}

abbrev quiet_bar : StatusBar Real
quiet_bar = record {
  status = Window.ready;
  status_timer = none;
  timers = record { pending = []; next_id = 0 };
}

Reach-IsTidy_example : IsTidy (set_status unlocked (set_status unlocked quiet_bar))
Reach-IsTidy_example =
    Reach-IsTidy (record { owns = refl; idle = λ e. refl })
      (Laws.Reach.next (Laws.Reach.next Laws.Reach.here (Laws.Step.set quiet_bar unlocked))
        (Laws.Step.set (set_status unlocked quiet_bar) unlocked))

abbrev apply_label : ℕ → Text
apply_label i = codes "Apply"

abbrev ready_panel : Panel
ready_panel = record { buttons = λ i. ready (codes "Apply"); busy_btns = [] }

ready_panel-IsConsistent : IsConsistent apply_label ready_panel
ready_panel-IsConsistent = record { agrees = λ i. refl; saved = tt }

abbrev busy_panel : Panel
busy_panel = busy 0 (codes "Working…") ready_panel

Reach-IsConsistent_example : IsConsistent apply_label (unbusy 0 (codes "Apply") busy_panel)
Reach-IsConsistent_example = Reach-IsConsistent apply_label ready_panel-IsConsistent (
    Buttons.Reach.next
      (Buttons.Reach.next Buttons.Reach.here (Buttons.Step.freeze 0 (codes "Working…") ready_panel))
      (Buttons.Step.give_back 0 busy_panel))
