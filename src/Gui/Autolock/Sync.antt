-- ===== src/Gui/Autolock/Sync.antt =====
-- client/gui.py: what the answer of a lock writes into the other panels, in `on_ok` of
-- `_on_autolock` and of `_persist_tick`.
pub mod Laws
use pound_drever_hall.Common.{true, Text, codes}
use pound_drever_hall.Python.Float.{Float}
use pound_drever_hall.Api.Types.{DacDatSel, PidDatSel}
use pound_drever_hall.Gui.Forms.System.{RoutingForm}
use pound_drever_hall.Gui.Forms.Pid.{PidForm}
use pound_drever_hall.Gui.Autolock.Search.{LockPoint}

unfoldable pub sync_routing : PidDatSel → RoutingForm → RoutingForm
sync_routing pid_sel form = record form { dac1_sel = DacDatSel.pid; pid_sel = pid_sel }

unfoldable pub sync_pid : {F : Type 0} → ⦃fl : Float F⦄ → LockPoint F → PidForm → PidForm
sync_pid ⦃fl⦄ point form = record form {
  sp = codes "0.0";
  bias = fl.fixed 6 point.lock_point;
  egain = fl.fixed 6 point.egain;
  en_var = true;
}
