-- ===== src/Gui/Autolock/Sync/Laws.antt =====
-- After a lock the panels show what the lock has sent.
use pound_drever_hall.Common.{◌≡◌, refl, ap, sym, ◌∙◌, some, Text, codes}
use pound_drever_hall.Common.Int.{ℤ, pos}
use pound_drever_hall.Python.Number.{int_of}
use pound_drever_hall.Python.Result.{ok, >>=-eq-ok}
use pound_drever_hall.Python.Float.{Float}
use pound_drever_hall.Api.Types
use pound_drever_hall.Api.Types.{DacDatSel, PidDatSel, dac_dat_sel_enum, pid_dat_sel_enum}
use pound_drever_hall.Api.Transport.Laws.{ok-injective}
use pound_drever_hall.Api.Arrays.{or_raise-ok}
use pound_drever_hall.Api.Commands.{PidParams}
use pound_drever_hall.Gui.Check.{
  float_or, int_or, float_field, int_field, ◌>>=◌, accepted, config_io, Check, whole,
}
use pound_drever_hall.Gui.Forms.System.{RoutingForm, on_apply_routing}
use pound_drever_hall.Gui.Forms.Pid.{PidForm, read_params}
use pound_drever_hall.Gui.Autolock.Search.{LockPoint}
use pound_drever_hall.Gui.Autolock.Sequence.{lock_pid_params, float_at, int_at}
use pound_drever_hall.Gui.Autolock.Sync.{sync_routing, sync_pid}

module _ {F : Type 0} ⦃fl : Float F⦄ where
  -- The entries that a lock has read, and what it has made of them.
  lock_pid_params-ok :
      (form : PidForm) (point : LockPoint F) {p : PidParams F}
      → lock_pid_params form point ≡ ok p
      → (fl.parse form.kp ≡ some p.kp)
        × (fl.parse form.ki ≡ some p.ki)
        × (fl.parse form.kd ≡ some p.kd)
        × (int_of form.dec ≡ some p.dec)
        × (int_of form.alpha ≡ some p.alpha)
        × (int_of form.sat ≡ some p.sat)
        × (fl.parse form.gain ≡ some p.gain)
        × (p.sp ≡ whole 0)
        × (p.en ≡ pos 1)
  unfolding lock_pid_params
  lock_pid_params-ok form point {p} h =
      let (kp, e₁, h₁) = >>=-eq-ok (float_at form.kp) _ h in
      let (ki, e₂, h₂) = >>=-eq-ok (float_at form.ki) _ h₁ in
      let (kd, e₃, h₃) = >>=-eq-ok (float_at form.kd) _ h₂ in
      let (dec, e₄, h₄) = >>=-eq-ok (int_at form.dec) _ h₃ in
      let (alpha, e₅, h₅) = >>=-eq-ok (int_at form.alpha) _ h₄ in
      let (sat, e₆, h₆) = >>=-eq-ok (int_at form.sat) _ h₅ in
      let (gain, e₇, h₇) = >>=-eq-ok (float_at form.gain) _ h₆ in
      let e = ok-injective h₇ in
      (
        or_raise-ok _ _ e₁ ∙ ap (λ (q : PidParams F). some q.kp) e,
        or_raise-ok _ _ e₂ ∙ ap (λ (q : PidParams F). some q.ki) e,
        or_raise-ok _ _ e₃ ∙ ap (λ (q : PidParams F). some q.kd) e,
        or_raise-ok _ _ e₄ ∙ ap (λ (q : PidParams F). some q.dec) e,
        or_raise-ok _ _ e₅ ∙ ap (λ (q : PidParams F). some q.alpha) e,
        or_raise-ok _ _ e₆ ∙ ap (λ (q : PidParams F). some q.sat) e,
        or_raise-ok _ _ e₇ ∙ ap (λ (q : PidParams F). some q.gain) e,
        sym (ap (λ (q : PidParams F). q.sp) e),
        sym (ap (λ (q : PidParams F). q.en) e),
      )

  -- An entry that is a number is read as it.
  float_field-at :
      {B : Type 0} (s : Text) {x : F} (next : F → Check F B) {r : Check F B}
      → fl.parse s ≡ some x
      → next x ≡ r
      → (float_field s >>= next) ≡ r
  float_field-at s {x} next e h =
      let read : float_field s ≡ accepted x = rw (float_field, float_or, e) in
      ap (λ c. c >>= next) read ∙ h

  int_field-at :
      {B : Type 0} (s : Text) {n : ℤ} (next : ℤ → Check F B) {r : Check F B}
      → int_of s ≡ some n
      → next n ≡ r
      → (int_field s >>= next) ≡ r
  int_field-at s {n} next e h =
      let read : int_field s ≡ accepted n = rw (int_field, int_or, e) in
      ap (λ c. c >>= next) read ∙ h

  -- After a lock, the routing panel makes the call that the lock has made, and the entries of the
  -- controller's panel are read as the parameters that the lock has sent, with its lock point and
  -- its gain as they are read back from six decimals, and "0.0" as 0.
  pub sync-params :
      (routing : RoutingForm) (form : PidForm) (point : LockPoint F) (pid_sel : PidDatSel)
      (bias egain : F) {p : PidParams F}
      → lock_pid_params form point ≡ ok p
      → fl.parse (codes "0.0") ≡ some (whole 0)
      → fl.parse (fl.fixed 6 point.lock_point) ≡ some bias
      → fl.parse (fl.fixed 6 point.egain) ≡ some egain
      → (on_apply_routing {F = F} (sync_routing pid_sel routing)
          ≡ accepted (
              config_io (Types.int DacDatSel.pid) (Types.int routing.dac2_sel) (Types.int pid_sel)))
        × (read_params (sync_pid point form) ≡ accepted (record p { bias = bias; egain = egain }))
  unfolding on_apply_routing sync_routing read_params sync_pid
  sync-params routing form point pid_sel bias egain {p} h zero b g =
      let (kp, ki, kd, dec, alpha, sat, gain, sp, en) = lock_pid_params-ok form point h in
      (
        refl,
        float_field-at form.kp _ kp (
            float_field-at form.ki _ ki (
              float_field-at form.kd _ kd (
                float_field-at (codes "0.0") _ zero (
                  int_field-at form.dec _ dec (
                    int_field-at form.alpha _ alpha (
                      int_field-at form.sat _ sat (
                        float_field-at form.gain _ gain (
                          float_field-at (fl.fixed 6 point.lock_point) _ b (
                            float_field-at (fl.fixed 6 point.egain) _ g (λ i. accepted (record p {
                              sp = sym sp i;
                              en = sym en i;
                              bias = bias;
                              egain = egain;
                            }))))))))))),
      )
