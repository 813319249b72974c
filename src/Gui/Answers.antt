-- ===== src/Gui/Answers.antt =====
-- client/gui.py: `on_ok` of the routing, NCO and demodulation panels. What is shown is made before
-- the button is given back, and an exception while it is made leaves the callback.
pub mod Laws
use pound_drever_hall.Common.{
  ℕ, Option, none, some, List, [], ◌∷◌, ◌++◌, Text, codes, if◌then◌else◌,
}
use pound_drever_hall.Common.Int.{pos}
use pound_drever_hall.Python.Result.{Result, ok, err, value_error, ◌>>=◌}
use pound_drever_hall.Python.Float.{Float}
use pound_drever_hall.Api.Types
use pound_drever_hall.Api.Types.{
  IntEnum, of_value, DacDatSel, PidDatSel, DemodRefSel, DemodInSel, dac_dat_sel_enum,
  pid_dat_sel_enum, demod_ref_sel_enum, demod_in_sel_enum,
}
use pound_drever_hall.Api.Response.{Value, int, float, str, show_value}
use pound_drever_hall.Api.Results.{ConfigIoResult, ConfigDemodResult, SetNcoResult}
use pound_drever_hall.Gui.Request.{Request, Session, answered}

module _ {F : Type 0} ⦃fl : Float F⦄ where
  -- The member whose value equals a float.
  abbrev equal_member : {E : Type 0} → (E → ℕ) → F → List E → Option E
  equal_member value x [] = none
  equal_member value x (e ∷ es) =
      let rest = equal_member value x es in
      if fl.eq (fl.of_int (pos (value e))) x then some e else rest

  abbrev no_member : {E : Type 0} → Value F → Option E → Result E
  no_member v none = err (value_error (show_value v ++ codes " is not a valid member"))
  no_member v (some e) = ok e

  -- `E(v)` of an echo
  unfoldable pub member_of : {E : Type 0} → ⦃i : IntEnum E⦄ → Value F → Result E
  member_of (int n) = no_member (int n) (of_value n)
  member_of ⦃i⦄ (float x) = no_member (float x) (equal_member i.value x i.members)
  member_of (str s) = no_member (str s) none

  -- f"{v:.nf}", which takes numbers only
  unfoldable pub number_text : ℕ → Value F → Result Text
  number_text n (int k) = ok (fl.fixed n (fl.of_int k))
  number_text n (float x) = ok (fl.fixed n x)
  number_text n (str s) =
      err (value_error (codes "Unknown format code 'f' for object of type 'str'"))

  unfoldable pub routing_text : ConfigIoResult F → Result Text
  routing_text r = member_of {E = DacDatSel} r.dac1_dat_sel_cb >>= λ d1.
      member_of {E = DacDatSel} r.dac2_dat_sel_cb >>= λ d2.
      member_of {E = PidDatSel} r.pid_dat_sel_cb >>= λ pid. ok (
        codes "dac1="
        ++ (dac_dat_sel_enum.name d1
            ++ (codes "  dac2="
                ++ (dac_dat_sel_enum.name d2 ++ (codes "  pid=" ++ pid_dat_sel_enum.name pid)))))

  unfoldable pub demod_text : ConfigDemodResult F → Result Text
  demod_text r = member_of {E = DemodRefSel} r.ref_sel_cb >>= λ ref.
      member_of {E = DemodInSel} r.in_sel_cb >>= λ inp. ok (
        codes "ref="
        ++ (demod_ref_sel_enum.name ref
            ++ (codes "  in="
                ++ (demod_in_sel_enum.name inp
                    ++ (codes "  alpha=" ++ show_value r.lpf_alpha_cb)))))

  unfoldable pub nco_text : SetNcoResult F → Result Text
  nco_text r = number_text 1 r.registered_freq >>= λ freq.
      number_text 2 r.registered_freq_error >>= λ error.
      number_text 2 r.registered_phase_shift >>= λ shift. ok (
        codes "freq="
        ++ (freq
            ++ (codes " Hz  err="
                ++ (error
                    ++ (codes " Hz  shift="
                        ++ (shift ++ (codes "°  en=" ++ show_value r.en_cb)))))))

  -- The text under the button, and the session, after an answer that shows a text.
  abbrev pub finish : Request F → Result Text → Text × Session F → Text × Session F
  finish r (err e) (fb, s) = (fb, s)
  finish r (ok text) (fb, s) = (text, answered r (ok tt) s)

  unfoldable pub routing_answered :
      Request F → ConfigIoResult F → Text × Session F → Text × Session F
  routing_answered r result = finish r (routing_text result)

  unfoldable pub demod_answered :
      Request F → ConfigDemodResult F → Text × Session F → Text × Session F
  demod_answered r result = finish r (demod_text result)

  unfoldable pub nco_answered : Request F → SetNcoResult F → Text × Session F → Text × Session F
  nco_answered r result = finish r (nco_text result)
