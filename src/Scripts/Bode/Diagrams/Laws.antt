-- ===== src/Scripts/Bode/Diagrams/Laws.antt =====
-- The axes of the stability margins, of which the note on a missing crossover is never shown.
use pound_drever_hall.Common.{
  ◌≡◌, refl, true, false, Option, some, List, [], ◌∷◌, ◌++◌, Bool-cases, inl, inr,
}
use pound_drever_hall.Python.Result.{ok, >>=-eq-ok}
use pound_drever_hall.Python.Float.{Float}
use pound_drever_hall.Fir.Design.{num}
use pound_drever_hall.Scripts.FirFreq.{finite}
use pound_drever_hall.Scripts.Bode.{
  Margins, Configs, Series, autolim, padded, sorted_data, series_of, margin_series,
}
use pound_drever_hall.Scripts.Bode.Diagrams.{
  MarginAxes, all_present, pm_limits, gm_limits, axes_of, margin_axes, pad_frac, present,
}

module _ {F : Type 0} ⦃fl : Float F⦄ where
  -- Values of which one is finite have a first finite one.
  finite-some :
      (values : List F) (r : F) (refs : List F)
      → fl.is_finite r ≡ true
      → (v : F) × (vs : List F) × (finite (values ++ (r ∷ refs)) ≡ v ∷ vs)
  unfolding finite
  finite-some [] r refs h = (r, finite refs, rw h refl)
  finite-some (x ∷ values) r refs h = elim (Bool-cases (fl.is_finite x)) [
    | inl good ↦ (x, finite (values ++ (r ∷ refs)), rw good refl)
    | inr bad ↦ let (v, vs, e) = finite-some values r refs h in (v, vs, rw bad e)
  ]

  padded-some : (pad v : F) (vs : List F) → (limits : F × F) × (padded pad (v ∷ vs) ≡ some limits)
  padded-some pad v vs = (_, refl)

  -- Limits around a line that is finite are always there.
  autolim-some :
      (values : List F) (pad r : F) (refs : List F)
      → fl.is_finite r ≡ true
      → (limits : F × F) × (autolim values pad (r ∷ refs) ≡ some limits)
  unfolding autolim
  autolim-some values pad r refs h =
      let (v, vs, e) = finite-some values r refs h in
      let (limits, p) = padded-some pad v vs in (limits, rw e p)

  all_present-total :
      (fs : F) (margin : Margins F → Option F) (configs : Configs F) {series : List (Series F)}
      → margin_series fs configs ≡ ok series
      → (values : List F) × (all_present margin configs ≡ ok values)
  unfolding margin_series all_present
  all_present-total fs margin [] h = ([], refl)
  all_present-total fs margin ((name, table) ∷ configs) h =
      let (entries, sorted, h₁) = >>=-eq-ok (sorted_data table) _ h in
      let (mine, made, h₂) = >>=-eq-ok (series_of fs name entries) _ h₁ in
      let (rest, built, h₃) = >>=-eq-ok (margin_series fs configs) _ h₂ in
      let (values, e) = all_present-total fs margin configs built in
      (present margin entries ++ values, rw (sorted, e) refl)

  -- Where the series of the margins are made, so are the axes of their figure. Their limits are
  -- those around the margins and the reference lines, never the ones for the case that there are
  -- none, and the note that no gain crossover has been found is not shown, though no configuration
  -- may have one. That 0 is finite is a hypothesis.
  pub margin_axes-no_note :
      (fs : F) (configs : Configs F) {series : List (Series F)}
      → fl.is_finite (num 0) ≡ true
      → margin_series fs configs ≡ ok series
      → (axes : MarginAxes F) × (all_pm : List F) × (all_gm : List F) × (margin_axes configs
          ≡ ok axes)
        × (all_present (λ d. d.pm_deg) configs ≡ ok all_pm)
        × (all_present (λ d. d.gm_db) configs ≡ ok all_gm)
        × (pm_limits all_pm ≡ some axes.pm_limits)
        × (gm_limits all_gm ≡ some axes.gm_limits)
        × (axes.note ≡ false)
  unfolding margin_axes
  margin_axes-no_note fs configs zero h =
      let (all_pm, pm) = all_present-total fs (λ d. d.pm_deg) configs h in
      let (all_gm, gm) = all_present-total fs (λ d. d.gm_db) configs h in
      let (pms, e) = autolim-some all_pm pad_frac (num 0) (num 45 ∷ []) zero in
      let (gms, f) = autolim-some all_gm pad_frac (num 0) (num 6 ∷ []) zero in
      (
        axes_of all_pm all_gm,
        all_pm,
        all_gm,
        rw (pm, gm) refl,
        pm,
        gm,
        rw e refl,
        rw f refl,
        rw e refl,
      )
