-- ===== src/Gui/Request/Overlap.antt =====
-- client/gui.py: requests of several panels under way at once, with their threads and answers in any
-- order. The buttons of all panels are numbered together. A thread runs its call as one step:
-- the lock of the API lets one command through at a time, and a call has one. The fetch of a file after
-- the command is outside the lock; here it follows its command at once.
pub mod Address
use pound_drever_hall.Common.{
  ℕ, zero, suc, ◌+◌, ◌≤◌, ◌≡◌, refl, ap, ◌∙◌, subst, inl, inr, Bool-cases, Bool, true, false, none,
  some, List, [], ◌∷◌, ◌++◌, Text, ◌==◌, if◌then◌else◌, arith, ==_iff,
}
use pound_drever_hall.Python.Result.{Result}
use pound_drever_hall.Api.Transport.{World, Api}
use pound_drever_hall.Gui.Check.{Call, Check, accepted, refused, dropped}
use pound_drever_hall.Gui.Panel.{busy, unbusy}
use pound_drever_hall.Gui.Window.{Settings}
use pound_drever_hall.Gui.Request.{
  Request, Session, show, click, answered, run_in_bg, update_connection,
}

abbrev pub ready_count : Bool → ℕ
ready_count true = 1
ready_count false = 0

ready_count-le : (b : Bool) → ready_count b ≤ 1
ready_count-le true = omega arith
ready_count-le false = omega arith

module _ {F : Type 0} where
  -- A thread that ends puts its outcome into its request.
  unfoldable pub worked :
      (Call F → Api (Unit {0}))
      → List (Request F)
      → Request F
      → List (Request F)
      → Session F
      → Session F
  unfolding run_in_bg
  worked run before r after s = record s {
    requests = before ++ ((run_in_bg run r s.world).0 ∷ after);
    world = (run_in_bg run r s.world).1;
  }

  -- An event of the main thread or the end of a thread. Only a button that is not disabled is clicked.
  pub data Step (run : Call F → Api (Unit {0})) (s : Session F) : Session F → Type 0 where
    edits : (settings : Settings) → Step run s (record s { settings = settings })
    clicks :
        (btn : ℕ) (label busy_label : Text) (check : Check F (Call F))
        → (s.panel.buttons btn).normal ≡ true
        → Step run s (click btn label busy_label check s)
    works :
        (before : List (Request F)) (r : Request F) (after : List (Request F))
        → s.requests ≡ before ++ (r ∷ after)
        → r.outcome ≡ none
        → Step run s (worked run before r after s)
    answers :
        (before : List (Request F)) (r : Request F) (after : List (Request F))
        (result : Result (Unit {0}))
        → s.requests ≡ before ++ (r ∷ after)
        → r.outcome ≡ some result
        → Step run s (answered r result (record s { requests = before ++ after }))

  -- How many requests of a button are under way.
  abbrev pub in_flight : ℕ → List (Request F) → ℕ
  in_flight btn [] = 0
  in_flight btn (r ∷ rs) = if r.btn == btn then suc (in_flight btn rs) else in_flight btn rs

  -- A button is ready, or it has at most one request under way.
  abbrev pub IsOnePerButton : Session F → Type 0
  IsOnePerButton s =
      (btn : ℕ) → in_flight btn s.requests + ready_count (s.panel.buttons btn).normal ≤ 1

  in_flight-append :
      (btn : ℕ) (xs ys : List (Request F))
      → in_flight btn (xs ++ ys) ≡ in_flight btn xs + in_flight btn ys
  in_flight-append btn [] ys = omega arith
  in_flight-append btn (r ∷ xs) ys = ground (arith, in_flight-append btn xs ys)

  click-IsOnePerButton :
      (btn : ℕ) (label busy_label : Text) (check : Check F (Call F)) (s : Session F)
      → (s.panel.buttons btn).normal ≡ true
      → IsOnePerButton s
      → IsOnePerButton (click btn label busy_label check s)
  unfolding click show busy
  click-IsOnePerButton btn label busy_label (accepted call) s ready h b =
      elim (Bool-cases (btn == b)) [
        | inl same ↦
            let normal : (s.panel.buttons b).normal ≡ true =
              subst (λ k. (s.panel.buttons k).normal ≡ true) ((==_iff btn b).0 same) ready in
            let before : in_flight b s.requests + 1 ≤ 1 = rw normal at (h b) in
            rw same (omega (arith, before))
        | inr other ↦ rw other (h b)
      ]
  click-IsOnePerButton btn label busy_label (refused m) s ready h b = h b
  click-IsOnePerButton btn label busy_label dropped s ready h b = h b

  answered-IsOnePerButton :
      (before : List (Request F)) (r : Request F) (after : List (Request F))
      (result : Result (Unit {0})) (s : Session F)
      → s.requests ≡ before ++ (r ∷ after)
      → IsOnePerButton s
      → IsOnePerButton (answered r result (record s { requests = before ++ after }))
  unfolding answered show unbusy
  answered-IsOnePerButton before r after result s e h b =
      let total : in_flight b s.requests ≡ in_flight b before + in_flight b (r ∷ after) =
        ap (in_flight b) e ∙ in_flight-append b before (r ∷ after) in
      let left = in_flight-append b before after in
      elim (Bool-cases (r.btn == b)) [
        | inl same ↦
            let one : in_flight b (r ∷ after) ≡ suc (in_flight b after) = rw same refl in
            rw same (omega (arith, total, left, one, h b))
        | inr other ↦
            let same : in_flight b (r ∷ after) ≡ in_flight b after = rw other refl in
            rw other (omega (arith, total, left, same, h b))
      ]

  worked-IsOnePerButton :
      (run : Call F → Api (Unit {0})) (before : List (Request F)) (r : Request F)
      (after : List (Request F)) (s : Session F)
      → s.requests ≡ before ++ (r ∷ after)
      → IsOnePerButton s
      → IsOnePerButton (worked run before r after s)
  unfolding worked run_in_bg
  worked-IsOnePerButton run before r after s e h b =
      let r' = (run_in_bg run r s.world).0 in
      let total = ap (in_flight b) e ∙ in_flight-append b before (r ∷ after) in
      let left = in_flight-append b before (r' ∷ after) in omega (arith, total, left, h b)

  Step-IsOnePerButton :
      (run : Call F → Api (Unit {0})) {s t : Session F}
      → Step run s t
      → IsOnePerButton s
      → IsOnePerButton t
  Step-IsOnePerButton run (edits settings) h = h
  Step-IsOnePerButton run {s} (clicks btn label busy_label check ready) h =
      click-IsOnePerButton btn label busy_label check s ready h
  Step-IsOnePerButton run {s} (works before r after e waits) h =
      worked-IsOnePerButton run before r after s e h
  Step-IsOnePerButton run {s} (answers before r after result e done) h =
      answered-IsOnePerButton before r after result s e h

  pub data Reach (run : Call F → Api (Unit {0})) (s : Session F) : Session F → Type 0 where
    start : Reach run s s
    later : {t u : Session F} → Reach run s t → Step run t u → Reach run s u

  -- Requests of several panels overlap, and their threads and answers come in any order; until the
  -- connection is reset, no button has two requests under way, and a button that is ready has none.
  pub Reach-IsOnePerButton :
      (run : Call F → Api (Unit {0})) {s t : Session F}
      → s.requests ≡ []
      → Reach run s t
      → IsOnePerButton t
  Reach-IsOnePerButton run {s} none_yet start =
      λ b. omega (arith, ap (in_flight b) none_yet, ready_count-le (s.panel.buttons b).normal)
  Reach-IsOnePerButton run none_yet (later reach step) =
      Step-IsOnePerButton run step (Reach-IsOnePerButton run none_yet reach)
