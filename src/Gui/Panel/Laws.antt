-- ===== src/Gui/Panel/Laws.antt =====
-- The labels that a panel gives back.
use pound_drever_hall.Common.{
  ℕ, ◌≡◌, refl, true, false, Option, none, some, List, [], ◌∷◌, Text, ◌==◌, if◌then◌else◌, arith,
  All,
}
use pound_drever_hall.Gui.Panel.{
  Button, Panel, label_of, pop, busy, unbusy, save_label, restore, unlock_all,
}

abbrev pub ready : Text → Button
ready label = record { normal = true; text = label }

-- A button is either ready under its own label, or disabled with a label saved.
abbrev Agrees : (ℕ → Text) → ℕ → Button → Option Text → Type 0
Agrees labels i b none = b ≡ ready (labels i)
Agrees labels i b (some saved) = b.normal ≡ false

abbrev Saved : (ℕ → Text) → List (ℕ × Text) → Type 0
Saved labels = All λ e. e.1 ≡ labels e.0

-- Every button is ready or frozen, and every label that is saved is its button's own.
pub record IsConsistent (labels : ℕ → Text) (p : Panel) : Type 0 where
  pub agrees : (i : ℕ) → Agrees labels i (p.buttons i) (label_of i p.busy_btns)
  pub saved : Saved labels p.busy_btns

module _ (labels : ℕ → Text) where
  save_label-Saved :
      (i : ℕ) (b : Button) (saved : List (ℕ × Text))
      → Agrees labels i b (label_of i saved)
      → Saved labels saved
      → Saved labels (save_label i b.text saved)
  save_label-Saved i b saved a s = ground arith

  pop-Saved : (i : ℕ) (saved : List (ℕ × Text)) → Saved labels saved → Saved labels (pop i saved)
  pop-Saved i [] s = tt
  pop-Saved i ((j, label) ∷ saved) (e, s) = ground (arith, pop-Saved i saved s)

  label_of-pop :
      (i j : ℕ) (saved : List (ℕ × Text))
      → label_of j (pop i saved) ≡ (if i == j then none else label_of j saved)
  label_of-pop i j [] = ground arith
  label_of-pop i j ((k, label) ∷ saved) = ground (arith, label_of-pop i j saved)

  pub busy-IsConsistent :
      (i : ℕ) (label : Text) (p : Panel)
      → IsConsistent labels p
      → IsConsistent labels (busy i label p)
  unfolding busy
  busy-IsConsistent i label p c = record {
    agrees = λ j. ground (arith, c.agrees i, c.agrees j);
    saved = save_label-Saved i (p.buttons i) p.busy_btns (c.agrees i) c.saved;
  }

  pub unbusy-IsConsistent :
      (i : ℕ) (p : Panel) → IsConsistent labels p → IsConsistent labels (unbusy i (labels i) p)
  unfolding unbusy
  unbusy-IsConsistent i p c = record {
    agrees = λ j. ground (arith, c.agrees j, label_of-pop i j p.busy_btns);
    saved = pop-Saved i p.busy_btns c.saved;
  }

  restore-ready :
      (i : ℕ) (saved : List (ℕ × Text)) (f : ℕ → Button)
      → Saved labels saved
      → (label_of i saved ≡ none → f i ≡ ready (labels i))
      → restore saved f i ≡ ready (labels i)
  restore-ready i [] f s a = a refl
  restore-ready i ((j, label) ∷ saved) f (e, s) a =
      restore-ready i saved _ s (λ absent. ground (arith, a))

  -- In a panel whose buttons are ready or frozen with their own labels saved, `unlock_all` gives every
  -- button back under its own label, and forgets what it had saved.
  pub unlock_all-ready :
      (p : Panel) (i : ℕ)
      → IsConsistent labels p
      → ((unlock_all p).buttons i ≡ ready (labels i)) × ((unlock_all p).busy_btns ≡ [])
  unfolding unlock_all
  unlock_all-ready p i c =
      (restore-ready i p.busy_btns p.buttons c.saved (λ absent. rw absent at (c.agrees i)), refl)

  -- What requests and a new connection do to a panel: a request ends with the button's own label.
  pub data Step : Panel → Panel → Type 0 where
    freeze : (i : ℕ) (label : Text) (p : Panel) → Step p (busy i label p)
    give_back : (i : ℕ) (p : Panel) → Step p (unbusy i (labels i) p)
    unlock : (p : Panel) → Step p (unlock_all p)

  pub data Reach (p : Panel) : Panel → Type 0 where
    here : Reach p p
    next : {q r : Panel} → Reach p q → Step q r → Reach p r

  Step-IsConsistent : {p q : Panel} → Step p q → IsConsistent labels p → IsConsistent labels q
  Step-IsConsistent (freeze i label p) c = busy-IsConsistent i label p c
  Step-IsConsistent (give_back i p) c = unbusy-IsConsistent i p c
  Step-IsConsistent (unlock p) c = record {
    agrees = λ i. rw (unlock_all-ready p i c).1 (unlock_all-ready p i c).0;
    saved = rw (unlock_all-ready p 0 c).1 tt;
  }

  -- From a panel where this holds, if requests end with their button's own label, then however they overlap with one another and
  -- with new connections, every button is either ready under its own label or frozen with a label
  -- saved, and the labels that are saved are the buttons' own.
  pub Reach-IsConsistent : {p q : Panel} → IsConsistent labels p → Reach p q → IsConsistent labels q
  Reach-IsConsistent c here = c
  Reach-IsConsistent c (next r st) = Step-IsConsistent st (Reach-IsConsistent c r)
