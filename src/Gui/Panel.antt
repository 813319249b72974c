-- ===== src/Gui/Panel.antt =====
-- client/gui.py: `_Panel`, the base of every panel, with its buttons and those that a request has
-- frozen.
pub mod Laws
use pound_drever_hall.Common.{
  ℕ, Bool, true, false, Option, none, some, List, [], ◌∷◌, Text, codes, ◌==◌, if◌then◌else◌,
}

-- A `ttk.Button`: its text, and whether its state is `tk.NORMAL`.
pub record Button : Type 0 where
  pub normal : Bool
  pub text : Text

-- The buttons by number, and `_busy_btns`, from a button to its original label.
pub record Panel : Type 0 where
  pub buttons : ℕ → Button
  pub busy_btns : List (ℕ × Text)

abbrev put : (ℕ → Button) → ℕ → Button → ℕ → Button
put f i b j = if i == j then b else f j

abbrev pub label_of : ℕ → List (ℕ × Text) → Option Text
label_of i [] = none
label_of i ((j, label) ∷ rest) = if i == j then some label else label_of i rest

abbrev pub pop : ℕ → List (ℕ × Text) → List (ℕ × Text)
pop i [] = []
pop i ((j, label) ∷ rest) = if i == j then pop i rest else (j, label) ∷ pop i rest

abbrev save_label : ℕ → Text → List (ℕ × Text) → List (ℕ × Text)
save_label i text saved = elim (label_of i saved) [ none ↦ (i, text) ∷ saved | some _ ↦ saved ]

-- `_busy`: the label is saved the first time only.
unfoldable pub busy : ℕ → Text → Panel → Panel
busy i label p = record {
  buttons = put p.buttons i (record { normal = false; text = label });
  busy_btns = save_label i (p.buttons i).text p.busy_btns;
}

-- `_unbusy`
unfoldable pub unbusy : ℕ → Text → Panel → Panel
unbusy i label p = record {
  buttons = put p.buttons i (record { normal = true; text = label });
  busy_btns = pop i p.busy_btns;
}

abbrev restore : List (ℕ × Text) → (ℕ → Button) → ℕ → Button
restore [] f = f
restore ((i, label) ∷ rest) f = restore rest (put f i (record { normal = true; text = label }))

-- `unlock_all`
pub unlock_all : Panel → Panel
unlock_all p = record { buttons = restore p.busy_btns p.buttons; busy_btns = [] }
