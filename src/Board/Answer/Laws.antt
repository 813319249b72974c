-- ===== src/Board/Answer/Laws.antt =====
-- What client/pdh_api/api.py reads off the answers of the board.
use mathlib.Core.List.{append_assoc}
use pound_drever_hall.Common.{
  ◌≡◌, refl, ap, sym, ◌∙◌, false, none, some, List, [], ◌∷◌, ◌++◌, map, Text, codes, inl, inr,
  Bool-cases, text_eq, text_eq_refl, ltb, length, All, if◌then◌else◌,
}
use pound_drever_hall.Common.Int.{ℤ, pos}
use pound_drever_hall.Python.Number.{show_int}
use pound_drever_hall.Python.Float.{Float}
use pound_drever_hall.Api.Response.{Value, int, Response, insert, lookup, coerce, parse_response}
use pound_drever_hall.Api.Response.Laws.{
  Field, IsField, render, enter, lookup-insert, parse_response-render, coerce-show_int,
}
use pound_drever_hall.Board.Context.{CLib}
use pound_drever_hall.Board.Answer.{
  Item, float_item, int_item, uint_item, item_lines, response_text, send_response,
}

-- No two fields have the same key.
abbrev pub Distinct : List Field → Type 0
Distinct [] = Unit
Distinct ((k, v) ∷ fields) = All (λ f. text_eq f.0 k ≡ false) fields × Distinct fields

module _ {F : Type 0} ⦃fl : Float F⦄ where
  lookup-enter_other :
      (k : Text) (fields : List Field) (r : Response F)
      → All (λ f. text_eq f.0 k ≡ false) fields
      → lookup k (enter fields r) ≡ lookup k r
  lookup-enter_other k [] r h = refl
  lookup-enter_other k ((j, v) ∷ fields) r (h, hs) =
      lookup-enter_other k fields (insert j (coerce v) r) hs
      ∙ lookup-insert j k (coerce v) r
      ∙ ap (λ b. if b then some (coerce v) else lookup k r) h

  -- Every field of distinct ones is found.
  lookup-enter :
      (fields : List Field) (r : Response F)
      → Distinct fields
      → All (λ f. lookup f.0 (enter fields r) ≡ some (coerce f.1)) fields
  lookup-enter [] r h = tt
  lookup-enter ((k, v) ∷ fields) r (h, hs) = (
    lookup-enter_other k fields (insert k (coerce v) r) h
        ∙ lookup-insert k k (coerce v) r
        ∙ ap (λ b. if b then some (coerce v) else lookup k r) (text_eq_refl k),
    lookup-enter fields (insert k (coerce v) r) hs,
  )

line-render :
    (name v t : Text) → (name ++ (b':' ∷ (v ++ codes "\n"))) ++ t ≡ (name ++ (b':' ∷ v)) ++ (10 ∷ t)
line-render name v t = simp append_assoc

abbrev pub item_name : {G : Type 0} → Item G → Text
item_name (float_item name y) = name
item_name (int_item name n) = name
item_name (uint_item name n) = name

module _ {G : Type 0} (c : CLib G) where
  abbrev item_text : Item G → Text
  item_text (float_item name y) = c.print_f y
  item_text (int_item name n) = show_int n
  item_text (uint_item name n) = show_int (pos n)

  abbrev field_of : Item G → Field
  field_of item = (item_name item, item_text item)

  -- The fields of an answer.
  abbrev pub fields_of : ℤ → Text → List (Item G) → List Field
  fields_of status name items =
      (codes "type", codes "output")
      ∷ (codes "name", name)
      ∷ (codes "status", show_int status)
      ∷ map field_of items

  items-render : (items : List (Item G)) → item_lines c items ≡ render (map field_of items)
  items-render [] = refl
  items-render (float_item name y ∷ items) =
      line-render name (c.print_f y) (item_lines c items)
      ∙ ap (λ t. (name ++ (b':' ∷ c.print_f y)) ++ (10 ∷ t)) (items-render items)
  items-render (int_item name n ∷ items) =
      line-render name (show_int n) (item_lines c items)
      ∙ ap (λ t. (name ++ (b':' ∷ show_int n)) ++ (10 ∷ t)) (items-render items)
  items-render (uint_item name n ∷ items) =
      line-render name (show_int (pos n)) (item_lines c items)
      ∙ ap (λ t. (name ++ (b':' ∷ show_int (pos n))) ++ (10 ∷ t)) (items-render items)

  response_text-render :
      (status : ℤ) (name : Text) (items : List (Item G))
      → response_text c status name items ≡ render (fields_of status name items)
  response_text-render status name items =
      ap
        (λ t.
          codes "type:output\nname:"
          ++ (name ++ (codes "\nstatus:" ++ (show_int status ++ (codes "\n" ++ t)))))
        (items-render items)
      ∙ simp append_assoc

  send_response-text :
      (status : ℤ) (name : Text) (items : List (Item G)) {text : Text}
      → send_response c status name items ≡ some text
      → text ≡ render (fields_of status name items)
  unfolding send_response
  send_response-text status name items {text} h =
      elim (Bool-cases (ltb (length (response_text c status name items)) 1024)) [
        | inl fits ↦
            let e : some (response_text c status name items) ≡ some text = rw fits at h in
            let same : response_text c status name items ≡ text = cc in
            sym same ∙ response_text-render status name items
        | inr over ↦ let e : none ≡ some text = rw over at h in cc
      ]

module _ {F G : Type 0} ⦃fl : Float F⦄ (c : CLib G) where
  -- What the client is to read of an item: the integers, and whatever the print of a `float` is read
  -- as.
  abbrev pub value_of_item : Item G → Value F
  value_of_item (float_item name y) = coerce (c.print_f y)
  value_of_item (int_item name n) = int n
  value_of_item (uint_item name n) = int (pos n)

  coerce-field_of : (item : Item G) → coerce (field_of c item).1 ≡ value_of_item item
  coerce-field_of (float_item name y) = refl
  coerce-field_of (int_item name n) = coerce-show_int n
  coerce-field_of (uint_item name n) = coerce-show_int (pos n)

  items-found :
      (r : Response F) (items : List (Item G))
      → All (λ f. lookup f.0 r ≡ some (coerce f.1)) (map (field_of c) items)
      → All (λ item. lookup (item_name item) r ≡ some (value_of_item item)) items
  items-found r [] h = tt
  items-found r (item ∷ items) (h, hs) =
      (h ∙ ap some (coerce-field_of item), items-found r items hs)

  -- An answer of the board with distinct names and no spaces is read by the client item by item: the
  -- status and the integers as the integers that they are, and each `float` as what its print is read
  -- as.
  pub send_response-read :
      (status : ℤ) (name : Text) (items : List (Item G)) {text : Text}
      → send_response c status name items ≡ some text
      → All IsField (fields_of c status name items)
      → Distinct (fields_of c status name items)
      → (lookup {F = F} (codes "status") (parse_response text) ≡ some (int status))
        × All
            (λ item. lookup (item_name item) (parse_response text) ≡ some (value_of_item item))
            items
  send_response-read status name items {text} sent fields distinct =
      let fs = fields_of c status name items in
      let parsed : parse_response {F = F} text ≡ enter fs [] =
        ap parse_response (send_response-text c status name items sent)
        ∙ parse_response-render fs fields in
      let (_, (_, (status_found, found))) = lookup-enter fs [] distinct in
      rw parsed
        (status_found ∙ ap some (coerce-show_int status), items-found (enter fs []) items found)
