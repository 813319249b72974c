-- ===== src/Api/Arrays.antt =====
-- Indices of lists and the columns of an array, with what the code raises out of range.
use pound_drever_hall.Common.{
  ℕ, suc, ◌≡◌, ap, sym, ◌∙◌, inl, inr, Bool-cases, Option, none, some, List, [], ◌∷◌, codes, ltb,
  if◌then◌else◌, get_elem?, refl, length, All, ◌++◌, Text, text_eq, get_elem?-total, lt→ltb, arith,
  ◌<◌,
}
use pound_drever_hall.Python.Result.{Error, value_error, index_error, Result, ok, err}
use pound_drever_hall.Api.Transport.{Array, vector, matrix}

abbrev pub or_raise : {A : Type 0} → Error → Option A → Result A
or_raise e none = err e
or_raise e (some x) = ok x

pub or_raise-ok : {A : Type 0} (e : Error) (o : Option A) {a : A} → or_raise e o ≡ ok a → o ≡ some a
or_raise-ok e none h = cc
or_raise-ok e (some x) h = cc

-- The first value of a search, with the index where it stands.
abbrev pub index_or : {A : Type 0} → Option A → Result A
index_or = or_raise (value_error (codes "attempt to get an index of an empty sequence"))

abbrev pub at : {A : Type 0} → List A → ℕ → Result A
at xs i = or_raise index_error (get_elem? xs i)

-- `list.index`, with `none` for the `ValueError`
abbrev pub index_of : Text → List Text → Option ℕ
index_of x [] = none
index_of x (y ∷ ys) =
    let rest = index_of x ys in
    if text_eq y x then some 0 else elim rest [ none ↦ none | some i ↦ some (suc i) ]

-- `labels.index(label)`
abbrev pub label_index : Text → List Text → Result ℕ
label_index label labels =
    or_raise (value_error (codes "'" ++ (label ++ codes "' is not in list")))
      (index_of label labels)

module _ {F : Type 0} where
  abbrev pub both : Option F → Option (List F) → Option (List F)
  both (some x) (some xs) = some (x ∷ xs)
  both _ _ = none

  abbrev pub pick : ℕ → List (List F) → Option (List F)
  pick j [] = some []
  pick j (row ∷ rows) = both (get_elem? row j) (pick j rows)

  -- data[:, j]
  unfoldable pub column : ℕ → Array F → Result (List F)
  column j (vector xs) = err index_error
  column j (matrix n rows) = if ltb j n then or_raise index_error (pick j rows) else err index_error

-- Every row has the columns of the shape.
abbrev pub IsTable : {F : Type 0} → ℕ → List (List F) → Type 0
IsTable n = All λ row. length row ≡ n

module _ {F : Type 0} where
  pick-total :
      (n j : ℕ) (rows : List (List F))
      → j < n
      → IsTable n rows
      → (xs : List F) × (pick j rows ≡ some xs) × (length xs ≡ length rows)
  pick-total n j [] h p = ([], refl, refl)
  pick-total n j (row ∷ rows) h (p, ps) =
      let (x, here) = get_elem?-total row j (omega arith) in
      let (xs, rest, size) = pick-total n j rows h ps in
      (x ∷ xs, rw (pick, here, rest), omega (arith, size))

  -- A column of a table is as long as the table.
  pub column-total :
      (n j : ℕ) (rows : List (List F))
      → j < n
      → IsTable n rows
      → (xs : List F) × (column j (matrix n rows) ≡ ok xs) × (length xs ≡ length rows)
  unfolding column
  column-total n j rows h p =
      let (xs, e, size) = pick-total n j rows h p in (xs, rw (lt→ltb j n h, e), size)

  pub at-total :
      (xs : List F) (i : ℕ) → i < length xs → (x : F) × (at xs i ≡ ok x) × (get_elem? xs i ≡ some x)
  at-total xs i h = let (x, e) = get_elem?-total xs i h in (x, rw e, e)

  both-eq-some :
      (a : Option F) (b : Option (List F)) {ys : List F}
      → both a b ≡ some ys
      → (x : F) × (xs : List F) × (b ≡ some xs) × (x ∷ xs ≡ ys)
  both-eq-some none b h = cc
  both-eq-some (some x) none h = cc
  both-eq-some (some x) (some xs) h = (x, xs, refl, cc)

  pick-length :
      (j : ℕ) (rows : List (List F)) {xs : List F} → pick j rows ≡ some xs → length xs ≡ length rows
  pick-length j [] {xs} h = let e : [] ≡ xs = cc in ap length (sym e)
  pick-length j (row ∷ rows) h =
      let (x, xs, rest, e) = both-eq-some (get_elem? row j) (pick j rows) h in
      ap length (sym e) ∙ ap suc (pick-length j rows rest)

  -- A column that is there has an element for each row.
  pub column-length :
      (n j : ℕ) (rows : List (List F)) {xs : List F}
      → column j (matrix n rows) ≡ ok xs
      → length xs ≡ length rows
  unfolding column
  column-length n j rows h = elim (Bool-cases (ltb j n)) [
    | inl inside ↦ pick-length j rows (or_raise-ok _ _ (rw inside at h))
    | inr outside ↦ let e : err index_error ≡ ok _ = rw outside at h in cc
  ]
