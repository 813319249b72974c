-- ===== src/Api/Response/Laws.antt =====
-- What the parser makes of a response that is printed as lines `key:value`.
use pound_drever_hall.Common.{
  ◌≡◌, ◌≢◌, refl, ◌∙◌, ap, false, some, List, [], ◌∷◌, ◌++◌, map, Text, text_eq, text_eq_iff,
  if◌then◌else◌, arith, All, All-append,
}
use pound_drever_hall.Common.Int.{ℤ}
use pound_drever_hall.Python.Str.{
  IsPlain, strip, splitlines, contains, lstrip, rstrip, lstrip-plain_append, rstrip-plain,
  rstrip-append, rstrip-space, is_space, strip-plain, splitlines-line, splitlines-last,
  partition-first, contains-middle,
}
use pound_drever_hall.Python.Number.{int_of-show_int, show_int}
use pound_drever_hall.Python.Float.{Float}
use pound_drever_hall.Api.Response.{
  Value, int, Response, insert, lookup, coerce, read_line, read_lines, parse_response,
}

module _ {F : Type 0} where
  -- A key that is set is read back with its value, and the values of the other keys stay.
  pub lookup-insert :
      (k j : Text) (v : Value F) (r : Response F)
      → lookup j (insert k v r) ≡ (if text_eq k j then some v else lookup j r)
  unfolding lookup insert
  lookup-insert k j v [] = refl
  lookup-insert k j v ((i, w) ∷ r) =
      ground (arith, text_eq_iff k j, text_eq_iff i k, text_eq_iff i j, lookup-insert k j v r)

-- A key as the server prints it: not empty, with no space and no colon.
pub record IsKey (k : Text) : Type 0 where
  pub not_empty : k ≢ []
  pub plain : IsPlain k
  pub no_colon : contains b':' k ≡ false

-- A field of a response: a key and the text of its value.
abbrev pub Field : Type 0
Field = Text × Text

abbrev pub IsField : Field → Type 0
IsField (k, v) = IsKey k × IsPlain v

abbrev line_of : Field → Text
line_of (k, v) = k ++ (b':' ∷ v)

-- The fields as lines, each ended by a line feed.
abbrev pub render : List Field → Text
render [] = []
render ((k, v) ∷ fields) = (k ++ (b':' ∷ v)) ++ (10 ∷ render fields)

module _ {F : Type 0} ⦃fl : Float F⦄ where
  -- The dict that the fields make, the last value of a key standing.
  abbrev pub enter : List Field → Response F → Response F
  enter [] r = r
  enter ((k, v) ∷ fields) r = enter fields (insert k (coerce v) r)

  read_line-line_of :
      (k v : Text) (r : Response F)
      → IsField (k, v)
      → read_line (line_of (k, v)) r ≡ insert k (coerce v) r
  unfolding read_line
  read_line-line_of k v r (key, plain) = rw (
    contains-middle b':' k v,
    partition-first b':' k v key.no_colon,
    strip-plain k key.plain,
    strip-plain v plain,
  )

  read_lines-map :
      (fields : List Field) (r : Response F)
      → All IsField fields
      → read_lines (map line_of fields) r ≡ enter fields r
  unfolding read_lines
  read_lines-map [] r h = refl
  read_lines-map ((k, v) ∷ fields) r (h, hs) =
      ap (read_lines (map line_of fields)) (read_line-line_of k v r h)
      ∙ read_lines-map fields (insert k (coerce v) r) hs

line_of-IsPlain : (f : Field) → IsField f → IsPlain (line_of f)
unfolding is_space
line_of-IsPlain (k, v) (key, plain) = All-append _ k (b':' ∷ v) key.plain (refl, plain)

line_of-ne-nil : (f : Field) → line_of f ≢ []
line_of-ne-nil ([], v) e = cc
line_of-ne-nil (c ∷ k, v) e = cc

splitlines-ne : (s line : Text) (lines : List Text) → splitlines s ≡ line ∷ lines → s ≢ []
unfolding splitlines
splitlines-ne [] line lines h e = cc
splitlines-ne (c ∷ s) line lines h e = cc

rstrip-line : (s t : Text) → rstrip t ≢ [] → rstrip (s ++ (10 ∷ t)) ≡ s ++ (10 ∷ rstrip t)
rstrip-line s t h =
    let tail = rstrip-append (10 ∷ []) t h in
    rstrip-append s (10 ∷ t) (λ e. cc (tail)) ∙ ap (λ u. s ++ u) tail

-- The last line feed is stripped, and the lines are those that were printed.
splitlines-render :
    (f : Field) (fields : List Field)
    → All IsField (f ∷ fields)
    → splitlines (rstrip (render (f ∷ fields))) ≡ map line_of (f ∷ fields)
unfolding is_space
splitlines-render f [] (h, hs) =
    rw (rstrip-space (line_of f) 10 refl, rstrip-plain (line_of f) (line_of-IsPlain f h))
      (splitlines-last (line_of f) (line_of-ne-nil f) (line_of-IsPlain f h))
splitlines-render f (g ∷ fields) (h, hs) =
    let ih = splitlines-render g fields hs in
    rw (rstrip-line (line_of f) (render (g ∷ fields)) (splitlines-ne _ _ _ ih))
      (splitlines-line (line_of f) (rstrip (render (g ∷ fields))) (line_of-IsPlain f h) ∙ rw ih)

lstrip-render :
    (f : Field) (fields : List Field)
    → IsField f
    → lstrip (render (f ∷ fields)) ≡ render (f ∷ fields)
lstrip-render f fields h =
    lstrip-plain_append (line_of f) (10 ∷ render fields) (line_of-ne-nil f) (line_of-IsPlain f h)

module _ {F : Type 0} ⦃fl : Float F⦄ where
  -- A peer that closes the connection with no answer gives an empty dict.
  pub parse_response-nil : parse_response {F = F} [] ≡ []
  unfolding parse_response strip lstrip rstrip splitlines read_lines
  parse_response-nil = refl

  -- A response printed as lines `key:value`, with keys and values that hold no space, is parsed
  -- into exactly its fields, in their order, a repeated key keeping its last value.
  pub parse_response-render :
      (fields : List Field)
      → All IsField fields
      → parse_response {F = F} (render fields) ≡ enter fields []
  unfolding parse_response strip
  parse_response-render [] h = parse_response-nil
  parse_response-render (f ∷ fields) (h, hs) =
      rw (lstrip-render f fields h, splitlines-render f fields (h, hs))
        (read_lines-map (f ∷ fields) [] (h, hs))

  -- An integer in decimal is read as that integer.
  pub coerce-show_int : (n : ℤ) → coerce {F = F} (show_int n) ≡ int n
  unfolding coerce
  coerce-show_int n = rw (int_of-show_int n, coerce)
