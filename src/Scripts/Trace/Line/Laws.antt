-- ===== src/Scripts/Trace/Line/Laws.antt =====
-- The regular expression finds the two numbers of a line that is printed as the instrument does.
use pound_drever_hall.Common.{
  ℕ, ◌≡◌, ◌≢◌, refl, ap, ◌∙◌, Bool, true, false, some, [], ◌∷◌, ◌++◌, Text, codes, ◌==◌, arith, All,
  Bool-cases, inl, inr, ==_iff,
}
use pound_drever_hall.Python.Str.{is_space, strip, strip-cons, contains}
use pound_drever_hall.Python.Pattern.{
  is_digit, after_prefix, starts_with, contains_text, span, run, skip,
}
use pound_drever_hall.Scripts.Trace.Line.{is_number_char, p_line, search}

-- A text that a class with `+` matches whole.
abbrev pub IsRun : (ℕ → Bool) → Text → Type 0
IsRun test s = (s ≢ []) × All (λ c. test c ≡ true) s

span-append :
    (test : ℕ → Bool) (s : Text) (c : ℕ) (t : Text)
    → All (λ d. test d ≡ true) s
    → test c ≡ false
    → span test (s ++ (c ∷ t)) ≡ (s, c ∷ t)
unfolding span
span-append test [] c t p h = rw h
span-append test (d ∷ s) c t (p, ps) h = rw (span-append test s c t ps h) (rw p)

-- A run ends where a character of another class follows.
run-append :
    (test : ℕ → Bool) (s : Text) (c : ℕ) (t : Text)
    → IsRun test s
    → test c ≡ false
    → run test (s ++ (c ∷ t)) ≡ some (s, c ∷ t)
run-append test [] c t (n, p) h = absurd (n refl)
run-append test (d ∷ s) c t (n, p) h = rw (span-append test (d ∷ s) c t p h)

number_char-not_space : (c : ℕ) → is_number_char c ≡ true → is_space c ≡ false
unfolding is_space
number_char-not_space c h = ground arith

skip-number : (s t : Text) → IsRun is_number_char s → skip is_space (s ++ t) ≡ s ++ t
unfolding span
skip-number [] t (n, p) = absurd (n refl)
skip-number (c ∷ s) t (n, (p, ps)) = rw (skip, number_char-not_space c p)

-- P_<idx>=<power> , <freq> MHz
abbrev pub render : Text → Text → Text → Text
render idx power freq =
    codes "P_" ++ (idx ++ (b'=' ∷ (power ++ (codes " , " ++ (freq ++ codes " MHz")))))

pub p_line-render :
    (idx power freq : Text)
    → IsRun is_digit idx
    → IsRun is_number_char power
    → IsRun is_number_char freq
    → p_line (render idx power freq) ≡ some (power, freq)
unfolding p_line after_prefix span is_space
p_line-render idx power freq i p f =
    let tail = codes " MHz" in
    let middle = codes " , " ++ (freq ++ tail) in
    rw (
      run-append is_digit idx b'=' (power ++ middle) i refl,
      skip-number power middle p,
      run-append is_number_char power b' ' (codes ", " ++ (freq ++ tail)) p refl,
      skip-number freq tail f,
      run-append is_number_char freq b' ' (codes "MHz") f refl,
    )

pub search-render :
    (idx power freq : Text)
    → IsRun is_digit idx
    → IsRun is_number_char power
    → IsRun is_number_char freq
    → search (render idx power freq) ≡ some (power, freq)
unfolding search
search-render idx power freq i p f = rw (search, p_line-render idx power freq i p f)

-- A text has no occurrence of a text whose first character it does not have.
contains_text-absent : (c : ℕ) (w s : Text) → contains c s ≡ false → contains_text (c ∷ w) s ≡ false
unfolding contains contains_text after_prefix
contains_text-absent c w [] h = refl
contains_text-absent c w (d ∷ s) h = ground (arith, contains_text-absent c w s)

contains-append :
    (c : ℕ) (s t : Text) → contains c s ≡ false → contains c t ≡ false → contains c (s ++ t) ≡ false
unfolding contains
contains-append c [] t h k = k
contains-append c (d ∷ s) t h k = ground (arith, contains-append c s t)

All-contains :
    (test : ℕ → Bool) (c : ℕ) (s : Text)
    → test c ≡ false
    → All (λ d. test d ≡ true) s
    → contains c s ≡ false
unfolding contains
All-contains test c [] h p = refl
All-contains test c (d ∷ s) h (p, ps) = elim (Bool-cases (d == c)) [
  | inl same ↦ let e : d ≡ c = (==_iff d c).0 same in cc
  | inr other ↦ rw (other, All-contains test c s h ps)
]

pub render-contains_text :
    (w idx power freq : Text)
    → IsRun is_digit idx
    → IsRun is_number_char power
    → IsRun is_number_char freq
    → contains_text (b'#' ∷ w) (render idx power freq) ≡ false
unfolding contains
render-contains_text w idx power freq i p f =
    let absent : (test : ℕ → Bool) (s t : Text)
        → test b'#' ≡ false
        → IsRun test s
        → contains b'#' t ≡ false
        → contains b'#' (s ++ t) ≡ false =
      λ test s t h r k. contains-append b'#' s t (All-contains test b'#' s h r.1) k in
    contains_text-absent b'#' w _ (
      absent is_digit idx _ refl i
        (absent is_number_char power _ refl p (absent is_number_char freq _ refl f refl)))

pub starts_with-strip :
    (c d : ℕ) (w s : Text)
    → is_space d ≡ false
    → (d == c) ≡ false
    → starts_with (c ∷ w) (strip (d ∷ s)) ≡ false
unfolding after_prefix
starts_with-strip c d w s h k =
    let (t, e) = strip-cons d s h in ap (starts_with (c ∷ w)) e ∙ rw (starts_with, k)
