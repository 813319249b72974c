-- ===== src/Board/Context/Laws.antt =====
-- What the server reads off the commands of client/pdh_api/api.py.
use mathlib.Core.List.{append_assoc}
use pound_drever_hall.Common.{
  ℕ, zero, suc, ◌+◌, ◌/◌, ◌%◌, ◌<◌, ◌≤◌, ◌≡◌, refl, ap, ◌∙◌, ◌⊎◌, inl, inr, false, Option, none,
  some, List, [], ◌∷◌, ◌++◌, map, Text, ◌==◌, length, take, All, All-append, arith, length-append,
}
use pound_drever_hall.Common.Int.{ℤ, pos, negsuc}
use pound_drever_hall.Python.Number.{show_int, show_nat, digits}
use pound_drever_hall.Python.Pattern.{after_prefix}
use pound_drever_hall.Api.Commands.{join}
use pound_drever_hall.Board.Number.{Stops}
use pound_drever_hall.Board.Context.{
  c_string, without_last, inbuff, find_from, find_key, parse_list, first_line,
}

-- Characters behind the line feed.
abbrev pub IsWord : Text → Type 0
IsWord = All λ c. 10 < c

c_string-IsWord : (s : Text) → All (λ c. 0 < c) s → c_string s ≡ s
unfolding c_string
c_string-IsWord [] h = refl
c_string-IsWord (c ∷ s) (h, hs) = ground (arith, c_string-IsWord s hs)

pub take-all : {A : Type 0} (n : ℕ) (xs : List A) → length xs ≤ n → take n xs ≡ xs
take-all zero [] h = refl
take-all zero (x ∷ xs) h = absurd (omega arith)
take-all (suc n) [] h = refl
take-all (suc n) (x ∷ xs) h = ap (λ l. x ∷ l) (take-all n xs (omega arith))

without_last-append : {A : Type 0} (xs : List A) (x : A) → without_last (xs ++ (x ∷ [])) ≡ xs
without_last-append [] x = refl
without_last-append (y ∷ []) x = refl
without_last-append (y ∷ z ∷ xs) x = ap (λ l. y ∷ l) (without_last-append (z ∷ xs) x)

-- A text that ends with a line feed arrives without it.
pub inbuff-line : (s : Text) → All (λ c. 0 < c) s → length s < 1024 → inbuff (s ++ (10 ∷ [])) ≡ s
unfolding inbuff
inbuff-line s h p =
    ap (λ l. c_string (without_last l))
      (take-all 1024 (s ++ (10 ∷ [])) (omega (arith, length-append s (10 ∷ []))))
    ∙ ap c_string (without_last-append s 10)
    ∙ c_string-IsWord s h

-- Lines that each stand behind a line feed.
abbrev pub tail_lines : List Text → Text
tail_lines [] = []
tail_lines (l ∷ ls) = 10 ∷ (l ++ tail_lines ls)

-- What is found on the lines.
abbrev pub find_next : Text → List Text → Option Text
find_next key [] = none
find_next key (l ∷ ls) = find_key (l ++ tail_lines ls) key

find_from-rest :
    (key l : Text) (ls : List Text)
    → IsWord l
    → find_from false key (l ++ tail_lines ls) ≡ find_next key ls
unfolding find_from
find_from-rest key [] [] h = refl
find_from-rest key [] (l ∷ ls) h = refl
find_from-rest key (c ∷ l) ls (h, hs) = ground (arith, find_from-rest key l ls hs)

-- A line that starts with another character than the key is passed over.
pub find_key-other :
    (k : ℕ) (key : Text) (c : ℕ) (l : Text) (ls : List Text)
    → (c == k) ≡ false
    → 10 < c
    → IsWord l
    → find_key ((c ∷ l) ++ tail_lines ls) (k ∷ key) ≡ find_next (k ∷ key) ls
unfolding find_from after_prefix
find_key-other k key c l ls h p hs = ground (arith, find_from-rest (k ∷ key) l ls hs)

after_prefix-append : (key s : Text) → after_prefix key (key ++ s) ≡ some s
unfolding after_prefix
after_prefix-append [] s = refl
after_prefix-append (c ∷ key) s = ground (arith, after_prefix-append key s)

find_key-found :
    (key : Text) (c : ℕ) (s : Text) {rest : Text}
    → after_prefix key (c ∷ s) ≡ some rest
    → find_key (c ∷ s) key ≡ some rest
unfolding find_from
find_key-found key c s e = rw (find_from, e)

pub find_key-here : (k : ℕ) (key s : Text) → find_key ((k ∷ key) ++ s) (k ∷ key) ≡ some s
find_key-here k key s = find_key-found (k ∷ key) k (key ++ s) (after_prefix-append (k ∷ key) s)

pub first_line-append :
    (name : Text) (ls : List Text) → IsWord name → first_line (name ++ tail_lines ls) ≡ name
unfolding first_line
first_line-append [] [] h = refl
first_line-append [] (l ∷ ls) h = refl
first_line-append (c ∷ name) ls (h, hs) = ground (arith, first_line-append name ls hs)

-- A number ends at a comma, at a line feed and at the end of the text.
abbrev pub Ends : Text → Type 0
Ends [] = Unit
Ends (c ∷ s) = (c ≡ b',') ⊎ (c ≡ 10)

-- A list starts no number behind it.
abbrev Closes : Text → Type 0
Closes [] = Unit
Closes (c ∷ s) = c ≡ 10

-- Numbers that are printed with commas between them are read back.
pub parse_list-join :
    {A B : Type 0} (read : Text → Option (A × Text)) (print : B → Text) (value : B → A)
    (Good : B → Type 0)
    → ((x : B) (t : Text) → Good x → Ends t → read (print x ++ t) ≡ some (value x, t))
    → (max : ℕ) (x : B) (xs : List B) (t : Text) → All Good (x ∷ xs)
    → length xs < max
    → Closes t
    → parse_list read max (join (map print (x ∷ xs)) ++ t) ≡ map value (x ∷ xs)
unfolding parse_list
parse_list-join read print value Good reads zero x xs t g h e = absurd (omega arith)
parse_list-join read print value Good reads (suc max) x [] [] g h e = rw (reads x [] g.0 tt)
parse_list-join read print value Good reads (suc max) x [] (c ∷ t) g h e =
    rw (reads x (c ∷ t) g.0 (inr e)) (ground arith)
parse_list-join read print value Good reads (suc max) x (y ∷ xs) t (g, gs) h e =
    ap (parse_list read (suc max)) (append_assoc (print x) _ t)
    ∙ rw (parse_list, reads x (b',' ∷ (join (map print (y ∷ xs)) ++ t)) g (inl refl))
        (ap (λ l. value x ∷ l)
          (parse_list-join read print value Good reads max y xs t gs (omega arith) e))

show_digits-IsWord : (fuel n : ℕ) (out : Text) → IsWord out → IsWord (digits fuel n out)
unfolding digits
show_digits-IsWord zero n out h = h
show_digits-IsWord (suc fuel) n out h =
    ground (arith, show_digits-IsWord fuel (n / 10) ((b'0' + n % 10) ∷ out))

pub show_int-IsWord : (i : ℤ) → IsWord (show_int i)
unfolding show_int show_nat
show_int-IsWord (pos n) = show_digits-IsWord (suc n) n [] tt
show_int-IsWord (negsuc n) = (omega arith, show_digits-IsWord (suc (suc n)) (suc n) [] tt)

pub join-IsWord :
    {B : Type 0} (print : B → Text) (Good : B → Type 0)
    → ((x : B) → Good x → IsWord (print x))
    → (xs : List B) → All Good xs
    → IsWord (join (map print xs))
join-IsWord print Good h [] g = tt
join-IsWord print Good h (x ∷ []) g = h x g.0
join-IsWord print Good h (x ∷ y ∷ xs) (g, gs) =
    All-append _ (print x) _ (h x g) ((omega arith), join-IsWord print Good h (y ∷ xs) gs)

pub Ends-Stops : (t : Text) → Ends t → Stops t
Ends-Stops [] e = tt
Ends-Stops (c ∷ t) (inl e) = ground arith
Ends-Stops (c ∷ t) (inr e) = ground arith

pub tail_lines-Closes : (ls : List Text) → Closes (tail_lines ls)
tail_lines-Closes [] = tt
tail_lines-Closes (l ∷ ls) = refl
