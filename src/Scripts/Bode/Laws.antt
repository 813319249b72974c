-- ===== src/Scripts/Bode/Laws.antt =====
-- The figure of the margins shows the rows of the table, and the code that is plotted is the middle
-- one.
use mathlib.Core.Path.{subst}
use pound_drever_hall.Common.{
  ℕ, zero, suc, ◌+◌, ◌/◌, ◌≡◌, refl, ap, ◌∙◌, Bool, true, false, ◌||◌, Option, none, some, List, [],
  ◌∷◌, map, Text, if◌then◌else◌, arith, length, get_elem?, All,
}
use pound_drever_hall.Common.Int.{ℤ, eq_ℤ, ltb_ℤ, eq_ℤ_sound}
use pound_drever_hall.Python.Result.{ok, err, index_error, >>=-eq-ok}
use pound_drever_hall.Python.Float.{Float}
use pound_drever_hall.Fir.Design.{divide}
use pound_drever_hall.Scripts.Bode.{
  Margins, Configs, all_codes, put, sorted_set, dec_codes_all, plot_dec, sorted_data, MarginRow,
  Series, config_rows, margin_rows, or_nan, control_rates, series_of, margin_series,
}

-- Whether a number is in a list, and how many of a list are below a number.
abbrev pub has : ℤ → List ℤ → Bool
has x [] = false
has x (n ∷ ns) = eq_ℤ x n || has x ns

abbrev pub count_below : ℤ → List ℤ → ℕ
count_below d [] = 0
count_below d (n ∷ ns) = (if ltb_ℤ n d then 1 else 0) + count_below d ns

abbrev Above : ℤ → List ℤ → Type 0
Above n = All λ m. ltb_ℤ n m ≡ true

abbrev pub IsIncreasing : List ℤ → Type 0
IsIncreasing [] = Unit
IsIncreasing (n ∷ ns) = Above n ns × IsIncreasing ns

ltb_ℤ_trans : (a b c : ℤ) → ltb_ℤ a b ≡ true → ltb_ℤ b c ≡ true → ltb_ℤ a c ≡ true
ltb_ℤ_trans a b c h k = ground arith

Above-trans : (k n : ℤ) (ms : List ℤ) → ltb_ℤ k n ≡ true → Above n ms → Above k ms
Above-trans k n [] h p = tt
Above-trans k n (m ∷ ms) h (p, ps) = (ltb_ℤ_trans k n m h p, Above-trans k n ms h ps)

put-Above : (k n : ℤ) (ms : List ℤ) → ltb_ℤ k n ≡ true → Above k ms → Above k (put n ms)
unfolding put
put-Above k n [] h p = (h, tt)
put-Above k n (m ∷ ms) h (p, ps) = ground (arith, put-Above k n ms h ps)

not_less : (n m : ℤ) → ltb_ℤ n m ≡ false → eq_ℤ n m ≡ false → ltb_ℤ m n ≡ true
not_less n m h k = ground arith

put-IsIncreasing : (n : ℤ) (ms : List ℤ) → IsIncreasing ms → IsIncreasing (put n ms)
unfolding put
put-IsIncreasing n [] p = (tt, tt)
put-IsIncreasing n (m ∷ ms) (p, ps) =
    ground (arith, put-IsIncreasing n ms ps, put-Above m n ms, Above-trans n m ms, not_less n m)

sorted_set-IsIncreasing : (ns : List ℤ) → IsIncreasing (sorted_set ns)
unfolding sorted_set
sorted_set-IsIncreasing [] = tt
sorted_set-IsIncreasing (n ∷ ns) = put-IsIncreasing n (sorted_set ns) (sorted_set-IsIncreasing ns)

has-put : (x n : ℤ) (ms : List ℤ) → has x (put n ms) ≡ has x (n ∷ ms)
unfolding put
has-put x n [] = refl
has-put x n (m ∷ ms) = ground (arith, has-put x n ms, eq_ℤ_sound n m)

has-sorted_set : (x : ℤ) (ns : List ℤ) → has x (sorted_set ns) ≡ has x ns
unfolding sorted_set
has-sorted_set x [] = refl
has-sorted_set x (n ∷ ns) =
    has-put x n (sorted_set ns) ∙ ap (λ b. eq_ℤ x n || b) (has-sorted_set x ns)

eq_ℤ_refl : (n : ℤ) → eq_ℤ n n ≡ true
eq_ℤ_refl n = ground arith

has-get_elem? : (ns : List ℤ) (i : ℕ) {d : ℤ} → get_elem? ns i ≡ some d → has d ns ≡ true
has-get_elem? [] i h = cc
has-get_elem? (n ∷ ns) zero {d} h = let e : n ≡ d = cc in rw (e, eq_ℤ_refl d)
has-get_elem? (n ∷ ns) (suc i) {d} h = ground (arith, has-get_elem? ns i h)

none_below : (d : ℤ) (ns : List ℤ) → Above d ns → count_below d ns ≡ 0
none_below d [] p = refl
none_below d (n ∷ ns) (p, ps) = ground (arith, none_below d ns ps)

Above-get_elem? :
    (n : ℤ) (ns : List ℤ) (i : ℕ) {d : ℤ} → Above n ns → get_elem? ns i ≡ some d → ltb_ℤ n d ≡ true
Above-get_elem? n [] i p h = cc
Above-get_elem? n (m ∷ ms) zero {d} (p, ps) h = let e : m ≡ d = cc in rw e at p
Above-get_elem? n (m ∷ ms) (suc i) (p, ps) h = Above-get_elem? n ms i ps h

-- In an increasing list an entry has as many below it as its index says.
count_below-get_elem? :
    (ns : List ℤ) (i : ℕ) {d : ℤ} → IsIncreasing ns → get_elem? ns i ≡ some d → count_below d ns ≡ i
count_below-get_elem? [] i p h = cc
count_below-get_elem? (n ∷ ns) zero {d} (p, ps) h =
    let e : n ≡ d = cc in
    let least : count_below n (n ∷ ns) ≡ 0 = ground (arith, none_below n ns p) in
    subst (λ c. count_below c (n ∷ ns) ≡ 0) e least
count_below-get_elem? (n ∷ ns) (suc i) {d} (p, ps) h =
    rw (Above-get_elem? n ns i p h) (omega (arith, count_below-get_elem? ns i ps h))

-- Without a choice, the code that is plotted is one of the results' codes, and half of the codes,
-- rounded down, are below it; the codes are those of the results in strictly ascending order.
plot_dec-middle :
    {F : Type 0} (configs : Configs F) {dec_codes : List ℤ} {d : ℤ}
    → dec_codes_all configs ≡ ok dec_codes
    → plot_dec none dec_codes ≡ ok d
    → (ns : List ℤ) × (all_codes configs ≡ ok ns)
      × ((x : ℤ) → has x dec_codes ≡ has x ns)
      × IsIncreasing dec_codes
      × (has d dec_codes ≡ true)
      × (count_below d dec_codes ≡ length dec_codes / 2)
unfolding dec_codes_all plot_dec
plot_dec-middle configs {dec_codes} {d} h k =
    let (ns, made, e) = >>=-eq-ok (all_codes configs) _ h in
    let same : sorted_set ns ≡ dec_codes = cc in
    let rising : IsIncreasing dec_codes = subst IsIncreasing same (sorted_set-IsIncreasing ns) in
    let found = middle (get_elem? dec_codes (length dec_codes / 2)) k in
    (
      ns,
      made,
      λ x. rw (← same) (has-sorted_set x ns),
      rising,
      has-get_elem? dec_codes _ found,
      count_below-get_elem? dec_codes _ rising found,
    )
  where
    middle : (o : Option ℤ) → elim o [ none ↦ err index_error | some d ↦ ok d ] ≡ ok d → o ≡ some d
    middle none e = cc
    middle (some c) e = cc

module _ {F : Type 0} ⦃fl : Float F⦄ where
  -- The series of a configuration shows its rows: the rates, and the margins with NaN for null.
  pub record IsShown (series : Series F) (rows : List (MarginRow F)) : Type 0 where
    pub rates : series.f_ctrl ≡ map (λ row. row.f_control_hz) rows
    pub phases : series.pm_plot ≡ map (λ row. or_nan row.margins.pm_deg) rows
    pub gains : series.gm_plot ≡ map (λ row. or_nan row.margins.gm_db) rows

  abbrev pub AllShown : List (Series F) → List (List (MarginRow F)) → Type 0
  AllShown [] [] = Unit
  AllShown (s ∷ series) (r ∷ rows) = IsShown s r × AllShown series rows
  AllShown _ _ = ⊥

  config_rows-rates :
      (fs : F) (name : Text) (entries : List (ℤ × Margins F)) {rows : List (MarginRow F)}
      → config_rows fs name entries ≡ ok rows
      → (control_rates fs entries ≡ ok (map (λ row. row.f_control_hz) rows))
        × ((g : Margins F → F) → map (λ (dec, d). g d) entries ≡ map (λ row. g row.margins) rows)
  unfolding config_rows control_rates
  config_rows-rates fs name [] {rows} h = let e : [] ≡ rows = cc in rw (← e) (refl, λ g. refl)
  config_rows-rates fs name ((dec, d) ∷ entries) {rows} h =
      let (f, made, h₁) = >>=-eq-ok (divide fs (fl.of_int dec)) _ h in
      let (rest, built, h₂) = >>=-eq-ok (config_rows fs name entries) _ h₁ in
      let row : MarginRow F = record {
        config = name;
        decimation = dec;
        f_control_hz = f;
        margins = d;
      } in
      let e : (row ∷ rest) ≡ rows = cc in
      let (rates, same) = config_rows-rates fs name entries built in
      rw (← e) (rw (made, rates), λ g. ap (λ l. g d ∷ l) (same g))

  config_rows-IsShown :
      (fs : F) (name : Text) (entries : List (ℤ × Margins F)) {rows : List (MarginRow F)}
      → config_rows fs name entries ≡ ok rows
      → (series : Series F) × (series_of fs name entries ≡ ok series) × IsShown series rows
  config_rows-IsShown fs name entries {rows} h =
      let (rates, same) = config_rows-rates fs name entries h in
      let series : Series F = record {
        config = name;
        f_ctrl = map (λ row. row.f_control_hz) rows;
        pm_plot = map (λ (dec, d). or_nan d.pm_deg) entries;
        gm_plot = map (λ (dec, d). or_nan d.gm_db) entries;
      } in
      (
        series,
        rw rates,
        record {
          rates = refl;
          phases = same (λ d. or_nan d.pm_deg);
          gains = same (λ d. or_nan d.gm_db);
        },
      )

  -- Where the table of the margins can be written, the figure can be drawn, and the series of each
  -- configuration is what its rows say, with NaN for an empty field.
  pub margin_rows-AllShown :
      (fs : F) (configs : Configs F) {rows : List (List (MarginRow F))}
      → margin_rows fs configs ≡ ok rows
      → (series : List (Series F)) × (margin_series fs configs ≡ ok series) × AllShown series rows
  unfolding margin_rows margin_series
  margin_rows-AllShown fs [] {rows} h = let e : [] ≡ rows = cc in rw (← e) ([], refl, tt)
  margin_rows-AllShown fs ((name, table) ∷ configs) {rows} h =
      let (entries, sorted, h₁) = >>=-eq-ok (sorted_data table) _ h in
      let (mine, made, h₂) = >>=-eq-ok (config_rows fs name entries) _ h₁ in
      let (rest, built, h₃) = >>=-eq-ok (margin_rows fs configs) _ h₂ in
      let e : (mine ∷ rest) ≡ rows = cc in
      let (s, drawn, shown) = config_rows-IsShown fs name entries made in
      let (series, all, all_shown) = margin_rows-AllShown fs configs built in
      rw (← e) (s ∷ series, rw (sorted, drawn, all), (shown, all_shown))
