-- ===== src/Theaters/Month/Keys.antt =====
-- The keys of days are ordered as texts as the days are in time.
use Prim.Native.String.{◌∷◌, ◌++◌}
use text.Mathlib.TextLemmas.{nil-append, cons-append}
use soldesk.Prelude.{
  ℕ, zero, suc, ◌+◌, ◌*◌, ◌/◌, ◌%◌, ◌<◌, ◌≤◌, ◌≡◌, refl, ap, ◌∙◌, String, Bool, true, false,
  Bool-cases, inl, inr, ltb, ◌==◌, if◌then◌else◌, arith,
}
use soldesk.Js.Text.{digit, print_from, print, text_ltb}
use soldesk.Js.Text.Decimal.{code-digit}
use soldesk.Theaters.Month.{pad2, day_key}

-- The first two decide where they differ.
abbrev pub first_by : ℕ → ℕ → Bool → Bool
first_by a b rest = if ltb a b then true else if a == b then rest else false

-- One day is before another one.
abbrev pub earlier : ℕ → ℕ → ℕ → ℕ → ℕ → ℕ → Bool
earlier y m d y' m' d' = first_by y y' (first_by m m' (ltb d d'))

first_by_next :
    (p q a b : ℕ) (rest : Bool)
    → a < 10
    → b < 10
    → first_by p q (first_by a b rest) ≡ first_by (p * 10 + a) (q * 10 + b) rest
first_by_next p q a b rest ha hb = ground arith

first_by_same :
    {p p' q q' : ℕ} (rest : Bool) → p ≡ p' → q ≡ q' → first_by p q rest ≡ first_by p' q' rest
first_by_same rest e e' = rw (e, e') refl

digits_ltb :
    (a b : ℕ) (s t : String)
    → a < 10
    → b < 10
    → text_ltb (digit a ∷ s) (digit b ∷ t) ≡ first_by a b (text_ltb s t)
unfolding text_ltb
digits_ltb a b s t ha hb = ground (arith, code-digit a ha, code-digit b hb)

print_last :
    (fuel n : ℕ) (rest : String) → n < 10 → print_from (suc fuel) n rest ≡ digit (n % 10) ∷ rest
unfolding print_from
print_last fuel n rest h = let small : ltb n 10 ≡ true = ground arith in rw small refl

print_more :
    (fuel n : ℕ) (rest : String)
    → 10 ≤ n
    → print_from (suc fuel) n rest ≡ print_from fuel (n / 10) (digit (n % 10) ∷ rest)
unfolding print_from
print_more fuel n rest h = let large : ltb n 10 ≡ false = ground arith in rw large refl

abbrev four_digits : ℕ → String → String
four_digits n rest =
    digit (n / 10 / 10 / 10 % 10)
    ∷ (digit (n / 10 / 10 % 10) ∷ (digit (n / 10 % 10) ∷ (digit (n % 10) ∷ rest)))

print_four :
    (fuel n : ℕ) (rest : String)
    → 4 ≤ fuel
    → 1000 ≤ n
    → n < 10000
    → print_from fuel n rest ≡ four_digits n rest
print_four (suc (suc (suc (suc fuel)))) n rest hf h h' =
    print_more _ n rest (omega arith)
    ∙ print_more _ (n / 10) _ (omega arith)
    ∙ print_more _ (n / 10 / 10) _ (omega arith)
    ∙ print_last fuel (n / 10 / 10 / 10) _ (omega arith)
print_four zero n rest hf h h' = absurd (omega arith)
print_four (suc zero) n rest hf h h' = absurd (omega arith)
print_four (suc (suc zero)) n rest hf h h' = absurd (omega arith)
print_four (suc (suc (suc zero))) n rest hf h h' = absurd (omega arith)

-- Four digits are compared as their number is.
four_digits_ltb :
    (m n : ℕ) (s t : String)
    → m < 10000
    → n < 10000
    → text_ltb (four_digits m s) (four_digits n t) ≡ first_by m n (text_ltb s t)
four_digits_ltb m n s t hm hn =
    digits_ltb (m / 10 / 10 / 10 % 10) (n / 10 / 10 / 10 % 10) _ _ (omega arith) (omega arith)
    ∙ ap (first_by (m / 10 / 10 / 10 % 10) (n / 10 / 10 / 10 % 10)) (
        digits_ltb (m / 10 / 10 % 10) (n / 10 / 10 % 10) _ _ (omega arith) (omega arith)
        ∙ ap (first_by (m / 10 / 10 % 10) (n / 10 / 10 % 10)) (
            digits_ltb (m / 10 % 10) (n / 10 % 10) _ _ (omega arith) (omega arith)
            ∙ ap (first_by (m / 10 % 10) (n / 10 % 10))
                (digits_ltb (m % 10) (n % 10) s t (omega arith) (omega arith))))
    ∙ first_by_next _ _ (m / 10 / 10 % 10) (n / 10 / 10 % 10) _ (omega arith) (omega arith)
    ∙ first_by_next _ _ (m / 10 % 10) (n / 10 % 10) _ (omega arith) (omega arith)
    ∙ first_by_next _ _ (m % 10) (n % 10) _ (omega arith) (omega arith)
    ∙ first_by_same (text_ltb s t) (number_of m hm) (number_of n hn)
  where
    number_of :
        (n : ℕ)
        → n < 10000
        → ((n / 10 / 10 / 10 % 10 * 10 + n / 10 / 10 % 10) * 10 + n / 10 % 10) * 10 + n % 10 ≡ n
    number_of n h = omega arith

abbrev two_digits : ℕ → String → String
two_digits n rest = digit (n / 10) ∷ (digit (n % 10) ∷ rest)

two_digits_ltb :
    (m n : ℕ) (s t : String)
    → m < 100
    → n < 100
    → text_ltb (two_digits m s) (two_digits n t) ≡ first_by m n (text_ltb s t)
two_digits_ltb m n s t hm hn =
    digits_ltb (m / 10) (n / 10) _ _ (omega arith) (omega arith)
    ∙ ap (first_by (m / 10) (n / 10)) (digits_ltb (m % 10) (n % 10) s t (omega arith) (omega arith))
    ∙ first_by_next _ _ (m % 10) (n % 10) _ (omega arith) (omega arith)
    ∙ first_by_same (text_ltb s t) (number_of m) (number_of n)
  where
    number_of : (n : ℕ) → n / 10 * 10 + n % 10 ≡ n
    number_of n = omega arith

two_digits-append : (n : ℕ) (s : String) → two_digits n "" ++ s ≡ two_digits n s
two_digits-append n s =
    cons-append (digit (n / 10)) (digit (n % 10) ∷ "") s
    ∙ ap (digit (n / 10) ∷◌)
        (cons-append (digit (n % 10)) "" s ∙ ap (digit (n % 10) ∷◌) (nil-append s))

pad2_lem : (n : ℕ) → n < 100 → pad2 n ≡ two_digits n ""
unfolding pad2 print digit
pad2_lem n h = elim (Bool-cases (ltb n 10)) [
  | inl small ↦
      let first : n / 10 ≡ 0 = ground arith in
      let zeros : "0" ∷ (digit (n % 10) ∷ "") ≡ two_digits n "" = rw first refl in
      rw small (
        cons-append "0" "" (digit (n % 10) ∷ "")
        ∙ ap ("0" ∷◌) (nil-append (digit (n % 10) ∷ ""))
        ∙ zeros)
  | inr large ↦
      let first : n / 10 % 10 ≡ n / 10 = omega arith in
      rw large (print_two n (ground arith) h ∙ ap (λ k. digit k ∷ (digit (n % 10) ∷ "")) first)
]
  where
    print_two :
        (n : ℕ)
        → 10 ≤ n
        → n < 100
        → print_from n (n / 10) (digit (n % 10) ∷ "") ≡ digit (n / 10 % 10) ∷ (digit (n % 10) ∷ "")
    print_two zero l l' = absurd (omega arith)
    print_two (suc k) l l' = print_last k (suc k / 10) _ (omega arith)

print_year : (y : ℕ) → 1000 ≤ y → y < 10000 → print y ≡ four_digits y ""
unfolding print
print_year y h h' = print_four (suc y) y "" (omega arith) h h'

four_digits-append : (n : ℕ) (s : String) → four_digits n "" ++ s ≡ four_digits n s
four_digits-append n s =
    cons-append _ _ s
    ∙ ap (digit (n / 10 / 10 / 10 % 10) ∷◌) (
        cons-append _ _ s
        ∙ ap (digit (n / 10 / 10 % 10) ∷◌) (
            cons-append _ _ s
            ∙ ap (digit (n / 10 % 10) ∷◌)
                (cons-append _ _ s ∙ ap (digit (n % 10) ∷◌) (nil-append s))))

hyphen-append : (s : String) → "-" ++ s ≡ "-" ∷ s
hyphen-append s = cons-append "-" "" s ∙ ap ("-" ∷◌) (nil-append s)

hyphen_ltb : (s t : String) → text_ltb ("-" ∷ s) ("-" ∷ t) ≡ text_ltb s t
unfolding text_ltb
hyphen_ltb s t = refl

end_ltb : text_ltb "" "" ≡ false
unfolding text_ltb
end_ltb = refl

day_key_lem :
    (y m d : ℕ)
    → 1000 ≤ y
    → y < 10000
    → m < 12
    → d < 100
    → day_key y m d ≡ four_digits y ("-" ∷ two_digits (m + 1) ("-" ∷ two_digits d ""))
unfolding day_key
day_key_lem y m d hy ly hm hd =
    let month_on : pad2 (m + 1) ++ ("-" ++ pad2 d) ≡ two_digits (m + 1) ("-" ∷ two_digits d "") =
      rw (pad2_lem (m + 1) (omega arith), pad2_lem d hd)
        (two_digits-append (m + 1) _ ∙ ap (two_digits (m + 1)) (hyphen-append (two_digits d ""))) in
    ap (λ s. s ++ ("-" ++ (pad2 (m + 1) ++ ("-" ++ pad2 d)))) (print_year y hy ly)
    ∙ four_digits-append y _
    ∙ ap (four_digits y) (hyphen-append _ ∙ ap ("-" ∷◌) month_on)

-- For years of four digits, the keys of two days are compared as texts just as the days are in time.
pub day_key-text_ltb :
    (y m d y' m' d' : ℕ)
    → 1000 ≤ y
    → y < 10000
    → 1000 ≤ y'
    → y' < 10000
    → m < 12
    → m' < 12
    → d < 100
    → d' < 100
    → text_ltb (day_key y m d) (day_key y' m' d') ≡ earlier y m d y' m' d'
day_key-text_ltb y m d y' m' d' hy ly hy' ly' hm hm' hd hd' =
    ap (λ s. text_ltb s (day_key y' m' d')) (day_key_lem y m d hy ly hm hd)
    ∙ ap (text_ltb _) (day_key_lem y' m' d' hy' ly' hm' hd')
    ∙ four_digits_ltb y y' _ _ ly ly'
    ∙ ap (first_by y y') (
        hyphen_ltb _ _
        ∙ two_digits_ltb (m + 1) (m' + 1) _ _ (omega arith) (omega arith)
        ∙ ap (first_by (m + 1) (m' + 1)) (hyphen_ltb _ _ ∙ two_digits_ltb d d' "" "" hd hd')
        ∙ months)
  where
    months : first_by (m + 1) (m' + 1) (first_by d d' (text_ltb "" "")) ≡ first_by m m' (ltb d d')
    months = rw end_ltb (ground arith)
