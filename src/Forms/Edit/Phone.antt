-- ===== src/Forms/Edit/Phone.antt =====
-- The number as it is shown and as it is sent.
use Prim.Native.String.{[], ◌∷◌, ◌++◌}
use package.text.Mathlib.TextLemmas.{nil-append, cons-append}
use soldesk.Prelude.{
  ℕ, zero, suc, ◌≤◌, ◌≡◌, refl, sym, ap, ◌∙◌, code, String, Bool, true, ◌===◌, ===_iff, ◌==◌,
  if_holds, Bool-cases, inl, inr, arith,
}
use soldesk.Forms.Fields.{size, every, only, first_of, rest_of, is_digit, only_digits}
use soldesk.Forms.Edit.{normalize_phone, hyphened, format_phone}

only-append : (p : ℕ → Bool) (s t : String) → only p (s ++ t) ≡ only p s ++ only p t
unfolding only
only-append p [] t = rw (nil-append t, nil-append (only p t)) refl
only-append p (c ∷ s) t = elim (Bool-cases (p (code c))) [
  | inl kept ↦
      rw (cons-append c s t, kept, only-append p s t, cons-append c (only p s) (only p t)) refl
  | inr dropped ↦ rw (cons-append c s t, dropped, only-append p s t) refl
]

only-all : (p : ℕ → Bool) (s : String) → every p s ≡ true → only p s ≡ s
unfolding only every
only-all p [] h = refl
only-all p (c ∷ s) h = ground (arith, h, only-all p s)

pub every-only : (p : ℕ → Bool) (s : String) → every p (only p s) ≡ true
unfolding only every
every-only p [] = refl
every-only p (c ∷ s) = ground (arith, every-only p s)

pub every-first_of :
    (p : ℕ → Bool) (n : ℕ) (s : String) → every p s ≡ true → every p (first_of n s) ≡ true
unfolding every first_of
every-first_of p zero s h = refl
every-first_of p (suc n) [] h = refl
every-first_of p (suc n) (c ∷ s) h = ground (arith, h, every-first_of p n s)

first_of-rest_of : (n : ℕ) (s : String) → first_of n s ++ rest_of n s ≡ s
unfolding first_of rest_of
first_of-rest_of zero s = nil-append s
first_of-rest_of (suc n) [] = nil-append ""
first_of-rest_of (suc n) (c ∷ s) =
    rw (cons-append c (first_of n s) (rest_of n s), first_of-rest_of n s) refl

first_of-all : (n : ℕ) (s : String) → size s ≤ n → first_of n s ≡ s
unfolding first_of size
first_of-all zero [] h = refl
first_of-all zero (c ∷ s) h = ground (arith, h)
first_of-all (suc n) [] h = refl
first_of-all (suc n) (c ∷ s) h = ap (λ t. c ∷ t) (first_of-all n s (ground (arith, h)))

size-first_of : (n : ℕ) (s : String) → every is_digit s ≡ true → size (first_of n s) ≤ n
unfolding first_of size every is_digit
size-first_of zero s h = omega arith
size-first_of (suc n) [] h = omega arith
size-first_of (suc n) (c ∷ s) h = ground (arith, h, size-first_of n s)

no_digit : only is_digit "-" ≡ ""
unfolding only is_digit
no_digit = refl

-- The hyphens are no digits.
hyphened-only_digits :
    (middle : ℕ) (raw : String) → only_digits (hyphened middle raw) ≡ only_digits raw
unfolding only_digits hyphened
hyphened-only_digits middle raw =
    let rest = rest_of 3 raw in
    let dash : only is_digit "-" ≡ "" = no_digit in
    let back : only is_digit (first_of 3 raw)
          ++ (only is_digit (first_of middle rest) ++ only is_digit (rest_of middle rest))
        ≡ only is_digit raw =
      rw
        (
          ← only-append is_digit (first_of middle rest) (rest_of middle rest),
          first_of-rest_of middle rest,
          ← only-append is_digit (first_of 3 raw) rest,
          first_of-rest_of 3 raw,
        )
        refl in
    rw (only-append, only-append, only-append, only-append, dash, nil-append, nil-append) back

only_digits-all : (raw : String) → every is_digit raw ≡ true → only_digits raw ≡ raw
unfolding only_digits
only_digits-all raw digits = only-all is_digit raw digits

-- A text with these digits, which are at most eleven, is sent as them.
sent_digits : (raw t : String) → size raw ≤ 11 → only_digits t ≡ raw → normalize_phone t ≡ raw
unfolding normalize_phone
sent_digits raw t short e = ap (first_of 11) e ∙ first_of-all 11 raw short

formatted :
    (raw : String)
    → every is_digit raw ≡ true
    → size raw ≤ 11
    → normalize_phone (format_phone raw) ≡ raw
unfolding format_phone only_digits
formatted raw digits short =
    let own = only_digits-all raw digits in
    let parts : (middle : ℕ) → normalize_phone (hyphened middle (only_digits raw)) ≡ raw = λ middle.
      sent_digits raw (hyphened middle (only_digits raw)) short
        (hyphened-only_digits middle (only_digits raw) ∙ ap only_digits own ∙ own) in
    if_holds (λ t. normalize_phone t ≡ raw) (size (only_digits raw) == 11) (λ _. parts 4)
      (λ _.
        if_holds (λ t. normalize_phone t ≡ raw) (size (only_digits raw) == 10) (λ _. parts 3)
          (λ _.
            if_holds (λ t. normalize_phone t ≡ raw) (raw === "")
              (λ nothing. sent_digits raw "-" short (no_digit ∙ sym ((===_iff raw "").0 nothing)))
              (λ _. sent_digits raw raw short own)))

-- What is typed as a number is shown with hyphens, and what is then sent are its first eleven digits:
-- to filter the shown text gives back what was filtered from the typed one.
pub normalize_phone-format_phone :
    (value : String)
    → normalize_phone (format_phone (normalize_phone value)) ≡ normalize_phone value
unfolding normalize_phone only_digits
normalize_phone-format_phone value =
    let digits = every-only is_digit value in
    formatted (normalize_phone value) (every-first_of is_digit 11 (only is_digit value) digits)
      (size-first_of 11 (only is_digit value) digits)
