-- ===== src/Js/Text/Decimal.antt =====
-- Decimal notation is read back, and `split` takes a text apart where it was joined.
use Prim.Native.String.{[], ◌∷◌, ◌++◌}
use text.Mathlib.TextLemmas.{nil-append, cons-append}
use soldesk.Prelude.{
  ℕ, zero, suc, ◌+◌, ◌-◌, ◌*◌, ◌/◌, ◌%◌, ◌<◌, ◌≡◌, refl, ap, ◌∙◌, sym, ◌≢◌, code, String, List,
  Bool-cases, inl, inr, ltb, arith,
}
use soldesk.Js.Text.{digit, print_from, print, split}

-- The number that a text of digits denotes.
unfoldable pub read_from : ℕ → String → ℕ
read_from n [] = n
read_from n (c ∷ s) = read_from (n * 10 + (code c - 48)) s

pub code-digit : (d : ℕ) → d < 10 → code (digit d) ≡ 48 + d
unfolding digit
code-digit zero h = refl
code-digit (suc zero) h = refl
code-digit (suc (suc zero)) h = refl
code-digit (suc (suc (suc zero))) h = refl
code-digit (suc (suc (suc (suc zero)))) h = refl
code-digit (suc (suc (suc (suc (suc zero))))) h = refl
code-digit (suc (suc (suc (suc (suc (suc zero)))))) h = refl
code-digit (suc (suc (suc (suc (suc (suc (suc zero))))))) h = refl
code-digit (suc (suc (suc (suc (suc (suc (suc (suc zero)))))))) h = refl
code-digit (suc (suc (suc (suc (suc (suc (suc (suc (suc zero))))))))) h = refl
code-digit (suc (suc (suc (suc (suc (suc (suc (suc (suc (suc d)))))))))) h = absurd (omega arith)

read_from-print_from :
    (fuel n : ℕ) (rest : String)
    → n < fuel
    → read_from 0 (print_from fuel n rest) ≡ read_from n rest
unfolding print_from read_from
read_from-print_from zero n rest h = elim h [ ]
read_from-print_from (suc fuel) n rest h = elim (Bool-cases (ltb n 10)) [
  | inl small ↦
      let last : 0 * 10 + (code (digit (n % 10)) - 48) ≡ n = ground (arith, code-digit (n % 10)) in
      rw small (ap (λ k. read_from k rest) last)
  | inr big ↦
      let last : n / 10 * 10 + (code (digit (n % 10)) - 48) ≡ n =
        ground (arith, code-digit (n % 10)) in
      rw big (
        read_from-print_from fuel (n / 10) (digit (n % 10) ∷ rest) (ground arith)
        ∙ ap (λ k. read_from k rest) last)
]

-- A printed number is read back.
pub read_from-print : (n : ℕ) → read_from 0 (print n) ≡ n
unfolding print read_from
read_from-print n = read_from-print_from (suc n) n "" (omega arith)

pub print-injective : (m n : ℕ) → print m ≡ print n → m ≡ n
unfolding print read_from
print-injective m n e =
    sym (read_from-print_from (suc m) m "" (omega arith))
    ∙ ap (read_from 0) e
    ∙ read_from-print_from (suc n) n "" (omega arith)

-- No character of the text is the one of the number `sep`.
abbrev pub Lacks : ℕ → String → Type 0
Lacks sep [] = Unit
Lacks sep (c ∷ s) = (code c ≢ sep) × Lacks sep s

print_from-Lacks :
    (sep fuel n : ℕ) (rest : String)
    → sep < 48
    → Lacks sep rest
    → Lacks sep (print_from fuel n rest)
unfolding print_from
print_from-Lacks sep zero n rest h l = l
print_from-Lacks sep (suc fuel) n rest h l =
    let last : code (digit (n % 10)) ≢ sep = ground (arith, code-digit (n % 10)) in
    elim (Bool-cases (ltb n 10)) [
      | inl small ↦ rw small (last, l)
      | inr big ↦ rw big (print_from-Lacks sep fuel (n / 10) (digit (n % 10) ∷ rest) h (last, l))
    ]

pub print-Lacks : (sep n : ℕ) → sep < 48 → Lacks sep (print n)
unfolding print
print-Lacks sep n h = print_from-Lacks sep (suc n) n "" h tt

pub split_of_Lacks : (sep : ℕ) (s : String) → Lacks sep s → split sep s ≡ List.◌∷◌ s List.[]
unfolding split
split_of_Lacks sep [] l = refl
split_of_Lacks sep (c ∷ s) (ne, l) = ground (arith, split_of_Lacks sep s l)

-- A text is cut at the first separator.
pub split-append :
    (sep : ℕ) (s t : String)
    → Lacks sep s
    → sep ≡ 45
    → split sep (s ++ ("-" ++ t)) ≡ List.◌∷◌ s (split sep t)
unfolding split
split-append sep [] t l e = rw (nil-append, cons-append, nil-append) (ground arith)
split-append sep (c ∷ s) t (ne, l) e = rw cons-append (ground (arith, split-append sep s t l e))
