-- ===== src/Js/Text.antt =====
-- Texts of the language: decimal notation, `split`, and the set that keeps its insertion order.
pub mod Decimal
use Prim.Native.String.{[], ◌∷◌, ◌++◌}
use soldesk.Prelude.{
  ℕ, zero, suc, ◌/◌, ◌%◌, Char, code, String, List, Bool, true, false, ◌&&◌, ◌||◌, if◌then◌else◌,
  ltb, leb, ◌==◌,
}

unfoldable pub digit : ℕ → Char
digit zero = "0"
digit (suc zero) = "1"
digit (suc (suc zero)) = "2"
digit (suc (suc (suc zero))) = "3"
digit (suc (suc (suc (suc zero)))) = "4"
digit (suc (suc (suc (suc (suc zero))))) = "5"
digit (suc (suc (suc (suc (suc (suc zero)))))) = "6"
digit (suc (suc (suc (suc (suc (suc (suc zero))))))) = "7"
digit (suc (suc (suc (suc (suc (suc (suc (suc zero)))))))) = "8"
digit _ = "9"

unfoldable pub print_from : ℕ → ℕ → String → String
print_from zero n rest = rest
print_from (suc fuel) n rest =
    let longer = print_from fuel (n / 10) (digit (n % 10) ∷ rest) in
    if ltb n 10 then digit (n % 10) ∷ rest else longer

-- `String(n)` of a whole number; each round leaves fewer than `n` to print, so `n + 1` rounds do.
unfoldable pub print : ℕ → String
unfolding print_from digit
print n = print_from (suc n) n ""

grow : Char → List String → List String
grow c List.[] = List.◌∷◌ (c ∷ "") List.[]
grow c (List.◌∷◌ w ws) = List.◌∷◌ (c ∷ w) ws

-- `text.split(sep)` for a separator of one character, by its number.
unfoldable pub split : ℕ → String → List String
unfolding grow
split sep [] = List.◌∷◌ "" List.[]
split sep (c ∷ s) = if code c == sep then List.◌∷◌ "" (split sep s) else grow c (split sep s)

-- `texts.join(sep)`.
unfoldable pub join : String → List String → String
join sep List.[] = ""
join sep (List.◌∷◌ w List.[]) = w
join sep (List.◌∷◌ w (List.◌∷◌ v ws)) = w ++ (sep ++ join sep (List.◌∷◌ v ws))

-- `text.startsWith(prefix)` and `text.includes(part)`.
unfoldable pub starts_with : String → String → Bool
starts_with [] s = true
starts_with (c ∷ prefix) [] = false
starts_with (c ∷ prefix) (d ∷ s) = code c == code d && starts_with prefix s

unfoldable pub includes : String → String → Bool
unfolding starts_with
includes part [] = starts_with part ""
includes part (c ∷ s) = starts_with part (c ∷ s) || includes part s

-- A character that `\s` stands for in a regular expression, by its number.
unfoldable pub is_space : ℕ → Bool
is_space n =
    (leb 9 n && leb n 13)
    || n == 32
    || n == 160
    || n == 5760
    || (leb 8192 n && leb n 8202)
    || n == 8232
    || n == 8233
    || n == 8239
    || n == 8287
    || n == 12288
    || n == 65279

-- `text.replace(/\s+/g, '')`
unfoldable pub without_spaces : String → String
unfolding is_space
without_spaces [] = ""
without_spaces (c ∷ s) = if is_space (code c) then without_spaces s else c ∷ without_spaces s

-- `s < t` of two texts, by their characters (of which none has a number above 65535).
unfoldable pub text_ltb : String → String → Bool
text_ltb s [] = false
text_ltb [] (d ∷ t) = true
text_ltb (c ∷ s) (d ∷ t) =
    let rest = text_ltb s t in
    if ltb (code c) (code d) then true else if code c == code d then rest else false
