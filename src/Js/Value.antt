-- ===== src/Js/Value.antt =====
-- Loosely typed values, as the parsed answers of the services and the stored data hold them.
use soldesk.Prelude.{
  ℕ, zero, suc, ◌/◌, String, Bool, true, false, not, ◌===◌, ◌==◌, ◌*◌, if◌then◌else◌,
}
use soldesk.Prelude.Int.{ℤ, pos, negsuc, sub_ℕ}

-- A number is NaN, an infinity, or the fraction `z / (d + 1)`.
pub data Number : Type 0 where
  nan : Number
  infinity : Bool → Number
  ratio : ℤ → ℕ → Number

-- What the engine decides by its tables: `Number(text)`, `String(number)`, `text.toUpperCase()`,
-- `text.toLowerCase()` and `text.trim()`.
pub record Engine : Type 0 where
  pub read : String → Number
  pub show : Number → String
  pub upper : String → String
  pub lower : String → String
  pub trim : String → String

-- An object or an array stands with the text that `String` gives for it.
pub data Value : Type 0 where
  undefined null : Value
  boolean : Bool → Value
  number : Number → Value
  text : String → Value
  object : String → Value

abbrev pub whole : ℤ → Number
whole z = ratio z 0

-- `isFinite` and `Math.trunc` in one: the whole part, 0 for what is no finite number.
unfoldable pub trunc : Number → ℤ
trunc (ratio (pos n) d) = pos (n / suc d)
trunc (ratio (negsuc n) d) = sub_ℕ 0 (suc n / suc d)
trunc _ = pos 0

abbrev pub is_zero : ℤ → Bool
is_zero (pos zero) = true
is_zero _ = false

-- `number === n` and `number > 0`.
unfoldable pub number_is : ℕ → Number → Bool
number_is n (ratio (pos z) d) = z == n * suc d
number_is n _ = false

unfoldable pub is_positive : Number → Bool
is_positive nan = false
is_positive (infinity b) = b
is_positive (ratio (pos n) d) = not (n == 0)
is_positive (ratio (negsuc n) d) = false

-- The test of `if (number)`.
unfoldable pub number_truthy : Number → Bool
number_truthy nan = false
number_truthy (infinity _) = true
number_truthy (ratio z _) = not (is_zero z)

-- The test of `if (value)`, `!value`, `a && b` and `a || b`.
unfoldable pub truthy : Value → Bool
unfolding number_truthy
truthy undefined = false
truthy null = false
truthy (boolean b) = b
truthy (number n) = number_truthy n
truthy (text s) = not (s === "")
truthy (object _) = true

-- `a || b`.
unfoldable pub or_else : Value → Value → Value
unfolding truthy
or_else a b = if truthy a then a else b

-- `value === undefined || value === null`.
unfoldable pub is_nullish : Value → Bool
is_nullish undefined = true
is_nullish null = true
is_nullish _ = false

-- `value === b` for a Boolean, `value === s` for a text.
unfoldable pub is_boolean : Bool → Value → Bool
is_boolean b (boolean a) = if b then a else not a
is_boolean b _ = false

unfoldable pub is_text : String → Value → Bool
is_text s (text t) = t === s
is_text s _ = false

module _ (js : Engine) where
  -- `String(value)`.
  unfoldable pub string_of : Value → String
  string_of undefined = "undefined"
  string_of null = "null"
  string_of (boolean true) = "true"
  string_of (boolean false) = "false"
  string_of (number n) = js.show n
  string_of (text s) = s
  string_of (object s) = s

  -- `Number(value)`.
  unfoldable pub number_of : Value → Number
  number_of undefined = nan
  number_of null = whole (pos 0)
  number_of (boolean true) = whole (pos 1)
  number_of (boolean false) = whole (pos 0)
  number_of (number n) = n
  number_of (text s) = js.read s
  number_of (object s) = js.read s

  -- The pages' `toInt(value)`.
  unfoldable pub to_int : Value → ℤ
  unfolding number_of trunc
  to_int v = trunc (number_of v)

  -- `String(value || '')`.
  unfoldable pub text_or_empty : Value → String
  unfolding string_of or_else
  text_or_empty v = string_of (or_else v (text ""))
