-- ===== src/Forms/Fields.antt =====
-- What the account forms share: the tests of a number, a name and a password, and the filters on what
-- is typed (frontend/src/js/user/signup.js; pwfind.js has the same functions).
use Prim.Native.String.{[], ◌∷◌}
use soldesk.Prelude.{
  ℕ, zero, suc, ◌+◌, code, String, Bool, true, false, ◌&&◌, ◌||◌, ◌==◌, leb, if◌then◌else◌,
}
use soldesk.Js.Text.{is_space}
use soldesk.Js.Value.{Engine}

-- `text.length`, in UTF-16 units.
unfoldable pub size : String → ℕ
size [] = 0
size (c ∷ s) = (if leb 65536 (code c) then 2 else 1) + size s

unfoldable pub every : (ℕ → Bool) → String → Bool
every p [] = true
every p (c ∷ s) = p (code c) && every p s

-- `text.replace(/[^...]/g, '')`
unfoldable pub only : (ℕ → Bool) → String → String
only p [] = ""
only p (c ∷ s) = if p (code c) then c ∷ only p s else only p s

-- `text.slice(0, n)`, where no character needs two units.
unfoldable pub first_of : ℕ → String → String
first_of zero s = ""
first_of (suc n) [] = ""
first_of (suc n) (c ∷ s) = c ∷ first_of n s

-- `text.slice(n)`, on the same condition.
unfoldable pub rest_of : ℕ → String → String
rest_of zero s = s
rest_of (suc n) [] = ""
rest_of (suc n) (c ∷ s) = rest_of n s

unfoldable pub is_digit : ℕ → Bool
is_digit c = leb 48 c && leb c 57

-- `[가-힣a-zA-Z\s]`
unfoldable pub is_name_character : ℕ → Bool
is_name_character c =
    (leb 44032 c && leb c 55203) || (leb 97 c && leb c 122) || (leb 65 c && leb c 90) || is_space c

unfoldable pub only_digits : String → String
unfolding only is_digit
only_digits s = only is_digit s

unfoldable pub sanitize_name : String → String
unfolding only is_name_character
sanitize_name s = only is_name_character s

-- `/^01[016789]\d{7,8}$/`
unfoldable pub is_phone : String → Bool
unfolding every is_digit size
is_phone (a ∷ (b ∷ (c ∷ s))) =
    code a == 48
    && code b == 49
    && (leb (code c) 49 && leb 48 (code c) || leb 54 (code c) && leb (code c) 57)
    && every is_digit s
    && (size s == 7 || size s == 8)
is_phone _ = false

module _ (js : Engine) where
  unfoldable pub is_valid_phone : String → Bool
  unfolding is_phone
  is_valid_phone phone = is_phone (js.trim phone)

  unfoldable pub is_valid_name : String → Bool
  unfolding every is_name_character size
  is_valid_name name =
      let s = js.trim name in every is_name_character s && leb 2 (size s) && leb (size s) 20

  unfoldable pub is_valid_password : String → Bool
  unfolding size
  is_valid_password password = leb 4 (size (js.trim password))
