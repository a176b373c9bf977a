-- ===== src/Account.antt =====
-- The account as the browser stores it (frontend/src/js/common/app-config.js): the login record with
-- its end, the user id beside it, and the remembered login id. A stored object stands as
-- `JSON.parse` gives it back.
pub mod Laws
use soldesk.Prelude.{
  ℕ, suc, ◌+◌, ◌*◌, String, List, [], ◌∷◌, Option, none, some, Bool, true, false, ◌&&◌, ◌==◌, ◌===◌,
  ltb, if◌then◌else◌,
}
use soldesk.Prelude.Int.{pos, negsuc}
use soldesk.Js.Value.{
  Engine, Number, nan, infinity, ratio, whole, Value, undefined, number, truthy, string_of,
  number_of,
}

-- An object by its fields.
abbrev pub Fields : Type 0
Fields = List (String × Value)

unfoldable pub field : String → Fields → Value
field key [] = undefined
field key ((k, v) ∷ fs) = if k === key then v else field key fs

unfoldable pub set_field : String → Value → Fields → Fields
set_field key value [] = (key, value) ∷ []
set_field key value ((k, v) ∷ fs) =
    if k === key then (k, value) ∷ fs else (k, v) ∷ set_field key value fs

-- `{ ...a, ...b }`
unfoldable pub spread : Fields → Fields → Fields
unfolding set_field
spread a [] = a
spread a ((k, v) ∷ b) = set_field k v (spread a b)

-- What stands under a key that holds JSON: a text that does not parse, a value that is no object,
-- or an object.
pub data Json : Type 0 where
  unreadable no_object : Json
  object : Fields → Json

pub record Storage : Type 0 where
  pub login_user : Option Json
  pub user_id : Option String
  pub remembered_login_id : Option String
  -- of the session, not of the browser
  pub session_user_id : Option String

pub record LoginOptions : Type 0 where
  pub preserve_expires : Bool
  pub expires_in_minutes : Option ℕ

abbrev pub default_login_expire_minutes : ℕ
default_login_expire_minutes = 120

-- `now > n`
unfoldable pub later_than : ℕ → Number → Bool
later_than now nan = false
later_than now (infinity positive) = if positive then false else true
later_than now (ratio (pos n) d) = ltb n (now * suc d)
later_than now (ratio (negsuc n) d) = true

remove_login : Storage → Storage
remove_login s = record s { login_user = none }

-- `a || b` of two entries.
unfoldable pub first_filled : Option String → Option String → Option String
first_filled none other = other
first_filled (some t) other = if t === "" then other else some t

unfoldable pub minutes_or_default : Option ℕ → ℕ
minutes_or_default none = default_login_expire_minutes
minutes_or_default (some m) = if m == 0 then default_login_expire_minutes else m

abbrev pub fields_or_empty : Option Fields → Fields
fields_or_empty none = []
fields_or_empty (some fs) = fs

module _ (js : Engine) where
  unfoldable pub is_over : ℕ → Fields → Bool
  unfolding later_than
  is_over now fs =
      truthy (field "expiresAt" fs) && later_than now (number_of js (field "expiresAt" fs))

  -- `getLoginUser` at the time `now`: what is left in the storage, and the user.
  unfoldable pub get_login_user : ℕ → Storage → Storage × Option Fields
  unfolding remove_login is_over
  get_login_user now s = elim s.login_user [
    | none ↦ (remove_login s, none)
    | some unreadable ↦ (remove_login s, none)
    | some no_object ↦ (remove_login s, none)
    | some (object fs) ↦ if is_over now fs then (remove_login s, none) else (s, some fs)
  ]

  unfoldable pub set_stored_user_id : Value → Storage → Storage
  set_stored_user_id id s = if truthy id then record s { user_id = some (string_of js id) } else s

  unfoldable pub get_stored_user_id : ℕ → Storage → Storage × String
  unfolding first_filled
  get_stored_user_id now s = elim (first_filled s.user_id s.session_user_id) [
    | some direct ↦ if direct === "" then id_of_login now s else (s, direct)
    | none ↦ id_of_login now s
  ]
    where
      id_of_login : ℕ → Storage → Storage × String
      id_of_login now s =
          let (left, user) = get_login_user now s in
          (
            left,
            elim user [
              | none ↦ ""
              | some fs ↦
                  if truthy (field "user_id" fs) then string_of js (field "user_id" fs) else ""
            ],
          )

  unfoldable pub set_login_user : ℕ → Fields → LoginOptions → Storage → Storage × Fields
  unfolding minutes_or_default
  set_login_user now user_data opts s =
      let (left, user) = get_login_user now s in
      let current = fields_or_empty user in
      let expires_at =
        if opts.preserve_expires && truthy (field "expiresAt" current)
        then field "expiresAt" current
        else number (whole (pos (now + minutes_or_default opts.expires_in_minutes * 60 * 1000))) in
      let payload = set_field "expiresAt" expires_at user_data in
      let stored = record left { login_user = some (object payload) } in
      (
        if truthy (field "user_id" payload)
            then set_stored_user_id (field "user_id" payload) stored
            else stored,
        payload,
      )

  unfoldable pub patch_login_user : ℕ → Fields → Option ℕ → Storage → Storage × Fields
  patch_login_user now next_fields expires_in_minutes s =
      let (left, user) = get_login_user now s in
      set_login_user now (spread (fields_or_empty user) next_fields)
        (record { preserve_expires = true; expires_in_minutes = expires_in_minutes }) left

  unfoldable pub clear_login_user : Storage → Storage
  clear_login_user s = record s { login_user = none; user_id = none; session_user_id = none }

  unfoldable pub get_remembered_login_id : Storage → String
  get_remembered_login_id s = elim s.remembered_login_id [ none ↦ "" | some t ↦ t ]

  unfoldable pub save_remembered_login_id : Value → Storage → Storage
  save_remembered_login_id value s = record s {
    remembered_login_id = some (if truthy value then string_of js value else "");
  }

  unfoldable pub clear_remembered_login_id : Storage → Storage
  clear_remembered_login_id s = record s { remembered_login_id = none }
