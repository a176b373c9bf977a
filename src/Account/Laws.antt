-- ===== src/Account/Laws.antt =====
-- Signing in, out, and what the time does to it.
use soldesk.Prelude.{
  ltb, ℕ, ◌+◌, ◌*◌, ◌<◌, ◌≡◌, refl, ap, ◌∙◌, String, [], ◌∷◌, Option, none, some, Bool, true, false,
  ◌===◌, ===_iff, if◌then◌else◌, arith,
}
use soldesk.Prelude.Int.{pos}
use soldesk.Js.Value.{Engine, Value, number, whole, truthy, string_of, number_of}
use soldesk.Account.{
  Fields, field, set_field, spread, object, Storage, LoginOptions, first_filled, minutes_or_default,
  is_over, get_login_user, set_stored_user_id, get_stored_user_id, set_login_user, patch_login_user,
  clear_login_user, get_remembered_login_id,
}

pub field-set_field :
    (key k : String) (value : Value) (fs : Fields)
    → field key (set_field k value fs) ≡ (if k === key then value else field key fs)
unfolding field set_field
field-set_field key k value [] = ground arith
field-set_field key k value ((k', v) ∷ fs) =
    ground (arith, field-set_field key k value fs, ===_iff k' k, ===_iff k' key, ===_iff k key)

abbrev pub has_field : String → Fields → Bool
has_field key [] = false
has_field key ((k, v) ∷ fs) = if k === key then true else has_field key fs

field-spread :
    (key : String) (a b : Fields)
    → field key (spread a b) ≡ (if has_field key b then field key b else field key a)
unfolding field spread
field-spread key a [] = refl
field-spread key a ((k, v) ∷ b) =
    ground (arith, field-set_field key k v (spread a b), field-spread key a b)

-- The end of a login that begins at `now`.
abbrev pub end_of_login : ℕ → Option ℕ → ℕ
end_of_login now minutes = now + minutes_or_default minutes * 60 * 1000

-- The options without `preserveExpires`.
abbrev pub fresh : Option ℕ → LoginOptions
fresh minutes = record { preserve_expires = false; expires_in_minutes = minutes }

module _ (js : Engine) where
  -- Asking for the user leaves the other keys alone.
  get_login_user-rest :
      (now : ℕ) (s : Storage)
      → ((get_login_user js now s).0.user_id ≡ s.user_id)
        × ((get_login_user js now s).0.remembered_login_id ≡ s.remembered_login_id)
        × ((get_login_user js now s).0.session_user_id ≡ s.session_user_id)
  unfolding get_login_user
  get_login_user-rest now s = ground arith

  -- What a fresh login leaves in the storage.
  set_login_user-fresh :
      (now : ℕ) (user_data : Fields) (minutes : Option ℕ) (s : Storage)
      → truthy (field "user_id" user_data) ≡ true
      → let payload =
          set_field "expiresAt" (number (whole (pos (end_of_login now minutes)))) user_data in
        let left = (set_login_user js now user_data (fresh minutes) s).0 in
        (left.login_user ≡ some (object payload))
        × (left.user_id ≡ some (string_of js (field "user_id" user_data)))
        × (left.remembered_login_id ≡ s.remembered_login_id)
  unfolding set_login_user set_stored_user_id
  set_login_user-fresh now user_data minutes s known =
      let e = number (whole (pos (end_of_login now minutes))) in
      let same : field "user_id" (set_field "expiresAt" e user_data) ≡ field "user_id" user_data =
        field-set_field "user_id" "expiresAt" e user_data in
      rw (same, known) (refl, refl, (get_login_user-rest now s).1)

  -- A login record with an end, at a time.
  is_over-set_field :
      (later e : ℕ) (fs : Fields)
      → 0 < e
      → is_over js later (set_field "expiresAt" (number (whole (pos e))) fs) ≡ ltb e later
  unfolding is_over truthy number_of
  is_over-set_field later e fs some_time =
      let same : field "expiresAt" (set_field "expiresAt" (number (whole (pos e))) fs)
          ≡ number (whole (pos e)) =
        field-set_field "expiresAt" "expiresAt" _ fs in
      rw same (ground arith)

  stored_id :
      (later : ℕ) (s : Storage) (id : String)
      → s.user_id ≡ some id
      → (id === "") ≡ false
      → (get_stored_user_id js later s).1 ≡ id
  unfolding get_stored_user_id first_filled
  stored_id later s id e filled = ground arith

  user_of_object :
      (later : ℕ) (s : Storage) (fs : Fields)
      → s.login_user ≡ some (object fs)
      → (get_login_user js later s).1 ≡ (if is_over js later fs then none else some fs)
  unfolding get_login_user
  user_of_object later s fs e = ground arith

  pub get_login_user_twice :
      (now : ℕ) (s : Storage)
      → (get_login_user js now (get_login_user js now s).0).1 ≡ (get_login_user js now s).1
  unfolding get_login_user
  get_login_user_twice now s = ground arith

  -- A login lasts until its end: until then the stored user is the one signed in, with the end
  -- beside the fields, and afterwards there is none, but the user id is still handed out.
  pub login_lasts :
      (now later : ℕ) (user_data : Fields) (minutes : Option ℕ) (s : Storage)
      → truthy (field "user_id" user_data) ≡ true
      → (string_of js (field "user_id" user_data) === "") ≡ false
      → let left = (set_login_user js now user_data (fresh minutes) s).0 in
        let end = number (whole (pos (end_of_login now minutes))) in
        ((get_login_user js later left).1 ≡ (
          if ltb (end_of_login now minutes) later
          then none
          else some (set_field "expiresAt" end user_data)))
        × ((get_stored_user_id js later left).1 ≡ string_of js (field "user_id" user_data))
        × (left.remembered_login_id ≡ s.remembered_login_id)
  unfolding minutes_or_default
  login_lasts now later user_data minutes s known filled =
      let left = (set_login_user js now user_data (fresh minutes) s).0 in
      let e = end_of_login now minutes in
      let some_time : 0 < e = ground arith in
      let (login, id, remembered) = set_login_user-fresh now user_data minutes s known in
      (
        user_of_object later left (set_field "expiresAt" (number (whole (pos e))) user_data) login
            ∙ ap
                (λ b.
                  if b
                  then none
                  else some (set_field "expiresAt" (number (whole (pos e))) user_data))
                (is_over-set_field later e user_data some_time),
        stored_id later left _ id filled,
        remembered,
      )

  -- Signing out leaves neither a user nor a user id, at any time, and the remembered login id.
  pub clear_login_user_lem :
      (later : ℕ) (s : Storage)
      → let left = clear_login_user js s in
        ((get_login_user js later left).1 ≡ none)
        × ((get_stored_user_id js later left).1 ≡ "")
        × (get_remembered_login_id js left ≡ get_remembered_login_id js s)
  unfolding clear_login_user get_login_user get_stored_user_id get_remembered_login_id
  clear_login_user_lem later s = (refl, refl, refl)

  -- A change of some fields of a user who is signed in replaces these fields, keeps the others, and
  -- keeps the end of the login, where there is one.
  pub patch_login_user_lem :
      (now : ℕ) (user next_fields : Fields) (minutes : Option ℕ) (s : Storage) (key : String)
      → (get_login_user js now s).1 ≡ some user
      → truthy (field "expiresAt" user) ≡ true
      → field key (patch_login_user js now next_fields minutes s).1 ≡ (
          if "expiresAt" === key
          then field "expiresAt" user
          else if has_field key next_fields
          then field key next_fields
          else field key user)
  unfolding patch_login_user set_login_user
  patch_login_user_lem now user next_fields minutes s key signed ends =
      rw (get_login_user_twice now s, signed, ends)
        (ground (
          arith,
          field-set_field key "expiresAt" (field "expiresAt" user) (spread user next_fields),
          field-spread key user next_fields,
        ))
