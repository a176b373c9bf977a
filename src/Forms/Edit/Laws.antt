-- ===== src/Forms/Edit/Laws.antt =====
-- What the page that changes an account sends, and what it does to the login.
use soldesk.Prelude.{
  ℕ, ◌≤◌, ◌≡◌, refl, ap, ◌∙◌, String, List, [], ◌∷◌, Option, none, some, true, false, not, ◌===◌,
  ltb, if◌then◌else◌, if_holds, All, pick, arith,
}
use soldesk.Prelude.Int.{pos}
use soldesk.Js.Value.{Engine, Value, text, number, whole, truthy, string_of}
use soldesk.Account.{
  Fields, field, set_field, spread, Storage, get_login_user, get_stored_user_id, set_stored_user_id,
  set_login_user, patch_login_user,
}
use soldesk.Account.Laws.{end_of_login, fresh, login_lasts, get_login_user_twice}
use soldesk.Forms.Fields.{size, every, is_digit, only_digits}
use soldesk.Forms.Edit.Phone.{every-first_of, every-only}
use soldesk.Forms.Edit.{
  Effect, post_edit, Attempt, Edit, Event, filled_in, name_input, phone_input, submit, cancel_click,
  answer, normalize_phone, passes, submit_as, submit_edit, edited_fields, store_edit, take_result,
  at_last, take_answer, handle, run,
}

normalize_phone-every : (value : String) → every is_digit (normalize_phone value) ≡ true
unfolding normalize_phone only_digits
normalize_phone-every value = every-first_of is_digit 11 _ (every-only is_digit value)

-- A change that is sent is for a user id, with a name and a number of ten or eleven digits.
abbrev pub IsFit : Effect → Type 0
IsFit (post_edit user_id name phone) =
    ((user_id === "") ≡ false)
    × ((name === "") ≡ false)
    × (every is_digit phone ≡ true)
    × (10 ≤ size phone)
    × (size phone ≤ 11)
IsFit _ = Unit

module _ (js : Engine) where
  abbrev Sound : Edit → Type 0
  Sound s = All IsFit s.log

  passes-IsFit :
      (user_id name value : String)
      → (user_id === "") ≡ false
      → passes name (normalize_phone value) ≡ true
      → IsFit (post_edit user_id name (normalize_phone value))
  unfolding passes
  passes-IsFit user_id name value known ok = (
    known,
    ground (arith, ok),
    normalize_phone-every value,
    ground (arith, ok),
    ground (arith, ok),
  )

  submit_as-Sound : (user_id : String) (s : Edit) → Sound s → Sound (submit_as js user_id s)
  unfolding submit_as
  submit_as-Sound user_id s v =
      if_holds Sound (user_id === "") (λ _. v)
        (λ known.
          if_holds Sound (passes (js.trim s.name) (normalize_phone s.phone))
            (λ ok. (passes-IsFit user_id (js.trim s.name) s.phone known ok, v)) (λ _. v))

  answer-Sound :
      (p : Option (Attempt × List Attempt)) (result : Option String) (now : ℕ) (s : Edit)
      → Sound s
      → Sound (take_answer js p result now s)
  unfolding take_answer take_result at_last
  answer-Sound none result now s v = v
  answer-Sound (some (a, others)) none now s v = (tt, (tt, v))
  answer-Sound (some (a, others)) (some message) now s v = v

  handle-Sound : (e : Event) (s : Edit) → Sound s → Sound (handle js e s)
  unfolding handle submit_edit
  handle-Sound (filled_in name phone created_at) s v = v
  handle-Sound (name_input value) s v = v
  handle-Sound (phone_input value) s v = v
  handle-Sound (submit now) s v =
      if_holds Sound s.submit_disabled (λ _. v)
        (λ _.
          if_holds Sound s.is_edit_submitting (λ _. v)
            (λ _.
              submit_as-Sound (get_stored_user_id js now s.storage).1
                (record s { storage = (get_stored_user_id js now s.storage).0 }) v))
  handle-Sound cancel_click s v = (tt, v)
  handle-Sound (answer place result now) s v = answer-Sound (pick place s.attempts) result now s v

  -- Whatever happens on the page: each change that it sends is for a user id, with a name and a number
  -- of ten or eleven digits, if those sent before are.
  run-IsFit : (es : List Event) (s : Edit) → All IsFit s.log → All IsFit (run js es s).log
  unfolding run
  run-IsFit [] s v = v
  run-IsFit (e ∷ es) s v = run-IsFit es (handle js e s) (handle-Sound e s v)

  user_of_stored :
      (now : ℕ) (id : Value) (s : Storage)
      → (get_login_user js now (set_stored_user_id js id s)).1 ≡ (get_login_user js now s).1
  unfolding set_stored_user_id get_login_user
  user_of_stored now id s =
      if_holds (λ (t : Storage). (get_login_user js now t).1 ≡ (get_login_user js now s).1)
        (truthy id) (λ _. ground arith) (λ _. refl)

  -- Without a user there is no end to keep.
  nothing_kept :
      (now : ℕ) (fs : Fields) (s : Storage)
      → (get_login_user js now s).1 ≡ none
      → set_login_user js now fs (record { preserve_expires = true; expires_in_minutes = none }) s
        ≡ set_login_user js now fs (fresh none) s
  unfolding set_login_user field truthy
  nothing_kept now fs s e = rw e refl

  patched :
      (now : ℕ) (fs : Fields) (s : Storage)
      → (get_login_user js now s).1 ≡ none
      → (patch_login_user js now fs none s).0
        ≡ (set_login_user js now (spread [] fs) (fresh none) (get_login_user js now s).0).0
  unfolding patch_login_user
  patched now fs s e = rw e (
      ap (λ p. p.0)
        (nothing_kept now (spread [] fs) (get_login_user js now s).0
          (get_login_user_twice js now s ∙ e)))

  -- What such a change leaves.
  revived :
      (now later : ℕ) (a : Attempt) (s : Storage)
      → (get_login_user js now s).1 ≡ none
      → (a.user_id === "") ≡ false
      → (get_login_user js later (store_edit js now a s)).1 ≡ (
          if ltb (end_of_login now none) later
          then none
          else some (
              set_field "expiresAt"
                (number (whole (pos (end_of_login now none))))
                (spread [] (edited_fields js a))))
  unfolding store_edit spread set_field field truthy string_of
  revived now later a s ended known =
      let stored = set_stored_user_id js (text a.user_id) s in
      rw (patched now (edited_fields js a) stored (user_of_stored now (text a.user_id) s ∙ ended))
        (login_lasts js now later (spread [] (edited_fields js a)) none
          (get_login_user js now stored).0 (ap not known) known).0

  -- An accepted change, made by a visitor whose login has ended or who has none, for whom a user id is
  -- stored: it signs the visitor in again, until the end of a login that begins with the change.
  pub edit_revives_login :
      (now later : ℕ) (a : Attempt) (s : Edit) (others : List Attempt)
      → (get_login_user js now s.storage).1 ≡ none
      → (a.user_id === "") ≡ false
      → s.attempts ≡ a ∷ others
      → let after = handle js (answer 0 none now) s in
        let end = number (whole (pos (end_of_login now none))) in
        (get_login_user js later after.storage).1 ≡ (
          if ltb (end_of_login now none) later
          then none
          else some (set_field "expiresAt" end (spread [] (edited_fields js a))))
  unfolding handle take_answer take_result at_last store_edit pick
  edit_revives_login now later a s others ended known waiting =
      rw waiting (revived now later a s.storage ended known)
