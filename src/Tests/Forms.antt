-- ===== src/Tests/Forms.antt =====
-- Examples of the laws of the account forms.
use soldesk.Prelude.{
  ◌++◌, ◌⊎◌, ◌≡◌, ◌≤◌, ◌+◌, refl, ltb, if◌then◌else◌, List, [], ◌∷◌, none, some, true, false,
}
use soldesk.Prelude.Int.{pos}
use soldesk.Js.Value.{Value, text, undefined, number, whole, string_of, truthy}
use soldesk.Account.{
  Fields, Storage, field, set_field, spread, get_login_user, get_stored_user_id,
  get_remembered_login_id,
}
use soldesk.Account.Laws.{end_of_login}
use soldesk.Forms.Fields.{size}
use soldesk.Forms.Signup as Signup
use soldesk.Forms.Signup.Laws as SignupLaws
use soldesk.Forms.Signup.Twice as SignupTwice
use soldesk.Forms.Login as Login
use soldesk.Forms.Login.Laws as LoginLaws
use soldesk.Forms.PwFind as PwFind
use soldesk.Forms.PwFind.Laws as PwFindLaws
use soldesk.Forms.ChangePw as ChangePw
use soldesk.Forms.ChangePw.Laws as ChangePwLaws
use soldesk.Forms.Edit as Edit
use soldesk.Forms.Edit.Phone.{normalize_phone-format_phone}
use soldesk.Forms.Edit.Laws as EditLaws
use soldesk.Tests.{plain, whole_value}

abbrev storage : Storage
storage = record {
  login_user = none;
  user_id = some "42";
  remembered_login_id = none;
  session_user_id = none;
}

abbrev joining_twice : List Signup.Event
joining_twice =
    Signup.phone_input "01012345678"
    ∷ Signup.password_input "secret"
    ∷ Signup.name_input "Kim"
    ∷ Signup.submit
    ∷ Signup.submit
    ∷ []

run-opened-IsSound_example :
    SignupLaws.IsSound plain (Signup.run plain joining_twice (SignupLaws.opened true))
run-opened-IsSound_example = SignupLaws.run-opened-IsSound plain joining_twice true

abbrev filled_form : Signup.Signup
filled_form = record (SignupLaws.opened true) {
  phone = "01012345678";
  password = "secret";
  name = "Kim";
}

abbrev number_free : Signup.CheckReply
number_free = Signup.checked (record {
  duplicated = undefined;
  duplicate = undefined;
  exists = undefined;
  found = undefined;
  count = undefined;
  success = undefined;
  message = undefined;
})

joins_twice_example :
    let after =
      Signup.run plain
        (Signup.submit
          ∷ Signup.submit
          ∷ Signup.check_answer 0 number_free
          ∷ Signup.check_answer 0 number_free
          ∷ [])
        filled_form in
    (after.joining ≡ filled_form.joining + 2)
    × (after.log
        ≡ Signup.post_signup (Signup.candidate_of plain filled_form)
          ∷ Signup.post_signup (Signup.candidate_of plain filled_form)
          ∷ Signup.post_check (plain.trim filled_form.phone)
          ∷ Signup.post_check (plain.trim filled_form.phone)
          ∷ filled_form.log)
unfolding Signup.is_valid soldesk.Forms.Fields.is_valid_phone plain Signup.candidate_of
    soldesk.Forms.Fields.is_valid_password soldesk.Forms.Fields.is_valid_name Signup.duplicate_error
    soldesk.Js.Value.is_boolean soldesk.Js.Value.is_positive soldesk.Js.Value.number_of
    soldesk.Js.Value.or_else
joins_twice_example =
    SignupTwice.joins_twice plain filled_form number_free refl refl refl refl refl refl refl

abbrev login_form : Login.Login
login_form = record {
  overlay = 0;
  overlay_shown = false;
  phone = "";
  password = "";
  remember_id = false;
  phone_error = "";
  password_error = "";
  common_error = "";
  submit_disabled = false;
  submit_text = "로그인";
  is_login_submitting = false;
  attempts = [];
  storage = record storage { user_id = none };
  log = [];
}

abbrev logging_in : List Login.Event
logging_in =
    Login.open_login 1000
    ∷ Login.phone_input "010-1234-5678"
    ∷ Login.password_input "secret"
    ∷ Login.submit
    ∷ Login.close_click
    ∷ Login.open_login 2000
    ∷ Login.submit
    ∷ []

run-IsGuarded_example : LoginLaws.IsGuarded (Login.run plain logging_in login_form)
run-IsGuarded_example =
    LoginLaws.run-IsGuarded plain logging_in (record { counted = refl; old = tt })

abbrev attempt : Login.Attempt
attempt = record { overlay = 1; phone = "01012345678"; remember_id = true }

abbrev user : Fields
user = ("user_id", whole_value 42) ∷ ("name", text "Kim") ∷ []

abbrev accepted_reply : Login.LoginReply
accepted_reply = Login.answered (Login.login_data (text "login success") (some user))

accepted_lem_example :
    let after = Login.take_answer plain (some (attempt, [])) accepted_reply 1000 login_form in
    ((get_login_user plain 2000 after.storage).1
      ≡ (if ltb (end_of_login 1000 none) 2000 then none else some (LoginLaws.with_end 1000 user)))
    × ((get_stored_user_id plain 2000 after.storage).1 ≡ string_of plain (field "user_id" user))
    × (get_remembered_login_id plain after.storage ≡ (if true then "01012345678" else ""))
    × (after.overlay_shown ≡ false)
unfolding Login.verdict_of soldesk.Js.Value.is_text truthy field string_of plain
accepted_lem_example =
    LoginLaws.accepted_lem plain 1000 2000 attempt [] accepted_reply user login_form refl refl refl

abbrev lookup : PwFind.PwFind
lookup = record {
  overlay = 1;
  stage = PwFind.verify_form;
  phone = "01012345678";
  name = "Kim";
  is_composing_name = false;
  password = "";
  password_confirm = "";
  phone_error = "";
  name_error = "";
  password_error = "";
  password_confirm_error = "";
  common_error = "";
  is_submitting = true;
  requests = PwFind.find_user 1 "01012345678" "Kim" ∷ [];
  log = [];
}

failed_find_misleads_example :
    let after = PwFind.handle plain (PwFind.find_answer 0 (PwFind.failed_reply "timeout")) lookup in
    (after.stage ≡ PwFind.verify_form)
    × (after.phone_error ≡ "가입된 핸드폰번호가 없습니다.")
    × (after.name_error ≡ "가입된 이름이 없습니다.")
    × (after.common_error ≡ "")
    × (after.is_submitting ≡ false)
failed_find_misleads_example =
    PwFindLaws.failed_find_misleads plain "timeout" lookup "01012345678" "Kim" [] refl

abbrev change_form : ChangePw.ChangePw
change_form = record {
  page = 1;
  current_password = "secret";
  new_password = "longer";
  new_password_check = "longer";
  current_error = "";
  new_error = "";
  check_error = "";
  common_error = "";
  submit_disabled = false;
  is_change_pw_submitting = false;
  requests = [];
  storage = storage;
  log = [];
}

submit_iff_example :
    let user_id = (get_stored_user_id plain 1000 storage).1 in
    let after = ChangePw.handle plain (ChangePw.submit 1000) change_form in
    let complete =
      ¬ (user_id ≡ "")
      × ¬ (change_form.current_password ≡ "")
      × (4 ≤ size change_form.new_password)
      × (change_form.new_password ≡ change_form.new_password_check)
      × ¬ (change_form.current_password ≡ change_form.new_password) in
    (complete
      × (after.log
          ≡ ChangePw.post_change user_id change_form.current_password change_form.new_password
            ∷ change_form.log)
      × (after.requests ≡ change_form.requests ++ change_form.page ∷ [])
      × (after.is_change_pw_submitting ≡ true)
      × (after.submit_disabled ≡ true))
    ⊎ (¬ complete
        × (after.log ≡ change_form.log)
        × (after.requests ≡ change_form.requests)
        × (after.is_change_pw_submitting ≡ false)
        × (after.submit_disabled ≡ false))
submit_iff_example = ChangePwLaws.submit_iff plain 1000 change_form refl refl

normalize_phone-format_phone_example :
    Edit.normalize_phone (Edit.format_phone (Edit.normalize_phone "010 1234-5678"))
    ≡ Edit.normalize_phone "010 1234-5678"
normalize_phone-format_phone_example = normalize_phone-format_phone "010 1234-5678"

abbrev edit_attempt : Edit.Attempt
edit_attempt = record {
  page = 1;
  user_id = "42";
  name = "Lee";
  phone = "01087654321";
  created_at = undefined;
}

abbrev edit_form : Edit.Edit
edit_form = record {
  page = 1;
  created_at = undefined;
  name = "Lee";
  phone = "010-8765-4321";
  name_error = "";
  phone_error = "";
  common_error = "";
  submit_disabled = true;
  is_edit_submitting = true;
  attempts = edit_attempt ∷ [];
  storage = storage;
  log = [];
}

edit_revives_login_example :
    let after = Edit.handle plain (Edit.answer 0 none 1000) edit_form in
    let end = number (whole (pos (end_of_login 1000 none))) in
    (get_login_user plain 2000 after.storage).1 ≡ (
      if ltb (end_of_login 1000 none) 2000
      then none
      else some (set_field "expiresAt" end (spread [] (Edit.edited_fields plain edit_attempt))))
unfolding get_login_user
edit_revives_login_example =
    EditLaws.edit_revives_login plain 1000 2000 edit_attempt edit_form [] refl refl refl
