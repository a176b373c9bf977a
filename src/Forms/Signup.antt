-- ===== src/Forms/Signup.antt =====
-- The form for joining (frontend/src/js/user/signup.js): its fields and errors, and its handlers.
pub mod Laws
pub mod Twice
use soldesk.Prelude.{
  ℕ, zero, suc, ◌+◌, ◌-◌, String, List, [], ◌∷◌, ◌++◌, Option, none, some, Bool, true, false, not,
  ◌||◌, ◌&&◌, ◌===◌, ◌==◌, if◌then◌else◌, pick,
}
use soldesk.Js.Value.{
  Engine, Value, truthy, text, number, whole, or_else, string_of, number_of, is_boolean,
  is_positive,
}
use soldesk.Prelude.Int.{pos}
use soldesk.Forms.Fields.{
  only_digits, first_of, sanitize_name, is_valid_phone, is_valid_name, is_valid_password,
}

-- What a submission keeps across its waits.
pub record Candidate : Type 0 where
  pub phone : String
  pub password : String
  pub name : String

pub data Effect : Type 0 where
  alert : String → Effect
  post_check : String → Effect
  post_signup : Candidate → Effect
  unlock_scroll open_login_page : Effect

pub record Signup : Type 0 where
  -- the values of the inputs
  pub phone : String
  pub password : String
  pub name : String
  pub is_composing_name : Bool
  pub is_submitting : Bool
  pub phone_error : String
  pub password_error : String
  pub name_error : String
  pub common_error : String
  pub submit_disabled : Bool
  pub submit_text : String
  pub overlay_shown : Bool
  -- submissions that wait: for the check of their number, and for the answer to their request
  pub checking : List Candidate
  pub joining : ℕ
  -- is there a function `window.openLoginPage`?
  pub has_login_page : Bool
  pub log : List Effect

-- The answer to a check of a number: its fields, or the message of an error, that of reading a field
-- of null included.
pub record CheckFields : Type 0 where
  pub duplicated : Value
  pub duplicate : Value
  pub exists : Value
  pub found : Value
  pub count : Value
  pub success : Value
  pub message : Value

pub data CheckReply : Type 0 where
  check_failed : String → CheckReply
  checked : CheckFields → CheckReply

pub data SignupReply : Type 0 where
  signup_failed : String → SignupReply
  -- null, of which reading a field fails
  null_reply : SignupReply
  signed_up : Value → Value → SignupReply

pub data Event : Type 0 where
  phone_input password_input name_input : String → Event
  composition_start : Event
  composition_end : String → Event
  submit close_click backdrop_click cancel_click : Event
  -- the answer to the check that waits at this place
  check_answer : ℕ → CheckReply → Event
  signup_answer : SignupReply → Event

abbrev pub emit : Effect → Signup → Signup
emit e s = record s { log = e ∷ s.log }

unfoldable pub clear_errors : Signup → Signup
clear_errors s = record s {
  phone_error = "";
  password_error = "";
  name_error = "";
  common_error = "";
}

unfoldable pub close_signup_page : Signup → Signup
close_signup_page s = emit unlock_scroll (record s { overlay_shown = false })

unfoldable pub go_to_login_page : Signup → Signup
unfolding close_signup_page
go_to_login_page s =
    emit (if s.has_login_page then open_login_page else alert "로그인 화면을 불러오지 못했습니다.")
      (close_signup_page s)

-- `finally`
unfoldable pub at_last : Signup → Signup
at_last s = record s { is_submitting = false; submit_disabled = false; submit_text = "가입" }

module _ (js : Engine) where
  -- `requestPhoneDuplicate`, and what `validatePhoneDuplicate` makes of it: a message, or none where
  -- the number may be used.
  unfoldable pub is_duplicated : CheckFields → Bool
  is_duplicated f =
      is_boolean true f.duplicated
      || is_boolean true f.duplicate
      || is_boolean true f.exists
      || is_boolean true f.found
      || is_positive (number_of js (or_else f.count (number (whole (pos 0)))))

  unfoldable pub duplicate_error : CheckReply → Option String
  unfolding is_duplicated
  duplicate_error (check_failed message) =
      some (if message === "" then "서버에 연결할 수 없습니다." else message)
  duplicate_error (checked f) =
      if is_boolean false f.success
      then some (string_of js (or_else f.message (text "서버와 통신할 수 없습니다.")))
      else if is_duplicated f
      then some "이미 사용 중인 핸드폰번호입니다."
      else none

  -- The tests of `validatePhoneDuplicate` before its request.
  unfoldable pub phone_error_of : String → String
  phone_error_of phone =
      if phone === ""
      then "핸드폰번호를 입력하세요."
      else if not (is_valid_phone js phone)
      then "핸드폰번호를 확인하세요."
      else ""

  -- The tests of a submission.
  unfoldable pub with_errors : Candidate → Signup → Signup
  with_errors c s = record s {
    phone_error = if is_valid_phone js c.phone then s.phone_error else "핸드폰번호를 확인하세요.";
    password_error =
        if is_valid_password js c.password then s.password_error else "비밀번호는 4자 이상 입력하세요.";
    name_error = if is_valid_name js c.name then s.name_error else "이름을 확인하세요.";
  }

  unfoldable pub is_valid : Candidate → Bool
  is_valid c =
      is_valid_phone js c.phone && is_valid_password js c.password && is_valid_name js c.name

  unfoldable pub candidate_of : Signup → Candidate
  candidate_of s = record { phone = js.trim s.phone; password = s.password; name = js.trim s.name }

  -- The submission up to its first wait.
  unfoldable pub begin_submit : Signup → Signup
  unfolding clear_errors with_errors is_valid candidate_of phone_error_of
  begin_submit s =
      let c = candidate_of s in
      let tested = with_errors c (clear_errors s) in
      let refused = phone_error_of c.phone in
      if s.is_submitting
      then s
      else if not (is_valid c)
      then tested
      else if not (refused === "")
      then record tested { phone_error = refused }
      else emit (post_check c.phone) (record tested { checking = s.checking ++ c ∷ [] })

  -- What follows the check of a number.
  unfoldable pub after_check : Candidate → Option String → Signup → Signup
  after_check c (some error) s = record s { phone_error = error }
  after_check c none s = emit (post_signup c) (record s {
    is_submitting = true;
    submit_disabled = true;
    submit_text = "가입 중...";
    joining = s.joining + 1;
  })

  unfoldable pub take_check : Option (Candidate × List Candidate) → CheckReply → Signup → Signup
  unfolding duplicate_error after_check
  take_check none answer s = s
  take_check (some (c, others)) answer s =
      after_check c (duplicate_error answer) (record s { checking = others })

  -- What follows the request.
  unfoldable pub take_signup : SignupReply → Signup → Signup
  unfolding go_to_login_page
  take_signup (signup_failed message) s = record s {
    common_error = if message === "" then "서버 오류가 발생했습니다." else message;
  }
  take_signup null_reply s = s
  take_signup (signed_up success message) s =
      if is_boolean false success
      then record s { common_error = string_of js (or_else message (text "회원가입에 실패했습니다.")) }
      else go_to_login_page (emit (alert "회원가입이 완료되었습니다.") s)

  when_shown : Signup → Signup → Signup
  when_shown s after = if s.overlay_shown then after else s

  unfoldable pub handle : Event → Signup → Signup
  unfolding clear_errors close_signup_page go_to_login_page begin_submit take_check take_signup
      at_last when_shown
  handle (phone_input value) s =
      when_shown s (clear_errors (record s { phone = first_of 11 (only_digits value) }))
  handle (password_input value) s = when_shown s (clear_errors (record s { password = value }))
  handle (name_input value) s = when_shown s (
      clear_errors (record s { name = if s.is_composing_name then value else sanitize_name value }))
  handle composition_start s = when_shown s (record s { is_composing_name = true })
  handle (composition_end value) s =
      when_shown s (record s { is_composing_name = false; name = sanitize_name value })
  handle submit s = when_shown s (if s.submit_disabled then s else begin_submit s)
  handle close_click s = when_shown s (close_signup_page s)
  handle backdrop_click s = when_shown s (close_signup_page s)
  handle cancel_click s = when_shown s (go_to_login_page s)
  handle (check_answer place answer) s = take_check (pick place s.checking) answer s
  handle (signup_answer answer) s =
      if s.joining == 0
      then s
      else at_last (take_signup answer (record s { joining = s.joining - 1 }))

  unfoldable pub run : List Event → Signup → Signup
  unfolding handle
  run [] s = s
  run (e ∷ es) s = run es (handle e s)
