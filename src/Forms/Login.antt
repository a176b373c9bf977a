-- ===== src/Forms/Login.antt =====
-- The form for signing in (frontend/src/js/user/login.js): its fields and errors, its handlers, and
-- the stored account that it writes.
pub mod Laws
use soldesk.Prelude.{
  ℕ, ◌+◌, String, List, [], ◌∷◌, ◌++◌, Option, none, some, Bool, true, false, not, ◌||◌, ◌&&◌,
  ◌===◌, ◌==◌, if◌then◌else◌, pick,
}
use soldesk.Js.Value.{Engine, Value, truthy, text, string_of, or_else, is_text}
use soldesk.Account.{
  Fields, Storage, LoginOptions, get_login_user, set_login_user, clear_login_user,
  save_remembered_login_id, clear_remembered_login_id, get_remembered_login_id,
}
use soldesk.Forms.Fields.{only_digits, first_of}

pub data Effect : Type 0 where
  alert : String → Effect
  post_login : String → String → Effect
  unlock_scroll refresh_site_header prefetch_account_scripts : Effect
  open_page : String → Effect

-- What a submission keeps across its wait: the overlay that it came from, and two fields.
pub record Attempt : Type 0 where
  pub overlay : ℕ
  pub phone : String
  pub remember_id : Bool

-- The overlays are numbered as they are opened; the fields are those of the last one.
pub record Login : Type 0 where
  pub overlay : ℕ
  pub overlay_shown : Bool
  pub phone : String
  pub password : String
  pub remember_id : Bool
  pub phone_error : String
  pub password_error : String
  pub common_error : String
  pub submit_disabled : Bool
  pub submit_text : String
  pub is_login_submitting : Bool
  pub attempts : List Attempt
  pub storage : Storage
  pub log : List Effect

-- A parsed answer: null, a value that is no object (is it truthy?), or an object with a message and a
-- user, none where it is falsy.
pub data LoginData : Type 0 where
  null_data : LoginData
  plain_data : Bool → LoginData
  login_data : Value → Option Fields → LoginData

pub data LoginReply : Type 0 where
  answered : LoginData → LoginReply
  -- an error with its message, and its data where the network gave an answer
  failed : String → Option LoginData → LoginReply

-- What `normalizeResponse` gives; a message that it does not give is empty.
pub data Verdict : Type 0 where
  accepted : Fields → Verdict
  refused : String → String → String → Verdict

pub data Event : Type 0 where
  -- `openLoginPage`, with the time
  open_login : ℕ → Event
  phone_input password_input : String → Event
  remember_click : Bool → Event
  submit close_click backdrop_click pwfind_click signup_click : Event
  -- the answer to the attempt at this place, and the time
  login_answer : ℕ → LoginReply → ℕ → Event
  logout : Event

abbrev pub emit : Effect → Login → Login
emit e s = record s { log = e ∷ s.log }

unfoldable pub close_login_page : Login → Login
close_login_page s =
    emit unlock_scroll (record s { overlay_shown = false; is_login_submitting = false })

unfoldable pub is_truthy : LoginData → Bool
is_truthy null_data = false
is_truthy (plain_data b) = b
is_truthy (login_data _ _) = true

-- `finally`
unfoldable pub at_last : Attempt → Login → Login
at_last a s =
    let freed = record s { is_login_submitting = false } in
    if a.overlay == s.overlay
    then record freed { submit_disabled = false; submit_text = "로그인" }
    else freed

module _ (js : Engine) where
  refusal : Value → Verdict
  refusal message =
      if is_text "invalid input" message
      then refused "전화번호를 입력해 주세요." "비밀번호를 입력해 주세요." ""
      else if is_text "전화번호가 틀립니다." message
      then refused "전화번호가 틀립니다." "" ""
      else if is_text "비밀번호가 틀립니다." message
      then refused "" "비밀번호가 틀립니다." ""
      else refused "" "" (string_of js (or_else message (text "서버와 통신 중 문제가 발생했습니다.")))

  unfoldable pub normalize_response : LoginData → Verdict
  unfolding refusal
  normalize_response (login_data message (some user)) =
      if is_text "login success" message then accepted user else refusal message
  normalize_response (login_data message none) = refusal message
  normalize_response _ = refused "" "" "로그인 처리 중 오류가 발생했습니다."

  -- `requestLogin`, from the reply on.
  unfoldable pub verdict_of : LoginReply → Verdict
  unfolding normalize_response is_truthy
  verdict_of (answered answer) = normalize_response answer
  verdict_of (failed message none) =
      refused "" "" (if message === "" then "서버와 통신 중 문제가 발생했습니다." else message)
  verdict_of (failed message (some answer)) =
      if is_truthy answer
      then normalize_response answer
      else refused "" "" (if message === "" then "서버와 통신 중 문제가 발생했습니다." else message)

  clear_errors : Login → Login
  clear_errors s = record s { phone_error = ""; password_error = ""; common_error = "" }

  -- The submission up to its wait.
  unfoldable pub begin_submit : Login → Login
  unfolding clear_errors
  begin_submit s =
      let phone = js.trim s.phone in
      let cleared = clear_errors s in
      if s.is_login_submitting
      then s
      else if phone === "" || s.password === ""
      then record cleared {
        phone_error = if phone === "" then "전화번호를 입력해 주세요." else "";
        password_error = if s.password === "" then "비밀번호를 입력해 주세요." else "";
      }
      else emit (post_login phone s.password) (record cleared {
        is_login_submitting = true;
        submit_disabled = true;
        submit_text = "로그인 중...";
        attempts =
            s.attempts
            ++ record { overlay = s.overlay; phone = phone; remember_id = s.remember_id } ∷ [];
      })

  -- A message is shown where there is one, in the overlay that the attempt came from.
  unfoldable pub show_refusal : String → String → String → Login → Login
  show_refusal phone password common s = record s {
    phone_error = if phone === "" then s.phone_error else phone;
    password_error = if password === "" then s.password_error else password;
    common_error = if common === "" then s.common_error else common;
  }

  -- The account after an attempt that was accepted.
  unfoldable pub sign_in : ℕ → Attempt → Fields → Storage → Storage
  sign_in now a user storage =
      let remembered =
        if a.remember_id
        then save_remembered_login_id js (text a.phone) storage
        else clear_remembered_login_id js storage in
      (set_login_user js now user (record { preserve_expires = false; expires_in_minutes = none })
        remembered).0

  unfoldable pub take_verdict : ℕ → Attempt → Verdict → Login → Login
  unfolding show_refusal sign_in close_login_page
  take_verdict now a (accepted user) s = emit prefetch_account_scripts (
      emit refresh_site_header
        (close_login_page (record s { storage = sign_in now a user s.storage })))
  take_verdict now a (refused phone password common) s =
      if a.overlay == s.overlay then show_refusal phone password common s else s

  unfoldable pub take_answer : Option (Attempt × List Attempt) → LoginReply → ℕ → Login → Login
  unfolding verdict_of take_verdict at_last
  take_answer none answer now s = s
  take_answer (some (a, others)) answer now s =
      at_last a (take_verdict now a (verdict_of answer) (record s { attempts = others }))

  -- `openLoginPage`, its wait for the style left out: who is signed in is sent to the account page;
  -- otherwise `clearTransientUi` removes the overlay there was, and a new one is filled in.
  unfoldable pub open_for : Storage → Option Fields → Login → Login
  open_for storage (some user) s = emit (open_page "mypage") (record s { storage = storage })
  open_for storage none s =
      let remembered = get_remembered_login_id js storage in
      record s {
        overlay = s.overlay + 1;
        overlay_shown = true;
        phone = remembered;
        password = "";
        remember_id = not (remembered === "");
        phone_error = "";
        password_error = "";
        common_error = "";
        submit_disabled = false;
        submit_text = "로그인";
        storage = storage;
      }

  unfoldable pub open_login_page : ℕ → Login → Login
  unfolding open_for
  open_login_page now s =
      let (storage, user) = get_login_user js now s.storage in open_for storage user s

  -- `logoutUser`
  unfoldable pub logout_user : Login → Login
  unfolding close_login_page
  logout_user s =
      let closed = close_login_page (record s { storage = clear_login_user js s.storage }) in
      emit (open_page "home") (emit (alert "로그아웃 되었습니다.") (emit refresh_site_header closed))

  unfoldable pub when_shown : Login → Login → Login
  when_shown s after = if s.overlay_shown then after else s

  unfoldable pub handle : Event → Login → Login
  unfolding open_login_page begin_submit take_answer close_login_page logout_user when_shown
      clear_errors
  handle (open_login now) s = open_login_page now s
  handle (phone_input value) s =
      when_shown s
        (record s { phone = first_of 11 (only_digits value); phone_error = ""; common_error = "" })
  handle (password_input value) s =
      when_shown s (record s { password = value; password_error = ""; common_error = "" })
  handle (remember_click checked) s = when_shown s (record s { remember_id = checked })
  handle submit s = when_shown s (if s.submit_disabled then s else begin_submit s)
  handle close_click s = when_shown s (close_login_page s)
  handle backdrop_click s = when_shown s (close_login_page s)
  handle pwfind_click s = when_shown s (emit (open_page "pwfind") (close_login_page s))
  handle signup_click s = when_shown s (emit (open_page "signup") (close_login_page s))
  handle (login_answer place answer now) s = take_answer (pick place s.attempts) answer now s
  handle logout s = logout_user s

  unfoldable pub run : List Event → Login → Login
  unfolding handle
  run [] s = s
  run (e ∷ es) s = run es (handle e s)
