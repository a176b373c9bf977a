-- ===== src/Forms/ChangePw.antt =====
-- The page that changes the password (frontend/src/js/user/changepw.js): its fields and errors, its
-- test of the fields, and its handlers.
pub mod Laws
use soldesk.Prelude.{
  ℕ, ◌+◌, String, List, [], ◌∷◌, ◌++◌, Option, none, some, Bool, true, false, not, ◌&&◌, ◌===◌,
  ◌==◌, leb, if◌then◌else◌, pick,
}
use soldesk.Js.Value.{Engine}
use soldesk.Account.{Storage, get_stored_user_id}
use soldesk.Forms.Fields.{size}

pub data Effect : Type 0 where
  alert : String → Effect
  -- `requestChangePassword`: the user id, the password and the new one
  post_change : String → String → String → Effect
  open_my_page reload_at_my_page : Effect

-- The pages are numbered as they are opened; the fields are those of the last one. A request that
-- waits is kept by the number of its page.
pub record ChangePw : Type 0 where
  pub page : ℕ
  pub current_password : String
  pub new_password : String
  pub new_password_check : String
  pub current_error : String
  pub new_error : String
  pub check_error : String
  pub common_error : String
  pub submit_disabled : Bool
  pub is_change_pw_submitting : Bool
  pub requests : List ℕ
  pub storage : Storage
  pub log : List Effect

pub data Event : Type 0 where
  open_change_pw : Event
  current_input new_input check_input : String → Event
  -- with the time, which the user id of the storage depends on
  submit : ℕ → Event
  cancel_click : Event
  -- the answer to the request at this place: the message of an error, or none
  answer : ℕ → Option String → Event

-- The errors that `validateChangePwForm` sets, and whether it lets the form pass.
pub record Validation : Type 0 where
  pub current : String
  pub new : String
  pub check : String
  pub ok : Bool

current_message : String → String
current_message current = if current === "" then "현재 비밀번호를 입력해 주세요." else ""

new_message : String → String
new_message new =
    if new === ""
    then "새 비밀번호를 입력해 주세요."
    else if leb 4 (size new)
    then ""
    else "새 비밀번호는 4자 이상 입력해 주세요."

check_message : String → String → String
check_message new check =
    if check === ""
    then "새 비밀번호 확인을 입력해 주세요."
    else if new === check
    then ""
    else "새 비밀번호가 일치하지 않습니다."

unfoldable pub validate_change_pw_form : String → String → String → Validation
unfolding current_message new_message check_message
validate_change_pw_form current new check =
    let repeated = not (current === "") && not (new === "") && current === new in
    record {
      current = current_message current;
      new = if repeated then "현재 비밀번호와 다른 비밀번호를 입력해 주세요." else new_message new;
      check = check_message new check;
      ok =
          not (current === "")
          && (not (new === "") && leb 4 (size new))
          && (not (check === "") && new === check)
          && not repeated;
    }

abbrev pub emit : Effect → ChangePw → ChangePw
emit e s = record s { log = e ∷ s.log }

clear_errors : ChangePw → ChangePw
clear_errors s = record s {
  current_error = "";
  new_error = "";
  check_error = "";
  common_error = "";
}

module _ (js : Engine) where
  -- The submission up to its wait, with the user id of the storage.
  unfoldable pub submit_as : String → ChangePw → ChangePw
  unfolding clear_errors validate_change_pw_form
  submit_as user_id s =
      let cleared = clear_errors s in
      let v = validate_change_pw_form s.current_password s.new_password s.new_password_check in
      if user_id === ""
      then record cleared { common_error = "로그인 정보가 없습니다." }
      else if v.ok
      then emit (post_change user_id s.current_password s.new_password) (record cleared {
        is_change_pw_submitting = true;
        submit_disabled = true;
        requests = s.requests ++ s.page ∷ [];
      })
      else record cleared { current_error = v.current; new_error = v.new; check_error = v.check }

  unfoldable pub submit_change : ℕ → ChangePw → ChangePw
  unfolding submit_as
  submit_change now s =
      let (storage, user_id) = get_stored_user_id js now s.storage in
      if s.is_change_pw_submitting then s else submit_as user_id (record s { storage = storage })

  -- What follows the wait: the fields of another page are not touched, but its common error is that
  -- of the document.
  unfoldable pub take_result : Option String → ChangePw → ChangePw
  take_result none s = emit reload_at_my_page (emit (alert "비밀번호가 변경되었습니다.") s)
  take_result (some message) s = record s {
    common_error = if message === "" then "비밀번호 변경 중 오류가 발생했습니다." else message;
  }

  -- `finally`
  unfoldable pub at_last : ℕ → ChangePw → ChangePw
  at_last page s = record s {
    is_change_pw_submitting = false;
    submit_disabled = if page == s.page then false else s.submit_disabled;
  }

  unfoldable pub take_answer : Option (ℕ × List ℕ) → Option String → ChangePw → ChangePw
  unfolding take_result at_last
  take_answer none result s = s
  take_answer (some (page, others)) result s =
      at_last page (take_result result (record s { requests = others }))

  unfoldable pub handle : Event → ChangePw → ChangePw
  unfolding clear_errors submit_change take_answer
  handle open_change_pw s = record (clear_errors s) {
    page = s.page + 1;
    current_password = "";
    new_password = "";
    new_password_check = "";
    submit_disabled = false;
  }
  handle (current_input value) s = record (clear_errors s) { current_password = value }
  handle (new_input value) s = record (clear_errors s) { new_password = value }
  handle (check_input value) s = record (clear_errors s) { new_password_check = value }
  handle (submit now) s = if s.submit_disabled then s else submit_change now s
  handle cancel_click s = emit open_my_page s
  handle (answer place result) s = take_answer (pick place s.requests) result s

  unfoldable pub run : List Event → ChangePw → ChangePw
  unfolding handle
  run [] s = s
  run (e ∷ es) s = run es (handle e s)
