-- ===== src/Forms/PwFind.antt =====
-- The forms for a forgotten password (frontend/src/js/user/pwfind.js): the one that looks for the
-- account, and the one that changes its password.
pub mod Laws
use soldesk.Prelude.{
  ℕ, ◌+◌, String, List, [], ◌∷◌, ◌++◌, Option, none, some, Bool, true, false, not, ◌||◌, ◌&&◌,
  ◌===◌, ◌==◌, if◌then◌else◌, exists, pick,
}
use soldesk.Js.Value.{Engine, Value, boolean, text, string_of, or_else, text_or_empty}
use soldesk.Account.{Fields, field}
use soldesk.Forms.Fields.{
  only_digits, first_of, sanitize_name, is_valid_phone, is_valid_name, is_valid_password,
}

pub data Effect : Type 0 where
  alert : String → Effect
  post_find : String → String → Effect
  post_reset : String → String → String → Effect
  unlock_scroll open_login_page : Effect

-- The overlay in the document: none, or one of the two forms.
pub data Stage : Type 0 where
  closed verify_form reset_form : Stage

-- A request that waits, with the overlay that it came from.
pub data Request : Type 0 where
  find_user : ℕ → String → String → Request
  reset_password : ℕ → Request

-- The overlays are numbered as they are opened; the fields are those of the last one. The form that
-- changes the password keeps the number and the name in hidden fields.
pub record PwFind : Type 0 where
  pub overlay : ℕ
  pub stage : Stage
  pub phone : String
  pub name : String
  pub is_composing_name : Bool
  pub password : String
  pub password_confirm : String
  pub phone_error : String
  pub name_error : String
  pub password_error : String
  pub password_confirm_error : String
  pub common_error : String
  pub is_submitting : Bool
  pub requests : List Request
  pub log : List Effect

-- An answer that is an object: its flags and its message, and what it has at the keys user, data and
-- result, none where that is falsy.
pub record FindResult : Type 0 where
  pub flags : Fields
  pub user : Option Fields
  pub data_user : Option Fields
  pub result_user : Option Fields

pub data FindReply : Type 0 where
  found_reply : FindResult → FindReply
  null_reply : FindReply
  failed_reply : String → FindReply

pub data ResetReply : Type 0 where
  reset_reply : Value → Value → ResetReply
  null_reset : ResetReply
  failed_reset : String → ResetReply

-- What `normalizeFindResult` gives.
pub record Finding : Type 0 where
  pub success : Bool
  pub matched_phone : Bool
  pub matched_name : Bool
  pub user : Option Fields
  pub message : Value

pub data Event : Type 0 where
  open_form : Event
  phone_input name_input composition_end : String → Event
  composition_start : Event
  password_input confirm_input : String → Event
  submit close_click cancel_click : Event
  -- the answer to the request that waits at this place
  find_answer : ℕ → FindReply → Event
  reset_answer : ℕ → ResetReply → Event

abbrev pub emit : Effect → PwFind → PwFind
emit e s = record s { log = e ∷ s.log }

unfoldable pub is_true : Value → Bool
is_true (boolean b) = b
is_true _ = false

unfoldable pub is_false : Value → Bool
is_false (boolean b) = not b
is_false _ = false

-- One of these flags is `true`.
unfoldable pub any_flag : List String → Fields → Bool
unfolding is_true
any_flag keys flags = exists (λ key. is_true (field key flags)) keys

abbrev first_user : Option Fields → Option Fields → Option Fields
first_user none b = b
first_user (some a) b = some a

abbrev is_some : Option Fields → Bool
is_some none = false
is_some (some _) = true

unfoldable pub close_pw_find_page : PwFind → PwFind
close_pw_find_page s = emit unlock_scroll (record s { stage = closed })

unfoldable pub go_to_login_page : PwFind → PwFind
unfolding close_pw_find_page
go_to_login_page s = emit open_login_page (close_pw_find_page s)

clear_errors : PwFind → PwFind
clear_errors s = record s {
  phone_error = "";
  name_error = "";
  password_error = "";
  password_confirm_error = "";
  common_error = "";
}

-- A new overlay, with the fields of its form.
unfoldable pub open_overlay : Stage → String → String → PwFind → PwFind
unfolding clear_errors
open_overlay stage phone name s = record (clear_errors s) {
  overlay = s.overlay + 1;
  stage = stage;
  phone = phone;
  name = name;
  is_composing_name = false;
  password = "";
  password_confirm = "";
  is_submitting = false;
}

module _ (js : Engine) where
  unfoldable pub matches : (Value → Bool) → Option Fields → String → Bool
  matches same none key = false
  matches same (some user) key = same (field key user)

  unfoldable pub normalize_find_result : FindResult → String → String → Finding
  unfolding matches any_flag
  normalize_find_result result phone name =
      let user = first_user result.user (first_user result.data_user result.result_user) in
      let success =
        any_flag ("success" ∷ "exists" ∷ "found" ∷ "matched" ∷ "both_matched" ∷ []) result.flags
        || is_some user in
      record {
        success = success;
        matched_phone =
            any_flag ("matched_phone" ∷ "phone_match" ∷ "phoneMatched" ∷ "is_phone_match" ∷ [])
              result.flags
            || matches (λ v. text_or_empty js v === phone) user "phone";
        matched_name =
            any_flag ("matched_name" ∷ "name_match" ∷ "nameMatched" ∷ "is_name_match" ∷ [])
              result.flags
            || matches (λ v. js.trim (text_or_empty js v) === js.trim name) user "name";
        user =
            if success
            then first_user user (some (("phone", text phone) ∷ ("name", text name) ∷ []))
            else none;
        message = or_else (field "message" result.flags) (text "");
      }

  -- `requestFindUser` on an error.
  abbrev pub failed_find : String → FindResult
  failed_find message = record {
    flags =
        ("success", boolean false)
        ∷ ("message", text (if message === "" then "서버에 연결할 수 없습니다." else message))
        ∷ [];
    user = none;
    data_user = none;
    result_user = none;
  }

  -- The submission of the form that looks for the account, up to its wait.
  unfoldable pub submit_verify : PwFind → PwFind
  unfolding clear_errors
  submit_verify s =
      let phone = js.trim s.phone in
      let name = js.trim s.name in
      let cleared = clear_errors s in
      if s.is_submitting
      then s
      else if is_valid_phone js phone && is_valid_name js name
      then emit (post_find phone name) (record cleared {
        is_submitting = true;
        requests = s.requests ++ find_user s.overlay phone name ∷ [];
      })
      else record cleared {
        phone_error = if is_valid_phone js phone then "" else "핸드폰번호를 확인하세요.";
        name_error = if is_valid_name js name then "" else "이름을 확인하세요.";
      }

  -- The submission of the form that changes the password, up to its wait.
  unfoldable pub submit_reset : PwFind → PwFind
  unfolding clear_errors
  submit_reset s =
      let cleared = clear_errors s in
      let same = s.password === s.password_confirm in
      if s.is_submitting
      then s
      else if is_valid_password js s.password && same
      then emit (post_reset (js.trim s.phone) (js.trim s.name) s.password) (record cleared {
        is_submitting = true;
        requests = s.requests ++ reset_password s.overlay ∷ [];
      })
      else record cleared {
        password_error = if is_valid_password js s.password then "" else "비밀번호는 4자 이상 입력하세요.";
        password_confirm_error = if same then "" else "비밀번호가 일치하지 않습니다.";
      }

  -- In the overlay that a request came from, if it is the last one.
  abbrev pub in_overlay : ℕ → (PwFind → PwFind) → PwFind → PwFind
  in_overlay overlay f s = if overlay == s.overlay then f s else s

  -- `finally`
  abbrev pub at_last : ℕ → PwFind → PwFind
  at_last overlay s = in_overlay overlay (λ h. record h { is_submitting = false }) s

  abbrev pub open_reset_page : Fields → PwFind → PwFind
  open_reset_page user s =
      open_overlay reset_form (text_or_empty js (field "phone" user))
        (text_or_empty js (field "name" user)) (close_pw_find_page s)

  unfoldable pub show_not_found : Finding → PwFind → PwFind
  show_not_found f s = record s {
    phone_error = if f.matched_phone then s.phone_error else "가입된 핸드폰번호가 없습니다.";
    name_error = if f.matched_name then s.name_error else "가입된 이름이 없습니다.";
    common_error =
        if f.matched_phone && f.matched_name
        then string_of js (or_else f.message (text "가입 정보를 찾을 수 없습니다."))
        else s.common_error;
  }

  unfoldable pub take_finding : ℕ → Finding → PwFind → PwFind
  unfolding show_not_found open_overlay close_pw_find_page
  take_finding overlay f s = elim f.user [
    | none ↦ in_overlay overlay (show_not_found f) s
    | some user ↦
        if f.success then open_reset_page user s else in_overlay overlay (show_not_found f) s
  ]

  -- What follows the wait for the account; on null, the first look at the answer throws.
  unfoldable pub take_find_reply : ℕ → String → String → FindReply → PwFind → PwFind
  unfolding normalize_find_result take_finding
  take_find_reply overlay phone name (found_reply result) s =
      take_finding overlay (normalize_find_result result phone name) s
  take_find_reply overlay phone name null_reply s = s
  take_find_reply overlay phone name (failed_reply message) s =
      take_finding overlay (normalize_find_result (failed_find message) phone name) s

  unfoldable pub reset_failed : ℕ → Value → PwFind → PwFind
  reset_failed overlay message s =
      in_overlay overlay
        (λ h. record h { common_error = string_of js (or_else message (text "비밀번호 변경에 실패했습니다.")) })
        s

  unfoldable pub take_reset_reply : ℕ → ResetReply → PwFind → PwFind
  unfolding reset_failed go_to_login_page is_false
  take_reset_reply overlay (reset_reply success message) s =
      if is_false success
      then reset_failed overlay message s
      else go_to_login_page (emit (alert "비밀번호가 변경되었습니다.") s)
  take_reset_reply overlay null_reset s = s
  take_reset_reply overlay (failed_reset message) s =
      reset_failed overlay (text (if message === "" then "서버에 연결할 수 없습니다." else message)) s

  unfoldable pub take_find_answer : Option (Request × List Request) → FindReply → PwFind → PwFind
  unfolding take_find_reply
  take_find_answer (some (find_user overlay phone name, others)) reply s =
      at_last overlay (take_find_reply overlay phone name reply (record s { requests = others }))
  take_find_answer _ reply s = s

  unfoldable pub take_reset_answer : Option (Request × List Request) → ResetReply → PwFind → PwFind
  unfolding take_reset_reply
  take_reset_answer (some (reset_password overlay, others)) reply s =
      at_last overlay (take_reset_reply overlay reply (record s { requests = others }))
  take_reset_answer _ reply s = s

  unfoldable pub submit_form : Stage → PwFind → PwFind
  unfolding submit_verify submit_reset
  submit_form closed s = s
  submit_form verify_form s = submit_verify s
  submit_form reset_form s = submit_reset s

  abbrev pub is_open : Stage → Bool
  is_open closed = false
  is_open _ = true

  -- Typing in the fields: what they hold is used by the form that has them.
  unfoldable pub handle : Event → PwFind → PwFind
  unfolding open_overlay clear_errors submit_form close_pw_find_page go_to_login_page
      take_find_answer take_reset_answer
  handle open_form s = open_overlay verify_form "" "" s
  handle (phone_input value) s = elim s.stage [
    | verify_form ↦ record (clear_errors s) { phone = first_of 11 (only_digits value) }
    | _ ↦ s
  ]
  handle composition_start s = record s { is_composing_name = true }
  handle (composition_end value) s = elim s.stage [
    | verify_form ↦ record s { is_composing_name = false; name = sanitize_name value }
    | _ ↦ s
  ]
  handle (name_input value) s = elim s.stage [
    | verify_form ↦ record (clear_errors s) {
      name = if s.is_composing_name then value else sanitize_name value;
    }
    | _ ↦ s
  ]
  handle (password_input value) s = record (clear_errors s) { password = value }
  handle (confirm_input value) s = record (clear_errors s) { password_confirm = value }
  handle submit s = submit_form s.stage s
  handle close_click s = if is_open s.stage then close_pw_find_page s else s
  handle cancel_click s = if is_open s.stage then go_to_login_page s else s
  handle (find_answer place reply) s = take_find_answer (pick place s.requests) reply s
  handle (reset_answer place reply) s = take_reset_answer (pick place s.requests) reply s

  unfoldable pub run : List Event → PwFind → PwFind
  unfolding handle
  run [] s = s
  run (e ∷ es) s = run es (handle e s)
