-- ===== src/Forms/Edit.antt =====
-- The page that changes the name and the number of an account (frontend/src/js/user/edit.js). The
-- number of the user whom the service gives is a text.
pub mod Phone
pub mod Laws
use Prim.Native.String.{◌++◌ as append}
use soldesk.Prelude.{
  ℕ, ◌+◌, String, List, [], ◌∷◌, ◌++◌, Option, none, some, Bool, true, false, not, ◌&&◌, ◌||◌,
  ◌===◌, ◌==◌, ltb, if◌then◌else◌, pick,
}
use soldesk.Js.Value.{Engine, Value, text}
use soldesk.Account.{
  Fields, field, Storage, get_stored_user_id, set_stored_user_id, patch_login_user,
}
use soldesk.Forms.Fields.{size, only_digits, first_of, rest_of}

unfoldable pub normalize_phone : String → String
normalize_phone phone = first_of 11 (only_digits phone)

-- Three parts, of the first three, then so many, and then the rest.
unfoldable pub hyphened : ℕ → String → String
hyphened middle raw = append (first_of 3 raw) (
    append "-"
      (append (first_of middle (rest_of 3 raw)) (append "-" (rest_of middle (rest_of 3 raw)))))

unfoldable pub format_phone : String → String
unfolding hyphened
format_phone phone =
    let raw = only_digits phone in
    if size raw == 11
    then hyphened 4 raw
    else if size raw == 10
    then hyphened 3 raw
    else if phone === ""
    then "-"
    else phone

pub data Effect : Type 0 where
  -- `requestEdit`: the user id, the name and the number
  post_edit : String → String → String → Effect
  refresh_site_header reload_at_my_page open_my_page : Effect

-- What a submission keeps across its wait: its page, what it sent, and the joining date of the user.
pub record Attempt : Type 0 where
  pub page : ℕ
  pub user_id : String
  pub name : String
  pub phone : String
  pub created_at : Value

-- The pages are numbered as they are filled in; the fields are those of the last one.
pub record Edit : Type 0 where
  pub page : ℕ
  pub created_at : Value
  pub name : String
  pub phone : String
  pub name_error : String
  pub phone_error : String
  pub common_error : String
  pub submit_disabled : Bool
  pub is_edit_submitting : Bool
  pub attempts : List Attempt
  pub storage : Storage
  pub log : List Effect

pub data Event : Type 0 where
  -- the page is filled in with a user: the name, the number and the joining date
  filled_in : String → String → Value → Event
  name_input phone_input : String → Event
  -- with the time
  submit : ℕ → Event
  cancel_click : Event
  -- the answer to the attempt at this place, and the time: the message of an error, or none
  answer : ℕ → Option String → ℕ → Event

abbrev pub emit : Effect → Edit → Edit
emit e s = record s { log = e ∷ s.log }

-- `validateEditForm`
phone_message : String → String
phone_message phone =
    if phone === ""
    then "핸드폰번호를 입력해 주세요."
    else if ltb (size phone) 10 || ltb 11 (size phone)
    then "핸드폰번호 형식이 올바르지 않습니다."
    else ""

unfoldable pub passes : String → String → Bool
passes name phone =
    not (name === "") && (not (phone === "") && not (ltb (size phone) 10 || ltb 11 (size phone)))

module _ (js : Engine) where
  -- The submission up to its wait, with the user id of the storage.
  unfoldable pub submit_as : String → Edit → Edit
  unfolding phone_message passes normalize_phone
  submit_as user_id s =
      let name = js.trim s.name in
      let phone = normalize_phone s.phone in
      let cleared = record s { name_error = ""; phone_error = ""; common_error = "" } in
      if user_id === ""
      then record cleared { common_error = "로그인 정보가 없습니다." }
      else if passes name phone
      then emit (post_edit user_id name phone) (record cleared {
        is_edit_submitting = true;
        submit_disabled = true;
        attempts =
            s.attempts
            ++ record {
              page = s.page;
              user_id = user_id;
              name = name;
              phone = phone;
              created_at = s.created_at;
            }
              ∷ [];
      })
      else record cleared {
        name_error = if name === "" then "이름을 입력해 주세요." else "";
        phone_error = phone_message phone;
      }

  unfoldable pub submit_edit : ℕ → Edit → Edit
  unfolding submit_as
  submit_edit now s =
      let (storage, user_id) = get_stored_user_id js now s.storage in
      if s.is_edit_submitting then s else submit_as user_id (record s { storage = storage })

  -- The account after an edit that the service has accepted.
  abbrev pub edited_fields : Attempt → Fields
  edited_fields a =
      ("user_id", text a.user_id)
      ∷ ("name", text a.name)
      ∷ ("phone", text a.phone)
      ∷ ("created_at", a.created_at)
      ∷ []

  unfoldable pub store_edit : ℕ → Attempt → Storage → Storage
  store_edit now a s =
      (patch_login_user js now (edited_fields a) none (set_stored_user_id js (text a.user_id) s)).0

  unfoldable pub take_result : ℕ → Attempt → Option String → Edit → Edit
  unfolding store_edit
  take_result now a none s =
      emit reload_at_my_page
        (emit refresh_site_header (record s { storage = store_edit now a s.storage }))
  take_result now a (some message) s = record s {
    common_error = if message === "" then "회원정보 수정 중 오류가 발생했습니다." else message;
  }

  -- `finally`
  unfoldable pub at_last : Attempt → Edit → Edit
  at_last a s = record s {
    is_edit_submitting = false;
    submit_disabled = if a.page == s.page then false else s.submit_disabled;
  }

  unfoldable pub take_answer : Option (Attempt × List Attempt) → Option String → ℕ → Edit → Edit
  unfolding take_result at_last
  take_answer none result now s = s
  take_answer (some (a, others)) result now s =
      at_last a (take_result now a result (record s { attempts = others }))

  unfoldable pub handle : Event → Edit → Edit
  unfolding format_phone normalize_phone submit_edit take_answer
  handle (filled_in name phone created_at) s = record s {
    page = s.page + 1;
    created_at = created_at;
    name = name;
    phone = format_phone phone;
    name_error = "";
    phone_error = "";
    common_error = "";
    submit_disabled = false;
  }
  handle (name_input value) s = record s { name = value; name_error = ""; common_error = "" }
  handle (phone_input value) s = record s {
    phone = format_phone (normalize_phone value);
    phone_error = "";
    common_error = "";
  }
  handle (submit now) s = if s.submit_disabled then s else submit_edit now s
  handle cancel_click s = emit open_my_page s
  handle (answer place result now) s = take_answer (pick place s.attempts) result now s

  unfoldable pub run : List Event → Edit → Edit
  unfolding handle
  run [] s = s
  run (e ∷ es) s = run es (handle e s)
