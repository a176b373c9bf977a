-- ===== src/Tests/Account.antt =====
-- Examples of the laws of the stored account.
use soldesk.Prelude.{◌≡◌, refl, [], ◌∷◌, none, some, ltb, if◌then◌else◌}
use soldesk.Prelude.Int.{pos}
use soldesk.Js.Value.{text, number, whole, string_of, truthy}
use soldesk.Account.{
  Fields, Storage, object, field, set_field, get_login_user, get_stored_user_id, set_login_user,
}
use soldesk.Account.Laws.{fresh, end_of_login, login_lasts}
use soldesk.Tests.{plain, whole_value}

abbrev data_of_user : Fields
data_of_user = ("user_id", whole_value 42) ∷ ("name", text "Kim") ∷ []

abbrev storage : Storage
storage = record {
  login_user = none;
  user_id = none;
  remembered_login_id = some "kim";
  session_user_id = none;
}

abbrev signed : Storage
signed = record storage {
  login_user = some (object (("user_id", whole_value 42) ∷ ("expiresAt", whole_value 5000) ∷ []));
  user_id = some "42";
}

login_lasts_example :
    let left = (set_login_user plain 1000 data_of_user (fresh none) storage).0 in
    let end = number (whole (pos (end_of_login 1000 none))) in
    ((get_login_user plain 8000000 left).1 ≡ (
      if ltb (end_of_login 1000 none) 8000000
      then none
      else some (set_field "expiresAt" end data_of_user)))
    × ((get_stored_user_id plain 8000000 left).1 ≡ string_of plain (field "user_id" data_of_user))
    × (left.remembered_login_id ≡ storage.remembered_login_id)
unfolding truthy field string_of plain
login_lasts_example = login_lasts plain 1000 8000000 data_of_user none storage refl refl
