-- ===== src/Concert/Modal/Messages.antt =====
-- The messages of a refused booking, against the table that they are.
use soldesk.Prelude.{
  ◌≡◌, refl, ◌∙◌, String, List, [], ◌∷◌, Bool, true, false, ◌===◌, ===_iff, if◌then◌else◌, ◌↔◌,
  arith,
}
use soldesk.Js.Value.{
  Engine, Value, undefined, null, boolean, number, text, object, undefined, truthy, or_else,
  is_boolean, string_of, text_or_empty,
}
use soldesk.WriteApi.{Fields, fields}
use soldesk.Concert.Modal.Outcome.{outcome_of, is_booked, refused, refusal_message}

-- What is shown for a code: a fixed text, or the service's own message with a text in its place.
data Shown : Type 0 where
  fixed own : String → Shown

abbrev lookup {ℓ} : {A : Type ℓ} → String → List (String × A) → A → A
lookup key [] standard = standard
lookup key ((k, v) ∷ table) standard = if key === k then v else lookup key table standard

abbrev refusals : List (String × Shown)
refusals =
    ("DUPLICATE_SEAT", fixed "중복좌석입니다.")
    ∷ ("SOLD_OUT", fixed "매진입니다.")
    ∷ ("SALES_CLOSED", fixed "모든 투표가 마감되었습니다.")
    ∷ ("INVALID_SEAT", fixed "좌석 정보가 올바르지 않습니다. 새로고침 후 다시 시도해주세요.")
    ∷ ("BAD_SEAT_KEY", fixed "좌석 정보가 올바르지 않습니다. 새로고침 후 다시 시도해주세요.")
    ∷ ("TIMEOUT", own "처리 시간이 초과되었습니다. 마이페이지에서 예매 내역을 확인해 주세요.")
    ∷ ("NOT_FOUND", fixed "회차를 찾을 수 없습니다.")
    ∷ ("ERROR", own "예매 처리 중 오류가 발생했습니다.")
    ∷ []

last_of_ok :
    (a b c : Bool) (w x y z : String)
    → (if a
        then record { ok = true; message = w }
        else if b
        then refused x
        else if c
        then refused y
        else refused z).ok
      ≡ a
unfolding refused
last_of_ok true b c w x y z = refl
last_of_ok false true c w x y z = refl
last_of_ok false false true w x y z = refl
last_of_ok false false false w x y z = refl

module _ (js : Engine) where
  say : Shown → Value → String
  say (fixed s) message = s
  say (own s) message = string_of js (or_else message (text s))

  refusal_message-lookup :
      (code : String) (message : Value)
      → refusal_message js code message ≡ say (lookup code refusals (fixed "결제 실패")) message
  unfolding refusal_message say
  refusal_message-lookup code message = ground arith

  is_boolean-text_iff : (b : Bool) (v : Value) → (is_boolean b v ≡ true) ↔ (v ≡ boolean b)
  unfolding is_boolean
  is_boolean-text_iff b undefined = ((λ h. cc), (λ h. cc))
  is_boolean-text_iff b null = ((λ h. cc), (λ h. cc))
  is_boolean-text_iff b (boolean a) = (ground arith, ground arith)
  is_boolean-text_iff b (number n) = ((λ h. cc), (λ h. cc))
  is_boolean-text_iff b (text s) = ((λ h. cc), (λ h. cc))
  is_boolean-text_iff b (object s) = ((λ h. cc), (λ h. cc))

  outcome_of-ok : (f : Fields) → (outcome_of js (fields f)).ok ≡ is_booked js (fields f)
  unfolding outcome_of
  outcome_of-ok f = last_of_ok (is_booked js (fields f)) (is_boolean false f.ok) _ _ _ _ _

  -- The outcome says that the booking succeeded just if `ok` is true and the code is "OK".
  outcome_of-succeeds :
      (f : Fields)
      → ((outcome_of js (fields f)).ok ≡ true)
        ↔ ((f.ok ≡ boolean true) × (text_or_empty js f.code ≡ "OK"))
  unfolding is_booked
  outcome_of-succeeds f =
      let ok = outcome_of-ok f in
      let flag = is_boolean-text_iff true f.ok in
      let code = ===_iff (text_or_empty js f.code) "OK" in
      ((λ h. ground (arith, h, ok, flag, code)), (λ h. ground (arith, h, ok, flag, code)))

  -- Where `ok` is false the outcome is a failure, with the message of the table for the code, or
  -- for "ERROR" where there is none.
  outcome_of-table :
      (f : Fields)
      → f.ok ≡ boolean false
      → ((outcome_of js (fields f)).ok ≡ false)
        × ((outcome_of js (fields f)).message
            ≡ say
                (lookup
                  (if truthy f.code then string_of js f.code else "ERROR")
                  refusals
                  (fixed "결제 실패"))
                f.message)
  unfolding is_booked
  outcome_of-table f h = (
    outcome_of-ok f ∙ unfold is_boolean in rw h refl,
    unfold outcome_of refused is_boolean in rw (h, refusal_message-lookup _ f.message) refl,
  )
