-- ===== src/Concert/Modal/Outcome.antt =====
-- What the window makes of the answer to a booking, and of a failed request.
use Prim.Native.String
use soldesk.Prelude.{String, Bool, true, false, ◌&&◌, ◌||◌, none, some, ◌===◌, if◌then◌else◌}
use soldesk.Js.Value.{
  Engine, Value, text, truthy, or_else, is_boolean, is_text, string_of, number_of, number_is,
  text_or_empty,
}
use soldesk.WriteApi.{Answer, no_object, fields, Failure}
use soldesk.Concert.Modal.{LastResult}

unfoldable pub refused : String → LastResult
refused message = record { ok = false; message = message }

module _ (js : Engine) where
  -- The answer is the ticket of a queued booking, which is polled for.
  unfoldable pub is_queued : Answer → Bool
  is_queued no_object = false
  is_queued (fields f) =
      truthy f.ok && (text_or_empty js f.code === "QUEUED") && truthy f.booking_ref

  -- `result && result.ok === true && String(result.code || '') === 'OK'`
  unfoldable pub is_booked : Answer → Bool
  is_booked no_object = false
  is_booked (fields f) = is_boolean true f.ok && (text_or_empty js f.code === "OK")

  unfoldable pub success_message : Value → String
  success_message booking_code =
      let code = if truthy booking_code then string_of js booking_code else "" in
      if code === ""
      then "결제에 성공했습니다."
      else String.◌++◌ "예매번호 : " (String.◌++◌ code "\n결제에 성공했습니다.")

  -- The ladder over `result.code`.
  unfoldable pub refusal_message : String → Value → String
  refusal_message code message =
      if code === "DUPLICATE_SEAT"
      then "중복좌석입니다."
      else if code === "SOLD_OUT"
      then "매진입니다."
      else if code === "SALES_CLOSED"
      then "모든 투표가 마감되었습니다."
      else if code === "INVALID_SEAT" || code === "BAD_SEAT_KEY"
      then "좌석 정보가 올바르지 않습니다. 새로고침 후 다시 시도해주세요."
      else if code === "TIMEOUT"
      then string_of js (or_else message (text "처리 시간이 초과되었습니다. 마이페이지에서 예매 내역을 확인해 주세요."))
      else if code === "NOT_FOUND"
      then "회차를 찾을 수 없습니다."
      else if code === "ERROR"
      then string_of js (or_else message (text "예매 처리 중 오류가 발생했습니다."))
      else "결제 실패"

  -- `lastResult` after an answer.
  unfoldable pub outcome_of : Answer → LastResult
  unfolding refused success_message refusal_message is_booked
  outcome_of no_object = refused "결제 실패"
  outcome_of (fields f) =
      if is_booked (fields f)
      then record { ok = true; message = success_message f.booking_code }
      else if is_boolean false f.ok
      then refused
          (refusal_message (if truthy f.code then string_of js f.code else "ERROR") f.message)
      else if is_text "UNKNOWN_OR_EXPIRED" f.status || is_text "INVALID_REF" f.status
      then refused (string_of js (or_else f.message (text "요청을 찾을 수 없습니다. 다시 시도해 주세요.")))
      else refused "결제 실패"

  rejected_message : String → String
  rejected_message code =
      if code === "INVALID_SEAT" || code === "BAD_SEAT_KEY"
      then "좌석 정보가 올바르지 않습니다. 새로고침 후 다시 시도해주세요."
      else if code === "NO_SEATS"
      then "좌석을 선택해주세요."
      else if code === "SALES_CLOSED"
      then "모든 투표가 마감되었습니다."
      else "요청값이 올바르지 않습니다."

  -- `status === 400 || status === 409`
  is_rejection : Value → Bool
  is_rejection status =
      truthy status && (number_is 400 (number_of js status) || number_is 409 (number_of js status))

  failure_text : Value → String
  failure_text message = string_of js (or_else message (text "결제 실패"))

  -- `lastResult` after an error.
  unfoldable pub outcome_of_failure : Failure → LastResult
  unfolding refused rejected_message is_rejection failure_text
  outcome_of_failure e = elim e.data_code [
    | none ↦ refused (failure_text e.message)
    | some code ↦
        if is_rejection e.status && truthy code
        then refused (rejected_message (string_of js code))
        else refused (failure_text e.message)
  ]
