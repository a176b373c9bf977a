-- ===== src/Theaters/Detail/Outcome.antt =====
-- What the window of a screening makes of the answer to a booking, and of a failed request.
use soldesk.Prelude.{String, true, false, ◌&&◌, ◌||◌, none, some, ◌===◌, if◌then◌else◌}
use soldesk.Js.Value.{
  Engine, Value, text, or_else, truthy, string_of, number_of, number_is, is_boolean, is_text,
}
use soldesk.WriteApi.{Answer, no_object, fields, Failure}
use soldesk.Concert.Modal.{LastResult}
use soldesk.Concert.Modal.Outcome.{is_booked, success_message, refused}

module _ (js : Engine) where
  unfoldable pub refusal_message : String → Value → String
  refusal_message code message =
      if code === "DUPLICATE_SEAT"
      then "중복좌석입니다."
      else if code === "SOLD_OUT"
      then "매진입니다."
      else if code === "INVALID_SEAT" || code === "BAD_SEAT_KEY"
      then "좌석 정보가 올바르지 않습니다. 새로고침 후 다시 시도해주세요."
      else if code === "TIMEOUT"
      then string_of js (or_else message (text "처리 시간이 초과되었습니다. 마이페이지에서 예매 내역을 확인해 주세요."))
      else if code === "NOT_FOUND"
      then "상영 회차를 찾을 수 없습니다."
      else if code === "ERROR"
      then string_of js (or_else message (text "예매 처리 중 오류가 발생했습니다."))
      else "결제 실패"

  -- `lastResult` after an answer.
  unfoldable pub outcome_of : Answer → LastResult
  unfolding refusal_message
  outcome_of no_object = refused "결제 실패"
  outcome_of (fields f) =
      if is_booked js (fields f)
      then record { ok = true; message = success_message js f.booking_code }
      else if is_boolean false f.ok
      then refused
          (refusal_message (if truthy f.code then string_of js f.code else "ERROR") f.message)
      else if is_text "UNKNOWN_OR_EXPIRED" f.status || is_text "INVALID_REF" f.status
      then refused (string_of js (or_else f.message (text "요청을 찾을 수 없습니다. 다시 시도해 주세요.")))
      else refused "결제 실패"

  -- `lastResult` after an error.
  unfoldable pub outcome_of_failure : Failure → LastResult
  outcome_of_failure e =
      let told = refused (string_of js (or_else e.message (text "결제 실패"))) in
      elim e.data_code [
        | none ↦ told
        | some code ↦
            if truthy e.status && number_is 400 (number_of js e.status) && truthy code
            then refused (
                if string_of js code === "INVALID_SEAT" || string_of js code === "BAD_SEAT_KEY"
                then "좌석 정보가 올바르지 않습니다. 새로고침 후 다시 시도해주세요."
                else if string_of js code === "NO_SEATS"
                then "좌석을 선택해주세요."
                else "요청값이 올바르지 않습니다.")
            else told
      ]
