-- ===== src/WriteApi.antt =====
-- Booking through the write services (frontend/src/js/common/write-api.js): the answers, and the
-- polling for the end of a queued booking.
pub mod Polls
use soldesk.Prelude.{
  ℕ, zero, suc, ◌+◌, ◌*◌, Bool, true, false, not, Option, none, some, ◌||◌, if◌then◌else◌, ltb,
  ◌==◌,
}
use soldesk.Js.Value.{Value, undefined, boolean, text, is_text}

-- The fields that the pages read of a parsed answer to a booking; a field that is not there is `undefined`.
pub record Fields : Type 0 where
  pub ok : Value
  pub code : Value
  pub status : Value
  pub booking_ref : Value
  pub booking_code : Value
  pub message : Value

-- A parsed answer: an object, or what is none (null, a Boolean, a number, a text).
pub data Answer : Type 0 where
  no_object : Answer
  fields : Fields → Answer

-- An error of `writeApi`: its `status` and `message`, and `data.code` where it has data.
pub record Failure : Type 0 where
  pub status : Value
  pub data_code : Option Value
  pub message : Value

is_undefined : Value → Bool
is_undefined undefined = true
is_undefined _ = false

-- `isTerminalAsyncBookingStatus`; an answer owns the field `ok` if it holds a value there.
unfoldable pub is_terminal : Answer → Bool
unfolding is_undefined
is_terminal no_object = true
is_terminal (fields f) =
    if is_text "PROCESSING" f.status
    then false
    else if is_text "UNKNOWN_OR_EXPIRED" f.status || is_text "INVALID_REF" f.status
    then true
    else not (is_undefined f.ok)

-- The answer that the polling makes up when its time is over.
abbrev pub timeout_answer : Answer
timeout_answer = fields (record {
  ok = boolean false;
  code = text "TIMEOUT";
  status = text "TIMEOUT";
  booking_ref = undefined;
  booking_code = undefined;
  message = text "예매 처리 시간이 초과되었습니다. 마이페이지에서 예매 내역을 확인해 주세요.";
})

pub data Reply : Type 0 where
  answered : Answer → Reply
  thrown : Failure → Reply

-- One round as the outside has it: the reply to the request, the milliseconds that it took, and
-- those that the wait behind it took.
pub record Round : Type 0 where
  pub reply : Reply
  pub took : ℕ
  pub waited : ℕ

-- `options && Number(option) > 0 ? Number(option) : default`
unfoldable pub positive_or : Option ℕ → ℕ → ℕ
positive_or none standard = standard
positive_or (some n) standard = if n == 0 then standard else n

pub record PollOptions : Type 0 where
  pub timeout_sec : Option ℕ
  pub interval_ms : Option ℕ

-- The loop, from round `i` on at the time `now`; `none` means that the fuel ran out.
unfoldable pub poll_from : ℕ → (ℕ → Round) → ℕ → ℕ → ℕ → Option Reply
poll_from zero rounds i now deadline = none
poll_from (suc fuel) rounds i now deadline =
    let r = rounds i in
    let later = poll_from fuel rounds (suc i) (now + r.took + r.waited) deadline in
    let next : Option Reply = elim r.reply [
      | thrown e ↦ some (thrown e)
      | answered a ↦ if is_terminal a then some (answered a) else later
    ] in
    if ltb now deadline then next else some (answered timeout_answer)

unfoldable pub timeout_ms : PollOptions → ℕ
unfolding positive_or
timeout_ms o = positive_or o.timeout_sec 120 * 1000

unfoldable pub interval_of : PollOptions → ℕ
unfolding positive_or
interval_of o = positive_or o.interval_ms 400

-- `pollAsyncBookingStatus`, begun at the time `start`.
unfoldable pub poll_async_booking_status : ℕ → (ℕ → Round) → ℕ → PollOptions → Option Reply
unfolding poll_from timeout_ms
poll_async_booking_status fuel rounds start o = poll_from fuel rounds 0 start (start + timeout_ms o)
