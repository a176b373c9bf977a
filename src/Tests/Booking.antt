-- ===== src/Tests/Booking.antt =====
-- Examples of the laws of the concert booking window and of the polling.
use soldesk.Prelude.{
  if◌then◌else◌, ℕ, ◌+◌, ◌≤◌, ◌≡◌, refl, List, [], ◌∷◌, none, some, zero, suc, true, false, arith,
}
use soldesk.Js.TextSet.{has, add, delete}
use soldesk.Js.Value.{boolean, text, text_or_empty, truthy, string_of}
use soldesk.WriteApi.{
  PollOptions, no_object, Reply, answered, Round, timeout_ms, interval_of,
  poll_async_booking_status,
}
use soldesk.WriteApi.Polls.{Polls, poll_fuel, poll_async_booking_status-Polls}
use soldesk.Concert.Seat.{create_seat_key}
use soldesk.Concert.Modal.Outcome.{is_queued, is_booked}
use soldesk.Concert.Modal.Grid.{shown_keys}
use soldesk.Js.Text.{print}
use soldesk.Concert.Modal.{
  update_summary, set_step, Modal, venue_of, open_modal, request_booking, on_booked, result,
}
use soldesk.Concert.Modal.Events.{
  stored_user_id, submit, handle_seat_click, Event, seat_click, submit_click, reselect_click,
  key_down, commit_answer, run,
}
use soldesk.Concert.Modal.Session.{run-open_modal-IsSound}
use soldesk.Concert.Modal.Sound.{IsSound}
use soldesk.Concert.Modal.Reload.{Earned, run-Earned}
use soldesk.Concert.Modal.Queued.{
  is_booked_reply, modal_options, poll_event, outcome_of_reply, queued_booking_ends,
}
use soldesk.Concert.Modal.Flow.{reselect_books_twice}
use soldesk.Tests.{plain, large_show, small_show, queued_answer, ok_answer}

abbrev session : List Event
session =
    seat_click "1-2"
    ∷ submit_click "42"
    ∷ submit_click "42"
    ∷ commit_answer queued_answer
    ∷ key_down true
    ∷ []

run-open_modal-IsSound_example :
    IsSound plain (run plain (open_modal plain (venue_of plain large_show none)) session)
    × ((run plain (open_modal plain (venue_of plain large_show none)) session).venue
        ≡ venue_of plain large_show none)
run-open_modal-IsSound_example = run-open_modal-IsSound plain large_show none session

run-Earned_example :
    Earned (run plain (open_modal plain (venue_of plain small_show none)) session).log
run-Earned_example = run-Earned plain (venue_of plain small_show none) session

-- The window with a choice, in its second step.
abbrev chosen : Modal
chosen =
    run plain (open_modal plain (venue_of plain small_show none))
      (seat_click "1-2" ∷ submit_click "42" ∷ [])

reselect_books_twice_example :
    let after =
      run plain chosen
        (submit_click "42" ∷ reselect_click ∷ submit_click "42" ∷ submit_click "42" ∷ []) in
    (after.log
      ≡ request_booking "42" chosen.venue.show_id chosen.selected_seats
        ∷ request_booking "42" chosen.venue.show_id chosen.selected_seats
        ∷ chosen.log)
    × (after.committing ≡ chosen.committing + 2)
unfolding run open_modal venue_of submit handle_seat_click update_summary set_step stored_user_id
    add has delete is_queued is_booked shown_keys create_seat_key print soldesk.Js.Value.to_int
    soldesk.Js.Value.or_else plain soldesk.Js.Value.is_positive text_or_empty
    soldesk.Js.Value.is_boolean
reselect_books_twice_example = reselect_books_twice plain chosen "42" refl refl refl refl refl

-- Two rounds of 5 and 400 milliseconds: the first answer is no end, the second one is.
abbrev rounds : ℕ → Round
rounds zero = record { reply = answered no_object; took = 5; waited = 400 }
rounds (suc k) = record { reply = answered ok_answer; took = 5; waited = 400 }

abbrev options : PollOptions
options = record { timeout_sec = some 2; interval_ms = none }

rounds_long : (k : ℕ) → 400 ≤ (rounds k).waited
rounds_long zero = omega arith
rounds_long (suc k) = omega arith

poll_async_booking_status-Polls_example :
    (r : Reply) × (poll_async_booking_status (poll_fuel options) rounds 1000 options ≡ some r)
    × Polls rounds (1000 + timeout_ms options) 0 1000 r
unfolding interval_of
poll_async_booking_status-Polls_example =
    poll_async_booking_status-Polls rounds 1000 options rounds_long

-- The window while a commit waits.
abbrev committed : Modal
committed = record chosen { committing = 1; polling = 0 }

queued_booking_ends_example :
    (r : Reply) × (poll_async_booking_status (poll_fuel modal_options) rounds 0 modal_options
      ≡ some r)
    × Polls rounds (0 + timeout_ms modal_options) 0 0 r
    × (let during = run plain committed (commit_answer queued_answer ∷ []) in
        let after = run plain committed (commit_answer queued_answer ∷ poll_event r ∷ []) in
        (during.committing ≡ 0)
        × (during.polling ≡ 1)
        × (during.log ≡ committed.log)
        × (during.current_step ≡ committed.current_step)
        × (after.committing ≡ 0)
        × (after.polling ≡ 0)
        × (after.current_step ≡ result)
        × (after.submit_disabled ≡ false)
        × (after.result_message ≡ (outcome_of_reply plain r).message)
        × (after.booking_succeeded
            ≡ (if is_booked_reply plain r then true else committed.booking_succeeded))
        × (after.log ≡ (
            if is_booked_reply plain r
            then on_booked committed.venue.show_id committed.selected_seats ∷ committed.log
            else committed.log)))
unfolding interval_of is_queued soldesk.Js.Value.truthy text_or_empty
queued_booking_ends_example =
    queued_booking_ends plain committed queued_answer rounds 0 refl refl refl rounds_long
