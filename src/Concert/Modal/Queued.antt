-- ===== src/Concert/Modal/Queued.antt =====
-- A booking that is queued: the window polls for its end and shows it.
use soldesk.Prelude.{Bool, if◌then◌else◌, ℕ, ◌+◌, ◌≤◌, ◌≡◌, [], ◌∷◌, some, true, false, arith}
use soldesk.Js.Value.{Engine}
use soldesk.WriteApi.{
  Answer, Reply, answered, thrown, Round, PollOptions, interval_of, poll_async_booking_status,
  timeout_ms,
}
use soldesk.WriteApi.Polls.{Polls, poll_fuel, poll_async_booking_status-Polls}
use soldesk.Concert.Modal.{Modal, result, set_step, LastResult, on_booked}
use soldesk.Concert.Modal.Outcome.{is_queued, is_booked, outcome_of, outcome_of_failure}
use soldesk.Concert.Modal.Events.{
  Event, commit_answer, poll_answer, poll_failure, run, take_commit, settle, settle_failure,
  at_last,
}

-- The options that the window passes on.
abbrev pub modal_options : PollOptions
modal_options = record { timeout_sec = some 600; interval_ms = some 400 }

-- How the end of the polling comes back to the handler that waits for it.
unfoldable pub poll_event : Reply → Event
poll_event (answered a) = poll_answer a
poll_event (thrown e) = poll_failure e

-- What the window says at the end of a polling.
pub outcome_of_reply : Engine → Reply → LastResult
outcome_of_reply js (answered a) = outcome_of js a
outcome_of_reply js (thrown e) = outcome_of_failure js e

-- Whether the end of a polling says that the seats are booked.
pub is_booked_reply : Engine → Reply → Bool
is_booked_reply js (answered a) = is_booked js a
is_booked_reply js (thrown e) = false

module _ (js : Engine) where
  end_of_polling :
      (m : Modal) (answer : Answer) (r : Reply)
      → m.committing ≡ 1
      → m.polling ≡ 0
      → is_queued js answer ≡ true
      → let during = run js m (commit_answer answer ∷ []) in
        let after = run js m (commit_answer answer ∷ poll_event r ∷ []) in
        (during.committing ≡ 0)
        × (during.polling ≡ 1)
        × (during.log ≡ m.log)
        × (during.current_step ≡ m.current_step)
        × (after.committing ≡ 0)
        × (after.polling ≡ 0)
        × (after.current_step ≡ result)
        × (after.submit_disabled ≡ false)
        × (after.result_message ≡ (outcome_of_reply js r).message)
        × (after.booking_succeeded ≡ (if is_booked_reply js r then true else m.booking_succeeded))
        × (after.log ≡ (
            if is_booked_reply js r
            then on_booked m.venue.show_id m.selected_seats ∷ m.log
            else m.log))
  unfolding run take_commit poll_event outcome_of_reply is_booked_reply settle settle_failure
      set_step at_last
  end_of_polling m answer (answered a) waits idle queued = ground arith
  end_of_polling m answer (thrown e) waits idle queued = ground arith

  -- While just one commit waits and no polling does, and if each wait between two requests takes at
  -- least 400 milliseconds: the commit is answered by a ticket. Then a polling waits in its place,
  -- the step stays and nothing is reported to the page; the polling ends, with the first error, with
  -- the first terminal answer, or after 600 seconds; and once its end has come back nothing waits,
  -- the window is in its last step with its button enabled, it shows the message of that end, and the
  -- booking counts as succeeded and the chosen seats are reported to the page just if that end says
  -- that they are booked.
  pub queued_booking_ends :
      (m : Modal) (answer : Answer) (rounds : ℕ → Round) (start : ℕ)
      → m.committing ≡ 1
      → m.polling ≡ 0
      → is_queued js answer ≡ true
      → ((k : ℕ) → interval_of modal_options ≤ (rounds k).waited)
      → (r : Reply) × (poll_async_booking_status
            (poll_fuel modal_options)
            rounds
            start
            modal_options
          ≡ some r)
        × Polls rounds (start + timeout_ms modal_options) 0 start r
        × (let during = run js m (commit_answer answer ∷ []) in
            let after = run js m (commit_answer answer ∷ poll_event r ∷ []) in
            (during.committing ≡ 0)
            × (during.polling ≡ 1)
            × (during.log ≡ m.log)
            × (during.current_step ≡ m.current_step)
            × (after.committing ≡ 0)
            × (after.polling ≡ 0)
            × (after.current_step ≡ result)
            × (after.submit_disabled ≡ false)
            × (after.result_message ≡ (outcome_of_reply js r).message)
            × (after.booking_succeeded
                ≡ (if is_booked_reply js r then true else m.booking_succeeded))
            × (after.log ≡ (
                if is_booked_reply js r
                then on_booked m.venue.show_id m.selected_seats ∷ m.log
                else m.log)))
  queued_booking_ends m answer rounds start waits idle queued long =
      let (r, e, p) = poll_async_booking_status-Polls rounds start modal_options long in
      (r, e, p, end_of_polling m answer r waits idle queued)
