-- ===== src/Concert/Modal/Flow.antt =====
-- The course of a booking through the window: how a submission ends, when the page is reloaded, and
-- what the user can do in between that the window does not foresee.
use soldesk.Prelude.{
  ◌+◌, ◌<◌, max, ◌≡◌, refl, String, [], ◌∷◌, some, true, false, if◌then◌else◌, is_empty, length,
  arith,
}
use soldesk.Js.TextSet.{has, add}
use soldesk.Js.Value.{Engine}
use soldesk.Concert.Modal.{
  Modal, seat, confirm, result, request_booking, on_booked, emit, set_step, update_summary,
}
use soldesk.Concert.Modal.Grid.{shown_keys}
use soldesk.Concert.Modal.Outcome.{is_queued, is_booked, outcome_of}
use soldesk.WriteApi.{Answer}
use soldesk.Concert.Modal.Events.{
  seat_click, submit_click, reselect_click, key_down, commit_answer, stored_user_id, settle, handle,
  run, close_from_user, press_key, submit, submit_at, at_last, take_commit, handle_seat_click,
  at_seat, at_confirm, on_seat_panel,
}

module _ (js : Engine) where
  -- Whatever a booking is answered, the window ends in the last step with its button enabled and
  -- named "닫기", it shows the message of the outcome, and it marks the booking as succeeded and
  -- reports the chosen seats to the page just if the answer says OK; the choice stays.
  settle_lem :
      (answer : Answer) (m : Modal)
      → let after = settle js answer m in
        (after.current_step ≡ result)
        × (after.submit_disabled ≡ false)
        × (after.submit_text ≡ "닫기")
        × (after.result_message ≡ (outcome_of js answer).message)
        × (after.booking_succeeded ≡ (if is_booked js answer then true else m.booking_succeeded))
        × (after.log ≡ (
            if is_booked js answer
            then on_booked m.venue.show_id m.selected_seats ∷ m.log
            else m.log))
        × (after.selected_seats ≡ m.selected_seats)
  unfolding settle set_step at_last
  settle_lem answer m = ground arith

  -- A key that is not Escape, pressed first, leaves the window deaf to Escape.
  pub escape_lost :
      (m : Modal)
      → m.key_listener ≡ true
      → m.overlay_shown ≡ true
      → (handle js (key_down true) m).overlay_shown ≡ false
        × ((run js m (key_down false ∷ key_down true ∷ [])).overlay_shown ≡ true)
  unfolding run press_key close_from_user
  escape_lost m listening shown = ground arith

  -- The window while the commit of a submission by `user` waits.
  waiting : String → Modal → Modal
  waiting user m =
      emit (request_booking user m.venue.show_id m.selected_seats) (record m {
        submit_disabled = true;
        submit_text = "처리 중...";
        committing = m.committing + 1;
      })

  submit_click-waiting :
      (m : Modal) (user : String)
      → m.current_step ≡ confirm
      → m.overlay_shown ≡ true
      → m.submit_disabled ≡ false
      → stored_user_id js user ≡ some user
      → handle js (submit_click user) m ≡ waiting user m
  unfolding handle submit submit_at waiting
  submit_click-waiting m user step shown on known = ground arith

  -- Back at the seats.
  reselected : Modal → Modal
  reselected m = set_step js seat (record m { booking_succeeded = false })

  reselect_click-reselected :
      (m : Modal)
      → m.current_step ≡ confirm
      → m.overlay_shown ≡ true
      → handle js reselect_click m ≡ reselected m
  unfolding handle at_confirm reselected
  reselect_click-reselected m step shown = ground arith

  seat_click-added :
      (m : Modal) (key : String)
      → m.current_step ≡ seat
      → m.overlay_shown ≡ true
      → has key (shown_keys m.venue m.paging) ≡ true
      → has key m.venue.reserved_seats ≡ false
      → has key m.selected_seats ≡ false
      → length m.selected_seats < max 1 m.venue.remain_count
      → handle js (seat_click key) m
        ≡ update_summary js (record m { selected_seats = add key m.selected_seats })
  unfolding handle on_seat_panel at_seat handle_seat_click
  seat_click-added m key step shown there open_seat new room = ground arith

  -- The answer to a commit that says OK.
  commit_answer-log :
      (m : Modal) (answer : Answer)
      → 0 < m.committing
      → is_queued js answer ≡ false
      → is_booked js answer ≡ true
      → (handle js (commit_answer answer) m).log
        ≡ on_booked m.venue.show_id m.selected_seats ∷ m.log
  unfolding handle take_commit settle set_step at_last
  commit_answer-log m answer waits q b = ground arith

  -- While a commit waits, the user goes back to the seats and chooses one more: the report to the
  -- page then names a seat that was never asked for.
  pub reselect_misreports :
      (m : Modal) (user key : String) (answer : Answer)
      → m.current_step ≡ confirm
      → m.overlay_shown ≡ true
      → m.submit_disabled ≡ false
      → stored_user_id js user ≡ some user
      → has key (shown_keys m.venue m.paging) ≡ true
      → has key m.venue.reserved_seats ≡ false
      → has key m.selected_seats ≡ false
      → length m.selected_seats < max 1 m.venue.remain_count
      → is_queued js answer ≡ false
      → is_booked js answer ≡ true
      → (run js m
          (submit_click user ∷ reselect_click ∷ seat_click key ∷ commit_answer answer ∷ [])).log
        ≡ on_booked m.venue.show_id (add key m.selected_seats)
          ∷ request_booking user m.venue.show_id m.selected_seats
          ∷ m.log
  unfolding run waiting reselected set_step update_summary
  reselect_misreports m user key answer step shown on known there open_seat new room q b =
      let first = submit_click-waiting m user step shown on known in
      let second = reselect_click-reselected (waiting user m) step shown in
      let third =
        seat_click-added (reselected (waiting user m)) key refl shown there open_seat new room in
      rw (first, second, third)
        (commit_answer-log
          (update_summary js
            (record (reselected (waiting user m)) { selected_seats = add key m.selected_seats }))
          answer (omega arith) q b)

  submit_click-confirm :
      (m : Modal) (user : String)
      → m.current_step ≡ seat
      → m.overlay_shown ≡ true
      → m.submit_disabled ≡ false
      → is_empty m.selected_seats ≡ false
      → stored_user_id js user ≡ some user
      → handle js (submit_click user) m ≡ set_step js confirm m
  unfolding handle submit submit_at
  submit_click-confirm m user step shown on some_seat known = ground arith

  -- While a commit waits, the user goes back and submits the same seats again: two bookings of
  -- them are asked for, and both are waited for.
  pub reselect_books_twice :
      (m : Modal) (user : String)
      → m.current_step ≡ confirm
      → m.overlay_shown ≡ true
      → m.submit_disabled ≡ false
      → is_empty m.selected_seats ≡ false
      → stored_user_id js user ≡ some user
      → let after =
          run js m
            (submit_click user ∷ reselect_click ∷ submit_click user ∷ submit_click user ∷ []) in
        (after.log
          ≡ request_booking user m.venue.show_id m.selected_seats
            ∷ request_booking user m.venue.show_id m.selected_seats
            ∷ m.log)
        × (after.committing ≡ m.committing + 2)
  unfolding run waiting reselected set_step
  reselect_books_twice m user step shown on some_seat known =
      let first = submit_click-waiting m user step shown on known in
      let second = reselect_click-reselected (waiting user m) step shown in
      let back = reselected (waiting user m) in
      let third = submit_click-confirm back user refl shown some_seat some_seat known in
      let fourth =
        submit_click-waiting (set_step js confirm back) user refl shown some_seat known in
      rw (first, second, third, fourth) (refl, omega arith)
