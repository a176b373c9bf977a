-- ===== src/Theaters/Detail/Course.antt =====
-- The course of a booking through the window of a screening.
use soldesk.Prelude.{
  ◌+◌, ◌-◌, ◌<◌, ◌∙◌, ◌≡◌, refl, String, [], ◌∷◌, some, true, false, if◌then◌else◌, is_empty, arith,
}
use soldesk.Js.Value.{Engine}
use soldesk.WriteApi.{Answer}
use soldesk.Concert.Modal.{seat, confirm, result}
use soldesk.Concert.Modal.Events.{stored_user_id}
use soldesk.Concert.Modal.Outcome.{is_queued, is_booked}
use soldesk.Theaters.Detail.{
  Window, request_booking, on_booked, notify_read_cache_rebuilt, emit, set_step,
}
use soldesk.Theaters.Detail.Outcome.{outcome_of}
use soldesk.Theaters.Detail.Events.{
  submit_click, reselect_click, cancel_click, commit_answer, submit_at, settle, take_commit,
  at_last, close_from_user, shown_at_confirm, handle, run,
}

module _ (js : Engine) where
  settle_lem :
      (answer : Answer) (w : Window)
      → let after = settle js answer w in
        (after.current_step ≡ result)
        × (after.result_message ≡ (outcome_of js answer).message)
        × (after.log
            ≡ notify_read_cache_rebuilt
              ∷ (if is_booked js answer
                  then on_booked w.hall.schedule_id w.selected_seats ∷ w.log
                  else w.log))
        × (after.cancel_hidden ≡ true)
        × (after.submit_disabled ≡ false)
        × (after.overlay_shown ≡ w.overlay_shown)
  unfolding settle set_step at_last
  settle_lem answer w = ground arith

  commit_answer-settle :
      (w : Window) (answer : Answer)
      → 0 < w.committing
      → is_queued js answer ≡ false
      → handle js (commit_answer answer) w
        ≡ settle js answer (record w { committing = w.committing - 1 })
  unfolding handle take_commit
  commit_answer-settle w answer waits q = ground arith

  cancel_click-none : (w : Window) → w.cancel_hidden ≡ true → handle js cancel_click w ≡ w
  unfolding handle
  cancel_click-none w hidden = ground arith

  submit_click-close :
      (w : Window) (stored : String)
      → w.current_step ≡ result
      → w.submit_disabled ≡ false
      → w.overlay_shown ≡ true
      → ((handle js (submit_click stored) w).overlay_shown ≡ false)
        × ((handle js (submit_click stored) w).log ≡ w.log)
  unfolding handle submit_at close_from_user
  submit_click-close w stored step on shown = ground arith

  -- Once a commit is answered by anything but a ticket, the last panel shows the message of the
  -- outcome, the caches are told, the page is told the chosen seats just if the answer says OK, the
  -- button for leaving is gone, and a click on the other button closes the window and does no more.
  pub answer_ends :
      (w : Window) (answer : Answer) (stored : String)
      → 0 < w.committing
      → w.overlay_shown ≡ true
      → is_queued js answer ≡ false
      → let after = run js w (commit_answer answer ∷ []) in
        let closed = run js w (commit_answer answer ∷ submit_click stored ∷ []) in
        (after.current_step ≡ result)
        × (after.result_message ≡ (outcome_of js answer).message)
        × (after.log
            ≡ notify_read_cache_rebuilt
              ∷ (if is_booked js answer
                  then on_booked w.hall.schedule_id w.selected_seats ∷ w.log
                  else w.log))
        × (run js w (commit_answer answer ∷ cancel_click ∷ []) ≡ after)
        × (closed.overlay_shown ≡ false)
        × (closed.log ≡ after.log)
  unfolding run
  answer_ends w answer stored waits shown q =
      let settled = settle js answer (record w { committing = w.committing - 1 }) in
      let (step, message, log, hidden, on, still) =
        settle_lem answer (record w { committing = w.committing - 1 }) in
      let (closed, same) = submit_click-close settled stored step on (still ∙ shown) in
      rw (commit_answer-settle w answer waits q)
        (step, message, log, cancel_click-none settled hidden, closed, same)

  waiting : String → Window → Window
  waiting user w =
      emit (request_booking user w.hall.schedule_id w.selected_seats) (record w {
        submit_disabled = true;
        submit_text = "처리 중...";
        committing = w.committing + 1;
      })

  submit_click-waiting :
      (w : Window) (user : String)
      → w.current_step ≡ confirm
      → w.overlay_shown ≡ true
      → w.submit_disabled ≡ false
      → stored_user_id js user ≡ some user
      → handle js (submit_click user) w ≡ waiting user w
  unfolding handle submit_at waiting
  submit_click-waiting w user step shown on known = ground arith

  reselect_click-seat :
      (w : Window)
      → w.current_step ≡ confirm
      → w.overlay_shown ≡ true
      → handle js reselect_click w ≡ set_step js seat w
  unfolding handle shown_at_confirm
  reselect_click-seat w step shown = ground arith

  submit_click-confirm :
      (w : Window) (user : String)
      → w.current_step ≡ seat
      → w.overlay_shown ≡ true
      → w.submit_disabled ≡ false
      → is_empty w.selected_seats ≡ false
      → stored_user_id js user ≡ some user
      → handle js (submit_click user) w ≡ set_step js confirm w
  unfolding handle submit_at
  submit_click-confirm w user step shown on some_seat known = ground arith

  -- While a commit waits, the user goes back and submits the same seats again: two bookings of
  -- them are asked for, and both are waited for.
  pub reselect_asks_twice :
      (w : Window) (user : String)
      → w.current_step ≡ confirm
      → w.overlay_shown ≡ true
      → w.submit_disabled ≡ false
      → is_empty w.selected_seats ≡ false
      → stored_user_id js user ≡ some user
      → let after =
          run js w
            (submit_click user ∷ reselect_click ∷ submit_click user ∷ submit_click user ∷ []) in
        (after.log
          ≡ request_booking user w.hall.schedule_id w.selected_seats
            ∷ request_booking user w.hall.schedule_id w.selected_seats
            ∷ w.log)
        × (after.committing ≡ w.committing + 2)
  unfolding run waiting set_step
  reselect_asks_twice w user step shown on some_seat known =
      let first = submit_click-waiting w user step shown on known in
      let second = reselect_click-seat (waiting user w) step shown in
      let back = set_step js seat (waiting user w) in
      let third = submit_click-confirm back user refl shown some_seat some_seat known in
      let fourth =
        submit_click-waiting (set_step js confirm back) user refl shown some_seat known in
      rw (first, second, third, fourth) (refl, omega arith)
