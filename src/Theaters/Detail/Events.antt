-- ===== src/Theaters/Detail/Events.antt =====
-- The handlers of the window of a screening, one for each event, and what they do in a row; answers
-- to requests are events.
use soldesk.Prelude.{
  ◌+◌, ◌-◌, max, String, List, [], ◌∷◌, Option, none, some, Bool, true, false, ◌&&◌, not, ◌==◌, leb,
  if◌then◌else◌, length, is_empty,
}
use soldesk.Js.TextSet.{has, add, delete}
use soldesk.Js.Value.{Engine}
use soldesk.WriteApi.{Answer, Failure}
use soldesk.Concert.Modal.{Step, seat, confirm, result}
use soldesk.Concert.Modal.Outcome.{is_queued, is_booked}
use soldesk.Concert.Modal.Events.{stored_user_id, last_text}
use soldesk.Theaters.Detail.{
  Window, alert, open_login_page, notify_read_cache_rebuilt, request_booking, on_booked, emit,
  grid_keys, update_summary, set_step,
}
use soldesk.Theaters.Detail.Outcome.{outcome_of, outcome_of_failure}

pub data Event : Type 0 where
  seat_click submit_click : String → Event
  reselect_click close_click cancel_click backdrop_click : Event
  key_down : Bool → Event
  commit_answer poll_answer : Answer → Event
  commit_failure poll_failure : Failure → Event

module _ (js : Engine) where
  -- `handleSeatClick`, at a seat that the grid shows
  unfoldable pub handle_seat_click : String → Window → Window
  handle_seat_click key w =
      if has key w.hall.reserved_seats
      then w
      else if has key w.selected_seats
      then update_summary js (record w { selected_seats = delete key w.selected_seats })
      else if leb (max 1 w.hall.remain_count) (length w.selected_seats)
      then emit (alert "선택 가능한 좌석 수를 초과했습니다.") w
      else update_summary js (record w { selected_seats = add key w.selected_seats })

  -- `closeModalFromUser`
  unfoldable pub close_from_user : Window → Window
  close_from_user w = record w { overlay_shown = false }

  ask_login : Window → Window
  ask_login w = emit open_login_page (emit (alert "로그인이 필요합니다.") w)

  -- The click on the button below the panels, up to its first wait: by the step and the user.
  unfoldable pub submit_at : Step → Option String → Window → Window
  unfolding ask_login
  submit_at seat user w =
      if is_empty w.selected_seats
      then emit (alert "좌석을 먼저 선택해주세요.") w
      else elim user [ none ↦ ask_login w | some user_id ↦ set_step js confirm w ]
  submit_at confirm none w = ask_login w
  submit_at confirm (some user_id) w =
      emit (request_booking user_id w.hall.schedule_id w.selected_seats) (record w {
        submit_disabled = true;
        submit_text = "처리 중...";
        committing = w.committing + 1;
      })
  submit_at result user w = close_from_user w

  -- The `finally` block.
  unfoldable pub at_last : Window → Window
  at_last w = record w {
    submit_disabled = false;
    submit_text = last_text w.current_step w.submit_text;
  }

  -- The end of a submission with an answer, and with an error.
  unfoldable pub settle : Answer → Window → Window
  unfolding at_last
  settle answer w =
      let told = record w { last_result = some (outcome_of js answer) } in
      let reported =
        if is_booked js answer
        then emit (on_booked w.hall.schedule_id w.selected_seats) told
        else told in
      at_last (set_step js result (emit notify_read_cache_rebuilt reported))

  unfoldable pub settle_failure : Failure → Window → Window
  unfolding at_last
  settle_failure e w =
      at_last (set_step js result (record w { last_result = some (outcome_of_failure js e) }))

  unfoldable pub take_commit : Answer → Window → Window
  take_commit answer w =
      let waited = record w { committing = w.committing - 1 } in
      if is_queued js answer
      then record waited { polling = w.polling + 1; submit_text = "예매 처리 중…" }
      else settle answer waited

  -- The first key pressed takes the listener away, whichever key it is (`{ once: true }`).
  unfoldable pub press_key : Bool → Window → Window
  press_key escape w =
      let heard = record w { key_listener = false } in
      if w.key_listener then (if escape then close_from_user heard else heard) else w

  unfoldable pub shown_at_seat : Step → Window → Window → Window
  shown_at_seat seat handled w = handled
  shown_at_seat confirm handled w = w
  shown_at_seat result handled w = w

  unfoldable pub shown_at_confirm : Step → Window → Window → Window
  shown_at_confirm seat handled w = w
  shown_at_confirm confirm handled w = handled
  shown_at_confirm result handled w = w

  -- What a click needs: the window is in the document, its panel and its button are not hidden,
  -- its button enabled.
  unfoldable pub handle : Event → Window → Window
  unfolding shown_at_seat shown_at_confirm
  handle (seat_click key) w =
      if w.overlay_shown && has key (grid_keys w.hall)
      then shown_at_seat w.current_step (handle_seat_click key w) w
      else w
  handle (submit_click stored) w =
      if w.overlay_shown && not w.submit_disabled
      then submit_at w.current_step (stored_user_id js stored) w
      else w
  handle reselect_click w =
      if w.overlay_shown then shown_at_confirm w.current_step (set_step js seat w) w else w
  handle close_click w = if w.overlay_shown then close_from_user w else w
  handle cancel_click w = if w.overlay_shown && not w.cancel_hidden then close_from_user w else w
  handle backdrop_click w = if w.overlay_shown then close_from_user w else w
  handle (key_down escape) w = press_key escape w
  handle (commit_answer answer) w = if w.committing == 0 then w else take_commit answer w
  handle (poll_answer answer) w =
      if w.polling == 0 then w else settle answer (record w { polling = w.polling - 1 })
  handle (commit_failure e) w =
      if w.committing == 0 then w else settle_failure e (record w { committing = w.committing - 1 })
  handle (poll_failure e) w =
      if w.polling == 0 then w else settle_failure e (record w { polling = w.polling - 1 })

  unfoldable pub run : Window → List Event → Window
  unfolding handle
  run w [] = w
  run w (e ∷ es) = run (handle e w) es
