-- ===== src/Concert/Modal/Events.antt =====
-- The handlers of the window, one for each event, and what they do in a row. Answers to requests
-- are events: a submission waits for the commit (`committing`), then perhaps for the end of the
-- polling (`polling`), and the user goes on clicking in between.
use Prim.Native.String.{[], ◌∷◌}
use soldesk.Prelude.{
  ℕ, ◌+◌, ◌-◌, max, code, String, List, Option, none, some, Bool, true, false, ◌&&◌, not, ◌==◌, leb,
  ◌===◌, if◌then◌else◌, length, is_empty,
}
use soldesk.Js.TextSet.{has, add, delete}
use soldesk.Js.Value.{Engine, Value, is_positive}
use soldesk.Concert.Modal.{
  Modal, Step, seat, confirm, result, alert, open_login_page, request_booking, on_booked, reload,
  emit, update_summary, set_step,
}
use soldesk.Concert.Modal.Grid.{
  shown_keys, is_large, pick_row, row_prev, row_next, seat_prev, seat_next, jump,
}
use soldesk.Concert.Modal.Outcome.{is_queued, is_booked, outcome_of, outcome_of_failure}
use soldesk.WriteApi.{Answer, Failure}

pub data Event : Type 0 where
  seat_click : String → Event
  row_click : ℕ → Event
  row_prev_click row_next_click seat_prev_click seat_next_click : Event
  jump_click : Value → Event
  -- the raw text of the stored user id stands in the event
  submit_click : String → Event
  reselect_click close_click cancel_click backdrop_click : Event
  -- a key is pressed; is it Escape?
  key_down : Bool → Event
  commit_answer poll_answer : Answer → Event
  commit_failure poll_failure : Failure → Event

-- `/^\d+$/`
unfoldable pub all_digits : String → Bool
all_digits [] = true
all_digits (c ∷ s) = leb b'0' (code c) && leb (code c) b'9' && all_digits s

-- `currentStep === 2 ? '확인' : submitButton.textContent`
unfoldable pub last_text : Step → String → String
last_text confirm shown = "확인"
last_text seat shown = shown
last_text result shown = shown

-- A hidden panel takes no click: the step that shows the panel, what its handler gives, the window.
unfoldable pub at_seat : Step → Modal → Modal → Modal
at_seat seat handled m = handled
at_seat confirm handled m = m
at_seat result handled m = m

unfoldable pub at_confirm : Step → Modal → Modal → Modal
at_confirm seat handled m = m
at_confirm confirm handled m = handled
at_confirm result handled m = m

module _ (js : Engine) where
  -- `getStoredUserId`, of the raw text in the storage; `none` is the empty text.
  unfoldable pub stored_user_id : String → Option String
  unfolding all_digits
  stored_user_id stored =
      let raw = js.trim stored in
      if not (raw === "") && all_digits raw && is_positive (js.read raw) then some raw else none

  -- `handleSeatClick`, at a seat that the grid shows
  unfoldable pub handle_seat_click : String → Modal → Modal
  handle_seat_click key m =
      if has key m.venue.reserved_seats
      then m
      else if has key m.selected_seats
      then update_summary js (record m { selected_seats = delete key m.selected_seats })
      else if leb (max 1 m.venue.remain_count) (length m.selected_seats)
      then emit (alert "선택 가능한 좌석 수를 초과했습니다.") m
      else update_summary js (record m { selected_seats = add key m.selected_seats })

  -- `closeModalFromUser(bookingSucceeded)`
  unfoldable pub close_from_user : Modal → Modal
  close_from_user m =
      let closed = record m { overlay_shown = false } in
      if m.booking_succeeded then emit reload closed else closed

  unfoldable pub ask_login : Modal → Modal
  ask_login m = emit open_login_page (emit (alert "로그인이 필요합니다.") m)

  -- The click on the button below the panels, up to its first wait: by the step and the user.
  unfoldable pub submit_at : Step → Option String → Modal → Modal
  unfolding ask_login
  submit_at seat user m =
      if is_empty m.selected_seats
      then emit (alert "좌석을 먼저 선택해주세요.") m
      else elim user [ none ↦ ask_login m | some user_id ↦ set_step js confirm m ]
  submit_at confirm none m = ask_login m
  submit_at confirm (some user_id) m =
      emit (request_booking user_id m.venue.show_id m.selected_seats) (record m {
        submit_disabled = true;
        submit_text = "처리 중...";
        committing = m.committing + 1;
      })
  submit_at result user m = close_from_user m

  unfoldable pub submit : Option String → Modal → Modal
  unfolding submit_at
  submit user m = submit_at m.current_step user m

  -- The `finally` block.
  unfoldable pub at_last : Modal → Modal
  unfolding last_text
  at_last m = record m {
    submit_disabled = false;
    submit_text = last_text m.current_step m.submit_text;
  }

  -- The end of a submission with an answer: the branches over `result`, `setStep(3)`, `finally`.
  unfoldable pub settle : Answer → Modal → Modal
  unfolding at_last
  settle answer m =
      let told = record m { last_result = some (outcome_of js answer) } in
      let reported =
        if is_booked js answer
        then emit (on_booked m.venue.show_id m.selected_seats)
            (record told { booking_succeeded = true })
        else told in
      at_last (set_step js result reported)

  unfoldable pub settle_failure : Failure → Modal → Modal
  unfolding at_last
  settle_failure e m =
      at_last (set_step js result (record m { last_result = some (outcome_of_failure js e) }))

  -- The answer to the commit: the end, or the ticket with which the polling begins.
  unfoldable pub take_commit : Answer → Modal → Modal
  take_commit answer m =
      let waited = record m { committing = m.committing - 1 } in
      if is_queued js answer
      then record waited { polling = m.polling + 1; submit_text = "예매 처리 중…" }
      else settle answer waited

  -- The first key pressed takes the listener away, whichever key it is (`{ once: true }`).
  unfoldable pub press_key : Bool → Modal → Modal
  press_key escape m =
      let heard = record m { key_listener = false } in
      if m.key_listener then (if escape then close_from_user heard else heard) else m

  unfoldable pub turn_page : (Modal → Modal) → Modal → Modal
  turn_page f m = if is_large m.venue then f m else m

  unfoldable pub on_seat_panel : (Modal → Modal) → Modal → Modal
  unfolding at_seat
  on_seat_panel f m = at_seat m.current_step (f m) m

  -- What a click needs: the window is in the document, its panel is not hidden, its button enabled.
  unfoldable pub handle : Event → Modal → Modal
  unfolding turn_page on_seat_panel at_confirm
  handle (seat_click key) m =
      if m.overlay_shown && has key (shown_keys m.venue m.paging)
      then on_seat_panel (handle_seat_click key) m
      else m
  handle (row_click row) m =
      if m.overlay_shown
      then on_seat_panel (turn_page (λ w. record w { paging = pick_row w.venue row w.paging })) m
      else m
  handle row_prev_click m =
      if m.overlay_shown
      then on_seat_panel (turn_page (λ w. record w { paging = row_prev w.venue w.paging })) m
      else m
  handle row_next_click m =
      if m.overlay_shown
      then on_seat_panel (turn_page (λ w. record w { paging = row_next w.venue w.paging })) m
      else m
  handle seat_prev_click m =
      if m.overlay_shown
      then on_seat_panel (turn_page (λ w. record w { paging = seat_prev w.venue w.paging })) m
      else m
  handle seat_next_click m =
      if m.overlay_shown
      then on_seat_panel (turn_page (λ w. record w { paging = seat_next w.venue w.paging })) m
      else m
  handle (jump_click typed) m =
      if m.overlay_shown then on_seat_panel (turn_page (jump js typed)) m else m
  handle (submit_click stored) m =
      if m.overlay_shown && not m.submit_disabled then submit (stored_user_id stored) m else m
  handle reselect_click m =
      if m.overlay_shown
      then at_confirm m.current_step (set_step js seat (record m { booking_succeeded = false })) m
      else m
  handle close_click m = if m.overlay_shown then close_from_user m else m
  handle cancel_click m = if m.overlay_shown then close_from_user m else m
  handle backdrop_click m = if m.overlay_shown then close_from_user m else m
  handle (key_down escape) m = press_key escape m
  handle (commit_answer answer) m = if m.committing == 0 then m else take_commit answer m
  handle (poll_answer answer) m =
      if m.polling == 0 then m else settle answer (record m { polling = m.polling - 1 })
  handle (commit_failure e) m =
      if m.committing == 0 then m else settle_failure e (record m { committing = m.committing - 1 })
  handle (poll_failure e) m =
      if m.polling == 0 then m else settle_failure e (record m { polling = m.polling - 1 })

  -- A session: the events in their order.
  unfoldable pub run : Modal → List Event → Modal
  unfolding handle
  run m List.[] = m
  run m (List.◌∷◌ e es) = run (handle e m) es
