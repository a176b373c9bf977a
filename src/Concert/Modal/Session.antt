-- ===== src/Concert/Modal/Session.antt =====
-- The invariant of an open window: it holds after any events, answers in between included.
use soldesk.Prelude.{
  sym, ◌∙◌, length, max, ◌≡◌, refl, String, List, [], ◌∷◌, Option, false, ◌&&◌, not, leb, ◌==◌,
  is_empty, All, arith,
}
use soldesk.Js.TextSet.{has}
use soldesk.Js.Value.{Engine, Value}
use soldesk.Concert.Modal.{
  Show, venue_of, Venue, Modal, seat, confirm, alert, update_summary, set_step, open_modal,
}
use soldesk.Concert.Modal.Grid.{
  shown_keys, is_large, total_pages, pick_row, row_prev, row_next, seat_prev, seat_next, jump,
}
use soldesk.Concert.Modal.Pages.{IsVenue, IsPaged, IsSeat, shown_keys-IsSeat}
use soldesk.Concert.Modal.Choice.{IsFree, IsChoice}
use soldesk.Selection.{add-IsSelection, delete-IsSelection}
use soldesk.Concert.Modal.Bounds.{
  pick_row-IsPaged, row_prev-IsPaged, row_next-IsPaged, seat_prev-IsPaged, seat_next-IsPaged,
}
use soldesk.Concert.Modal.Events.{
  Event, seat_click, row_click, row_prev_click, row_next_click, seat_prev_click, seat_next_click,
  jump_click, submit_click, reselect_click, close_click, cancel_click, backdrop_click, key_down,
  commit_answer, poll_answer, commit_failure, poll_failure, stored_user_id, handle_seat_click,
  close_from_user, ask_login, submit, submit_at, at_seat, at_confirm, at_last, settle,
  settle_failure, take_commit, press_key, turn_page, on_seat_panel, handle, run,
}
use soldesk.Concert.Modal.Sound.{
  IsSound, IsOrder, seat≢confirm, stored_user_id-IsUserId, if_IsSound, at_seat-IsSound,
  at_confirm-IsSound, emit-IsSound, set_step-IsSound_seat, same-IsSound, close_from_user-IsSound,
  submit_at-IsSound, settle-IsSound, settle_failure-IsSound, take_commit-IsSound, press_key-IsSound,
}
use soldesk.Concert.Modal.Turns.{turn-IsSound, jump-IsSound}

module _ (js : Engine) where
  update_summary-IsSound :
      (m : Modal)
      → IsChoice m.venue m.selected_seats
      → IsPaged m.venue m.paging
      → (m.current_step ≡ confirm → is_empty m.selected_seats ≡ false)
      → All (IsOrder js m.venue) m.log
      → IsSound js (update_summary js m)
  unfolding update_summary
  update_summary-IsSound m a b c d = record {
    choice = a;
    paged = b;
    summed = refl;
    chosen = c;
    asked = d;
  }

  handle_seat_click-IsSound :
      (key : String) {m : Modal}
      → IsSeat m.venue key
      → m.current_step ≡ seat
      → IsSound js m
      → IsSound js (handle_seat_click js key m)
  unfolding handle_seat_click
  handle_seat_click-IsSound key {m} s step v =
      let later : m.current_step ≡ confirm → ⊥ = λ e. seat≢confirm (sym step ∙ e) in
      if_IsSound js (has key m.venue.reserved_seats) (λ _. v)
        (λ open_seat.
          if_IsSound js (has key m.selected_seats)
            (λ chosen.
              update_summary-IsSound _
                (delete-IsSelection (IsFree m.venue) (max 1 m.venue.remain_count) key
                  m.selected_seats v.choice chosen)
                v.paged (λ e. absurd (later e)) v.asked)
            (λ new.
              if_IsSound js (leb (max 1 m.venue.remain_count) (length m.selected_seats))
                (λ _. emit-IsSound js (alert _) tt v)
                (λ room.
                  update_summary-IsSound _
                    (add-IsSelection (IsFree m.venue) (max 1 m.venue.remain_count) key
                      m.selected_seats v.choice (open_seat, s) new room)
                    v.paged (λ e. absurd (later e)) v.asked)))

  -- Every handler keeps the invariant.
  handle-IsSound :
      (e : Event) {m : Modal} → IsVenue m.venue → IsSound js m → IsSound js (handle js e m)
  unfolding handle submit
  handle-IsSound (seat_click key) {m} h v =
      if_IsSound js (m.overlay_shown && has key (shown_keys m.venue m.paging))
        (λ there.
          at_seat-IsSound js m.current_step
            (λ step.
              handle_seat_click-IsSound key
                (shown_keys-IsSeat m.venue m.paging key h v.paged (ground arith)) step v)
            v)
        (λ _. v)
  handle-IsSound (row_click row) {m} h v =
      turn-IsSound js (λ v p. pick_row v row p) m (λ v p. pick_row-IsPaged v row p) v
  handle-IsSound row_prev_click {m} h v = turn-IsSound js row_prev m row_prev-IsPaged v
  handle-IsSound row_next_click {m} h v = turn-IsSound js row_next m row_next-IsPaged v
  handle-IsSound seat_prev_click {m} h v = turn-IsSound js seat_prev m seat_prev-IsPaged v
  handle-IsSound seat_next_click {m} h v = turn-IsSound js seat_next m seat_next-IsPaged v
  handle-IsSound (jump_click typed) {m} h v =
      if_IsSound js m.overlay_shown
        (λ _.
          at_seat-IsSound js m.current_step
            (λ _. if_IsSound js (is_large m.venue) (λ _. jump-IsSound js typed m v) (λ _. v)) v)
        (λ _. v)
  handle-IsSound (submit_click stored) {m} h v =
      if_IsSound js (m.overlay_shown && not m.submit_disabled)
        (λ _.
          submit_at-IsSound js m.current_step (stored_user_id js stored) m refl
            (λ u e. stored_user_id-IsUserId js stored u e) v)
        (λ _. v)
  handle-IsSound reselect_click {m} h v =
      if_IsSound js m.overlay_shown
        (λ _.
          at_confirm-IsSound js m.current_step
            (set_step-IsSound_seat js (same-IsSound js {m = m} refl refl refl refl refl refl v)) v)
        (λ _. v)
  handle-IsSound close_click {m} h v =
      if_IsSound js m.overlay_shown (λ _. close_from_user-IsSound js v) (λ _. v)
  handle-IsSound cancel_click {m} h v =
      if_IsSound js m.overlay_shown (λ _. close_from_user-IsSound js v) (λ _. v)
  handle-IsSound backdrop_click {m} h v =
      if_IsSound js m.overlay_shown (λ _. close_from_user-IsSound js v) (λ _. v)
  handle-IsSound (key_down escape) h v = press_key-IsSound js escape v
  handle-IsSound (commit_answer answer) {m} h v =
      if_IsSound js (m.committing == 0) (λ _. v) (λ _. take_commit-IsSound js answer v)
  handle-IsSound (poll_answer answer) {m} h v =
      if_IsSound js (m.polling == 0) (λ _. v)
        (λ _. settle-IsSound js answer (same-IsSound js {m = m} refl refl refl refl refl refl v))
  handle-IsSound (commit_failure e) {m} h v =
      if_IsSound js (m.committing == 0) (λ _. v)
        (λ _. settle_failure-IsSound js e (same-IsSound js {m = m} refl refl refl refl refl refl v))
  handle-IsSound (poll_failure e) {m} h v =
      if_IsSound js (m.polling == 0) (λ _. v)
        (λ _. settle_failure-IsSound js e (same-IsSound js {m = m} refl refl refl refl refl refl v))

  handle-venue : (e : Event) (m : Modal) → (handle js e m).venue ≡ m.venue
  unfolding handle on_seat_panel at_seat at_confirm turn_page jump handle_seat_click update_summary
      submit submit_at set_step ask_login settle at_last settle_failure take_commit press_key
      close_from_user
  handle-venue (seat_click key) m = ground arith
  handle-venue e m = ground arith

  -- From an open window on, through any events, in any order.
  pub run-IsSound :
      (es : List Event) {m : Modal}
      → IsVenue m.venue
      → IsSound js m
      → IsSound js (run js m es) × ((run js m es).venue ≡ m.venue)
  unfolding run
  run-IsSound [] h v = (v, refl)
  run-IsSound (e ∷ es) {m} h v =
      let (sound, same) =
        run-IsSound es {m = handle js e m} (rw (handle-venue e m) h) (handle-IsSound e h v) in
      (sound, same ∙ handle-venue e m)

  venue_of-IsVenue :
      (show : Show) (reserved : Option (List Value)) → IsVenue (venue_of js show reserved)
  unfolding venue_of
  venue_of-IsVenue show reserved = record { has_row = omega arith; has_col = omega arith }

  open_modal-venue : (v : Venue) → (open_modal js v).venue ≡ v
  unfolding open_modal
  open_modal-venue v = refl

  open_modal-IsSound : (v : Venue) → IsVenue v → IsSound js (open_modal js v)
  unfolding open_modal total_pages
  open_modal-IsSound v h = record {
    choice = record { distinct = tt; free = tt; bounded = omega arith };
    paged = record {
      row_from = omega arith;
      row_to = h.has_row;
      col_page_from = omega arith;
      col_page_to = omega arith;
      row_page_from = omega arith;
      row_page_to = omega arith;
    };
    summed = unfold open_modal update_summary set_step in refl;
    chosen = λ e. cc;
    asked = tt;
  }

  -- Whatever the services say of a show and whatever happens in the window opened on it, the
  -- chosen seats are distinct free seats of the hall and no more than are left (or one, if none
  -- is), the pages stand within the hall, the summary is that of the choice, the second panel never
  -- comes without a choice, and each booking asked for so far is for a user id of digits, the show
  -- of the window and at least one such seat; the constants of the window stay as they were.
  pub run-open_modal-IsSound :
      (show : Show) (reserved : Option (List Value)) (es : List Event)
      → let venue = venue_of js show reserved in
        IsSound js (run js (open_modal js venue) es)
        × ((run js (open_modal js venue) es).venue ≡ venue)
  run-open_modal-IsSound show reserved es =
      let venue = venue_of js show reserved in
      let h = venue_of-IsVenue show reserved in
      let (sound, same) =
        run-IsSound es {m = open_modal js venue} (rw (open_modal-venue venue) h)
          (open_modal-IsSound venue h) in
      (sound, same ∙ open_modal-venue venue)
