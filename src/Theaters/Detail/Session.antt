-- ===== src/Theaters/Detail/Session.antt =====
-- The invariant of the window of a screening holds after any events, answers in between included.
use soldesk.Prelude.{◌≡◌, refl, ◌∙◌, List, [], ◌∷◌, ◌&&◌, not, ◌==◌, arith}
use soldesk.Js.TextSet.{has}
use soldesk.Js.Value.{Engine}
use soldesk.Concert.Modal.Sound.{stored_user_id-IsUserId}
use soldesk.Concert.Modal.Events.{stored_user_id}
use soldesk.Theaters.Detail.{Hall, Window, grid_keys, update_summary, set_step, open_window}
use soldesk.Theaters.Detail.Events.{
  Event, seat_click, submit_click, reselect_click, close_click, cancel_click, backdrop_click,
  key_down, commit_answer, poll_answer, commit_failure, poll_failure, handle_seat_click,
  close_from_user, submit_at, at_last, settle, settle_failure, take_commit, press_key, handle, run,
}
use soldesk.Theaters.Detail.Sound.{
  IsSound, if_IsSound, same-IsSound, handle_seat_click-IsSound, submit_at-IsSound, settle-IsSound,
  settle_failure-IsSound, take_commit-IsSound, close-IsSound, press_key-IsSound,
  shown_at_seat-IsSound, shown_at_confirm-IsSound, set_step-IsSound_seat,
}

module _ (js : Engine) where
  handle-IsSound : (e : Event) {w : Window} → IsSound js w → IsSound js (handle js e w)
  unfolding handle
  handle-IsSound (seat_click key) {w} v =
      if_IsSound js (w.overlay_shown && has key (grid_keys w.hall))
        (λ there.
          shown_at_seat-IsSound js w.current_step
            (λ step. handle_seat_click-IsSound js key (ground arith) step v) v)
        (λ _. v)
  handle-IsSound (submit_click stored) {w} v =
      if_IsSound js (w.overlay_shown && not w.submit_disabled)
        (λ _.
          submit_at-IsSound js w.current_step (stored_user_id js stored) refl
            (λ u e. stored_user_id-IsUserId js stored u e) v)
        (λ _. v)
  handle-IsSound reselect_click {w} v =
      if_IsSound js w.overlay_shown
        (λ _. shown_at_confirm-IsSound js w.current_step (set_step-IsSound_seat js v) v) (λ _. v)
  handle-IsSound close_click {w} v =
      if_IsSound js w.overlay_shown (λ _. close-IsSound js v) (λ _. v)
  handle-IsSound cancel_click {w} v =
      if_IsSound js (w.overlay_shown && not w.cancel_hidden) (λ _. close-IsSound js v) (λ _. v)
  handle-IsSound backdrop_click {w} v =
      if_IsSound js w.overlay_shown (λ _. close-IsSound js v) (λ _. v)
  handle-IsSound (key_down escape) v = press_key-IsSound js escape v
  handle-IsSound (commit_answer answer) {w} v =
      if_IsSound js (w.committing == 0) (λ _. v) (λ _. take_commit-IsSound js answer v)
  handle-IsSound (poll_answer answer) {w} v =
      if_IsSound js (w.polling == 0) (λ _. v)
        (λ _. settle-IsSound js answer (same-IsSound js {w = w} refl refl refl (λ h. h) refl v))
  handle-IsSound (commit_failure e) {w} v =
      if_IsSound js (w.committing == 0) (λ _. v)
        (λ _. settle_failure-IsSound js e (same-IsSound js {w = w} refl refl refl (λ h. h) refl v))
  handle-IsSound (poll_failure e) {w} v =
      if_IsSound js (w.polling == 0) (λ _. v)
        (λ _. settle_failure-IsSound js e (same-IsSound js {w = w} refl refl refl (λ h. h) refl v))

  handle-hall : (e : Event) (w : Window) → (handle js e w).hall ≡ w.hall
  unfolding handle handle_seat_click update_summary submit_at set_step settle at_last settle_failure
      take_commit press_key close_from_user
  handle-hall e w = ground arith

  run-IsSound :
      (es : List Event) {w : Window}
      → IsSound js w
      → IsSound js (run js w es) × ((run js w es).hall ≡ w.hall)
  unfolding run
  run-IsSound [] v = (v, refl)
  run-IsSound (e ∷ es) {w} v =
      let (sound, same) = run-IsSound es {w = handle js e w} (handle-IsSound e v) in
      (sound, same ∙ handle-hall e w)

  open_window-IsSound : (hall : Hall) → IsSound js (open_window js hall)
  unfolding open_window
  open_window-IsSound hall = record {
    choice = record { distinct = tt; free = tt; bounded = omega arith };
    summed = unfold open_window update_summary set_step in refl;
    chosen = λ e. cc;
    asked = tt;
  }

  open_window-hall : (hall : Hall) → (open_window js hall).hall ≡ hall
  unfolding open_window
  open_window-hall hall = refl

  -- Whatever happens in the window opened on a screening, the chosen seats are distinct seats of
  -- its grid that are not reserved and no more than are left (or one, if none is), the summary is
  -- that of the choice, the second panel never comes without a choice, and each booking asked for
  -- so far is for a user id of digits, the screening of the window and at least one such seat; the
  -- constants of the window stay as they were.
  pub run-open_window-IsSound :
      (hall : Hall) (es : List Event)
      → IsSound js (run js (open_window js hall) es)
        × ((run js (open_window js hall) es).hall ≡ hall)
  run-open_window-IsSound hall es =
      let (sound, same) = run-IsSound es {w = open_window js hall} (open_window-IsSound hall) in
      (sound, same ∙ open_window-hall hall)
