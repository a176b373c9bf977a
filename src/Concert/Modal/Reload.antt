-- ===== src/Concert/Modal/Reload.antt =====
-- The page is reloaded only after a booking of this window has succeeded.
use soldesk.Prelude.{◌≡◌, refl, List, [], ◌∷◌, Bool, true, false, ◌||◌, not, arith}
use soldesk.Js.Value.{Engine}
use soldesk.Concert.Modal.{
  Venue, Modal, Effect, on_booked, reload, set_step, update_summary, open_modal,
}
use soldesk.Concert.Modal.Grid.{jump}
use soldesk.Concert.Modal.Events.{
  Event, seat_click, settle, settle_failure, handle, run, close_from_user, press_key, submit,
  submit_at, at_last, take_commit, handle_seat_click, at_seat, at_confirm, on_seat_panel, turn_page,
  ask_login,
}

-- A log that holds the report of a booking.
abbrev pub has_booked : List Effect → Bool
has_booked [] = false
has_booked (on_booked _ _ ∷ log) = true
has_booked (_ ∷ log) = has_booked log

-- Before each reload (the newest effect stands first) there is a report of a booking.
abbrev pub Earned : List Effect → Type 0
Earned [] = Unit {0}
Earned (reload ∷ log) = (has_booked log ≡ true) × Earned log
Earned (_ ∷ log) = Earned log

record IsEarned (m : Modal) : Type 0 where
  earned : Earned m.log
  marked : (not m.booking_succeeded || has_booked m.log) ≡ true

module _ (js : Engine) where
  handle-IsEarned : (e : Event) {m : Modal} → IsEarned m → IsEarned (handle js e m)
  unfolding handle on_seat_panel at_seat at_confirm turn_page jump handle_seat_click update_summary
      submit submit_at set_step ask_login settle at_last settle_failure take_commit press_key
      close_from_user
  handle-IsEarned (seat_click key) v = ground arith
  handle-IsEarned e v = ground arith

  run-IsEarned : (es : List Event) {m : Modal} → IsEarned m → IsEarned (run js m es)
  unfolding run
  run-IsEarned [] v = v
  run-IsEarned (e ∷ es) v = run-IsEarned es (handle-IsEarned e v)

  -- Whatever happens in an open window, each reload of the page that it asked for came after its
  -- report of a booking.
  pub run-Earned : (venue : Venue) (es : List Event) → Earned (run js (open_modal js venue) es).log
  unfolding open_modal
  run-Earned venue es =
      (run-IsEarned es {m = open_modal js venue} (record { earned = tt; marked = refl })).earned
