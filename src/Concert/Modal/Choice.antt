-- ===== src/Concert/Modal/Choice.antt =====
-- What the list of chosen seats is at any time, and that the clicks on seats keep it so.
use soldesk.Prelude.{
  refl, max, ◌≡◌, String, List, true, false, if◌then◌else◌, leb, length, ===_iff, ◌<◌, arith,
}
use soldesk.Js.TextSet.{has, add, delete, has-add, delete-add, delete-add, has-add}
use soldesk.Selection.{IsSelection}
use soldesk.Js.Value.{Engine}
use soldesk.Concert.Modal.{Venue, Modal, update_summary}
use soldesk.Concert.Modal.Pages.{IsSeat}
use soldesk.Concert.Modal.Events.{handle_seat_click}

-- A seat that may be chosen: a seat of the hall that is not reserved.
abbrev pub IsFree : Venue → String → Type 0
IsFree v key = (has key v.reserved_seats ≡ false) × IsSeat v key

-- The chosen seats are free seats of the hall, none twice, and no more than are left.
abbrev pub IsChoice : Venue → List String → Type 0
IsChoice v selected = IsSelection (IsFree v) (max 1 v.remain_count) selected

-- The effect of a click on the list of chosen seats.
choose : Venue → String → List String → List String
choose v key xs =
    if has key v.reserved_seats
    then xs
    else if has key xs
    then delete key xs
    else if leb (max 1 v.remain_count) (length xs)
    then xs
    else add key xs

choose_twice :
    (v : Venue) (key : String) (xs : List String)
    → has key v.reserved_seats ≡ false
    → has key xs ≡ false
    → leb (max 1 v.remain_count) (length xs) ≡ false
    → (has key (choose v key xs) ≡ true) × (choose v key (choose v key xs) ≡ xs)
unfolding choose
choose_twice v key xs open_seat new room =
    let added : has key (add key xs) ≡ true = ground (arith, has-add key key xs, ===_iff key key) in
    (rw (open_seat, new, room) added, rw (open_seat, new, room, added) (delete-add key xs new))

module _ (js : Engine) where
  -- `updateSummary` leaves the choice and the constants alone.
  pub update_summary-choice :
      (m : Modal)
      → ((update_summary js m).venue ≡ m.venue)
        × ((update_summary js m).selected_seats ≡ m.selected_seats)
  unfolding update_summary
  update_summary-choice m = (refl, refl)

  -- The choice and the constants after a click.
  handle_seat_click-choose :
      (key : String) (m : Modal)
      → ((handle_seat_click js key m).venue ≡ m.venue)
        × ((handle_seat_click js key m).selected_seats ≡ choose m.venue key m.selected_seats)
  unfolding handle_seat_click choose
  handle_seat_click-choose key m = ground (
    arith,
    update_summary-choice (record m { selected_seats = delete key m.selected_seats }),
    update_summary-choice (record m { selected_seats = add key m.selected_seats }),
  )

  -- A click on a free seat, while there is room, chooses it, and a second click gives it back.
  pub handle_seat_click_twice :
      (key : String) (m : Modal)
      → has key m.venue.reserved_seats ≡ false
      → has key m.selected_seats ≡ false
      → length m.selected_seats < max 1 m.venue.remain_count
      → (has key (handle_seat_click js key m).selected_seats ≡ true)
        × ((handle_seat_click js key (handle_seat_click js key m)).selected_seats
            ≡ m.selected_seats)
  handle_seat_click_twice key m open_seat new room =
      let once = handle_seat_click-choose key m in
      let twice = handle_seat_click-choose key (handle_seat_click js key m) in
      rw (twice.1, once.0, once.1)
        (choose_twice m.venue key m.selected_seats open_seat new (ground arith))
