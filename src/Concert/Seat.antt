-- ===== src/Concert/Seat.antt =====
-- Seat keys and labels of the booking windows (frontend/src/js/concert/concert_booking_modal.js).
pub mod Keys
use Prim.Native.String
use soldesk.Prelude.{ℕ, String, List, none, some, if◌then◌else◌, get_elem?}
use soldesk.Prelude.Int.{pos, eqb_ℤ}
use soldesk.Js.Text.{print, split}
use soldesk.Js.Value.{Engine, Value, undefined, text, whole, string_of, to_int}

-- `createSeatKey`
unfoldable pub create_seat_key : ℕ → ℕ → String
create_seat_key row col = String.◌++◌ (print row) (String.◌++◌ "-" (print col))

-- `parts[i]`
unfoldable pub part : List String → ℕ → Value
part parts i = elim (get_elem? parts i) [ none ↦ undefined | some s ↦ text s ]

module _ (js : Engine) where
  -- `createSeatLabel`
  unfoldable pub create_seat_label : Value → Value → String
  create_seat_label row col =
      let row_no = to_int js row in
      let row_label : String =
        if eqb_ℤ row_no (pos 1)
        then "A열"
        else if eqb_ℤ row_no (pos 2)
        then "B열"
        else if eqb_ℤ row_no (pos 3)
        then "C열"
        else String.◌++◌ (js.show (whole row_no)) "열" in
      String.◌++◌ row_label (String.◌++◌ " " (String.◌++◌ (string_of js col) "번"))

  -- The label of a chosen seat, from its key.
  unfoldable pub label_of_key : String → String
  unfolding part create_seat_label
  label_of_key seat_key =
      let parts = split b'-' seat_key in create_seat_label (part parts 0) (part parts 1)
