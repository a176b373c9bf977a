-- ===== src/Tests.antt =====
-- Tests: a plain engine, the data that the examples use, and an example for each law.
pub mod Booking
pub mod Seats
pub mod Router
pub mod Theaters
pub mod Dataset
pub mod ConcertPage
pub mod Account
pub mod Catalogue
pub mod History
pub mod Runtime
pub mod Forms
pub mod Home
pub mod BookingPage
pub mod Panel
pub mod Month
use soldesk.Prelude.{ℕ, zero, suc, ◌&&◌, not, ◌===◌, String, List, [], ◌∷◌, if◌then◌else◌, true}
use soldesk.Prelude.Int.{pos, negsuc}
use soldesk.Js.Text.{print}
use soldesk.Js.Text.Decimal.{read_from}
use soldesk.Js.Value.{
  Engine, Number, nan, infinity, ratio, whole, Value, undefined, boolean, text, number,
}
use soldesk.Concert.Modal.Events.{all_digits}
use soldesk.Concert.Modal.{Show, Venue, venue_of}
use soldesk.WriteApi.{Fields, Answer, fields}

unfoldable pub read_number : String → Number
unfolding all_digits read_from
read_number s = if not (s === "") && all_digits s then whole (pos (read_from 0 s)) else nan

unfoldable pub show_number : Number → String
unfolding print
show_number (ratio (pos n) zero) = print n
show_number _ = "NaN"

-- An engine that reads whole numbers in digits, prints them, and leaves texts as they are.
unfoldable pub plain : Engine
unfolding read_number show_number
plain = record {
  read = read_number;
  show = show_number;
  upper = λ s. s;
  lower = λ s. s;
  trim = λ s. s;
}

abbrev pub whole_value : ℕ → Value
whole_value n = number (whole (pos n))

-- A hall of 20 rows of 100 seats, in which four seats are left, and a hall of 2 rows of 3.
abbrev pub large_show : Show
large_show = record {
  show_id = whole_value 7;
  seat_cols = whole_value 100;
  seat_rows = whole_value 20;
  remain_count = whole_value 4;
  hold_count = undefined;
  total_count = undefined;
  price = whole_value 1000;
}

abbrev pub small_show : Show
small_show = record {
  show_id = whole_value 8;
  seat_cols = whole_value 3;
  seat_rows = whole_value 2;
  remain_count = whole_value 4;
  hold_count = undefined;
  total_count = undefined;
  price = whole_value 1000;
}

abbrev pub answer_of : Value → String → String → Fields
answer_of ok code ref = record {
  ok = ok;
  code = text code;
  status = undefined;
  booking_ref = text ref;
  booking_code = text "B1";
  message = undefined;
}

abbrev pub queued_answer : Answer
queued_answer = fields (answer_of (boolean true) "QUEUED" "r1")

abbrev pub ok_answer : Answer
ok_answer = fields (answer_of (boolean true) "OK" "")
