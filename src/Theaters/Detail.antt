-- ===== src/Theaters/Detail.antt =====
-- The booking window of a screening (frontend/src/js/theaters/theaters_detail.js): its constants, its
-- state and its handlers. It is the concert window's older sister: its own grid of ten columns and
-- its own messages, no paging, and no reload of the page.
pub mod Outcome
pub mod Events
pub mod Sound
pub mod Session
pub mod Grid
pub mod Course
use Prim.Native.String
use soldesk.Prelude.{
  ℕ, ◌+◌, ◌-◌, ◌*◌, ◌/◌, max, String, List, [], ◌∷◌, map, Option, none, some, Bool, true, false,
  ◌&&◌, ◌||◌, not, ◌==◌, ◌===◌, leb, if◌then◌else◌, length, is_empty, range_from,
}
use soldesk.Prelude.Int.{pos, pos_part}
use soldesk.Js.Text.{join}
use soldesk.Js.TextSet.{has, add, add_all, delete}
use soldesk.Js.Value.{
  Engine, Value, number, text, whole, or_else, truthy, string_of, number_of, number_is, to_int,
  is_boolean, is_text,
}
use soldesk.WriteApi.{Fields, Answer, no_object, fields, Failure}
use soldesk.Concert.Seat.{create_seat_key, label_of_key}
use soldesk.Concert.Modal.{Step, seat, confirm, result, LastResult, Summary, Confirm}
use soldesk.Concert.Modal.Grid.{all_keys}
use soldesk.Concert.Modal.Outcome.{is_queued, is_booked, success_message, refused}
use soldesk.Concert.Modal.Events.{stored_user_id, last_text, at_seat, at_confirm}

-- The fields of the schedule and of the hall that the window computes with.
pub record Schedule : Type 0 where
  pub schedule_id : Value
  pub remain_count : Value
  pub total_count : Value
  pub price : Value
  pub hall_total_seats : Value

pub record Hall : Type 0 where
  pub schedule_id : Value
  pub remain_count : ℕ
  pub total_count : ℕ
  pub seat_rows : ℕ
  pub price : ℕ
  pub reserved_seats : List String

abbrev pub seat_cols : ℕ
seat_cols = 10

pub data Effect : Type 0 where
  alert : String → Effect
  open_login_page notify_read_cache_rebuilt : Effect
  request_booking : String → Value → List String → Effect
  on_booked : Value → List String → Effect

pub record Window : Type 0 where
  pub hall : Hall
  pub selected_seats : List String
  pub current_step : Step
  pub last_result : Option LastResult
  pub summary : Summary
  pub confirm_panel : Option Confirm
  pub result_message : String
  pub submit_disabled : Bool
  pub submit_text : String
  pub cancel_hidden : Bool
  pub overlay_shown : Bool
  pub key_listener : Bool
  -- submissions that wait for the answer to the commit, and for the end of the polling
  pub committing : ℕ
  pub polling : ℕ
  pub log : List Effect

abbrev pub emit : Effect → Window → Window
emit e w = record w { log = e ∷ w.log }

-- `Math.max(1, Math.ceil(totalCount / seatCols))`
unfoldable pub rows_for : ℕ → ℕ
rows_for total = max 1 ((total + seat_cols - 1) / seat_cols)

-- The keys of the buttons in the grid.
unfoldable pub grid_keys : Hall → List String
grid_keys hall = all_keys (range_from 1 hall.seat_rows) (range_from 1 seat_cols)

module _ (js : Engine) where
  -- `toInt(value || standard)`, a negative one cut to 0
  amount : Value → ℕ → ℕ
  amount v standard = pos_part (to_int js (or_else v (number (whole (pos standard)))))

  unfoldable pub hall_of : Schedule → Option (List Value) → Hall
  unfolding amount
  hall_of schedule reserved =
      let own = amount schedule.total_count 0 in
      let total = if own == 0 then max 1 (amount schedule.hall_total_seats 30) else own in
      record {
        schedule_id = schedule.schedule_id;
        remain_count = amount schedule.remain_count 0;
        total_count = total;
        seat_rows = rows_for total;
        price = amount schedule.price 14000;
        reserved_seats = elim reserved [
          | none ↦ []
          | some values ↦ add_all (map (string_of js) values) []
        ];
      }

  unfoldable pub summary_of : Hall → List String → Summary
  summary_of hall selected = record {
    seats = if is_empty selected then "없음" else join ", " (map (label_of_key js) selected);
    count = length selected;
    price = length selected * hall.price;
    remain = hall.remain_count - length selected;
  }

  step_disabled : Step → Bool → Bool → Bool
  step_disabled seat now before = now
  step_disabled confirm now before = before
  step_disabled result now before = before

  unfoldable pub update_summary : Window → Window
  unfolding step_disabled
  update_summary w = record w {
    summary = summary_of w.hall w.selected_seats;
    submit_disabled = step_disabled w.current_step (is_empty w.selected_seats) w.submit_disabled;
  }

  unfoldable pub update_confirm_panel : Window → Window
  update_confirm_panel w =
      let shown = summary_of w.hall w.selected_seats in
      record w {
        confirm_panel =
            some (record { seats = shown.seats; count = shown.count; price = shown.price });
      }

  unfoldable pub set_step : Step → Window → Window
  unfolding update_confirm_panel
  set_step seat w = record w {
    current_step = seat;
    cancel_hidden = false;
    submit_text = "결제 진행";
    submit_disabled = is_empty w.selected_seats;
  }
  set_step confirm w = update_confirm_panel (record w {
    current_step = confirm;
    cancel_hidden = false;
    submit_text = "확인";
    submit_disabled = is_empty w.selected_seats;
  })
  set_step result w = record w {
    current_step = result;
    cancel_hidden = true;
    submit_text = "닫기";
    submit_disabled = false;
    result_message = elim w.last_result [ none ↦ "" | some r ↦ r.message ];
  }

  unfoldable pub open_window : Hall → Window
  unfolding set_step update_summary
  open_window hall = set_step seat (
      update_summary (record {
        hall = hall;
        selected_seats = [];
        current_step = seat;
        last_result = none;
        summary = summary_of hall [];
        confirm_panel = none;
        result_message = "";
        submit_disabled = false;
        submit_text = "결제 진행";
        cancel_hidden = false;
        overlay_shown = true;
        key_listener = true;
        committing = 0;
        polling = 0;
        log = [];
      }))
