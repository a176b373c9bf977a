-- ===== src/Concert/Modal.antt =====
-- The concert booking window (frontend/src/js/concert/concert_booking_modal.js): its constants, its
-- state and the functions that every handler shares.
pub mod Grid
pub mod Outcome
pub mod Events
pub mod Pages
pub mod Choice
pub mod Bounds
pub mod Sound
pub mod Turns
pub mod Session
pub mod Flow
pub mod Reload
pub mod Queued
pub mod Messages
use soldesk.Prelude.{
  ℕ, ◌+◌, ◌-◌, ◌*◌, max, String, List, [], ◌∷◌, map, Option, none, some, Bool, true, false, ◌==◌,
  if◌then◌else◌, length, is_empty,
}
use soldesk.Prelude.Int.{ℤ, pos, pos_part}
use soldesk.Js.Text.{join}
use soldesk.Js.TextSet.{add_all}
use soldesk.Js.Value.{Engine, Value, number, whole, is_zero, or_else, string_of, to_int}
use soldesk.Concert.Seat.{label_of_key}

-- The fields of `options.show` that the window computes with.
pub record Show : Type 0 where
  pub show_id : Value
  pub seat_cols : Value
  pub seat_rows : Value
  pub remain_count : Value
  pub hold_count : Value
  pub total_count : Value
  pub price : Value

-- The constants of an open window.
pub record Venue : Type 0 where
  pub show_id : ℤ
  pub seat_cols : ℕ
  pub seat_rows : ℕ
  pub remain_count : ℕ
  pub hold_count : ℕ
  pub total_count : ℕ
  pub price : ℕ
  pub reserved_seats : List String

pub data Step : Type 0 where
  seat confirm result : Step

pub record LastResult : Type 0 where
  pub ok : Bool
  pub message : String

-- What the window shows of the choice.
pub record Summary : Type 0 where
  pub seats : String
  pub count : ℕ
  pub price : ℕ
  pub remain : ℕ

-- What the second panel shows of it.
pub record Confirm : Type 0 where
  pub seats : String
  pub count : ℕ
  pub price : ℕ

-- The pages of the large grid.
pub record Paging : Type 0 where
  pub active_row : ℕ
  pub active_col_page : ℕ
  pub active_row_page : ℕ

-- What the window does to the outside, the newest first in a log.
pub data Effect : Type 0 where
  alert : String → Effect
  open_login_page : Effect
  request_booking : String → ℤ → List String → Effect
  on_booked : ℤ → List String → Effect
  reload : Effect

pub record Modal : Type 0 where
  pub venue : Venue
  pub selected_seats : List String
  pub current_step : Step
  pub last_result : Option LastResult
  pub booking_succeeded : Bool
  pub summary : Summary
  pub confirm_panel : Option Confirm
  pub result_message : String
  pub submit_disabled : Bool
  pub submit_text : String
  pub paging : Paging
  pub overlay_shown : Bool
  pub key_listener : Bool
  -- submissions that wait for the answer to the commit, and for the end of the polling
  pub committing : ℕ
  pub polling : ℕ
  pub log : List Effect

-- `Math.max(1, n || d)`
abbrev pub at_least_one : ℤ → ℕ → ℕ
at_least_one n d = max 1 (if is_zero n then d else pos_part n)

abbrev pub emit : Effect → Modal → Modal
emit e m = record m { log = e ∷ m.log }

-- `if (currentStep === 1) submitButton.disabled = …`
disabled_after : Step → Bool → Bool → Bool
disabled_after seat now before = now
disabled_after confirm now before = before
disabled_after result now before = before

module _ (js : Engine) where
  -- `Math.max(0, toInt(value || 0))`
  count_of : Value → ℕ
  count_of v = pos_part (to_int js (or_else v (number (whole (pos 0)))))

  -- The constants that `openConcertBookingModal` computes; `none` is a list that is no array.
  unfoldable pub venue_of : Show → Option (List Value) → Venue
  unfolding count_of
  venue_of show reserved =
      let cols = at_least_one (to_int js show.seat_cols) 10 in
      let rows = at_least_one (to_int js show.seat_rows) 5 in
      let total = count_of show.total_count in
      record {
        show_id = to_int js show.show_id;
        seat_cols = cols;
        seat_rows = rows;
        remain_count = count_of show.remain_count;
        hold_count = count_of show.hold_count;
        total_count = if total == 0 then rows * cols else total;
        price = count_of show.price;
        reserved_seats = elim reserved [
          | none ↦ []
          | some values ↦ add_all (map (string_of js) values) []
        ];
      }

  unfoldable pub summary_of : Venue → List String → Summary
  summary_of venue selected = record {
    seats = if is_empty selected then "없음" else join ", " (map (label_of_key js) selected);
    count = length selected;
    price = length selected * venue.price;
    remain = venue.remain_count - length selected;
  }

  -- `updateSummary`
  unfoldable pub update_summary : Modal → Modal
  unfolding disabled_after
  update_summary m = record m {
    summary = summary_of m.venue m.selected_seats;
    submit_disabled = disabled_after m.current_step (is_empty m.selected_seats) m.submit_disabled;
  }

  -- `updateConfirmPanel`
  unfoldable pub update_confirm_panel : Modal → Modal
  update_confirm_panel m =
      let shown = summary_of m.venue m.selected_seats in
      record m {
        confirm_panel =
            some (record { seats = shown.seats; count = shown.count; price = shown.price });
      }

  message_of : Option LastResult → String
  message_of none = ""
  message_of (some r) = r.message

  -- `setStep`
  unfoldable pub set_step : Step → Modal → Modal
  unfolding message_of update_confirm_panel
  set_step seat m = record m {
    current_step = seat;
    submit_text = "결제 진행";
    submit_disabled = is_empty m.selected_seats;
  }
  set_step confirm m = update_confirm_panel (record m {
    current_step = confirm;
    submit_text = "확인";
    submit_disabled = is_empty m.selected_seats;
  })
  set_step result m = record m {
    current_step = result;
    submit_text = "닫기";
    submit_disabled = false;
    result_message = message_of m.last_result;
  }

  -- The window as `openConcertBookingModal` leaves it.
  unfoldable pub open_modal : Venue → Modal
  unfolding set_step update_summary
  open_modal venue = set_step seat (
      update_summary (record {
        venue = venue;
        selected_seats = [];
        current_step = seat;
        last_result = none;
        booking_succeeded = false;
        summary = summary_of venue [];
        confirm_panel = none;
        result_message = "";
        submit_disabled = false;
        submit_text = "결제 진행";
        paging = record { active_row = 1; active_col_page = 1; active_row_page = 1 };
        overlay_shown = true;
        key_listener = true;
        committing = 0;
        polling = 0;
        log = [];
      }))
