-- ===== src/Tests/Theaters.antt =====
-- Examples of the laws of the window of a screening.
use soldesk.Prelude.{◌≡◌, List, [], ◌∷◌, none, true, false}
use soldesk.Js.Value.{undefined}
use soldesk.Concert.Modal.{confirm}
use soldesk.Theaters.Detail.{Schedule, Window, hall_of, open_window}
use soldesk.Theaters.Detail.Events.{Event, seat_click, submit_click, commit_answer, key_down, run}
use soldesk.Theaters.Detail.Sound.{IsSound}
use soldesk.Theaters.Detail.Session.{run-open_window-IsSound}
use soldesk.Tests.{plain, whole_value, ok_answer}

abbrev screening : Schedule
screening = record {
  schedule_id = whole_value 5;
  remain_count = whole_value 4;
  total_count = whole_value 25;
  price = undefined;
  hall_total_seats = undefined;
}

abbrev session : List Event
session =
    seat_click "1-2"
    ∷ submit_click "42"
    ∷ submit_click "42"
    ∷ commit_answer ok_answer
    ∷ key_down true
    ∷ []

run-open_window-IsSound_example :
    IsSound plain (run plain (open_window plain (hall_of plain screening none)) session)
    × ((run plain (open_window plain (hall_of plain screening none)) session).hall
        ≡ hall_of plain screening none)
run-open_window-IsSound_example =
    run-open_window-IsSound plain (hall_of plain screening none) session

-- The window with a choice, in its second step, and while a commit waits.
abbrev chosen : Window
chosen = record (open_window plain (hall_of plain screening none)) {
  selected_seats = "1-2" ∷ [];
  current_step = confirm;
  submit_disabled = false;
}

abbrev committed : Window
committed = record chosen { committing = 1 }
