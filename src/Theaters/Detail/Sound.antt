-- ===== src/Theaters/Detail/Sound.antt =====
-- The invariant of the window of a screening, kept by each of its handlers.
use soldesk.Prelude.{
  max, ◌≡◌, refl, sym, ◌∙◌, String, List, Option, none, some, Bool, true, false, leb, length,
  is_empty, All, if◌then◌else◌,
}
use soldesk.Js.TextSet.{has}
use soldesk.Js.Value.{Engine}
use soldesk.Selection.{IsSelection, add-IsSelection, delete-IsSelection}
use soldesk.Concert.Modal.{Step, seat, confirm, result}
use soldesk.Concert.Modal.Sound.{IsUserId, seat≢confirm}
use soldesk.Concert.Modal.Outcome.{is_queued, is_booked}
use soldesk.WriteApi.{Answer, Failure}
use soldesk.Theaters.Detail.{
  Hall, Window, Effect, alert, open_login_page, notify_read_cache_rebuilt, request_booking,
  on_booked, emit, grid_keys, summary_of, update_summary, set_step,
}
use soldesk.Theaters.Detail.Outcome.{outcome_of}
use soldesk.Theaters.Detail.Events.{
  handle_seat_click, close_from_user, submit_at, at_last, settle, settle_failure, take_commit,
  press_key, shown_at_seat, shown_at_confirm,
}

-- A seat of the grid that is not reserved.
abbrev pub IsFree : Hall → String → Type 0
IsFree hall key = (has key hall.reserved_seats ≡ false) × (has key (grid_keys hall) ≡ true)

abbrev pub IsChoice : Hall → List String → Type 0
IsChoice hall selected = IsSelection (IsFree hall) (max 1 hall.remain_count) selected

-- A booking that the window asked for.
abbrev pub IsOrder : Engine → Hall → Effect → Type 0
IsOrder js hall (request_booking user schedule_id seats) =
    IsUserId js user
    × (schedule_id ≡ hall.schedule_id)
    × (is_empty seats ≡ false)
    × IsChoice hall seats
IsOrder js hall _ = Unit

pub record IsSound (js : Engine) (w : Window) : Type 0 where
  pub choice : IsChoice w.hall w.selected_seats
  pub summed : w.summary ≡ summary_of js w.hall w.selected_seats
  pub chosen : w.current_step ≡ confirm → is_empty w.selected_seats ≡ false
  pub asked : All (IsOrder js w.hall) w.log

module _ (js : Engine) where
  pub if_IsSound :
      (b : Bool) {x y : Window}
      → (b ≡ true → IsSound js x)
      → (b ≡ false → IsSound js y)
      → IsSound js (if b then x else y)
  if_IsSound true f g = f refl
  if_IsSound false f g = g refl

  pub emit-IsSound :
      (e : Effect) {w : Window} → IsOrder js w.hall e → IsSound js w → IsSound js (emit e w)
  emit-IsSound e o v = record {
    choice = v.choice;
    summed = v.summed;
    chosen = v.chosen;
    asked = (o, v.asked);
  }

  -- Fields that the invariant does not speak of may change, and the step to one but the second.
  pub same-IsSound :
      {w u : Window}
      → u.hall ≡ w.hall
      → u.selected_seats ≡ w.selected_seats
      → u.summary ≡ w.summary
      → (u.current_step ≡ confirm → w.current_step ≡ confirm)
      → u.log ≡ w.log
      → IsSound js w
      → IsSound js u
  same-IsSound a b d e f v = record {
    choice = rw (a, b) v.choice;
    summed = rw (a, b, d) v.summed;
    chosen = rw b (λ h. v.chosen (e h));
    asked = rw (a, f) v.asked;
  }

  pub set_step-IsSound_confirm :
      {w : Window}
      → is_empty w.selected_seats ≡ false
      → IsSound js w
      → IsSound js (set_step js confirm w)
  unfolding set_step
  set_step-IsSound_confirm some_seat v = record {
    choice = v.choice;
    summed = v.summed;
    chosen = λ _. some_seat;
    asked = v.asked;
  }

  pub update_summary-IsSound :
      (w : Window)
      → IsChoice w.hall w.selected_seats
      → w.current_step ≡ seat
      → All (IsOrder js w.hall) w.log
      → IsSound js (update_summary js w)
  unfolding update_summary
  update_summary-IsSound w a step d = record {
    choice = a;
    summed = refl;
    chosen = λ e. absurd (seat≢confirm (sym step ∙ e));
    asked = d;
  }

  pub handle_seat_click-IsSound :
      (key : String) {w : Window}
      → has key (grid_keys w.hall) ≡ true
      → w.current_step ≡ seat
      → IsSound js w
      → IsSound js (handle_seat_click js key w)
  unfolding handle_seat_click
  handle_seat_click-IsSound key {w} there step v =
      let kind = IsFree w.hall in
      let bound = max 1 w.hall.remain_count in
      if_IsSound (has key w.hall.reserved_seats) (λ _. v)
        (λ open_seat.
          if_IsSound (has key w.selected_seats)
            (λ old.
              update_summary-IsSound _
                (delete-IsSelection kind bound key w.selected_seats v.choice old) step v.asked)
            (λ new.
              if_IsSound (leb bound (length w.selected_seats)) (λ _. emit-IsSound (alert _) tt v)
                (λ room.
                  update_summary-IsSound _
                    (add-IsSelection kind bound key w.selected_seats v.choice (open_seat, there) new
                      room)
                    step v.asked)))

  pub submit_at-IsSound :
      (s : Step) (user : Option String) {w : Window}
      → s ≡ w.current_step
      → ((u : String) → user ≡ some u → IsUserId js u)
      → IsSound js w
      → IsSound js (submit_at js s user w)
  unfolding submit_at
  submit_at-IsSound seat none {w} e known v =
      if_IsSound (is_empty w.selected_seats) (λ _. emit-IsSound (alert _) tt v)
        (λ _. emit-IsSound open_login_page tt (emit-IsSound (alert _) tt v))
  submit_at-IsSound seat (some u) {w} e known v =
      if_IsSound (is_empty w.selected_seats) (λ _. emit-IsSound (alert _) tt v)
        (λ some_seat. set_step-IsSound_confirm some_seat v)
  submit_at-IsSound confirm none e known v =
      emit-IsSound open_login_page tt (emit-IsSound (alert _) tt v)
  submit_at-IsSound confirm (some u) {w} e known v =
      emit-IsSound (request_booking u _ _) (known u refl, refl, v.chosen (sym e), v.choice)
        (same-IsSound {w = w} refl refl refl (λ h. h) refl v)
  submit_at-IsSound result user {w} e known v =
      unfold close_from_user in same-IsSound {w = w} refl refl refl (λ h. h) refl v

  -- The end of a submission: `setStep(3)` and the `finally` block.
  pub end-IsSound : {w : Window} → IsSound js w → IsSound js (at_last js (set_step js result w))
  unfolding set_step at_last
  end-IsSound {w} v = same-IsSound {w = w} refl refl refl (λ e. cc) refl v

  pub settle-IsSound :
      (answer : Answer) {w : Window} → IsSound js w → IsSound js (settle js answer w)
  unfolding settle
  settle-IsSound answer {w} v =
      let told =
        same-IsSound {w = w} {u = record w { last_result = some (outcome_of js answer) }} refl refl
          refl (λ h. h) refl v in
      end-IsSound (
        emit-IsSound notify_read_cache_rebuilt tt (
          if_IsSound (is_booked js answer) (λ _. emit-IsSound (on_booked _ _) tt told) (λ _. told)))

  pub settle_failure-IsSound :
      (e : Failure) {w : Window} → IsSound js w → IsSound js (settle_failure js e w)
  unfolding settle_failure
  settle_failure-IsSound e {w} v = end-IsSound (same-IsSound {w = w} refl refl refl (λ h. h) refl v)

  pub take_commit-IsSound :
      (answer : Answer) {w : Window} → IsSound js w → IsSound js (take_commit js answer w)
  unfolding take_commit
  take_commit-IsSound answer {w} v =
      if_IsSound (is_queued js answer) (λ _. same-IsSound {w = w} refl refl refl (λ h. h) refl v)
        (λ _. settle-IsSound answer (same-IsSound {w = w} refl refl refl (λ h. h) refl v))

  pub close-IsSound : {w : Window} → IsSound js w → IsSound js (close_from_user js w)
  unfolding close_from_user
  close-IsSound {w} v = same-IsSound {w = w} refl refl refl (λ h. h) refl v

  pub press_key-IsSound :
      (escape : Bool) {w : Window} → IsSound js w → IsSound js (press_key js escape w)
  unfolding press_key
  press_key-IsSound escape {w} v =
      let heard =
        same-IsSound {w = w} {u = record w { key_listener = false }} refl refl refl (λ h. h) refl
          v in
      if_IsSound w.key_listener (λ _. if_IsSound escape (λ _. close-IsSound heard) (λ _. heard))
        (λ _. v)

  pub shown_at_seat-IsSound :
      (s : Step) {x y : Window}
      → (s ≡ seat → IsSound js x)
      → IsSound js y
      → IsSound js (shown_at_seat js s x y)
  unfolding shown_at_seat
  shown_at_seat-IsSound seat f v = f refl
  shown_at_seat-IsSound confirm f v = v
  shown_at_seat-IsSound result f v = v

  pub shown_at_confirm-IsSound :
      (s : Step) {x y : Window}
      → IsSound js x
      → IsSound js y
      → IsSound js (shown_at_confirm js s x y)
  unfolding shown_at_confirm
  shown_at_confirm-IsSound seat u v = v
  shown_at_confirm-IsSound confirm u v = u
  shown_at_confirm-IsSound result u v = v

  pub set_step-IsSound_seat : {w : Window} → IsSound js w → IsSound js (set_step js seat w)
  unfolding set_step
  set_step-IsSound_seat {w} v = same-IsSound {w = w} refl refl refl (λ e. cc) refl v
