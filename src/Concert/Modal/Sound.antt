-- ===== src/Concert/Modal/Sound.antt =====
-- The invariant of an open window, and how its parts are kept.
use soldesk.Prelude.{
  ◌≢◌, sym, ◌≡◌, refl, String, Option, none, some, Bool, true, false, if◌then◌else◌, is_empty, All,
  arith,
}
use soldesk.Js.Value.{Engine, is_positive}
use soldesk.Concert.Modal.{
  Venue, Modal, Step, seat, confirm, result, Effect, alert, open_login_page, request_booking,
  on_booked, reload, emit, summary_of, set_step,
}
use soldesk.Concert.Modal.Pages.{IsPaged}
use soldesk.Concert.Modal.Choice.{IsChoice}
use soldesk.Concert.Modal.Outcome.{is_queued, is_booked}
use soldesk.WriteApi.{Answer, Failure}
use soldesk.Concert.Modal.Events.{
  all_digits, stored_user_id, close_from_user, ask_login, submit_at, at_seat, at_confirm, at_last,
  settle, settle_failure, take_commit, press_key,
}

-- A text that `getStoredUserId` lets through.
abbrev pub IsUserId : Engine → String → Type 0
IsUserId js user = (all_digits user ≡ true) × (is_positive (js.read user) ≡ true)

-- A booking that the window asked for: a signed-in user, the show of the window, and at least one
-- seat, all of them free seats of the hall.
abbrev pub IsOrder : Engine → Venue → Effect → Type 0
IsOrder js v (request_booking user show_id seats) =
    IsUserId js user × (show_id ≡ v.show_id) × (is_empty seats ≡ false) × IsChoice v seats
IsOrder js v _ = Unit

pub record IsSound (js : Engine) (m : Modal) : Type 0 where
  pub choice : IsChoice m.venue m.selected_seats
  pub paged : IsPaged m.venue m.paging
  pub summed : m.summary ≡ summary_of js m.venue m.selected_seats
  pub chosen : m.current_step ≡ confirm → is_empty m.selected_seats ≡ false
  pub asked : All (IsOrder js m.venue) m.log

pub seat≢confirm : seat ≢ confirm
seat≢confirm e = cc

module _ (js : Engine) where
  pub stored_user_id-IsUserId :
      (stored user : String) → stored_user_id js stored ≡ some user → IsUserId js user
  unfolding stored_user_id
  stored_user_id-IsUserId stored user e = ground arith

  -- Both branches of a test.
  pub if_IsSound :
      (b : Bool) {x y : Modal}
      → (b ≡ true → IsSound js x)
      → (b ≡ false → IsSound js y)
      → IsSound js (if b then x else y)
  if_IsSound true f g = f refl
  if_IsSound false f g = g refl

  pub at_seat-IsSound :
      (s : Step) {x y : Modal}
      → (s ≡ seat → IsSound js x)
      → IsSound js y
      → IsSound js (at_seat s x y)
  unfolding at_seat
  at_seat-IsSound seat f v = f refl
  at_seat-IsSound confirm f v = v
  at_seat-IsSound result f v = v

  pub at_confirm-IsSound :
      (s : Step) {x y : Modal} → IsSound js x → IsSound js y → IsSound js (at_confirm s x y)
  unfolding at_confirm
  at_confirm-IsSound seat u v = v
  at_confirm-IsSound confirm u v = u
  at_confirm-IsSound result u v = v

  -- An effect that asks for no booking.
  pub emit-IsSound :
      (e : Effect) {m : Modal} → IsOrder js m.venue e → IsSound js m → IsSound js (emit e m)
  emit-IsSound e o v = record {
    choice = v.choice;
    paged = v.paged;
    summed = v.summed;
    chosen = v.chosen;
    asked = (o, v.asked);
  }

  pub ask_login-IsSound : {m : Modal} → IsSound js m → IsSound js (ask_login js m)
  unfolding ask_login
  ask_login-IsSound v = emit-IsSound open_login_page tt (emit-IsSound (alert _) tt v)

  pub set_step-IsSound_seat : {m : Modal} → IsSound js m → IsSound js (set_step js seat m)
  unfolding set_step
  set_step-IsSound_seat v = record {
    choice = v.choice;
    paged = v.paged;
    summed = v.summed;
    chosen = λ e. cc;
    asked = v.asked;
  }

  pub set_step-IsSound_confirm :
      {m : Modal}
      → is_empty m.selected_seats ≡ false
      → IsSound js m
      → IsSound js (set_step js confirm m)
  unfolding set_step
  set_step-IsSound_confirm some_seat v = record {
    choice = v.choice;
    paged = v.paged;
    summed = v.summed;
    chosen = λ _. some_seat;
    asked = v.asked;
  }

  -- The end of a submission: `setStep(3)` and the `finally` block.
  pub end-IsSound : {m : Modal} → IsSound js m → IsSound js (at_last js (set_step js result m))
  unfolding set_step at_last
  end-IsSound v = record {
    choice = v.choice;
    paged = v.paged;
    summed = v.summed;
    chosen = λ e. cc;
    asked = v.asked;
  }

  -- Fields that the invariant does not speak of may change.
  pub same-IsSound :
      {m n : Modal}
      → n.venue ≡ m.venue
      → n.selected_seats ≡ m.selected_seats
      → n.paging ≡ m.paging
      → n.summary ≡ m.summary
      → n.current_step ≡ m.current_step
      → n.log ≡ m.log
      → IsSound js m
      → IsSound js n
  same-IsSound a b c d e f v = record {
    choice = rw (a, b) v.choice;
    paged = rw (a, c) v.paged;
    summed = rw (a, b, d) v.summed;
    chosen = rw (b, e) v.chosen;
    asked = rw (a, f) v.asked;
  }

  pub close_from_user-IsSound : {m : Modal} → IsSound js m → IsSound js (close_from_user js m)
  unfolding close_from_user
  close_from_user-IsSound {m} v =
      let closed =
        same-IsSound {m = m} {n = record m { overlay_shown = false }} refl refl refl refl refl refl
          v in
      if_IsSound m.booking_succeeded (λ _. emit-IsSound reload tt closed) (λ _. closed)

  pub submit_at-IsSound :
      (s : Step) (user : Option String) (m : Modal)
      → s ≡ m.current_step
      → ((u : String) → user ≡ some u → IsUserId js u)
      → IsSound js m
      → IsSound js (submit_at js s user m)
  unfolding submit_at
  submit_at-IsSound seat none m e known v =
      if_IsSound (is_empty m.selected_seats) (λ _. emit-IsSound (alert _) tt v)
        (λ _. ask_login-IsSound v)
  submit_at-IsSound seat (some u) m e known v =
      if_IsSound (is_empty m.selected_seats) (λ _. emit-IsSound (alert _) tt v)
        (λ some_seat. set_step-IsSound_confirm some_seat v)
  submit_at-IsSound confirm none m e known v = ask_login-IsSound v
  submit_at-IsSound confirm (some u) m e known v =
      emit-IsSound (request_booking u _ _) (known u refl, refl, v.chosen (sym e), v.choice)
        (same-IsSound {m = m} refl refl refl refl refl refl v)
  submit_at-IsSound result user m e known v = close_from_user-IsSound v

  pub settle-IsSound :
      (answer : Answer) {m : Modal} → IsSound js m → IsSound js (settle js answer m)
  unfolding settle
  settle-IsSound answer {m} v = end-IsSound (
      if_IsSound (is_booked js answer)
        (λ _.
          emit-IsSound (on_booked _ _) tt (same-IsSound {m = m} refl refl refl refl refl refl v))
        (λ _. same-IsSound {m = m} refl refl refl refl refl refl v))

  pub settle_failure-IsSound :
      (e : Failure) {m : Modal} → IsSound js m → IsSound js (settle_failure js e m)
  unfolding settle_failure
  settle_failure-IsSound e {m} v =
      end-IsSound (same-IsSound {m = m} refl refl refl refl refl refl v)

  pub take_commit-IsSound :
      (answer : Answer) {m : Modal} → IsSound js m → IsSound js (take_commit js answer m)
  unfolding take_commit
  take_commit-IsSound answer {m} v =
      if_IsSound (is_queued js answer) (λ _. same-IsSound {m = m} refl refl refl refl refl refl v)
        (λ _. settle-IsSound answer (same-IsSound {m = m} refl refl refl refl refl refl v))

  pub press_key-IsSound :
      (escape : Bool) {m : Modal} → IsSound js m → IsSound js (press_key js escape m)
  unfolding press_key
  press_key-IsSound escape {m} v =
      let heard =
        same-IsSound {m = m} {n = record m { key_listener = false }} refl refl refl refl refl refl
          v in
      if_IsSound m.key_listener
        (λ _. if_IsSound escape (λ _. close_from_user-IsSound heard) (λ _. heard)) (λ _. v)
