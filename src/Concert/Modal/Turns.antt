-- ===== src/Concert/Modal/Turns.antt =====
-- The moves among the rows and pages keep the invariant of an open window.
use soldesk.Prelude.{if◌then◌else◌}
use soldesk.Prelude.Int.{pos, ltb_ℤ, leb_ℤ}
use soldesk.Js.Value.{Engine, Value, to_int}
use soldesk.Concert.Modal.{Venue, Modal, Paging, alert}
use soldesk.Concert.Modal.Grid.{is_large, jump}
use soldesk.Concert.Modal.Pages.{IsPaged}
use soldesk.Concert.Modal.Bounds.{render_row_page-IsPaged}
use soldesk.Concert.Modal.Events.{turn_page, on_seat_panel}
use soldesk.Concert.Modal.Sound.{IsSound, if_IsSound, at_seat-IsSound, emit-IsSound}

module _ (js : Engine) where
  pub turn-IsSound :
      (turn : Venue → Paging → Paging) (m : Modal)
      → ((v : Venue) (p : Paging) → IsPaged v p → IsPaged v (turn v p))
      → IsSound js m
      → IsSound js (
          if m.overlay_shown
          then on_seat_panel js (turn_page js (λ w. record w { paging = turn w.venue w.paging })) m
          else m)
  unfolding on_seat_panel turn_page
  turn-IsSound turn m keep v =
      if_IsSound js m.overlay_shown
        (λ _.
          at_seat-IsSound js m.current_step
            (λ _.
              if_IsSound js (is_large m.venue)
                (λ _. record {
                  choice = v.choice;
                  paged = keep m.venue m.paging v.paged;
                  summed = v.summed;
                  chosen = v.chosen;
                  asked = v.asked;
                })
                (λ _. v))
            v)
        (λ _. v)

  pub jump-IsSound : (typed : Value) (m : Modal) → IsSound js m → IsSound js (jump js typed m)
  unfolding jump
  jump-IsSound typed m v =
      if_IsSound js (leb_ℤ (to_int js typed) (pos 0)) (λ _. emit-IsSound js (alert _) tt v)
        (λ _.
          if_IsSound js (ltb_ℤ (pos m.venue.seat_cols) (to_int js typed))
            (λ _. emit-IsSound js (alert _) tt v)
            (λ _. record {
              choice = v.choice;
              paged =
                  render_row_page-IsPaged m.venue _ v.paged.row_from v.paged.row_to
                    v.paged.row_page_from v.paged.row_page_to;
              summed = v.summed;
              chosen = v.chosen;
              asked = v.asked;
            }))
