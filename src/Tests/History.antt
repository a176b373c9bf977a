-- ===== src/Tests/History.antt =====
-- Examples of the laws of the booking history.
use soldesk.Prelude.{
  zero, suc, none, if◌then◌else◌, ltb, leb, ◌<◌, ◌++◌, All, range_from, ℕ, ◌+◌, ◌-◌, ◌≤◌, min, ◌≡◌,
  refl, List, [], ◌∷◌, true, arith,
}
use soldesk.Js.Value.{text}
use soldesk.History.{
  History, Event, Page, Booking, get_bookings, bookings, loading, page_click, page_answer,
  refund_click, one_if_zero, pagination_window, render_pagination, run,
}
use soldesk.History.Numbers.{render_pagination_lem}
use soldesk.History.Refunds.{fresh_history, refund_once, late_answer_wins}
use soldesk.Tests.{plain}

render_pagination_lem_example :
    (start : ℕ) × (render_pagination 6 7 ≡ (
      if leb 7 1
      then []
      else (if ltb 1 6 then (6 - 1) ∷ [] else [])
        ++ (range_from start (min 5 7) ++ (if ltb 6 7 then (6 + 1) ∷ [] else []))))
    × (start ≤ 6)
    × (6 < start + min 5 7)
    × All (λ n. (1 ≤ n) × (n ≤ 7)) (render_pagination 6 7)
render_pagination_lem_example = render_pagination_lem 6 7 (omega arith) (omega arith)

abbrev asked_once : List Event
asked_once = refund_click "42" true 9 (text "movie") ∷ []

refund_once_example :
    run plain (run plain fresh_history asked_once) (refund_click "42" true 10 (text "movie") ∷ [])
    ≡ run plain fresh_history asked_once
unfolding run soldesk.History.handle_refund
refund_once_example = refund_once plain asked_once "42" true 10 (text "movie") refl

-- A list with as many bookings as the number of its page.
abbrev listed : ℕ → List Booking
listed zero = []
listed (suc n) =
    record { booking_id = n; booking_kind = text "movie"; book_status = text ""; show_time = none }
    ∷ listed n

abbrev page_of : ℕ → Page
page_of n = record { page = n; total_pages = 3; items = listed n }

late_answer_wins_example :
    let asked_for = run plain fresh_history (page_click "42" 2 ∷ page_click "42" 3 ∷ []) in
    let before = run plain asked_for (page_answer (page_of 3) ∷ []) in
    let after = run plain asked_for (page_answer (page_of 3) ∷ page_answer (page_of 2) ∷ []) in
    (asked_for.log ≡ get_bookings "42" 3 ∷ get_bookings "42" 2 ∷ fresh_history.log)
    × (before.area ≡ bookings (page_of 3).items)
    × (before.current_page ≡ 3)
    × (after.area ≡ bookings (page_of 2).items)
    × (after.current_page ≡ 2)
    × (after.buttons ≡ render_pagination 2 (one_if_zero (page_of 2).total_pages))
    × (after.loads ≡ fresh_history.loads)
late_answer_wins_example =
    late_answer_wins plain fresh_history "42" 2 3 (page_of 2) (page_of 3) refl refl refl refl refl
      refl refl
