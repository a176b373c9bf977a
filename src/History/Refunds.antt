-- ===== src/History/Refunds.antt =====
-- Refunds and loads of the booking history, one behind the other and across each other.
use soldesk.Prelude.{
  ℕ, ◌≡◌, refl, ◌∙◌, String, List, [], ◌∷◌, Bool, true, false, ◌===◌, ◌==◌, arith,
}
use soldesk.Js.Value.{Engine, Value}
use soldesk.History.{
  History, Refund, no_refund, asked, reloading, Event, get_bookings, bookings, render_pagination,
  page_click, page_answer, loading, refund_click, Page, one_if_zero, begin_load, end_load,
  fail_load, end_refund, handle_refund, take_refund, when_asked, when_reloading, handle, run,
}

-- A refund is under way.
abbrev pub is_under_way : Refund → Bool
is_under_way no_refund = false
is_under_way asked = true
is_under_way reloading = true

-- The page as `initBookingHistoryPage` finds it.
abbrev pub fresh_history : History
fresh_history = record {
  current_page = 1;
  is_refunding = false;
  area = loading;
  buttons = [];
  refund = no_refund;
  loads = 1;
  log = [];
}

module _ (js : Engine) where
  handle-guard :
      (e : Event) (h : History)
      → h.is_refunding ≡ is_under_way h.refund
      → (handle js e h).is_refunding ≡ is_under_way (handle js e h).refund
  unfolding handle begin_load end_load fail_load end_refund handle_refund take_refund when_asked
      when_reloading
  handle-guard e h g = ground arith

  run-guard :
      (es : List Event) (h : History)
      → h.is_refunding ≡ is_under_way h.refund
      → (run js h es).is_refunding ≡ is_under_way (run js h es).refund
  unfolding run
  run-guard [] h g = g
  run-guard (e ∷ es) h g = run-guard es (handle js e h) (handle-guard e h g)

  click_ignored :
      (h : History) (user : String) (agreed : Bool) (booking_id : ℕ) (booking_kind : Value)
      → h.is_refunding ≡ true
      → handle js (refund_click user agreed booking_id booking_kind) h ≡ h
  unfolding handle handle_refund
  click_ignored h user agreed booking_id booking_kind g = ground arith

  -- Whatever has happened on the page, while a refund waits for its answer or for the list behind
  -- it, a click on a refund button does nothing; no second refund is asked for.
  pub refund_once :
      (es : List Event) (user : String) (agreed : Bool) (booking_id : ℕ) (booking_kind : Value)
      → is_under_way (run js fresh_history es).refund ≡ true
      → run js (run js fresh_history es) (refund_click user agreed booking_id booking_kind ∷ [])
        ≡ run js fresh_history es
  unfolding run
  refund_once es user agreed booking_id booking_kind busy =
      click_ignored (run js fresh_history es) user agreed booking_id booking_kind
        (run-guard es fresh_history refl ∙ busy)

  -- A user who is stored asks for two pages, one behind the other, neither of them the shown one, and
  -- the answers come the other way round, each with the number of the page that it answers: the page
  -- that was asked for second is shown at first, and in the end the one that was asked for first, its
  -- bookings, its number and its buttons.
  pub late_answer_wins :
      (h : History) (user : String) (first second : ℕ) (p q : Page)
      → (user === "") ≡ false
      → (first == 0) ≡ false
      → (second == 0) ≡ false
      → (first == h.current_page) ≡ false
      → (second == h.current_page) ≡ false
      → p.page ≡ first
      → q.page ≡ second
      → let asked_for = run js h (page_click user first ∷ page_click user second ∷ []) in
        let before = run js asked_for (page_answer q ∷ []) in
        let after = run js asked_for (page_answer q ∷ page_answer p ∷ []) in
        (asked_for.log ≡ get_bookings user second ∷ get_bookings user first ∷ h.log)
        × (before.area ≡ bookings q.items)
        × (before.current_page ≡ second)
        × (after.area ≡ bookings p.items)
        × (after.current_page ≡ first)
        × (after.buttons ≡ render_pagination first (one_if_zero p.total_pages))
        × (after.loads ≡ h.loads)
  unfolding run begin_load end_load
  late_answer_wins h user first second p q signed a b c d e f = ground arith
