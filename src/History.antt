-- ===== src/History.antt =====
-- The booking history (frontend/src/js/user/booking_history.js): what a booking is shown as, the
-- numbers below the list, and the handlers for pages and refunds. Ids are the whole numbers of the
-- database.
pub mod Numbers
pub mod Refunds
use Prim.Native.String
use soldesk.Prelude.{
  ℕ, ◌+◌, ◌-◌, ◌≤◌, min, max, String, List, [], ◌∷◌, ◌++◌, map, Option, none, some, Bool, true,
  false, ◌&&◌, ◌||◌, not, ◌==◌, ◌===◌, ltb, leb, if◌then◌else◌, get_elem?, range_from,
}
use soldesk.Js.Text.{print, split}
use soldesk.Js.TextSet.{has}
use soldesk.Js.Value.{Engine, Value, is_boolean, truthy, or_else, text, string_of, text_or_empty}

pub record Booking : Type 0 where
  pub booking_id : ℕ
  pub booking_kind : Value
  pub book_status : Value
  -- the time of the show, where there is one that `Date` reads
  pub show_time : Option ℕ

pub data Kind : Type 0 where
  concert movie : Kind

abbrev pub kind_text : Kind → String
kind_text concert = "concert"
kind_text movie = "movie"

-- What the row of a booking shows at its end: a mark, or the button for the refund.
pub data RowEnd : Type 0 where
  refunded completed refund_button : RowEnd

unfoldable pub is_expired : ℕ → Booking → Bool
is_expired now b = elim b.show_time [ none ↦ false | some t ↦ ltb t now ]

module _ (js : Engine) where
  unfoldable pub kind_of : Value → Kind
  kind_of v =
      if js.lower (string_of js (or_else v (text "movie"))) === "concert" then concert else movie

  unfoldable pub is_cancelled : Booking → Bool
  is_cancelled b =
      has (js.upper (text_or_empty js b.book_status)) ("CANCEL" ∷ "CANCELED" ∷ "CANCELLED" ∷ [])

  -- The ladder of `renderBookingItem`.
  unfoldable pub row_end : ℕ → Booking → RowEnd
  unfolding is_cancelled is_expired
  row_end now b =
      let cancelled = is_cancelled b in
      let expired = not cancelled && is_expired now b in
      if cancelled then refunded else if expired then completed else refund_button

  unfoldable pub booking_line_key : Booking → String
  unfolding kind_of
  booking_line_key b =
      String.◌++◌ (kind_text (kind_of b.booking_kind)) (String.◌++◌ ":" (print b.booking_id))

  -- The row that `toggleDetail` opens: its kind and the text of its id; `none` where it stops.
  unfoldable pub toggle_target : String → Option (Kind × String)
  toggle_target line_key =
      let parts = split b':' line_key in
      let kind : Kind = elim (get_elem? parts 0) [
        | none ↦ movie
        | some t ↦ if t === "concert" then concert else movie
      ] in
      elim (get_elem? parts 1) [
        | none ↦ none
        | some id ↦ if id === "" then none else some (kind, id)
      ]

-- The first and the last number of `renderPagination`.
unfoldable pub pagination_window : ℕ → ℕ → ℕ × ℕ
pagination_window page total =
    let start = max 1 (page - 2) in
    let last = start + 5 - 1 in
    if ltb total last then (max 1 (total + 1 - 5), total) else (start, last)

-- The pages that the buttons lead to.
unfoldable pub render_pagination : ℕ → ℕ → List ℕ
unfolding pagination_window
render_pagination page total =
    let (start, last) = pagination_window page total in
    let before = if ltb 1 page then (page - 1) ∷ [] else [] in
    let after = if ltb page total then (page + 1) ∷ [] else [] in
    if leb total 1 then [] else before ++ (range_from start (last + 1 - start) ++ after)

pub data Area : Type 0 where
  loading load_failed : Area
  bookings : List Booking → Area

pub data Effect : Type 0 where
  alert : String → Effect
  get_bookings : String → ℕ → Effect
  post_refund : String → ℕ → Kind → Effect
  notify_read_cache_rebuilt : Effect

-- A submission of a refund: none, one that waits for its answer, one that waits for the list.
pub data Refund : Type 0 where
  no_refund asked reloading : Refund

pub record History : Type 0 where
  pub current_page : ℕ
  pub is_refunding : Bool
  pub area : Area
  pub buttons : List ℕ
  pub refund : Refund
  -- requests for the list that wait for their answer, but the one of a refund
  pub loads : ℕ
  pub log : List Effect

-- The answers that the handlers tell apart: the list, and what a refund is answered.
pub record Page : Type 0 where
  -- 0 where the answer has none
  pub page : ℕ
  pub total_pages : ℕ
  pub items : List Booking

pub record RefundAnswer : Type 0 where
  pub ok : Value
  pub success : Value
  pub message : Value

pub data RefundReply : Type 0 where
  -- null, with the text of the error that reading a field of it gives
  null_reply : String → RefundReply
  reply : RefundAnswer → RefundReply

pub data Event : Type 0 where
  -- a click on a page button; the stored user id stands in the event
  page_click : String → ℕ → Event
  page_answer : Page → Event
  page_failure : Event
  -- a click on a refund button, and whether the user agrees
  refund_click : String → Bool → ℕ → Value → Event
  refund_answer : String → RefundReply → Event
  refund_failure : Value → Event
  reload_answer : Page → Event
  reload_failure : Event

emit : Effect → History → History
emit e h = record h { log = e ∷ h.log }

abbrev pub one_if_zero : ℕ → ℕ
one_if_zero n = if n == 0 then 1 else n

-- `loadBookings` up to its wait; where no user is stored there is none.
unfoldable pub begin_load : String → ℕ → History → History
unfolding emit
begin_load user page h =
    if user === ""
    then record h { area = bookings []; buttons = render_pagination 1 1 }
    else emit (get_bookings user page) (record h { area = loading })

unfoldable pub end_load : Page → History → History
end_load p h = record h {
  current_page = one_if_zero p.page;
  area = bookings p.items;
  buttons = render_pagination (one_if_zero p.page) (one_if_zero p.total_pages);
}

unfoldable pub fail_load : History → History
fail_load h = record h { area = load_failed; buttons = render_pagination 1 1 }

-- The `finally` block of `handleRefund`.
unfoldable pub end_refund : History → History
end_refund h = record h { is_refunding = false; refund = no_refund }

module _ (js : Engine) where
  message_or : Value → String → String
  message_or v standard = string_of js (or_else v (text standard))

  -- `handleRefund` up to its first wait.
  unfoldable pub handle_refund : String → Bool → ℕ → Value → History → History
  unfolding emit kind_of
  handle_refund user agreed booking_id booking_kind h =
      if h.is_refunding
      then h
      else if not agreed
      then h
      else if user === ""
      then emit (alert "로그인이 필요합니다.") h
      else emit (post_refund user booking_id (kind_of js booking_kind))
          (record h { is_refunding = true; refund = asked })

  -- What follows the answer to a refund: the list is loaded again, or the user is told. An answer
  -- that is null has no message, and reading one fails.
  unfoldable pub take_refund : String → RefundReply → History → History
  unfolding emit begin_load message_or end_refund
  take_refund user (null_reply error) h = end_refund (emit (alert error) h)
  take_refund user (reply r) h =
      let told = emit (alert (message_or r.message "환불이 완료되었습니다.")) h in
      let begun = begin_load user h.current_page (emit notify_read_cache_rebuilt told) in
      if is_boolean true r.ok || is_boolean true r.success
      then (if user === "" then end_refund begun else record begun { refund = reloading })
      else end_refund (emit (alert (message_or r.message "환불 처리에 실패했습니다.")) h)

  unfoldable pub when_asked : Refund → History → History → History
  when_asked asked handled h = handled
  when_asked _ handled h = h

  unfoldable pub when_reloading : Refund → History → History → History
  when_reloading reloading handled h = handled
  when_reloading _ handled h = h

  unfoldable pub handle : Event → History → History
  unfolding when_asked when_reloading emit message_or
  handle (page_click user page) h =
      let begun = begin_load user page h in
      if not (page == 0) && not (page == h.current_page)
      then (if user === "" then begun else record begun { loads = h.loads + 1 })
      else h
  handle (page_answer p) h =
      if h.loads == 0 then h else end_load p (record h { loads = h.loads - 1 })
  handle page_failure h = if h.loads == 0 then h else fail_load (record h { loads = h.loads - 1 })
  handle (refund_click user agreed booking_id booking_kind) h =
      handle_refund user agreed booking_id booking_kind h
  handle (refund_answer user answer) h = when_asked h.refund (take_refund user answer h) h
  handle (refund_failure message) h =
      when_asked h.refund (end_refund (emit (alert (message_or message "환불 처리 중 오류가 발생했습니다.")) h)) h
  handle (reload_answer p) h = when_reloading h.refund (end_refund (end_load p h)) h
  handle reload_failure h = when_reloading h.refund (end_refund (fail_load h)) h

  unfoldable pub run : History → List Event → History
  unfolding handle
  run h [] = h
  run h (e ∷ es) = run (handle e h) es
