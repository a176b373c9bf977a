-- ===== src/Concert/Page/Booked.antt =====
-- What a booking changes on the page of a concert.
use soldesk.Prelude.{
  ◌&&◌, ℕ, ◌-◌, ◌≤◌, ◌≡◌, refl, ap, ◌∙◌, String, List, [], ◌∷◌, Bool, true, false, ◌===◌, ===_iff,
  if◌then◌else◌, Bool-cases, inl, inr, length, arith, Option, none, some,
}
use mathlib.Core.Option.{some-injective}
use soldesk.Prelude.Int.{pos, pos_part, leb_ℤ}
use soldesk.Js.Value.{Engine, number, whole, text, string_of, to_int, text_or_empty}
use soldesk.Concert.Page.{Show, Page, at_show, book_in, is_disabled, on_booked}

-- The first show with an id.
abbrev pub find_show : Engine → String → List Show → Option Show
find_show js sid [] = none
find_show js sid (s ∷ shows) =
    if string_of js s.show_id === sid then some s else find_show js sid shows

module _ (js : Engine) where
  disabled_of_sold :
      (t : Show) → leb_ℤ (to_int js t.remain_count) (pos 0) ≡ true → is_disabled js t ≡ true
  unfolding is_disabled
  disabled_of_sold t sold = rw sold (either_way _)
    where
      either_way : (b : Bool) → (if b then true else true) ≡ true
      either_way true = refl
      either_way false = refl

  -- The show without a seat left, its status "CLOSED" where it was "OPEN".
  abbrev closed : Show → Show
  closed s = record s {
    remain_count = number (whole (pos 0));
    status = if js.upper (text_or_empty js s.status) === "OPEN" then text "CLOSED" else s.status;
  }

  book_in-show_id : (count : ℕ) (s : Show) → (book_in js count s).show_id ≡ s.show_id
  unfolding book_in
  book_in-show_id count s = ground arith

  sold_out :
      (count : ℕ) (s : Show)
      → pos_part (to_int js s.remain_count) ≤ count
      → book_in js count s ≡ closed s
  unfolding book_in to_int
  sold_out count s enough =
      let gone : pos_part (to_int js s.remain_count) - count ≡ 0 = omega arith in
      rw gone (by_status (js.upper (text_or_empty js s.status) === "OPEN"))
    where
      by_status :
          (is_open : Bool)
          → (if is_open && true
              then record s { remain_count = number (whole (pos 0)); status = text "CLOSED" }
              else record s { remain_count = number (whole (pos 0)) })
            ≡ record s {
              remain_count = number (whole (pos 0));
              status = if is_open then text "CLOSED" else s.status;
            }
      by_status true = refl
      by_status false = refl

  find-at_show :
      (sid : String) (f : Show → Show) (shows : List Show) (s : Show)
      → ((t : Show) → (f t).show_id ≡ t.show_id)
      → find_show js sid shows ≡ some s
      → find_show js sid (at_show js sid f shows) ≡ some (f s)
  unfolding at_show
  find-at_show sid f [] s same e = cc
  find-at_show sid f (t ∷ shows) s same e = elim (Bool-cases (string_of js t.show_id === sid)) [
    | inl here ↦
        let found : t ≡ s = some-injective t s (rw here at e) in
        let kept : (string_of js (f t).show_id === sid) ≡ true =
          ap (λ v. string_of js v === sid) (same t) ∙ here in
        rw here (simp kept (ap (λ u. some (f u)) found))
    | inr later ↦ rw (later, later) (find-at_show sid f shows s same (rw later at e))
  ]

  others-at_show :
      (sid key : String) (f : Show → Show) (shows : List Show)
      → ((t : Show) → (f t).show_id ≡ t.show_id)
      → (sid === key) ≡ false
      → find_show js key (at_show js sid f shows) ≡ find_show js key shows
  unfolding at_show
  others-at_show sid key f [] same other = refl
  others-at_show sid key f (t ∷ shows) same other =
      elim (Bool-cases (string_of js t.show_id === sid)) [
        | inl here ↦
            let apart : (string_of js t.show_id === key) ≡ false = ground (
              arith,
              here,
              ===_iff (string_of js t.show_id) sid,
              ===_iff (string_of js t.show_id) key,
              ===_iff sid key,
            ) in
            rw (here, same t, apart) refl
        | inr later ↦ elim (Bool-cases (string_of js t.show_id === key)) [
          | inl there ↦ rw (later, there) refl
          | inr elsewhere ↦ rw (later, elsewhere) (others-at_show sid key f shows same other)
        ]
      ]

  -- A booking of all seats that are left in a show closes it: before the page has asked for the show
  -- again, no seat is left in it, its status is "CLOSED" where it was "OPEN" and else what it was, and
  -- its button is disabled; and the shows with other ids are as they were.
  pub booked_out_closes :
      (sid key : String) (selected : List String) (p : Page) (s : Show)
      → find_show js sid p.shows ≡ some s
      → pos_part (to_int js s.remain_count) ≤ length selected
      → (sid === key) ≡ false
      → let after = on_booked js sid selected p in
        let left : Show = record s {
          remain_count = number (whole (pos 0));
          status =
              if js.upper (text_or_empty js s.status) === "OPEN" then text "CLOSED" else s.status;
        } in
        (find_show js sid after.shows ≡ some left)
        × (is_disabled js left ≡ true)
        × (find_show js key after.shows ≡ find_show js key p.shows)
  unfolding on_booked to_int
  booked_out_closes sid key selected p s found enough other = (
    find-at_show sid (book_in js (length selected)) p.shows s (book_in-show_id (length selected))
          found
        ∙ ap some (sold_out (length selected) s enough),
    disabled_of_sold (closed s) refl,
    others-at_show sid key (book_in js (length selected)) p.shows
        (book_in-show_id (length selected)) other,
  )
