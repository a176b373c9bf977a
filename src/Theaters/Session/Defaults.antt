-- ===== src/Theaters/Session/Defaults.antt =====
-- What the booking page has chosen after it was drawn.
use Prim.Native.String.{[], ◌∷◌}
use soldesk.Prelude.{
  ℕ, ◌≡◌, refl, String, List, Option, none, some, Bool, true, false, ◌&&◌, ◌||◌, not, ◌===◌,
  ===_iff, if◌then◌else◌, if_holds, Bool-cases, inl, inr, exists, is_empty, arith,
}
use soldesk.Prelude.Int.{ℤ, eqb_ℤ}
use soldesk.Js.Text.{text_ltb}
use soldesk.Js.Value.{Engine}
use soldesk.Theaters.Dataset.Offers.{Calendar}
use soldesk.Theaters.Prefill.{Chooser, get_all_theaters_sorted}
use soldesk.Theaters.Session.{
  Days, Session, Event, is_set, is_among, keep_or_first, keep_or_first_key, get_date_strip_keys,
  clamped_key, clamp_date_window_to_today, offered_ids, default_choice, default_date, ensure_among,
  ensure_state_defaults, handle, theater_click, movie_click, sort_change, date_click,
  calendar_click, band_click, booked, details_answer, refetched,
}

-- What falls back falls back once.
fallback_twice {ℓ} :
    {A : Type ℓ} (test : A → Bool) (x y : A)
    → let once = if test x then x else y in (if test once then once else y) ≡ once
fallback_twice test x y = elim (Bool-cases (test x)) [
  | inl kept ↦ rw (kept, kept) refl
  | inr other ↦ rw other (if_holds (λ z. z ≡ y) (test y) (λ _. refl) (λ _. refl))
]

text_ltb_irrefl : (s : String) → text_ltb s s ≡ false
unfolding text_ltb
text_ltb_irrefl [] = refl
text_ltb_irrefl (c ∷ s) = ground (arith, text_ltb_irrefl s)

eqb_ℤ_refl : (z : ℤ) → eqb_ℤ z z ≡ true
eqb_ℤ_refl z = ground arith

among_first : (id : ℤ) (ids : List ℤ) → is_among (some id) (List.◌∷◌ id ids) ≡ true
among_first id ids = rw (eqb_ℤ_refl id) refl

-- What is kept or put first is offered, where anything is.
keep_or_first-is_among :
    (selected : Option ℤ) (ids : List ℤ)
    → is_empty ids ≡ false
    → is_among (keep_or_first selected ids) ids ≡ true
unfolding keep_or_first
keep_or_first-is_among selected List.[] h = cc
keep_or_first-is_among selected (List.◌∷◌ id ids) h =
    if_holds (λ o. is_among o (List.◌∷◌ id ids) ≡ true)
      (is_set selected && is_among selected (List.◌∷◌ id ids)) (λ kept. ground (arith, kept))
      (λ other. among_first id ids)

kept_first :
    (id : ℤ) (ids : List ℤ)
    → is_set (some id) ≡ true
    → is_among (some id) ids ≡ true
    → keep_or_first (some id) ids ≡ some id
unfolding keep_or_first
kept_first id List.[] set a = cc
kept_first id (List.◌∷◌ i ids) set a = rw (set, a) refl

keep_or_first_twice :
    (selected : Option ℤ) (ids : List ℤ)
    → keep_or_first (keep_or_first selected ids) ids ≡ keep_or_first selected ids
unfolding keep_or_first
keep_or_first_twice selected List.[] = refl
keep_or_first_twice selected (List.◌∷◌ id ids) =
    fallback_twice (λ o. is_set o && is_among o (List.◌∷◌ id ids)) selected (some id)

keep_or_first_key-exists :
    (selected : String) (keys : List String)
    → is_empty keys ≡ false
    → exists (λ k. k === keep_or_first_key selected keys) keys ≡ true
unfolding keep_or_first_key
keep_or_first_key-exists selected List.[] h = cc
keep_or_first_key-exists selected (List.◌∷◌ key keys) h =
    if_holds (λ k'. exists (λ k. k === k') (List.◌∷◌ key keys) ≡ true)
      (not (selected === "") && exists (λ k. k === selected) (List.◌∷◌ key keys))
      (λ kept. ground (arith, kept)) (λ other. ground (arith, ===_iff key key))

keep_or_first_key_twice :
    (selected : String) (keys : List String)
    → keep_or_first_key (keep_or_first_key selected keys) keys ≡ keep_or_first_key selected keys
unfolding keep_or_first_key
keep_or_first_key_twice selected List.[] = refl
keep_or_first_key_twice selected (List.◌∷◌ key keys) =
    fallback_twice (λ k'. not (k' === "") && exists (λ k. k === k') (List.◌∷◌ key keys)) selected
      key

-- What `ensureStateDefaults` leaves: a theater of the page; a film that this theater offers, or none
-- where it offers none; days that begin today or later; and one of these days.
pub record IsReady (js : Engine) (cal : Calendar) (days : Days) (now : ℕ) (p : Chooser)
    : Type 0 where
  pub theater : is_among p.selected_theater_id (get_all_theaters_sorted p.theaters) ≡ true
  pub movie :
      let offered = offered_ids js cal days p.dataset p.selected_theater_id in
      if is_empty offered
      then p.selected_movie_id ≡ none
      else is_among p.selected_movie_id offered ≡ true
  pub window : text_ltb p.date_window_start_key (cal.key_of now) ≡ false
  pub day :
      is_empty (get_date_strip_keys js cal days now p) ≡ false
      → exists (λ k. k === p.selected_date_key) (get_date_strip_keys js cal days now p) ≡ true

module _ (js : Engine) (cal : Calendar) (days : Days) (now : ℕ) where
  clamped_key-text_ltb :
      (start : String) → text_ltb (clamped_key js cal days now start) (cal.key_of now) ≡ false
  unfolding clamped_key
  clamped_key-text_ltb start =
      if_holds (λ k. text_ltb k (cal.key_of now) ≡ false)
        (start === "" || text_ltb start (cal.key_of now)) (λ _. text_ltb_irrefl (cal.key_of now))
        (λ late. ground (arith, late))

  clamped_key_twice :
      (start : String)
      → clamped_key js cal days now (clamped_key js cal days now start)
        ≡ clamped_key js cal days now start
  unfolding clamped_key
  clamped_key_twice start =
      let today = cal.key_of now in
      elim (Bool-cases (start === "" || text_ltb start today)) [
        | inl past ↦ rw past (
            if_holds (λ k. k ≡ today) (today === "" || text_ltb today today) (λ _. refl)
              (λ _. refl))
        | inr later ↦ rw (later, later) refl
      ]

  offered_choice :
      (selected : Option ℤ) (ids : List ℤ)
      → if is_empty ids
        then keep_or_first selected ids ≡ none
        else is_among (keep_or_first selected ids) ids ≡ true
  unfolding keep_or_first
  offered_choice selected List.[] = refl
  offered_choice selected (List.◌∷◌ id ids) = keep_or_first-is_among selected (List.◌∷◌ id ids) refl

  ensure-IsReady :
      (p : Chooser)
      → is_empty (get_all_theaters_sorted p.theaters) ≡ false
      → IsReady js cal days now (ensure_state_defaults js cal days now p)
  unfolding ensure_state_defaults ensure_among default_choice default_date
      clamp_date_window_to_today get_date_strip_keys
  ensure-IsReady p h = among (get_all_theaters_sorted p.theaters) refl h
    where
      among :
          (ids : List ℤ)
          → get_all_theaters_sorted p.theaters ≡ ids
          → is_empty ids ≡ false
          → IsReady js cal days now (ensure_among js cal days ids now p)
      among List.[] e h' = cc
      among (List.◌∷◌ id ids) e h' = record {
        theater = rw e (keep_or_first-is_among p.selected_theater_id (List.◌∷◌ id ids) refl);
        movie = offered_choice p.selected_movie_id _;
        window = clamped_key-text_ltb p.date_window_start_key;
        day = keep_or_first_key-exists p.selected_date_key _;
      }

  -- The defaults are seen to once: to do it again at the same time, as `mountTheatersMain` does and
  -- then `render`, changes nothing.
  pub ensure_state_defaults_twice :
      (p : Chooser)
      → ensure_state_defaults js cal days now (ensure_state_defaults js cal days now p)
        ≡ ensure_state_defaults js cal days now p
  unfolding ensure_state_defaults ensure_among default_choice default_date
      clamp_date_window_to_today get_date_strip_keys
  ensure_state_defaults_twice p = among (get_all_theaters_sorted p.theaters) refl
    where
      among :
          (ids : List ℤ)
          → get_all_theaters_sorted p.theaters ≡ ids
          → ensure_among js cal days
              (get_all_theaters_sorted (ensure_among js cal days ids now p).theaters)
              now
              (ensure_among js cal days ids now p)
            ≡ ensure_among js cal days ids now p
      among List.[] e = rw e refl
      among (List.◌∷◌ id ids) e = rw e (
          rw
            (
              keep_or_first_twice p.selected_theater_id (List.◌∷◌ id ids),
              keep_or_first_twice p.selected_movie_id _,
              clamped_key_twice p.date_window_start_key,
              keep_or_first_key_twice p.selected_date_key _,
            )
            refl)

  ensure-theaters : (p : Chooser) → (ensure_state_defaults js cal days now p).theaters ≡ p.theaters
  unfolding ensure_state_defaults ensure_among default_choice default_date
      clamp_date_window_to_today
  ensure-theaters p = among (get_all_theaters_sorted p.theaters)
    where
      among : (ids : List ℤ) → (ensure_among js cal days ids now p).theaters ≡ p.theaters
      among List.[] = refl
      among (List.◌∷◌ id ids) = refl

  drawn-IsReady :
      (p : Chooser)
      → is_empty (get_all_theaters_sorted (ensure_state_defaults js cal days now p).theaters)
        ≡ false
      → IsReady js cal days now (ensure_state_defaults js cal days now p)
  drawn-IsReady p h = ensure-IsReady p (rw (ensure-theaters p) at h)

  -- The event is not a click on a day of the calendar before today.
  abbrev pub IsEnabled : Event → Type 0
  IsEnabled (calendar_click key) = text_ltb key (cal.key_of now) ≡ false
  IsEnabled _ = Unit

  -- After any event of the page but a click on a day that is over, and whatever was chosen before: if
  -- there are theaters, then one of them is chosen; a film is chosen that it offers, or none where it
  -- offers none; the days begin today or later; and one of them is chosen, where there are any.
  pub handle-IsReady :
      (e : Event) (s : Session)
      → IsEnabled e
      → is_empty (get_all_theaters_sorted (handle js cal days now e s).chooser.theaters) ≡ false
      → IsReady js cal days now (handle js cal days now e s).chooser
  unfolding handle
  handle-IsReady (theater_click id) s enabled h = drawn-IsReady _ h
  handle-IsReady (movie_click id) s enabled h = drawn-IsReady _ h
  handle-IsReady (sort_change value) s enabled h = drawn-IsReady s.chooser h
  handle-IsReady (date_click key) s enabled h = drawn-IsReady _ h
  handle-IsReady (calendar_click key) s enabled h = rw enabled (drawn-IsReady _ (rw enabled at h))
  handle-IsReady (band_click band) s enabled h = drawn-IsReady s.chooser h
  handle-IsReady (booked id seats) s enabled h = drawn-IsReady _ h
  handle-IsReady (details_answer details seats) s enabled h = drawn-IsReady _ h
  handle-IsReady (refetched d theaters) s enabled h = drawn-IsReady _ h

  -- A choice of a theater that is there and of a film that it offers stays.
  pub kept_choice :
      (q : Chooser) (t m : ℤ)
      → q.selected_theater_id ≡ some t
      → is_set (some t) ≡ true
      → is_among (some t) (get_all_theaters_sorted q.theaters) ≡ true
      → q.selected_movie_id ≡ some m
      → is_set (some m) ≡ true
      → is_among (some m) (offered_ids js cal days q.dataset (some t)) ≡ true
      → ((ensure_state_defaults js cal days now q).selected_theater_id ≡ some t)
        × ((ensure_state_defaults js cal days now q).selected_movie_id ≡ some m)
  unfolding ensure_state_defaults ensure_among default_choice default_date
      clamp_date_window_to_today
  kept_choice q t m et set_t among_t em set_m among_m =
      let theater = kept_first t (get_all_theaters_sorted q.theaters) set_t among_t in
      among (get_all_theaters_sorted q.theaters) among_t theater
    where
      among :
          (ids : List ℤ)
          → is_among (some t) ids ≡ true
          → keep_or_first (some t) ids ≡ some t
          → ((ensure_among js cal days ids now q).selected_theater_id ≡ some t)
            × ((ensure_among js cal days ids now q).selected_movie_id ≡ some m)
      among List.[] a e = cc
      among (List.◌∷◌ id ids) a e =
          rw (et, e, em)
            (refl, kept_first m (offered_ids js cal days q.dataset (some t)) set_m among_m)
