-- ===== src/Theaters/Dataset/Laws.antt =====
-- What the booking page for screenings offers, and what a booking and a refreshed answer change.
use soldesk.Prelude.{
  leb, ltb, ◌||◌, exists, sym, ℕ, ◌≡◌, refl, ap, ◌∙◌, String, List, [], ◌∷◌, map, Option, none,
  some, Bool, true, false, ◌&&◌, ◌===◌, ===_iff, if◌then◌else◌, Bool-cases, inl, inr, keep, arith,
}
use soldesk.Prelude.Int.{ℤ, pos, eqb_ℤ}
use soldesk.Js.TextSet.{has, add_all, has-add_all, Distinct, add_all-Distinct}
use soldesk.Js.Value.{Engine, Value, number, whole, truthy, or_else, string_of, to_int}
use soldesk.Catalogue.Order.{sort_by-with_key, sort_by-Ordered, with_key, Ordered}
use soldesk.Theaters.Dataset.{
  RawSchedule, Screening, Dataset, Detail, SeatStore, stored_seats, store_seats, at_schedule,
  normalize_schedule, merge_into, merge_details, merge_seats, merge_theater_detail_slice, on_booked,
}
use soldesk.Theaters.Dataset.Offers.{
  Choice, Calendar, get_theater_schedules, is_offered, get_schedules_for_selection, time_or_zero,
  band_of_hour, to_date_key, get_time_band,
}

-- The hours of a band of the day; a name that is none of these has no hours.
abbrev pub in_band : String → ℕ → Bool
in_band band hour =
    (band === "ALL")
    || (band === "LATE" && (leb 23 hour || ltb hour 5))
    || (band === "AFTER_19" && leb 19 hour && ltb hour 23)
    || (band === "AFTER_13" && leb 13 hour && ltb hour 19)

-- What it takes for a screening to be offered: it has a time, which is not over, on the day of the
-- choice and in its band; it is one of the film; and its hall is one of the theater.
abbrev pub is_bookable : Calendar → ℕ → Choice → Dataset → Screening → Bool
is_bookable cal now c d s = elim (cal.time_of s.show_date) [
  | none ↦ false
  | some t ↦
      leb now t
      && (cal.key_of t === c.date_key)
      && in_band c.time_band (cal.hour_of t)
      && eqb_ℤ s.movie_id c.movie_id
      && exists (λ h. eqb_ℤ h.theater_id c.theater_id && eqb_ℤ h.hall_id s.hall_id) d.halls
]

===_sym : (s t : String) → (s === t) ≡ (t === s)
===_sym s t = ground (arith, ===_iff s t, ===_iff t s)

band_of_hour-in_band :
    (band : String) (hour : ℕ)
    → (if band === "ALL" then true else band_of_hour hour === band) ≡ in_band band hour
unfolding band_of_hour
band_of_hour-in_band band hour = ground (
  arith,
  ===_sym "LATE" band,
  ===_sym "AFTER_19" band,
  ===_sym "AFTER_13" band,
  ===_sym "ALL" band,
)

exists-keep {ℓ} :
    {A : Type ℓ} (p q : A → Bool) (xs : List A) → exists p (keep q xs) ≡ exists (λ x. q x && p x) xs
exists-keep p q [] = refl
exists-keep p q (x ∷ xs) = let further = exists-keep p q xs in ground (arith, further)

keep_both :
    (p q r : Screening → Bool) (xs : List Screening)
    → ((x : Screening) → (q x && p x) ≡ r x)
    → keep p (keep q xs) ≡ keep r xs
keep_both p q r [] same = refl
keep_both p q r (x ∷ xs) same = elim (Bool-cases (q x)) [
  | inl fits ↦ elim (Bool-cases (p x)) [
    | inl both ↦
        let both_fit : r x ≡ true = sym (same x) ∙ ground (arith, fits, both) in
        rw (fits, both, both_fit, keep_both p q r xs same) refl
    | inr one ↦
        let one_fails : r x ≡ false = sym (same x) ∙ ground (arith, fits, one) in
        rw (fits, one, one_fails, keep_both p q r xs same) refl
  ]
  | inr misfits ↦
      let fails : r x ≡ false = sym (same x) ∙ ground (arith, misfits) in
      rw (misfits, fails, keep_both p q r xs same) refl
]

-- The tests of the code are those of the description.
tests_lem :
    (cal : Calendar) (now : ℕ) (c : Choice) (d : Dataset) (s : Screening) (time : Option ℕ)
    → cal.time_of s.show_date ≡ time
    → (exists (λ h. eqb_ℤ h.hall_id s.hall_id) (keep (λ h. eqb_ℤ h.theater_id c.theater_id) d.halls)
        && is_offered cal now c s)
      ≡ is_bookable cal now c d s
unfolding is_offered to_date_key get_time_band
tests_lem cal now c d s none e =
    rw (is_bookable, to_date_key, get_time_band, e)
      (never
        (exists (λ h. eqb_ℤ h.hall_id s.hall_id)
          (keep (λ h. eqb_ℤ h.theater_id c.theater_id) d.halls))
        (eqb_ℤ s.movie_id c.movie_id) ("" === c.date_key)
        (if c.time_band === "ALL" then true else "ALL" === c.time_band))
  where
    never : (x m k b : Bool) → (x && (m && k && false && b)) ≡ false
    never x m k b = ground arith
tests_lem cal now c d s (some t) e =
    let halls =
      exists-keep (λ h. eqb_ℤ h.hall_id s.hall_id) (λ h. eqb_ℤ h.theater_id c.theater_id) d.halls in
    let band = band_of_hour-in_band c.time_band (cal.hour_of t) in
    rw (is_bookable, to_date_key, get_time_band, e, halls, band)
      (another_order
        (exists (λ h. eqb_ℤ h.theater_id c.theater_id && eqb_ℤ h.hall_id s.hall_id) d.halls)
        (eqb_ℤ s.movie_id c.movie_id) (cal.key_of t === c.date_key) (leb now t)
        (in_band c.time_band (cal.hour_of t)))
  where
    another_order : (x m k n b : Bool) → (x && (m && k && n && b)) ≡ (n && k && b && m && x)
    another_order x m k n b = ground arith

-- The screenings that are offered come by time, and those of one time are the screenings of the data
-- that are not over and of the day, the band, the film and the theater of the choice, as often and in
-- the same order.
pub get_schedules_for_selection_lem :
    (cal : Calendar) (now : ℕ) (c : Choice) (d : Dataset) (time : ℕ)
    → Ordered (time_or_zero cal) (get_schedules_for_selection cal now c d)
      × (with_key (time_or_zero cal) time (get_schedules_for_selection cal now c d)
          ≡ with_key (time_or_zero cal) time (keep (is_bookable cal now c d) d.schedules))
unfolding get_schedules_for_selection get_theater_schedules
get_schedules_for_selection_lem cal now c d time =
    let offered = keep (is_offered cal now c) (get_theater_schedules d c.theater_id) in
    (
      sort_by-Ordered (time_or_zero cal) offered,
      sort_by-with_key (time_or_zero cal) time offered
          ∙ ap (with_key (time_or_zero cal) time) (
              keep_both (is_offered cal now c) _ (is_bookable cal now c d) d.schedules
                (λ s. tests_lem cal now c d s (cal.time_of s.show_date) refl)),
    )

stored_seats-store_seats :
    (key k : String) (seats : List String) (store : SeatStore)
    → stored_seats key (store_seats k seats store)
      ≡ (if k === key then seats else stored_seats key store)
unfolding stored_seats store_seats
stored_seats-store_seats key k seats [] = ground arith
stored_seats-store_seats key k seats ((k', old) ∷ store) =
    ground (
      arith,
      stored_seats-store_seats key k seats store,
      ===_iff k' k,
      ===_iff k' key,
      ===_iff k key,
    )

at_schedule-ids :
    (id : ℤ) (f : Screening → Screening) (schedules : List Screening)
    → ((s : Screening) → (f s).schedule_id ≡ s.schedule_id)
    → map (λ s. s.schedule_id) (at_schedule id f schedules) ≡ map (λ s. s.schedule_id) schedules
unfolding at_schedule
at_schedule-ids id f [] same = refl
at_schedule-ids id f (s ∷ schedules) same = elim (Bool-cases (eqb_ℤ s.schedule_id id)) [
  | inl here ↦ rw here (ap (λ i. i ∷ map (λ s. s.schedule_id) schedules) (same s))
  | inr later ↦ rw later (ap (s.schedule_id ∷◌) (at_schedule-ids id f schedules same))
]

module _ (js : Engine) where
  merge_details-ids :
      (details : List Detail) (schedules : List Screening)
      → map (λ s. s.schedule_id) (merge_details js details schedules)
        ≡ map (λ s. s.schedule_id) schedules
  unfolding merge_details
  merge_details-ids [] schedules = refl
  merge_details-ids (incoming ∷ details) schedules =
      merge_details-ids details
        (at_schedule (to_int js incoming.schedule_id) (merge_into js incoming) schedules)
      ∙ at_schedule-ids (to_int js incoming.schedule_id) (merge_into js incoming) schedules
          (λ s. refl)

  abbrev pub has_entry : String → List (String × Option (List Value)) → Bool
  has_entry key [] = false
  has_entry key ((k, _) ∷ more) = if k === key then true else has_entry key more

  merge_seats-others :
      (key : String) (seats : List (String × Option (List Value))) (store : SeatStore)
      → has_entry key seats ≡ false
      → stored_seats key (merge_seats js seats store) ≡ stored_seats key store
  unfolding merge_seats
  merge_seats-others key [] store new = refl
  merge_seats-others key ((k, none) ∷ more) store new =
      let elsewhere : (k === key) ≡ false = ground arith in
      merge_seats-others key more (store_seats k [] store) (ground arith)
      ∙ stored_seats-store_seats key k [] store
      ∙ rw elsewhere
  merge_seats-others key ((k, some values) ∷ more) store new =
      let elsewhere : (k === key) ≡ false = ground arith in
      merge_seats-others key more (store_seats k (map (string_of js) values) store) (ground arith)
      ∙ stored_seats-store_seats key k (map (string_of js) values) store
      ∙ rw elsewhere

  -- A refreshed answer adds and removes no screening and keeps their order, and the reserved seats
  -- of a screening that it does not name stay as they were.
  pub merge_theater_detail_slice_lem :
      (d : Dataset) (details : List Detail) (seats : List (String × Option (List Value)))
      (key : String)
      → has_entry key seats ≡ false
      → let after = merge_theater_detail_slice js d details seats in
        (map (λ s. s.schedule_id) after.schedules ≡ map (λ s. s.schedule_id) d.schedules)
        × (stored_seats key after.reserved_seats ≡ stored_seats key d.reserved_seats)
  unfolding merge_theater_detail_slice
  merge_theater_detail_slice_lem d details seats key new =
      (merge_details-ids details d.schedules, merge_seats-others key seats d.reserved_seats new)

  -- Where the reserved seats of a screening are distinct, then after a booking in it they are still
  -- so, a seat is among them just if it was or is one of the booked ones, the seats under another
  -- key stay, and no screening is added or removed.
  pub on_booked_lem :
      (id : ℤ) (selected : List String) (d : Dataset) (seat key : String)
      → Distinct (stored_seats (js.show (whole id)) d.reserved_seats)
      → (js.show (whole id) === key) ≡ false
      → let own = js.show (whole id) in
        let after = on_booked js id selected d in
        (has seat (stored_seats own after.reserved_seats)
          ≡ (if has seat selected then true else has seat (stored_seats own d.reserved_seats)))
        × Distinct (stored_seats own after.reserved_seats)
        × (stored_seats key after.reserved_seats ≡ stored_seats key d.reserved_seats)
        × (map (λ s. s.schedule_id) after.schedules ≡ map (λ s. s.schedule_id) d.schedules)
  unfolding on_booked
  on_booked_lem id selected d seat key distinct other =
      let own = js.show (whole id) in
      let old = stored_seats own d.reserved_seats in
      let new : stored_seats own (on_booked js id selected d).reserved_seats
          ≡ add_all selected old =
        stored_seats-store_seats own own (add_all selected old) d.reserved_seats
        ∙ ground (arith, ===_iff own own) in
      (
        rw new (has-add_all selected seat old),
        rw new (add_all-Distinct selected old distinct),
        stored_seats-store_seats key own (add_all selected old) d.reserved_seats ∙ rw other,
        at_schedule-ids id _ d.schedules (λ s. refl),
      )

  -- A screening whose answer says that no seat is left is taken for one with all seats left.
  sold_out_as_full :
      (index : ℕ) (item : RawSchedule)
      → item.remain_count ≡ number (whole (pos 0))
      → truthy item.total_count ≡ true
      → (normalize_schedule js index item).remain_count
        ≡ (normalize_schedule js index item).total_count
  unfolding normalize_schedule or_else truthy
  sold_out_as_full index item none_left counted = rw (none_left, counted) refl
