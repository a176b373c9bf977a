-- ===== src/Theaters/Prefill/Times.antt =====
-- The earliest screening of a film, and what is offered on its day.
use soldesk.Prelude.{
  ℕ, ◌≡◌, refl, sym, ap, ◌∙◌, String, List, [], ◌∷◌, Option, none, some, Bool, true, false, ◌&&◌,
  ◌||◌, not, ◌===◌, ===_iff, ◌==◌, leb, if◌then◌else◌, Bool-cases, inl, inr, keep, find, exists,
  is_empty, arith,
}
use mathlib.Core.Option.{some-injective}
use soldesk.Prelude.Int.{ℤ, eqb_ℤ}
use soldesk.Catalogue.Order.{sort_by-is_empty}
use soldesk.Theaters.Dataset.{Dataset, Screening}
use soldesk.Theaters.Dataset.Offers.{
  Calendar, Choice, get_theater_schedules, get_schedules_for_selection, is_offered, to_date_key,
  time_or_zero,
}
use soldesk.Theaters.Prefill.{sooner, take_time, best_time}

abbrev pub is_some {ℓ} : {A : Type ℓ} → Option A → Bool
is_some none = false
is_some (some _) = true

keep-is_empty {ℓ} :
    {A : Type ℓ} (p : A → Bool) (xs : List A) → is_empty (keep p xs) ≡ not (exists p xs)
keep-is_empty p [] = refl
keep-is_empty p (x ∷ xs) = elim (Bool-cases (p x)) [
  | inl fits ↦ rw fits refl
  | inr misfits ↦ rw (misfits, keep-is_empty p xs) refl
]

-- A time from `now` on, and the time `t` from then on.
abbrev pub is_ahead : ℕ → Option ℕ → Bool
is_ahead now none = false
is_ahead now (some t) = leb now t

is_at : ℕ → Option ℕ → Bool
is_at t none = false
is_at t (some u) = u == t

take_time-is_some :
    (now : ℕ) (film : Bool) (time best : Option ℕ)
    → is_some (take_time now film time best) ≡ (is_some best || (film && is_ahead now time))
unfolding take_time sooner
take_time-is_some now false time none = refl
take_time-is_some now false time (some b) = refl
take_time-is_some now true none none = refl
take_time-is_some now true none (some b) = refl
take_time-is_some now true (some t) none = ground arith
take_time-is_some now true (some t) (some b) = ground arith

take_time-is_at :
    (now t : ℕ) (film : Bool) (time best : Option ℕ)
    → is_at t (take_time now film time best) ≡ true
    → (is_at t best || (film && is_ahead now time && is_at t time)) ≡ true
unfolding take_time is_at sooner
take_time-is_at now t false time none e = e
take_time-is_at now t false time (some b) e = ground (arith, e)
take_time-is_at now t true none none e = e
take_time-is_at now t true none (some b) e = ground (arith, e)
take_time-is_at now t true (some u) none e = ground (arith, e)
take_time-is_at now t true (some u) (some b) e = ground (arith, e)

or_cases : (p q r : Bool) → ((p || q) || r) ≡ (p || (if q then true else r))
or_cases true q r = refl
or_cases false true r = refl
or_cases false false r = refl

or_found :
    (a p q r : Bool)
    → (a ≡ true → (p || q) ≡ true)
    → (a || r) ≡ true
    → (p || (if q then true else r)) ≡ true
or_found a true q r f e = refl
or_found a false true r f e = refl
or_found true false false r f e = ground (arith, f refl)
or_found false false false r f e = e

exists_monotone {ℓ} :
    {A : Type ℓ} (p q : A → Bool) (xs : List A)
    → ((x : A) → p x ≡ true → q x ≡ true)
    → exists p xs ≡ true
    → exists q xs ≡ true
exists_monotone p q [] imp e = e
exists_monotone p q (x ∷ xs) imp e = elim (Bool-cases (p x)) [
  | inl fits ↦ rw (imp x fits) refl
  | inr misfits ↦ ground (arith, exists_monotone p q xs imp (rw misfits at e))
]

pub find_fits {ℓ} :
    {A : Type ℓ} (p : A → Bool) (xs : List A) (x : A) → find p xs ≡ some x → p x ≡ true
find_fits p [] x e = cc
find_fits p (y ∷ xs) x e = elim (Bool-cases (p y)) [
  | inl fits ↦ ap p (sym (some-injective y x (rw fits at e))) ∙ fits
  | inr misfits ↦ find_fits p xs x (rw misfits at e)
]

offered_at :
    (cal : Calendar) (now t : ℕ) (film : Bool) (time : Option ℕ)
    → (film && is_ahead now time && is_at t time) ≡ true
    → (film
        && (elim time [ none ↦ "" | some u ↦ cal.key_of u ] === cal.key_of t)
        && is_ahead now time
        && true)
      ≡ true
unfolding is_at
offered_at cal now t false time e = e
offered_at cal now t true none e = ground (arith, e)
offered_at cal now t true (some u) e = ground (arith, e, ===_iff (cal.key_of u) (cal.key_of t))

offered_later :
    (now : ℕ) (film dated : Bool) (time : Option ℕ)
    → (film && dated && is_ahead now time && true) ≡ true
    → (film && is_ahead now time) ≡ true
offered_later now false dated time e = e
offered_later now true false time e = ground (arith, e)
offered_later now true true none e = e
offered_later now true true (some u) e = ground (arith, e)

module _ (cal : Calendar) (now : ℕ) (movie_id : ℤ) where
  abbrev pub is_coming : Screening → Bool
  is_coming s = eqb_ℤ s.movie_id movie_id && is_ahead now (cal.time_of s.show_date)

  comes_at : ℕ → Screening → Bool
  unfolding is_at
  comes_at t s =
      eqb_ℤ s.movie_id movie_id
      && is_ahead now (cal.time_of s.show_date)
      && is_at t (cal.time_of s.show_date)

  pub best_time-is_some :
      (best : Option ℕ) (schedules : List Screening)
      → is_some (best_time cal now movie_id best schedules)
        ≡ (is_some best || exists is_coming schedules)
  unfolding best_time
  best_time-is_some none [] = refl
  best_time-is_some (some b) [] = refl
  best_time-is_some best (s ∷ schedules) =
      best_time-is_some (take_time now (eqb_ℤ s.movie_id movie_id) (cal.time_of s.show_date) best)
        schedules
      ∙ rw (take_time-is_some now (eqb_ℤ s.movie_id movie_id) (cal.time_of s.show_date) best)
          (or_cases (is_some best) (is_coming s) (exists is_coming schedules))

  best_time-is_at :
      (t : ℕ) (best : Option ℕ) (schedules : List Screening)
      → is_at t (best_time cal now movie_id best schedules) ≡ true
      → (is_at t best || exists (comes_at t) schedules) ≡ true
  unfolding best_time is_at comes_at
  best_time-is_at t none [] e = e
  best_time-is_at t (some b) [] e = ground (arith, e)
  best_time-is_at t best (s ∷ schedules) e =
      or_found _ (is_at t best) (comes_at t s) (exists (comes_at t) schedules)
        (take_time-is_at now t (eqb_ℤ s.movie_id movie_id) (cal.time_of s.show_date) best)
        (best_time-is_at t
          (take_time now (eqb_ℤ s.movie_id movie_id) (cal.time_of s.show_date) best) schedules e)

  abbrev pub chosen : ℤ → String → Choice
  chosen theater_id date_key = record {
    theater_id = theater_id;
    movie_id = movie_id;
    date_key = date_key;
    time_band = "ALL";
  }

  comes_at-is_offered :
      (t : ℕ) (theater_id : ℤ) (s : Screening)
      → comes_at t s ≡ true
      → is_offered cal now (chosen theater_id (cal.key_of t)) s ≡ true
  unfolding comes_at is_at is_offered to_date_key
  comes_at-is_offered t theater_id s e =
      offered_at cal now t (eqb_ℤ s.movie_id movie_id) (cal.time_of s.show_date) e

  is_offered-is_coming :
      (theater_id : ℤ) (date_key : String) (s : Screening)
      → is_offered cal now (chosen theater_id date_key) s ≡ true
      → is_coming s ≡ true
  unfolding is_offered
  is_offered-is_coming theater_id date_key s e =
      offered_later now (eqb_ℤ s.movie_id movie_id) (to_date_key cal s.show_date === date_key)
        (cal.time_of s.show_date) e

  selection-is_empty :
      (c : Choice) (d : Dataset)
      → is_empty (get_schedules_for_selection cal now c d)
        ≡ not (exists (is_offered cal now c) (get_theater_schedules d c.theater_id))
  unfolding get_schedules_for_selection
  selection-is_empty c d =
      sort_by-is_empty (time_or_zero cal)
        (keep (is_offered cal now c) (get_theater_schedules d c.theater_id))
      ∙ keep-is_empty (is_offered cal now c) (get_theater_schedules d c.theater_id)

  pub none_offered :
      (d : Dataset) (theater_id : ℤ) (date_key : String)
      → exists is_coming (get_theater_schedules d theater_id) ≡ false
      → is_empty (get_schedules_for_selection cal now (chosen theater_id date_key) d) ≡ true
  none_offered d theater_id date_key none_comes =
      let schedules = get_theater_schedules d theater_id in
      let offered : Screening → Bool = is_offered cal now (chosen theater_id date_key) in
      let nothing : exists offered schedules ≡ false =
        elim (Bool-cases (exists offered schedules)) [
          | inl some_offered ↦ ground (
            arith,
            exists_monotone offered is_coming schedules (is_offered-is_coming theater_id date_key)
                some_offered,
            none_comes,
          )
          | inr none_of ↦ none_of
        ] in
      selection-is_empty (chosen theater_id date_key) d ∙ ap not nothing

  pub day_offered :
      (d : Dataset) (theater_id : ℤ) (best : Option ℕ)
      → best_time cal now movie_id none (get_theater_schedules d theater_id) ≡ best
      → (t : ℕ) → best ≡ some t
      → is_empty (get_schedules_for_selection cal now (chosen theater_id (cal.key_of t)) d) ≡ false
  unfolding is_at
  day_offered d theater_id best e t here =
      let schedules = get_theater_schedules d theater_id in
      let found : is_at t (best_time cal now movie_id none schedules) ≡ true =
        rw (e, here) (ground arith) in
      selection-is_empty (chosen theater_id (cal.key_of t)) d
      ∙ ap not (
          exists_monotone (comes_at t) (is_offered cal now (chosen theater_id (cal.key_of t)))
            schedules (comes_at-is_offered t theater_id) (best_time-is_at t none schedules found))
