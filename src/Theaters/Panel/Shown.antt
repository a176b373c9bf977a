-- ===== src/Theaters/Panel/Shown.antt =====
-- How often the panel shows a screening.
use soldesk.Prelude.{
  ℕ, ◌+◌, ◌≤◌, ◌≡◌, refl, sym, ap, ◌∙◌, String, List, [], ◌∷◌, ◌++◌, map, Bool, true, false, not,
  ◌&&◌, ◌===◌, if◌then◌else◌, Bool-cases, inl, inr, if_holds, if_false, is_empty, keep, exists,
  length, All, arith,
}
use soldesk.Prelude.Int.{ℤ, eqb_ℤ}
use soldesk.Js.Value.{Engine}
use soldesk.Catalogue.Order.{sort_by-every}
use soldesk.Theaters.Dataset.{Dataset, Screening, HallOf}
use soldesk.Theaters.Dataset.Offers.{
  Calendar, Choice, get_theater_schedules, get_schedules_for_selection, is_offered, time_or_zero,
}
use soldesk.Theaters.Session.{Session, is_set}
use soldesk.Theaters.Panel.{
  Group, Panel, no_times, groups, create_schedule_card, id_or_zero, insert_hall, sort_halls,
  get_halls_for_theater_sorted, selected_schedules, has_movies, render_date_panel,
}
use soldesk.Theaters.Panel.Groups.{
  in_hall, section_of, plain_panel, render_date_panel_lem, keep-All, keep-holds,
}

-- How many elements pass a test.
abbrev pub count {ℓ} : {A : Type ℓ} → (A → Bool) → List A → ℕ
count p xs = length (keep p xs)

-- The screenings whose cards a panel has.
abbrev pub shown_in : List Group → List Screening
shown_in [] = []
shown_in (g ∷ gs) = map (λ c. c.schedule) g.cards ++ shown_in gs

abbrev pub shown : Panel → List Screening
shown (groups gs) = shown_in gs
shown _ = []

-- No two halls of the theater have the same id.
abbrev pub OneHallEach : Dataset → ℤ → Type 0
OneHallEach d theater_id =
    (id : ℤ)
    → count (λ h. eqb_ℤ h.hall_id id) (keep (λ h. eqb_ℤ h.theater_id theater_id) d.halls) ≤ 1

abbrev halls_with : ℤ → List HallOf → ℕ
halls_with id halls = count (λ h. eqb_ℤ h.hall_id id) halls

count-append {ℓ} :
    {A : Type ℓ} (p : A → Bool) (xs ys : List A) → count p (xs ++ ys) ≡ count p xs + count p ys
count-append p [] ys = omega arith
count-append p (x ∷ xs) ys = ground (arith, count-append p xs ys)

-- How often the sections of these halls show the screenings that pass a test.
total : (Screening → Bool) → List HallOf → List Screening → ℕ
total p halls [] = 0
total p halls (s ∷ schedules) =
    (if p s then halls_with s.hall_id halls else 0) + total p halls schedules

total-nil : (p : Screening → Bool) (schedules : List Screening) → total p [] schedules ≡ 0
unfolding total
total-nil p [] = refl
total-nil p (s ∷ schedules) = ground (arith, total-nil p schedules)

total-cons :
    (p : Screening → Bool) (hall : HallOf) (halls : List HallOf) (schedules : List Screening)
    → total p (hall ∷ halls) schedules
      ≡ count p (in_hall hall.hall_id schedules) + total p halls schedules
unfolding total
total-cons p hall halls [] = refl
total-cons p hall halls (s ∷ schedules) =
    let further = total-cons p hall halls schedules in
    elim (Bool-cases (eqb_ℤ s.hall_id hall.hall_id)) [
      | inl here ↦
          let there : eqb_ℤ hall.hall_id s.hall_id ≡ true = ground arith in
          rw (here, there) (ground (arith, further))
      | inr elsewhere ↦
          let apart : eqb_ℤ hall.hall_id s.hall_id ≡ false = ground arith in
          rw (elsewhere, apart) (ground (arith, further))
    ]

total-once :
    (p : Screening → Bool) (halls : List HallOf) (schedules : List Screening)
    → All (λ s. halls_with s.hall_id halls ≡ 1) schedules
    → total p halls schedules ≡ count p schedules
unfolding total
total-once p halls [] a = refl
total-once p halls (s ∷ schedules) (once, a) =
    let further = total-once p halls schedules a in ground (arith, once, further)

module _ (in_order : String → String → Bool) where
  count-insert_hall :
      (q : HallOf → Bool) (h : HallOf) (hs : List HallOf)
      → count q (insert_hall in_order h hs) ≡ count q (h ∷ hs)
  unfolding insert_hall
  count-insert_hall q h [] = refl
  count-insert_hall q h (g ∷ gs) =
      if_holds (λ xs. count q xs ≡ count q (h ∷ g ∷ gs)) (in_order h.hall_name g.hall_name)
        (λ _. refl) (λ _. let further = count-insert_hall q h gs in ground (arith, further))

  count-sort_halls :
      (q : HallOf → Bool) (hs : List HallOf) → count q (sort_halls in_order hs) ≡ count q hs
  unfolding sort_halls
  count-sort_halls q [] = refl
  count-sort_halls q (h ∷ hs) =
      let further = count-sort_halls q hs in
      count-insert_hall q h (sort_halls in_order hs) ∙ ground (arith, further)

exists-counts {ℓ} : {A : Type ℓ} (q : A → Bool) (xs : List A) → exists q xs ≡ true → 1 ≤ count q xs
exists-counts q [] e = ground arith
exists-counts q (x ∷ xs) e = elim (Bool-cases (q x)) [
  | inl here ↦ rw here (omega arith)
  | inr later ↦ let further = exists-counts q xs (sym (if_false _ _ later) ∙ e) in rw later further
]

All-map {ℓ κ κ'} :
    {A : Type ℓ} (P : A → Type κ) (Q : A → Type κ') (xs : List A)
    → ((x : A) → P x → Q x)
    → All P xs
    → All Q xs
All-map P Q [] f a = tt
All-map P Q (x ∷ xs) f (p, a) = (f x p, All-map P Q xs f a)

module _ (js : Engine) (cal : Calendar) where
  cards-schedules :
      (schedules : List Screening)
      → map (λ c. c.schedule) (map (create_schedule_card js) schedules) ≡ schedules
  unfolding create_schedule_card
  cards-schedules [] = refl
  cards-schedules (s ∷ schedules) = ap (s ∷◌) (cards-schedules schedules)

  shown-total :
      (p : Screening → Bool) (halls : List HallOf) (schedules : List Screening)
      → count p (shown_in (map (section_of js cal schedules) halls)) ≡ total p halls schedules
  shown-total p [] schedules = sym (total-nil p schedules)
  shown-total p (hall ∷ halls) schedules =
      let own = in_hall hall.hall_id schedules in
      count-append p (map (λ c. c.schedule) (map (create_schedule_card js) own))
        (shown_in (map (section_of js cal schedules) halls))
      ∙ ap (λ xs. count p xs + count p (shown_in (map (section_of js cal schedules) halls)))
          (cards-schedules own)
      ∙ ap (count p own +◌) (shown-total p halls schedules)
      ∙ sym (total-cons p hall halls schedules)

  module _ (in_order : String → String → Bool) where
    offered-once :
        (d : Dataset) (now : ℕ) (c : Choice)
        → OneHallEach d c.theater_id
        → All
            (λ s. halls_with s.hall_id (get_halls_for_theater_sorted in_order d c.theater_id) ≡ 1)
            (get_schedules_for_selection cal now c d)
    unfolding get_schedules_for_selection get_theater_schedules get_halls_for_theater_sorted
    offered-once d now c single =
        let own = keep (λ h. eqb_ℤ h.theater_id c.theater_id) d.halls in
        sort_by-every (time_or_zero cal) _ _ (
          keep-All _ (is_offered cal now c) _ (
            All-map _ _ _
              (λ s e.
                count-sort_halls in_order (λ h. eqb_ℤ h.hall_id s.hall_id) own
                ∙ omega (arith, single s.hall_id, exists-counts _ own e))
              (keep-holds (λ s. exists (λ h. eqb_ℤ h.hall_id s.hall_id) own) d.schedules)))

    selected-once :
        (now : ℕ) (s : Session)
        → OneHallEach s.chooser.dataset (id_or_zero s.chooser.selected_theater_id)
        → All
            (λ x.
              halls_with x.hall_id (
                get_halls_for_theater_sorted in_order s.chooser.dataset
                  (id_or_zero s.chooser.selected_theater_id))
              ≡ 1)
            (selected_schedules js cal now s)
    unfolding selected_schedules
    selected-once now s single =
        if_holds (All _)
          (is_set s.chooser.selected_theater_id
            && is_set s.chooser.selected_movie_id
            && not (s.chooser.selected_date_key === ""))
          (λ _. offered-once s.chooser.dataset now _ single) (λ _. tt)

    -- Where no two halls of the chosen theater have the same id, it offers films, and a film is chosen:
    -- the panel shows each screening of the choice just as often as it is among them, and no other.
    pub shown_once :
        (now : ℕ) (s : Session) (p : Screening → Bool)
        → OneHallEach s.chooser.dataset (id_or_zero s.chooser.selected_theater_id)
        → has_movies js cal s.chooser ≡ true
        → is_set s.chooser.selected_movie_id ≡ true
        → count p (shown (render_date_panel js cal in_order now s))
          ≡ count p (selected_schedules js cal now s)
    shown_once now s p single films chosen =
        let halls =
          get_halls_for_theater_sorted in_order s.chooser.dataset
            (id_or_zero s.chooser.selected_theater_id) in
        let schedules = selected_schedules js cal now s in
        let plain : plain_panel js cal in_order now s ≡ (
            if is_empty halls then no_times else groups (map (section_of js cal schedules) halls)) =
          if_false _ _ (ap not films) ∙ if_false _ _ (ap not chosen) in
        ap (λ panel. count p (shown panel)) (render_date_panel_lem js cal in_order now s ∙ plain)
        ∙ by_halls halls
        ∙ total-once p halls schedules (selected-once now s single)
      where
        by_halls :
            (halls : List HallOf)
            → count p (
                shown (
                  if is_empty halls
                  then no_times
                  else groups (map (section_of js cal (selected_schedules js cal now s)) halls)))
              ≡ total p halls (selected_schedules js cal now s)
        by_halls [] = sym (total-nil p (selected_schedules js cal now s))
        by_halls (h ∷ hs) = shown-total p (h ∷ hs) (selected_schedules js cal now s)
