-- ===== src/Home/Slider/Timer.antt =====
-- What the slides keep true, and that their timer, their moves and their drawing keep it.
use native.Mathlib.Nat.{mod-lt}
use soldesk.Prelude.{
  ℕ, ◌+◌, ◌≤◌, ◌<◌, ◌≡◌, refl, ap, ◌∙◌, List, [], ◌∷◌, Option, none, some, Bool, true, false, not,
  if_holds, option_holds, ◌⊎◌, inr, leb, ◌==◌, length, keep, arith,
}
use soldesk.Home.Films.{Film}
use soldesk.Home.Slider.{
  Direction, Rendering, Hero, stop_auto_slide, start_auto_slide, reset_auto_slide, remainder,
  current_film, is_layout, render_current_slide, show_slide, settle, move_slide, advance,
}

abbrev pub just {ℓ} : {A : Type ℓ} → Option A → List A
just none = []
just (some a) = a ∷ []

-- The index is that of a film, where there are films.
abbrev pub IsIndex : Option ℕ → ℕ → Type 0
IsIndex none count = count ≡ 0
IsIndex (some i) count = (count ≡ 0) ⊎ (i < count)

-- One interval runs, the one that is kept, or none; none runs while the mouse is over the slides; and
-- where the layout is shown there are films, a button for at most each of them, and the index is that
-- of one.
pub record IsSound (s : Hero) : Type 0 where
  pub timed : s.intervals ≡ just s.auto_slide_timer
  pub still : s.is_hovering_hero ≡ true → s.auto_slide_timer ≡ none
  pub indexed : IsIndex s.current_index (length s.slider_data)
  pub filled : is_layout s.mount ≡ true → 0 < length s.slider_data
  pub buttons : is_layout s.mount ≡ true → s.indicators ≤ length s.slider_data

pub none_left : (t : ℕ) (xs : List ℕ) → xs ≡ t ∷ [] → keep (λ i. not (i == t)) xs ≡ []
none_left t xs e = rw e (ground arith)

pub stop-IsSound : {s : Hero} → IsSound s → IsSound (stop_auto_slide s)
unfolding stop_auto_slide
stop-IsSound {s} v =
    option_holds IsSound s.auto_slide_timer (λ idle. v)
      (λ t running. record {
        timed = none_left t s.intervals (v.timed ∙ ap just running);
        still = λ hovering. refl;
        indexed = v.indexed;
        filled = v.filled;
        buttons = v.buttons;
      })

stopped :
    {s : Hero}
    → IsSound s
    → ((stop_auto_slide s).auto_slide_timer ≡ none)
      × ((stop_auto_slide s).is_hovering_hero ≡ s.is_hovering_hero)
unfolding stop_auto_slide
stopped {s} v =
    option_holds
      (λ (h : Hero). (h.auto_slide_timer ≡ none) × (h.is_hovering_hero ≡ s.is_hovering_hero))
      s.auto_slide_timer (λ idle. (idle, refl)) (λ t running. (refl, refl))

pub start-IsSound : {s : Hero} → IsSound s → IsSound (start_auto_slide s)
unfolding start_auto_slide
start-IsSound {s} v =
    let w = stop-IsSound v in
    let (idle, same) = stopped v in
    if_holds IsSound (leb (length s.slider_data) 1) (λ few. w)
      (λ many.
        if_holds IsSound s.is_hovering_hero (λ hovering. w)
          (λ away. record {
            timed = ap (λ is. (stop_auto_slide s).next_interval ∷ is) (w.timed ∙ ap just idle);
            still = λ hovering. ground (arith, same ∙ away, hovering);
            indexed = w.indexed;
            filled = w.filled;
            buttons = w.buttons;
          }))

pub reset-IsSound : {s : Hero} → IsSound s → IsSound (reset_auto_slide s)
unfolding reset_auto_slide
reset-IsSound {s} v =
    if_holds IsSound s.is_hovering_hero (λ _. stop-IsSound v) (λ _. start-IsSound (stop-IsSound v))

remainder-IsIndex : (i count : ℕ) → IsIndex (remainder i count) count
unfolding remainder
remainder-IsIndex i count =
    if_holds (λ o. IsIndex o count) (count == 0) (λ none_left. ground arith)
      (λ some_left. inr (mod-lt i (ground arith)))

-- What waits is of no matter.
pub waiting-IsSound :
    (renderings : List Rendering) (loads : ℕ) {s : Hero}
    → IsSound s
    → IsSound (record s { renderings = renderings; loads = loads })
waiting-IsSound renderings loads v = record {
  timed = v.timed;
  still = v.still;
  indexed = v.indexed;
  filled = v.filled;
  buttons = v.buttons;
}

pub render-IsSound : (b : Bool) {s : Hero} → IsSound s → IsSound (render_current_slide b s)
unfolding render_current_slide
render-IsSound b {s} v =
    if_holds IsSound (is_layout s.mount)
      (λ _. option_holds IsSound (current_film s) (λ _. v) (λ movie _. waiting-IsSound _ _ v))
      (λ _. v)

-- An index that is moved on.
pub moved-IsIndex :
    (index : Option ℕ) (step count : ℕ)
    → IsIndex index count
    → IsIndex (elim index [ none ↦ none | some i ↦ remainder (i + step) count ]) count
moved-IsIndex none step count v = v
moved-IsIndex (some i) step count v = remainder-IsIndex (i + step) count

pub at_index-IsSound :
    (index : Option ℕ) {s : Hero}
    → IsSound s
    → IsIndex index (length s.slider_data)
    → IsSound (record s { current_index = index })
at_index-IsSound index v w = record {
  timed = v.timed;
  still = v.still;
  indexed = w;
  filled = v.filled;
  buttons = v.buttons;
}

pub move-IsSound : (d : Direction) {s : Hero} → IsSound s → IsSound (move_slide d s)
unfolding move_slide
move-IsSound d {s} v =
    if_holds IsSound (length s.slider_data == 0) (λ _. v)
      (λ _.
        reset-IsSound (
          render-IsSound false
            (at_index-IsSound _ v (moved-IsIndex s.current_index _ _ v.indexed))))

pub advance-IsSound : {s : Hero} → IsSound s → IsSound (advance s)
unfolding advance
advance-IsSound {s} v =
    render-IsSound false (at_index-IsSound _ v (moved-IsIndex s.current_index _ _ v.indexed))

-- A button for each film, whatever is shown of one.
labelled-IsSound :
    (background : Option Film) (rank : Option ℕ) (shown : Option Film) {s : Hero}
    → IsSound s
    → IsSound (record s {
      background = background;
      rank = rank;
      shown = shown;
      indicators = length s.slider_data;
    })
labelled-IsSound background rank shown v = record {
  timed = v.timed;
  still = v.still;
  indexed = v.indexed;
  filled = v.filled;
  buttons = λ _. omega arith;
}

show-IsSound :
    (r : Rendering) (there : Bool) {s : Hero} → IsSound s → IsSound (show_slide r there s)
unfolding show_slide
show-IsSound r there {s} v =
    if_holds IsSound (is_layout s.mount)
      (λ _.
        if_holds IsSound (r.layout == s.layouts) (λ _. labelled-IsSound _ _ _ v)
          (λ _. labelled-IsSound _ _ _ v))
      (λ _. v)

pub settle-IsSound :
    (p : Option (Rendering × List Rendering)) (there : Bool) {s : Hero}
    → IsSound s
    → IsSound (settle p there s)
unfolding settle
settle-IsSound none there v = v
settle-IsSound (some (r, others)) there {s} v =
    let w = show-IsSound r there (waiting-IsSound others s.loads v) in
    if_holds IsSound r.starts (λ _. start-IsSound w) (λ _. w)
