-- ===== src/Home/Slider.antt =====
-- The slides of the home page (frontend/src/js/main/body.js): its state, its timer, and its handlers.
-- A number may be NaN: `none`.
pub mod Timer
pub mod Laws
pub mod Shown
use soldesk.Prelude.{
  ℕ, ◌+◌, ◌-◌, ◌==◌, ◌%◌, ◌&&◌, List, [], ◌∷◌, ◌++◌, Option, none, some, Bool, true, false, not,
  if◌then◌else◌, ltb, leb, length, get_elem?, keep, exists, pick,
}
use soldesk.Home.Films.{Film, load_main_movies}

pub data Direction : Type 0 where
  prev next : Direction

-- What the page shows: nothing of this page, or what `mountBody` puts there.
pub data Mount : Type 0 where
  other loading empty failed layout : Mount

-- A slide that waits for its background: the film, the layout that it is for, and whether
-- `mountBody` starts the timer after it.
pub record Rendering : Type 0 where
  pub movie : Film
  pub layout : ℕ
  pub starts : Bool

-- The layouts are numbered as they are made; the fields from `indicators` on are those of the last
-- one. `intervals` are those that the browser runs, `next_interval` is the next number it gives.
pub record Hero : Type 0 where
  pub slider_data : List Film
  pub current_index : Option ℕ
  pub auto_slide_timer : Option ℕ
  pub is_hovering_hero : Bool
  pub intervals : List ℕ
  pub next_interval : ℕ
  pub renderings : List Rendering
  -- how many `mountBody` wait for their films
  pub loads : ℕ
  pub mount : Mount
  pub layouts : ℕ
  pub indicators : ℕ
  pub background : Option Film
  pub rank : Option ℕ
  pub shown : Option Film

pub data Event : Type 0 where
  -- `mountBody`, a page that takes its place, and the message that the cache was rebuilt
  mounts leaves cache_rebuilt : Event
  -- the answer to a `mountBody` that waits: none where the request fails
  movies_answer : Option (Option (List Film)) → Event
  -- the background of the slide that waits at this place is there, or there is none
  background_settled : ℕ → Bool → Event
  interval_fires : ℕ → Event
  arrow_click : Direction → Event
  indicator_click : ℕ → Event
  mouse_enter mouse_leave : Event

unfoldable pub stop_auto_slide : Hero → Hero
stop_auto_slide s = elim s.auto_slide_timer [
  | none ↦ s
  | some t ↦ record s { intervals = keep (λ i. not (i == t)) s.intervals; auto_slide_timer = none }
]

set_interval : Hero → Hero
set_interval s = record s {
  auto_slide_timer = some s.next_interval;
  intervals = s.next_interval ∷ s.intervals;
  next_interval = s.next_interval + 1;
}

unfoldable pub start_auto_slide : Hero → Hero
unfolding stop_auto_slide set_interval
start_auto_slide s =
    let stopped = stop_auto_slide s in
    if leb (length s.slider_data) 1
    then stopped
    else if s.is_hovering_hero
    then stopped
    else set_interval stopped

unfoldable pub reset_auto_slide : Hero → Hero
unfolding stop_auto_slide start_auto_slide
reset_auto_slide s =
    if s.is_hovering_hero then stop_auto_slide s else start_auto_slide (stop_auto_slide s)

-- `index % count`: NaN where the count is 0.
unfoldable pub remainder : ℕ → ℕ → Option ℕ
remainder index count = if count == 0 then none else some (index % count)

unfoldable pub slide_at : Option ℕ → List Film → Option Film
slide_at none movies = none
slide_at (some i) movies = get_elem? movies i

abbrev pub current_film : Hero → Option Film
current_film s = slide_at s.current_index s.slider_data

abbrev pub is_layout : Mount → Bool
is_layout layout = true
is_layout _ = false

-- `renderCurrentSlide` up to its wait. It ends early without a film or a layout; without a film at
-- the index it throws.
unfoldable pub render_current_slide : Bool → Hero → Hero
unfolding slide_at
render_current_slide starts s =
    if is_layout s.mount
    then elim (current_film s) [
      | none ↦ s
      | some movie ↦ record s {
        renderings =
            s.renderings ++ record { movie = movie; layout = s.layouts; starts = starts } ∷ [];
      }
    ]
    else s

abbrev pub plus_one : Option ℕ → Option ℕ
plus_one n = elim n [ none ↦ none | some i ↦ some (i + 1) ]

-- What follows the wait: the text and the picture of the film, in the layout that it is for, and
-- `renderIndicators`, which looks the layout up.
unfoldable pub show_slide : Rendering → Bool → Hero → Hero
show_slide r there s =
    if is_layout s.mount
    then if r.layout == s.layouts
      then record s {
        background = if there then some r.movie else none;
        rank = plus_one s.current_index;
        shown = some r.movie;
        indicators = length s.slider_data;
      }
      else record s { indicators = length s.slider_data }
    else s

unfoldable pub settle : Option (Rendering × List Rendering) → Bool → Hero → Hero
unfolding show_slide start_auto_slide
settle none there s = s
settle (some (r, others)) there s =
    let after = show_slide r there (record s { renderings = others }) in
    if r.starts then start_auto_slide after else after

-- `moveSlide`; the film before the first is the last.
unfoldable pub move_slide : Direction → Hero → Hero
unfolding render_current_slide reset_auto_slide remainder
move_slide direction s =
    let count = length s.slider_data in
    let step : ℕ = elim direction [ prev ↦ count - 1 | next ↦ 1 ] in
    let moved : Option ℕ = elim s.current_index [
      | none ↦ none
      | some i ↦ remainder (i + step) count
    ] in
    if count == 0
    then s
    else reset_auto_slide (render_current_slide false (record s { current_index = moved }))

-- The callback of the interval.
unfoldable pub advance : Hero → Hero
unfolding render_current_slide remainder
advance s =
    let moved : Option ℕ = elim s.current_index [
      | none ↦ none
      | some i ↦ remainder (i + 1) (length s.slider_data)
    ] in
    render_current_slide false (record s { current_index = moved })

-- `mountBody` up to its wait.
unfoldable pub mount_body : Hero → Hero
mount_body s = record s { mount = loading; loads = s.loads + 1 }

-- The layout with the first of the films that `mountBody` has loaded.
unfoldable pub filled_body : Film → List Film → Hero → Hero
filled_body m movies s = record s {
  slider_data = m ∷ movies;
  current_index = some 0;
  mount = layout;
  layouts = s.layouts + 1;
  indicators = 0;
  background = none;
  rank = some 1;
  shown = none;
}

unfoldable pub fill_body : List Film → Hero → Hero
unfolding filled_body render_current_slide
fill_body [] s = record s { slider_data = []; current_index = some 0; mount = empty }
fill_body (m ∷ movies) s = render_current_slide true (filled_body m movies s)

unfoldable pub take_answer : Option (Option (List Film)) → Hero → Hero
unfolding fill_body
take_answer none s = record s { mount = failed }
take_answer (some response) s = fill_body (load_main_movies response) s

-- The page has the wrap of a message, and not that of the films being loaded; a layout has none.
abbrev pub is_message : Mount → Bool
is_message empty = true
is_message failed = true
is_message _ = false

-- The listener to a rebuilt cache.
unfoldable pub on_cache_rebuilt : Hero → Hero
unfolding mount_body
on_cache_rebuilt s = if is_message s.mount then mount_body s else s

abbrev when : Bool → (Hero → Hero) → Hero → Hero
when b f s = if b then f s else s

unfoldable pub handle : Event → Hero → Hero
unfolding mount_body take_answer settle advance move_slide render_current_slide reset_auto_slide
    on_cache_rebuilt
handle mounts s = mount_body s
handle leaves s = record s { mount = other }
handle cache_rebuilt s = on_cache_rebuilt s
handle (movies_answer answer) s =
    if s.loads == 0 then s else take_answer answer (record s { loads = s.loads - 1 })
handle (background_settled place there) s = settle (pick place s.renderings) there s
handle (interval_fires t) s = when (exists (λ i. i == t) s.intervals) advance s
handle (arrow_click direction) s = when (is_layout s.mount) (move_slide direction) s
handle (indicator_click i) s =
    when (is_layout s.mount && ltb i s.indicators)
      (λ h. reset_auto_slide (render_current_slide false (record h { current_index = some i }))) s
handle mouse_enter s =
    when (is_layout s.mount) (λ h. reset_auto_slide (record h { is_hovering_hero = true })) s
handle mouse_leave s =
    when (is_layout s.mount) (λ h. reset_auto_slide (record h { is_hovering_hero = false })) s

unfoldable pub run : List Event → Hero → Hero
unfolding handle
run [] s = s
run (e ∷ es) s = run es (handle e s)

-- The page before it is opened.
abbrev pub unopened : Hero
unopened = record {
  slider_data = [];
  current_index = some 0;
  auto_slide_timer = none;
  is_hovering_hero = false;
  intervals = [];
  next_interval = 1;
  renderings = [];
  loads = 0;
  mount = other;
  layouts = 0;
  indicators = 0;
  background = none;
  rank = none;
  shown = none;
}
