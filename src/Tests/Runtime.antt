-- ===== src/Tests/Runtime.antt =====
-- Examples of the laws of the loader of files and of the scroll lock.
use soldesk.Prelude.{◌≡◌, refl, List, [], ◌∷◌, String, none, some, false}
use soldesk.Runtime.Files.{script, Event, request, load, error, Loader, handle, run}
use soldesk.Runtime.Files.Phases.{
  unasked, file_of, phase_of, events_at, run_refines, load_fulfils, retry_hangs,
}
use soldesk.Runtime.Scroll.{Screen, IsPinned, lock, unlock, clear, scroll, run-IsPinned}
use soldesk.Runtime.Scroll as Scroll

abbrev nothing_loaded : Loader
nothing_loaded name = file_of unasked

abbrev asked : List (String × Event)
asked =
    ("/js/a.js", request) ∷ ("/js/b.js", request) ∷ ("/js/b.js", error) ∷ ("/js/a.js", request) ∷ []

run_refines_example :
    run script asked nothing_loaded "/js/a.js"
    ≡ file_of (phase_of (events_at "/js/a.js" asked) unasked)
run_refines_example = run_refines script asked nothing_loaded "/js/a.js" unasked refl refl

load_fulfils_example :
    let f = handle script "/js/a.js" load (run script asked nothing_loaded) "/js/a.js" in
    (f.made ≡ 1) × (f.appended ≡ 1) × (f.resolved ≡ 0 ∷ []) × (f.listeners ≡ [])
load_fulfils_example = load_fulfils script asked nothing_loaded "/js/a.js" refl refl refl refl

retry_hangs_example :
    let f =
      run script
        (("/js/a.js", request)
          ∷ ("/js/a.js", error)
          ∷ ("/js/a.js", request)
          ∷ ("/js/a.js", load)
          ∷ [])
        nothing_loaded
        "/js/a.js" in
    (f.promise ≡ some 1)
    × (f.listeners ≡ 1 ∷ [])
    × (f.resolved ≡ [])
    × (f.rejected ≡ 0 ∷ [])
    × (f.appended ≡ 1)
retry_hangs_example =
    retry_hangs script (("/js/a.js", load) ∷ []) nothing_loaded "/js/a.js" refl refl

abbrev free_screen : Screen
free_screen = record {
  locked = false;
  saved_scroll_y = 0;
  classes = "dark" ∷ [];
  pinned = none;
  scroll_y = 120;
  overlays = [];
}

run-IsPinned_example :
    IsPinned (Scroll.run (lock ∷ scroll 0 ∷ lock ∷ unlock ∷ clear ∷ lock ∷ []) free_screen)
unfolding soldesk.Js.TextSet.has
run-IsPinned_example =
    run-IsPinned (lock ∷ scroll 0 ∷ lock ∷ unlock ∷ clear ∷ lock ∷ [])
      (record { offset = refl; class = refl })
