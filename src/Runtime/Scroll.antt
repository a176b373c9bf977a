-- ===== src/Runtime/Scroll.antt =====
-- The scroll lock of the document's body behind a modal window (`lockBodyScroll`,
-- `unlockBodyScroll`, `clearTransientUi`).
use soldesk.Prelude.{
  ℕ, ◌≡◌, refl, ap, ◌∙◌, ◌===◌, String, List, [], ◌∷◌, Option, none, some, Bool, true, false,
  if◌then◌else◌, arith,
}
use soldesk.Js.TextSet.{has, add, delete, has-add, has-delete}

-- `modalState`, and what it is about: the classes of the body, the offset at which the body is pinned
-- (its styles position, top, left, right and width are set and cleared together), the scroll position
-- of the window, and the overlays in the document.
pub record Screen : Type 0 where
  pub locked : Bool
  pub saved_scroll_y : ℕ
  pub classes : List String
  pub pinned : Option ℕ
  pub scroll_y : ℕ
  pub overlays : List String

unfoldable pub lock_body_scroll : Screen → Screen
lock_body_scroll s = if s.locked then s else record s {
  saved_scroll_y = s.scroll_y;
  locked = true;
  classes = add "login-modal-open" s.classes;
  pinned = some s.scroll_y;
}

unfoldable pub unlock_body_scroll : Screen → Screen
unlock_body_scroll s =
    if s.locked
    then record s {
      locked = false;
      classes = delete "login-modal-open" s.classes;
      pinned = none;
      scroll_y = s.saved_scroll_y;
    }
    else s

unfoldable pub clear_transient_ui : Screen → Screen
clear_transient_ui s = record s {
  overlays = delete "theaters-booking-calendar-overlay" (
      delete "theaters-booking-detail-overlay"
        (delete "main-video-modal" (delete "login-modal-overlay" s.overlays)));
  classes =
      delete "theaters-booking-modal-open"
        (delete "main-video-modal-open" (delete "login-modal-open" s.classes));
  pinned = none;
  locked = false;
  saved_scroll_y = 0;
}

-- What changes the screen: the functions above, and the user, who scrolls.
pub data Event : Type 0 where
  lock unlock clear : Event
  scroll : ℕ → Event

unfoldable pub handle : Event → Screen → Screen
unfolding lock_body_scroll unlock_body_scroll clear_transient_ui
handle lock s = lock_body_scroll s
handle unlock s = unlock_body_scroll s
handle clear s = clear_transient_ui s
handle (scroll y) s = record s { scroll_y = y }

unfoldable pub run : List Event → Screen → Screen
unfolding handle
run [] s = s
run (e ∷ es) s = run es (handle e s)

-- The body is pinned, at the saved position, and has the class just while it is locked.
pub record IsPinned (s : Screen) : Type 0 where
  pub offset : s.pinned ≡ (if s.locked then some s.saved_scroll_y else none)
  pub class : has "login-modal-open" s.classes ≡ s.locked

handle-IsPinned : (e : Event) {s : Screen} → IsPinned s → IsPinned (handle e s)
unfolding handle
handle-IsPinned lock {s} v = ground (arith, has-add "login-modal-open" "login-modal-open" s.classes)
handle-IsPinned unlock {s} v =
    ground (arith, has-delete "login-modal-open" "login-modal-open" s.classes)
handle-IsPinned clear {s} v = record {
  offset = refl;
  class =
      let key : String = "login-modal-open" in
      rw
        (
          has-delete "theaters-booking-modal-open" key
              (delete "main-video-modal-open" (delete key s.classes)),
          has-delete "main-video-modal-open" key (delete key s.classes),
          has-delete key key s.classes,
        )
        refl;
}
handle-IsPinned (scroll y) v = ground arith

-- Whatever is locked, unlocked and cleared, and however the user scrolls, the body is pinned, at the
-- saved position, and has the class of an open window just while it is locked.
pub run-IsPinned : (es : List Event) {s : Screen} → IsPinned s → IsPinned (run es s)
unfolding run
run-IsPinned [] v = v
run-IsPinned (e ∷ es) v = run-IsPinned es (handle-IsPinned e v)

-- Events that leave a lock: another lock, and scrolling.
abbrev pub is_kept : Event → Bool
is_kept lock = true
is_kept unlock = false
is_kept clear = false
is_kept (scroll y) = true

abbrev pub are_kept : List Event → Bool
are_kept [] = true
are_kept (e ∷ es) = if is_kept e then are_kept es else false

run_kept :
    (es : List Event) (s : Screen)
    → are_kept es ≡ true
    → s.locked ≡ true
    → ((run es s).locked ≡ true)
      × ((run es s).saved_scroll_y ≡ s.saved_scroll_y)
      × ((run es s).classes ≡ s.classes)
unfolding run handle lock_body_scroll
run_kept [] s kept locked = (locked, refl, refl)
run_kept (lock ∷ es) s kept locked =
    let same : lock_body_scroll s ≡ s = ground arith in
    let (held, saved, classes) = run_kept es s kept locked in
    (
      ap (λ t. (run es t).locked) same ∙ held,
      ap (λ t. (run es t).saved_scroll_y) same ∙ saved,
      ap (λ t. (run es t).classes) same ∙ classes,
    )
run_kept (unlock ∷ es) s kept locked = cc
run_kept (clear ∷ es) s kept locked = cc
run_kept (scroll y ∷ es) s kept locked = run_kept es (record s { scroll_y = y }) kept locked

-- A lock of an unlocked body, further locks and scrolling, and one unlock put the window back where it
-- was: unlocked, not pinned, at its old position, and with its other classes.
pub unlock_restores :
    (es : List Event) (s : Screen) (class : String)
    → are_kept es ≡ true
    → s.locked ≡ false
    → ("login-modal-open" === class) ≡ false
    → let after = handle unlock (run es (handle lock s)) in
      (after.locked ≡ false)
      × (after.pinned ≡ none)
      × (after.scroll_y ≡ s.scroll_y)
      × (has class after.classes ≡ has class s.classes)
unfolding handle lock_body_scroll unlock_body_scroll
unlock_restores es s class kept free other =
    let inner = handle lock s in
    let begun : (inner.locked ≡ true)
        × (inner.saved_scroll_y ≡ s.scroll_y)
        × (has class inner.classes ≡ has class s.classes) =
      rw free (refl, refl, has-add "login-modal-open" class s.classes ∙ rw other refl) in
    let (held, saved, same) = run_kept es inner kept begun.0 in
    rw held (
      refl,
      refl,
      saved ∙ begun.1,
      has-delete "login-modal-open" class (run es inner).classes
          ∙ rw other (ap (has class) same ∙ begun.2),
    )
