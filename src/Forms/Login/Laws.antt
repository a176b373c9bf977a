-- ===== src/Forms/Login/Laws.antt =====
-- What the form for signing in sends and stores.
use soldesk.Prelude.{
  ℕ, zero, suc, ◌+◌, ◌≤◌, ◌≡◌, refl, String, List, [], ◌∷◌, ◌++◌, Option, none, some, Bool, true,
  false, not, ◌||◌, ◌&&◌, ◌===◌, ◌==◌, ===_iff, if◌then◌else◌, if_holds, ltb, pick, All, All-append,
  arith,
}
use soldesk.Js.Value.{Engine, truthy, string_of, number, whole, text}
use soldesk.Prelude.Int.{pos}
use soldesk.Account.{
  Fields, field, set_field, Storage, get_login_user, get_stored_user_id, set_login_user,
  get_remembered_login_id, clear_login_user, save_remembered_login_id, clear_remembered_login_id,
}
use soldesk.Account.Laws.{end_of_login, fresh, login_lasts}
use soldesk.Forms.Login.{
  Attempt, Login, LoginReply, Verdict, accepted, refused, Event, open_login, phone_input,
  password_input, remember_click, submit, close_click, backdrop_click, pwfind_click, signup_click,
  login_answer, logout, emit, close_login_page, verdict_of, begin_submit, show_refusal, sign_in,
  take_verdict, at_last, take_answer, open_for, open_login_page, logout_user, when_shown, Effect,
  handle, run,
}

-- The attempts of one overlay.
abbrev pub own : ℕ → List Attempt → ℕ
own overlay [] = 0
own overlay (a ∷ attempts) = (if a.overlay == overlay then 1 else 0) + own overlay attempts

own-append : (o : ℕ) (xs ys : List Attempt) → own o (xs ++ ys) ≡ own o xs + own o ys
own-append o [] ys = omega arith
own-append o (a ∷ xs) ys = omega (arith, own-append o xs ys)

abbrev pub IsOld : ℕ → Attempt → Type 0
IsOld overlay a = a.overlay ≤ overlay

own_new : (o : ℕ) (xs : List Attempt) → All (IsOld o) xs → own (o + 1) xs ≡ 0
own_new o [] h = refl
own_new o (a ∷ xs) (old, h) = ground (arith, own_new o xs h)

older : (o : ℕ) (xs : List Attempt) → All (IsOld o) xs → All (IsOld (o + 1)) xs
older o [] h = tt
older o (a ∷ xs) (old, h) = (omega (arith, old), older o xs h)

-- At most one attempt of the last overlay waits, and its button is disabled just while one does.
pub record IsGuarded (s : Login) : Type 0 where
  pub counted : own s.overlay s.attempts ≡ (if s.submit_disabled then 1 else 0)
  pub old : All (IsOld s.overlay) s.attempts

PickedOwn : ℕ → List Attempt → Option (Attempt × List Attempt) → Type 0
PickedOwn o xs none = Unit
PickedOwn o xs (some (a, others)) =
    (own o xs ≡ (if a.overlay == o then 1 else 0) + own o others) × IsOld o a × All (IsOld o) others

pick-PickedOwn : (n o : ℕ) (xs : List Attempt) → All (IsOld o) xs → PickedOwn o xs (pick n xs)
unfolding pick PickedOwn
pick-PickedOwn n o [] h = tt
pick-PickedOwn zero o (a ∷ xs) (old, h) = (refl, old, h)
pick-PickedOwn (suc n) o (a ∷ xs) (old, h) = further (pick n xs) (pick-PickedOwn n o xs h)
  where
    further :
        (p : Option (Attempt × List Attempt))
        → PickedOwn o xs p
        → PickedOwn o (a ∷ xs) (elim p [ none ↦ none | some (b, bs) ↦ some (b, a ∷ bs) ])
    further none q = tt
    further (some (b, bs)) (e, q, qs) = (omega (arith, e), q, (old, qs))

one_more :
    (o : ℕ) (xs : List Attempt) (a : Attempt) {b : Bool}
    → b ≡ false
    → a.overlay ≡ o
    → own o xs ≡ (if b then 1 else 0)
    → own o (xs ++ a ∷ []) ≡ 1
one_more o xs a enabled same counted = ground (arith, own-append o xs (a ∷ []))

answered_lem :
    (o : ℕ) (xs others : List Attempt) (a : Attempt) (w : Login) {b : Bool}
    → w.overlay ≡ o
    → w.attempts ≡ others
    → w.submit_disabled ≡ b
    → own o xs ≡ (if b then 1 else 0)
    → own o xs ≡ (if a.overlay == o then 1 else 0) + own o others
    → All (IsOld o) others
    → IsGuarded (at_last a w)
unfolding at_last
answered_lem o xs others a w same kept button counted taken old =
    if_holds IsGuarded (a.overlay == w.overlay)
      (λ own_answer. record { counted = ground arith; old = rw (same, kept) old })
      (λ other_answer. record { counted = ground arith; old = rw (same, kept) old })

-- The user that is stored: the end of the login beside the fields.
abbrev pub with_end : ℕ → Fields → Fields
with_end now user = set_field "expiresAt" (number (whole (pos (end_of_login now none)))) user

emit-IsGuarded : (e : Effect) {s : Login} → IsGuarded s → IsGuarded (emit e s)
emit-IsGuarded e v = record { counted = v.counted; old = v.old }

module _ (js : Engine) where
  take_verdict-rest :
      (now : ℕ) (a : Attempt) (v : Verdict) (s : Login)
      → ((take_verdict js now a v s).overlay ≡ s.overlay)
        × ((take_verdict js now a v s).attempts ≡ s.attempts)
        × ((take_verdict js now a v s).submit_disabled ≡ s.submit_disabled)
  unfolding take_verdict
  take_verdict-rest now a (accepted user) s = (refl, refl, refl)
  take_verdict-rest now a (refused phone password common) s = ground arith

  begin_submit-IsGuarded :
      {s : Login} → IsGuarded s → s.submit_disabled ≡ false → IsGuarded (begin_submit js s)
  unfolding begin_submit
  begin_submit-IsGuarded {s} v enabled =
      if_holds IsGuarded s.is_login_submitting (λ _. v)
        (λ _.
          if_holds IsGuarded (js.trim s.phone === "" || s.password === "")
            (λ _. record { counted = v.counted; old = v.old })
            (λ _. record {
              counted = one_more s.overlay s.attempts _ enabled refl v.counted;
              old = All-append (IsOld s.overlay) s.attempts _ v.old (omega arith, tt);
            }))

  take_answer-IsGuarded :
      (p : Option (Attempt × List Attempt)) (answer : LoginReply) (now : ℕ) {s : Login}
      → IsGuarded s
      → PickedOwn s.overlay s.attempts p
      → IsGuarded (take_answer js p answer now s)
  unfolding PickedOwn take_answer
  take_answer-IsGuarded none answer now v q = v
  take_answer-IsGuarded (some (a, others)) answer now {s} v (taken, _, old) =
      let left = record s { attempts = others } in
      let (same, kept, button) = take_verdict-rest now a (verdict_of js answer) left in
      answered_lem s.overlay s.attempts others a (take_verdict js now a (verdict_of js answer) left)
        same kept button v.counted taken old

  submit-IsGuarded :
      {s : Login} → IsGuarded s → IsGuarded (if s.submit_disabled then s else begin_submit js s)
  submit-IsGuarded {s} v = if_holds IsGuarded s.submit_disabled (λ _. v) (begin_submit-IsGuarded v)

  close-IsGuarded : {s : Login} → IsGuarded s → IsGuarded (close_login_page s)
  unfolding close_login_page
  close-IsGuarded v = record { counted = v.counted; old = v.old }

  opened-IsGuarded :
      (storage : Storage) (user : Option Fields) {s : Login}
      → IsGuarded s
      → IsGuarded (open_for js storage user s)
  unfolding open_for
  opened-IsGuarded storage (some user) v = record { counted = v.counted; old = v.old }
  opened-IsGuarded storage none {s} v = record {
    counted = own_new s.overlay s.attempts v.old;
    old = older s.overlay s.attempts v.old;
  }

  when_shown-IsGuarded :
      {s after : Login} → IsGuarded s → IsGuarded after → IsGuarded (when_shown js s after)
  unfolding when_shown
  when_shown-IsGuarded {s} v w = if_holds IsGuarded s.overlay_shown (λ _. w) (λ _. v)

  handle-IsGuarded : (e : Event) {s : Login} → IsGuarded s → IsGuarded (handle js e s)
  unfolding handle open_login_page logout_user
  handle-IsGuarded (open_login now) {s} v = opened-IsGuarded _ _ v
  handle-IsGuarded (phone_input value) v =
      when_shown-IsGuarded v (record { counted = v.counted; old = v.old })
  handle-IsGuarded (password_input value) v =
      when_shown-IsGuarded v (record { counted = v.counted; old = v.old })
  handle-IsGuarded (remember_click checked) v =
      when_shown-IsGuarded v (record { counted = v.counted; old = v.old })
  handle-IsGuarded submit v = when_shown-IsGuarded v (submit-IsGuarded v)
  handle-IsGuarded close_click v = when_shown-IsGuarded v (close-IsGuarded v)
  handle-IsGuarded backdrop_click v = when_shown-IsGuarded v (close-IsGuarded v)
  handle-IsGuarded pwfind_click {s} v =
      when_shown-IsGuarded v (emit-IsGuarded _ (close-IsGuarded v))
  handle-IsGuarded signup_click {s} v =
      when_shown-IsGuarded v (emit-IsGuarded _ (close-IsGuarded v))
  handle-IsGuarded (login_answer place answer now) {s} v =
      take_answer-IsGuarded (pick place s.attempts) answer now v
        (pick-PickedOwn place s.overlay s.attempts v.old)
  handle-IsGuarded logout {s} v = emit-IsGuarded _ (
      emit-IsGuarded _ (
        emit-IsGuarded _ (
          close-IsGuarded {s = record s { storage = clear_login_user js s.storage }}
            (record { counted = v.counted; old = v.old }))))

  -- Events keep this: exactly one attempt of the last overlay waits for its answer where its button is
  -- disabled, none where it is not, and no attempt that waits came from a later overlay.
  pub run-IsGuarded : (es : List Event) {s : Login} → IsGuarded s → IsGuarded (run js es s)
  unfolding run
  run-IsGuarded [] v = v
  run-IsGuarded (e ∷ es) v = run-IsGuarded es (handle-IsGuarded e v)

  remembered_lem :
      (a : Attempt) (s after : Storage)
      → after.remembered_login_id
        ≡ (if a.remember_id
            then save_remembered_login_id js (text a.phone) s
            else clear_remembered_login_id js s).remembered_login_id
      → get_remembered_login_id js after ≡ (if a.remember_id then a.phone else "")
  unfolding get_remembered_login_id save_remembered_login_id clear_remembered_login_id truthy
      string_of
  remembered_lem a s after e = ground (arith, e, ===_iff a.phone "")

  -- The account that an accepted attempt leaves.
  sign_in_lem :
      (now later : ℕ) (a : Attempt) (user : Fields) (s : Storage)
      → truthy (field "user_id" user) ≡ true
      → (string_of js (field "user_id" user) === "") ≡ false
      → let after = sign_in js now a user s in
        ((get_login_user js later after).1
          ≡ (if ltb (end_of_login now none) later then none else some (with_end now user)))
        × ((get_stored_user_id js later after).1 ≡ string_of js (field "user_id" user))
        × (get_remembered_login_id js after ≡ (if a.remember_id then a.phone else ""))
  unfolding sign_in
  sign_in_lem now later a user s known filled =
      let remembered =
        if a.remember_id
        then save_remembered_login_id js (text a.phone) s
        else clear_remembered_login_id js s in
      let (login, id, kept) = login_lasts js now later user none remembered known filled in
      (login, id, remembered_lem a s (set_login_user js now user (fresh none) remembered).0 kept)

  at_last-rest :
      (a : Attempt) (w : Login)
      → ((at_last a w).storage ≡ w.storage) × ((at_last a w).overlay_shown ≡ w.overlay_shown)
  unfolding at_last
  at_last-rest a w = ground arith

  -- An answer that is accepted, its user with an id, signs this user in: until the end of the login
  -- the stored account is the user with that end and none afterwards; the id is handed out; the phone
  -- number of the attempt is remembered just where the box was checked when the attempt was made; and
  -- the window is closed.
  pub accepted_lem :
      (now later : ℕ) (a : Attempt) (others : List Attempt) (reply : LoginReply) (user : Fields)
      (s : Login)
      → verdict_of js reply ≡ accepted user
      → truthy (field "user_id" user) ≡ true
      → (string_of js (field "user_id" user) === "") ≡ false
      → let after = take_answer js (some (a, others)) reply now s in
        ((get_login_user js later after.storage).1
          ≡ (if ltb (end_of_login now none) later then none else some (with_end now user)))
        × ((get_stored_user_id js later after.storage).1 ≡ string_of js (field "user_id" user))
        × (get_remembered_login_id js after.storage ≡ (if a.remember_id then a.phone else ""))
        × (after.overlay_shown ≡ false)
  unfolding take_answer take_verdict close_login_page
  accepted_lem now later a others reply user s verdict known filled =
      let left = record s { attempts = others } in
      let (account, shown) = at_last-rest a (take_verdict js now a (accepted user) left) in
      let (login, id, remembered) = sign_in_lem now later a user s.storage known filled in
      rw verdict (rw account (login, id, remembered, shown))

  -- An answer that is refused leaves the account and the window, and shows the messages that it has in
  -- the overlay that the attempt came from, in no other.
  refused_lem :
      (now : ℕ) (a : Attempt) (others : List Attempt) (reply : LoginReply)
      (phone password common : String) (s : Login)
      → verdict_of js reply ≡ refused phone password common
      → let after = take_answer js (some (a, others)) reply now s in
        let shown : String → String → String = λ message before.
          if a.overlay == s.overlay && not (message === "") then message else before in
        (after.storage ≡ s.storage)
        × (after.overlay_shown ≡ s.overlay_shown)
        × (after.phone_error ≡ shown phone s.phone_error)
        × (after.password_error ≡ shown password s.password_error)
        × (after.common_error ≡ shown common s.common_error)
  unfolding take_answer take_verdict show_refusal at_last
  refused_lem now a others reply phone password common s verdict = rw verdict (ground arith)
