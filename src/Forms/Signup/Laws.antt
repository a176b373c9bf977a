-- ===== src/Forms/Signup/Laws.antt =====
-- What the form for joining sends.
use soldesk.Prelude.{
  ℕ, zero, suc, ◌≡◌, String, List, [], ◌∷◌, ◌++◌, Option, none, some, Bool, true, false, not, ◌==◌,
  ◌===◌, ===_iff, if◌then◌else◌, if_holds, All, All-append, pick, arith,
}
use soldesk.Js.Value.{Engine, is_boolean}
use soldesk.Forms.Fields.{is_valid_phone}
use soldesk.Forms.Signup.{
  Candidate, Effect, alert, post_check, post_signup, unlock_scroll, open_login_page, Signup,
  CheckReply, SignupReply, signup_failed, null_reply, signed_up, Event, phone_input, password_input,
  name_input, composition_start, composition_end, submit, close_click, backdrop_click, cancel_click,
  check_answer, signup_answer, emit, close_signup_page, go_to_login_page, at_last, duplicate_error,
  phone_error_of, is_valid, candidate_of, begin_submit, after_check, take_check, take_signup,
  handle, run,
}

-- A check of a number was asked for.
abbrev pub has_check : String → List Effect → Bool
has_check phone [] = false
has_check phone (post_check p ∷ log) = if p === phone then true else has_check phone log
has_check phone (_ ∷ log) = has_check phone log

-- The form as it opens.
abbrev pub opened : Bool → Signup
opened has_login_page = record {
  phone = "";
  password = "";
  name = "";
  is_composing_name = false;
  is_submitting = false;
  phone_error = "";
  password_error = "";
  name_error = "";
  common_error = "";
  submit_disabled = false;
  submit_text = "가입";
  overlay_shown = true;
  checking = [];
  joining = 0;
  has_login_page = has_login_page;
  log = [];
}

module _ (js : Engine) where
  -- What was sent, the newest first: checks of numbers of the right form, and requests whose fields
  -- are all valid and whose number was checked before.
  abbrev pub IsEarned : List Effect → Type 0
  IsEarned [] = Unit
  IsEarned (post_check phone ∷ log) = (is_valid_phone js phone ≡ true) × IsEarned log
  IsEarned (post_signup c ∷ log) =
      (is_valid js c ≡ true) × (has_check c.phone log ≡ true) × IsEarned log
  IsEarned (_ ∷ log) = IsEarned log

  abbrev pub IsChecked : List Effect → Candidate → Type 0
  IsChecked log c = (is_valid js c ≡ true) × (has_check c.phone log ≡ true)

  pub record IsSound (s : Signup) : Type 0 where
    pub candidates : All (IsChecked s.log) s.checking
    pub sent : IsEarned s.log

  -- What was checked stays checked.
  emit-IsChecked :
      (e : Effect) (log : List Effect) (cs : List Candidate)
      → All (IsChecked log) cs
      → All (IsChecked (e ∷ log)) cs
  emit-IsChecked e log [] h = tt
  emit-IsChecked (alert s) log (c ∷ cs) (h, hs) = (h, emit-IsChecked (alert s) log cs hs)
  emit-IsChecked (post_check p) log (c ∷ cs) ((v, k), hs) =
      ((v, ground arith), emit-IsChecked (post_check p) log cs hs)
  emit-IsChecked (post_signup d) log (c ∷ cs) (h, hs) =
      (h, emit-IsChecked (post_signup d) log cs hs)
  emit-IsChecked unlock_scroll log (c ∷ cs) (h, hs) = (h, emit-IsChecked unlock_scroll log cs hs)
  emit-IsChecked open_login_page log (c ∷ cs) (h, hs) =
      (h, emit-IsChecked open_login_page log cs hs)

  -- The candidate at a place, and the others, are of the list.
  PickedAll : List Effect → Option (Candidate × List Candidate) → Type 0
  PickedAll log none = Unit
  PickedAll log (some (c, others)) = IsChecked log c × All (IsChecked log) others

  pick-PickedAll :
      (n : ℕ) (log : List Effect) (cs : List Candidate)
      → All (IsChecked log) cs
      → PickedAll log (pick n cs)
  unfolding pick PickedAll
  pick-PickedAll n log [] h = tt
  pick-PickedAll zero log (c ∷ cs) h = h
  pick-PickedAll (suc n) log (c ∷ cs) (h, hs) = further (pick n cs) (pick-PickedAll n log cs hs)
    where
      further :
          (o : Option (Candidate × List Candidate))
          → PickedAll log o
          → PickedAll log (elim o [ none ↦ none | some (d, ds) ↦ some (d, c ∷ ds) ])
      further none p = tt
      further (some (d, ds)) (p, ps) = (p, (h, ps))

  asked :
      (c : Candidate) (log : List Effect) (cs : List Candidate)
      → is_valid js c ≡ true
      → All (IsChecked log) cs
      → IsEarned log
      → All (IsChecked (post_check c.phone ∷ log)) (cs ++ c ∷ [])
        × IsEarned (post_check c.phone ∷ log)
  unfolding is_valid
  asked c log cs fits h sent = (
    All-append (IsChecked (post_check c.phone ∷ log)) cs (c ∷ [])
        (emit-IsChecked (post_check c.phone) log cs h)
        ((fits, ground (arith, ===_iff c.phone c.phone)), tt),
    (ground arith, sent),
  )

  begin_submit-IsSound : {s : Signup} → IsSound s → IsSound (begin_submit js s)
  unfolding begin_submit
  begin_submit-IsSound {s} v =
      let c = candidate_of js s in
      if_holds IsSound s.is_submitting (λ _. v)
        (λ _.
          if_holds IsSound (not (is_valid js c)) (λ _. ground arith)
            (λ fits.
              if_holds IsSound (not (phone_error_of js c.phone === "")) (λ _. ground arith)
                (λ _.
                  let (all, earned) =
                    asked c s.log s.checking (ground (arith, fits)) v.candidates v.sent in
                  record { candidates = all; sent = earned })))

  take_check-IsSound :
      (o : Option (Candidate × List Candidate)) (answer : CheckReply) {s : Signup}
      → PickedAll s.log o
      → IsSound s
      → IsSound (take_check js o answer s)
  unfolding take_check PickedAll
  take_check-IsSound none answer picked v = v
  take_check-IsSound (some (c, others)) answer {s} (fits, rest) v =
      by_error (duplicate_error js answer)
    where
      by_error : (e : Option String) → IsSound (after_check js c e (record s { checking = others }))
      by_error (some e) = record { candidates = rest; sent = v.sent }
      by_error none = record {
        candidates = emit-IsChecked (post_signup c) s.log others rest;
        sent = (fits.0, fits.1, v.sent);
      }

  emit-IsSound :
      (e : Effect) {s : Signup}
      → IsSound s
      → (IsEarned s.log → IsEarned (e ∷ s.log))
      → IsSound (emit e s)
  emit-IsSound e {s} v earned = record {
    candidates = emit-IsChecked e s.log s.checking v.candidates;
    sent = earned v.sent;
  }

  closed-IsSound : {s : Signup} → IsSound s → IsSound (close_signup_page s)
  unfolding close_signup_page
  closed-IsSound {s} v =
      emit-IsSound unlock_scroll {s = record s { overlay_shown = false }}
        (record { candidates = v.candidates; sent = v.sent }) (λ h. h)

  left-IsSound : {s : Signup} → IsSound s → IsSound (go_to_login_page s)
  unfolding go_to_login_page
  left-IsSound {s} v = by_page s.has_login_page
    where
      by_page :
          (b : Bool)
          → IsSound (
              emit
                (if b then open_login_page else alert "로그인 화면을 불러오지 못했습니다.")
                (close_signup_page s))
      by_page true = emit-IsSound open_login_page (closed-IsSound v) (λ h. h)
      by_page false = emit-IsSound (alert "로그인 화면을 불러오지 못했습니다.") (closed-IsSound v) (λ h. h)

  at_last-IsSound : {s : Signup} → IsSound s → IsSound (at_last s)
  unfolding at_last
  at_last-IsSound v = record { candidates = v.candidates; sent = v.sent }

  take_signup-IsSound :
      (answer : SignupReply) {s : Signup} → IsSound s → IsSound (take_signup js answer s)
  unfolding take_signup
  take_signup-IsSound (signup_failed message) v = record {
    candidates = v.candidates;
    sent = v.sent;
  }
  take_signup-IsSound null_reply v = v
  take_signup-IsSound (signed_up success message) {s} v =
      if_holds IsSound (is_boolean false success)
        (λ _. record { candidates = v.candidates; sent = v.sent })
        (λ _. left-IsSound (emit-IsSound (alert "회원가입이 완료되었습니다.") v (λ h. h)))

  handle-IsSound : (e : Event) {s : Signup} → IsSound s → IsSound (handle js e s)
  unfolding handle
  handle-IsSound (phone_input value) v = ground arith
  handle-IsSound (password_input value) v = ground arith
  handle-IsSound (name_input value) v = ground arith
  handle-IsSound composition_start v = ground arith
  handle-IsSound (composition_end value) v = ground arith
  handle-IsSound submit {s} v =
      if_holds IsSound s.overlay_shown
        (λ _. if_holds IsSound s.submit_disabled (λ _. v) (λ _. begin_submit-IsSound v)) (λ _. v)
  handle-IsSound close_click {s} v =
      if_holds IsSound s.overlay_shown (λ _. closed-IsSound v) (λ _. v)
  handle-IsSound backdrop_click {s} v =
      if_holds IsSound s.overlay_shown (λ _. closed-IsSound v) (λ _. v)
  handle-IsSound cancel_click {s} v =
      if_holds IsSound s.overlay_shown (λ _. left-IsSound v) (λ _. v)
  handle-IsSound (check_answer place answer) {s} v =
      take_check-IsSound (pick place s.checking) answer
        (pick-PickedAll place s.log s.checking v.candidates) v
  handle-IsSound (signup_answer answer) {s} v =
      if_holds IsSound (s.joining == 0) (λ _. v)
        (λ _.
          at_last-IsSound
            (take_signup-IsSound answer (record { candidates = v.candidates; sent = v.sent })))

  run-IsSound : (es : List Event) {s : Signup} → IsSound s → IsSound (run js es s)
  unfolding run
  run-IsSound [] v = v
  run-IsSound (e ∷ es) v = run-IsSound es (handle-IsSound e v)

  -- Whatever happens in the form once it is open, each request to join that it sent has a number, a
  -- password and a name of the right form, and a check of its number was sent before it; checks were
  -- sent for numbers of the right form only, and each submission that waits is of this kind.
  pub run-opened-IsSound : (es : List Event) (b : Bool) → IsSound (run js es (opened b))
  run-opened-IsSound es b = run-IsSound es (record { candidates = tt; sent = tt })
