-- ===== src/Forms/Signup/Twice.antt =====
-- When the form for joining sends too much.
use soldesk.Prelude.{
  ◌+◌, ◌≡◌, refl, ap, ◌∙◌, if_true, if_false, List, [], ◌∷◌, ◌++◌, none, true, false, not, ◌===◌,
  pick, arith,
}
use soldesk.Js.Value.{Engine}
use soldesk.Forms.Signup.{
  Candidate, post_check, post_signup, Signup, CheckReply, submit, check_answer, emit, clear_errors,
  duplicate_error, phone_error_of, with_errors, is_valid, candidate_of, begin_submit, after_check,
  take_check, handle, run,
}

module _ (js : Engine) where
  -- The form once a submission waits for the check of its number.
  abbrev pub asked_for : Signup → Signup
  asked_for s =
      let c = candidate_of js s in
      emit (post_check c.phone)
        (record (with_errors js c (clear_errors s)) { checking = s.checking ++ c ∷ [] })

  submit_asks :
      (s : Signup)
      → s.overlay_shown ≡ true
      → s.submit_disabled ≡ false
      → s.is_submitting ≡ false
      → is_valid js (candidate_of js s) ≡ true
      → (js.trim s.phone === "") ≡ false
      → handle js submit s ≡ asked_for s
  unfolding handle begin_submit
  submit_asks s shown enabled idle valid filled =
      if_true _ _ shown
      ∙ if_false _ _ enabled
      ∙ if_false _ _ idle
      ∙ if_false _ _ (ap not valid)
      ∙ if_false _ _ (ap (λ error. not (error === "")) (no_error filled valid))
    where
      no_error :
          (js.trim s.phone === "") ≡ false
          → is_valid js (candidate_of js s) ≡ true
          → phone_error_of js (js.trim s.phone) ≡ ""
      no_error filled valid = ground arith

  check_joins :
      (s : Signup) (c : Candidate) (cs : List Candidate) (free : CheckReply)
      → s.checking ≡ c ∷ cs
      → duplicate_error js free ≡ none
      → handle js (check_answer 0 free) s ≡ after_check js c none (record s { checking = cs })
  unfolding handle take_check pick
  check_joins s c cs free waits unused =
      ap (λ waiting. take_check js (pick 0 waiting) free s) waits
      ∙ ap (λ error. after_check js c error (record s { checking = cs })) unused

  -- A submission that waits for the check of its number leaves the form open to another one: two
  -- submissions of the same valid fields, one behind the other, are both sent once the checks say that
  -- the number is free.
  pub joins_twice :
      (s : Signup) (free : CheckReply)
      → s.overlay_shown ≡ true
      → s.is_submitting ≡ false
      → s.submit_disabled ≡ false
      → s.checking ≡ []
      → is_valid js (candidate_of js s) ≡ true
      → (js.trim s.phone === "") ≡ false
      → duplicate_error js free ≡ none
      → let after = run js (submit ∷ submit ∷ check_answer 0 free ∷ check_answer 0 free ∷ []) s in
        (after.joining ≡ s.joining + 2)
        × (after.log
            ≡ post_signup (candidate_of js s)
              ∷ post_signup (candidate_of js s)
              ∷ post_check (js.trim s.phone)
              ∷ post_check (js.trim s.phone)
              ∷ s.log)
  unfolding run after_check with_errors clear_errors candidate_of
  joins_twice s free shown idle enabled none_waits valid filled unused =
      let c = candidate_of js s in
      let second = asked_for (asked_for s) in
      let third = after_check js c none (record second { checking = c ∷ [] }) in
      let asked_twice : run js (submit ∷ submit ∷ []) s ≡ second =
        ap (handle js submit) (submit_asks s shown enabled idle valid filled)
        ∙ submit_asks (asked_for s) shown enabled idle valid filled in
      let both : second.checking ≡ c ∷ c ∷ [] = ap (λ cs. (cs ++ c ∷ []) ++ c ∷ []) none_waits in
      let answered : run js (submit ∷ submit ∷ check_answer 0 free ∷ check_answer 0 free ∷ []) s
          ≡ after_check js c none (record third { checking = [] }) =
        ap (λ t. run js (check_answer 0 free ∷ check_answer 0 free ∷ []) t) asked_twice
        ∙ ap (handle js (check_answer 0 free)) (check_joins second c (c ∷ []) free both unused)
        ∙ check_joins third c [] free refl unused in
      (ap (λ t. t.joining) answered ∙ omega arith, ap (λ t. t.log) answered)
