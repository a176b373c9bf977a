-- ===== src/Forms/PwFind/Laws.antt =====
-- What the forms for a forgotten password send, and what they say of an error.
use soldesk.Prelude.{
  ℕ, ◌≡◌, refl, String, List, [], ◌∷◌, Option, none, some, true, false, ◌&&◌, ◌===◌, ◌==◌, if_holds,
  All, pick, arith,
}
use soldesk.Js.Value.{Engine, Value}
use soldesk.Account.{Fields, field}
use soldesk.Forms.Fields.{is_valid_phone, is_valid_name, is_valid_password}
use soldesk.Forms.PwFind.{
  Effect, post_find, post_reset, Stage, closed, verify_form, reset_form, Request, find_user,
  reset_password, PwFind, open_form, phone_input, name_input, composition_start, composition_end,
  password_input, confirm_input, submit, close_click, cancel_click, find_answer, reset_answer,
  FindReply, found_reply, null_reply, failed_reply, ResetReply, reset_reply, null_reset,
  failed_reset, Finding, Event, is_true, is_false, any_flag, close_pw_find_page, go_to_login_page,
  open_overlay, matches, normalize_find_result, submit_verify, submit_reset, show_not_found,
  take_finding, take_find_reply, take_reset_reply, reset_failed, take_find_answer,
  take_reset_answer, submit_form, handle, run, in_overlay, at_last, is_open,
}

-- A request to look for an account has a number and a name of the right form, and one to change the
-- password has a password that is long enough.
abbrev pub IsChecked : Engine → Effect → Type 0
IsChecked js (post_find phone name) =
    (is_valid_phone js phone ≡ true) × (is_valid_name js name ≡ true)
IsChecked js (post_reset phone name password) = is_valid_password js password ≡ true
IsChecked js _ = Unit

module _ (js : Engine) where
  abbrev Sound : PwFind → Type 0
  Sound s = All (IsChecked js) s.log

  submit_verify-Sound : (s : PwFind) → Sound s → Sound (submit_verify js s)
  unfolding submit_verify
  submit_verify-Sound s v =
      if_holds Sound s.is_submitting (λ _. v)
        (λ _.
          if_holds Sound (is_valid_phone js (js.trim s.phone) && is_valid_name js (js.trim s.name))
            (λ fits. (ground (arith, fits), v)) (λ _. v))

  submit_reset-Sound : (s : PwFind) → Sound s → Sound (submit_reset js s)
  unfolding submit_reset
  submit_reset-Sound s v =
      if_holds Sound s.is_submitting (λ _. v)
        (λ _.
          if_holds Sound (is_valid_password js s.password && s.password === s.password_confirm)
            (λ fits. (ground (arith, fits), v)) (λ _. v))

  submit_form-Sound : (stage : Stage) (s : PwFind) → Sound s → Sound (submit_form js stage s)
  unfolding submit_form
  submit_form-Sound closed s v = v
  submit_form-Sound verify_form s v = submit_verify-Sound s v
  submit_form-Sound reset_form s v = submit_reset-Sound s v

  in_overlay-Sound :
      (overlay : ℕ) (f : PwFind → PwFind) (s : PwFind)
      → Sound s
      → Sound (f s)
      → Sound (in_overlay js overlay f s)
  in_overlay-Sound overlay f s v w = if_holds Sound (overlay == s.overlay) (λ _. w) (λ _. v)

  take_finding-Sound :
      (overlay : ℕ) (user : Option Fields) (f : Finding) (s : PwFind)
      → f.user ≡ user
      → Sound s
      → Sound (take_finding js overlay f s)
  unfolding take_finding show_not_found open_overlay close_pw_find_page
  take_finding-Sound overlay none f s e v =
      rw e (in_overlay-Sound overlay (show_not_found js f) s v v)
  take_finding-Sound overlay (some user) f s e v = rw e (
      if_holds Sound f.success (λ _. (tt, v))
        (λ _. in_overlay-Sound overlay (show_not_found js f) s v v))

  take_find_reply-Sound :
      (overlay : ℕ) (phone name : String) (reply : FindReply) (s : PwFind)
      → Sound s
      → Sound (take_find_reply js overlay phone name reply s)
  unfolding take_find_reply
  take_find_reply-Sound overlay phone name (found_reply result) s v =
      take_finding-Sound overlay _ _ s refl v
  take_find_reply-Sound overlay phone name null_reply s v = v
  take_find_reply-Sound overlay phone name (failed_reply message) s v =
      take_finding-Sound overlay _ _ s refl v

  at_last-Sound : (overlay : ℕ) (s : PwFind) → Sound s → Sound (at_last js overlay s)
  at_last-Sound overlay s v = if_holds Sound (overlay == s.overlay) (λ _. v) (λ _. v)

  reset_failed-Sound :
      (overlay : ℕ) (message : Value) (s : PwFind)
      → Sound s
      → Sound (reset_failed js overlay message s)
  unfolding reset_failed
  reset_failed-Sound overlay message s v = if_holds Sound (overlay == s.overlay) (λ _. v) (λ _. v)

  take_reset_reply-Sound :
      (overlay : ℕ) (reply : ResetReply) (s : PwFind)
      → Sound s
      → Sound (take_reset_reply js overlay reply s)
  unfolding take_reset_reply go_to_login_page close_pw_find_page
  take_reset_reply-Sound overlay (reset_reply success message) s v =
      if_holds Sound (is_false success) (λ _. reset_failed-Sound overlay message s v)
        (λ _. (tt, (tt, (tt, v))))
  take_reset_reply-Sound overlay null_reset s v = v
  take_reset_reply-Sound overlay (failed_reset message) s v = reset_failed-Sound overlay _ s v

  answer-Sound :
      (p : Option (Request × List Request)) (reply : FindReply) (s : PwFind)
      → Sound s
      → Sound (take_find_answer js p reply s)
  unfolding take_find_answer
  answer-Sound none reply s v = v
  answer-Sound (some (find_user overlay phone name, others)) reply s v =
      let w = take_find_reply-Sound overlay phone name reply (record s { requests = others }) v in
      at_last-Sound overlay
        (take_find_reply js overlay phone name reply (record s { requests = others })) w
  answer-Sound (some (reset_password overlay, others)) reply s v = v

  reset_answer-Sound :
      (p : Option (Request × List Request)) (reply : ResetReply) (s : PwFind)
      → Sound s
      → Sound (take_reset_answer js p reply s)
  unfolding take_reset_answer
  reset_answer-Sound none reply s v = v
  reset_answer-Sound (some (find_user overlay phone name, others)) reply s v = v
  reset_answer-Sound (some (reset_password overlay, others)) reply s v =
      let w = take_reset_reply-Sound overlay reply (record s { requests = others }) v in
      at_last-Sound overlay (take_reset_reply js overlay reply (record s { requests = others })) w

  staged :
      (stage : Stage) (s x : PwFind)
      → Sound s
      → Sound x
      → Sound (elim stage [ verify_form ↦ x | _ ↦ s ])
  staged closed s x v w = v
  staged verify_form s x v w = w
  staged reset_form s x v w = v

  handle-Sound : (e : Event) (s : PwFind) → Sound s → Sound (handle js e s)
  unfolding handle open_overlay close_pw_find_page go_to_login_page
  handle-Sound open_form s v = v
  handle-Sound (phone_input value) s v = staged s.stage s _ v v
  handle-Sound (name_input value) s v = staged s.stage s _ v v
  handle-Sound composition_start s v = v
  handle-Sound (composition_end value) s v = staged s.stage s _ v v
  handle-Sound (password_input value) s v = v
  handle-Sound (confirm_input value) s v = v
  handle-Sound submit s v = submit_form-Sound s.stage s v
  handle-Sound close_click s v = if_holds Sound (is_open js s.stage) (λ _. (tt, v)) (λ _. v)
  handle-Sound cancel_click s v = if_holds Sound (is_open js s.stage) (λ _. (tt, (tt, v))) (λ _. v)
  handle-Sound (find_answer place reply) s v = answer-Sound (pick place s.requests) reply s v
  handle-Sound (reset_answer place reply) s v = reset_answer-Sound (pick place s.requests) reply s v

  -- Whatever happens in the forms: if every request that was sent before is one that the forms check,
  -- then so is every request in the log after it: a request for an account has a number and a name of
  -- the right form, a request to change a password has one that is long enough.
  run-IsChecked :
      (es : List Event) (s : PwFind)
      → All (IsChecked js) s.log
      → All (IsChecked js) (run js es s).log
  unfolding run
  run-IsChecked [] s v = v
  run-IsChecked (e ∷ es) s v = run-IsChecked es (handle js e s) (handle-Sound e s v)

  -- A request for the account that fails, whatever the error says: the form tells the visitor that
  -- neither the number nor the name is registered, and shows no message.
  pub failed_find_misleads :
      (message : String) (s : PwFind) (phone name : String) (others : List Request)
      → s.requests ≡ find_user s.overlay phone name ∷ others
      → let after = handle js (find_answer 0 (failed_reply message)) s in
        (after.stage ≡ s.stage)
        × (after.phone_error ≡ "가입된 핸드폰번호가 없습니다.")
        × (after.name_error ≡ "가입된 이름이 없습니다.")
        × (after.common_error ≡ s.common_error)
        × (after.is_submitting ≡ false)
  unfolding handle take_find_answer take_find_reply take_finding show_not_found
      normalize_find_result matches any_flag field is_true pick
  failed_find_misleads message s phone name others waiting =
      let own : (s.overlay == s.overlay) ≡ true = ground arith in rw (waiting, own) (ground arith)
