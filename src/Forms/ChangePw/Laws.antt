-- ===== src/Forms/ChangePw/Laws.antt =====
-- When the page sends a change of the password, and how many wait.
use soldesk.Prelude.{
  ◌⊎◌, subst, ◌++◌, Bool-cases, inl, inr, ℕ, zero, suc, ◌≤◌, ◌≡◌, ◌↔◌, refl, sym, ◌∙◌, if_false,
  String, List, [], ◌∷◌, Option, none, some, Bool, true, false, not, ◌&&◌, ◌===◌, if◌then◌else◌,
  if_holds, length, length-append, pick, le→leb, ===_iff, arith,
}
use soldesk.Js.Value.{Engine}
use soldesk.Account.{get_stored_user_id}
use soldesk.Forms.Fields.{size}
use soldesk.Forms.ChangePw.{
  post_change, ChangePw, Event, open_change_pw, current_input, new_input, check_input, submit,
  cancel_click, answer, validate_change_pw_form, submit_as, submit_change, take_result, at_last,
  take_answer, handle, run,
}

-- One request waits just while the flag is set, none where it is not.
abbrev pub Counted : List ℕ → Bool → Type 0
Counted requests submitting = length requests ≡ (if submitting then 1 else 0)

pub record IsSingle (s : ChangePw) : Type 0 where
  pub counted : Counted s.requests s.is_change_pw_submitting

abbrev PickedOne : List ℕ → Option (ℕ × List ℕ) → Type 0
PickedOne xs none = Unit
PickedOne xs (some (x, others)) = length xs ≡ suc (length others)

pick-PickedOne : (n : ℕ) (xs : List ℕ) → PickedOne xs (pick n xs)
unfolding pick
pick-PickedOne n [] = tt
pick-PickedOne zero (x ∷ xs) = refl
pick-PickedOne (suc n) (x ∷ xs) = further (pick n xs) (pick-PickedOne n xs)
  where
    further :
        (p : Option (ℕ × List ℕ))
        → PickedOne xs p
        → PickedOne (x ∷ xs) (elim p [ none ↦ none | some (y, ys) ↦ some (y, x ∷ ys) ])
    further none q = tt
    further (some (y, ys)) q = omega (arith, q)

size_filled : (s : String) → s ≡ "" → size s ≡ 0
unfolding size
size_filled s e = rw e refl

module _ (js : Engine) where
  submit_as-IsSingle :
      (user_id : String) (s : ChangePw)
      → s.is_change_pw_submitting ≡ false
      → IsSingle s
      → IsSingle (submit_as js user_id s)
  unfolding submit_as
  submit_as-IsSingle user_id s free v =
      if_holds IsSingle (user_id === "") (λ _. record { counted = v.counted })
        (λ _.
          if_holds IsSingle
            (validate_change_pw_form s.current_password s.new_password s.new_password_check).ok
            (λ _. record {
              counted = ground (arith, length-append s.requests (s.page ∷ []), v.counted, free);
            })
            (λ _. record { counted = v.counted }))

  answer-IsSingle :
      (p : Option (ℕ × List ℕ)) (result : Option String) (s : ChangePw)
      → IsSingle s
      → PickedOne s.requests p
      → IsSingle (take_answer js p result s)
  unfolding take_answer take_result at_last
  answer-IsSingle none result s v q = v
  answer-IsSingle (some (page, others)) none s v q = record {
    counted = ground (arith, v.counted, q);
  }
  answer-IsSingle (some (page, others)) (some message) s v q = record {
    counted = ground (arith, v.counted, q);
  }

  handle-IsSingle : (e : Event) (s : ChangePw) → IsSingle s → IsSingle (handle js e s)
  unfolding handle submit_change
  handle-IsSingle open_change_pw s v = record { counted = v.counted }
  handle-IsSingle (current_input value) s v = record { counted = v.counted }
  handle-IsSingle (new_input value) s v = record { counted = v.counted }
  handle-IsSingle (check_input value) s v = record { counted = v.counted }
  handle-IsSingle (submit now) s v =
      if_holds IsSingle s.submit_disabled (λ _. v)
        (λ _.
          if_holds IsSingle s.is_change_pw_submitting (λ _. v)
            (λ free.
              submit_as-IsSingle (get_stored_user_id js now s.storage).1
                (record s { storage = (get_stored_user_id js now s.storage).0 }) free
                (record { counted = v.counted })))
  handle-IsSingle cancel_click s v = record { counted = v.counted }
  handle-IsSingle (answer place result) s v =
      answer-IsSingle (pick place s.requests) result s v (pick-PickedOne place s.requests)

  -- Whatever happens, also where the page is opened again while a request waits: at most one request
  -- waits for its answer, and just while the flag of the submission is set.
  run-IsSingle : (es : List Event) (s : ChangePw) → IsSingle s → IsSingle (run js es s)
  unfolding run
  run-IsSingle [] s v = v
  run-IsSingle (e ∷ es) s v = run-IsSingle es (handle js e s) (handle-IsSingle e s v)

  -- The passwords that the form lets pass.
  abbrev pub IsChange : String → String → String → Type 0
  IsChange current new check = ¬ (current ≡ "") × (4 ≤ size new) × (new ≡ check) × ¬ (current ≡ new)

  ok→IsChange :
      (current new check : String)
      → (validate_change_pw_form current new check).ok ≡ true
      → IsChange current new check
  unfolding validate_change_pw_form
  ok→IsChange current new check ok = (
    ground (arith, ok, ===_iff current ""),
    ground (arith, ok),
    ground (arith, ok, ===_iff new check),
    ground (arith, ok, ===_iff current new, ===_iff current "", ===_iff new ""),
  )

  IsChange→ok :
      (current new check : String)
      → IsChange current new check
      → (validate_change_pw_form current new check).ok ≡ true
  unfolding validate_change_pw_form
  IsChange→ok current new check (given, long, same, other) =
      let first : (current === "") ≡ false = ground (arith, given, ===_iff current "") in
      let second : (new === "") ≡ false = ground (arith, long, ===_iff new "", size_filled new) in
      let third : (check === "") ≡ false =
        ground (arith, same, second, ===_iff new "", ===_iff check "") in
      let equal : (new === check) ≡ true = ground (arith, same, ===_iff new check) in
      let apart : (current === new) ≡ false = ground (arith, other, ===_iff current new) in
      rw (first, second, third, equal, apart, le→leb 4 (size new) long) refl

  -- What a submission does where it sends the change, and where it does not.
  abbrev Sent : Bool → String → ChangePw → ChangePw → Type 0
  Sent true user_id s after =
      (after.log ≡ post_change user_id s.current_password s.new_password ∷ s.log)
      × (after.requests ≡ s.requests ++ s.page ∷ [])
      × (after.is_change_pw_submitting ≡ true)
      × (after.submit_disabled ≡ true)
  Sent false user_id s after =
      (after.log ≡ s.log)
      × (after.requests ≡ s.requests)
      × (after.is_change_pw_submitting ≡ false)
      × (after.submit_disabled ≡ false)

  lets_pass : String → ChangePw → Bool
  lets_pass user_id s =
      not (user_id === "")
      && (validate_change_pw_form s.current_password s.new_password s.new_password_check).ok

  submit_as-Sent :
      (user_id : String) (s : ChangePw)
      → s.submit_disabled ≡ false
      → s.is_change_pw_submitting ≡ false
      → Sent (lets_pass user_id s) user_id s (submit_as js user_id s)
  unfolding submit_as lets_pass
  submit_as-Sent user_id s enabled free =
      let ok =
        (validate_change_pw_form s.current_password s.new_password s.new_password_check).ok in
      elim (Bool-cases (user_id === "")) [
        | inl unknown ↦ rw unknown (refl, refl, free, enabled)
        | inr known ↦ elim (Bool-cases ok) [
          | inl fits ↦ rw (known, fits) (refl, refl, refl, refl)
          | inr misfits ↦ rw (known, misfits) (refl, refl, free, enabled)
        ]
      ]

  -- A stored user id, and passwords that the form lets pass.
  abbrev IsComplete : String → ChangePw → Type 0
  IsComplete user_id s =
      ¬ (user_id ≡ "")
      × ¬ (s.current_password ≡ "")
      × (4 ≤ size s.new_password)
      × (s.new_password ≡ s.new_password_check)
      × ¬ (s.current_password ≡ s.new_password)

  lets_pass_iff :
      (user_id : String) (s : ChangePw) → (lets_pass user_id s ≡ true) ↔ IsComplete user_id s
  unfolding lets_pass
  lets_pass_iff user_id s = (
    (λ both.
        let passed : (validate_change_pw_form s.current_password s.new_password
              s.new_password_check).ok
            ≡ true =
          ground (arith, both) in
        let (given, long, same, other) =
          ok→IsChange s.current_password s.new_password s.new_password_check passed in
        (ground (arith, both, ===_iff user_id ""), given, long, same, other)),
    (λ (known, given, long, same, other).
        let named : (user_id === "") ≡ false = ground (arith, known, ===_iff user_id "") in
        let passed : (validate_change_pw_form s.current_password s.new_password
              s.new_password_check).ok
            ≡ true =
          IsChange→ok s.current_password s.new_password s.new_password_check
            (given, long, same, other) in
        rw (named, passed) refl),
  )

  -- A submission, while none waits: either a user id is stored, the password is given, the new one has
  -- at least four units and is repeated, and the two differ; then the service is asked to change this
  -- user's password from the one to the other, a request of this page waits, and the form is locked.
  -- Or this is not so; then nothing is sent, no further request waits, and the form stays unlocked.
  pub submit_iff :
      (now : ℕ) (s : ChangePw)
      → s.submit_disabled ≡ false
      → s.is_change_pw_submitting ≡ false
      → let user_id = (get_stored_user_id js now s.storage).1 in
        let after = handle js (submit now) s in
        let complete =
          ¬ (user_id ≡ "")
          × ¬ (s.current_password ≡ "")
          × (4 ≤ size s.new_password)
          × (s.new_password ≡ s.new_password_check)
          × ¬ (s.current_password ≡ s.new_password) in
        (complete
          × (after.log ≡ post_change user_id s.current_password s.new_password ∷ s.log)
          × (after.requests ≡ s.requests ++ s.page ∷ [])
          × (after.is_change_pw_submitting ≡ true)
          × (after.submit_disabled ≡ true))
        ⊎ (¬ complete
            × (after.log ≡ s.log)
            × (after.requests ≡ s.requests)
            × (after.is_change_pw_submitting ≡ false)
            × (after.submit_disabled ≡ false))
  unfolding handle submit_change
  submit_iff now s enabled free =
      let user_id = (get_stored_user_id js now s.storage).1 in
      let asked = record s { storage = (get_stored_user_id js now s.storage).0 } in
      let reached : submit_as js user_id asked ≡ handle js (submit now) s = sym (
        if_false s (submit_change js now s) enabled
        ∙ if_false s (submit_as js user_id asked) free) in
      let done =
        subst (Sent (lets_pass user_id asked) user_id asked) reached
          (submit_as-Sent user_id asked enabled free) in
      let (forth, back) = lets_pass_iff user_id asked in
      elim (Bool-cases (lets_pass user_id asked)) [
        | inl fits ↦
            let (log, requests, waiting, locked) =
              subst (λ b. Sent b user_id asked (handle js (submit now) s)) fits done in
            inl (forth fits, log, requests, waiting, locked)
        | inr misfits ↦
            let (log, requests, waiting, locked) =
              subst (λ b. Sent b user_id asked (handle js (submit now) s)) misfits done in
            inr
              ((λ complete. ground (arith, misfits, back complete)), log, requests, waiting, locked)
      ]
