-- ===== src/WriteApi/Polls.antt =====
-- The polling ends, and how it ends.
use soldesk.Prelude.{
  ℕ, zero, suc, ◌+◌, ◌*◌, ◌/◌, ◌≤◌, ◌<◌, ◌≡◌, refl, ◌⊎◌, inl, inr, true, false, some, Bool-cases,
  ltb, arith,
}
use soldesk.WriteApi.{
  Answer, Failure, Reply, answered, thrown, Round, PollOptions, is_terminal, timeout_answer,
  poll_from, positive_or, timeout_ms, interval_of, poll_async_booking_status,
}

-- How a polling goes, from a round and a time on, to its end.
pub data Polls (rounds : ℕ → Round) (deadline : ℕ) : ℕ → ℕ → Reply → Type 0 where
  over : {i now : ℕ} → deadline ≤ now → Polls rounds deadline i now (answered timeout_answer)
  failed :
      {i now : ℕ} {e : Failure}
      → now < deadline
      → (rounds i).reply ≡ thrown e
      → Polls rounds deadline i now (thrown e)
  ended :
      {i now : ℕ} {a : Answer}
      → now < deadline
      → (rounds i).reply ≡ answered a
      → is_terminal a ≡ true
      → Polls rounds deadline i now (answered a)
  again :
      {i now : ℕ} {a : Answer} {r : Reply}
      → now < deadline
      → (rounds i).reply ≡ answered a
      → is_terminal a ≡ false
      → Polls rounds deadline (suc i) (now + (rounds i).took + (rounds i).waited) r
      → Polls rounds deadline i now r

Reply-cases : (r : Reply) → ((a : Answer) × (r ≡ answered a)) ⊎ ((e : Failure) × (r ≡ thrown e))
Reply-cases (answered a) = inl (a, refl)
Reply-cases (thrown e) = inr (e, refl)

-- What the loop returns is how the polling goes.
poll_from-Polls :
    (fuel : ℕ) (rounds : ℕ → Round) (i now deadline : ℕ) (r : Reply)
    → poll_from fuel rounds i now deadline ≡ some r
    → Polls rounds deadline i now r
unfolding poll_from
poll_from-Polls zero rounds i now deadline r h = cc
poll_from-Polls (suc fuel) rounds i now deadline r h = elim (Bool-cases (ltb now deadline)) [
  | inr late ↦ let e : r ≡ answered timeout_answer = ground arith in rw e (over (ground arith))
  | inl early ↦ elim (Reply-cases (rounds i).reply) [
    | inr (f, e) ↦ let same : r ≡ thrown f = ground arith in rw same (failed (ground arith) e)
    | inl (a, e) ↦ elim (Bool-cases (is_terminal a)) [
      | inl end ↦ let same : r ≡ answered a = ground arith in rw same (ended (ground arith) e end)
      | inr going ↦ again (ground arith) e going (
          poll_from-Polls fuel rounds (suc i) (now + (rounds i).took + (rounds i).waited) deadline r
            (ground arith))
    ]
  ]
]

-- With waits of at least `interval` a round for each of them and one to see the end suffice.
poll_from_total :
    (n : ℕ) (rounds : ℕ → Round) (interval i now deadline : ℕ)
    → ((k : ℕ) → interval ≤ (rounds k).waited)
    → deadline ≤ now + n * interval
    → (r : Reply) × (poll_from (suc n) rounds i now deadline ≡ some r)
unfolding poll_from
poll_from_total zero rounds interval i now deadline waits h =
    (answered timeout_answer, ground arith)
poll_from_total (suc n) rounds interval i now deadline waits h =
    let now' = now + (rounds i).took + (rounds i).waited in
    let (r, found) =
      poll_from_total n rounds interval (suc i) now' deadline waits (grind (arith, waits i)) in
    elim (Bool-cases (ltb now deadline)) [
      | inr late ↦ (answered timeout_answer, rw late)
      | inl early ↦ elim (Reply-cases (rounds i).reply) [
        | inr (f, e) ↦ (thrown f, rw (early, e))
        | inl (a, e) ↦ elim (Bool-cases (is_terminal a)) [
          | inl end ↦ (answered a, rw (early, e, end))
          | inr going ↦ (r, rw (early, e, going) found)
        ]
      ]
    ]

-- The rounds that the longest polling takes, and one to see its end.
pub poll_fuel : PollOptions → ℕ
poll_fuel o = suc (timeout_ms o / interval_of o + 1)

interval_of_pos : (o : PollOptions) → 0 < interval_of o
unfolding interval_of positive_or
interval_of_pos o = ground arith

enough : (t d start : ℕ) → 0 < d → start + t ≤ start + (t / d + 1) * d
enough t d start h = grind arith

-- Where each wait takes at least the interval that was asked for, the polling ends within
-- `timeout / interval + 2` rounds, and what it returns is what the rounds make of it: an error of
-- the first request that fails, the first answer that is terminal, or the timeout once the time is
-- over, whichever comes first.
pub poll_async_booking_status-Polls :
    (rounds : ℕ → Round) (start : ℕ) (o : PollOptions)
    → ((k : ℕ) → interval_of o ≤ (rounds k).waited)
    → (r : Reply) × (poll_async_booking_status (poll_fuel o) rounds start o ≡ some r)
      × Polls rounds (start + timeout_ms o) 0 start r
unfolding poll_async_booking_status poll_fuel
poll_async_booking_status-Polls rounds start o waits =
    let deadline = start + timeout_ms o in
    let (r, e) =
      poll_from_total (timeout_ms o / interval_of o + 1) rounds (interval_of o) 0 start deadline
        waits (enough (timeout_ms o) (interval_of o) start (interval_of_pos o)) in
    (r, e, poll_from-Polls (poll_fuel o) rounds 0 start deadline r e)
