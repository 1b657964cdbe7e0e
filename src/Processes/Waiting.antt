-- ===== src/Processes/Waiting.antt =====
-- Waiting for a port: how often it is tried, and what the answer says.
use sidedns.Prelude.{
  ℕ, zero, suc, ◌+◌, ◌*◌, ◌≤◌, ◌<◌, ◌-◌, ◌≢◌, ◌≡◌, ◌↔◌, refl, ap, Bool, true, false, Option, some,
  arith, ltb, Bool-cases, inl, inr,
}
use sidedns.Processes.{poll, wait_for_port, retry_interval_ms}

ltb_lem : (a b : ℕ) → (ltb a b ≡ true) ↔ (a < b)
ltb_lem a b = ground arith

module _ (now : ℕ → ℕ) (taken : ℕ → Bool)
    (ticks : (n : ℕ) → now n + retry_interval_ms ≤ now (suc n)) where
  elapsed : (k n j : ℕ) → n + k ≡ j → now n + k * 100 ≤ now j
  elapsed zero n j e = let same : n ≡ j = omega arith in rw same (omega arith)
  elapsed (suc k) n j e = omega (arith, elapsed k (suc n) j (omega arith), ticks n)

  module _ (deadline : ℕ) where
    -- An attempt, not before the `n`th, that begins before the deadline and finds the port taken.
    pub record IsFound (n : ℕ) : Type 0 where
      pub attempt : ℕ
      pub later : n ≤ attempt
      pub in_time : now attempt < deadline
      pub opened : taken attempt ≡ true

    -- The result of the polling from the `n`th attempt on.
    Settles : Option Bool → ℕ → Type 0
    Settles o n = (r : Bool) × ((o ≡ some r) × ((r ≡ true) ↔ IsFound n))

    -- Each later attempt is later in time.
    in_order : (n : ℕ) → (f : IsFound n) → now n ≤ now f.attempt
    in_order n f = omega (arith, elapsed (f.attempt - n) n f.attempt (omega (arith, f.later)))

    attempt-ne : (n : ℕ) → taken n ≡ false → (f : IsFound n) → n ≢ f.attempt
    attempt-ne n closed f e = cc (f.opened, ap taken e, closed)

    poll_step :
        (fuel n : ℕ)
        → (now n < deadline
            → taken n ≡ false
            → Settles (poll now taken deadline fuel (suc n)) (suc n))
        → Settles (poll now taken deadline (suc fuel) n) n
    unfolding poll Settles
    poll_step fuel n again = elim (Bool-cases (ltb (now n) deadline)) [
      | inr over ↦ (
        false,
        (
          ground arith,
          (
            λ e. cc,
            λ f. cc (over, (ltb_lem (now n) deadline).1 (omega (arith, f.in_time, in_order n f))),
          ),
        ),
      )
      | inl running ↦ elim (Bool-cases (taken n)) [
        | inl opened ↦ (
          true,
          (
            ground arith,
            (
              λ _. record {
                attempt = n;
                later = omega arith;
                in_time = (ltb_lem (now n) deadline).0 running;
                opened = opened;
              },
              λ _. refl,
            ),
          ),
        )
        | inr closed ↦
            let (r, (result, means)) = again ((ltb_lem (now n) deadline).0 running) closed in
            (
              r,
              (
                ground arith,
                (
                  λ e.
                      let f = means.0 e in
                      record {
                        attempt = f.attempt;
                        later = omega (arith, f.later);
                        in_time = f.in_time;
                        opened = f.opened;
                      },
                  λ f. means.1 (record {
                    attempt = f.attempt;
                    later = omega (arith, f.later, attempt-ne n closed f);
                    in_time = f.in_time;
                    opened = f.opened;
                  }),
                ),
              ),
            )
      ]
    ]

    poll_lem :
        (fuel n : ℕ)
        → deadline ≤ now n + fuel * 100
        → Settles (poll now taken deadline (suc fuel) n) n
    poll_lem zero n h = poll_step zero n (λ running. absurd (omega arith))
    poll_lem (suc fuel) n h =
        poll_step (suc fuel) n (λ _ _. poll_lem fuel (suc n) (omega (arith, ticks n)))

  -- With a clock that advances by the interval between two attempts at least, waiting ends after at
  -- most ten attempts for each second of the timeout, and the answer is whether one of them began
  -- before the deadline and found the port taken.
  pub wait_for_port_bounds :
      (start timeout : ℕ)
      → start ≤ now 0
      → (r : Bool) × ((wait_for_port now taken start timeout ≡ some r)
          × ((r ≡ true) ↔ (
              (k : ℕ) × ((k < timeout * 10)
                × ((now k < start + timeout * 1000) × (taken k ≡ true))))))
  unfolding wait_for_port Settles
  wait_for_port_bounds start timeout began =
      let deadline = start + timeout * 1000 in
      let (r, (result, means)) = poll_lem deadline (timeout * 10) 0 (omega arith) in
      (
        r,
        (
          result,
          (
            λ e.
                let f = means.0 e in
                (
                  f.attempt,
                  (
                    omega (arith, elapsed f.attempt 0 f.attempt (omega arith), f.in_time),
                    (f.in_time, f.opened),
                  ),
                ),
            λ (k, (few, (in_time, opened))).
                means.1
                  (record { attempt = k; later = omega arith; in_time = in_time; opened = opened }),
          ),
        ),
      )
