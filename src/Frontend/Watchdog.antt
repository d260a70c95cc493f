-- ===== src/Frontend/Watchdog.antt =====
-- With a watchdog, every request of the frontend ends in a bounded time, whatever the bus does.
use little.Base.{ℕ, zero, suc, ◌+◌, ◌-◌, ◌≤◌, ◌<◌, true, false, ◌≡◌, arith, Bool-cases, inl, inr}
use little.Frontend.{Frontend, Inputs, step, after}

module _ (timeout : ℕ) (positive : 0 < timeout) where
  request-step :
      (i : Inputs) (s : Frontend)
      → s.request_valid ≡ true
      → s.watchdog_counter ≤ timeout
      → ((step timeout i s).request_valid ≡ true)
      → (s.watchdog_counter < timeout)
        × ((step timeout i s).watchdog_counter ≡ s.watchdog_counter + 1)
  unfolding step
  request-step i s r h n = ground arith

  ends_below :
      (k : ℕ) (is : ℕ → Inputs) (s : Frontend)
      → s.request_valid ≡ true
      → s.watchdog_counter ≤ timeout
      → timeout - s.watchdog_counter < k
      → (n : ℕ) × (n ≤ k) × ((after timeout n is s).request_valid ≡ false)
  unfolding after
  ends_below zero is s r h l = absurd (omega arith)
  ends_below (suc k) is s r h l = elim (Bool-cases (step timeout (is 0) s).request_valid) [
    | inl more ↦
        (let (room, next) = request-step (is 0) s r h more in
          let (n, soon, e) =
            ends_below k (λ j. is (suc j)) (step timeout (is 0) s) more (omega arith)
              (omega arith) in
          (suc n, omega arith, e))
    | inr done ↦ (1, omega arith, done)
  ]

  -- For any inputs to come, a request in flight is over within timeout + 1 cycles.
  request_ends_within :
      (is : ℕ → Inputs) (s : Frontend)
      → s.request_valid ≡ true
      → s.watchdog_counter ≤ timeout
      → (n : ℕ) × (n ≤ timeout + 1) × ((after timeout n is s).request_valid ≡ false)
  request_ends_within is s r h = ends_below (timeout + 1) is s r h (omega arith)
