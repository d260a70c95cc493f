-- ===== src/Lsu/Watchdog.antt =====
-- With a watchdog, every access is answered in a bounded time, whatever the bus does.
use little.Base.{
  ℕ, zero, suc, ◌+◌, ◌-◌, ◌*◌, ◌≤◌, ◌<◌, Bool, true, false, ◌≡◌, refl, arith, Bool-cases, inl, inr,
}
use little.Lsu.{Lsu, LsuState, idle, first, second, Inputs, is_active, step, outputs, after}

-- The cycles that a beat can still take.
abbrev left : ℕ → Bool → ℕ → ℕ
left timeout false counter = timeout + 2
left timeout true counter = timeout + 1 - counter

-- The cycles that an access can still take.
abbrev rank : ℕ → LsuState → Bool → ℕ → ℕ
rank timeout idle started counter = 0
rank timeout first started counter = timeout + 2 + left timeout started counter
rank timeout second started counter = left timeout started counter

abbrev rank_of : ℕ → Lsu → ℕ
rank_of timeout s = rank timeout s.state s.beat_started s.watchdog_counter

module _ (timeout : ℕ) (positive : 0 < timeout) where
  rank_pos :
      (x : LsuState) (b : Bool) {c : ℕ}
      → is_active x ≡ true
      → c ≤ timeout
      → rank timeout x b c ≤ 0
      → ⊥
  rank_pos idle b a h r = cc
  rank_pos first b a h r = omega arith
  rank_pos second true a h r = omega arith
  rank_pos second false a h r = omega arith

  rank-le : (x : LsuState) (b : Bool) (c : ℕ) → rank timeout x b c ≤ 2 * timeout + 4
  rank-le idle b c = omega arith
  rank-le first true c = omega arith
  rank-le first false c = omega arith
  rank-le second true c = omega arith
  rank-le second false c = omega arith

  -- The counter stays within its range.
  pub watchdog_counter-step :
      (i : Inputs) (s : Lsu)
      → s.watchdog_counter ≤ timeout
      → (step timeout i s).watchdog_counter ≤ timeout
  unfolding step
  watchdog_counter-step i s h = ground arith

  rank-step :
      (i : Inputs) (s : Lsu) (x : LsuState)
      → s.state ≡ x
      → is_active s.state ≡ true
      → s.watchdog_counter ≤ timeout
      → (outputs timeout i s).response_valid ≡ false
      → (is_active (step timeout i s).state ≡ true)
        × (rank_of timeout (step timeout i s) < rank_of timeout s)
  unfolding step outputs
  rank-step i s idle e a h v = absurd (ground arith)
  rank-step i s first e a h v = ground arith
  rank-step i s second e a h v = ground arith

  answered_below :
      (k : ℕ) (is : ℕ → Inputs) (s : Lsu)
      → is_active s.state ≡ true
      → s.watchdog_counter ≤ timeout
      → rank_of timeout s ≤ k
      → (n : ℕ) × (n < k) × ((outputs timeout (is n) (after timeout n is s)).response_valid ≡ true)
  unfolding after
  answered_below zero is s a h r = absurd (rank_pos s.state s.beat_started (a) h r)
  answered_below (suc k) is s a h r = elim (Bool-cases (outputs timeout (is 0) s).response_valid) [
    | inl v ↦ (0, omega arith, v)
    | inr v ↦
        (let (a', less) = rank-step (is 0) s s.state refl a h v in
          let (n, soon, v') =
            answered_below k (λ j. is (suc j)) (step timeout (is 0) s) a'
              (watchdog_counter-step (is 0) s h) (omega arith) in
          (suc n, omega arith, v'))
  ]

  -- From any point of an access, for any inputs to come, the unit gives a response within
  -- 2 * timeout + 4 cycles.
  pub response_within :
      (is : ℕ → Inputs) (s : Lsu)
      → is_active s.state ≡ true
      → s.watchdog_counter ≤ timeout
      → (n : ℕ) × (n < 2 * timeout + 4)
        × ((outputs timeout (is n) (after timeout n is s)).response_valid ≡ true)
  response_within is s a h =
      answered_below (2 * timeout + 4) is s a h (rank-le s.state s.beat_started s.watchdog_counter)
