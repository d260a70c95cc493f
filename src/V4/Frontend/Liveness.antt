-- ===== src/V4/Frontend/Liveness.antt =====
-- With a watchdog, a program counter that is held is answered in a bounded time, whatever the
-- instruction bus does: with an instruction, or with a fetch error.
use little.Base.{
  ℕ, zero, suc, ◌+◌, ◌-◌, ◌*◌, ◌≤◌, ◌<◌, Bool, true, false, not, ◌&&◌, ◌||◌, ◌==◌, if◌then◌else◌,
  ◌≡◌, sym, ◌∙◌, arith, Bool-cases, inl, inr,
}
use little.Frontend.{Inputs, line_base_requested}
use little.V4.Frontend.{
  Frontend, has_line, write_line, accepts, after_write, next_valid_bits, step, outputs, line_hit,
  after,
}

-- A request in flight for the line of the program counter, whose answer goes into the cache.
abbrev is_own : ℕ → Frontend → Bool
is_own pc s =
    not s.request_cancelled
    && not s.request_is_prefetch
    && (s.request_line_base == line_base_requested pc)

module _ (index_bits timeout : ℕ) where
  abbrev is_valid : Inputs → Frontend → Bool
  is_valid i s = (outputs index_bits timeout i s).instruction_valid

  abbrev is_answered : Inputs → Frontend → Bool
  is_answered i s =
      (outputs index_bits timeout i s).instruction_valid
      || (outputs index_bits timeout i s).fetch_error

  -- The cycles that the answer can still take.
  abbrev rank : Inputs → Frontend → ℕ
  rank i s =
      if is_valid i s
      then 0
      else if not s.request_valid
      then timeout + 3
      else if is_own i.pc s
      then timeout + 2 - s.watchdog_counter
      else timeout + 4 + (timeout + 1 - s.watchdog_counter)

  rank-le : (i : Inputs) (s : Frontend) → rank i s ≤ 2 * timeout + 5
  rank-le i s = ground arith

  counter-step :
      (i : Inputs) (s : Frontend)
      → 0 < timeout
      → s.watchdog_counter ≤ timeout
      → (step index_bits timeout i s).watchdog_counter ≤ timeout
  unfolding step
  counter-step i s positive h = ground arith

  -- A line that arrives for the program counter is found in the next cycle.
  arrived_line :
      (i : Inputs) (s : Frontend)
      → accepts index_bits timeout i s ≡ true
      → is_own i.pc s ≡ true
      → line_hit index_bits i s ≡ false
      → has_line index_bits (step index_bits timeout i s) (line_base_requested i.pc) ≡ true
  unfolding step next_valid_bits after_write write_line has_line
  arrived_line i s a o miss = ground arith

  rank-step :
      (i j : Inputs) (s : Frontend)
      → 0 < timeout
      → i.invalidate ≡ false
      → j.pc ≡ i.pc
      → s.watchdog_counter ≤ timeout
      → is_answered i s ≡ false
      → rank j (step index_bits timeout i s) < rank i s
  unfolding step outputs
  rank-step i j s positive v same h quiet = rw same (ground (arith, arrived_line i s))

  valid_now :
      (i : Inputs) (s : Frontend)
      → s.watchdog_counter ≤ timeout
      → rank i s ≤ 0
      → is_answered i s ≡ true
  valid_now i s h r = ground arith

  answered_below :
      (k : ℕ) (is : ℕ → Inputs) (pc : ℕ) (s : Frontend)
      → 0 < timeout
      → ((n : ℕ) → (is n).invalidate ≡ false)
      → ((n : ℕ) → (is n).pc ≡ pc)
      → s.watchdog_counter ≤ timeout
      → rank (is 0) s ≤ k
      → (n : ℕ) × (n ≤ k) × (is_answered (is n) (after index_bits timeout n is s) ≡ true)
  unfolding after
  answered_below zero is pc s positive v held h r = (0, omega arith, valid_now (is 0) s h r)
  answered_below (suc k) is pc s positive v held h r = elim (Bool-cases (is_answered (is 0) s)) [
    | inl now ↦ (0, omega arith, now)
    | inr later ↦
        (let less = rank-step (is 0) (is 1) s positive (v 0) (held 1 ∙ sym (held 0)) h later in
          let (n, soon, found) =
            answered_below k (λ j. is (suc j)) pc (step index_bits timeout (is 0) s) positive
              (λ j. v (suc j)) (λ j. held (suc j)) (counter-step (is 0) s positive h)
              (omega arith) in
          (suc n, omega arith, found))
  ]

  -- With a watchdog, while the program counter is held and nothing invalidates, an instruction or a
  -- fetch error appears within 2 * timeout + 5 cycles, for any answers of the bus, from any state
  -- whose counter is in its range.
  pub fetch-answered_within :
      (is : ℕ → Inputs) (pc : ℕ) (s : Frontend)
      → 0 < timeout
      → ((n : ℕ) → (is n).invalidate ≡ false)
      → ((n : ℕ) → (is n).pc ≡ pc)
      → s.watchdog_counter ≤ timeout
      → (n : ℕ) × (n ≤ 2 * timeout + 5)
        × (((outputs index_bits timeout (is n) (after index_bits timeout n is s)).instruction_valid
              || (outputs index_bits timeout (is n) (after index_bits timeout n is s)).fetch_error)
            ≡ true)
  fetch-answered_within is pc s positive v held h =
      answered_below (2 * timeout + 5) is pc s positive v held h (rank-le (is 0) s)
