-- ===== src/V4/Lsu/Access.antt =====
-- The unit of v4 beside that of v3.
use little.Base.{ℕ, zero, suc, ◌/◌, ◌^◌, ◌<◌, true, false, ◌≡◌, refl, ap, sym, ◌∙◌, arith}
use little.Lsu
use little.Lsu.{LsuState, idle, first, second, Inputs, Outputs, is_active}
use little.Lsu.Load.{IsWidth, load_bytes}
use little.Lsu.Access
use little.Lsu.Access.{Serves, Serves-step, Serves-response, active-step}
use little.V4.Lsu.{Lsu, step, outputs, after}

-- The state of the v3 unit whose beat has started.
abbrev pub started : Lsu → Lsu.Lsu
started s = record {
  state = s.state;
  latched_addr = s.latched_addr;
  latched_width = s.latched_width;
  latched_write = s.latched_write;
  latched_store_value = s.latched_store_value;
  first_data = s.first_data;
  beat_started = true;
  watchdog_counter = s.watchdog_counter;
}

-- What v4 keeps of a state of the v3 unit.
abbrev pub forget : Lsu.Lsu → Lsu
forget s = record {
  state = s.state;
  latched_addr = s.latched_addr;
  latched_width = s.latched_width;
  latched_write = s.latched_write;
  latched_store_value = s.latched_store_value;
  first_data = s.first_data;
  watchdog_counter = s.watchdog_counter;
}

module _ (timeout : ℕ) where
  outputs-started_at :
      (i : Inputs) (s : Lsu) (x : LsuState)
      → s.state ≡ x
      → outputs timeout i s ≡ Lsu.outputs timeout i (started s)
  unfolding outputs Lsu.outputs
  outputs-started_at i s idle e = rw e refl
  outputs-started_at i s first e = rw e refl
  outputs-started_at i s second e = rw e refl

  step-started_at :
      (i : Inputs) (s : Lsu) (x : LsuState)
      → s.state ≡ x
      → step timeout i s ≡ forget (Lsu.step timeout i (started s))
  unfolding step Lsu.step
  step-started_at i s idle e = ground arith
  step-started_at i s first e = ground arith
  step-started_at i s second e = ground arith

  -- At equal inputs, this unit gives the outputs of the v3 unit whose beat has started, and goes on
  -- to the state of that unit.
  pub step-started :
      (i : Inputs) (s : Lsu)
      → (outputs timeout i s ≡ Lsu.outputs timeout i (started s))
        × (step timeout i s ≡ forget (Lsu.step timeout i (started s)))
  step-started i s = (outputs-started_at i s s.state refl, step-started_at i s s.state refl)

module _ (words : ℕ → ℕ) (fits : (a : ℕ) → words a < 2 ^ 64) (addr width : ℕ)
    (in_range : addr < 2 ^ 64) (w : IsWidth width) (timeout : ℕ) where
  -- If the bus acknowledges, it gives the word at its address.
  abbrev pub IsHonest : Inputs → Lsu → Type 0
  IsHonest i s = i.bus_ack ≡ true → i.bus_dat_r ≡ words ((outputs timeout i s).bus_adr / 8)

  abbrev Serving : Lsu.Lsu → Type 0
  Serving = Serves words fits addr width in_range w

  IsHonest-started :
      (i : Inputs) (s : Lsu)
      → IsHonest i s
      → Lsu.Access.IsHonest words fits addr width in_range w timeout i (started s)
  unfolding Lsu.Access.IsHonest
  IsHonest-started i s h a =
      h a ∙ ap (λ (o : Outputs). words (o.bus_adr / 8)) ((step-started timeout i s).0)

  Serving-forget : (t : Lsu.Lsu) → Serving t → Serving (started (forget t))
  Serving-forget t k = record { addr_is = k.addr_is; width_is = k.width_is; first_is = k.first_is }

  Serving-step :
      (i : Inputs) (s : Lsu)
      → Serving (started s)
      → is_active s.state ≡ true
      → IsHonest i s
      → Serving (started (step timeout i s))
  Serving-step i s k a h = rw ((step-started timeout i s).1) (
      Serving-forget (Lsu.step timeout i (started s)) (
        Serves-step words fits addr width in_range w timeout i (started s) s.state refl k a
          (IsHonest-started i s h)))

  still_active :
      (i : Inputs) (s : Lsu) (x : LsuState)
      → s.state ≡ x
      → is_active x ≡ true
      → (outputs timeout i s).response_valid ≡ false
      → is_active (step timeout i s).state ≡ true
  unfolding step outputs
  still_active i s idle e a v = cc
  still_active i s first e a v = ground arith
  still_active i s second e a v = ground arith

  Serving-after :
      (n : ℕ) (is : ℕ → Inputs) (s : Lsu)
      → Serving (started s)
      → is_active s.state ≡ true
      → ((k : ℕ) → IsHonest (is k) (after timeout k is s))
      → ((k : ℕ) → k < n → (outputs timeout (is k) (after timeout k is s)).response_valid ≡ false)
      → Serving (started (after timeout n is s))
  unfolding after
  Serving-after zero is s k a h v = k
  Serving-after (suc n) is s k a h v =
      Serving-after n (λ j. is (suc j)) (step timeout (is 0) s) (Serving-step (is 0) s k a (h 0))
        (still_active (is 0) s s.state refl a (v 0 (omega arith))) (λ j. h (suc j))
        (λ j l. v (suc j) (omega arith))

  accepted_load :
      (i : Inputs) (s : Lsu)
      → s.state ≡ idle
      → i.request_valid ≡ true
      → i.request_addr ≡ addr
      → i.request_width_bytes ≡ width
      → Serving (started (step timeout i s)) × (is_active (step timeout i s).state ≡ true)
  unfolding step
  accepted_load i s e r p q = ground arith

  -- What the outputs have in common with those of the v3 unit gives the value.
  response_value :
      (i : Inputs) (s : Lsu)
      → Serving (started s)
      → IsHonest i s
      → (outputs timeout i s).response_valid ≡ true
      → (outputs timeout i s).response_error ≡ false
      → (outputs timeout i s).response_load_value ≡ load_bytes words addr width
  response_value i s k h v e =
      let same = (step-started timeout i s).0 in
      ap (λ (o : Outputs). o.response_load_value) same
      ∙ Serves-response words fits addr width in_range w timeout i (started s) s.state refl k
          (IsHonest-started i s h) (sym (ap (λ (o : Outputs). o.response_valid) same) ∙ v)
          (sym (ap (λ (o : Outputs). o.response_error) same) ∙ e)

  -- A unit of v4 at rest is asked for `width` bytes at `addr`, on a bus that acknowledges with the
  -- word of memory at its address. Then the first response, if it is no error, brings these bytes.
  pub first_answer-load_bytes :
      (is : ℕ → Inputs) (s : Lsu) (n : ℕ)
      → s.state ≡ idle
      → (is 0).request_valid ≡ true
      → (is 0).request_addr ≡ addr
      → (is 0).request_width_bytes ≡ width
      → ((k : ℕ) → IsHonest (is (suc k)) (after timeout (suc k) is s))
      → ((k : ℕ)
          → k < n
          → (outputs timeout (is (suc k)) (after timeout (suc k) is s)).response_valid ≡ false)
      → (outputs timeout (is (suc n)) (after timeout (suc n) is s)).response_valid ≡ true
      → (outputs timeout (is (suc n)) (after timeout (suc n) is s)).response_error ≡ false
      → (outputs timeout (is (suc n)) (after timeout (suc n) is s)).response_load_value
        ≡ load_bytes words addr width
  unfolding after
  first_answer-load_bytes is s n rest r p q h v response e =
      let (k, a) = accepted_load (is 0) s rest r p q in
      response_value (is (suc n)) (after timeout (suc n) is s)
        (Serving-after n (λ j. is (suc j)) (step timeout (is 0) s) k a h v) (h n) response e
