-- ===== src/Frontend/Coherence.antt =====
-- The line of the frontend beside the memory that it stands for, on a bus that may answer with what
-- memory held when the request began.
use little.Base.{ℕ, true, false, if◌then◌else◌, ◌≡◌, ◌≢◌, arith}
use little.Frontend.{Frontend, Inputs, line_base_requested, word_select, slot_index, step, outputs}

-- Memory by the addresses of its lines.
abbrev pub Memory : Type 0
Memory = ℕ → ℕ

-- What the rest of the core does to the memory in a cycle, beside what it asks of the frontend.
-- Under an invalidation, anything; under an update of a valid line, that change of the line; and in
-- both an update and any other cycle, no change of the line that a request in flight is for. In a
-- cycle without either the line held does not change. Lines that are neither held nor in flight may
-- change at any time.
pub data Traffic (m : Memory) (i : Inputs) (s : Frontend) (m' : Memory) : Type 0 where
  invalidating : i.invalidate ≡ true → Traffic m i s m'
  updating :
      i.invalidate ≡ false
      → i.update_line_valid ≡ true
      → s.line_valid ≡ true
      → m' s.line_base ≡ i.update_line_data
      → (s.request_valid ≡ true → m' s.request_line_base ≡ m s.request_line_base)
      → Traffic m i s m'
  quiet :
      i.invalidate ≡ false
      → i.update_line_valid ≡ false
      → (s.line_valid ≡ true → m' s.line_base ≡ m s.line_base)
      → (s.request_valid ≡ true → m' s.request_line_base ≡ m s.request_line_base)
      → Traffic m i s m'

module _ (timeout : ℕ) where
  -- A state of the frontend, the memory, and the memory when the request in flight began.
  pub data Reach : Frontend → Memory → Memory → Type 0 where
    reset :
        (s : Frontend) (m m₀ : Memory)
        → s.line_valid ≡ false
        → s.request_valid ≡ false
        → Reach s m m₀
    cycle :
        (s : Frontend) (m m₀ : Memory) (i : Inputs) (m' : Memory)
        → Reach s m m₀
        → (i.bus_ack ≡ true → i.bus_dat_r ≡ m₀ s.request_line_base)
        → Traffic m i s m'
        → Reach (step timeout i s) m' (if s.request_valid then m₀ else m')

  record IsCoherent (s : Frontend) (m m₀ : Memory) : Type 0 where
    line_current : s.line_valid ≡ true → s.line_data ≡ m s.line_base
    request_elsewhere :
        s.request_valid ≡ true → s.line_valid ≡ true → s.request_line_base ≢ s.line_base
    request_current :
        s.request_valid ≡ true
        → s.request_cancelled ≡ false
        → m₀ s.request_line_base ≡ m s.request_line_base

  step-IsCoherent :
      (s : Frontend) (m m₀ : Memory) (i : Inputs) (m' : Memory)
      → IsCoherent s m m₀
      → (i.bus_ack ≡ true → i.bus_dat_r ≡ m₀ s.request_line_base)
      → Traffic m i s m'
      → IsCoherent (step timeout i s) m' (if s.request_valid then m₀ else m')
  unfolding step
  step-IsCoherent s m m₀ i m' k h (invalidating v) = ground arith
  step-IsCoherent s m m₀ i m' k h (updating v u l held flying) = ground (arith, held, flying)
  step-IsCoherent s m m₀ i m' k h (quiet v u held flying) = ground (arith, held, flying)

  Reach-IsCoherent : {s : Frontend} {m m₀ : Memory} → Reach s m m₀ → IsCoherent s m m₀
  Reach-IsCoherent (reset s m m₀ l r) = ground arith
  Reach-IsCoherent (cycle s m m₀ i m' r h t) = step-IsCoherent s m m₀ i m' (Reach-IsCoherent r) h t

  -- From reset on, whenever the frontend has an instruction for the program counter, it is the one
  -- that memory holds there now, though the bus may answer with what memory held when its request
  -- began; provided that the line held changes in memory only under an invalidation or as the update
  -- of the line says, and the line in flight only under an invalidation.
  pub instruction_word-current :
      {s : Frontend} {m m₀ : Memory} (i : Inputs)
      → Reach s m m₀
      → (outputs timeout i s).instruction_valid ≡ true
      → (outputs timeout i s).instruction_word
        ≡ word_select (m (line_base_requested i.pc)) (slot_index i.pc)
  unfolding outputs
  instruction_word-current i r v = ground (arith, Reach-IsCoherent r)
