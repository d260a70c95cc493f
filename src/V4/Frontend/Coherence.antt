-- ===== src/V4/Frontend/Coherence.antt =====
-- The lines that the frontend of the v4 core holds, beside the memory that they stand for, on a bus
-- that may answer with what memory held when the request began.
use little.Base.{
  ℕ, ◌*◌, ◌/◌, ◌%◌, ◌^◌, true, false, not, ◌&&◌, if◌then◌else◌, update, ◌≡◌, refl, sym, ap, ◌∙◌,
  arith, Bool-cases, inl, inr,
}
use native.Mathlib.Nat.{div-add-mod}
use little.Frontend.{Inputs, line_base_requested, word_select, slot_index}
use little.V4.Frontend.{
  Frontend, prefetch_hit, index_of, tag_of, has_line, write_line, accepts, promotes, after_write,
  next_valid_bits, step, outputs,
}

-- Memory by the addresses of its lines.
abbrev pub Memory : Type 0
Memory = ℕ → ℕ

-- The address of a line.
abbrev pub line_start : ℕ → ℕ
line_start base = base / 2 ^ 3

-- What the rest of the core does to the memory in a cycle. Under an invalidation, anything; in any
-- other cycle nothing, and no update of a line is asked for.
pub data Traffic (m : Memory) (i : Inputs) (m' : Memory) : Type 0 where
  invalidating : i.invalidate ≡ true → Traffic m i m'
  quiet :
      i.invalidate ≡ false → i.update_line_valid ≡ false → ((a : ℕ) → m' a ≡ m a) → Traffic m i m'

module _ (index_bits timeout : ℕ) where
  -- A state of the frontend, the memory, and the memory when the request in flight began.
  pub data Reach : Frontend → Memory → Memory → Type 0 where
    reset :
        (s : Frontend) (m m₀ : Memory)
        → ((k : ℕ) → s.valid_bits k ≡ false)
        → s.prefetch_valid ≡ false
        → s.request_valid ≡ false
        → Reach s m m₀
    cycle :
        (s : Frontend) (m m₀ : Memory) (i : Inputs) (m' : Memory)
        → Reach s m m₀
        → (i.bus_ack ≡ true → i.bus_dat_r ≡ m₀ (line_start s.request_line_base))
        → Traffic m i m'
        → Reach (step index_bits timeout i s) m' (if s.request_valid then m₀ else m')

  -- Each line that is found is the one of memory.
  abbrev HoldsLines : Frontend → Memory → Type 0
  HoldsLines s m =
      (a : ℕ)
      → has_line index_bits s a ≡ true
      → s.data_mem (index_of index_bits a) ≡ m (line_start a)

  record IsCoherent (s : Frontend) (m m₀ : Memory) : Type 0 where
    line_current : HoldsLines s m
    prefetch_current : s.prefetch_valid ≡ true → s.prefetch_data ≡ m (line_start s.prefetch_base)
    request_current :
        s.request_valid ≡ true
        → s.request_cancelled ≡ false
        → m₀ (line_start s.request_line_base) ≡ m (line_start s.request_line_base)

  same_index : (a b : ℕ) → a ≡ b → a % 2 ^ index_bits ≡ b % 2 ^ index_bits
  same_index a b e = rw e

  -- Two lines at one place with one tag are the same line.
  same_line :
      (a b : ℕ)
      → index_of index_bits a ≡ index_of index_bits b
      → tag_of index_bits a ≡ tag_of index_bits b
      → line_start a ≡ line_start b
  same_line a b i t = ground (
    arith,
    div-add-mod (line_start a) (2 ^ index_bits),
    div-add-mod (line_start b) (2 ^ index_bits),
    ap (λ (q : ℕ). 2 ^ index_bits * q) t,
  )

  -- The lines of a state in which one line of another has been written.
  written_line :
      (s t : Frontend) (m : Memory) (base new : ℕ)
      → ((k : ℕ) → t.valid_bits k ≡ update s.valid_bits (index_of index_bits base) true k)
      → ((k : ℕ) → t.tag_mem k ≡ (write_line index_bits base new s).tag_mem k)
      → ((k : ℕ) → t.data_mem k ≡ (write_line index_bits base new s).data_mem k)
      → new ≡ m (line_start base)
      → HoldsLines s m
      → HoldsLines t m
  unfolding has_line write_line
  written_line s t m base new v g d e k a h =
      let at = index_of index_bits a in
      ground (arith, v at, g at, d at, same_line a base, k a, ap m)

  -- The lines after a cycle that is no invalidation and no update.
  quiet_lines :
      (s : Frontend) (m : Memory) (i : Inputs)
      → i.invalidate ≡ false
      → i.update_line_valid ≡ false
      → HoldsLines s m
      → (s.prefetch_valid ≡ true → s.prefetch_data ≡ m (line_start s.prefetch_base))
      → (accepts index_bits timeout i s ≡ true → i.bus_dat_r ≡ m (line_start s.request_line_base))
      → HoldsLines (step index_bits timeout i s) m
  unfolding step after_write next_valid_bits has_line write_line
  quiet_lines s m i v u lines ahead arrived =
      elim (Bool-cases (accepts index_bits timeout i s && not s.request_is_prefetch)) [
        | inl demanded ↦
            written_line s (step index_bits timeout i s) m s.request_line_base i.bus_dat_r
              (λ k. ground arith) (λ k. ground arith) (λ k. ground arith) (arrived (ground arith))
              lines
        | inr other ↦ elim (Bool-cases (promotes index_bits timeout i s)) [
          | inl moved ↦
              written_line s (step index_bits timeout i s) m (line_base_requested i.pc)
                s.prefetch_data (λ k. ground arith) (λ k. ground arith) (λ k. ground arith)
                (ground (arith, ahead)) lines
          | inr kept ↦ (λ a h. ground (arith, lines a))
        ]
      ]

  step-IsCoherent :
      (s : Frontend) (m m₀ : Memory) (i : Inputs) (m' : Memory)
      → IsCoherent s m m₀
      → (i.bus_ack ≡ true → i.bus_dat_r ≡ m₀ (line_start s.request_line_base))
      → Traffic m i m'
      → IsCoherent (step index_bits timeout i s) m' (if s.request_valid then m₀ else m')
  unfolding step has_line next_valid_bits
  step-IsCoherent s m m₀ i m' k h (invalidating v) = record {
    line_current = λ a hit. ground arith;
    prefetch_current = ground arith;
    request_current = ground arith;
  }
  step-IsCoherent s m m₀ i m' k h (quiet v u same) = record {
    line_current = λ a hit.
        quiet_lines s m i v u k.line_current k.prefetch_current (ground (arith, h, k)) a hit
        ∙ sym (same (line_start a));
    prefetch_current = λ p.
        ground (arith, same (line_start s.prefetch_base), same (line_start s.request_line_base));
    request_current = λ p q. elim (Bool-cases s.request_valid) [
      | inl busy ↦ ground (arith, same (line_start s.request_line_base))
      | inr free ↦ rw free refl
    ];
  }

  Reach-IsCoherent : {s : Frontend} {m m₀ : Memory} → Reach s m m₀ → IsCoherent s m m₀
  unfolding has_line
  Reach-IsCoherent (reset s m m₀ l p r) = record {
    line_current = λ a hit. ground (arith, l (index_of index_bits a));
    prefetch_current = ground arith;
    request_current = ground arith;
  }
  Reach-IsCoherent (cycle s m m₀ i m' r h t) = step-IsCoherent s m m₀ i m' (Reach-IsCoherent r) h t

  -- From reset on, whenever this frontend has an instruction for the program counter, from its cache
  -- or from the line fetched ahead, it is the one that memory holds there now, though the bus may
  -- answer with what memory held when the request began. The memory changes under an invalidation
  -- alone, and no update of a line is asked for.
  pub instruction_word-fresh :
      {s : Frontend} {m m₀ : Memory} (i : Inputs)
      → Reach s m m₀
      → (outputs index_bits timeout i s).instruction_valid ≡ true
      → (outputs index_bits timeout i s).instruction_word
        ≡ word_select (m (line_start (line_base_requested i.pc))) (slot_index i.pc)
  unfolding outputs
  instruction_word-fresh {s} {m} i r v =
      let k = Reach-IsCoherent r in
      elim (Bool-cases (prefetch_hit i s)) [
        | inl ahead ↦
            ground (arith, ap (λ (l : ℕ). word_select (m (line_start l)) (slot_index i.pc)))
        | inr here ↦ ground (arith, k.line_current (line_base_requested i.pc))
      ]
