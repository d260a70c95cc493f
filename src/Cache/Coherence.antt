-- ===== src/Cache/Coherence.antt =====
-- The cache beside the memory that it stands for.
use little.Base.{
  ℕ, ◌%◌, ◌^◌, true, false, ◌&&◌, ◌==◌, if◌then◌else◌, update, ◌≡◌, ◌≢◌, sym, ap, ◌∙◌, arith,
  Bool-cases, not, ◌||◌, inl, inr,
}
use little.Cache.{
  Cache, Wires, line_of, index_of, merge_bytes, has_line, lookup, invalidate, store_update, fill,
  step,
}

-- Memory by lines of eight bytes.
abbrev pub Memory : Type 0
Memory = ℕ → ℕ

-- What the rest of the core does to the memory in a cycle, beside what it asks of the cache. Under a
-- flush, anything; under an invalidation, a change of that line; under a store update, that store;
-- in any other cycle nothing, and what it fills in is what memory holds.
pub data Traffic (m : Memory) (w : Wires) (m' : Memory) : Type 0 where
  flushing : w.flush_all ≡ true → Traffic m w m'
  invalidating :
      w.flush_all ≡ false
      → w.invalidate_valid ≡ true
      → ((l : ℕ) → l ≢ line_of w.invalidate_addr → m' l ≡ m l)
      → Traffic m w m'
  storing :
      w.flush_all ≡ false
      → w.invalidate_valid ≡ false
      → w.store_update_valid ≡ true
      → ((l : ℕ)
          → m' l
            ≡ update m
                (line_of w.store_update_addr)
                (merge_bytes 8 w.store_update_sel w.store_update_data
                  (m (line_of w.store_update_addr)))
                l)
      → Traffic m w m'
  reading :
      w.flush_all ≡ false
      → w.invalidate_valid ≡ false
      → w.store_update_valid ≡ false
      → (w.fill_valid ≡ true → w.fill_data ≡ m (line_of w.fill_addr))
      → ((l : ℕ) → m' l ≡ m l)
      → Traffic m w m'

module _ (index_bits : ℕ) where
  -- The states of the cache and the memory from a reset on.
  pub data Reach : Cache → Memory → Type 0 where
    reset : (c : Cache) (m : Memory) → ((i : ℕ) → c.valid i ≡ false) → Reach c m
    cycle :
        (c : Cache) (m : Memory) (w : Wires) (m' : Memory)
        → Reach c m
        → Traffic m w m'
        → Reach (step index_bits w c) m'

  -- A valid line holds what memory holds, and stands at its own index.
  abbrev IsCoherent : Cache → Memory → Type 0
  IsCoherent c m =
      (i : ℕ) → c.valid i ≡ true → (c.tags i % 2 ^ index_bits ≡ i) × (c.line_data i ≡ m (c.tags i))

  hit_line :
      (c : Cache) (addr : ℕ)
      → has_line index_bits c addr ≡ true
      → (c.valid (index_of index_bits addr) ≡ true)
        × (c.tags (index_of index_bits addr) ≡ line_of addr)
  unfolding has_line
  hit_line c addr h = ground arith

  same_index : (a b : ℕ) → a ≡ b → a % 2 ^ index_bits ≡ b % 2 ^ index_bits
  same_index a b e = rw e

  -- A line that is not the one invalidated has another tag.
  other_line :
      (c : Cache) (m : Memory) (addr i : ℕ)
      → IsCoherent c m
      → c.valid i ≡ true
      → has_line index_bits c addr ≡ false
      → c.tags i ≢ line_of addr
  unfolding has_line
  other_line c m addr i k v miss e =
      let here : index_of index_bits addr ≡ i =
        ap (λ (t : ℕ). t % 2 ^ index_bits) (sym e) ∙ (k i v).0 in
      ground (arith, here)

  module _ (c : Cache) (m : Memory) (k : IsCoherent c m) where
    invalidate-IsCoherent :
        (addr : ℕ) (m' : Memory)
        → ((l : ℕ) → l ≢ line_of addr → m' l ≡ m l)
        → IsCoherent (invalidate index_bits addr c) m'
    unfolding invalidate
    invalidate-IsCoherent addr m' same i v = elim (Bool-cases (has_line index_bits c addr)) [
      | inl hit ↦ ground (arith, k i, same (c.tags i), same_index (c.tags i) (line_of addr))
      | inr miss ↦ ground (arith, k i, same (c.tags i), other_line c m addr i k)
    ]

    store_update-IsCoherent :
        (addr sel new : ℕ) (m' : Memory)
        → ((l : ℕ) → m' l ≡ update m (line_of addr) (merge_bytes 8 sel new (m (line_of addr))) l)
        → IsCoherent (store_update index_bits addr sel new c) m'
    unfolding store_update
    store_update-IsCoherent addr sel new m' same i v =
        elim (Bool-cases (has_line index_bits c addr)) [
          | inl hit ↦ ground (arith, k i, same (c.tags i), hit_line c addr hit)
          | inr miss ↦ ground (arith, k i, same (c.tags i), other_line c m addr i k)
        ]

    fill-IsCoherent :
        (addr new : ℕ) (m' : Memory)
        → new ≡ m (line_of addr)
        → ((l : ℕ) → m' l ≡ m l)
        → IsCoherent (fill index_bits addr new c) m'
    unfolding fill
    fill-IsCoherent addr new m' e same i v =
        ground (arith, k i, same (c.tags i), same (line_of addr))

  step-IsCoherent :
      (c : Cache) (m : Memory) (w : Wires) (m' : Memory)
      → IsCoherent c m
      → Traffic m w m'
      → IsCoherent (step index_bits w c) m'
  unfolding step
  step-IsCoherent c m w m' k (flushing f) = rw f (λ i v. cc)
  step-IsCoherent c m w m' k (invalidating f n same) =
      rw (f, n) (invalidate-IsCoherent c m k w.invalidate_addr m' same)
  step-IsCoherent c m w m' k (storing f n s same) =
      rw (f, n, s)
        (store_update-IsCoherent c m k w.store_update_addr w.store_update_sel w.store_update_data m'
          same)
  step-IsCoherent c m w m' k (reading f n s e same) = elim (Bool-cases w.fill_valid) [
    | inl filling ↦
        rw (f, n, s, filling) (fill-IsCoherent c m k w.fill_addr w.fill_data m' (e filling) same)
    | inr quiet ↦ rw (f, n, s, quiet) (λ i v. ground (arith, k i v, same (c.tags i)))
  ]

  Reach-IsCoherent : {c : Cache} {m : Memory} → Reach c m → IsCoherent c m
  Reach-IsCoherent (reset c m none_valid) i v = absurd (ground (arith, none_valid i))
  Reach-IsCoherent (cycle c m w m' r t) i v = step-IsCoherent c m w m' (Reach-IsCoherent r) t i v

  -- At every point of a run from reset, under the traffic described, a lookup that hits returns what
  -- memory holds at the line of its address.
  pub lookup-load_of_Reach :
      {c : Cache} {m : Memory} (addr : ℕ)
      → Reach c m
      → (lookup index_bits c addr).hit ≡ true
      → (lookup index_bits c addr).load ≡ m (line_of addr)
  unfolding lookup
  lookup-load_of_Reach {c} {m} addr r hit =
      let (v, tag) = hit_line c addr hit in
      (Reach-IsCoherent r (index_of index_bits addr) v).1 ∙ ap m tag

  -- Which lines hit after a cycle, on every branch: none after a flush, all but one after an
  -- invalidation, the same after a store; a fill adds its line, and puts out what had its index.
  hit-step :
      (c : Cache) (w : Wires) (addr : ℕ)
      → (lookup index_bits (step index_bits w c) addr).hit ≡ (
          if w.flush_all
          then false
          else if w.invalidate_valid
          then (lookup index_bits c addr).hit && not (line_of addr == line_of w.invalidate_addr)
          else if w.store_update_valid
          then (lookup index_bits c addr).hit
          else if w.fill_valid
          then (line_of addr == line_of w.fill_addr)
            || ((lookup index_bits c addr).hit
                && not (index_of index_bits addr == index_of index_bits w.fill_addr))
          else (lookup index_bits c addr).hit)
  unfolding step lookup
  hit-step c w addr = ground (
    arith,
    same_index (line_of addr) (line_of w.invalidate_addr),
    same_index (line_of addr) (line_of w.fill_addr),
  )
