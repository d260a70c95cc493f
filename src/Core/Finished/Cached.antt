-- ===== src/Core/Finished/Cached.antt =====
-- A load of the v3 core that the data cache serves, beside one that the load/store unit answers.
use little.Base.{
  ℕ, ◌+◌, ◌*◌, ◌/◌, ◌%◌, ◌^◌, ◌≤◌, ◌<◌, true, ◌==◌, slice, ◌≡◌, refl, sym, ◌∙◌, ap, arith,
}
use little.Core.State.{Params, Core, Inputs, MemoryFinal}
use little.Core.Stages.{
  memory_in, cached_memory_response, dcache_cacheable_load, dcache_lookup, mem_single_line_access,
}
use little.Cache
use little.Lsu.{base_sel, of_width}
use little.Lsu.Load.{
  load_bytes, IsWidth, byte, short, word, long, below_eight, in_word, of_width-mod,
}
use little.Core.Finished.{
  cached_result, cached_memory_post_value, cached_memory_next_pc, dcache_load_result,
  mem_byte_offset, memory_result,
}
use little.MemoryStage
use mathlib.Core.Path.{subst}
use native.Mathlib.Nat.{one-le-pow}
use little.Retire.{RetireEntry}

-- The result with the values of an entry of the memory stage.
pub record IsResultOf (f : MemoryFinal) (r : RetireEntry) : Type 0 where
  pub reg_write_same : f.reg_write ≡ r.reg_write
  pub reg_index_same : f.reg_index ≡ r.reg_index
  pub reg_value_same : f.reg_value ≡ r.reg_value
  pub aux_write_same : f.aux_reg_write ≡ r.aux_reg_write
  pub aux_index_same : f.aux_reg_index ≡ r.aux_reg_index
  pub aux_value_same : f.aux_reg_value ≡ r.aux_reg_value
  pub next_pc_same : f.next_pc ≡ r.next_pc
  pub commit_pc_same : f.commit_pc ≡ r.commit_pc
  pub flags_write_same : f.flags_write ≡ r.flags_write
  pub flags_value_same : f.flags_value ≡ r.flags_value

-- A load that the data cache serves leaves what the memory stage leaves when the load/store unit
-- answers with the same value, for every form of load and of update beside it.
cached_result-IsResultOf :
    (p : Params) (e : Inputs) (c : Core)
    → IsResultOf (cached_result p e c) (
        MemoryStage.result
          (record (memory_in p e c) { lsu_response_load_value = dcache_load_result p e c }))
unfolding cached_result cached_memory_post_value cached_memory_next_pc memory_in MemoryStage.result
    MemoryStage.response_post_value MemoryStage.response_next_pc
cached_result-IsResultOf p e c = ground arith

-- An access that ends within its line takes no second word.
fits_line :
    (w o : ℕ) → IsWidth w → o < 8 → o + w ≤ 8 → (slice (base_sel w * 2 ^ o) 8 16 == 0) ≡ true
fits_line w o byte l =
    below_eight (λ n. n + 1 ≤ 8 → (slice (base_sel 1 * 2 ^ n) 8 16 == 0) ≡ true) (λ h. refl)
      (λ h. refl) (λ h. refl) (λ h. refl) (λ h. refl) (λ h. refl) (λ h. refl) (λ h. refl) o l
fits_line w o short l =
    below_eight (λ n. n + 2 ≤ 8 → (slice (base_sel 2 * 2 ^ n) 8 16 == 0) ≡ true) (λ h. refl)
      (λ h. refl) (λ h. refl) (λ h. refl) (λ h. refl) (λ h. refl) (λ h. refl)
      (λ h. absurd (omega arith)) o l
fits_line w o word l =
    below_eight (λ n. n + 4 ≤ 8 → (slice (base_sel 4 * 2 ^ n) 8 16 == 0) ≡ true) (λ h. refl)
      (λ h. refl) (λ h. refl) (λ h. refl) (λ h. refl) (λ h. absurd (omega arith))
      (λ h. absurd (omega arith)) (λ h. absurd (omega arith)) o l
fits_line w o long l =
    below_eight (λ n. n + 8 ≤ 8 → (slice (base_sel 8 * 2 ^ n) 8 16 == 0) ≡ true) (λ h. refl)
      (λ h. absurd (omega arith)) (λ h. absurd (omega arith)) (λ h. absurd (omega arith))
      (λ h. absurd (omega arith)) (λ h. absurd (omega arith)) (λ h. absurd (omega arith))
      (λ h. absurd (omega arith)) o l

-- The value cut out of one line is that cut out of the line and the one behind it.
line_value :
    (x y o w : ℕ)
    → x < 2 ^ 64
    → IsWidth w
    → o < 8
    → o + w ≤ 8
    → of_width w (x / 2 ^ (o * 8)) ≡ (x + y * 2 ^ 64) / 2 ^ (o * 8) % 2 ^ (w * 8)
line_value x y o w b k l f =
    of_width-mod w (x / 2 ^ (o * 8)) k (shorter o)
    ∙ sym (in_word x y b w o k l (fits_line w o k l f))
  where
    shorter : (n : ℕ) → x / 2 ^ (n * 8) < 2 ^ 64
    shorter n = grind (arith, one-le-pow (n * 8) 2)

module _ (p : Params) (e : Inputs) (c : Core) where
  -- The cache holds the line, and the access ends in it.
  served :
      cached_memory_response p e c ≡ true
      → ((Cache.lookup 2 c.dcache c.memory.addr).hit ≡ true)
        × (slice c.memory.addr 0 3 + c.memory.width_bytes ≤ 8)
        × (dcache_lookup p e c ≡ Cache.lookup 2 c.dcache c.memory.addr)
  unfolding cached_memory_response dcache_cacheable_load dcache_lookup mem_single_line_access
  served h = (ground arith, ground arith, ground arith)

  -- It brings the bytes of memory at its address, in every state that the cache reaches beside a
  -- memory of 64-bit words.
  dcache_load_result-load_bytes :
      {m : ℕ → ℕ}
      → Cache.Coherence.Reach 2 c.dcache m
      → ((a : ℕ) → m a < 2 ^ 64)
      → IsWidth c.memory.width_bytes
      → cached_memory_response p e c ≡ true
      → dcache_load_result p e c ≡ load_bytes m c.memory.addr c.memory.width_bytes
  unfolding dcache_load_result mem_byte_offset load_bytes
  dcache_load_result-load_bytes {m} reach bounded width h =
      let (hit, inside, same) = served h in
      let loaded : (dcache_lookup p e c).load ≡ m (c.memory.addr / 8) =
        ap (λ (l : Cache.Lookup). l.load) same
        ∙ Cache.Coherence.lookup-load_of_Reach 2 c.memory.addr reach hit in
      let offset : slice c.memory.addr 0 3 ≡ c.memory.addr % 8 = omega arith in
      rw (loaded, offset)
        (line_value (m (c.memory.addr / 8)) (m ((c.memory.addr / 8 + 1) % 2 ^ 61))
          (c.memory.addr % 8) c.memory.width_bytes (bounded (c.memory.addr / 8)) width (omega arith)
          (omega arith))

-- In every state that the data cache reaches beside a memory of 64-bit words, a load of 1, 2, 4 or 8
-- bytes that the cache serves leaves in the registers, flags and program counter what the memory
-- stage leaves when the load/store unit answers with the bytes of memory at its address.
pub memory_result-load_bytes :
    (p : Params) (e : Inputs) (c : Core) {m : ℕ → ℕ}
    → Cache.Coherence.Reach 2 c.dcache m
    → ((a : ℕ) → m a < 2 ^ 64)
    → IsWidth c.memory.width_bytes
    → cached_memory_response p e c ≡ true
    → IsResultOf (memory_result p e c) (
        MemoryStage.result (record (memory_in p e c) {
          lsu_response_load_value = load_bytes m c.memory.addr c.memory.width_bytes;
        }))
unfolding memory_result
memory_result-load_bytes p e c reach bounded width h = rw h (
    subst
      (λ (v : ℕ).
        IsResultOf (cached_result p e c)
          (MemoryStage.result (record (memory_in p e c) { lsu_response_load_value = v })))
      (dcache_load_result-load_bytes p e c reach bounded width h) (cached_result-IsResultOf p e c))
