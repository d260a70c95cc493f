-- ===== src/Cache.antt =====
-- The direct-mapped data cache, hdl/little64_cores/v3/cache.py, with lines of eight bytes.
-- The register arrays are functions of the index; the cache has 2 ^ index_bits lines.
pub mod Bytes
pub mod Coherence
use little.Base.{
  ℕ, zero, suc, ◌+◌, ◌*◌, ◌/◌, ◌%◌, ◌^◌, Bool, true, false, ◌&&◌, ◌==◌, if◌then◌else◌, update,
  test_bit,
}

pub record Cache : Type 0 where
  pub valid : ℕ → Bool
  pub tags : ℕ → ℕ
  pub line_data : ℕ → ℕ

-- The inputs of one clock cycle, without the lookup's.
pub record Wires : Type 0 where
  pub flush_all : Bool
  pub invalidate_valid : Bool
  pub invalidate_addr : ℕ
  pub store_update_valid : Bool
  pub store_update_addr : ℕ
  pub store_update_sel : ℕ
  pub store_update_data : ℕ
  pub fill_valid : Bool
  pub fill_addr : ℕ
  pub fill_data : ℕ

pub record Lookup : Type 0 where
  pub hit : Bool
  pub load : ℕ

-- `addr[3:]`, the number of the line; it is the tag too.
abbrev pub line_of : ℕ → ℕ
line_of addr = addr / 2 ^ 3

-- `x[8 * i:8 * (i + 1)]`.
abbrev pub byte_of : ℕ → ℕ → ℕ
byte_of x i = x / 256 ^ i % 256

-- The lowest `n` bytes of the line after a store: those selected are the store's.
unfoldable pub merge_bytes : ℕ → ℕ → ℕ → ℕ → ℕ
merge_bytes zero sel new old = 0
merge_bytes (suc n) sel new old =
    merge_bytes n sel new old + (if test_bit sel n then byte_of new n else byte_of old n) * 256 ^ n

module _ (index_bits : ℕ) where
  abbrev pub index_of : ℕ → ℕ
  index_of addr = line_of addr % 2 ^ index_bits

  -- The line that the address falls into is in the cache.
  unfoldable pub has_line : Cache → ℕ → Bool
  has_line c addr = c.valid (index_of addr) && (c.tags (index_of addr) == line_of addr)

  unfoldable pub lookup : Cache → ℕ → Lookup
  lookup c addr = record { hit = has_line c addr; load = c.line_data (index_of addr) }

  invalidate : ℕ → Cache → Cache
  invalidate addr c =
      if has_line c addr then record c { valid = update c.valid (index_of addr) false } else c

  store_update : ℕ → ℕ → ℕ → Cache → Cache
  store_update addr sel new c =
      if has_line c addr
      then record c {
        line_data =
            update c.line_data (index_of addr)
              (merge_bytes 8 sel new (c.line_data (index_of addr)));
      }
      else c

  fill : ℕ → ℕ → Cache → Cache
  fill addr new c = record {
    valid = update c.valid (index_of addr) true;
    tags = update c.tags (index_of addr) (line_of addr);
    line_data = update c.line_data (index_of addr) new;
  }

  -- One clock cycle: the first request that is made, in this order.
  unfoldable pub step : Wires → Cache → Cache
  unfolding has_line invalidate store_update fill
  step w c =
      if w.flush_all
      then record c { valid = λ _. false }
      else if w.invalidate_valid
      then invalidate w.invalidate_addr c
      else if w.store_update_valid
      then store_update w.store_update_addr w.store_update_sel w.store_update_data c
      else if w.fill_valid
      then fill w.fill_addr w.fill_data c
      else c
