-- ===== src/Tlb.antt =====
-- The translation buffer, hdl/little64_cores/v3/tlb.py: a direct-mapped table of page translations,
-- whose entries carry the generation in which they were filled.
-- The register arrays are functions of the index; the table has 2 ^ index_bits entries.
pub mod Refinement
use little.Base.{
  ℕ, ◌+◌, ◌-◌, ◌*◌, ◌/◌, ◌%◌, ◌^◌, Bool, true, false, ◌&&◌, ◌==◌, if◌then◌else◌, update, bit_or,
  List, [], ◌∷◌,
}

-- The parameters of the constructor that the hardware depends on.
pub record Params : Type 0 where
  pub index_bits : ℕ
  pub generation_bits : ℕ
  pub address_width : ℕ

pub record Permissions : Type 0 where
  pub read : Bool
  pub write : Bool
  pub execute : Bool
  pub user : Bool

-- The registers of one index, without its valid bit.
pub record Entry : Type 0 where
  pub generation : ℕ
  pub virtual_tag : ℕ
  pub physical_page : ℕ
  pub perm : Permissions

pub record Tlb : Type 0 where
  pub current_generation : ℕ
  pub valid : ℕ → Bool
  pub entry : ℕ → Entry

-- `fill_vpage`, `fill_ppage` and the four permission inputs.
pub record Fill : Type 0 where
  pub vpage : ℕ
  pub ppage : ℕ
  pub perm : Permissions

-- The inputs of one clock cycle.
pub record Wires : Type 0 where
  pub flush_all : Bool
  pub fill_valid : Bool
  pub fill : Fill

-- The outputs for one `lookup_vaddr`.
pub record Lookup : Type 0 where
  pub hit : Bool
  pub paddr : ℕ
  pub perm : Permissions

module _ (p : Params) where
  abbrev pub index_of : ℕ → ℕ
  index_of vpage = vpage % 2 ^ p.index_bits

  unfoldable pub lookup : Tlb → ℕ → Lookup
  lookup t vaddr =
      let vpage = vaddr / 2 ^ 12 in
      let indexed = t.entry (index_of vpage) in
      record {
        hit =
            t.valid (index_of vpage)
            && (indexed.generation == t.current_generation)
            && (indexed.virtual_tag == vpage);
        paddr = bit_or (indexed.physical_page * 2 ^ 12) (vaddr % 2 ^ 12) % 2 ^ p.address_width;
        perm = indexed.perm;
      }

  -- With the last generation in use all valid bits are cleared; otherwise the generation moves on.
  flush : Tlb → Tlb
  flush t =
      if t.current_generation == 2 ^ p.generation_bits - 1
      then record t { current_generation = 0; valid = λ _. false }
      else record t { current_generation = (t.current_generation + 1) % 2 ^ p.generation_bits }

  write_entry : Fill → Tlb → Tlb
  write_entry f t =
      let index = index_of f.vpage in
      record t {
        valid = update t.valid index true;
        entry = update t.entry index (record {
          generation = t.current_generation;
          virtual_tag = f.vpage;
          physical_page = f.ppage;
          perm = f.perm;
        });
      }

  -- One clock cycle.
  unfoldable pub step : Wires → Tlb → Tlb
  unfolding flush write_entry
  step w t = if w.flush_all then flush t else if w.fill_valid then write_entry w.fill t else t

  -- The cycles of a run, the latest first.
  unfoldable pub run : List Wires → Tlb → Tlb
  run [] t = t
  run (w ∷ earlier) t = step w (run earlier t)
