-- ===== src/Tests/Storage.antt =====
-- The translation buffer and the data cache at concrete inputs.
use little.Base.{ℕ, ◌+◌, ◌*◌, ◌/◌, ◌%◌, ◌^◌, true, false, List, [], ◌∷◌, some, ◌≡◌, refl}
use little.Tlb.{Params, Permissions, Tlb, Fill, index_of, lookup, run, step}
use little.Tlb.{Wires as TlbWires}
use little.Tlb.Refinement.{
  IsReset, resident, translates, lookup-hit_iff_resident, lookup-paddr_of_hit,
}
use little.Cache
use little.Cache.{Cache, Wires, line_of, merge_bytes, byte_of}
use little.Cache.Coherence.{Reach, reset, cycle, reading, lookup-load_of_Reach}

abbrev params : Params
params = record { index_bits = 4; generation_bits = 2; address_width = 39 }

abbrev readable : Permissions
readable = record { read = true; write = false; execute = false; user = true }

abbrev blank : Tlb
blank = record {
  current_generation = 0;
  valid = λ _. false;
  entry = λ _. record { generation = 0; virtual_tag = 0; physical_page = 0; perm = readable };
}

abbrev page : Fill
page = record { vpage = 0x123; ppage = 0x77; perm = readable }

-- A fill of the page after a flush.
abbrev cycles : List TlbWires
cycles =
    record { flush_all = false; fill_valid = true; fill = page }
    ∷ record { flush_all = true; fill_valid = false; fill = page }
    ∷ []

blank-IsReset : IsReset blank
blank-IsReset = record { generation_zero = refl; none_valid = λ i. refl }

page_hit : (lookup params (run params cycles blank) 0x123456).hit ≡ true
unfolding lookup run step
page_hit = refl

lookup-hit_iff_resident_example :
    (lookup params (run params cycles blank) 0x123456).hit
    ≡ translates params
        (resident params cycles (index_of params (0x123456 / 2 ^ 12)))
        (0x123456 / 2 ^ 12)
lookup-hit_iff_resident_example = lookup-hit_iff_resident params blank cycles 0x123456 blank-IsReset

lookup-paddr_of_hit_example :
    (f : Fill) × (resident params cycles (index_of params (0x123456 / 2 ^ 12)) ≡ some f)
    × (f.vpage ≡ 0x123456 / 2 ^ 12)
    × ((lookup params (run params cycles blank) 0x123456).perm ≡ f.perm)
    × ((lookup params (run params cycles blank) 0x123456).paddr
        ≡ (f.ppage * 2 ^ 12 + 0x123456 % 2 ^ 12) % 2 ^ 39)
lookup-paddr_of_hit_example =
    lookup-paddr_of_hit params blank cycles 0x123456 blank-IsReset page_hit

abbrev empty_cache : Cache
empty_cache = record { valid = λ _. false; tags = λ _. 0; line_data = λ _. 0 }

abbrev memory : ℕ → ℕ
memory l = l * 0x1_0000_0001

-- A line filled in from memory.
abbrev filling : Wires
filling = record {
  flush_all = false;
  invalidate_valid = false;
  invalidate_addr = 0;
  store_update_valid = false;
  store_update_addr = 0;
  store_update_sel = 0;
  store_update_data = 0;
  fill_valid = true;
  fill_addr = 0x1238;
  fill_data = 0x247_0000_0247;
}

abbrev filled : Cache
filled = Cache.step 4 filling empty_cache

filled-Reach : Reach 4 filled memory
filled-Reach =
    cycle empty_cache memory filling memory (reset empty_cache memory (λ i. refl))
      (reading refl refl refl (λ q. refl) (λ l. refl))

filled_hit : (Cache.lookup 4 filled 0x123c).hit ≡ true
unfolding Cache.lookup Cache.step Cache.has_line
filled_hit = refl

lookup-load_of_Reach_example : (Cache.lookup 4 filled 0x123c).load ≡ memory (line_of 0x123c)
lookup-load_of_Reach_example = lookup-load_of_Reach 4 0x123c filled-Reach filled_hit
