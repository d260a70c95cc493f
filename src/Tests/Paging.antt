-- ===== src/Tests/Paging.antt =====
-- The page walker at concrete inputs.
use little.Base.{ℕ, ◌+◌, ◌*◌, ◌/◌, ◌%◌, ◌^◌, ◌<◌, true, ◌==◌, if◌then◌else◌, some, ◌≡◌, refl, arith}
use little.Walker.{
  Walk, walk, walk_fault, walk_leaf_success, walk_result_phys, tlb_fill, tlb_hit_ok,
}
use little.Walker.Table.{translate}
use little.Walker.Translation.{walk-translate, tlb_fill-walk_result_phys}

-- A table at 0x1000 whose entry 1 is a user page of 1 GiB at 0x8000_0000.
abbrev table : ℕ → ℕ
table a = if a == 0x1008 then 0x2000_0017 else 0

table-fits : (a : ℕ) → table a < 2 ^ 64
table-fits a = ground arith

-- A read of an address in it.
abbrev starting : Walk
starting = record {
  virtual_addr = 0x4012_3456;
  table_addr = 0x1000;
  level = 2;
  access = 0;
  pte_latched = 0;
}

walk-translate_example :
    walk table true 3 starting ≡ some (translate table true 0 0x4012_3456 0x1000 2)
walk-translate_example = walk-translate table table-fits true 2 starting refl (omega arith)

abbrev found : Walk
found = record starting { pte_latched = 0x2000_0017 }

found_success : walk_leaf_success true found ≡ true
unfolding walk_leaf_success walk_fault
found_success = refl

tlb_fill-walk_result_phys_example :
    ((tlb_fill found).vpage ≡ 0x4012_3456 / 2 ^ 12)
    × ((tlb_fill found).ppage * 2 ^ 12 + 0x4012_3456 % 2 ^ 12 ≡ walk_result_phys found)
    × (tlb_hit_ok true 0 true (tlb_fill found).perm ≡ true)
tlb_fill-walk_result_phys_example =
    tlb_fill-walk_result_phys true found (omega arith) (omega arith) found_success
