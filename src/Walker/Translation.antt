-- ===== src/Walker/Translation.antt =====
-- The walk against the translation of an address by a table of three levels.
use little.Base.{
  ℕ, zero, suc, ◌+◌, ◌*◌, ◌/◌, ◌%◌, ◌^◌, ◌<◌, ◌≤◌, Bool, true, some, ◌≡◌, refl, ap, ◌∙◌, arith,
}
use little.Walker.{
  Walk, Outcome, faulted, walk_pte_addr, walk_result_phys, walk_leaf_success, descended, latched,
  walk, tlb_fill, tlb_hit_ok,
}
use little.Walker.Entries.{has-bit1, has-bit2, has-bit3, has-bit4}
use little.Walker.Table.{
  by_entry, entry_address, is_clean, translate, success-bits, phys-level, one_level,
  table_next-clean, pte_addr-level,
}

-- The outcome by the entry, where the entry's address and the level are those of the table.
module _ (memory : ℕ → ℕ) (fits : (a : ℕ) → memory a < 2 ^ 64) (user : Bool) where
  entry_at :
      (w : Walk) (level : ℕ) (below : Outcome)
      → w.level ≡ level
      → level ≤ 2
      → by_entry user w.access w.virtual_addr w.level (memory (walk_pte_addr w)) below
        ≡ by_entry user w.access w.virtual_addr level
            (memory (entry_address w.virtual_addr w.table_addr level))
            below
  entry_at w level below e h =
      ap (λ (l : ℕ). by_entry user w.access w.virtual_addr l (memory (walk_pte_addr w)) below) e
      ∙ ap (λ (a : ℕ). by_entry user w.access w.virtual_addr level (memory a) below)
          (pte_addr-level w level e h)

  -- A walk from any level comes, within a step for each level, to the translation by the table that
  -- it starts from, with the same page or the same fault.
  pub walk-translate :
      (level : ℕ) (w : Walk)
      → w.level ≡ level
      → level ≤ 2
      → walk memory user (suc level) w
        ≡ some (translate memory user w.access w.virtual_addr w.table_addr level)
  unfolding walk translate
  walk-translate zero w e h =
      one_level user (latched memory w) _ (faulted 7 2) (fits _) (omega arith) (λ q. refl)
        (λ q. absurd (ground arith))
      ∙ ap some (entry_at w zero (faulted 7 2) e h)
  walk-translate (suc level) w e h =
      one_level user (latched memory w) _
        (translate memory user w.access w.virtual_addr (memory (walk_pte_addr w) / 2 ^ 10 * 2 ^ 12)
          level)
        (fits _) (omega arith) (λ q. absurd (ground arith))
        (λ q clean.
          walk-translate level (descended (latched memory w)) (omega arith) (omega arith)
          ∙ ap (λ (t : ℕ). some (translate memory user w.access w.virtual_addr t level))
              (table_next-clean (memory (walk_pte_addr w)) clean))
      ∙ ap some (entry_at w (suc level) _ e h)
      ∙ ap
          (λ (a : ℕ). some (
            by_entry user w.access w.virtual_addr (suc level)
              (memory (entry_address w.virtual_addr w.table_addr (suc level)))
              (translate memory user w.access w.virtual_addr (memory a / 2 ^ 10 * 2 ^ 12) level)))
          (pte_addr-level w (suc level) e h)

offset_kept :
    (w : Walk) (level : ℕ)
    → w.level ≡ level
    → level ≤ 2
    → is_clean w.pte_latched ≡ true
    → walk_result_phys w / 2 ^ 12 * 2 ^ 12 + w.virtual_addr % 2 ^ 12 ≡ walk_result_phys w
offset_kept w zero e h clean = omega (arith, phys-level w zero e h clean)
offset_kept w (suc zero) e h clean = omega (arith, phys-level w (suc zero) e h clean)
offset_kept w (suc (suc zero)) e h clean = omega (arith, phys-level w (suc (suc zero)) e h clean)
offset_kept w (suc (suc (suc level))) e h clean = absurd (omega arith)

-- The fill that a page found makes gives the address that the walk gives, and a lookup that hits it
-- is permitted for the same access.
pub tlb_fill-walk_result_phys :
    (user : Bool) (w : Walk)
    → w.pte_latched < 2 ^ 64
    → w.level ≤ 2
    → walk_leaf_success user w ≡ true
    → ((tlb_fill w).vpage ≡ w.virtual_addr / 2 ^ 12)
      × ((tlb_fill w).ppage * 2 ^ 12 + w.virtual_addr % 2 ^ 12 ≡ walk_result_phys w)
      × (tlb_hit_ok user w.access true (tlb_fill w).perm ≡ true)
unfolding tlb_fill tlb_hit_ok
tlb_fill-walk_result_phys user w fits h success = (
  refl,
  offset_kept w w.level refl h (ground (arith, success-bits user w fits)),
  ground (
    arith,
    success-bits user w fits,
    has-bit1 w.pte_latched,
    has-bit2 w.pte_latched,
    has-bit3 w.pte_latched,
    has-bit4 w.pte_latched,
  ),
)
