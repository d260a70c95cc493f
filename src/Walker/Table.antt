-- ===== src/Walker/Table.antt =====
-- The translation of an address by a table of three levels, and what the walker does with one entry.
use little.Base.{
  ℕ, zero, suc, ◌+◌, ◌*◌, ◌/◌, ◌%◌, ◌^◌, ◌<◌, ◌≤◌, Bool, true, false, not, ◌&&◌, ◌||◌, ◌==◌,
  if◌then◌else◌, Option, some, ◌≡◌, ap, test_bit, arith,
}
use little.Base.Bits.{bit_and_low_bits, bit_or_low_high}
use little.Fields.{encode_aux}
use little.Walker.{
  Walk, Outcome, translated, faulted, walk_permission_ok, walk_user_ok, walk_index, walk_pte_addr,
  walk_result_phys, walk_fault, walk_fault_cause, walk_fault_aux, walk_leaf_success,
  walk_table_next, walk_page_shift,
}
use little.Walker.Entries.{
  has-bit0, has-bit1, has-bit2, has-bit3, has-bit4, walk_is_leaf-bits, walk_reserved-bits,
}

-- The number of bits of an address that an entry of a level leaves open.
abbrev pub page_bits : ℕ → ℕ
page_bits level = 12 + 9 * level

abbrev pub entry_address : ℕ → ℕ → ℕ → ℕ
entry_address vaddr table level = (table + vaddr / 2 ^ page_bits level % 512 * 8) % 2 ^ 64

abbrev is_valid : ℕ → Bool
is_valid pte = test_bit pte 0

abbrev pub is_clean : ℕ → Bool
is_clean pte = pte / 2 ^ 54 == 0

abbrev is_page : ℕ → Bool
is_page pte = not (pte / 2 % 8 == 0)

-- The access is among those of the entry, and user code has a user page.
abbrev is_allowed : Bool → ℕ → ℕ → Bool
is_allowed user access pte =
    (if access == 2 then test_bit pte 3 else if access == 1 then test_bit pte 2 else test_bit pte 1)
    && (not user || test_bit pte 4)

-- What an entry at a level comes to, where `below` is what the table comes to that it points to.
abbrev pub by_entry : Bool → ℕ → ℕ → ℕ → ℕ → Outcome → Outcome
by_entry user access vaddr level pte below =
    if not (is_valid pte)
    then faulted 5 (level * 256 + 1)
    else if not (is_clean pte)
    then faulted 7 (level * 256 + 4)
    else if not (is_page pte)
    then below
    else if not (is_allowed user access pte)
    then faulted 6 (level * 256 + 3)
    else translated (pte / 2 ^ 10 * 2 ^ 12 + vaddr % 2 ^ page_bits level)

-- The translation of an address by the table at `table`, of the level given: the entry is a page,
-- a fault, or the table of the next level; below the last level there is none.
unfoldable pub translate : (ℕ → ℕ) → Bool → ℕ → ℕ → ℕ → ℕ → Outcome
translate memory user access vaddr table zero =
    by_entry user access vaddr 0 (memory (entry_address vaddr table 0)) (faulted 7 2)
translate memory user access vaddr table (suc level) =
    let pte = memory (entry_address vaddr table (suc level)) in
    by_entry user access vaddr (suc level) pte
      (translate memory user access vaddr (pte / 2 ^ 10 * 2 ^ 12) level)

walk_index-level :
    (w : Walk) (level : ℕ)
    → w.level ≡ level
    → level ≤ 2
    → walk_index w ≡ w.virtual_addr / 2 ^ page_bits level % 512
unfolding walk_index
walk_index-level w zero e h = ground arith
walk_index-level w (suc zero) e h = ground arith
walk_index-level w (suc (suc zero)) e h = ground arith
walk_index-level w (suc (suc (suc level))) e h = absurd (omega arith)

walk_page_shift-level : (level : ℕ) → level ≤ 2 → walk_page_shift level ≡ page_bits level
walk_page_shift-level level h = ground arith

allowed-bits :
    (user : Bool) (access pte : ℕ)
    → walk_permission_ok access pte && walk_user_ok user pte ≡ is_allowed user access pte
allowed-bits user access pte =
    ground (arith, has-bit1 pte, has-bit2 pte, has-bit3 pte, has-bit4 pte)

pub success-bits :
    (user : Bool) (w : Walk)
    → w.pte_latched < 2 ^ 64
    → walk_leaf_success user w
      ≡ is_valid w.pte_latched
        && is_clean w.pte_latched
        && is_page w.pte_latched
        && is_allowed user w.access w.pte_latched
unfolding walk_leaf_success walk_fault
success-bits user w fits = ground (
  arith,
  has-bit0 w.pte_latched,
  walk_reserved-bits w.pte_latched,
  walk_is_leaf-bits w.pte_latched,
  allowed-bits user w.access w.pte_latched,
)

fault-bits :
    (user : Bool) (w : Walk)
    → w.pte_latched < 2 ^ 64
    → walk_fault user w
      ≡ not (is_valid w.pte_latched)
        || not (is_clean w.pte_latched)
        || (is_page w.pte_latched && not (is_allowed user w.access w.pte_latched))
        || ((w.level == 0) && not (is_page w.pte_latched))
unfolding walk_fault
fault-bits user w fits = ground (
  arith,
  has-bit0 w.pte_latched,
  walk_reserved-bits w.pte_latched,
  walk_is_leaf-bits w.pte_latched,
  allowed-bits user w.access w.pte_latched,
)

aux-level : (subtype level : ℕ) → subtype < 256 → encode_aux subtype level ≡ level * 256 + subtype
unfolding encode_aux
aux-level subtype level short = bit_or_low_high 8 level subtype short

cause-bits :
    (w : Walk)
    → w.pte_latched < 2 ^ 64
    → faulted (walk_fault_cause w) (walk_fault_aux w) ≡ (
        if not (is_valid w.pte_latched)
        then faulted 5 (w.level * 256 + 1)
        else if not (is_clean w.pte_latched)
        then faulted 7 (w.level * 256 + 4)
        else if (w.level == 0) && not (is_page w.pte_latched)
        then faulted 7 2
        else faulted 6 (w.level * 256 + 3))
unfolding walk_fault_cause walk_fault_aux
cause-bits w fits = ground (
  arith,
  has-bit0 w.pte_latched,
  walk_reserved-bits w.pte_latched,
  walk_is_leaf-bits w.pte_latched,
  aux-level 1 w.level,
  aux-level 4 w.level,
  aux-level 3 w.level,
  aux-level 2 0,
)

pub phys-level :
    (w : Walk) (level : ℕ)
    → w.level ≡ level
    → level ≤ 2
    → is_clean w.pte_latched ≡ true
    → walk_result_phys w ≡ w.pte_latched / 2 ^ 10 * 2 ^ 12 + w.virtual_addr % 2 ^ page_bits level
unfolding walk_result_phys
phys-level w zero e h clean = ground (arith, bit_and_low_bits 12 w.virtual_addr)
phys-level w (suc zero) e h clean = ground (arith, bit_and_low_bits 21 w.virtual_addr)
phys-level w (suc (suc zero)) e h clean = ground (arith, bit_and_low_bits 30 w.virtual_addr)
phys-level w (suc (suc (suc level))) e h clean = absurd (omega arith)

-- What the walker does with one entry, where `rest` is the walk below it.
pub one_level :
    (user : Bool) (w : Walk) (rest : Option Outcome) (below : Outcome)
    → w.pte_latched < 2 ^ 64
    → w.level ≤ 2
    → ((w.level == 0) ≡ true → below ≡ faulted 7 2)
    → ((w.level == 0) ≡ false → is_clean w.pte_latched ≡ true → rest ≡ some below)
    → (if walk_leaf_success user w
        then some (translated (walk_result_phys w))
        else if walk_fault user w
        then some (faulted (walk_fault_cause w) (walk_fault_aux w))
        else rest)
      ≡ some (by_entry user w.access w.virtual_addr w.level w.pte_latched below)
one_level user w rest below fits h last deeper =
    ground (arith, success-bits user w, fault-bits user w, cause-bits w, phys-level w w.level)

pub table_next-clean : (pte : ℕ) → is_clean pte ≡ true → walk_table_next pte ≡ pte / 2 ^ 10 * 2 ^ 12
table_next-clean pte clean = ground arith

pub pte_addr-level :
    (w : Walk) (level : ℕ)
    → w.level ≡ level
    → level ≤ 2
    → walk_pte_addr w ≡ entry_address w.virtual_addr w.table_addr level
unfolding walk_pte_addr
pte_addr-level w level e h =
    ap (λ (t : ℕ). (w.table_addr + t * 8) % 2 ^ 64) (walk_index-level w level e h)
