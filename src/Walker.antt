-- ===== src/Walker.antt =====
-- The page walker of hdl/little64_cores/v3/core.py, with the encodings of hdl/little64_cores/mmu.py:
-- what the core does with the entry that it has read at one level of the page table.
pub mod Entries
pub mod Table
pub mod Translation
use little.Base.{
  ℕ, zero, suc, ◌+◌, ◌-◌, ◌*◌, ◌/◌, ◌%◌, ◌^◌, Bool, not, ◌&&◌, ◌||◌, ◌==◌, if◌then◌else◌, slice,
  bit_and, ltb, Option, some, none,
}
use little.Fields.{encode_aux}
use little.Isa.{page_fault_not_present, page_fault_permission, page_fault_reserved}
use little.Tlb.{Fill, Permissions}

abbrev pub pte_v : ℕ
pte_v = 1

abbrev pub pte_r : ℕ
pte_r = 2

abbrev pub pte_w : ℕ
pte_w = 4

abbrev pub pte_x : ℕ
pte_x = 8

abbrev pub pte_u : ℕ
pte_u = 16

abbrev pub pte_reserved_mask : ℕ
pte_reserved_mask = 0xffc0_0000_0000_0000

abbrev pub access_write : ℕ
access_write = 1

abbrev pub access_execute : ℕ
access_execute = 2

abbrev pub aux_subtype_no_valid_pte : ℕ
aux_subtype_no_valid_pte = 1

abbrev pub aux_subtype_invalid_nonleaf : ℕ
aux_subtype_invalid_nonleaf = 2

abbrev pub aux_subtype_permission : ℕ
aux_subtype_permission = 3

abbrev pub aux_subtype_reserved_bit : ℕ
aux_subtype_reserved_bit = 4

-- The registers of a walk while it has an entry to process.
pub record Walk : Type 0 where
  pub virtual_addr : ℕ
  pub table_addr : ℕ
  pub level : ℕ
  pub access : ℕ
  pub pte_latched : ℕ

unfoldable pub walk_index : Walk → ℕ
walk_index w =
    if w.level == 2
    then slice w.virtual_addr 30 39
    else if w.level == 1
    then slice w.virtual_addr 21 30
    else slice w.virtual_addr 12 21

-- The address of the entry.
unfoldable pub walk_pte_addr : Walk → ℕ
walk_pte_addr w = (w.table_addr + walk_index w * 2 ^ 3) % 2 ^ 64

-- A bit of the entry, `(walk_pte & mask) != 0`.
abbrev pub has : ℕ → ℕ → Bool
has pte mask = not (bit_and pte mask == 0)

-- `PTE_R | PTE_W | PTE_X`.
abbrev pub walk_is_leaf : ℕ → Bool
walk_is_leaf pte = has pte 14

abbrev pub walk_permission_ok : ℕ → ℕ → Bool
walk_permission_ok access pte =
    if access == access_execute
    then has pte pte_x
    else if access == access_write
    then has pte pte_w
    else has pte pte_r

-- `user` is bit 17 of the control register.
abbrev pub walk_user_ok : Bool → ℕ → Bool
walk_user_ok user pte = not user || has pte pte_u

abbrev pub walk_reserved : ℕ → Bool
walk_reserved pte = has pte pte_reserved_mask

abbrev pub walk_table_next : ℕ → ℕ
walk_table_next pte = pte / 2 ^ 10 * 2 ^ 12 % 2 ^ 64

abbrev pub walk_page_shift : ℕ → ℕ
walk_page_shift level = if level == 2 then 30 else if level == 1 then 21 else 12

unfoldable pub walk_result_phys : Walk → ℕ
walk_result_phys w =
    (walk_table_next w.pte_latched + bit_and w.virtual_addr (2 ^ walk_page_shift w.level - 1))
    % 2 ^ 64

abbrev pub walk_refused : Bool → ℕ → ℕ → Bool
walk_refused user access pte = not (walk_permission_ok access pte) || not (walk_user_ok user pte)

unfoldable pub walk_fault : Bool → Walk → Bool
walk_fault user w =
    let pte = w.pte_latched in
    not (has pte pte_v)
    || walk_reserved pte
    || (ltb 0 w.level && walk_is_leaf pte && walk_refused user w.access pte)
    || ((w.level == 0) && (not (walk_is_leaf pte) || walk_refused user w.access pte))

unfoldable pub walk_fault_cause : Walk → ℕ
walk_fault_cause w =
    let pte = w.pte_latched in
    if not (has pte pte_v)
    then page_fault_not_present
    else if walk_reserved pte || ((w.level == 0) && not (walk_is_leaf pte))
    then page_fault_reserved
    else page_fault_permission

unfoldable pub walk_fault_aux : Walk → ℕ
walk_fault_aux w =
    let pte = w.pte_latched in
    if not (has pte pte_v)
    then encode_aux aux_subtype_no_valid_pte w.level
    else if walk_reserved pte
    then encode_aux aux_subtype_reserved_bit w.level
    else if (w.level == 0) && not (walk_is_leaf pte)
    then encode_aux aux_subtype_invalid_nonleaf 0
    else encode_aux aux_subtype_permission w.level

unfoldable pub walk_leaf_success : Bool → Walk → Bool
walk_leaf_success user w =
    not (walk_fault user w)
    && ((ltb 0 w.level && walk_is_leaf w.pte_latched)
        || ((w.level == 0)
            && walk_is_leaf w.pte_latched
            && walk_permission_ok w.access w.pte_latched
            && walk_user_ok user w.pte_latched))

-- What a walk comes to.
pub data Outcome : Type 0 where
  translated : ℕ → Outcome
  faulted : ℕ → ℕ → Outcome

-- The walk one level further down, where the entry is neither a page nor a fault.
abbrev pub descended : Walk → Walk
descended w = record w { table_addr = walk_table_next w.pte_latched; level = w.level - 1 }

-- The walk with the entry that memory has at its address.
abbrev pub latched : (ℕ → ℕ) → Walk → Walk
latched memory w = record w { pte_latched = memory (walk_pte_addr w) }

-- A walk from its registers on, for at most the number of levels given: it reads an entry, ends with
-- a page or a fault, or goes on a level further down.
unfoldable pub walk : (ℕ → ℕ) → Bool → ℕ → Walk → Option Outcome
walk memory user zero w = none
walk memory user (suc levels) w =
    let next = latched memory w in
    let rest = walk memory user levels (descended next) in
    if walk_leaf_success user next
    then some (translated (walk_result_phys next))
    else if walk_fault user next
    then some (faulted (walk_fault_cause next) (walk_fault_aux next))
    else rest

-- The fill of the translation buffer that a page found makes.
unfoldable pub tlb_fill : Walk → Fill
tlb_fill w = record {
  vpage = w.virtual_addr / 2 ^ 12;
  ppage = walk_result_phys w / 2 ^ 12;
  perm = record {
    read = has w.pte_latched pte_r;
    write = has w.pte_latched pte_w;
    execute = has w.pte_latched pte_x;
    user = has w.pte_latched pte_u;
  };
}

-- Whether a hit of the translation buffer serves an access.
unfoldable pub tlb_hit_ok : Bool → ℕ → Bool → Permissions → Bool
tlb_hit_ok user access hit perm =
    hit
    && (if access == access_execute
        then perm.execute
        else if access == access_write
        then perm.write
        else perm.read)
    && (not user || perm.user)
