-- ===== src/Config.antt =====
-- The configuration of a core, hdl/little64_cores/config.py: its fields, the checks of
-- `__post_init__` in their order and the interrupt vectors.
pub mod Accepted
use little.Base.{
  ℕ, ◌+◌, ◌-◌, Bool, true, false, not, ◌&&◌, ◌||◌, ◌==◌, if◌then◌else◌, ltb, bit_and, Option, some,
  none,
}

-- The names in `SUPPORTED_CORE_VARIANTS`, and any other.
pub data CoreVariant : Type 0 where
  basic v2 v3 v4 : CoreVariant
  other_variant : CoreVariant

-- The names in `CACHE_TOPOLOGIES`, and any other.
pub data CacheTopology : Type 0 where
  no_cache unified split : CacheTopology
  other_topology : CacheTopology

-- The fields that the checks read. A number is one that is not negative.
pub record CoreConfig : Type 0 where
  pub instruction_bus_width : ℕ
  pub data_bus_width : ℕ
  pub address_width : ℕ
  pub core_variant : CoreVariant
  pub cache_topology : CacheTopology
  pub enable_tlb : Bool
  pub tlb_entries : ℕ
  pub irq_input_count : ℕ
  pub reset_vector : ℕ

-- What `__post_init__` raises, one for each message.
pub data ConfigError : Type 0 where
  instruction_bus data_bus address variant topology basic_topology : ConfigError
  irq_count too_few_tlb_entries tlb_power_of_two tlb_disabled reset_alignment : ConfigError

abbrev pub is_supported : CoreVariant → Bool
is_supported other_variant = false
is_supported _ = true

abbrev pub is_topology : CacheTopology → Bool
is_topology other_topology = false
is_topology _ = true

abbrev pub is_basic : CoreVariant → Bool
is_basic basic = true
is_basic _ = false

abbrev pub is_no_cache : CacheTopology → Bool
is_no_cache no_cache = true
is_no_cache _ = false

-- The checks after those of the TLB.
unfoldable pub post_init_reset : CoreConfig → Option ConfigError
post_init_reset c = if not (bit_and c.reset_vector 1 == 0) then some reset_alignment else none

unfoldable pub post_init_tlb : CoreConfig → Option ConfigError
post_init_tlb c =
    if c.enable_tlb
    then if ltb c.tlb_entries 2
      then some too_few_tlb_entries
      else if not (bit_and c.tlb_entries (c.tlb_entries - 1) == 0)
      then some tlb_power_of_two
      else post_init_reset c
    else if not (c.tlb_entries == 0)
    then some tlb_disabled
    else post_init_reset c

-- The first error of the checks, if there is one.
unfoldable pub post_init : CoreConfig → Option ConfigError
post_init c =
    if not (c.instruction_bus_width == 64)
    then some instruction_bus
    else if not (c.data_bus_width == 64)
    then some data_bus
    else if ltb c.address_width 39
    then some address
    else if not (is_supported c.core_variant)
    then some variant
    else if not (is_topology c.cache_topology)
    then some topology
    else if is_basic c.core_variant && not (is_no_cache c.cache_topology)
    then some basic_topology
    else if ltb c.irq_input_count 1 || ltb 63 c.irq_input_count
    then some irq_count
    else post_init_tlb c

abbrev pub first_irq_vector : CoreConfig → ℕ
first_irq_vector c = 65

abbrev pub last_irq_vector : CoreConfig → ℕ
last_irq_vector c = first_irq_vector c + c.irq_input_count - 1
