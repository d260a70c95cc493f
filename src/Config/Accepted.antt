-- ===== src/Config/Accepted.antt =====
-- A configuration is accepted just when it meets every constraint.
use little.Base.{
  ℕ, zero, suc, ◌-◌, ◌*◌, ◌^◌, ◌≤◌, ◌<◌, ◌/◌, ◌%◌, true, false, ◌==◌, bit_and, ltb, none, ◌≡◌, ◌≢◌,
  refl, ◌↔◌, ◌⊎◌, inl, inr, ap, ◌∙◌, Bool-cases, ==→eq, arith,
}
use little.Base.Bits.{bit_and_low_bits, bit_and_low, bit_and-zero}
use little.Base.Digits.{bit_and_step}
use native.Mathlib.Nat.{pow-suc, one-le-pow}
use little.Config.{
  CoreConfig, CoreVariant, CacheTopology, post_init, post_init_tlb, post_init_reset, is_supported,
  is_topology, is_basic, is_no_cache, other_variant, other_topology, basic, no_cache,
}

half_below : (n : ℕ) → 0 < n → n / 2 < n
half_below n h = omega arith

-- `n & (n - 1)` is zero just at the powers of two, from one up.
pow-bit_and : (k : ℕ) → bit_and (2 ^ k) (2 ^ k - 1) ≡ 0
pow-bit_and k = ground (arith, bit_and_low k 1 0, one-le-pow k 2)

bit_and_self_below : (b n : ℕ) → n ≤ b → bit_and n n ≡ n
bit_and_self_below b zero le = bit_and-zero 0
bit_and_self_below zero (suc n) le = absurd (omega arith)
bit_and_self_below (suc b) (suc n) le =
    omega (arith, bit_and_step (suc n) (suc n), bit_and_self_below b (suc n / 2) (omega arith))

-- The number is one or the double of a shorter one.
low_bit_only :
    (n : ℕ)
    → 0 < n
    → bit_and n (n - 1) ≡ 0
    → (n ≡ 1) ⊎ ((n ≡ 2 * (n / 2)) × (0 < n / 2) × (bit_and (n / 2) (n / 2 - 1) ≡ 0))
low_bit_only n pos h = elim (parity (n % 2) (omega arith)) [
  | inl even ↦ inr (omega arith, omega arith, halves (omega arith) even)
  | inr odd ↦ inl (
      omega (arith, bit_and_step n (n - 1), bit_and_self_below n (n / 2) (omega arith), shared odd))
]
  where
    parity : (r : ℕ) → r < 2 → (r ≡ 0) ⊎ (r ≡ 1)
    parity r lt = ground arith

    less_one : n % 2 ≡ 0 → (n - 1) / 2 ≡ n / 2 - 1
    less_one even = omega arith

    halves : 0 < n / 2 → n % 2 ≡ 0 → bit_and (n / 2) (n / 2 - 1) ≡ 0
    halves half even =
        omega (arith, bit_and_step n (n - 1), ap (λ (t : ℕ). bit_and (n / 2) t) (less_one even))

    shared : n % 2 ≡ 1 → bit_and (n / 2) ((n - 1) / 2) ≡ bit_and (n / 2) (n / 2)
    shared odd = ap (λ (t : ℕ). bit_and (n / 2) t) (same_half odd)
      where
        same_half : n % 2 ≡ 1 → (n - 1) / 2 ≡ n / 2
        same_half odd = omega arith

bit_and-pow_below : (b n : ℕ) → n ≤ b → 0 < n → bit_and n (n - 1) ≡ 0 → (k : ℕ) × (n ≡ 2 ^ k)
bit_and-pow_below zero n le pos h = absurd (omega arith)
bit_and-pow_below (suc b) n le pos h = elim (low_bit_only n pos h) [
  | inl one ↦ (0, one)
  | inr (double, half, rest) ↦ doubled double (bit_and-pow_below b (n / 2) (omega arith) half rest)
]
  where
    doubled : n ≡ 2 * (n / 2) → ((k : ℕ) × (n / 2 ≡ 2 ^ k)) → (k : ℕ) × (n ≡ 2 ^ k)
    doubled double (k, power) = (suc k, omega (arith, pow-suc 2 k))

pow-power_of_two : (k : ℕ) → (bit_and (2 ^ k) (2 ^ k - 1) == 0) ≡ true
pow-power_of_two k = ground (arith, pow-bit_and k)

-- The constraints on a configuration.
pub record IsAccepted (c : CoreConfig) : Type 0 where
  pub buses : (c.instruction_bus_width ≡ 64) × (c.data_bus_width ≡ 64)
  pub wide_enough : 39 ≤ c.address_width
  pub known_variant : c.core_variant ≢ other_variant
  pub known_topology : c.cache_topology ≢ other_topology
  pub uncached_basic : c.core_variant ≡ basic → c.cache_topology ≡ no_cache
  pub interrupts : (1 ≤ c.irq_input_count) × (c.irq_input_count ≤ 63)
  pub tlb_on : c.enable_tlb ≡ true → (k : ℕ) × (c.tlb_entries ≡ 2 ^ suc k)
  pub tlb_off : c.enable_tlb ≡ false → c.tlb_entries ≡ 0
  pub aligned : c.reset_vector % 2 ≡ 0

low_bit : (n : ℕ) → bit_and n 1 ≡ n % 2
low_bit n = bit_and_low_bits 1 n

tlb_power : (n : ℕ) → ltb n 2 ≡ false → (bit_and n (n - 1) == 0) ≡ true → (k : ℕ) × (n ≡ 2 ^ suc k)
tlb_power n low mask =
    from_one (bit_and-pow_below n n (omega arith) (ground arith) (==→eq (bit_and n (n - 1)) 0 mask))
  where
    from_one : ((k : ℕ) × (n ≡ 2 ^ k)) → (k : ℕ) × (n ≡ 2 ^ suc k)
    from_one (zero, one) = absurd (ground arith)
    from_one (suc k, power) = (k, power)

tlb_checks :
    (c : CoreConfig)
    → post_init_tlb c ≡ none
    → (c.enable_tlb ≡ true
        → (ltb c.tlb_entries 2 ≡ false) × ((bit_and c.tlb_entries (c.tlb_entries - 1) == 0) ≡ true))
      × (c.enable_tlb ≡ false → c.tlb_entries ≡ 0)
      × (post_init_reset c ≡ none)
unfolding post_init_tlb
tlb_checks c h =
    (λ (on : c.enable_tlb ≡ true). (ground arith, ground arith), ground arith, ground arith)

first_checks :
    (c : CoreConfig)
    → post_init c ≡ none
    → (c.instruction_bus_width ≡ 64)
      × (c.data_bus_width ≡ 64)
      × (39 ≤ c.address_width)
      × (is_supported c.core_variant ≡ true)
      × (is_topology c.cache_topology ≡ true)
      × (is_basic c.core_variant ≡ true → is_no_cache c.cache_topology ≡ true)
      × (1 ≤ c.irq_input_count)
      × (c.irq_input_count ≤ 63)
      × (post_init_tlb c ≡ none)
unfolding post_init
first_checks c h = ground arith

IsAccepted-first : (c : CoreConfig) → IsAccepted c → post_init c ≡ post_init_tlb c
unfolding post_init
IsAccepted-first c a = ground (arith, a.buses, a.interrupts)

known_variants : (v : CoreVariant) → is_supported v ≡ true → v ≢ other_variant
known_variants v known same = ground arith

known_topologies : (t : CacheTopology) → is_topology t ≡ true → t ≢ other_topology
known_topologies t known same = ground arith

no_caches : (t : CacheTopology) → is_no_cache t ≡ true → t ≡ no_cache
no_caches no_cache h = refl
no_caches _ h = absurd (ground arith)

IsAccepted-tlb : (c : CoreConfig) → IsAccepted c → post_init_tlb c ≡ post_init_reset c
unfolding post_init_tlb
IsAccepted-tlb c a = elim (Bool-cases c.enable_tlb) [
  | inl on ↦ with_power on (a.tlb_on on)
  | inr off ↦ ground (arith, a.tlb_off off)
]
  where
    with_values :
        c.enable_tlb ≡ true
        → ltb c.tlb_entries 2 ≡ false
        → (bit_and c.tlb_entries (c.tlb_entries - 1) == 0) ≡ true
        → post_init_tlb c ≡ post_init_reset c
    with_values on low mask = simp (on, low, mask) refl

    double_pow : (k : ℕ) → c.tlb_entries ≡ 2 ^ suc k → ltb c.tlb_entries 2 ≡ false
    double_pow k power = ground (arith, power, pow-suc 2 k, one-le-pow k 2)

    with_power :
        c.enable_tlb ≡ true
        → ((k : ℕ) × (c.tlb_entries ≡ 2 ^ suc k))
        → post_init_tlb c ≡ post_init_reset c
    with_power on (k, power) =
        with_values on (double_pow k power) (rw power (pow-power_of_two (suc k)))

IsAccepted-reset : (c : CoreConfig) → IsAccepted c → post_init_reset c ≡ none
unfolding post_init_reset
IsAccepted-reset c a = ground (arith, low_bit c.reset_vector, a.aligned)

reset_checks : (c : CoreConfig) → post_init_reset c ≡ none → c.reset_vector % 2 ≡ 0
unfolding post_init_reset
reset_checks c h = ground (arith, low_bit c.reset_vector)

-- `__post_init__` raises nothing just where the configuration meets every constraint.
pub post_init-IsAccepted : (c : CoreConfig) → (post_init c ≡ none) ↔ IsAccepted c
post_init-IsAccepted c = (sound, complete)
  where
    sound : post_init c ≡ none → IsAccepted c
    sound h =
        let first = first_checks c h in
        let tlb = tlb_checks c first.8 in
        record {
          buses = (first.0, first.1);
          wide_enough = first.2;
          known_variant = known_variants c.core_variant first.3;
          known_topology = known_topologies c.cache_topology first.4;
          uncached_basic =
              λ (b : c.core_variant ≡ basic). no_caches c.cache_topology (first.5 (rw b refl));
          interrupts = (first.6, first.7);
          tlb_on =
              λ (on : c.enable_tlb ≡ true). tlb_power c.tlb_entries ((tlb.0 on).0) ((tlb.0 on).1);
          tlb_off = tlb.1;
          aligned = reset_checks c tlb.2;
        }

    complete : IsAccepted c → post_init c ≡ none
    complete a = IsAccepted-first c a ∙ IsAccepted-tlb c a ∙ IsAccepted-reset c a
