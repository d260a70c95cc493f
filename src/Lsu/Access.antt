-- ===== src/Lsu/Access.antt =====
-- A load from its request to its response, on a bus that answers with the words of a memory.
use little.Base.{
  ℕ, zero, suc, ◌+◌, ◌-◌, ◌*◌, ◌/◌, ◌%◌, ◌^◌, ◌<◌, Bool, true, false, not, ◌==◌, ◌≡◌, refl, sym, ap,
  ◌∙◌, arith, slice,
}
use little.Lsu.{
  Lsu, LsuState, idle, first, second, Inputs, is_active, of_width, base_sel, split_needed,
  single_read_data, combined_read_data, step, outputs, after,
}
use little.Lsu.Load.{
  load_bytes, IsWidth, of_width-mod, in_word, across, across_bound, narrow, word_aligned_addr-div,
}

value_in_word :
    (x y w o : ℕ)
    → x < 2 ^ 64
    → IsWidth w
    → o < 8
    → (slice (base_sel w * 2 ^ o) 8 16 == 0) ≡ true
    → of_width w (x / 2 ^ (o * 8)) ≡ (x + y * 2 ^ 64) / 2 ^ (o * 8) % 2 ^ (w * 8)
value_in_word x y w o b k l u =
    of_width-mod w (x / 2 ^ (o * 8)) k (omega arith) ∙ sym (in_word x y b w o k l u)

value_across :
    (x y w o : ℕ)
    → x < 2 ^ 64
    → IsWidth w
    → o < 8
    → of_width w (x / 2 ^ (o * 8) + y % 2 ^ (o * 8) * 2 ^ (64 - o * 8))
      ≡ (x + y * 2 ^ 64) / 2 ^ (o * 8) % 2 ^ (w * 8)
value_across x y w o b k l =
    of_width-mod w (x / 2 ^ (o * 8) + y % 2 ^ (o * 8) * 2 ^ (64 - o * 8)) k (across_bound x y b o l)
    ∙ ap (λ (t : ℕ). t % 2 ^ (w * 8)) (sym (across x y b o l))
    ∙ narrow ((x + y * 2 ^ 64) / 2 ^ (o * 8)) w k

unnegated : (b : Bool) → not b ≡ false → b ≡ true
unnegated true h = refl
unnegated false h = cc

low_bits_of : (addr : ℕ) → slice addr 0 3 ≡ addr % 8
low_bits_of addr = omega arith

module _ (words : ℕ → ℕ) (fits : (a : ℕ) → words a < 2 ^ 64) (addr width : ℕ)
    (in_range : addr < 2 ^ 64) (w : IsWidth width) where
  -- The unit is at work on the load, and what it has read is memory's.
  pub record Serves (s : Lsu) : Type 0 where
    pub addr_is : s.latched_addr ≡ addr
    pub width_is : s.latched_width ≡ width
    pub first_is : s.state ≡ second → s.first_data ≡ words (addr / 8)

  one_beat :
      (s : Lsu) (d : ℕ)
      → Serves s
      → split_needed s ≡ false
      → d ≡ words (addr / 8)
      → of_width s.latched_width (single_read_data s d) ≡ load_bytes words addr width
  unfolding load_bytes
  one_beat s d k u e =
      simp (e, k.addr_is, k.width_is, low_bits_of)
        (value_in_word (words (addr / 8)) (words ((addr / 8 + 1) % 2 ^ 61)) width (addr % 8)
          (fits (addr / 8)) w (omega arith)
          (simp (k.addr_is, k.width_is, low_bits_of) at (unnegated _ u)))

  two_beats :
      (s : Lsu) (d : ℕ)
      → Serves s
      → s.state ≡ second
      → d ≡ words ((addr / 8 + 1) % 2 ^ 61)
      → of_width s.latched_width (combined_read_data s d) ≡ load_bytes words addr width
  unfolding load_bytes
  two_beats s d k u e =
      simp (e, k.first_is u, k.addr_is, k.width_is, low_bits_of)
        (value_across (words (addr / 8)) (words ((addr / 8 + 1) % 2 ^ 61)) width (addr % 8)
          (fits (addr / 8)) w (omega arith))

  module _ (timeout : ℕ) where
    -- If the bus acknowledges, it gives the word at its address.
    unfoldable pub IsHonest : Inputs → Lsu → Type 0
    IsHonest i s = i.bus_ack ≡ true → i.bus_dat_r ≡ words ((outputs timeout i s).bus_adr / 8)

    first_word :
        (i : Inputs) (s : Lsu)
        → Serves s
        → IsHonest i s
        → i.bus_ack ≡ true
        → s.state ≡ first
        → i.bus_dat_r ≡ words (addr / 8)
    unfolding outputs IsHonest
    first_word i s k h a e =
        h a ∙ ap words (simp (e, k.addr_is, word_aligned_addr-div addr in_range) (omega arith))

    second_word :
        (i : Inputs) (s : Lsu)
        → Serves s
        → IsHonest i s
        → i.bus_ack ≡ true
        → s.state ≡ second
        → i.bus_dat_r ≡ words ((addr / 8 + 1) % 2 ^ 61)
    unfolding outputs IsHonest
    second_word i s k h a e =
        h a ∙ ap words (simp (e, k.addr_is, word_aligned_addr-div addr in_range) (omega arith))

    pub Serves-step :
        (i : Inputs) (s : Lsu) (x : LsuState)
        → s.state ≡ x
        → Serves s
        → is_active x ≡ true
        → IsHonest i s
        → Serves (step timeout i s)
    unfolding step
    Serves-step i s idle e k a h = cc
    Serves-step i s first e k a h = ground (arith, λ (q : i.bus_ack ≡ true). first_word i s k h q e)
    Serves-step i s second e k a h = ground arith

    pub Serves-response :
        (i : Inputs) (s : Lsu) (x : LsuState)
        → s.state ≡ x
        → Serves s
        → IsHonest i s
        → (outputs timeout i s).response_valid ≡ true
        → (outputs timeout i s).response_error ≡ false
        → (outputs timeout i s).response_load_value ≡ load_bytes words addr width
    unfolding outputs
    Serves-response i s idle x k h v e = absurd (ground arith)
    Serves-response i s first x k h v e = ground (
      arith,
      λ (a : i.bus_ack ≡ true) (u : split_needed s ≡ false).
          one_beat s i.bus_dat_r k u (first_word i s k h a x),
    )
    Serves-response i s second x k h v e =
        ground
          (arith, λ (a : i.bus_ack ≡ true). two_beats s i.bus_dat_r k x (second_word i s k h a x))

    pub active-step :
        (i : Inputs) (s : Lsu) (x : LsuState)
        → s.state ≡ x
        → is_active x ≡ true
        → (outputs timeout i s).response_valid ≡ false
        → is_active (step timeout i s).state ≡ true
    unfolding step outputs
    active-step i s idle e a v = cc
    active-step i s first e a v = ground arith
    active-step i s second e a v = ground arith

    served_after :
        (n : ℕ) (is : ℕ → Inputs) (s : Lsu)
        → Serves s
        → is_active s.state ≡ true
        → ((k : ℕ) → IsHonest (is k) (after timeout k is s))
        → ((k : ℕ) → k < n → (outputs timeout (is k) (after timeout k is s)).response_valid ≡ false)
        → Serves (after timeout n is s)
    unfolding after
    served_after zero is s k a h v = k
    served_after (suc n) is s k a h v =
        served_after n (λ j. is (suc j)) (step timeout (is 0) s)
          (Serves-step (is 0) s s.state refl k a (h 0))
          (active-step (is 0) s s.state refl a (v 0 (omega arith))) (λ j. h (suc j))
          (λ j l. v (suc j) (omega arith))

    accepted :
        (i : Inputs) (s : Lsu)
        → s.state ≡ idle
        → i.request_valid ≡ true
        → i.request_addr ≡ addr
        → i.request_width_bytes ≡ width
        → Serves (step timeout i s) × (is_active (step timeout i s).state ≡ true)
    unfolding step
    accepted i s e r p q = ground arith

    -- A unit at rest is asked for `width` bytes at `addr`, on a bus that acknowledges with the word
    -- of memory at its address. Then the first response, if it is no error, brings these bytes.
    pub first_response-load_bytes :
        (is : ℕ → Inputs) (s : Lsu) (n : ℕ)
        → s.state ≡ idle
        → (is 0).request_valid ≡ true
        → (is 0).request_addr ≡ addr
        → (is 0).request_width_bytes ≡ width
        → ((k : ℕ) → IsHonest (is (suc k)) (after timeout (suc k) is s))
        → ((k : ℕ)
            → k < n
            → (outputs timeout (is (suc k)) (after timeout (suc k) is s)).response_valid ≡ false)
        → (outputs timeout (is (suc n)) (after timeout (suc n) is s)).response_valid ≡ true
        → (outputs timeout (is (suc n)) (after timeout (suc n) is s)).response_error ≡ false
        → (outputs timeout (is (suc n)) (after timeout (suc n) is s)).response_load_value
          ≡ load_bytes words addr width
    unfolding after
    first_response-load_bytes is s n rest r p q h v response e =
        let (k, a) = accepted (is 0) s rest r p q in
        Serves-response (is (suc n)) (after timeout (suc n) is s) _ refl
          (served_after n (λ j. is (suc j)) (step timeout (is 0) s) k a h v) (h n) response e
