-- ===== src/Core/Entry/Bits.antt =====
-- The control register of the v3 core when an interrupt starts, bit by bit, and the interrupt that is
-- chosen.
use little.Base.{
  ℕ, zero, suc, ◌+◌, ◌*◌, ◌%◌, ◌^◌, ◌-◌, ◌≤◌, ◌<◌, Bool, true, false, ◌&&◌, ◌||◌, if◌then◌else◌,
  test_bit, bit_and, bit_or, Option, none, some, ◌≡◌, refl, ap, ◌∙◌, arith,
}
use mathlib.Core.Path.{subst}
use native.Mathlib.Decide.{dec_lt}
use little.Base.Places.{test_bit-bit_and, test_bit-bit_or, test_bit-word, test_bit-times_four}
use little.Base.Bits.{bit_and_mask_twice}
use little.Lsu.Load.{below_eight}
use little.Isa.{cpu_control_writable_mask, cpu_control_in_interrupt}
use little.Registers.{masked}
use little.Core.Traps.{first_pending, entry_mask}

-- An interrupt vector is that of the lowest line, from line 1 on, whose bit is set.
pub record IsLowest (count lines vector : ℕ) : Type 0 where
  pub line : ℕ
  pub vector_is : vector ≡ 64 + line
  pub from_one : 1 ≤ line
  pub counted : line ≤ count
  pub is_set : test_bit lines line ≡ true
  pub lowest : (j : ℕ) → 1 ≤ j → j < line → test_bit lines j ≡ false

data Finds (count lines : ℕ) : Option ℕ → Type 0 where
  found : (vector : ℕ) → IsLowest count lines vector → Finds count lines (some vector)
  nothing : ((j : ℕ) → 1 ≤ j → j ≤ count → test_bit lines j ≡ false) → Finds count lines none

up_to :
    (f : ℕ → Bool) (n j : ℕ)
    → ((j : ℕ) → 1 ≤ j → j ≤ n → f j ≡ false)
    → 1 ≤ j
    → j < suc n
    → f j ≡ false
up_to f n j h one below = h j one (omega arith)

first_pending-Finds : (count lines : ℕ) → Finds count lines (first_pending count lines)
unfolding first_pending
first_pending-Finds zero lines = nothing (λ j one h. absurd (omega arith))
first_pending-Finds (suc n) lines = extend (first_pending n lines) (first_pending-Finds n lines)
  where
    last :
        (b : Bool)
        → test_bit lines (suc n) ≡ b
        → ((j : ℕ) → 1 ≤ j → j ≤ n → test_bit lines j ≡ false)
        → Finds (suc n) lines (if b then some (64 + suc n) else none)
    last true set earlier = found (64 + suc n) (record {
      line = suc n;
      vector_is = refl;
      from_one = omega arith;
      counted = omega arith;
      is_set = set;
      lowest = λ j one below. earlier j one (omega arith);
    })
    last false clear earlier = nothing (λ j one h. elim (dec_lt j (suc n)) [
      | yes below ↦ earlier j one (omega arith)
      | no last_one ↦ ap (test_bit lines) (omega arith) ∙ clear
    ])

    extend :
        (o : Option ℕ)
        → Finds n lines o
        → Finds (suc n) lines (elim o [
          | some v ↦ some v
          | none ↦ if test_bit lines (suc n) then some (64 + suc n) else none
        ])
    extend (some v) (found _ f) = found v (record {
      line = f.line;
      vector_is = f.vector_is;
      from_one = f.from_one;
      counted = omega (arith, f.counted);
      is_set = f.is_set;
      lowest = f.lowest;
    })
    extend none (nothing earlier) = last (test_bit lines (suc n)) refl earlier

abbrev vector_of : Option ℕ → ℕ
vector_of (some v) = v
vector_of none = 0

found-IsLowest :
    {count lines : ℕ} {o : Option ℕ} (vector : ℕ)
    → Finds count lines o
    → o ≡ some vector
    → IsLowest count lines vector
found-IsLowest {count} {lines} vector (found v f) same =
    subst (IsLowest count lines) (ap vector_of same) f
found-IsLowest vector (nothing f) same = absurd (cc)

pub first_pending-IsLowest :
    (count lines vector : ℕ) → first_pending count lines ≡ some vector → IsLowest count lines vector
first_pending-IsLowest count lines vector = found-IsLowest vector (first_pending-Finds count lines)

-- The control register `new` of a handler for an interrupt vector, begun with the control register
-- `old`.
pub record IsHandling (vector old new : ℕ) : Type 0 where
  pub interrupts_off : test_bit new 0 ≡ false
  pub in_interrupt_set : test_bit new 1 ≡ true
  pub vector_set : (j : ℕ) → j < 7 → test_bit new (suc (suc j)) ≡ test_bit vector j
  pub paging_kept : test_bit new 16 ≡ test_bit old 16
  pub user_clear : test_bit new 17 ≡ false
  pub reserved_clear : masked new ≡ new

module _ (vector old : ℕ) (small : vector < 2 ^ 7) where
  abbrev pub entered : ℕ
  entered =
      bit_or (bit_or (bit_and old entry_mask) cpu_control_in_interrupt) (vector * 2 ^ 2) % 2 ^ 64

  entered-bit :
      (k : ℕ)
      → test_bit (masked entered) k ≡ (
          ((((test_bit old k && test_bit entry_mask k) || test_bit cpu_control_in_interrupt k)
              || test_bit (vector * 2 ^ 2) k)
            && test_bit (2 ^ 64 - 1) k)
          && test_bit cpu_control_writable_mask k)
  entered-bit k =
      rw
        (
          test_bit-bit_and k entered cpu_control_writable_mask,
          test_bit-word k
              (bit_or (bit_or (bit_and old entry_mask) cpu_control_in_interrupt) (vector * 2 ^ 2)),
          test_bit-bit_or k (bit_or (bit_and old entry_mask) cpu_control_in_interrupt)
              (vector * 2 ^ 2),
          test_bit-bit_or k (bit_and old entry_mask) cpu_control_in_interrupt,
          test_bit-bit_and k old entry_mask,
        )
        refl

  vector-bit :
      (j : ℕ)
      → test_bit entry_mask (suc (suc j)) ≡ false
      → test_bit cpu_control_in_interrupt (suc (suc j)) ≡ false
      → test_bit (2 ^ 64 - 1) (suc (suc j)) ≡ true
      → test_bit cpu_control_writable_mask (suc (suc j)) ≡ true
      → test_bit (masked entered) (suc (suc j)) ≡ test_bit vector j
  vector-bit j dropped other word writable =
      ground (arith, entered-bit (suc (suc j)), test_bit-times_four vector j)

  vector-bits : (j : ℕ) → j < 7 → test_bit (masked entered) (suc (suc j)) ≡ test_bit vector j
  vector-bits j l =
      below_eight (λ j. j < 7 → test_bit (masked entered) (suc (suc j)) ≡ test_bit vector j)
        (λ h. vector-bit 0 refl refl refl refl) (λ h. vector-bit 1 refl refl refl refl)
        (λ h. vector-bit 2 refl refl refl refl) (λ h. vector-bit 3 refl refl refl refl)
        (λ h. vector-bit 4 refl refl refl refl) (λ h. vector-bit 5 refl refl refl refl)
        (λ h. vector-bit 6 refl refl refl refl) (λ h. absurd (omega arith)) j (omega arith) l

  pub entered-IsHandling : IsHandling vector old (masked entered)
  entered-IsHandling = record {
    interrupts_off = ground (arith, entered-bit 0);
    in_interrupt_set = ground (arith, entered-bit 1);
    vector_set = vector-bits;
    paging_kept = ground (arith, entered-bit 16);
    user_clear = ground (arith, entered-bit 17);
    reserved_clear = bit_and_mask_twice entered cpu_control_writable_mask;
  }
