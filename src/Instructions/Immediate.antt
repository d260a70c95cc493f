-- ===== src/Instructions/Immediate.antt =====
-- A constant from four loads of an immediate byte.
use little.Base.{
  ℕ, ◌+◌, ◌-◌, ◌*◌, ◌/◌, ◌%◌, ◌^◌, ◌<◌, true, false, ◌==◌, if◌then◌else◌, ◌≡◌, ◌∙◌, arith, test_bit,
  bit_or, ap, Bool-cases, inl, inr,
}
use little.Base.Bits.{bit_or_low_high}
use little.Execute.{ldi_value}
use little.Fields.{sign_extend, instruction_ldi_shift, instruction_ldi_imm8}

-- The instruction word of the load of byte `imm8` at the place `shift` into register `rd`.
abbrev pub encode_ldi : ℕ → ℕ → ℕ → ℕ
encode_ldi shift imm8 rd = 2 * 2 ^ 14 + shift * 2 ^ 12 + imm8 * 2 ^ 4 + rd

join :
    (n : ℕ)
    → n < 2 ^ 32
    → n / 2 ^ 24 * 2 ^ 24 + (n / 2 ^ 16 % 256 * 2 ^ 16 + (n / 2 ^ 8 % 256 * 2 ^ 8 + n % 256)) ≡ n
join n h = omega arith

-- The value by the fields of the word.
ldi_by_fields :
    (word a s b : ℕ)
    → instruction_ldi_shift word ≡ s
    → instruction_ldi_imm8 word ≡ b
    → ldi_value word a ≡ (
        if s == 0
        then b
        else if s == 1
        then bit_or a (b * 2 ^ 8)
        else if s == 2
        then bit_or a (b * 2 ^ 16)
        else bit_or a (sign_extend (b * 2 ^ 24) 32 64))
unfolding ldi_value
ldi_by_fields word a s b e f = rw (e, f)

module _ (rd : ℕ) (r : rd < 16) where
  ldi_first : (b a : ℕ) → b < 256 → ldi_value (encode_ldi 0 b rd) a ≡ b
  ldi_first b a h = ldi_by_fields (encode_ldi 0 b rd) a 0 b (omega arith) (omega arith)

  ldi_second : (b a : ℕ) → b < 256 → a < 256 → ldi_value (encode_ldi 1 b rd) a ≡ b * 2 ^ 8 + a
  ldi_second b a h k =
      ldi_by_fields (encode_ldi 1 b rd) a 1 b (omega arith) (omega arith)
      ∙ bit_or_low_high 8 b a (omega arith)

  ldi_third : (b a : ℕ) → b < 256 → a < 2 ^ 16 → ldi_value (encode_ldi 2 b rd) a ≡ b * 2 ^ 16 + a
  ldi_third b a h k =
      ldi_by_fields (encode_ldi 2 b rd) a 2 b (omega arith) (omega arith) ∙ bit_or_low_high 16 b a k

  -- The sign of the last byte fills the upper half.
  extend_over :
      (b a : ℕ)
      → b < 256
      → a < 2 ^ 24
      → bit_or a (sign_extend (b * 2 ^ 24) 32 64) ≡ sign_extend (b * 2 ^ 24 + a) 32 64
  extend_over b a h k = elim (Bool-cases (test_bit (b * 2 ^ 24) 31)) [
    | inl n ↦
        (let same : test_bit (b * 2 ^ 24 + a) 31 ≡ true = ground arith in
          rw (n, same)
            (ap (bit_or a) (omega arith)
              ∙ bit_or_low_high 24 (b + (2 ^ 32 - 1) * 2 ^ 8) a k
              ∙ omega arith))
    | inr p ↦
        (let same : test_bit (b * 2 ^ 24 + a) 31 ≡ false = ground arith in
          rw (p, same) (bit_or_low_high 24 b a k))
  ]

  ldi_fourth :
      (b a : ℕ)
      → b < 256
      → a < 2 ^ 24
      → ldi_value (encode_ldi 3 b rd) a ≡ sign_extend (b * 2 ^ 24 + a) 32 64
  ldi_fourth b a h k =
      ldi_by_fields (encode_ldi 3 b rd) a 3 b (omega arith) (omega arith) ∙ extend_over b a h k

  -- The four loads of the bytes of a 32-bit number, the lowest first and each into the register that
  -- the one before has left, build that number with its sign extended to 64 bits.
  pub ldi_value_sequence :
      (n a : ℕ)
      → n < 2 ^ 32
      → ldi_value (encode_ldi 3 (n / 2 ^ 24) rd) (
          ldi_value (encode_ldi 2 (n / 2 ^ 16 % 256) rd) (
            ldi_value
              (encode_ldi 1 (n / 2 ^ 8 % 256) rd)
              (ldi_value (encode_ldi 0 (n % 256) rd) a)))
        ≡ sign_extend n 32 64
  ldi_value_sequence n a h = rw (
    ldi_first (n % 256) a (omega arith),
    ldi_second (n / 2 ^ 8 % 256) (n % 256) (omega arith) (omega arith),
    ldi_third (n / 2 ^ 16 % 256) (n / 2 ^ 8 % 256 * 2 ^ 8 + n % 256) (omega arith) (omega arith),
    ldi_fourth (n / 2 ^ 24) (n / 2 ^ 16 % 256 * 2 ^ 16 + (n / 2 ^ 8 % 256 * 2 ^ 8 + n % 256))
        (omega arith) (omega arith),
    join n h,
  )
