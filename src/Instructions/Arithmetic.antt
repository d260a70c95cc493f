-- ===== src/Instructions/Arithmetic.antt =====
-- Addition, subtraction and the flags.
use little.Base.{
  ℕ, ◌+◌, ◌*◌, ◌%◌, ◌^◌, ◌<◌, Bool, true, false, ltb, leb, ◌==◌, some, ◌≡◌, refl, ◌∙◌, arith,
  test_bit, bit, slice,
}
use little.Execute.{ExecuteInputs, ExecuteOutputs, sum_value, sub_value, alu, execute_gp}
use little.Fields.{flag_value}
use little.Isa.{add, sub}

-- The three bits of the flags of a result.
pub flag_value_bits :
    (v : ℕ) (c : Bool)
    → (test_bit (flag_value v c) 0 ≡ (v == 0))
      × (test_bit (flag_value v c) 1 ≡ c)
      × (test_bit (flag_value v c) 2 ≡ test_bit v 63)
flag_value_bits v c = bits (v == 0) c (test_bit v 63)
  where
    bits :
        (z c s : Bool)
        → (test_bit (bit z + bit c * 2 + bit s * 4) 0 ≡ z)
          × (test_bit (bit z + bit c * 2 + bit s * 4) 1 ≡ c)
          × (test_bit (bit z + bit c * 2 + bit s * 4) 2 ≡ s)
    bits true true true = (refl, refl, refl)
    bits true true false = (refl, refl, refl)
    bits true false true = (refl, refl, refl)
    bits true false false = (refl, refl, refl)
    bits false true true = (refl, refl, refl)
    bits false true false = (refl, refl, refl)
    bits false false true = (refl, refl, refl)
    bits false false false = (refl, refl, refl)

pub sign_bit : (v : ℕ) → v < 2 ^ 64 → test_bit v 63 ≡ leb (2 ^ 63) v
sign_bit v h = ground arith

-- What an arithmetic instruction leaves: the value, and the flags of zero, carry and sign.
pub record Leaves (o : ExecuteOutputs) (value : ℕ) (carry : Bool) : Type 0 where
  pub writes : (o.reg_write ≡ true) × (o.flags_write ≡ true)
  pub value_is : o.reg_value ≡ value
  pub zero_is : test_bit o.flags_value 0 ≡ (value == 0)
  pub carry_is : test_bit o.flags_value 1 ≡ carry
  pub sign_is : test_bit o.flags_value 2 ≡ leb (2 ^ 63) value

alu-Leaves :
    (v v' : ℕ) (c c' : Bool) (i : ExecuteInputs)
    → v ≡ v'
    → c ≡ c'
    → v' < 2 ^ 64
    → Leaves (alu v c i) v' c'
alu-Leaves v v' c c' i p q h =
    let (z, k, n) = flag_value_bits v' c' in
    rw (p, q)
      (record {
        writes = (refl, refl);
        value_is = refl;
        zero_is = z;
        carry_is = k;
        sign_is = n ∙ sign_bit v' h;
      })

-- ADD leaves the sum modulo 2 ^ 64; its carry says that the sum does not fit 64 bits.
pub add-Leaves :
    (i : ExecuteInputs)
    → i.operand_a < 2 ^ 64
    → i.operand_b < 2 ^ 64
    → Leaves
        (execute_gp (some add) i)
        ((i.operand_a + i.operand_b) % 2 ^ 64)
        (leb (2 ^ 64) (i.operand_a + i.operand_b))
unfolding execute_gp
add-Leaves i a b =
    alu-Leaves (slice (sum_value i) 0 64) _ (test_bit (sum_value i) 64) _ i (omega arith)
      (ground arith) (omega arith)

-- SUB leaves the number that added to the second operand gives the first, modulo 2 ^ 64; its carry
-- says that the second operand is the larger.
pub sub-Leaves :
    (i : ExecuteInputs) (d : ℕ)
    → i.operand_a < 2 ^ 64
    → i.operand_b < 2 ^ 64
    → d < 2 ^ 64
    → (d + i.operand_b) % 2 ^ 64 ≡ i.operand_a
    → Leaves (execute_gp (some sub) i) d (ltb i.operand_a i.operand_b)
unfolding execute_gp
sub-Leaves i d a b l e = alu-Leaves (sub_value i) d _ _ i (omega arith) refl l
