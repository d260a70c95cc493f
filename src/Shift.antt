-- ===== src/Shift.antt =====
-- The shifters of the execute stage, hdl/little64_cores/v3/execute_stage.py: a result
-- and a carry for each amount, from 0 to 64 for a register and from 0 to 15 for an immediate.
pub mod Results
pub mod Right
use little.Base.{
  ℕ, ◌+◌, ◌-◌, ◌*◌, ◌/◌, ◌%◌, ◌^◌, Bool, true, false, not, ◌||◌, leb, ◌==◌, if◌then◌else◌, test_bit,
}

-- `(a << n)[:64]`.
abbrev pub shift_left : ℕ → ℕ → ℕ
shift_left a n = a * 2 ^ n % 2 ^ 64

abbrev pub shift_right : ℕ → ℕ → ℕ
shift_right a n = a / 2 ^ n

-- `(a.as_signed() >> n).as_unsigned()`: the sign fills the bits that come free.
abbrev pub shift_right_signed : ℕ → ℕ → ℕ
shift_right_signed a n = if test_bit a 63 then a / 2 ^ n + (2 ^ n - 1) * 2 ^ (64 - n) else a / 2 ^ n

-- Amounts of 64 and more share one place of the tables.
abbrev pub shift_index : ℕ → ℕ
shift_index b = if leb 64 b then 64 else b

abbrev at_end : ℕ → Bool
at_end n = n == 0 || n == 64

unfoldable pub sll_result : ℕ → ℕ → ℕ
sll_result a n = if n == 0 then a else if n == 64 then 0 else shift_left a n

unfoldable pub sll_carry : ℕ → ℕ → Bool
sll_carry a n = if at_end n then false else not (a / 2 ^ (64 - n) == 0)

unfoldable pub srl_result : ℕ → ℕ → ℕ
srl_result a n = if n == 0 then a else if n == 64 then 0 else shift_right a n

unfoldable pub srl_carry : ℕ → ℕ → Bool
srl_carry a n = if at_end n then false else test_bit a (n - 1)

unfoldable pub sra_result : ℕ → ℕ → ℕ
sra_result a n =
    if n == 0
    then a
    else if n == 64
    then (if test_bit a 63 then 2 ^ 64 - 1 else 0)
    else shift_right_signed a n

unfoldable pub sra_carry : ℕ → ℕ → Bool
sra_carry a n = if at_end n then false else test_bit a (n - 1)

unfoldable pub slli_result : ℕ → ℕ → ℕ
slli_result a n = if n == 0 then a else shift_left a n

unfoldable pub slli_carry : ℕ → ℕ → Bool
slli_carry a n = if n == 0 then false else not (a / 2 ^ (64 - n) == 0)

unfoldable pub srli_result : ℕ → ℕ → ℕ
srli_result a n = if n == 0 then a else shift_right a n

unfoldable pub srai_result : ℕ → ℕ → ℕ
srai_result a n = if n == 0 then a else shift_right_signed a n

-- The carry of both immediate shifts to the right.
unfoldable pub srx_carry : ℕ → ℕ → Bool
srx_carry a n = if n == 0 then false else test_bit a (n - 1)
