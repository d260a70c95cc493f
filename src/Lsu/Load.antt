-- ===== src/Lsu/Load.antt =====
-- A load returns the bytes of memory at its address, in one beat or two.
use little.Base.{ℕ, zero, suc, ◌+◌, ◌-◌, ◌*◌, ◌/◌, ◌%◌, ◌^◌, ◌<◌, true, ◌==◌, ◌≡◌, arith, slice}
use little.Base.Bits.{bit_and_low_bits}
use little.Base.Digits.{bit_and_step}
use little.Lsu.{of_width, base_sel, word_aligned_addr}

-- The number of `width` bytes at `addr`, the lowest byte first, of a memory by
-- words of eight bytes whose last word is followed by its first.
unfoldable pub load_bytes : (ℕ → ℕ) → ℕ → ℕ → ℕ
load_bytes words addr width =
    (words (addr / 8) + words ((addr / 8 + 1) % 2 ^ 61) * 2 ^ 64)
    / 2 ^ (addr % 8 * 8)
    % 2 ^ (width * 8)

pub data IsWidth : ℕ → Type 0 where
  byte : IsWidth 1
  short : IsWidth 2
  word : IsWidth 4
  long : IsWidth 8

-- A number below a power of two is the value masked by it.
pub of_width-mod : (w v : ℕ) → IsWidth w → v < 2 ^ 64 → of_width w v ≡ v % 2 ^ (w * 8)
of_width-mod w v byte b = bit_and_low_bits 8 v
of_width-mod w v short b = bit_and_low_bits 16 v
of_width-mod w v word b = bit_and_low_bits 32 v
of_width-mod w v long b = omega arith

pub below_eight :
    (P : ℕ → Type 0) → P 0 → P 1 → P 2 → P 3 → P 4 → P 5 → P 6 → P 7 → (o : ℕ) → o < 8 → P o
below_eight P a b c d e f g h zero l = a
below_eight P a b c d e f g h (suc zero) l = b
below_eight P a b c d e f g h (suc (suc zero)) l = c
below_eight P a b c d e f g h (suc (suc (suc zero))) l = d
below_eight P a b c d e f g h (suc (suc (suc (suc zero)))) l = e
below_eight P a b c d e f g h (suc (suc (suc (suc (suc zero))))) l = f
below_eight P a b c d e f g h (suc (suc (suc (suc (suc (suc zero)))))) l = g
below_eight P a b c d e f g h (suc (suc (suc (suc (suc (suc (suc zero))))))) l = h
below_eight P a b c d e f g h (suc (suc (suc (suc (suc (suc (suc (suc o)))))))) l =
    absurd (omega arith)

module _ (x y : ℕ) (fits : x < 2 ^ 64) where
  -- The access of width `w` at offset `o` stays in the word.
  abbrev pub InWord : ℕ → ℕ → Type 0
  InWord w o =
      (slice (base_sel w * 2 ^ o) 8 16 == 0) ≡ true
      → (x + y * 2 ^ 64) / 2 ^ (o * 8) % 2 ^ (w * 8) ≡ x / 2 ^ (o * 8) % 2 ^ (w * 8)

  pub in_word : (w o : ℕ) → IsWidth w → o < 8 → InWord w o
  in_word w o byte l =
      below_eight (InWord 1) (λ h. omega arith) (λ h. omega arith) (λ h. omega arith)
        (λ h. omega arith) (λ h. omega arith) (λ h. omega arith) (λ h. omega arith)
        (λ h. omega arith) o l
  in_word w o short l =
      below_eight (InWord 2) (λ h. omega arith) (λ h. omega arith) (λ h. omega arith)
        (λ h. omega arith) (λ h. omega arith) (λ h. omega arith) (λ h. omega arith) (λ h. cc) o l
  in_word w o word l =
      below_eight (InWord 4) (λ h. omega arith) (λ h. omega arith) (λ h. omega arith)
        (λ h. omega arith) (λ h. omega arith) (λ h. cc) (λ h. cc) (λ h. cc) o l
  in_word w o long l =
      below_eight (InWord 8) (λ h. omega arith) (λ h. cc) (λ h. cc) (λ h. cc) (λ h. cc) (λ h. cc)
        (λ h. cc) (λ h. cc) o l

  -- The two words with the offset's bytes cut off below, in one word.
  abbrev pub Across : ℕ → Type 0
  Across o =
      (x + y * 2 ^ 64) / 2 ^ (o * 8) % 2 ^ 64 ≡ x / 2 ^ (o * 8) + y % 2 ^ (o * 8) * 2 ^ (64 - o * 8)

  pub across : (o : ℕ) → o < 8 → Across o
  across o l =
      below_eight Across (omega arith) (omega arith) (omega arith) (omega arith) (omega arith)
        (omega arith) (omega arith) (omega arith) o l

  pub across_bound : (o : ℕ) → o < 8 → x / 2 ^ (o * 8) + y % 2 ^ (o * 8) * 2 ^ (64 - o * 8) < 2 ^ 64
  across_bound o l = omega (arith, across o l)

-- A narrower remainder of a word.
pub narrow : (v w : ℕ) → IsWidth w → v % 2 ^ 64 % 2 ^ (w * 8) ≡ v % 2 ^ (w * 8)
narrow v w byte = omega arith
narrow v w short = omega arith
narrow v w word = omega arith
narrow v w long = omega arith

pub word_aligned_addr-div : (addr : ℕ) → addr < 2 ^ 64 → word_aligned_addr addr ≡ addr / 8 * 8
word_aligned_addr-div addr h = omega (
  arith,
  bit_and_step addr 0xffff_ffff_ffff_fff8,
  bit_and_step (addr / 2) 0x7fff_ffff_ffff_fffc,
  bit_and_step (addr / 2 / 2) 0x3fff_ffff_ffff_fffe,
  bit_and_low_bits 61 (addr / 2 / 2 / 2),
)
