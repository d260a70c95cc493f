-- ===== src/Boot/Bytes.antt =====
-- Byte buffers as a size and a function of the position, with what the image builders do to them,
-- hdl/little64_cores/litex_linux_boot.py: writes of slices, and numbers with the lowest byte first.
use little.Base.{
  ℕ, zero, suc, ◌+◌, ◌-◌, ◌*◌, ◌/◌, ◌%◌, ◌^◌, ◌≤◌, ◌<◌, true, ◌&&◌, ltb, leb, ◌==◌, List, [], ◌∷◌,
  if◌then◌else◌, ◌≡◌, ◌⊎◌, refl, arith, ap, sym, ◌∙◌,
}
use native.Mathlib.Nat.{pow-suc, div-add-mod, div-div-eq-div-mul}

pub record Bytes : Type 0 where
  pub size : ℕ
  pub at : ℕ → ℕ

-- `bytearray(size)`.
abbrev pub zeroes : ℕ → Bytes
zeroes size = record { size = size; at = λ k. 0 }

-- The position in the buffer where a slice assignment takes place, which is its end for a slice
-- beyond it.
abbrev pub start_of : Bytes → ℕ → ℕ
start_of b offset = if leb offset b.size then offset else b.size

-- `buffer[offset:offset + len(new)] = new`. A slice over the end of the buffer makes it longer.
unfoldable pub put : Bytes → ℕ → Bytes → Bytes
put b offset new = record {
  size = if leb (start_of b offset + new.size) b.size then b.size else start_of b offset + new.size;
  at = λ k.
      if leb (start_of b offset) k && ltb k (start_of b offset + new.size)
      then new.at (k - start_of b offset)
      else b.at k;
}

-- `view[offset:offset + count]` within the view.
unfoldable pub part : Bytes → ℕ → ℕ → Bytes
part b offset count = record { size = count; at = λ k. b.at (offset + k) }

-- The bytes of a number, `count` of them, the lowest first.
unfoldable pub little_endian : ℕ → ℕ → Bytes
little_endian count value = record { size = count; at = λ k. value / 256 ^ k % 256 }

-- The number at an offset.
unfoldable pub read_number : ℕ → Bytes → ℕ → ℕ
read_number zero b offset = 0
read_number (suc count) b offset = b.at offset + 256 * read_number count b (offset + 1)

-- The bytes of a list.
unfoldable pub of_list : List ℕ → Bytes
of_list [] = zeroes 0
of_list (x ∷ xs) = record {
  size = suc (of_list xs).size;
  at = λ k. if k == 0 then x else (of_list xs).at (k - 1);
}

-- Slice assignments one after the other.
unfoldable pub put_all : Bytes → List (ℕ × Bytes) → Bytes
put_all b [] = b
put_all b (w ∷ writes) = put_all (put b w.0 w.1) writes

pub put-size :
    (b new : Bytes) (offset : ℕ) → offset + new.size ≤ b.size → (put b offset new).size ≡ b.size
unfolding put
put-size b new offset h = ground arith

-- The buffer after a write that stays in it.
pub put-at :
    (b new : Bytes) (offset k : ℕ)
    → offset + new.size ≤ b.size
    → (put b offset new).at k
      ≡ (if leb offset k && ltb k (offset + new.size) then new.at (k - offset) else b.at k)
unfolding put
put-at b new offset k h = ground arith

digit-suc : (value k : ℕ) → value / 256 ^ suc k ≡ value / 256 / 256 ^ k
digit-suc value k =
    ap (λ (t : ℕ). value / t) (omega (arith, pow-suc 256 k))
    ∙ sym (div-div-eq-div-mul value 256 (256 ^ k))

low_digit :
    (value count : ℕ) → value % 256 ^ suc count ≡ value % 256 + 256 * (value / 256 % 256 ^ count)
low_digit value count = omega (
  arith,
  pow-suc 256 count,
  digit-suc value count,
  div-add-mod value (256 ^ suc count),
  div-add-mod (value / 256) (256 ^ count),
  ap (λ (t : ℕ). t * (value / 256 / 256 ^ count)) (pow-suc 256 count),
  ap (λ (t : ℕ). 256 ^ suc count * t) (digit-suc value count),
)

-- Bytes that are those of a number are read as its remainder.
pub read_number-eq :
    (count : ℕ) (b : Bytes) (offset value : ℕ)
    → ((k : ℕ) → k < count → b.at (offset + k) ≡ value / 256 ^ k % 256)
    → read_number count b offset ≡ value % 256 ^ count
unfolding read_number
read_number-eq zero b offset value h = omega arith
read_number-eq (suc count) b offset value h =
    let rest : read_number count b (offset + 1) ≡ value / 256 % 256 ^ count =
      read_number-eq count b (offset + 1) (value / 256) (λ k l.
        ap b.at (omega arith)
        ∙ h (suc k) (omega arith)
        ∙ ap (λ (t : ℕ). t % 256) (digit-suc value k)) in
    let first : b.at offset ≡ value % 256 =
      ap b.at (omega arith) ∙ h 0 (omega arith) ∙ omega arith in
    omega (arith, rest, first, low_digit value count)

-- The bytes in a write, and those that it leaves alone.
pub put-inside :
    (b new : Bytes) (offset k : ℕ)
    → offset + new.size ≤ b.size
    → k < new.size
    → (put b offset new).at (offset + k) ≡ new.at k
put-inside b new offset k h l =
    let inside : (leb offset (offset + k) && ltb (offset + k) (offset + new.size)) ≡ true =
      ground arith in
    let back : offset + k - offset ≡ k = omega arith in
    put-at b new offset (offset + k) h ∙ rw (inside, back) refl

pub put-outside :
    (b new : Bytes) (offset k : ℕ)
    → offset + new.size ≤ b.size
    → (k < offset) ⊎ (offset + new.size ≤ k)
    → (put b offset new).at k ≡ b.at k
put-outside b new offset k h e = put-at b new offset k h ∙ ground arith

-- Equal bytes are read as the same number.
pub read_number_same :
    (count : ℕ) (b b' : Bytes) (offset offset' : ℕ)
    → ((k : ℕ) → k < count → b.at (offset + k) ≡ b'.at (offset' + k))
    → read_number count b offset ≡ read_number count b' offset'
unfolding read_number
read_number_same zero b b' offset offset' h = refl
read_number_same (suc count) b b' offset offset' h =
    let rest : read_number count b (offset + 1) ≡ read_number count b' (offset' + 1) =
      read_number_same count b b' (offset + 1) (offset' + 1)
        (λ k l. ap b.at (omega arith) ∙ h (suc k) (omega arith) ∙ ap b'.at (omega arith)) in
    let first : b.at offset ≡ b'.at offset' =
      ap b.at (omega arith) ∙ h 0 (omega arith) ∙ ap b'.at (omega arith) in
    omega (arith, rest, first)
