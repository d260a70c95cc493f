-- ===== src/Cache/Bytes.antt =====
-- The bytes of a line after a store.
use little.Base.{
  ℕ, zero, suc, ◌+◌, ◌*◌, ◌^◌, ◌<◌, Bool, true, false, ◌≡◌, arith, if◌then◌else◌, test_bit,
}
use little.Cache.{merge_bytes, byte_of}

-- The byte that the store leaves at one place of the line.
abbrev pick : ℕ → ℕ → ℕ → ℕ → ℕ
pick sel new old k = if test_bit sel k then byte_of new k else byte_of old k

pick_bound : (sel new old k : ℕ) → pick sel new old k < 256
pick_bound sel new old k = choose (test_bit sel k)
  where
    choose : (b : Bool) → (if b then byte_of new k else byte_of old k) < 256
    choose true = omega arith
    choose false = omega arith

-- A number of eight bytes, and each of them.
abbrev join : (ℕ → ℕ) → ℕ
join b =
    0
    + b 0 * 256 ^ 0
    + b 1 * 256 ^ 1
    + b 2 * 256 ^ 2
    + b 3 * 256 ^ 3
    + b 4 * 256 ^ 4
    + b 5 * 256 ^ 5
    + b 6 * 256 ^ 6
    + b 7 * 256 ^ 7

module _ (b : ℕ → ℕ) (bound : (i : ℕ) → b i < 256) where
  byte_of-join : (k : ℕ) → k < 8 → byte_of (join b) k ≡ b k
  byte_of-join zero h = omega (arith, bound 0)
  byte_of-join (suc zero) h = omega (arith, bound 0, bound 1)
  byte_of-join (suc (suc zero)) h = omega (arith, bound 0, bound 1, bound 2)
  byte_of-join (suc (suc (suc zero))) h = omega (arith, bound 0, bound 1, bound 2, bound 3)
  byte_of-join (suc (suc (suc (suc zero)))) h =
      omega (arith, bound 0, bound 1, bound 2, bound 3, bound 4)
  byte_of-join (suc (suc (suc (suc (suc zero))))) h =
      omega (arith, bound 0, bound 1, bound 2, bound 3, bound 4, bound 5)
  byte_of-join (suc (suc (suc (suc (suc (suc zero)))))) h =
      omega (arith, bound 0, bound 1, bound 2, bound 3, bound 4, bound 5, bound 6)
  byte_of-join (suc (suc (suc (suc (suc (suc (suc zero))))))) h =
      omega (arith, bound 0, bound 1, bound 2, bound 3, bound 4, bound 5, bound 6, bound 7)
  byte_of-join (suc (suc (suc (suc (suc (suc (suc (suc k)))))))) h = absurd (omega arith)

-- After a store each of the eight bytes of the line is the store's if its select bit is set, and
-- what it was otherwise.
byte_of-merge_bytes :
    (sel new old k : ℕ)
    → k < 8
    → byte_of (merge_bytes 8 sel new old) k
      ≡ (if test_bit sel k then byte_of new k else byte_of old k)
unfolding merge_bytes
byte_of-merge_bytes sel new old k h = byte_of-join (pick sel new old) (pick_bound sel new old) k h
