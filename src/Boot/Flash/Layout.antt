-- ===== src/Boot/Flash/Layout.antt =====
-- What the boot code finds in the flash image: the words of the header, and at the offsets in them
-- the kernel and the device tree.
use little.Base.{ℕ, suc, ◌+◌, ◌*◌, ◌^◌, ◌≤◌, ◌<◌, List, [], ◌∷◌, ◌≡◌, refl, ap, ◌∙◌, inl, arith}
use little.Boot.Bytes.{
  Bytes, put, little_endian, read_number, read_number-eq, read_number_same, put-size, put-inside,
  put-outside,
}
use little.Boot.Flash.{pack}
use little.Boot.Results.{Outcome, Outcome_weaken, Outcome-raise_if, field_overflow}

sum_up : (a b c : ℕ) → a + b + c ≡ a + (b + c)
sum_up a b c = omega arith

-- The words of a list, one after the other from an offset on.
pub data ReadsWords (b : Bytes) : ℕ → List ℕ → Type 0 where
  nil : (offset : ℕ) → ReadsWords b offset []
  cons :
      (offset word : ℕ) (words : List ℕ)
      → read_number 8 b offset ≡ word
      → ReadsWords b (offset + 8) words
      → ReadsWords b offset (word ∷ words)

unfoldable pub count : List ℕ → ℕ
count [] = 0
count (word ∷ words) = suc (count words)

pub record IsPacked (before : Bytes) (index : ℕ) (words : List ℕ) (header : Bytes) : Type 0 where
  pub same_size : header.size ≡ before.size
  pub earlier : (k : ℕ) → k < index * 8 → header.at k ≡ before.at k
  pub reads : ReadsWords header (index * 8) words

IsPacked-word :
    (before : Bytes) (index word : ℕ) (words : List ℕ) (header : Bytes)
    → index * 8 + 8 ≤ before.size
    → word < 2 ^ 64
    → IsPacked (put before (index * 8) (little_endian 8 word)) (index + 1) words header
    → IsPacked before index (word ∷ words) header
unfolding little_endian
IsPacked-word before index word words header room fits h =
    let next : (index + 1) * 8 ≡ index * 8 + 8 = omega arith in
    record {
      same_size = h.same_size ∙ put-size before _ (index * 8) room;
      earlier = λ k l.
          h.earlier k (omega arith) ∙ put-outside before _ (index * 8) k room (inl (omega arith));
      reads =
          cons (index * 8) word words
            (read_number-eq 8 header (index * 8) word (λ k l.
                h.earlier (index * 8 + k) (omega arith)
                ∙ put-inside before (little_endian 8 word) (index * 8) k room l)
              ∙ omega (arith, fits))
            (rw next at h.reads);
    }

pub pack-Outcome :
    (index : ℕ) (words : List ℕ) (before : Bytes)
    → (index + count words) * 8 ≤ before.size
    → Outcome (IsPacked before index words) (pack index words before)
unfolding pack count little_endian
pack-Outcome index [] before room = record {
  same_size = refl;
  earlier = λ k l. refl;
  reads = nil (index * 8);
}
pack-Outcome index (word ∷ words) before room =
    let size = put-size before (little_endian 8 word) (index * 8) (omega arith) in
    Outcome-raise_if (IsPacked before index (word ∷ words)) _ field_overflow _ refl (λ fits.
      Outcome_weaken (IsPacked (put before (index * 8) (little_endian 8 word)) (index + 1) words)
        (IsPacked before index (word ∷ words))
        (pack (index + 1) words (put before (index * 8) (little_endian 8 word)))
        (λ header h. IsPacked-word before index word words header (omega arith) (ground arith) h)
        (pack-Outcome (index + 1) words (put before (index * 8) (little_endian 8 word))
          (omega (arith, size))))

-- The words of a header that stands in an image.
pub embedded_words :
    (header image : Bytes) (start offset : ℕ) (words : List ℕ)
    → ((k : ℕ) → k < header.size → image.at (start + k) ≡ header.at k)
    → offset + count words * 8 ≤ header.size
    → ReadsWords header offset words
    → ReadsWords image (start + offset) words
unfolding count
embedded_words header image start offset [] same room (nil o) = nil (start + offset)
embedded_words header image start offset (w ∷ ws) same room (cons o w' ws' here later) =
    let after : start + (offset + 8) ≡ start + offset + 8 = omega arith in
    cons (start + offset) w ws
      (read_number_same 8 image header (start + offset) offset
          (λ k l. ap image.at (sum_up start offset k) ∙ same (offset + k) (omega arith))
        ∙ here)
      (rw after at (embedded_words header image start (offset + 8) ws same (omega arith) later))
