-- ===== src/Boot/Elf/Loading.antt =====
-- What the image of the kernel holds.
use little.Base.{
  ℕ, ◌+◌, ◌-◌, ◌*◌, ◌/◌, ◌≤◌, ◌<◌, List, [], ◌∷◌, ◌≡◌, refl, ap, ◌∙◌, ◌⊎◌, inl, inr, arith,
}
use little.Boot.Bytes.{Bytes, zeroes, put, part, put-size, put-inside, put-outside, read_number}
use little.Boot.Fat.Chain.{Each, nil, cons}
use little.Boot.Elf.Errors.{Anything, load_segments-Outcome}
use little.Boot.Elf.{
  load_segments, Segment, Parsed, LinuxElfImage, min_vaddr, max_vaddr, with_segments, copy_segments,
  parse_little64_elf_load_segments, flatten_little64_linux_elf_image, page_size, align_up,
}
use little.Boot.Results.{
  ok, Outcome, Outcome_then, Outcome-raise_if, image_too_small, bad_magic, bad_class, bad_machine,
  headers_beyond_file, entry_outside,
}

-- No segment has more bytes in the file than in memory.
abbrev pub AreShort : List Segment → Type 0
AreShort = Each (λ s. s.filesz ≤ s.memsz)

abbrev pub IsApart : Segment → Segment → Type 0
IsApart s t = (s.vaddr + s.filesz ≤ t.vaddr) ⊎ (t.vaddr + t.filesz ≤ s.vaddr)

-- No two segments bring bytes to one address.
pub data AreApart : List Segment → Type 0 where
  apart_nil : AreApart []
  apart_cons :
      (s : Segment) (rest : List Segment)
      → Each (IsApart s) rest
      → AreApart rest
      → AreApart (s ∷ rest)

-- A segment in an image of some size.
abbrev Fits : ℕ → ℕ → Segment → Type 0
Fits base size s = (base ≤ s.vaddr) × (s.vaddr - base + s.filesz ≤ size)

-- The bytes of a segment in an image.
abbrev pub IsLoaded : Bytes → ℕ → Bytes → Segment → Type 0
IsLoaded elf base image s =
    (v : ℕ)
    → s.vaddr ≤ v
    → v < s.vaddr + s.filesz
    → image.at (v - base) ≡ elf.at (s.offset + (v - s.vaddr))

module _ (elf : Bytes) (base : ℕ) where
  copy_segments-size :
      (segments : List Segment) (image : Bytes)
      → Each (Fits base image.size) segments
      → (copy_segments elf base segments image).size ≡ image.size
  unfolding copy_segments part
  copy_segments-size [] image nil = refl
  copy_segments-size (s ∷ rest) image (cons h hs) =
      let same = put-size image (part elf s.offset s.filesz) (s.vaddr - base) h.1 in
      copy_segments-size rest (put image (s.vaddr - base) (part elf s.offset s.filesz)) (rw same hs)
      ∙ same

  copy_segments-elsewhere :
      (segments : List Segment) (image : Bytes) (v : ℕ)
      → Each (Fits base image.size) segments
      → Each (λ s. (v < s.vaddr) ⊎ (s.vaddr + s.filesz ≤ v)) segments
      → base ≤ v
      → (copy_segments elf base segments image).at (v - base) ≡ image.at (v - base)
  unfolding copy_segments part
  copy_segments-elsewhere [] image v nil nil l = refl
  copy_segments-elsewhere (s ∷ rest) image v (cons h hs) (cons e es) l =
      let same = put-size image (part elf s.offset s.filesz) (s.vaddr - base) h.1 in
      copy_segments-elsewhere rest (put image (s.vaddr - base) (part elf s.offset s.filesz)) v
        (rw same hs) es l
      ∙ put-outside image (part elf s.offset s.filesz) (s.vaddr - base) (v - base) h.1
          (apart_at e h.0)
    where
      apart_at :
          (v < s.vaddr) ⊎ (s.vaddr + s.filesz ≤ v)
          → base ≤ s.vaddr
          → (v - base < s.vaddr - base) ⊎ (s.vaddr - base + s.filesz ≤ v - base)
      apart_at (inl b) k = inl (omega arith)
      apart_at (inr b) k = inr (omega arith)

  elsewhere_of :
      (s : Segment) (rest : List Segment) (v : ℕ)
      → Each (IsApart s) rest
      → s.vaddr ≤ v
      → v < s.vaddr + s.filesz
      → Each (λ t. (v < t.vaddr) ⊎ (t.vaddr + t.filesz ≤ v)) rest
  elsewhere_of s [] v nil l r = nil
  elsewhere_of s (t ∷ rest) v (cons (inl a) hs) l r =
      cons (inl (omega arith)) (elsewhere_of s rest v hs l r)
  elsewhere_of s (t ∷ rest) v (cons (inr a) hs) l r =
      cons (inr (omega arith)) (elsewhere_of s rest v hs l r)

  copy_segments-IsLoaded :
      (segments : List Segment) (image : Bytes)
      → Each (Fits base image.size) segments
      → AreApart segments
      → Each (IsLoaded elf base (copy_segments elf base segments image)) segments
  unfolding copy_segments part
  copy_segments-IsLoaded [] image nil apart_nil = nil
  copy_segments-IsLoaded (s ∷ rest) image (cons h hs) (apart_cons s' rest' apart others) =
      let next = put image (s.vaddr - base) (part elf s.offset s.filesz) in
      let same = put-size image (part elf s.offset s.filesz) (s.vaddr - base) h.1 in
      cons
        (λ v l r.
          copy_segments-elsewhere rest next v (rw same hs) (elsewhere_of s rest v apart l r)
            (omega (arith, h.0))
          ∙ ap next.at (place s.vaddr v l h.0)
          ∙ put-inside image (part elf s.offset s.filesz) (s.vaddr - base) (v - s.vaddr) h.1
              (omega arith))
        (copy_segments-IsLoaded rest next (rw same hs) others)
    where
      place : (a v : ℕ) → a ≤ v → base ≤ a → v - base ≡ a - base + (v - a)
      place a v l b = omega arith

min_vaddr-le :
    (s : Segment) (rest : List Segment) → Each (λ t. min_vaddr s rest ≤ t.vaddr) (s ∷ rest)
unfolding min_vaddr
min_vaddr-le s [] = cons (omega arith) nil
min_vaddr-le s (t ∷ rest) = cons (ground arith) (below (min_vaddr-le t rest) (ground arith))
  where
    below :
        {low lower : ℕ} {xs : List Segment}
        → Each (λ u. low ≤ u.vaddr) xs
        → lower ≤ low
        → Each (λ u. lower ≤ u.vaddr) xs
    below nil l = nil
    below (cons h hs) l = cons (omega arith) (below hs l)

le-max_vaddr :
    (segments : List Segment) → Each (λ t. t.vaddr + t.memsz ≤ max_vaddr segments) segments
unfolding max_vaddr
le-max_vaddr [] = nil
le-max_vaddr (s ∷ rest) = cons (ground arith) (above (le-max_vaddr rest) (ground arith))
  where
    above :
        {high higher : ℕ} {xs : List Segment}
        → Each (λ u. u.vaddr + u.memsz ≤ high) xs
        → high ≤ higher
        → Each (λ u. u.vaddr + u.memsz ≤ higher) xs
    above nil l = nil
    above (cons h hs) l = cons (omega arith) (above hs l)

-- The addresses that the parser reports bound those of its segments.
record IsBounded (p : Parsed) : Type 0 where
  from_lowest : Each (λ t. p.lowest ≤ t.vaddr) p.segments
  to_highest : Each (λ t. t.vaddr + t.memsz ≤ p.highest) p.segments

with_segments-IsBounded :
    (entry : ℕ) (segments : List Segment) → Outcome IsBounded (with_segments entry segments)
with_segments-IsBounded entry [] = refl
with_segments-IsBounded entry (s ∷ rest) = record {
  from_lowest = min_vaddr-le s rest;
  to_highest = le-max_vaddr (s ∷ rest);
}

parse-IsBounded : (elf : Bytes) → Outcome IsBounded (parse_little64_elf_load_segments elf)
unfolding parse_little64_elf_load_segments
parse-IsBounded elf = Outcome-raise_if IsBounded _ image_too_small _ refl (λ a.
    Outcome-raise_if IsBounded _ bad_magic _ refl (λ b.
      Outcome-raise_if IsBounded _ bad_class _ refl (λ c.
        Outcome-raise_if IsBounded _ bad_machine _ refl (λ d.
          Outcome-raise_if IsBounded _ headers_beyond_file _ refl (λ e.
            Outcome_then Anything IsBounded
              (load_segments (read_number 2 elf 56) 0 elf (read_number 8 elf 32)
                (read_number 2 elf 54))
              _
              (load_segments-Outcome (read_number 2 elf 56) 0 elf (read_number 8 elf 32)
                (read_number 2 elf 54))
              (λ segments h. with_segments-IsBounded (read_number 8 elf 24) segments))))))

all_fit :
    (base low high : ℕ) (segments : List Segment)
    → base ≤ low
    → Each (λ t. low ≤ t.vaddr) segments
    → Each (λ t. t.vaddr + t.memsz ≤ high) segments
    → AreShort segments
    → Each (Fits base (align_up (high - base))) segments
all_fit base low high [] l nil nil nil = nil
all_fit base low high (s ∷ rest) l (cons a lows) (cons b highs) (cons c shorts) =
    cons (omega arith, omega arith) (all_fit base low high rest l lows highs shorts)

-- The image of the kernel at a physical base.
pub record IsImage (elf : Bytes) (base : ℕ) (p : Parsed) (r : LinuxElfImage) : Type 0 where
  pub size_is : r.image.size ≡ r.image_span
  pub segments_are : Each (IsLoaded elf r.virtual_base r.image) p.segments
  pub entry_from : base ≤ r.entry_physical
  pub entry_below : r.entry_physical < base + r.image_span

-- For a file that parses, whose segments have no more bytes in the file than in memory and bring no
-- two bytes to one address: either an error is reported, or the image has the size that is reported
-- for it, has each byte of each segment at its address, and the entry point lies in it.
pub flatten-IsImage :
    (elf : Bytes) (base : ℕ) (p : Parsed)
    → parse_little64_elf_load_segments elf ≡ ok p
    → AreShort p.segments
    → AreApart p.segments
    → Outcome (IsImage elf base p) (flatten_little64_linux_elf_image elf base)
unfolding flatten_little64_linux_elf_image
flatten-IsImage elf base p e short apart =
    let bounded : IsBounded p = rw e at (parse-IsBounded elf) in
    rw e (
      Outcome-raise_if (IsImage elf base p) _ entry_outside _ refl (λ inside.
        let virtual_base = p.lowest / page_size * page_size in
        let fits =
          all_fit virtual_base p.lowest p.highest p.segments (omega arith) bounded.from_lowest
            bounded.to_highest short in
        let blank = zeroes (align_up (p.highest - virtual_base)) in
        record {
          size_is = copy_segments-size elf virtual_base p.segments blank fits;
          segments_are = copy_segments-IsLoaded elf virtual_base p.segments blank fits apart;
          entry_from = ground arith;
          entry_below = ground arith;
        }))
