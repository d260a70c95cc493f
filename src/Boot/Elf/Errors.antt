-- ===== src/Boot/Elf/Errors.antt =====
-- The errors of the reading of the kernel's file: no internal ones.
use little.Base.{
  ℕ, zero, suc, ◌+◌, ◌*◌, Bool, true, not, ◌==◌, List, [], ◌∷◌, refl, Bool-cases, inl, inr,
}
use little.Boot.Bytes.{Bytes, read_number}
use little.Boot.Elf.{
  Segment, load_segments, with_segments, parse_little64_elf_load_segments,
  flatten_little64_linux_elf_image,
}
use little.Boot.Results.{
  Outcome, Outcome_then, Outcome-raise_if, image_too_small, bad_magic, bad_class, bad_machine,
  headers_beyond_file, entry_outside, outside_view, segment_beyond_file,
}

-- The result of reading the kernel's file: no internal error.
abbrev pub Anything : {A : Type 0} → A → Type 0
Anything a = Bool

pub load_segments-Outcome :
    (remaining index : ℕ) (elf : Bytes) (phoff phentsize : ℕ)
    → Outcome Anything (load_segments remaining index elf phoff phentsize)
unfolding load_segments
load_segments-Outcome zero index elf phoff phentsize = true
load_segments-Outcome (suc remaining) index elf phoff phentsize =
    Outcome-raise_if Anything _ outside_view _ refl (λ inside.
      elim (Bool-cases (not (read_number 4 elf (phoff + index * phentsize) == 1))) [
        | inl skipped ↦ rw skipped (load_segments-Outcome remaining (index + 1) elf phoff phentsize)
        | inr loaded ↦ rw loaded (
            Outcome-raise_if Anything _ segment_beyond_file _ refl (λ fits.
              Outcome_then Anything Anything
                (load_segments remaining (index + 1) elf phoff phentsize) _
                (load_segments-Outcome remaining (index + 1) elf phoff phentsize)
                (λ segments h. true)))
      ])

with_segments-Outcome :
    (entry : ℕ) (segments : List Segment) → Outcome Anything (with_segments entry segments)
with_segments-Outcome entry [] = refl
with_segments-Outcome entry (s ∷ segments) = true

parse-Outcome : (elf : Bytes) → Outcome Anything (parse_little64_elf_load_segments elf)
unfolding parse_little64_elf_load_segments
parse-Outcome elf = Outcome-raise_if Anything _ image_too_small _ refl (λ a.
    Outcome-raise_if Anything _ bad_magic _ refl (λ b.
      Outcome-raise_if Anything _ bad_class _ refl (λ c.
        Outcome-raise_if Anything _ bad_machine _ refl (λ d.
          Outcome-raise_if Anything _ headers_beyond_file _ refl (λ e.
            Outcome_then Anything Anything
              (load_segments (read_number 2 elf 56) 0 elf (read_number 8 elf 32)
                (read_number 2 elf 54))
              _
              (load_segments-Outcome (read_number 2 elf 56) 0 elf (read_number 8 elf 32)
                (read_number 2 elf 54))
              (λ segments h. with_segments-Outcome (read_number 8 elf 24) segments))))))

pub flatten-Outcome :
    (elf : Bytes) (base : ℕ) → Outcome Anything (flatten_little64_linux_elf_image elf base)
unfolding flatten_little64_linux_elf_image
flatten-Outcome elf base =
    Outcome_then Anything Anything (parse_little64_elf_load_segments elf) _ (parse-Outcome elf)
      (λ parsed h. Outcome-raise_if Anything _ entry_outside _ refl (λ inside. true))
