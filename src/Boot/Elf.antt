-- ===== src/Boot/Elf.antt =====
-- The kernel's ELF file and its image in memory, hdl/little64_cores/litex_linux_boot.py.
pub mod Errors
pub mod Loading
use little.Base.{
  ℕ, zero, suc, ◌+◌, ◌-◌, ◌*◌, ◌/◌, Bool, true, false, not, ◌&&◌, ◌||◌, ltb, leb, ◌==◌,
  if◌then◌else◌, List, [], ◌∷◌,
}
use little.Boot.Bytes.{Bytes, zeroes, put, part, read_number}
use little.Boot.Results.{
  Error, Result, ok, err, ◌>>=◌, raise_if, image_too_small, bad_magic, bad_class, bad_machine,
  headers_beyond_file, segment_beyond_file, no_segments, entry_outside, outside_view,
}

abbrev pub em_little64 : ℕ
em_little64 = 0x4c36

abbrev pub pt_load : ℕ
pt_load = 1

abbrev pub page_size : ℕ
page_size = 4096

-- `(value + alignment - 1) & -alignment` at the size of a page, a power of two.
abbrev pub align_up : ℕ → ℕ
align_up value = (value + page_size - 1) / page_size * page_size

pub record Segment : Type 0 where
  pub offset : ℕ
  pub vaddr : ℕ
  pub filesz : ℕ
  pub memsz : ℕ

-- The program headers, `remaining` of them from the one at `index` on. One that is cut off by the end
-- of the file does not unpack.
unfoldable pub load_segments : ℕ → ℕ → Bytes → ℕ → ℕ → Result (List Segment)
load_segments zero index elf phoff phentsize = ok []
load_segments (suc remaining) index elf phoff phentsize =
    let at = phoff + index * phentsize in
    let p_offset = read_number 8 elf (at + 8) in
    let p_filesz = read_number 8 elf (at + 32) in
    let segment : Segment = record {
      offset = p_offset;
      vaddr = read_number 8 elf (at + 16);
      filesz = p_filesz;
      memsz = read_number 8 elf (at + 40);
    } in
    let rest = load_segments remaining (index + 1) elf phoff phentsize in
    raise_if (ltb elf.size (at + 56)) outside_view (
      if not (read_number 4 elf at == pt_load)
      then rest
      else raise_if (ltb elf.size (p_offset + p_filesz)) segment_beyond_file
          (do segments ← rest; ok (segment ∷ segments)))

-- The lowest address of some segments, and the highest end.
unfoldable pub min_vaddr : Segment → List Segment → ℕ
min_vaddr s [] = s.vaddr
min_vaddr s (t ∷ rest) =
    let lowest = min_vaddr t rest in if ltb s.vaddr lowest then s.vaddr else lowest

unfoldable pub max_vaddr : List Segment → ℕ
max_vaddr [] = 0
max_vaddr (s ∷ rest) =
    let highest = max_vaddr rest in
    if ltb highest (s.vaddr + s.memsz) then s.vaddr + s.memsz else highest

pub record Parsed : Type 0 where
  pub entry : ℕ
  pub segments : List Segment
  pub lowest : ℕ
  pub highest : ℕ

abbrev pub with_segments : ℕ → List Segment → Result Parsed
with_segments entry [] = err no_segments
with_segments entry (s ∷ rest) = ok (record {
  entry = entry;
  segments = s ∷ rest;
  lowest = min_vaddr s rest;
  highest = max_vaddr (s ∷ rest);
})

unfoldable pub parse_little64_elf_load_segments : Bytes → Result Parsed
parse_little64_elf_load_segments elf =
    let phoff = read_number 8 elf 32 in
    let phentsize = read_number 2 elf 54 in
    let phnum = read_number 2 elf 56 in
    raise_if (ltb elf.size 64) image_too_small (
      raise_if (not (read_number 4 elf 0 == 0x464c_457f)) bad_magic (
        raise_if (not (elf.at 4 == 2) || not (elf.at 5 == 1)) bad_class (
          raise_if (not (read_number 2 elf 18 == em_little64)) bad_machine (
            raise_if (ltb elf.size (phoff + phnum * phentsize)) headers_beyond_file (do
              segments ← load_segments phnum 0 elf phoff phentsize
              with_segments (read_number 8 elf 24) segments)))))

-- The segments copied into the image, in the order of their headers.
unfoldable pub copy_segments : Bytes → ℕ → List Segment → Bytes → Bytes
copy_segments elf virtual_base [] image = image
copy_segments elf virtual_base (s ∷ rest) image =
    copy_segments elf virtual_base rest
      (put image (s.vaddr - virtual_base) (part elf s.offset s.filesz))

pub record LinuxElfImage : Type 0 where
  pub image : Bytes
  pub image_span : ℕ
  pub virtual_base : ℕ
  pub entry_physical : ℕ

unfoldable pub flatten_little64_linux_elf_image : Bytes → ℕ → Result LinuxElfImage
flatten_little64_linux_elf_image elf kernel_physical_base = do
  parsed ← parse_little64_elf_load_segments elf
  let virtual_base = parsed.lowest / page_size * page_size
  let image_span = align_up (parsed.highest - virtual_base)
  let image = copy_segments elf virtual_base parsed.segments (zeroes image_span)
  let is_virtual = leb virtual_base parsed.entry && ltb parsed.entry (virtual_base + image_span)
  let is_physical =
      leb kernel_physical_base parsed.entry && ltb parsed.entry (kernel_physical_base + image_span)
  raise_if (not (is_virtual || is_physical)) entry_outside (
      ok (record {
        image = image;
        image_span = image_span;
        virtual_base = virtual_base;
        entry_physical =
            if is_virtual
            then kernel_physical_base + (parsed.entry - virtual_base)
            else parsed.entry;
      }))
