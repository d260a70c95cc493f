-- ===== src/Tests/Boot.antt =====
-- The boot images at concrete inputs.
use little.Base.{◌*◌, List, [], ◌∷◌, none, some, ◌≡◌, refl, arith}
use little.Boot.Bytes.{Bytes, part, put, put_all, little_endian, read_number, zeroes, of_list}
use little.Boot.Results.{Outcome, ok, raise_if, ◌>>=◌}
use little.Boot.Fat.{
  Payload, FileSpec, fat_size_sectors, allocate, sum_clusters, fat_entries, write_files,
}
use little.Boot.Fat.Size.{IsAdequate, fat_size_sectors-IsAdequate}
use little.Boot.Fat.Chain.{nil, cons, fat_entries-IsChain}
use little.Boot.Fat.Reading.{AreRead, write_files-AreRead}
use little.Boot.Partition.{Geometry, build_partition}
use little.Boot.Partition.Reader.{IsReadable}
use little.Boot.Partition.Readable.{build_partition-IsReadable}
use little.Boot.Elf.{
  Segment, Parsed, copy_segments, load_segments, min_vaddr, max_vaddr,
  parse_little64_elf_load_segments, flatten_little64_linux_elf_image,
}
use little.Boot.Elf.Loading.{IsImage, apart_nil, apart_cons, flatten-IsImage}
use little.Boot.Flash.{FlashInputs, pack, build_litex_flash_image}

-- 64 MiB in clusters of one sector.
fat_size_sectors-IsAdequate_example : IsAdequate 131072 32 2 1 (fat_size_sectors 131072 32 2 1)
fat_size_sectors-IsAdequate_example = fat_size_sectors-IsAdequate 131072 32 2 1 (omega arith)

-- A file of 1100 bytes, which takes three clusters, and one of three bytes.
abbrev kernel : Payload
kernel = record {
  short_name =
      of_list (0x56 ∷ 0x4d ∷ 0x4c ∷ 0x49 ∷ 0x4e ∷ 0x55 ∷ 0x58 ∷ 0x20 ∷ 0x20 ∷ 0x20 ∷ 0x20 ∷ []);
  long_name = some (0x76 ∷ 0x6d ∷ []);
  content = record { size = 1100; at = λ k. k };
}

abbrev tree : Payload
tree = record {
  short_name =
      of_list (0x42 ∷ 0x4f ∷ 0x4f ∷ 0x54 ∷ 0x20 ∷ 0x20 ∷ 0x20 ∷ 0x20 ∷ 0x44 ∷ 0x54 ∷ 0x42 ∷ []);
  long_name = none;
  content = of_list (1 ∷ 2 ∷ 3 ∷ []);
}

abbrev both : List Payload
both = kernel ∷ tree ∷ []

abbrev stored : List FileSpec
stored = allocate (1 * 512) 3 both

write_files-AreRead_example :
    AreRead 34 1
      (fat_entries stored)
      stored
      3
      (zeroes 40000)
      (write_files 34 1 (fat_entries stored) stored (zeroes 40000))
unfolding allocate sum_clusters of_list
write_files-AreRead_example =
    write_files-AreRead 34 1 (fat_entries stored) (omega arith) both 3 (zeroes 40000)
      (fat_entries-IsChain (1 * 512) 3 both) (omega arith) (omega arith) (omega arith)

abbrev geometry : Geometry
geometry = record {
  boot_partition_lba = 2048;
  boot_partition_sector_count = 131072;
  sectors_per_cluster = 1;
  volume_label = record { size = 11; at = λ k. 0x20 };
}

build_partition-IsReadable_example :
    Outcome (IsReadable geometry both) (build_partition geometry both)
build_partition-IsReadable_example = build_partition-IsReadable geometry both (omega arith)

-- An ELF file of one program header and eight bytes to load at 0x1010, with its entry there.
abbrev tiny_elf : Bytes
tiny_elf = put_all (zeroes 128) (
    (0, of_list (0x7f ∷ 0x45 ∷ 0x4c ∷ 0x46 ∷ 2 ∷ 1 ∷ []))
    ∷ (18, little_endian 2 0x4c36)
    ∷ (24, little_endian 8 0x1010)
    ∷ (32, little_endian 8 64)
    ∷ (54, little_endian 2 56)
    ∷ (56, little_endian 2 1)
    ∷ (64, little_endian 4 1)
    ∷ (72, little_endian 8 120)
    ∷ (80, little_endian 8 0x1010)
    ∷ (96, little_endian 8 8)
    ∷ (104, little_endian 8 16)
    ∷ (120, little_endian 8 0x8877_6655_4433_2211)
    ∷ [])

abbrev tiny_segment : Segment
tiny_segment = record { offset = 120; vaddr = 0x1010; filesz = 8; memsz = 16 }

abbrev tiny_parsed : Parsed
tiny_parsed = record {
  entry = 0x1010;
  segments = tiny_segment ∷ [];
  lowest = 0x1010;
  highest = 0x1020;
}

tiny_parses : parse_little64_elf_load_segments tiny_elf ≡ ok tiny_parsed
unfolding parse_little64_elf_load_segments load_segments min_vaddr max_vaddr put_all put of_list
    little_endian read_number raise_if
tiny_parses = refl

flatten-IsImage_example :
    Outcome
      (IsImage tiny_elf 0x4000_0000 tiny_parsed)
      (flatten_little64_linux_elf_image tiny_elf 0x4000_0000)
flatten-IsImage_example =
    flatten-IsImage tiny_elf 0x4000_0000 tiny_parsed tiny_parses (cons (omega arith) nil)
      (apart_cons tiny_segment [] nil apart_nil)

abbrev flash_inputs : FlashInputs
flash_inputs = record {
  stage0 = of_list (1 ∷ 2 ∷ 3 ∷ []);
  kernel_elf = tiny_elf;
  dtb = of_list (4 ∷ 5 ∷ []);
  ram_base = 0x4000_0000;
  ram_size = 0x0400_0000;
  kernel_physical_base = 0x4000_0000;
  header_offset = 0x2000;
  early_pt_scratch_pages = 30;
}

-- The builder succeeds on this file.
flash_builds : (build_litex_flash_image flash_inputs >>= λ r. ok r.dtb_flash_offset) ≡ ok 0x4000
unfolding build_litex_flash_image flatten_little64_linux_elf_image pack copy_segments part
    parse_little64_elf_load_segments load_segments min_vaddr max_vaddr put_all put of_list
    little_endian read_number raise_if
flash_builds = refl
