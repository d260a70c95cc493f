-- ===== src/Boot/Directory.antt =====
-- The root directory of the boot partition, hdl/little64_cores/litex_linux_boot.py: an entry of 32
-- bytes for each file, behind those of its long name if it has one.
use little.Base.{
  ℕ, zero, suc, ◌+◌, ◌-◌, ◌*◌, ◌/◌, ◌%◌, ◌^◌, Bool, false, not, ◌||◌, ltb, leb, ◌==◌, if◌then◌else◌,
  bit_and, bit_or, none, some, List, [], ◌∷◌, ◌++◌,
}
use little.Boot.Bytes.{Bytes, zeroes, put, put_all, of_list, little_endian}
use little.Boot.Fat.{FileSpec}
use little.Boot.Results.{
  Result, ok, ◌>>=◌, raise_if, long_name_empty, long_name_not_bmp, field_overflow, outside_view,
}

-- `checksum = (((checksum & 1) << 7) + (checksum >> 1) + value) & 0xFF`, for the bytes of the name,
-- `remaining` of them from the one at `index` on.
unfoldable pub fat32_lfn_checksum : ℕ → ℕ → Bytes → ℕ → ℕ
fat32_lfn_checksum zero index short_name checksum = checksum
fat32_lfn_checksum (suc remaining) index short_name checksum =
    fat32_lfn_checksum remaining (index + 1) short_name
      (bit_and (bit_and checksum 1 * 2 ^ 7 + checksum / 2 + short_name.at index) 0xff)

-- The unit at a position of a long name: behind the name a 0, and then 0xFFFF.
unfoldable pub unit_at : List ℕ → ℕ → ℕ
unit_at [] zero = 0
unit_at [] (suc k) = 0xffff
unit_at (x ∷ xs) zero = x
unit_at (x ∷ xs) (suc k) = unit_at xs k

unfoldable pub name_length : List ℕ → ℕ
name_length [] = 0
name_length (x ∷ xs) = suc (name_length xs)

unfoldable pub has_long_unit : List ℕ → Bool
has_long_unit [] = false
has_long_unit (x ∷ xs) = ltb 0xffff x || has_long_unit xs

-- The chunks of 13 units that the name and its terminating 0 are padded to.
abbrev chunk_count : List ℕ → ℕ
chunk_count name = (name_length name + 1 + 12) / 13

-- `count` units of a chunk from the one at `index` on, at `offset` of the entry.
unfoldable pub put_units : ℕ → List ℕ → ℕ → ℕ → Bytes → Bytes
put_units zero name index offset entry = entry
put_units (suc count) name index offset entry =
    put_units count name (index + 1) (offset + 2)
      (put entry offset (little_endian 2 (unit_at name index)))

unfoldable pub lfn_entry : List ℕ → Bytes → ℕ → ℕ → Bytes
lfn_entry name short_name reverse_index sequence =
    let first_unit = 13 * (chunk_count name - reverse_index - 1) in
    let header = put_all (zeroes 32) (
      (0, of_list (sequence ∷ []))
      ∷ (11, of_list (0x0f ∷ []))
      ∷ (12, of_list (0x00 ∷ []))
      ∷ (13, of_list (fat32_lfn_checksum short_name.size 0 short_name 0 ∷ []))
      ∷ []) in
    put_units 2 name (first_unit + 11) 28
      (put_units 6 name (first_unit + 5) 14 (put_units 5 name first_unit 1 header))

-- The entries of a long name, the last chunk first.
unfoldable pub lfn_entries_from : ℕ → List ℕ → Bytes → ℕ → Result (List Bytes)
lfn_entries_from zero name short_name reverse_index = ok []
lfn_entries_from (suc remaining) name short_name reverse_index =
    let sequence =
      if reverse_index == 0
      then bit_or (chunk_count name - reverse_index) 0x40
      else chunk_count name - reverse_index in
    let rest = lfn_entries_from remaining name short_name (reverse_index + 1) in
    raise_if (ltb 0xff sequence) field_overflow
      (do entries ← rest; ok (lfn_entry name short_name reverse_index sequence ∷ entries))

unfoldable pub build_fat32_lfn_entries : List ℕ → Bytes → Result (List Bytes)
build_fat32_lfn_entries name short_name = raise_if (name_length name == 0) long_name_empty (
    raise_if (has_long_unit name) long_name_not_bmp
      (lfn_entries_from (chunk_count name) name short_name 0))

-- A short name has 11 bytes.
unfoldable pub build_fat32_file_dir_entry : FileSpec → Result Bytes
build_fat32_file_dir_entry f = raise_if (leb (2 ^ 32) f.payload.content.size) field_overflow (
    ok (
      put_all (zeroes 32) (
        (0, f.payload.short_name)
        ∷ (11, of_list (0x20 ∷ []))
        ∷ (20, little_endian 2 (f.first_cluster / 2 ^ 16 % 2 ^ 16))
        ∷ (26, little_endian 2 (f.first_cluster % 2 ^ 16))
        ∷ (28, little_endian 4 f.payload.content.size)
        ∷ [])))

-- The entries of one file.
unfoldable pub file_entries : FileSpec → Result (List Bytes)
file_entries f = do
  long ← elim f.payload.long_name [
    | none ↦ ok []
    | some name ↦ build_fat32_lfn_entries name f.payload.short_name
  ]
  short ← build_fat32_file_dir_entry f
  ok (long ++ (short ∷ []))

-- `root_dir[dir_offset:dir_offset + 32] = entry` and `dir_offset += 32`, for each entry. A slice of a
-- view takes only data of its own length.
unfoldable pub put_entries : List Bytes → ℕ → Bytes → Result (ℕ × Bytes)
put_entries [] dir_offset root_dir = ok (dir_offset, root_dir)
put_entries (entry ∷ rest) dir_offset root_dir =
    raise_if (ltb root_dir.size (dir_offset + 32) || not (entry.size == 32)) outside_view
      (put_entries rest (dir_offset + 32) (put root_dir dir_offset entry))

unfoldable pub write_directory : List FileSpec → ℕ → Bytes → Result Bytes
write_directory [] dir_offset root_dir =
    raise_if (leb root_dir.size dir_offset) outside_view
      (ok (put root_dir dir_offset (of_list (0 ∷ []))))
write_directory (f ∷ rest) dir_offset root_dir = do
  entries ← file_entries f
  after ← put_entries entries dir_offset root_dir
  write_directory rest after.0 after.1
