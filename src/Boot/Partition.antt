-- ===== src/Boot/Partition.antt =====
-- The boot partition as bytes, `_build_fat32_boot_partition` of
-- hdl/little64_cores/litex_linux_boot.py, for the files that the boot format puts into it: the boot
-- sector, the two copies of the table, the root directory and the data of the files.
pub mod Table
pub mod Sectors
pub mod BootSector
pub mod Layout
pub mod Reader
pub mod Readable
use little.Base.{ℕ, zero, suc, ◌+◌, ◌-◌, ◌*◌, ◌^◌, Bool, not, ◌||◌, ltb, leb, ◌==◌, List, [], ◌∷◌}
use little.Boot.Bytes.{Bytes, zeroes, put, put_all, of_list, little_endian}
use little.Boot.Fat.{
  FatSize, sized, negative, unfinished, fat_size_sectors, Payload, FileSpec, allocate, sum_clusters,
  used_cluster_count, fat_entries, Written, write_files, sector_size, root_dir_cluster,
}
use little.Boot.Fat as Fat
use little.Boot.Directory.{write_directory}
use little.Boot.Results.{
  Error, Result, ok, err, ◌>>=◌, raise_if, sectors_per_cluster_error, volume_label_error,
  partition_too_small, files_do_not_fit, field_overflow, out_of_fuel, chain_ended,
}

abbrev pub reserved_sectors : ℕ
reserved_sectors = 32

abbrev pub num_fats : ℕ
num_fats = 2

-- The table as bytes: `_write_u32_le` for `remaining` entries from the one at `index` on.
unfoldable pub write_entries : ℕ → ℕ → (ℕ → ℕ) → Bytes → Result Bytes
write_entries zero index entries fat_bytes = ok fat_bytes
write_entries (suc remaining) index entries fat_bytes =
    let rest =
      write_entries remaining (index + 1) entries
        (put fat_bytes (index * 4) (little_endian 4 (entries index))) in
    raise_if (leb (2 ^ 32) (entries index)) field_overflow rest

-- The parameters of the partition.
pub record Geometry : Type 0 where
  pub boot_partition_lba : ℕ
  pub boot_partition_sector_count : ℕ
  pub sectors_per_cluster : ℕ
  pub volume_label : Bytes

unfoldable pub boot_sector : Geometry → ℕ → Result Bytes
boot_sector g fat_sectors =
    raise_if
      (ltb 0xff g.sectors_per_cluster
        || leb (2 ^ 32) g.boot_partition_lba
        || leb (2 ^ 32) g.boot_partition_sector_count
        || leb (2 ^ 32) fat_sectors)
      field_overflow
      (ok (
        put_all (zeroes sector_size) (
          (0, of_list (0xeb ∷ 0x58 ∷ 0x90 ∷ []))
          ∷ (3, of_list (0x4c ∷ 0x36 ∷ 0x34 ∷ 0x46 ∷ 0x41 ∷ 0x54 ∷ 0x33 ∷ 0x32 ∷ []))
          ∷ (11, little_endian 2 sector_size)
          ∷ (13, of_list (g.sectors_per_cluster ∷ []))
          ∷ (14, little_endian 2 reserved_sectors)
          ∷ (16, of_list (num_fats ∷ []))
          ∷ (17, little_endian 2 0)
          ∷ (19, little_endian 2 0)
          ∷ (21, of_list (0xf8 ∷ []))
          ∷ (22, little_endian 2 0)
          ∷ (24, little_endian 2 63)
          ∷ (26, little_endian 2 255)
          ∷ (28, little_endian 4 g.boot_partition_lba)
          ∷ (32, little_endian 4 g.boot_partition_sector_count)
          ∷ (36, little_endian 4 fat_sectors)
          ∷ (40, little_endian 2 0)
          ∷ (42, little_endian 2 0)
          ∷ (44, little_endian 4 root_dir_cluster)
          ∷ (48, little_endian 2 1)
          ∷ (50, little_endian 2 6)
          ∷ (64, of_list (0x80 ∷ []))
          ∷ (66, of_list (0x29 ∷ []))
          ∷ (67, little_endian 4 0x4c36_3444)
          ∷ (71, g.volume_label)
          ∷ (82, of_list (0x46 ∷ 0x41 ∷ 0x54 ∷ 0x33 ∷ 0x32 ∷ 0x20 ∷ 0x20 ∷ 0x20 ∷ []))
          ∷ (510, of_list (0x55 ∷ 0xaa ∷ []))
          ∷ [])))

unfoldable pub fsinfo_sector : ℕ → ℕ → Bytes
fsinfo_sector free_clusters next_cluster = put_all (zeroes sector_size) (
    (0, of_list (0x52 ∷ 0x52 ∷ 0x61 ∷ 0x41 ∷ []))
    ∷ (484, of_list (0x72 ∷ 0x72 ∷ 0x41 ∷ 0x61 ∷ []))
    ∷ (488, little_endian 4 free_clusters)
    ∷ (492, little_endian 4 next_cluster)
    ∷ (510, of_list (0x55 ∷ 0xaa ∷ []))
    ∷ [])

abbrev pub first_data_sector : ℕ → ℕ
first_data_sector fat_sectors = reserved_sectors + num_fats * fat_sectors

-- The views of the partition are written back at their places. The backups come before the tables.
abbrev pub prepared : Geometry → ℕ → Bytes → Bytes → Bytes → Bytes → Bytes
prepared g fat_sectors sector fsinfo fat_bytes root_dir =
    put_all (zeroes (g.boot_partition_sector_count * sector_size)) (
      (0, sector)
      ∷ (sector_size, fsinfo)
      ∷ (6 * sector_size, sector)
      ∷ (7 * sector_size, fsinfo)
      ∷ (reserved_sectors * sector_size, fat_bytes)
      ∷ ((reserved_sectors + fat_sectors) * sector_size, fat_bytes)
      ∷ (first_data_sector fat_sectors * sector_size, root_dir)
      ∷ [])

pub record Partition : Type 0 where
  pub image : Bytes
  pub files : List FileSpec
  pub fat_sectors : ℕ
  pub cluster_count : ℕ

abbrev pub finish : Written → Result Bytes
finish (Fat.ok image) = ok image
finish Fat.chain_ended = err chain_ended
finish Fat.out_of_fuel = err out_of_fuel

-- What follows the choice of the size: the files, the table, the sectors and the data.
unfoldable pub fill_partition : Geometry → ℕ → ℕ → List Payload → Result Partition
fill_partition g fat_sectors cluster_count payloads =
    let cluster_size = g.sectors_per_cluster * sector_size in
    let files = allocate cluster_size (root_dir_cluster + 1) payloads in
    let used = used_cluster_count files in
    raise_if (ltb cluster_count (used + 2)) files_do_not_fit (do
      fat_bytes ←
          write_entries (cluster_count + 2) 0 (fat_entries files)
            (zeroes (fat_sectors * sector_size))
      sector ← boot_sector g fat_sectors
      root_dir ← write_directory files 0 (zeroes cluster_size)
      let fsinfo = fsinfo_sector (cluster_count - used) (root_dir_cluster + 1 + sum_clusters files)
      image ← finish (
          write_files (first_data_sector fat_sectors) g.sectors_per_cluster (fat_entries files)
            files (prepared g fat_sectors sector fsinfo fat_bytes root_dir))
      ok (record {
        image = image;
        files = files;
        fat_sectors = fat_sectors;
        cluster_count = cluster_count;
      }))

abbrev pub with_size : Geometry → List Payload → FatSize → Result Partition
with_size g payloads (sized fat_sectors cluster_count) =
    raise_if (ltb cluster_count 65525) partition_too_small
      (fill_partition g fat_sectors cluster_count payloads)
with_size g payloads (negative fat_sectors) = err partition_too_small
with_size g payloads unfinished = err out_of_fuel

unfoldable pub build_partition : Geometry → List Payload → Result Partition
build_partition g payloads = raise_if (g.sectors_per_cluster == 0) sectors_per_cluster_error (
    raise_if (not (g.volume_label.size == 11)) volume_label_error (
      with_size g payloads (
        fat_size_sectors g.boot_partition_sector_count reserved_sectors num_fats
          g.sectors_per_cluster)))
