-- ===== src/Boot/Fat.antt =====
-- The FAT file system of the boot partition, hdl/little64_cores/litex_linux_boot.py: its size, the
-- clusters of the files, the chains in the table, and the loop that writes a file along its chain.
-- The loops take fuel; `unfinished` is the result where it runs out.
pub mod Size
pub mod Chain
pub mod Files
pub mod Reading
use little.Base.{
  ℕ, zero, suc, ◌+◌, ◌-◌, ◌*◌, ◌/◌, Bool, ltb, leb, ◌==◌, if◌then◌else◌, update, Option, List, [],
  ◌∷◌,
}
use little.Boot.Bytes.{Bytes, put, part}

abbrev pub sector_size : ℕ
sector_size = 512

abbrev pub root_dir_cluster : ℕ
root_dir_cluster = 2

-- The mark of the last cluster of a file, and the lowest value that ends a chain.
abbrev pub end_mark : ℕ
end_mark = 0x0fff_ffff

abbrev pub lowest_end_mark : ℕ
lowest_end_mark = 0x0fff_fff8

abbrev pub ceil_div : ℕ → ℕ → ℕ
ceil_div value divisor = (value + divisor - 1) / divisor

-- The sectors of one table and the number of clusters. Where the tables leave no room for data, the
-- number of clusters is negative, and the loop returns, since then `required` is at most 1.
pub data FatSize : Type 0 where
  sized : ℕ → ℕ → FatSize
  negative : ℕ → FatSize
  unfinished : FatSize

abbrev pub data_sectors : ℕ → ℕ → ℕ → ℕ → ℕ
data_sectors total reserved num_fats fat_sectors = total - reserved - num_fats * fat_sectors

abbrev pub required_sectors : ℕ → ℕ
required_sectors cluster_count = ceil_div ((cluster_count + 2) * 4) sector_size

unfoldable pub fat_size_loop : ℕ → ℕ → ℕ → ℕ → ℕ → ℕ → FatSize
fat_size_loop zero total reserved num_fats sectors_per_cluster fat_sectors = unfinished
fat_size_loop (suc fuel) total reserved num_fats sectors_per_cluster fat_sectors =
    let cluster_count = data_sectors total reserved num_fats fat_sectors / sectors_per_cluster in
    let required = required_sectors cluster_count in
    let again = fat_size_loop fuel total reserved num_fats sectors_per_cluster required in
    if ltb total (reserved + num_fats * fat_sectors)
    then negative fat_sectors
    else if leb required fat_sectors
    then sized fat_sectors cluster_count
    else again

-- Two rounds are enough.
abbrev pub fat_size_sectors : ℕ → ℕ → ℕ → ℕ → FatSize
fat_size_sectors total reserved num_fats sectors_per_cluster =
    fat_size_loop 2 total reserved num_fats sectors_per_cluster 1

-- A file to be stored, and what is known of it once its clusters are chosen.
pub record Payload : Type 0 where
  pub short_name : Bytes
  pub long_name : Option (List ℕ)
  pub content : Bytes

pub record FileSpec : Type 0 where
  pub payload : Payload
  pub first_cluster : ℕ
  pub clusters : ℕ

abbrev pub clusters_of : ℕ → Payload → ℕ
clusters_of cluster_size p =
    if leb (ceil_div p.content.size cluster_size) 1 then 1 else ceil_div p.content.size cluster_size

-- The files one after the other, from the cluster `next_cluster` on.
unfoldable pub allocate : ℕ → ℕ → List Payload → List FileSpec
allocate cluster_size next_cluster [] = []
allocate cluster_size next_cluster (p ∷ rest) =
    record { payload = p; first_cluster = next_cluster; clusters = clusters_of cluster_size p }
    ∷ allocate cluster_size (next_cluster + clusters_of cluster_size p) rest

unfoldable pub sum_clusters : List FileSpec → ℕ
sum_clusters [] = 0
sum_clusters (f ∷ rest) = f.clusters + sum_clusters rest

abbrev pub used_cluster_count : List FileSpec → ℕ
used_cluster_count files = 1 + sum_clusters files

-- The entries of one file, `remaining` of them from the one at `index` on.
unfoldable pub mark_file : ℕ → ℕ → FileSpec → (ℕ → ℕ) → ℕ → ℕ
mark_file zero index f entries = entries
mark_file (suc remaining) index f entries =
    let cluster = f.first_cluster + index in
    mark_file remaining (index + 1) f
      (update entries cluster (if index == f.clusters - 1 then end_mark else cluster + 1))

unfoldable pub mark_files : List FileSpec → (ℕ → ℕ) → ℕ → ℕ
mark_files [] entries = entries
mark_files (f ∷ rest) entries = mark_files rest (mark_file f.clusters 0 f entries)

-- The table, whose unused entries are 0.
unfoldable pub fat_entries : List FileSpec → ℕ → ℕ
fat_entries files =
    mark_files files
      (update (update (update (λ c. 0) 0 0x0fff_fff8) 1 0xffff_ffff) root_dir_cluster end_mark)

pub data Written : Type 0 where
  ok : Bytes → Written
  chain_ended : Written
  out_of_fuel : Written

-- Where the data of a cluster stand in the partition.
abbrev pub cluster_offset : ℕ → ℕ → ℕ → ℕ
cluster_offset first_data_sector sectors_per_cluster cluster =
    (first_data_sector + (cluster - 2) * sectors_per_cluster) * sector_size

abbrev pub chunk_size : ℕ → ℕ → ℕ
chunk_size cluster_size left = if leb cluster_size left then cluster_size else left

module _ (first_data_sector sectors_per_cluster : ℕ) (entries : ℕ → ℕ) where
  -- The loop of `write_file`, at `payload_offset` in the content and at `cluster`.
  unfoldable pub write_loop : ℕ → Bytes → ℕ → ℕ → Bytes → Written
  write_loop zero content payload_offset cluster partition = out_of_fuel
  write_loop (suc fuel) content payload_offset cluster partition =
      let chunk = chunk_size (sectors_per_cluster * sector_size) (content.size - payload_offset) in
      let partition' =
        put partition (cluster_offset first_data_sector sectors_per_cluster cluster)
          (part content payload_offset chunk) in
      let next = write_loop fuel content (payload_offset + chunk) (entries cluster) partition' in
      if ltb payload_offset content.size
      then (if leb content.size (payload_offset + chunk)
          then ok partition'
          else if leb lowest_end_mark (entries cluster)
          then chain_ended
          else next)
      else ok partition

  -- Each round writes at least one byte, so that one round more than there are bytes is enough.
  abbrev pub write_file : FileSpec → Bytes → Written
  write_file f = write_loop (suc f.payload.content.size) f.payload.content 0 f.first_cluster

  write_next : List FileSpec → Written → Written
  write_next [] w = w
  write_next (f ∷ rest) (ok partition) = write_next rest (write_file f partition)
  write_next (f ∷ rest) w = w

  -- The files in order, up to the first that fails.
  unfoldable pub write_files : List FileSpec → Bytes → Written
  unfolding write_next
  write_files files partition = write_next files (ok partition)
