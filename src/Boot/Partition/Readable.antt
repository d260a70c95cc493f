-- ===== src/Boot/Partition/Readable.antt =====
-- The partition of hdl/little64_cores/litex_linux_boot.py, once it is built, gives a reader every file.
use little.Base.{ℕ, ◌+◌, ◌-◌, ◌*◌, ◌^◌, ◌≤◌, ◌<◌, List, ◌≡◌, refl, sym, ap, ◌∙◌, arith}
use native.Mathlib.Nat.{mul-le-mul_left}
use little.Boot.Bytes.{Bytes, zeroes, read_number-eq}
use little.Boot.Fat.{
  Payload, FileSpec, allocate, sum_clusters, fat_entries, lowest_end_mark, sector_size, sized,
  negative, unfinished, FatSize, fat_size_sectors, write_files, cluster_offset, clusters_of,
  Written,
}
use little.Boot.Fat as Fat
use little.Boot.Fat.Size.{IsAdequate, fat_size_sectors-IsAdequate}
use little.Boot.Fat.Chain.{IsChain, fat_entries-IsChain}
use little.Boot.Fat.Reading.{file_byte, file_byte-at, AreRead, write_files-AreRead}
use little.Boot.Partition.{
  Geometry, Partition, prepared, first_data_sector, write_entries, boot_sector, fill_partition,
  finish, with_size, build_partition,
}
use little.Boot.Directory.{write_directory}
use little.Boot.Partition.Table.{HasEntries, write_entries-HasEntries, fat_entries-AllFit}
use little.Boot.Partition.Sectors.{write_directory-Outcome, fsinfo_sector-size}
use little.Boot.Partition.BootSector.{IsBootSector, boot_sector-IsBootSector}
use little.Boot.Partition.Layout.{IsLaidOut, prepared-size, prepared-at, prepared_sector}
use little.Boot.Results.{
  ok, ◌>>=◌, Outcome, Outcome_then, Outcome-raise_if, files_do_not_fit, partition_too_small,
  sectors_per_cluster_error, volume_label_error,
}
use little.Boot.Partition.Reader.{
  entry_in, IsReadable, Each-map, Each-both, IsPlaced, allocate-IsPlaced, sum_up,
}

module _ (g : Geometry) (ps : List Payload) (fat_sectors cluster_count : ℕ)
    (pos : 0 < g.sectors_per_cluster) (label : g.volume_label.size ≡ 11) (big : 1 ≤ cluster_count)
    (table : (cluster_count + 2) * 4 ≤ fat_sectors * 512)
    (fits : 32 + 2 * fat_sectors + cluster_count * g.sectors_per_cluster
      ≤ g.boot_partition_sector_count)
    (short : g.boot_partition_sector_count ≤ lowest_end_mark) where
  abbrev S : ℕ
  S = g.sectors_per_cluster * 512

  abbrev files : List FileSpec
  files = allocate S 3 ps

  -- The table in the image.
  entry_in-eq :
      (image sector fsinfo fat_bytes root_dir : Bytes) (copy c : ℕ)
      → IsLaidOut g fat_sectors cluster_count sector fsinfo fat_bytes root_dir
      → HasEntries (zeroes (fat_sectors * 512)) 0 (cluster_count + 2) (fat_entries files) fat_bytes
      → ((k : ℕ)
          → k < first_data_sector fat_sectors * 512
          → image.at k ≡ (prepared g fat_sectors sector fsinfo fat_bytes root_dir).at k)
      → fat_entries files c < 2 ^ 32
      → copy < 2
      → c < cluster_count + 2
      → entry_in image fat_sectors copy c ≡ fat_entries files c
  unfolding entry_in
  entry_in-eq image sector fsinfo fat_bytes root_dir copy c laid t same small two l =
      let one : copy ≤ 1 = omega arith in
      let product : fat_sectors * copy ≤ fat_sectors * 1 = mul-le-mul_left fat_sectors one in
      read_number-eq 4 image _ (fat_entries files c) (λ k b.
        ap image.at (sum_up ((32 + copy * fat_sectors) * 512) (c * 4) k)
        ∙ same ((32 + copy * fat_sectors) * 512 + (c * 4 + k)) (omega arith)
        ∙ prepared-at g fat_sectors cluster_count sector fsinfo fat_bytes root_dir laid copy
            (c * 4 + k) two (omega arith)
        ∙ t.digits c k (omega arith) l b)
      ∙ omega (arith, small)

  IsChain-entry_in :
      (image : Bytes) (copy : ℕ) (f : FileSpec)
      → ((c : ℕ) → c < cluster_count + 2 → entry_in image fat_sectors copy c ≡ fat_entries files c)
      → IsPlaced S cluster_count f
      → IsChain (fat_entries files) f
      → IsChain (entry_in image fat_sectors copy) f
  IsChain-entry_in image copy f same placed chain c above below =
      same c (omega (arith, placed.ends)) ∙ chain c above below

  -- A byte of a file by the table of the image.
  read_byte :
      (image : Bytes) (copy : ℕ) (f : FileSpec) (k : ℕ)
      → ((c : ℕ) → c < cluster_count + 2 → entry_in image fat_sectors copy c ≡ fat_entries files c)
      → IsPlaced S cluster_count f
      → IsChain (fat_entries files) f
      → k < f.payload.content.size
      → file_byte
          (first_data_sector fat_sectors)
          g.sectors_per_cluster
          (entry_in image fat_sectors copy)
          image
          f
          k
        ≡ file_byte
            (first_data_sector fat_sectors)
            g.sectors_per_cluster
            (fat_entries files)
            image
            f
            k
  read_byte image copy f k same placed chain l =
      let inside : k < f.clusters * S = omega (arith, placed.has_room) in
      file_byte-at (first_data_sector fat_sectors) g.sectors_per_cluster
        (entry_in image fat_sectors copy) image f k pos placed.starts
        (IsChain-entry_in image copy f same placed chain) inside
      ∙ sym (
          file_byte-at (first_data_sector fat_sectors) g.sectors_per_cluster (fat_entries files)
            image f k pos placed.starts chain inside)

  abbrev result_of : Bytes → Partition
  result_of image = record {
    image = image;
    files = files;
    fat_sectors = fat_sectors;
    cluster_count = cluster_count;
  }

  module _ (enough : 3 + sum_clusters files ≤ cluster_count) where
    few_clusters : 3 + sum_clusters files ≤ lowest_end_mark
    few_clusters = omega (arith, mul-le-mul_left cluster_count pos)

    written-IsReadable :
        (image sector fsinfo fat_bytes root_dir : Bytes)
        → IsLaidOut g fat_sectors cluster_count sector fsinfo fat_bytes root_dir
        → HasEntries
            (zeroes (fat_sectors * 512))
            0
            (cluster_count + 2)
            (fat_entries files)
            fat_bytes
        → AreRead
            (first_data_sector fat_sectors)
            g.sectors_per_cluster
            (fat_entries files)
            files
            3
            (prepared g fat_sectors sector fsinfo fat_bytes root_dir)
            (Fat.ok image)
        → IsBootSector g fat_sectors sector
        → IsReadable g ps (result_of image)
    written-IsReadable image sector fsinfo fat_bytes root_dir laid t r boot = record {
      cluster_size_is =
          r.1 13 (omega arith)
          ∙ prepared_sector g fat_sectors cluster_count sector fsinfo fat_bytes root_dir laid 13
              (omega arith)
          ∙ boot.clusters_at;
      table_size_is =
          read_number-eq 4 image 36 fat_sectors (λ k l.
            r.1 (36 + k) (omega arith)
            ∙ prepared_sector g fat_sectors cluster_count sector fsinfo fat_bytes root_dir laid
                (36 + k) (omega arith)
            ∙ boot.table_at k l)
          ∙ omega (arith, boot.table_fits);
      files_are = refl;
      bytes_are = λ copy two.
          let same = λ (c : ℕ) (l : c < cluster_count + 2).
            entry_in-eq image sector fsinfo fat_bytes root_dir copy c laid t
              (λ k b. r.1 k (omega arith)) (fat_entries-AllFit S 3 ps c few_clusters) two l in
          Each-map _ _ files (λ f h k l. read_byte image copy f k same h.0 h.1.0 l ∙ h.1.1 k l)
            (Each-both _ _ files
              (allocate-IsPlaced S 3 cluster_count ps (omega arith) (omega arith) enough)
              (Each-both _ _ files (fat_entries-IsChain S 3 ps) r.2));
    }

    AreRead-finish :
        (before : Bytes) (w : Written)
        → AreRead
            (first_data_sector fat_sectors)
            g.sectors_per_cluster
            (fat_entries files)
            files
            3
            before
            w
        → Outcome
            (λ image.
              AreRead
                (first_data_sector fat_sectors)
                g.sectors_per_cluster
                (fat_entries files)
                files
                3
                before
                (Fat.ok image))
            (finish w)
    AreRead-finish before (Fat.ok image) h = h
    AreRead-finish before Fat.chain_ended h = absurd h
    AreRead-finish before Fat.out_of_fuel h = absurd h

    all_room :
        cluster_offset
          (first_data_sector fat_sectors)
          g.sectors_per_cluster
          (3 + sum_clusters files)
        ≤ g.boot_partition_sector_count * 512
    all_room =
        let shift : 3 + sum_clusters files - 2 ≡ 1 + sum_clusters files = omega arith in
        let fewer : 1 + sum_clusters files ≤ cluster_count = omega arith in
        let product = mul-le-mul_left g.sectors_per_cluster fewer in
        rw shift (omega (arith, product))

    -- The data of the files, once the parts before them are there.
    filled-Outcome :
        (sector fsinfo fat_bytes root_dir : Bytes)
        → IsLaidOut g fat_sectors cluster_count sector fsinfo fat_bytes root_dir
        → HasEntries
            (zeroes (fat_sectors * 512))
            0
            (cluster_count + 2)
            (fat_entries files)
            fat_bytes
        → IsBootSector g fat_sectors sector
        → Outcome (IsReadable g ps) (
            finish (
              write_files
                (first_data_sector fat_sectors)
                g.sectors_per_cluster
                (fat_entries files)
                files
                (prepared g fat_sectors sector fsinfo fat_bytes root_dir))
            >>= λ image. ok (result_of image))
    filled-Outcome sector fsinfo fat_bytes root_dir laid t boot =
        let before = prepared g fat_sectors sector fsinfo fat_bytes root_dir in
        let size =
          prepared-size g fat_sectors cluster_count sector fsinfo fat_bytes root_dir laid in
        Outcome_then _ (IsReadable g ps) _ (λ image. ok (result_of image))
          (AreRead-finish before _ (
            write_files-AreRead (first_data_sector fat_sectors) g.sectors_per_cluster
              (fat_entries files) pos ps 3 before (fat_entries-IsChain S 3 ps) (omega arith)
              few_clusters (rw size all_room)))
          (λ image r. written-IsReadable image sector fsinfo fat_bytes root_dir laid t r boot)

  fill_partition-Outcome : Outcome (IsReadable g ps) (fill_partition g fat_sectors cluster_count ps)
  unfolding fill_partition
  fill_partition-Outcome = Outcome-raise_if (IsReadable g ps) _ files_do_not_fit _ refl (λ room.
      let enough : 3 + sum_clusters files ≤ cluster_count = ground arith in
      let whole = zeroes (fat_sectors * 512) in
      let start : 0 + (cluster_count + 2) ≡ cluster_count + 2 = omega arith in
      Outcome_then (HasEntries whole 0 (cluster_count + 2) (fat_entries files)) (IsReadable g ps)
        (write_entries (cluster_count + 2) 0 (fat_entries files) whole) _
        (rw start at (
          write_entries-HasEntries (cluster_count + 2) 0 (fat_entries files) whole
            (λ c. fat_entries-AllFit S 3 ps c (few_clusters enough)) (omega arith)))
        (λ fat_bytes t.
          Outcome_then (IsBootSector g fat_sectors) (IsReadable g ps) (boot_sector g fat_sectors) _
            (boot_sector-IsBootSector g fat_sectors label)
            (λ sector boot.
              Outcome_then (λ b. b.size ≡ S) (IsReadable g ps) (write_directory files 0 (zeroes S))
                _ (write_directory-Outcome files 0 (zeroes S))
                (λ root_dir root_size.
                  filled-Outcome enough sector _ fat_bytes root_dir
                    (record {
                      sector_is = boot.size_is;
                      fsinfo_is = fsinfo_sector-size _ _;
                      fat_is = t.same_size;
                      root_is = root_size;
                      has_clusters = big;
                      fits = fits;
                    })
                    t boot))))

with_size-Outcome :
    (g : Geometry) (ps : List Payload) (size : FatSize)
    → 0 < g.sectors_per_cluster
    → g.volume_label.size ≡ 11
    → g.boot_partition_sector_count ≤ lowest_end_mark
    → IsAdequate g.boot_partition_sector_count 32 2 g.sectors_per_cluster size
    → Outcome (IsReadable g ps) (with_size g ps size)
with_size-Outcome g ps (sized fat_sectors cluster_count) pos label short adequate =
    Outcome-raise_if (IsReadable g ps) _ partition_too_small _ refl (λ many.
      fill_partition-Outcome g ps fat_sectors cluster_count pos label (ground arith) adequate.0
        adequate.1 short)
with_size-Outcome g ps (negative fat_sectors) pos label short adequate = refl
with_size-Outcome g ps unfinished pos label short adequate = absurd adequate

-- For any files, and any parameters with fewer sectors than there are cluster numbers: either an
-- error is reported that the arguments cause, never one of a chain that ends early and never for want
-- of fuel; or a partition comes out whose boot sector gives the sectors per cluster and the size of the
-- table, and in which each byte of each file is found by a reader that follows the chains in the bytes
-- of either copy of the table.
pub build_partition-IsReadable :
    (g : Geometry) (ps : List Payload)
    → g.boot_partition_sector_count ≤ lowest_end_mark
    → Outcome (IsReadable g ps) (build_partition g ps)
unfolding build_partition
build_partition-IsReadable g ps short =
    Outcome-raise_if (IsReadable g ps) _ sectors_per_cluster_error _ refl (λ some_sectors.
      Outcome-raise_if (IsReadable g ps) _ volume_label_error _ refl (λ label.
        let pos : 0 < g.sectors_per_cluster = ground arith in
        with_size-Outcome g ps _ pos (ground arith) short (
          fat_size_sectors-IsAdequate g.boot_partition_sector_count 32 2 g.sectors_per_cluster
            pos)))
