-- ===== src/Boot/Partition/Reader.antt =====
-- A reader of the partition, hdl/little64_cores/litex_linux_boot.py, that knows its geometry and
-- follows the chains in the bytes of a copy of the table.
use little.Base.{ℕ, ◌+◌, ◌*◌, ◌≤◌, ◌<◌, List, [], ◌∷◌, ◌≡◌, arith}
use little.Boot.Bytes.{Bytes, read_number}
use little.Boot.Fat.{Payload, FileSpec, allocate, sum_clusters, clusters_of}
use little.Boot.Fat.Chain.{Each, nil, cons}
use little.Boot.Fat.Reading.{file_byte, clusters_of-room}
use little.Boot.Partition.{Geometry, Partition, first_data_sector}

-- The entry of a cluster in a copy of the table of an image.
unfoldable pub entry_in : Bytes → ℕ → ℕ → ℕ → ℕ
entry_in image fat_sectors copy cluster =
    read_number 4 image ((32 + copy * fat_sectors) * 512 + cluster * 4)

-- The boot sector gives the sectors per cluster and the size of the table; the files are those asked
-- for, and each of their bytes is found along either copy of the table.
pub record IsReadable (g : Geometry) (payloads : List Payload) (p : Partition) : Type 0 where
  pub cluster_size_is : p.image.at 13 ≡ g.sectors_per_cluster
  pub table_size_is : read_number 4 p.image 36 ≡ p.fat_sectors
  pub files_are : p.files ≡ allocate (g.sectors_per_cluster * 512) 3 payloads
  pub bytes_are :
      (copy : ℕ)
      → copy < 2
      → Each
          (λ f.
            (k : ℕ)
            → k < f.payload.content.size
            → file_byte
                (first_data_sector p.fat_sectors)
                g.sectors_per_cluster
                (entry_in p.image p.fat_sectors copy)
                p.image
                f
                k
              ≡ f.payload.content.at k)
          p.files

pub Each-map :
    {A : Type 0} (P Q : A → Type 0) (xs : List A) → ((x : A) → P x → Q x) → Each P xs → Each Q xs
Each-map P Q [] k nil = nil
Each-map P Q (x ∷ xs) k (cons h hs) = cons (k x h) (Each-map P Q xs k hs)

pub Each-both :
    {A : Type 0} (P Q : A → Type 0) (xs : List A) → Each P xs → Each Q xs → Each (λ x. P x × Q x) xs
Each-both P Q [] nil nil = nil
Each-both P Q (x ∷ xs) (cons h hs) (cons k ks) = cons (h, k) (Each-both P Q xs hs ks)

-- A file within the clusters from the third one up to `bound`, with room for its content.
pub record IsPlaced (S bound : ℕ) (f : FileSpec) : Type 0 where
  pub starts : 2 ≤ f.first_cluster
  pub ends : f.first_cluster + f.clusters ≤ bound
  pub has_room : f.payload.content.size ≤ f.clusters * S

pub allocate-IsPlaced :
    (S next bound : ℕ) (ps : List Payload)
    → 0 < S
    → 2 ≤ next
    → next + sum_clusters (allocate S next ps) ≤ bound
    → Each (IsPlaced S bound) (allocate S next ps)
unfolding allocate sum_clusters
allocate-IsPlaced S next bound [] pos two l = nil
allocate-IsPlaced S next bound (p ∷ ps) pos two l =
    cons (record { starts = two; ends = omega arith; has_room = clusters_of-room S p pos })
      (allocate-IsPlaced S (next + clusters_of S p) bound ps pos (omega arith) (omega arith))

pub sum_up : (a b c : ℕ) → a + b + c ≡ a + (b + c)
sum_up a b c = omega arith
