-- ===== src/Boot/Partition/Layout.antt =====
-- Where the copies of the table stand in the partition.
use little.Base.{ℕ, zero, suc, ◌+◌, ◌*◌, ◌≤◌, ◌<◌, List, [], ◌∷◌, ◌≡◌, ap, ◌∙◌, arith, inl}
use little.Boot.Bytes.{Bytes, zeroes, put, put_all, put-size, put-inside, put-outside}
use native.Mathlib.Nat.{mul-le-mul_left}
use little.Boot.Fat.Chain.{Each, nil, cons}
use little.Boot.Partition.{Geometry, prepared, first_data_sector}
use little.Boot.Partition.Sectors.{StaysIn, put_all-size, put_all-elsewhere}

-- The sizes of the parts, and that they fit.
pub record IsLaidOut (g : Geometry) (fat_sectors cluster_count : ℕ)
    (sector fsinfo fat_bytes root_dir : Bytes) : Type 0 where
  pub sector_is : sector.size ≡ 512
  pub fsinfo_is : fsinfo.size ≡ 512
  pub fat_is : fat_bytes.size ≡ fat_sectors * 512
  pub root_is : root_dir.size ≡ g.sectors_per_cluster * 512
  pub has_clusters : 1 ≤ cluster_count
  pub fits :
      32 + 2 * fat_sectors + cluster_count * g.sectors_per_cluster ≤ g.boot_partition_sector_count

module _ (g : Geometry) (fat_sectors cluster_count : ℕ) (sector fsinfo fat_bytes root_dir : Bytes)
    (h : IsLaidOut g fat_sectors cluster_count sector fsinfo fat_bytes root_dir) where
  abbrev whole : Bytes
  whole = zeroes (g.boot_partition_sector_count * 512)

  abbrev head : List (ℕ × Bytes)
  head = (0, sector) ∷ (512, fsinfo) ∷ (6 * 512, sector) ∷ (7 * 512, fsinfo) ∷ []

  one_cluster : g.sectors_per_cluster ≤ cluster_count * g.sectors_per_cluster
  one_cluster = omega (arith, mul-le-mul_left g.sectors_per_cluster h.has_clusters)

  head-StaysIn : Each (StaysIn whole.size) head
  head-StaysIn = cons (omega (arith, h.sector_is, h.fits)) (
      cons (omega (arith, h.fsinfo_is, h.fits))
        (cons (omega (arith, h.sector_is, h.fits)) (cons (omega (arith, h.fsinfo_is, h.fits)) nil)))

  abbrev with_head : Bytes
  with_head = put_all whole head

  with_head-size : with_head.size ≡ g.boot_partition_sector_count * 512
  with_head-size = put_all-size whole head head-StaysIn

  abbrev with_first : Bytes
  with_first = put with_head (32 * 512) fat_bytes

  with_first-size : with_first.size ≡ g.boot_partition_sector_count * 512
  with_first-size =
      put-size with_head fat_bytes (32 * 512) (omega (arith, with_head-size, h.fat_is, h.fits))
      ∙ with_head-size

  abbrev with_second : Bytes
  with_second = put with_first ((32 + fat_sectors) * 512) fat_bytes

  with_second-size : with_second.size ≡ g.boot_partition_sector_count * 512
  with_second-size =
      put-size with_first fat_bytes ((32 + fat_sectors) * 512)
        (omega (arith, with_first-size, h.fat_is, h.fits))
      ∙ with_first-size

  pub prepared-size :
      (prepared g fat_sectors sector fsinfo fat_bytes root_dir).size
      ≡ g.boot_partition_sector_count * 512
  unfolding put_all
  prepared-size =
      put-size with_second root_dir (first_data_sector fat_sectors * 512)
        (omega (arith, with_second-size, h.root_is, h.fits, one_cluster))
      ∙ with_second-size

  root_room : first_data_sector fat_sectors * 512 + root_dir.size ≤ with_second.size
  root_room = omega (arith, with_second-size, h.root_is, h.fits, one_cluster)

  second_room : (32 + fat_sectors) * 512 + fat_bytes.size ≤ with_first.size
  second_room = omega (arith, with_first-size, h.fat_is, h.fits)

  abbrev with_third : Bytes
  with_third = put with_second (first_data_sector fat_sectors * 512) root_dir

  -- Both copies hold the bytes of the table.
  pub prepared-at :
      (copy k : ℕ)
      → copy < 2
      → k < fat_sectors * 512
      → (prepared g fat_sectors sector fsinfo fat_bytes root_dir).at
          ((32 + copy * fat_sectors) * 512 + k)
        ≡ fat_bytes.at k
  unfolding put_all
  prepared-at zero k first l =
      let place : (32 + 0 * fat_sectors) * 512 + k ≡ 32 * 512 + k = omega arith in
      ap with_third.at place
      ∙ put-outside with_second root_dir (first_data_sector fat_sectors * 512) _ root_room
          (inl (omega arith))
      ∙ put-outside with_first fat_bytes ((32 + fat_sectors) * 512) _ second_room
          (inl (omega arith))
      ∙ put-inside with_head fat_bytes (32 * 512) k
          (omega (arith, with_head-size, h.fat_is, h.fits)) (omega (arith, h.fat_is))
  prepared-at (suc zero) k first l =
      put-outside with_second root_dir (first_data_sector fat_sectors * 512) _ root_room
        (inl (omega arith))
      ∙ ap with_second.at (omega arith)
      ∙ put-inside with_first fat_bytes ((32 + fat_sectors) * 512) k second_room
          (omega (arith, h.fat_is))
  prepared-at (suc (suc copy)) k first l = absurd (omega arith)

  -- The boot sector stands in front.
  pub prepared_sector :
      (k : ℕ)
      → k < 512
      → (prepared g fat_sectors sector fsinfo fat_bytes root_dir).at k ≡ sector.at k
  unfolding put_all
  prepared_sector k l =
      put-outside with_second root_dir (first_data_sector fat_sectors * 512) k root_room
        (inl (omega arith))
      ∙ put-outside with_first fat_bytes ((32 + fat_sectors) * 512) k second_room
          (inl (omega arith))
      ∙ put-outside with_head fat_bytes (32 * 512) k
          (omega (arith, with_head-size, h.fat_is, h.fits)) (inl (omega arith))
      ∙ put_all-elsewhere (put whole 0 sector)
          ((512, fsinfo) ∷ (6 * 512, sector) ∷ (7 * 512, fsinfo) ∷ []) k tail-StaysIn
          (cons (inl l) (cons (inl (omega arith)) (cons (inl (omega arith)) nil)))
      ∙ ap (put whole 0 sector).at from_zero
      ∙ put-inside whole sector 0 k sector_room (omega (arith, h.sector_is))
    where
      from_zero : k ≡ 0 + k
      from_zero = omega arith

      sector_room : 0 + sector.size ≤ whole.size
      sector_room = omega (arith, h.sector_is, h.fits)

      tail-StaysIn :
          Each
            (StaysIn (put whole 0 sector).size)
            ((512, fsinfo) ∷ (6 * 512, sector) ∷ (7 * 512, fsinfo) ∷ [])
      tail-StaysIn =
          let same = put-size whole sector 0 sector_room in
          cons (omega (arith, same, h.fsinfo_is, h.fits)) (
            cons (omega (arith, same, h.sector_is, h.fits))
              (cons (omega (arith, same, h.fsinfo_is, h.fits)) nil))
