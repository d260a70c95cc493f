-- ===== src/Boot/Fat/Size.antt =====
-- The size of the table: the loop ends, and its result has room for every cluster.
use little.Base.{ℕ, suc, ◌+◌, ◌*◌, ◌/◌, ◌≤◌, ◌<◌, ltb, leb, false, ◌≡◌, arith, Bool-cases, inl, inr}
use native.Mathlib.Nat.{le-div_iff_mul-le, mul-le-mul_left, div-mul-le_self}
use little.Boot.Fat.{
  FatSize, sized, negative, unfinished, fat_size_loop, fat_size_sectors, data_sectors,
  required_sectors,
}

-- The table has an entry of four bytes for every cluster and two more, and the clusters fit in the
-- partition behind the tables. Where there is no room for data, the tables alone are too large.
abbrev pub IsAdequate : ℕ → ℕ → ℕ → ℕ → FatSize → Type 0
IsAdequate total reserved num_fats sectors_per_cluster (sized fat_sectors cluster_count) =
    ((cluster_count + 2) * 4 ≤ fat_sectors * 512)
    × (reserved + num_fats * fat_sectors + cluster_count * sectors_per_cluster ≤ total)
IsAdequate total reserved num_fats sectors_per_cluster (negative fat_sectors) =
    total < reserved + num_fats * fat_sectors
IsAdequate total reserved num_fats sectors_per_cluster unfinished = ⊥

module _ (total reserved num_fats sectors_per_cluster : ℕ)
    (positive : 0 < sectors_per_cluster) where
  abbrev count_for : ℕ → ℕ
  count_for fat_sectors = data_sectors total reserved num_fats fat_sectors / sectors_per_cluster

  -- A larger table leaves no more clusters, so it needs no more sectors.
  smaller_count : (a b : ℕ) → a ≤ b → count_for b ≤ count_for a
  smaller_count a b l =
      let room = data_sectors total reserved num_fats b in
      (le-div_iff_mul-le positive).1
        (omega (arith, mul-le-mul_left num_fats l, div-mul-le_self room sectors_per_cluster))

  adequate_room :
      (f : ℕ)
      → ltb total (reserved + num_fats * f) ≡ false
      → required_sectors (count_for f) ≤ f
      → ((count_for f + 2) * 4 ≤ f * 512)
        × (reserved + num_fats * f + count_for f * sectors_per_cluster ≤ total)
  adequate_room f room enough =
      let fits : reserved + num_fats * f ≤ total = ground arith in
      (
        omega arith,
        omega (arith, div-mul-le_self (data_sectors total reserved num_fats f) sectors_per_cluster),
      )

  -- A round that returns is adequate; else the next one decides.
  round-IsAdequate :
      (fuel f : ℕ)
      → (f < required_sectors (count_for f)
          → IsAdequate total reserved num_fats sectors_per_cluster (
              fat_size_loop fuel total reserved num_fats sectors_per_cluster
                (required_sectors (count_for f))))
      → IsAdequate total reserved num_fats sectors_per_cluster
          (fat_size_loop (suc fuel) total reserved num_fats sectors_per_cluster f)
  unfolding fat_size_loop
  round-IsAdequate fuel f next = elim (Bool-cases (ltb total (reserved + num_fats * f))) [
    | inl none_left ↦ rw none_left (ground arith)
    | inr room ↦ elim (Bool-cases (leb (required_sectors (count_for f)) f)) [
      | inl enough ↦ rw (room, enough) (adequate_room f room (ground arith))
      | inr short ↦ rw (room, short) (next (ground arith))
    ]
  ]

  -- The computation of the size ends, within its two rounds, and its result is adequate, for any
  -- sizes of the partition and any positive number of sectors per cluster.
  pub fat_size_sectors-IsAdequate :
      IsAdequate total reserved num_fats sectors_per_cluster
        (fat_size_sectors total reserved num_fats sectors_per_cluster)
  fat_size_sectors-IsAdequate = round-IsAdequate 1 1 (λ l.
      round-IsAdequate 0 (required_sectors (count_for 1)) (λ again.
        absurd (omega (arith, smaller_count 1 (required_sectors (count_for 1)) (omega arith)))))
