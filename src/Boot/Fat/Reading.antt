-- ===== src/Boot/Fat/Reading.antt =====
-- Reading of files along the chains of the table, from the partition that the loop has written.
use little.Base.{
  ℕ, zero, suc, ◌+◌, ◌-◌, ◌*◌, ◌/◌, ◌%◌, ◌≤◌, ◌<◌, leb, List, [], ◌∷◌, ◌≡◌, refl, ap, ◌∙◌, arith,
  Bool-cases, inl, inr,
}
use native.Mathlib.Nat.{add-mul, mul_assoc, div-add-mod, mod-lt, mul-le-mul_left, div-lt_iff_lt-mul}
use little.Boot.Bytes.{Bytes}
use little.Boot.Fat.{
  Payload, FileSpec, Written, ok, chain_ended, out_of_fuel, cluster_offset, clusters_of, allocate,
  sum_clusters, write_file, write_next, write_files, lowest_end_mark, sector_size, ceil_div,
}
use little.Boot.Fat.Chain.{Each, nil, cons, IsChain}
use little.Boot.Fat.Files.{IsWrite, write_loop-IsWrite}

-- The cluster some entries further in a chain.
unfoldable pub follow : (ℕ → ℕ) → ℕ → ℕ → ℕ
follow entries zero cluster = cluster
follow entries (suc n) cluster = follow entries n (entries cluster)

follow-IsChain :
    (entries : ℕ → ℕ) (f : FileSpec) (n c : ℕ)
    → IsChain entries f
    → f.first_cluster ≤ c
    → c + n < f.first_cluster + f.clusters
    → follow entries n c ≡ c + n
unfolding follow
follow-IsChain entries f zero c chain l r = omega arith
follow-IsChain entries f (suc n) c chain l r =
    let next : entries c ≡ c + 1 = chain c l (omega arith) ∙ ground arith in
    rw next (follow-IsChain entries f n (c + 1) chain (omega arith) (omega arith) ∙ omega arith)

-- The clusters of a file have room for it.
pub clusters_of-room : (S : ℕ) (p : Payload) → 0 < S → p.content.size ≤ clusters_of S p * S
clusters_of-room S p pos =
    let q = ceil_div p.content.size S in
    let enough : p.content.size ≤ q * S =
      omega (arith, div-add-mod (p.content.size + S - 1) S, mod-lt (p.content.size + S - 1) pos) in
    elim (Bool-cases (leb q 1)) [
      | inl few ↦
          (let one : q ≤ 1 = ground arith in
            let product : S * q ≤ S * 1 = mul-le-mul_left S one in
            rw few (omega (arith, enough, product)))
      | inr many ↦ rw many enough
    ]

module _ (first_data_sector sectors_per_cluster : ℕ) where
  abbrev S : ℕ
  S = sectors_per_cluster * sector_size

  pub far_offset :
      (c n : ℕ)
      → 2 ≤ c
      → cluster_offset first_data_sector sectors_per_cluster (c + n)
        ≡ cluster_offset first_data_sector sectors_per_cluster c + n * S
  far_offset c n l =
      let up : c + n - 2 ≡ (c - 2) + n = omega arith in
      rw up
        (omega (arith, add-mul (c - 2) n sectors_per_cluster, mul_assoc n sectors_per_cluster 512))

  -- The byte at `k` of a file, found along its chain.
  unfoldable pub file_byte : (ℕ → ℕ) → Bytes → FileSpec → ℕ → ℕ
  file_byte entries partition f k = partition.at (
      cluster_offset first_data_sector sectors_per_cluster (follow entries (k / S) f.first_cluster)
      + k % S)

  chain_index : (k n : ℕ) → 0 < sectors_per_cluster → k < n * S → k / S < n
  chain_index k n pos l = let positive : 0 < S = omega arith in (div-lt_iff_lt-mul positive).1 l

  -- A file stands in one piece.
  pub file_byte-at :
      (entries : ℕ → ℕ) (partition : Bytes) (f : FileSpec) (k : ℕ)
      → 0 < sectors_per_cluster
      → 2 ≤ f.first_cluster
      → IsChain entries f
      → k < f.clusters * S
      → file_byte entries partition f k
        ≡ partition.at (cluster_offset first_data_sector sectors_per_cluster f.first_cluster + k)
  unfolding file_byte
  file_byte-at entries partition f k pos two chain l =
      let inside = chain_index k f.clusters pos l in
      ap partition.at (
        rw (follow-IsChain entries f (k / S) f.first_cluster chain (omega arith) (omega arith))
          (omega (arith, far_offset f.first_cluster (k / S) two, div-add-mod k S)))

  -- After a run of the loop over files from the cluster `next` on, each file is read as it was given.
  abbrev pub AreRead : (ℕ → ℕ) → List FileSpec → ℕ → Bytes → Written → Type 0
  AreRead entries files next before (ok after) =
      (after.size ≡ before.size)
      × ((k : ℕ)
          → k < cluster_offset first_data_sector sectors_per_cluster next
          → after.at k ≡ before.at k)
      × Each
          (λ f.
            (k : ℕ)
            → k < f.payload.content.size
            → file_byte entries after f k ≡ f.payload.content.at k)
          files
  AreRead entries files next before _ = ⊥

  module _ (entries : ℕ → ℕ) (pos : 0 < sectors_per_cluster) where
    abbrev placed : Payload → ℕ → FileSpec
    placed p next = record { payload = p; first_cluster = next; clusters = clusters_of S p }

    abbrev offset_of : ℕ → ℕ
    offset_of = cluster_offset first_data_sector sectors_per_cluster

    first_file :
        (p : Payload) (next : ℕ) (before : Bytes)
        → IsChain entries (placed p next)
        → 2 ≤ next
        → next + clusters_of S p ≤ lowest_end_mark
        → offset_of (next + clusters_of S p) ≤ before.size
        → IsWrite before p.content 0
            (offset_of next)
            (write_file first_data_sector sectors_per_cluster entries (placed p next) before)
    first_file p next before chain two end_ok room =
        write_loop-IsWrite first_data_sector sectors_per_cluster entries (suc p.content.size)
          (clusters_of S p) p.content 0 next before pos two (omega arith)
          (omega (arith, clusters_of-room S p (omega arith))) end_ok
          (λ x l r. chain x l (omega arith) ∙ ground arith)
          (omega (arith, far_offset next (clusters_of S p) two, clusters_of-room S p (omega arith)))

    -- The files after one that has been written leave it as it is.
    join_reads :
        (p : Payload) (next : ℕ) (rest : List FileSpec) (before mid : Bytes) (w : Written)
        → IsChain entries (placed p next)
        → 2 ≤ next
        → IsWrite before p.content 0 (offset_of next) (ok mid)
        → AreRead entries rest (next + clusters_of S p) mid w
        → AreRead entries (placed p next ∷ rest) next before w
    join_reads p next rest before mid (ok after) chain two h r =
        let apart = far_offset next (clusters_of S p) two in
        let enough : p.content.size ≤ clusters_of S p * S = clusters_of-room S p (omega arith) in
        (
          r.0 ∙ h.0,
          λ k l. r.1 k (omega arith) ∙ h.1 k ∙ ground arith,
          cons
              (λ k l.
                file_byte-at entries after (placed p next) k pos two chain (omega arith)
                ∙ r.1 (offset_of next + k) (omega arith)
                ∙ h.1 (offset_of next + k)
                ∙ ground (arith, ap p.content.at))
              r.2,
        )
    join_reads p next rest before mid chain_ended chain two h r = absurd r
    join_reads p next rest before mid out_of_fuel chain two h r = absurd r

    rest_files :
        (p : Payload) (next : ℕ) (rest : List FileSpec) (before : Bytes) (w : Written)
        → IsChain entries (placed p next)
        → 2 ≤ next
        → IsWrite before p.content 0 (offset_of next) w
        → ((mid : Bytes)
            → mid.size ≡ before.size
            → AreRead entries rest
                (next + clusters_of S p)
                mid
                (write_next first_data_sector sectors_per_cluster entries rest (ok mid)))
        → AreRead entries
            (placed p next ∷ rest)
            next
            before
            (write_next first_data_sector sectors_per_cluster entries rest w)
    rest_files p next rest before (ok mid) chain two h later =
        join_reads p next rest before mid _ chain two h (later mid h.0)
    rest_files p next rest before chain_ended chain two h later = absurd h
    rest_files p next rest before out_of_fuel chain two h later = absurd h

    sum_up : (a b c : ℕ) → a + b + c ≡ a + (b + c)
    sum_up a b c = omega arith

    write_next-AreRead :
        (ps : List Payload) (next : ℕ) (before : Bytes)
        → Each (IsChain entries) (allocate S next ps)
        → 2 ≤ next
        → next + sum_clusters (allocate S next ps) ≤ lowest_end_mark
        → offset_of (next + sum_clusters (allocate S next ps)) ≤ before.size
        → AreRead entries (allocate S next ps) next before (
            write_next first_data_sector sectors_per_cluster entries
              (allocate S next ps)
              (ok before))
    unfolding write_next allocate sum_clusters
    write_next-AreRead [] next before chains two end_ok room = (refl, λ k l. refl, nil)
    write_next-AreRead (p ∷ ps) next before (cons chain chains) two end_ok room =
        let clusters = clusters_of S p in
        let rest = allocate S (next + clusters) ps in
        let total : next + clusters + sum_clusters rest ≡ next + (clusters + sum_clusters rest) =
          sum_up next clusters (sum_clusters rest) in
        let behind = far_offset (next + clusters) (sum_clusters rest) (omega arith) in
        let end_room : offset_of (next + clusters + sum_clusters rest) ≤ before.size =
          rw total room in
        rest_files p next rest before _ chain two
          (first_file p next before chain two (omega arith) (omega (arith, behind, end_room)))
          (λ mid same.
            write_next-AreRead ps (next + clusters) mid chains (omega arith) (omega arith)
              (rw same end_room))

    -- For any files that are stored from the cluster `next` on, in a partition with room for their
    -- clusters: the loop ends without an error, nothing below the first cluster changes, and the
    -- bytes found along the chains of a table that has the chain of every file are those of the files.
    pub write_files-AreRead :
        (ps : List Payload) (next : ℕ) (before : Bytes)
        → Each (IsChain entries) (allocate S next ps)
        → 2 ≤ next
        → next + sum_clusters (allocate S next ps) ≤ lowest_end_mark
        → offset_of (next + sum_clusters (allocate S next ps)) ≤ before.size
        → AreRead entries
            (allocate S next ps)
            next
            before
            (write_files first_data_sector sectors_per_cluster entries (allocate S next ps) before)
    unfolding write_files
    write_files-AreRead ps next before chains two end_ok room =
        write_next-AreRead ps next before chains two end_ok room
