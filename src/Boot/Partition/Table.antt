-- ===== src/Boot/Partition/Table.antt =====
-- The table as bytes, and the sizes of the parts of the partition.
use little.Base.{
  ℕ, zero, suc, ◌+◌, ◌*◌, ◌/◌, ◌%◌, ◌^◌, ◌≤◌, ◌<◌, List, [], ◌∷◌, ◌≡◌, refl, ◌∙◌, arith, ◌==◌,
  Bool-cases, inl, inr, ==→eq,
}
use little.Boot.Bytes.{Bytes, put, little_endian, put-size, put-at, put-inside}
use little.Boot.Fat.{
  Payload, allocate, sum_clusters, mark_files, fat_entries, clusters_of, lowest_end_mark,
}
use little.Boot.Fat.Chain.{mark_file-at}
use little.Boot.Partition.{write_entries}
use little.Boot.Results.{Outcome, Outcome_weaken, Outcome-raise_if, field_overflow}

-- A number of a table fits four bytes.
abbrev AllFit : (ℕ → ℕ) → Type 0
AllFit entries = (c : ℕ) → entries c < 2 ^ 32

mark_files-AllFit :
    (cluster_size next : ℕ) (ps : List Payload) (entries : ℕ → ℕ)
    → next + sum_clusters (allocate cluster_size next ps) ≤ lowest_end_mark
    → AllFit entries
    → AllFit (mark_files (allocate cluster_size next ps) entries)
unfolding mark_files allocate sum_clusters
mark_files-AllFit cluster_size next [] entries l h c = h c
mark_files-AllFit cluster_size next (p ∷ ps) entries l h c =
    mark_files-AllFit cluster_size (next + clusters_of cluster_size p) ps _ (omega arith)
      (λ x. rw (mark_file-at (clusters_of cluster_size p) 0 _ entries x) (ground (arith, h x))) c

pub fat_entries-AllFit :
    (cluster_size next : ℕ) (ps : List Payload) (c : ℕ)
    → next + sum_clusters (allocate cluster_size next ps) ≤ lowest_end_mark
    → fat_entries (allocate cluster_size next ps) c < 2 ^ 32
unfolding fat_entries
fat_entries-AllFit cluster_size next ps c l =
    mark_files-AllFit cluster_size next ps _ l (λ x. ground arith) c

-- The bytes of the entries below `bound`, from the one at `index` on, and the earlier bytes as before.
pub record HasEntries (before : Bytes) (index bound : ℕ) (entries : ℕ → ℕ) (b : Bytes)
    : Type 0 where
  pub same_size : b.size ≡ before.size
  pub earlier : (k : ℕ) → k < index * 4 → b.at k ≡ before.at k
  pub digits :
      (c k : ℕ) → index ≤ c → c < bound → k < 4 → b.at (c * 4 + k) ≡ entries c / 256 ^ k % 256

digit_here :
    (before : Bytes) (index : ℕ) (entries : ℕ → ℕ) (k : ℕ)
    → index * 4 + 4 ≤ before.size
    → k < 4
    → (put before (index * 4) (little_endian 4 (entries index))).at (index * 4 + k)
      ≡ entries index / 256 ^ k % 256
unfolding little_endian
digit_here before index entries k room l =
    put-inside before (little_endian 4 (entries index)) (index * 4) k room l

entry_written :
    (before : Bytes) (index bound : ℕ) (entries : ℕ → ℕ) (b : Bytes)
    → index * 4 + 4 ≤ before.size
    → HasEntries
        (put before (index * 4) (little_endian 4 (entries index)))
        (index + 1)
        bound
        entries
        b
    → HasEntries before index bound entries b
unfolding little_endian
entry_written before index bound entries b room h = record {
  same_size = h.same_size ∙ put-size before _ (index * 4) (omega arith);
  earlier =
      λ k l. h.earlier k (omega arith) ∙ put-at before _ (index * 4) k (omega arith) ∙ ground arith;
  digits = λ c k above below l. elim (Bool-cases (c == index)) [
    | inl here ↦
        (let same = ==→eq c index here in
          rw same
            (h.earlier (index * 4 + k) (omega arith) ∙ digit_here before index entries k room l))
    | inr later ↦ h.digits c k (ground arith) below l
  ];
}

pub write_entries-HasEntries :
    (remaining index : ℕ) (entries : ℕ → ℕ) (before : Bytes)
    → ((c : ℕ) → entries c < 2 ^ 32)
    → (index + remaining) * 4 ≤ before.size
    → Outcome
        (HasEntries before index (index + remaining) entries)
        (write_entries remaining index entries before)
unfolding write_entries little_endian
write_entries-HasEntries zero index entries before fit room = record {
  same_size = refl;
  earlier = λ k l. refl;
  digits = λ c k above below l. absurd (omega arith);
}
write_entries-HasEntries (suc remaining) index entries before fit room =
    let shift : index + 1 + remaining ≡ index + suc remaining = omega arith in
    let size : (put before (index * 4) (little_endian 4 (entries index))).size ≡ before.size =
      put-size before (little_endian 4 (entries index)) (index * 4) (omega arith) in
    Outcome-raise_if (HasEntries before index (index + suc remaining) entries) _ field_overflow _
      refl
      (λ fits.
        Outcome_weaken _ (HasEntries before index (index + suc remaining) entries) _
          (λ b h. entry_written before index _ entries b (omega arith) h)
          (rw shift at (
            write_entries-HasEntries remaining (index + 1) entries
              (put before (index * 4) (little_endian 4 (entries index))) fit (omega arith))))
