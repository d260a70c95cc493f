-- ===== src/Boot/Partition/Sectors.antt =====
-- The sizes of the parts of the partition, and the errors of the directory.
use little.Base.{
  ℕ, zero, suc, ◌+◌, ◌≤◌, ◌<◌, Bool, true, leb, List, [], ◌∷◌, none, some, ◌≡◌, refl, ◌∙◌, arith,
  ◌⊎◌, ◌&&◌,
}
use little.Boot.Bytes.{Bytes, zeroes, put, put_all, of_list, little_endian, put-size, put-at}
use little.Boot.Fat.{FileSpec}
use little.Boot.Fat.Chain.{Each, nil, cons}
use little.Boot.Directory.{
  lfn_entries_from, build_fat32_lfn_entries, build_fat32_file_dir_entry, file_entries, put_entries,
  write_directory,
}
use little.Boot.Partition.{fsinfo_sector}
use little.Boot.Results.{
  ok, Outcome, Outcome_then, Outcome_weaken, Outcome-raise_if, field_overflow, long_name_empty,
  long_name_not_bmp, outside_view,
}

-- A write within a size.
abbrev pub StaysIn : ℕ → ℕ × Bytes → Type 0
StaysIn size w = w.0 + w.1.size ≤ size

pub put_all-size :
    (b : Bytes) (writes : List (ℕ × Bytes))
    → Each (StaysIn b.size) writes
    → (put_all b writes).size ≡ b.size
unfolding put_all
put_all-size b [] nil = refl
put_all-size b (w ∷ writes) (cons h hs) =
    let same = put-size b w.1 w.0 h in put_all-size (put b w.0 w.1) writes (rw same hs) ∙ same

-- A write that a position is not in.
abbrev pub IsElsewhere : ℕ → ℕ × Bytes → Type 0
IsElsewhere k w = (k < w.0) ⊎ (w.0 + w.1.size ≤ k)

pub put_all-elsewhere :
    (b : Bytes) (writes : List (ℕ × Bytes)) (k : ℕ)
    → Each (StaysIn b.size) writes
    → Each (IsElsewhere k) writes
    → (put_all b writes).at k ≡ b.at k
unfolding put_all
put_all-elsewhere b [] k nil nil = refl
put_all-elsewhere b (w ∷ writes) k (cons h hs) (cons e es) =
    let same = put-size b w.1 w.0 h in
    put_all-elsewhere (put b w.0 w.1) writes k (rw same hs) es ∙ put-at b w.1 w.0 k h ∙ ground arith

-- The errors of the long names can be caused by a caller.
abbrev Anything : List Bytes → Type 0
Anything entries = Bool

lfn_entries_from-Outcome :
    (remaining : ℕ) (name : List ℕ) (short_name : Bytes) (index : ℕ)
    → Outcome Anything (lfn_entries_from remaining name short_name index)
unfolding lfn_entries_from
lfn_entries_from-Outcome zero name short_name index = true
lfn_entries_from-Outcome (suc remaining) name short_name index =
    Outcome-raise_if Anything _ field_overflow _ refl (λ fits.
      Outcome_then Anything Anything (lfn_entries_from remaining name short_name (index + 1)) _
        (lfn_entries_from-Outcome remaining name short_name (index + 1)) (λ entries h. true))

long_entries-Outcome :
    (name : List ℕ) (short_name : Bytes)
    → Outcome Anything (build_fat32_lfn_entries name short_name)
unfolding build_fat32_lfn_entries
long_entries-Outcome name short_name =
    Outcome-raise_if Anything _ long_name_empty _ refl (λ some_unit.
      Outcome-raise_if Anything _ long_name_not_bmp _ refl
        (λ short. lfn_entries_from-Outcome _ name short_name 0))

short_entry-Outcome : (f : FileSpec) → Outcome (λ e. Bool) (build_fat32_file_dir_entry f)
unfolding build_fat32_file_dir_entry
short_entry-Outcome f = Outcome-raise_if (λ e. Bool) _ field_overflow _ refl (λ fits. true)

file_entries-Outcome : (f : FileSpec) → Outcome Anything (file_entries f)
unfolding file_entries
file_entries-Outcome f =
    Outcome_then Anything Anything _ _
      (elim f.payload.long_name
        as (λ n. Outcome Anything (elim n [
          | none ↦ ok []
          | some name ↦ build_fat32_lfn_entries name f.payload.short_name
        ])) [ none ↦ true | some name ↦ long_entries-Outcome name f.payload.short_name ])
      (λ long h.
        Outcome_then (λ e. Bool) Anything (build_fat32_file_dir_entry f) _ (short_entry-Outcome f)
          (λ short k. true))

abbrev IsAfter : Bytes → ℕ × Bytes → Type 0
IsAfter before after = after.1.size ≡ before.size

put_entries-Outcome :
    (entries : List Bytes) (offset : ℕ) (before : Bytes)
    → Outcome (IsAfter before) (put_entries entries offset before)
unfolding put_entries
put_entries-Outcome [] offset before = refl
put_entries-Outcome (e ∷ rest) offset before =
    Outcome-raise_if (IsAfter before) _ outside_view _ refl (λ fits.
      Outcome_weaken (IsAfter (put before offset e)) (IsAfter before)
        (put_entries rest (offset + 32) (put before offset e))
        (λ after h. h ∙ put-size before e offset (ground arith))
        (put_entries-Outcome rest (offset + 32) (put before offset e)))

-- The directory keeps the size of its cluster.
pub write_directory-Outcome :
    (files : List FileSpec) (offset : ℕ) (before : Bytes)
    → Outcome (λ after. after.size ≡ before.size) (write_directory files offset before)
unfolding write_directory of_list
write_directory-Outcome [] offset before =
    Outcome-raise_if (λ after. after.size ≡ before.size) _ outside_view _ refl
      (λ fits. put-size before _ offset (ground arith))
write_directory-Outcome (f ∷ rest) offset before =
    Outcome_then Anything (λ after. after.size ≡ before.size) (file_entries f) _
      (file_entries-Outcome f)
      (λ entries h.
        Outcome_then (IsAfter before) (λ after. after.size ≡ before.size)
          (put_entries entries offset before) _ (put_entries-Outcome entries offset before)
          (λ after same.
            Outcome_weaken (λ b. b.size ≡ after.1.size) (λ b. b.size ≡ before.size)
              (write_directory rest after.0 after.1) (λ b k. k ∙ same)
              (write_directory-Outcome rest after.0 after.1)))

-- A test of a list of writes.
unfoldable pub all_stay : ℕ → List (ℕ × Bytes) → Bool
all_stay size [] = true
all_stay size (w ∷ writes) = leb (w.0 + w.1.size) size && all_stay size writes

pub all_stay-Each :
    (size : ℕ) (writes : List (ℕ × Bytes))
    → all_stay size writes ≡ true
    → Each (StaysIn size) writes
unfolding all_stay
all_stay-Each size [] h = nil
all_stay-Each size (w ∷ writes) h = cons (ground arith) (all_stay-Each size writes (ground arith))

pub fsinfo_sector-size : (free next : ℕ) → (fsinfo_sector free next).size ≡ 512
unfolding fsinfo_sector all_stay of_list little_endian
fsinfo_sector-size free next = put_all-size (zeroes 512) _ (all_stay-Each 512 _ refl)
