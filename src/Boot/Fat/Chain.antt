-- ===== src/Boot/Fat/Chain.antt =====
-- The chains in the table: from the first cluster of a file on, each entry leads to the next cluster,
-- and the last one ends the chain.
use little.Base.{
  ℕ, zero, suc, ◌+◌, ◌-◌, ◌≤◌, ◌<◌, ◌&&◌, ltb, leb, ◌==◌, if◌then◌else◌, List, [], ◌∷◌, ◌≡◌, refl,
  ◌∙◌, arith,
}
use little.Boot.Fat.{
  Payload, FileSpec, clusters_of, allocate, mark_file, mark_files, fat_entries, end_mark,
}

-- A predicate of each element of a list.
pub data Each {ℓ κ} {A : Type ℓ} (P : A → Type κ) : List A → Type (ℓ ⊔ κ) where
  nil : Each P []
  cons : {x : A} {xs : List A} → P x → Each P xs → Each P (x ∷ xs)

-- The entry of one cluster of a file.
abbrev pub entry_of : FileSpec → ℕ → ℕ
entry_of f cluster = if cluster - f.first_cluster == f.clusters - 1 then end_mark else cluster + 1

pub mark_file-at :
    (remaining index : ℕ) (f : FileSpec) (entries : ℕ → ℕ) (c : ℕ)
    → mark_file remaining index f entries c ≡ (
        if leb (f.first_cluster + index) c && ltb c (f.first_cluster + index + remaining)
        then entry_of f c
        else entries c)
unfolding mark_file
mark_file-at zero index f entries c = ground arith
mark_file-at (suc remaining) index f entries c =
    mark_file-at remaining (index + 1) f _ c ∙ ground arith

-- The chain of a file in a table.
abbrev pub IsChain : (ℕ → ℕ) → FileSpec → Type 0
IsChain entries f =
    (c : ℕ) → f.first_cluster ≤ c → c < f.first_cluster + f.clusters → entries c ≡ entry_of f c

module _ (cluster_size : ℕ) where
  -- Marks of later files leave the earlier entries alone.
  mark_files-below :
      (next : ℕ) (ps : List Payload) (entries : ℕ → ℕ) (c : ℕ)
      → c < next
      → mark_files (allocate cluster_size next ps) entries c ≡ entries c
  unfolding mark_files allocate
  mark_files-below next [] entries c l = refl
  mark_files-below next (p ∷ ps) entries c l =
      mark_files-below (next + clusters_of cluster_size p) ps _ c (omega arith)
      ∙ mark_file-at (clusters_of cluster_size p) 0 _ entries c
      ∙ ground arith

  mark_files-IsChain :
      (next : ℕ) (ps : List Payload) (entries : ℕ → ℕ)
      → Each
          (IsChain (mark_files (allocate cluster_size next ps) entries))
          (allocate cluster_size next ps)
  unfolding mark_files allocate
  mark_files-IsChain next [] entries = nil
  mark_files-IsChain next (p ∷ ps) entries =
      cons
        (λ c above below.
          mark_files-below (next + clusters_of cluster_size p) ps _ c below
          ∙ mark_file-at (clusters_of cluster_size p) 0 _ entries c
          ∙ ground arith)
        (mark_files-IsChain (next + clusters_of cluster_size p) ps _)

  -- The table has the chain of every file.
  pub fat_entries-IsChain :
      (next : ℕ) (ps : List Payload)
      → Each (IsChain (fat_entries (allocate cluster_size next ps))) (allocate cluster_size next ps)
  unfolding fat_entries
  fat_entries-IsChain next ps = mark_files-IsChain next ps _
