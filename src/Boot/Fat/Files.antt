-- ===== src/Boot/Fat/Files.antt =====
-- The files in the data of the partition: what the loop writes, and how it is read again along the
-- chains of the table.
use little.Base.{
  ℕ, zero, suc, ◌+◌, ◌-◌, ◌*◌, ◌≤◌, ◌<◌, false, ◌&&◌, ltb, leb, if◌then◌else◌, ◌≡◌, refl, ap, ◌∙◌,
  arith, Bool-cases, inl, inr,
}
use native.Mathlib.Nat.{add-mul}
use little.Boot.Bytes.{Bytes, put, part, put-size, put-at}
use little.Boot.Fat.{
  Written, ok, chain_ended, out_of_fuel, cluster_offset, write_loop, lowest_end_mark, sector_size,
  chunk_size,
}

-- The content from `from` on stands at `start`, and all else is as in `before`.
abbrev pub at_write : Bytes → Bytes → ℕ → ℕ → ℕ → ℕ
at_write before content from start k =
    if leb start k && ltb k (start + (content.size - from))
    then content.at (from + (k - start))
    else before.at k

abbrev pub IsWrite : Bytes → Bytes → ℕ → ℕ → Written → Type 0
IsWrite before content from start (ok after) =
    (after.size ≡ before.size) × ((k : ℕ) → after.at k ≡ at_write before content from start k)
IsWrite before content from start _ = ⊥

-- The last write of a file.
last-IsWrite :
    (before content : Bytes) (from start chunk : ℕ)
    → chunk ≡ content.size - from
    → start + (content.size - from) ≤ before.size
    → IsWrite before content from start (ok (put before start (part content from chunk)))
unfolding part
last-IsWrite before content from start chunk e room = (
  put-size before (part content from chunk) start (omega arith),
  λ k. put-at before (part content from chunk) start k (omega arith) ∙ ground arith,
)

-- A write, and behind it the rest.
join_writes :
    (before content : Bytes) (from start chunk : ℕ) (w : Written)
    → chunk ≤ content.size - from
    → start + (content.size - from) ≤ before.size
    → IsWrite (put before start (part content from chunk)) content (from + chunk) (start + chunk) w
    → IsWrite before content from start w
unfolding part
join_writes before content from start chunk (ok after) short room h = (
  h.0 ∙ put-size before (part content from chunk) start (omega arith),
  λ k.
      ground (
        arith,
        h.1 k,
        put-at before (part content from chunk) start k (omega arith),
        ap content.at,
      ),
)
join_writes before content from start chunk chain_ended short room h = absurd h
join_writes before content from start chunk out_of_fuel short room h = absurd h

module _ (first_data_sector sectors_per_cluster : ℕ) (entries : ℕ → ℕ) where
  abbrev S : ℕ
  S = sectors_per_cluster * sector_size

  next_offset :
      (c : ℕ)
      → 2 ≤ c
      → cluster_offset first_data_sector sectors_per_cluster (c + 1)
        ≡ cluster_offset first_data_sector sectors_per_cluster c + S
  next_offset c l =
      let up : c + 1 - 2 ≡ (c - 2) + 1 = omega arith in
      rw up (omega (arith, add-mul (c - 2) 1 sectors_per_cluster))

  two_left : (n r : ℕ) → S < r → r ≤ n * S → 2 ≤ n
  two_left zero r l m = absurd (omega arith)
  two_left (suc zero) r l m = absurd (omega arith)
  two_left (suc (suc n)) r l m = omega arith

  fewer : (n r : ℕ) → r ≤ n * S → r - S ≤ (n - 1) * S
  fewer zero r m = omega arith
  fewer (suc n) r m =
      let up : suc n ≡ n + 1 = omega arith in
      let back : n + 1 - 1 ≡ n = omega arith in
      rw (up, back) (omega (arith, add-mul n 1 S, ap (λ (t : ℕ). t * S) up))

  pub write_loop-IsWrite :
      (fuel n : ℕ) (content : Bytes) (from c : ℕ) (before : Bytes)
      → 0 < sectors_per_cluster
      → 2 ≤ c
      → content.size - from < fuel
      → content.size - from ≤ n * S
      → c + n ≤ lowest_end_mark
      → ((x : ℕ) → c ≤ x → x + 1 < c + n → entries x ≡ x + 1)
      → cluster_offset first_data_sector sectors_per_cluster c + (content.size - from) ≤ before.size
      → IsWrite before content from
          (cluster_offset first_data_sector sectors_per_cluster c)
          (write_loop first_data_sector sectors_per_cluster entries fuel content from c before)
  unfolding write_loop part
  write_loop-IsWrite zero n content from c before pos two f m e chain room = absurd (omega arith)
  write_loop-IsWrite (suc fuel) n content from c before pos two f m e chain room =
      elim (Bool-cases (ltb from content.size)) [
        | inr done ↦ rw done (refl, λ k. ground arith)
        | inl more ↦
            elim (Bool-cases (leb content.size (from + chunk_size S (content.size - from)))) [
              | inl last ↦
                  rw (more, last)
                    (last-IsWrite before content from _ (chunk_size S (content.size - from))
                      (ground arith) room)
              | inr on ↦
                  (let whole : chunk_size S (content.size - from) ≡ S = ground arith in
                    let long : S < content.size - from = ground arith in
                    let left = two_left n (content.size - from) long m in
                    let link = chain c (omega arith) (omega arith) in
                    let open_end : leb lowest_end_mark (c + 1) ≡ false = ground arith in
                    rw (more, on, whole, link, open_end)
                      (join_writes before content from _ S _ (omega arith) room (
                        rw (next_offset c two) at (
                          write_loop-IsWrite fuel (n - 1) content (from + S) (c + 1)
                            (put before (cluster_offset first_data_sector sectors_per_cluster c)
                              (part content from S))
                            pos (omega arith) (omega arith)
                            (omega (arith, fewer n (content.size - from) m)) (omega arith)
                            (λ x l r. chain x (omega arith) (omega arith))
                            (omega (
                              arith,
                              next_offset c two,
                              put-size before (part content from S)
                                  (cluster_offset first_data_sector sectors_per_cluster c)
                                  (omega arith),
                            ))))))
            ]
      ]
