-- ===== src/Boot/Partition/BootSector.antt =====
-- What a reader finds in the boot sector of the partition, hdl/little64_cores/litex_linux_boot.py.
use little.Base.{
  ℕ, zero, suc, ◌+◌, ◌-◌, ◌/◌, ◌%◌, ◌^◌, ◌<◌, ltb, leb, ◌&&◌, if◌then◌else◌, List, [], ◌∷◌, ◌≡◌,
  refl, ap, ◌∙◌, arith,
}
use little.Boot.Bytes.{Bytes, zeroes, put, put_all, of_list, little_endian, put-size, put-at}
use little.Boot.Fat.Chain.{Each, nil, cons}
use little.Boot.Partition.{Geometry, boot_sector}
use little.Boot.Partition.Sectors.{StaysIn, put_all-size, all_stay, all_stay-Each}
use little.Boot.Results.{Outcome, Outcome-raise_if, field_overflow}

-- The byte that the last of some writes over a position leaves there.
unfoldable last_at : List (ℕ × Bytes) → ℕ → ℕ → ℕ
last_at [] k old = old
last_at (w ∷ writes) k old =
    last_at writes k (if leb w.0 k && ltb k (w.0 + w.1.size) then w.1.at (k - w.0) else old)

put_all-at :
    (b : Bytes) (writes : List (ℕ × Bytes)) (k : ℕ)
    → Each (StaysIn b.size) writes
    → (put_all b writes).at k ≡ last_at writes k (b.at k)
unfolding put_all last_at
put_all-at b [] k nil = refl
put_all-at b (w ∷ writes) k (cons h hs) =
    let same = put-size b w.1 w.0 h in
    put_all-at (put b w.0 w.1) writes k (rw same hs) ∙ ap (last_at writes k) (put-at b w.1 w.0 k h)

below_four : (P : ℕ → Type 0) → P 0 → P 1 → P 2 → P 3 → (k : ℕ) → k < 4 → P k
below_four P a b c d zero l = a
below_four P a b c d (suc zero) l = b
below_four P a b c d (suc (suc zero)) l = c
below_four P a b c d (suc (suc (suc zero))) l = d
below_four P a b c d (suc (suc (suc (suc k)))) l = absurd (omega arith)

-- The sector has the sectors per cluster at 13, and the size of a table at 36.
pub record IsBootSector (g : Geometry) (fat_sectors : ℕ) (b : Bytes) : Type 0 where
  pub size_is : b.size ≡ 512
  pub clusters_at : b.at 13 ≡ g.sectors_per_cluster
  pub table_fits : fat_sectors < 2 ^ 32
  pub table_at : (k : ℕ) → k < 4 → b.at (36 + k) ≡ fat_sectors / 256 ^ k % 256

pub boot_sector-IsBootSector :
    (g : Geometry) (fat_sectors : ℕ)
    → g.volume_label.size ≡ 11
    → Outcome (IsBootSector g fat_sectors) (boot_sector g fat_sectors)
unfolding boot_sector all_stay of_list little_endian last_at
boot_sector-IsBootSector g fat_sectors e =
    Outcome-raise_if (IsBootSector g fat_sectors) _ field_overflow _ refl (λ fits. record {
      size_is = put_all-size (zeroes 512) _ (all_stay-Each 512 _ (rw e refl));
      clusters_at = put_all-at (zeroes 512) _ 13 (all_stay-Each 512 _ (rw e refl));
      table_fits = ground arith;
      table_at =
          below_four (λ k. (put_all (zeroes 512) _).at (36 + k) ≡ fat_sectors / 256 ^ k % 256)
            (put_all-at (zeroes 512) _ 36 (all_stay-Each 512 _ (rw e refl)))
            (put_all-at (zeroes 512) _ 37 (all_stay-Each 512 _ (rw e refl)))
            (put_all-at (zeroes 512) _ 38 (all_stay-Each 512 _ (rw e refl)))
            (put_all-at (zeroes 512) _ 39 (all_stay-Each 512 _ (rw e refl)));
    })
