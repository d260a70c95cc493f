-- ===== src/Base/Update.antt =====
-- A bank of registers as a function of its index, and the write of one of them.
use Prim.Native.Nat.{ℕ}
use mathlib.Core.Path.{◌≡◌}
use mathlib.Core.Logic.{◌≢◌}
use little.Base.Tests.{◌==◌, if◌then◌else◌, ==_refl, ne→==}

abbrev pub update {ℓ} : {A : Type ℓ} → (ℕ → A) → ℕ → A → ℕ → A
update f i v j = if j == i then v else f j

pub update_self {ℓ} : {A : Type ℓ} (f : ℕ → A) (i : ℕ) (v : A) → update f i v i ≡ v
update_self f i v = rw ==_refl

pub update_ne {ℓ} : {A : Type ℓ} (f : ℕ → A) {i j : ℕ} (v : A) → j ≢ i → update f i v j ≡ f j
update_ne f {i} {j} v h = rw (ne→== j i h)
