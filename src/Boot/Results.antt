-- ===== src/Boot/Results.antt =====
-- The errors of the image builders, hdl/little64_cores/litex_linux_boot.py, as values.
use little.Base.{Bool, true, false, ◌≡◌, refl}

-- The ValueErrors of the builders, and the two exceptions of the byte operations: a number that does
-- not fit its field, and a slice or index outside of a view. `out_of_fuel` is no exception.
pub data Error : Type 0 where
  sectors_per_cluster_error volume_label_error partition_too_small files_do_not_fit : Error
  long_name_empty long_name_not_bmp chain_ended : Error
  stage0_too_large image_too_small bad_magic bad_class bad_machine headers_beyond_file : Error
  segment_beyond_file no_segments entry_outside does_not_fit_ram : Error
  field_overflow outside_view out_of_fuel : Error

pub data Result {ℓ} (A : Type ℓ) : Type ℓ where
  ok : A → Result A
  err : Error → Result A

infixl 5 ◌>>=◌
abbrev pub ◌>>=◌ {ℓ κ} : {A : Type ℓ} {B : Type κ} → Result A → (A → Result B) → Result B
ok a >>= f = f a
err e >>= f = err e

-- `if test: raise ValueError(...)`, before the rest.
unfoldable pub raise_if {ℓ} : {A : Type ℓ} → Bool → Error → Result A → Result A
raise_if true e rest = err e
raise_if false e rest = rest

-- The errors that only a chain of the table that ends too early, or missing fuel, would give.
abbrev pub is_internal : Error → Bool
is_internal chain_ended = true
is_internal out_of_fuel = true
is_internal _ = false

-- The result has the property, or is an error that the caller can cause.
abbrev pub Outcome {ℓ} : {A : Type ℓ} → (A → Type 0) → Result A → Type 0
Outcome P (ok a) = P a
Outcome P (err e) = is_internal e ≡ false

pub Outcome_then {ℓ κ} :
    {A : Type ℓ} {B : Type κ} (P : A → Type 0) (Q : B → Type 0) (m : Result A) (f : A → Result B)
    → Outcome P m
    → ((a : A) → P a → Outcome Q (f a))
    → Outcome Q (m >>= f)
Outcome_then P Q (ok a) f h k = k a h
Outcome_then P Q (err e) f h k = h

pub Outcome-raise_if {ℓ} :
    {A : Type ℓ} (P : A → Type 0) (b : Bool) (e : Error) (r : Result A)
    → is_internal e ≡ false
    → (b ≡ false → Outcome P r)
    → Outcome P (raise_if b e r)
unfolding raise_if
Outcome-raise_if P true e r h k = h
Outcome-raise_if P false e r h k = k refl

pub Outcome_weaken {ℓ} :
    {A : Type ℓ} (P Q : A → Type 0) (r : Result A)
    → ((a : A) → P a → Q a)
    → Outcome P r
    → Outcome Q r
Outcome_weaken P Q (ok a) k h = k a h
Outcome_weaken P Q (err e) k h = h

-- A result that is no internal error, with its own value.
pub Outcome_self :
    {A : Type 0} (P : A → Type 0) (r : Result A) → Outcome P r → Outcome (λ a. r ≡ ok a) r
Outcome_self P (ok a) h = refl
Outcome_self P (err e) h = h
