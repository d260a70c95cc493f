-- ===== src/Tlb/Refinement.antt =====
-- The translation buffer against an ideal one: a table of the latest fills, which a flush empties at
-- once. Generations are only a faster way to empty it.
use little.Base.{
  ℕ, ◌+◌, ◌-◌, ◌*◌, ◌/◌, ◌%◌, ◌^◌, ◌<◌, Bool, true, false, ◌&&◌, ◌==◌, if◌then◌else◌, Option, none,
  some, List, [], ◌∷◌, ◌≡◌, refl, ap, ◌⊎◌, arith, update, Bool-cases, inl, inr,
}
use little.Base.Bits.{bit_or_high_low}
use little.Tlb.{Params, Entry, Tlb, Fill, Wires, index_of, lookup, flush, write_entry, step, run}
use native.Mathlib.Nat.{one-le-pow, mod-eq_of_lt}

-- The registers after reset. Those of the entries are not reset.
pub record IsReset (t : Tlb) : Type 0 where
  pub generation_zero : t.current_generation ≡ 0
  pub none_valid : (i : ℕ) → t.valid i ≡ false

module _ (p : Params) where
  -- What a table of fills holds at an index after the cycles given, the latest first.
  pub resident : List Wires → ℕ → Option Fill
  resident [] i = none
  resident (w ∷ earlier) i =
      if w.flush_all
      then none
      else if w.fill_valid && (i == index_of p w.fill.vpage)
      then some w.fill
      else resident earlier i

  abbrev entry_of : ℕ → Fill → Entry
  entry_of g f = record {
    generation = g;
    virtual_tag = f.vpage;
    physical_page = f.ppage;
    perm = f.perm;
  }

  -- One index of the buffer holds what the table of fills holds there: the fill, with the current
  -- generation, or nothing, and then what it has is invalid or from an earlier generation.
  abbrev Holds : Tlb → ℕ → Option Fill → Type 0
  Holds t i none = (t.valid i ≡ false) ⊎ ((t.entry i).generation < t.current_generation)
  Holds t i (some f) = (t.valid i ≡ true) × (t.entry i ≡ entry_of t.current_generation f)

  record Agrees (t : Tlb) (m : ℕ → Option Fill) : Type 0 where
    generation_fits : t.current_generation < 2 ^ p.generation_bits
    holds : (i : ℕ) → Holds t i (m i)

  reset-Agrees : (t : Tlb) → IsReset t → Agrees t (resident [])
  unfolding resident
  reset-Agrees t r = record {
    generation_fits = omega (arith, r, one-le-pow p.generation_bits 2);
    holds = λ i. inl (r.none_valid i);
  }

  -- A flush forgets every fill: the generation moves on, or all valid bits are cleared.
  flush-Holds :
      (t : Tlb) (i : ℕ) (o : Option Fill)
      → t.current_generation < 2 ^ p.generation_bits
      → Holds t i o
      → Holds (flush p t) i none
  unfolding flush
  flush-Holds t i o h held = elim (Bool-cases (t.current_generation == 2 ^ p.generation_bits - 1)) [
    | inl last ↦ rw (last, flush) (inl refl)
    | inr more ↦ rw (more, flush) (next_generation o held (mod-eq_of_lt (ground arith)))
  ]
    where
      next_generation :
          (o : Option Fill)
          → Holds t i o
          → (t.current_generation + 1) % 2 ^ p.generation_bits ≡ t.current_generation + 1
          → (t.valid i ≡ false)
            ⊎ ((t.entry i).generation < (t.current_generation + 1) % 2 ^ p.generation_bits)
      next_generation none held e = rw e (ground arith)
      next_generation (some x) held e =
          rw e (inr (omega (arith, ap (λ (e : Entry). e.generation) held.1)))

  write_entry-Holds :
      (t : Tlb) (f : Fill) (i : ℕ) (o : Option Fill)
      → Holds t i o
      → Holds (write_entry p f t) i (if i == index_of p f.vpage then some f else o)
  unfolding write_entry
  write_entry-Holds t f i none held = elim (Bool-cases (i == index_of p f.vpage)) [
    | inl here ↦ rw here (rw (here, update) refl, rw (here, update) refl)
    | inr other ↦
        rw other (elim held [
          | inl v ↦ inl (rw (other, update) v)
          | inr old ↦ inr (rw (other, update) old)
        ])
  ]
  write_entry-Holds t f i (some x) held = elim (Bool-cases (i == index_of p f.vpage)) [
    | inl here ↦ rw here (rw (here, update) refl, rw (here, update) refl)
    | inr other ↦ rw other (rw (other, update) held.0, rw (other, update) held.1)
  ]

  step-Holds :
      (w : Wires) (t : Tlb) (i : ℕ) (o : Option Fill)
      → t.current_generation < 2 ^ p.generation_bits
      → Holds t i o
      → Holds (step p w t) i (
          if w.flush_all
          then none
          else if w.fill_valid && (i == index_of p w.fill.vpage)
          then some w.fill
          else o)
  unfolding step
  step-Holds w t i o h held = dispatch w.flush_all w.fill_valid
    where
      dispatch :
          (a b : Bool)
          → Holds
              (if a then flush p t else if b then write_entry p w.fill t else t)
              i
              (if a then none else if b && (i == index_of p w.fill.vpage) then some w.fill else o)
      dispatch true b = flush-Holds t i o h held
      dispatch false true = write_entry-Holds t w.fill i o held
      dispatch false false = held

  step_generation :
      (w : Wires) (t : Tlb)
      → t.current_generation < 2 ^ p.generation_bits
      → (step p w t).current_generation < 2 ^ p.generation_bits
  unfolding step
  step_generation w t h = ground (arith, one-le-pow p.generation_bits 2)

  run-Agrees : (t : Tlb) (ws : List Wires) → IsReset t → Agrees (run p ws t) (resident ws)
  unfolding run resident
  run-Agrees t [] r = reset-Agrees t r
  run-Agrees t (w ∷ ws) r =
      let a = run-Agrees t ws r in
      record {
        generation_fits = step_generation w (run p ws t) a.generation_fits;
        holds = λ i. step-Holds w (run p ws t) i (resident ws i) a.generation_fits (a.holds i);
      }

  -- Whether a table of fills has a translation of the page at its index.
  pub translates : Option Fill → ℕ → Bool
  translates none vpage = false
  translates (some f) vpage = f.vpage == vpage

  lookup-Holds :
      (t : Tlb) (vaddr : ℕ) (o : Option Fill)
      → Holds t (index_of p (vaddr / 2 ^ 12)) o
      → (lookup p t vaddr).hit ≡ translates o (vaddr / 2 ^ 12)
  unfolding lookup translates
  lookup-Holds t vaddr none held = ground arith
  lookup-Holds t vaddr (some f) held =
      ground
        (arith, ap (λ (e : Entry). e.generation) held.1, ap (λ (e : Entry). e.virtual_tag) held.1)

  -- From reset, whatever cycles have passed, a lookup hits exactly if the latest fill at the index
  -- of its page, since the last flush, was a fill of that page.
  pub lookup-hit_iff_resident :
      (t : Tlb) (ws : List Wires) (vaddr : ℕ)
      → IsReset t
      → (lookup p (run p ws t) vaddr).hit
        ≡ translates (resident ws (index_of p (vaddr / 2 ^ 12))) (vaddr / 2 ^ 12)
  lookup-hit_iff_resident t ws vaddr r =
      lookup-Holds (run p ws t) vaddr (resident ws (index_of p (vaddr / 2 ^ 12)))
        ((run-Agrees t ws r).holds _)

  entry_of_hit :
      (t : Tlb) (vaddr : ℕ) (o : Option Fill)
      → Holds t (index_of p (vaddr / 2 ^ 12)) o
      → (lookup p t vaddr).hit ≡ true
      → (f : Fill) × (o ≡ some f)
        × (f.vpage ≡ vaddr / 2 ^ 12)
        × (t.entry (index_of p (vaddr / 2 ^ 12)) ≡ entry_of t.current_generation f)
  unfolding lookup
  entry_of_hit t vaddr none held hit = absurd (ground arith)
  entry_of_hit t vaddr (some f) held hit =
      (f, refl, ground (arith, ap (λ (e : Entry). e.virtual_tag) held.1), held.1)

  -- On a hit, in a table of translations that fit the address width, the physical address is the
  -- page of that fill with the offset of the virtual address, and the permissions are its own.
  pub lookup-paddr_of_hit :
      (t : Tlb) (ws : List Wires) (vaddr : ℕ)
      → IsReset t
      → (lookup p (run p ws t) vaddr).hit ≡ true
      → (f : Fill) × (resident ws (index_of p (vaddr / 2 ^ 12)) ≡ some f)
        × (f.vpage ≡ vaddr / 2 ^ 12)
        × ((lookup p (run p ws t) vaddr).perm ≡ f.perm)
        × ((lookup p (run p ws t) vaddr).paddr
            ≡ (f.ppage * 2 ^ 12 + vaddr % 2 ^ 12) % 2 ^ p.address_width)
  unfolding lookup
  lookup-paddr_of_hit t ws vaddr r hit =
      let index = index_of p (vaddr / 2 ^ 12) in
      let (f, found, same, e) =
        entry_of_hit (run p ws t) vaddr (resident ws index) ((run-Agrees t ws r).holds index) hit in
      (
        f,
        found,
        same,
        ap (λ (x : Entry). x.perm) e,
        rw (
          ap (λ (x : Entry). x.physical_page) e,
          bit_or_high_low 12 f.ppage (vaddr % 2 ^ 12) (omega arith),
        ),
      )
