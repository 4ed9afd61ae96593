-- ===== src/Common/Storage.antt =====
-- A storage map keyed by addresses or numbers: slots in the order of their first write, where a
-- removed entry leaves an empty slot.
use Prim.Native.Nat.{ℕ}
use mathlib.Core.Path.{◌≡◌}
use mathlib.Core.Option.{Option, none, some}
use mathlib.Core.List.{List, [], ◌∷◌}
use native.Mathlib.Omega.{arith}
use mathlib.Core.Logic.{inl, inr}
use helix_mongolian_spring.Common.Tests.{◌==◌, if◌then◌else◌, Bool-cases}
use helix_mongolian_spring.Common.Int.{ℤ, pos, ◌+ℤ◌, ◌≤ℤ◌, int_laws, +ℤ_extend}

abbrev pub Map {ℓ} : Type ℓ → Type ℓ
Map V = List (ℕ × Option V)

module _ {ℓ} {V : Type ℓ} where
  unfoldable pub get : ℕ → Map V → Option V
  get k [] = none
  get k (e ∷ m) = if k == e.0 then e.1 else get k m

  -- `set` writes `some v`, and `remove` writes `none`
  unfoldable pub put : ℕ → Option V → Map V → Map V
  put k v [] = (k, v) ∷ []
  put k v (e ∷ m) = if k == e.0 then (k, v) ∷ m else e ∷ put k v m

  pub get-put :
      (j k : ℕ) (v : Option V) (m : Map V) → get j (put k v m) ≡ (if j == k then v else get j m)
  unfolding get put
  get-put j k v [] = ground arith
  get-put j k v (e ∷ m) = ground (arith, get-put j k v m)

  -- Every slot satisfies `P`.
  abbrev pub Entries {κ} : (Option V → Type κ) → Map V → Type κ
  Entries P [] = Unit
  Entries P (e ∷ m) = P e.1 × Entries P m

  pub Entries-put {κ} :
      (P : Option V → Type κ) (k : ℕ) (v : Option V) (m : Map V)
      → Entries P m
      → P v
      → Entries P (put k v m)
  unfolding put
  Entries-put P k v [] h p = (p, tt)
  Entries-put P k v (e ∷ m) h p = ground (arith, Entries-put P k v m h.1 p)

  pub Entries-get {κ} :
      (P : Option V → Type κ) (k : ℕ) (m : Map V) → Entries P m → P none → P (get k m)
  unfolding get
  Entries-get P k [] h p = p
  Entries-get P k (e ∷ m) h p = ground (arith, Entries-get P k m h.1 p)

  pub Entries-imp {κ μ} :
      {P : Option V → Type κ} {Q : Option V → Type μ}
      → ((o : Option V) → P o → Q o)
      → (m : Map V) → Entries P m
      → Entries Q m
  Entries-imp f [] h = tt
  Entries-imp f (e ∷ m) h = (f e.1 h.0, Entries-imp f m h.1)

  module _ (f : V → ℤ) where
    abbrev pub weight : Option V → ℤ
    weight none = pos 0
    weight (some v) = f v

    -- The sum of a measure over the entries.
    unfoldable pub total : Map V → ℤ
    total [] = pos 0
    total (e ∷ m) = weight e.1 +ℤ total m

    pub total-put :
        (k : ℕ) (v : Option V) (m : Map V)
        → total (put k v m) +ℤ weight (get k m) ≡ total m +ℤ weight v
    unfolding total put get
    total-put k v [] = omega int_laws
    total-put k v (e ∷ m) = elim (Bool-cases (k == e.0)) [
      | inl here ↦ rw here (omega int_laws)
      | inr there ↦ rw there (+ℤ_extend (weight e.1) _ _ _ _ (total-put k v m))
    ]

    pub get-le-total :
        (k : ℕ) (m : Map V)
        → Entries (λ o. pos 0 ≤ℤ weight o) m
        → (pos 0 ≤ℤ total m) × (weight (get k m) ≤ℤ total m)
    unfolding total get
    get-le-total k [] h = omega arith
    get-le-total k (e ∷ m) h = grind (int_laws, get-le-total k m h.1)
