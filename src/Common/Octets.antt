-- ===== src/Common/Octets.antt =====
-- Soroban's `Bytes`, `BytesN` and `String`: their bytes, with length, indexing and comparison.
use Prim.Native.Nat.{ℕ, zero, suc, ◌+◌}
use mathlib.Core.Path.{◌≡◌, refl}
use mathlib.Core.Bool.{Bool, true, false, ◌&&◌}
use mathlib.Core.Option.{Option, none, some}
use mathlib.Core.List.{List, [], ◌∷◌}
use native.Mathlib.Omega.{arith}
use helix_mongolian_spring.Common.Tests.{◌==◌}

abbrev pub Bytes : Type 0
Bytes = List ℕ

unfoldable pub length {ℓ} : {A : Type ℓ} → List A → ℕ
length [] = 0
length (x ∷ xs) = length xs + 1

unfoldable pub get_elem? {ℓ} : {A : Type ℓ} → List A → ℕ → Option A
get_elem? [] i = none
get_elem? (x ∷ xs) zero = some x
get_elem? (x ∷ xs) (suc i) = get_elem? xs i

unfoldable pub eqb_bytes : Bytes → Bytes → Bool
eqb_bytes [] [] = true
eqb_bytes [] (y ∷ ys) = false
eqb_bytes (x ∷ xs) [] = false
eqb_bytes (x ∷ xs) (y ∷ ys) = (x == y) && eqb_bytes xs ys

pub eqb_bytes_refl : (x : Bytes) → eqb_bytes x x ≡ true
unfolding eqb_bytes
eqb_bytes_refl [] = refl
eqb_bytes_refl (x ∷ xs) = ground (arith, eqb_bytes_refl xs)

pub eqb_bytes_eq : (x y : Bytes) → eqb_bytes x y ≡ true → x ≡ y
unfolding eqb_bytes
eqb_bytes_eq [] [] h = refl
eqb_bytes_eq [] (y ∷ ys) h = absurd (ground arith)
eqb_bytes_eq (x ∷ xs) [] h = absurd (ground arith)
eqb_bytes_eq (x ∷ xs) (y ∷ ys) h = ground (arith, eqb_bytes_eq xs ys)
