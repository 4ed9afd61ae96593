-- ===== src/Common/Lists.antt =====
-- What holds of every element of a list.
use mathlib.Core.List.{List, [], ◌∷◌}

abbrev pub All {ℓ κ} : {A : Type ℓ} → (A → Type κ) → List A → Type κ
All P [] = Unit
All P (a ∷ rest) = P a × All P rest
