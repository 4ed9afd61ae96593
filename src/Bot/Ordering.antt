-- ===== src/Bot/Ordering.antt =====
-- liquidation-bot/src/health.rs: the order of the candidates.
use mathlib.Core.List.{Perm}
use mathlib.Core.List.Perm
use helix_mongolian_spring.Common.{List, [], ◌∷◌, ◌≤ℤ◌, leb_ℤ, arith, Bool-cases, inl, inr}
use helix_mongolian_spring.Bot.{HealthAssessment}
use helix_mongolian_spring.Bot.Health.{insert, sort_by_health_factor}

-- In ascending order of the health factors.
abbrev pub IsAscending : List HealthAssessment → Type 0
IsAscending [] = Unit
IsAscending (a ∷ []) = Unit
IsAscending (a ∷ b ∷ rest) = (a.health_factor ≤ℤ b.health_factor) × IsAscending (b ∷ rest)

insert-Perm : (a : HealthAssessment) (l : List HealthAssessment) → Perm (a ∷ l) (insert a l)
unfolding insert
insert-Perm a [] = Perm.refl (a ∷ [])
insert-Perm a (b ∷ rest) = elim (Bool-cases (leb_ℤ a.health_factor b.health_factor)) [
  | inl le ↦ rw le (Perm.refl (a ∷ b ∷ rest))
  | inr gt ↦ rw gt (Perm.trans (Perm.swap b a rest) (Perm.cons b (insert-Perm a rest)))
]

pub sort-Perm : (l : List HealthAssessment) → Perm l (sort_by_health_factor l)
unfolding sort_by_health_factor
sort-Perm [] = Perm.refl []
sort-Perm (a ∷ rest) =
    Perm.trans (Perm.cons a (sort-Perm rest)) (insert-Perm a (sort_by_health_factor rest))

insert-IsAscending :
    (a : HealthAssessment) (l : List HealthAssessment) → IsAscending l → IsAscending (insert a l)
unfolding insert
insert-IsAscending a [] h = tt
insert-IsAscending a (b ∷ []) h = elim (Bool-cases (leb_ℤ a.health_factor b.health_factor)) [
  | inl le ↦ rw le (ground arith)
  | inr gt ↦ rw gt (ground arith)
]
insert-IsAscending a (b ∷ c ∷ rest) h =
    let ih = insert-IsAscending a (c ∷ rest) h.1 in
    elim (Bool-cases (leb_ℤ a.health_factor b.health_factor)) [
      | inl le ↦ rw le (ground arith, h)
      | inr gt ↦ elim (Bool-cases (leb_ℤ a.health_factor c.health_factor)) [
        | inl le' ↦ rw (gt, le') (ground arith, (ground arith, h.1))
        | inr gt' ↦ rw (gt, gt') (h.0, rw gt' at ih)
      ]
    ]

pub sort-IsAscending : (l : List HealthAssessment) → IsAscending (sort_by_health_factor l)
unfolding sort_by_health_factor
sort-IsAscending [] = tt
sort-IsAscending (a ∷ rest) =
    insert-IsAscending a (sort_by_health_factor rest) (sort-IsAscending rest)
