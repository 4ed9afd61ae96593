-- ===== src/Common/Outside.antt =====
-- A contract's own storage beside that of the contracts it calls.
use mathlib.Core.Option.{Option, none, some}
use helix_mongolian_spring.Common.Host.{Exec, ok, err, callee, modify}

pub record World (S W : Type 0) : Type 0 where
  pub store : S
  pub outside : W

module _ {E S W : Type 0} where
  -- a query of another contract; `none` is a call that fails
  abbrev pub ask : {A : Type 0} → (W → Option A) → Exec E (World S W) A
  ask query w = elim (query w.outside) [ none ↦ err callee | some a ↦ ok (a, w) ]

  -- a call of another contract that writes
  abbrev pub invoke : (W → Option W) → Exec E (World S W) (Unit {0})
  invoke call w = elim (call w.outside) [
    | none ↦ err callee
    | some o ↦ ok (tt, record w { outside = o })
  ]

  -- one that writes and answers
  abbrev pub invoke_for : {A : Type 0} → (W → Option (A × W)) → Exec E (World S W) A
  invoke_for call w = elim (call w.outside) [
    | none ↦ err callee
    | some r ↦ ok (r.0, record w { outside = r.1 })
  ]

  abbrev pub update : (S → S) → Exec E (World S W) (Unit {0})
  update change = modify λ w. record w { store = change w.store }
