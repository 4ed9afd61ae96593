-- ===== src/Common/Host.antt =====
-- A contract call on the storage it may write. The host commits the writes of a call that returns
-- and discards those of a call that fails, so a failed call has no state.
use Prim.Native.Nat.{ℕ}
use mathlib.Core.Path.{◌≡◌, refl}
use mathlib.Core.Logic.{◌⊎◌, inl, inr}
use mathlib.Core.Bool.{Bool, true, false, not}
use helix_mongolian_spring.Common.Int.{ℤ, in_i128}

-- Addresses are only compared.
abbrev pub Address : Type 0
Address = ℕ

-- What the host tells an invocation: `env.ledger()`, `env.current_contract_address()`, and the
-- addresses whose `require_auth` passes in it.
pub record Env : Type 0 where
  pub timestamp : ℕ
  pub sequence : ℕ
  pub current_contract : Address
  pub authorized : Address → Bool

-- Why a call fails: an error of the contract, a refused `require_auth`, or a call of another
-- contract that failed.
pub data Fault (E : Type 0) : Type 0 where
  raised : E → Fault E
  auth : Fault E
  callee : Fault E

pub data Result (E A : Type 0) : Type 0 where
  ok : A → Result E A
  err : Fault E → Result E A

abbrev pub Exec : Type 0 → Type 0 → Type 0 → Type 0
Exec E S A = S → Result E (A × S)

module _ {E S A : Type 0} where
  abbrev pub pure : A → Exec E S A
  pure a s = ok (a, s)

  abbrev pub fail : Fault E → Exec E S A
  fail f s = err f

  abbrev pub gets : (S → A) → Exec E S A
  gets f s = ok (f s, s)

  -- the value of a result that touches no storage
  abbrev pub lift : Result E A → Exec E S A
  lift (ok a) s = ok (a, s)
  lift (err f) s = err f

infixl 5 ◌>>=◌ ◌>>◌
abbrev pub ◌>>=◌ : {E S A B : Type 0} → Exec E S A → (A → Exec E S B) → Exec E S B
◌>>=◌ m f s = elim (m s) [ ok (a, s') ↦ f a s' | err e ↦ err e ]

abbrev pub ◌>>◌ : {E S A B : Type 0} → Exec E S A → Exec E S B → Exec E S B
m >> k = m >>= λ _. k

module _ {E S : Type 0} where
  abbrev pub modify : (S → S) → Exec E S (Unit {0})
  modify f s = ok (tt, f s)

  -- `if c { panic_with_error!(env, e) }`
  abbrev pub panic_if : Bool → E → Exec E S (Unit {0})
  panic_if true e s = err (raised e)
  panic_if false e s = ok (tt, s)

  abbrev refuse_if : Bool → Exec E S (Unit {0})
  refuse_if true s = err auth
  refuse_if false s = ok (tt, s)

  -- The value of `i128::checked_add` and its like, or the contract's error on overflow.
  abbrev pub checked : E → ℤ → Exec E S ℤ
  checked e v = panic_if (not (in_i128 v)) e >> pure v

  -- `address.require_auth()`
  abbrev pub require_auth : Env → Address → Exec E S (Unit {0})
  require_auth env a = refuse_if (not (env.authorized a))

  -- The state after a transaction that makes one call.
  abbrev pub commit : {A : Type 0} → Exec E S A → S → S
  commit m s = elim (m s) [ ok (_, s') ↦ s' | err _ ↦ s ]

-- How a call ended, with the equation.
pub Result-cases :
    {E S A : Type 0} (r : Result E (A × S))
    → ((a : A) × (s : S) × (r ≡ ok (a, s))) ⊎ ((f : Fault E) × (r ≡ err f))
Result-cases (ok (a, s)) = inl (a, s, refl)
Result-cases (err f) = inr (f, refl)

-- A sequence that returns: its first call returned, and then the rest did.
pub >>=-eq-ok :
    {E S A B : Type 0} (m : Exec E S A) (f : A → Exec E S B) (s : S) {b : B} {s' : S}
    → (m >>= f) s ≡ ok (b, s')
    → (a : A) × (s1 : S) × (m s ≡ ok (a, s1)) × (f a s1 ≡ ok (b, s'))
>>=-eq-ok m f s {b} {s'} h = go (m s) refl h
  where
    go :
        (r : Result _ _)
        → m s ≡ r
        → elim r [ ok (a, s1) ↦ f a s1 | err e ↦ err e ] ≡ ok (b, s')
        → (a : _) × (s1 : _) × (m s ≡ ok (a, s1)) × (f a s1 ≡ ok (b, s'))
    go (ok (a, s1)) e h = (a, s1, e, h)
    go (err f) e h = cc

-- A call that left the storage as it was.
pub unchanged :
    {E S A : Type 0} {r : Result E (A × S)} {a : A} {s s' : S}
    → r ≡ ok (a, s')
    → s' ≡ s
    → r ≡ ok (a, s)
unchanged {a} e h = rw h at e
