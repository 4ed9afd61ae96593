-- ===== src/System/Ledger.antt =====
-- What the bridge promises of the shares, without its contracts: contracts/bridge-handler/src/lib.rs over
-- contracts/token/src/lib.rs.
use helix_mongolian_spring.Common.{
  ◌≡◌, true, false, Bool, List, [], ◌∷◌, ◌++◌, ℤ, pos, ◌+ℤ◌, ◌-ℤ◌, ◌≤ℤ◌, int_laws, ap, pos_part,
  neg_part, Bytes, eqb_bytes, if◌then◌else◌,
}
use helix_mongolian_spring.Token.Supply.{supply}
use helix_mongolian_spring.Bridge.{Event}
use helix_mongolian_spring.System.{System}

-- The shares in existence, those that deposits brought, those that withdrawals took, and the messages
-- that are used up.
pub record Ledger : Type 0 where
  pub outstanding : ℤ
  pub received : ℤ
  pub released : ℤ
  pub settled : Bytes → Bool

abbrev pub settle : Bytes → (Bytes → Bool) → Bytes → Bool
settle message settled h = if eqb_bytes h message then true else settled h

pub data Step (a b : Ledger) : Type 0 where
  -- a deposit, with a message not used before
  deposit :
      (message : Bytes) (n : ℤ)
      → a.settled message ≡ false
      → pos 0 ≤ℤ n
      → b.outstanding ≡ a.outstanding +ℤ n
      → b.received ≡ a.received +ℤ n
      → b.released ≡ a.released
      → b.settled ≡ settle message a.settled
      → Step a b
  -- a yield update, likewise, which moves no shares
  yield_update :
      (message : Bytes)
      → a.settled message ≡ false
      → b.outstanding ≡ a.outstanding
      → b.received ≡ a.received
      → b.released ≡ a.released
      → b.settled ≡ settle message a.settled
      → Step a b
  -- a withdrawal of shares that exist
  withdraw :
      (n : ℤ)
      → pos 0 ≤ℤ n
      → n ≤ℤ a.outstanding
      → b.outstanding ≡ a.outstanding -ℤ n
      → b.received ≡ a.received
      → b.released ≡ a.released +ℤ n
      → b.settled ≡ a.settled
      → Step a b
  -- anything else: no share comes into existence
  other :
      b.outstanding ≤ℤ a.outstanding
      → b.received ≡ a.received
      → b.released ≡ a.released
      → b.settled ≡ a.settled
      → Step a b

pub data Reach : Ledger → Ledger → Type 0 where
  here : {a : Ledger} → Reach a a
  next : {a b c : Ledger} → Step a b → Reach b c → Reach a c

-- Every share in existence or withdrawn was brought by a deposit.
abbrev pub IsCovered : Ledger → Type 0
IsCovered a = a.outstanding +ℤ a.released ≤ℤ a.received

Step-IsCovered : {a b : Ledger} → Step a b → IsCovered a → IsCovered b
Step-IsCovered (deposit message n new nn o i r s) h = rw (o, i, r) (omega int_laws)
Step-IsCovered (yield_update message new o i r s) h = rw (o, i, r) h
Step-IsCovered (withdraw n nn le o i r s) h = rw (o, i, r) (omega int_laws)
Step-IsCovered (other o i r s) h = rw (i, r) (omega int_laws)

pub Reach-IsCovered : {a b : Ledger} → Reach a b → IsCovered a → IsCovered b
Reach-IsCovered here h = h
Reach-IsCovered (next s r) h = Reach-IsCovered r (Step-IsCovered s h)

-- What one event reports as brought and as taken.
abbrev pub brought : Event → ℤ
brought (Event.deposit_processed recipient shares message_id h) = shares
brought (Event.yield_updated total message_id h) = pos 0
brought (Event.recipient_registered user b) = pos 0
brought (Event.withdrawal_initiated user shares b h) = pos 0
brought (Event.withdrawals_enabled_set enabled) = pos 0
brought (Event.source_config_set chain address) = pos 0

abbrev pub taken : Event → ℤ
taken (Event.deposit_processed recipient shares message_id h) = pos 0
taken (Event.yield_updated total message_id h) = pos 0
taken (Event.recipient_registered user b) = pos 0
taken (Event.withdrawal_initiated user shares b h) = shares
taken (Event.withdrawals_enabled_set enabled) = pos 0
taken (Event.source_config_set chain address) = pos 0

unfoldable pub sum_of : (Event → ℤ) → List Event → ℤ
sum_of amount [] = pos 0
sum_of amount (e ∷ es) = amount e +ℤ sum_of amount es

pub sum_of-append :
    (amount : Event → ℤ) (es : List Event) (e : Event)
    → sum_of amount (es ++ e ∷ []) ≡ sum_of amount es +ℤ amount e
unfolding sum_of
sum_of-append amount [] e = omega int_laws
sum_of-append amount (f ∷ es) e =
    let h = sum_of-append amount es e in omega (int_laws, ap pos_part h, ap neg_part h)

-- The handler over the token, as such a ledger.
abbrev pub ledger : {A : Type 0} → System A → Ledger
ledger w = record {
  outstanding = supply w.outside.token;
  received = sum_of brought w.store.events;
  released = sum_of taken w.store.events;
  settled = w.store.processed_messages;
}
