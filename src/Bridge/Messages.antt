-- ===== src/Bridge/Messages.antt =====
-- contracts/bridge-handler/src/lib.rs: how often a message is processed.
use helix_mongolian_spring.Common.{
  ℕ, ◌+◌, ◌≡◌, ◌⊎◌, ◌∙◌, ap, refl, false, List, [], ◌∷◌, ◌++◌, arith, Bytes, eqb_bytes,
  if◌then◌else◌, Env, World, inl, inr,
}
use helix_mongolian_spring.Bridge.{Event, Store, Externals, Library}
use helix_mongolian_spring.Bridge.Runs.{with_processed, DepositRun, YieldRun}
use helix_mongolian_spring.Bridge.Transactions.{
  tells_of_shares, Quiet, Called, executed, withdrew, kept_quiet,
}

-- Whether an event reports that the payload with a hash was processed.
abbrev pub reports : Bytes → Event → ℕ
reports h (Event.deposit_processed recipient shares message_id g) = if eqb_bytes h g then 1 else 0
reports h (Event.yield_updated total message_id g) = if eqb_bytes h g then 1 else 0
reports h (Event.recipient_registered user b) = 0
reports h (Event.withdrawal_initiated user shares b g) = 0
reports h (Event.withdrawals_enabled_set enabled) = 0
reports h (Event.source_config_set chain address) = 0

-- How often the events report it.
unfoldable pub processings : Bytes → List Event → ℕ
processings h [] = 0
processings h (e ∷ es) = reports h e + processings h es

pub processings-append :
    (h : Bytes) (es fs : List Event)
    → processings h (es ++ fs) ≡ processings h es + processings h fs
unfolding processings
processings-append h [] fs = omega arith
processings-append h (e ∷ es) fs = omega (arith, processings-append h es fs)

-- One message, not processed before, is reported and marked.
pub record Processed (s s' : Store) : Type 0 where
  pub payload_hash : Bytes
  pub event : Event
  pub reported : (h : Bytes) → reports h event ≡ (if eqb_bytes h payload_hash then 1 else 0)
  pub new : s.processed_messages payload_hash ≡ false
  pub appended : s'.events ≡ s.events ++ event ∷ []
  pub marked : s'.processed_messages ≡ (with_processed payload_hash s).processed_messages

-- Nothing is marked, and nothing reported.
pub record Silent (s s' : Store) : Type 0 where
  pub same_marks : s'.processed_messages ≡ s.processed_messages
  pub same_reports : (h : Bytes) → processings h s'.events ≡ processings h s.events

-- One event that reports nothing.
Silent-event :
    (s s' : Store) (e : Event)
    → ((h : Bytes) → reports h e ≡ 0)
    → s'.processed_messages ≡ s.processed_messages
    → s'.events ≡ s.events ++ e ∷ []
    → Silent s s'
unfolding processings
Silent-event s s' e quiet marks events = record {
  same_marks = marks;
  same_reports = λ h.
      ap (processings h) events ∙ processings-append h s.events (e ∷ []) ∙ omega (arith, quiet h);
}

reports_none : (h : Bytes) (e : Event) → tells_of_shares e ≡ false → reports h e ≡ 0
reports_none h (Event.deposit_processed recipient shares message_id g) q = absurd (ground arith)
reports_none h (Event.yield_updated total message_id g) q = absurd (ground arith)
reports_none h (Event.withdrawal_initiated user shares b g) q = refl
reports_none h (Event.recipient_registered user b) q = refl
reports_none h (Event.withdrawals_enabled_set enabled) q = refl
reports_none h (Event.source_config_set chain address) q = refl

Quiet-Silent : {W : Type 0} (w w' : World Store W) → Quiet w w' → Silent w.store w'.store
Quiet-Silent w w' q = elim q.notice [
  | inl same ↦ record { same_marks = q.same_marks; same_reports = λ h. ap (processings h) same }
  | inr (e, unrelated, appended) ↦
      Silent-event w.store w'.store e (λ h. reports_none h e unrelated) q.same_marks appended
]

module _ {W : Type 0} (lib : Library) (x : Externals W) (env : Env) where
  DepositRun-Processed :
      (message_id payload h : Bytes) (w w' : World Store W)
      → DepositRun lib x env message_id payload h w w'
      → Processed w.store w'.store
  DepositRun-Processed message_id payload h w w' run = record {
    payload_hash = h;
    event = Event.deposit_processed run.recipient run.shares message_id h;
    reported = λ g. refl;
    new = run.new;
    appended = ap (λ (s : Store). s.events) run.written;
    marked = ap (λ (s : Store). s.processed_messages) run.written;
  }

  YieldRun-Processed :
      (message_id payload h : Bytes) (w w' : World Store W)
      → YieldRun lib x env message_id payload h w w'
      → Processed w.store w'.store
  YieldRun-Processed message_id payload h w w' run = record {
    payload_hash = h;
    event = Event.yield_updated run.new_total_assets message_id h;
    reported = λ g. refl;
    new = run.new;
    appended = ap (λ (s : Store). s.events) run.written;
    marked = ap (λ (s : Store). s.processed_messages) run.written;
  }

-- A call that returns processes one new message or none, and then tells of none.
pub Called-cases :
    {W : Type 0} (lib : Library) (x : Externals W) (env : Env) (w w' : World Store W)
    → Called lib x env w w'
    → Processed w.store w'.store ⊎ Silent w.store w'.store
Called-cases lib x env w w' (executed c m a p run (inl d)) = inl (
    let done = DepositRun-Processed lib x env m p (lib.keccak256 p) run.approved w' d in
    rw run.same at done)
Called-cases lib x env w w' (executed c m a p run (inr y)) = inl (
    let done = YieldRun-Processed lib x env m p (lib.keccak256 p) run.approved w' y in
    rw run.same at done)
Called-cases lib x env w w' (withdrew user n b run) = inr (
    Silent-event w.store w'.store (Event.withdrawal_initiated user n b (lib.keccak256 run.payload))
      (λ h. refl) (ap (λ (s : Store). s.processed_messages) run.written)
      (ap (λ (s : Store). s.events) run.written))
Called-cases lib x env w w' (kept_quiet q) = inr (Quiet-Silent w w' q)
