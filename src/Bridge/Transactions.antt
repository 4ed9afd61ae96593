-- ===== src/Bridge/Transactions.antt =====
-- contracts/bridge-handler/src/lib.rs: the transactions on a bridge handler.
use helix_mongolian_spring.Common.{
  ℕ, ◌≡◌, ◌⊎◌, refl, false, true, Bool, ℤ, [], ◌∷◌, ◌++◌, arith, Address, Bytes, Env, ok, World,
  inl, inr,
}
use helix_mongolian_spring.Bridge.{Event, Store, Externals, Library, Call}
use helix_mongolian_spring.Bridge.Calls
use helix_mongolian_spring.Bridge.Admin
use helix_mongolian_spring.Bridge.Runs.{DepositRun, YieldRun}
use helix_mongolian_spring.Bridge.Withdrawals.{WithdrawalRun, initiate_withdrawal-WithdrawalRun}
use helix_mongolian_spring.Bridge.Executions.{Approved, execute-Approved, process_message-cases}

-- The entry points that write.
pub data Op : Type 0 where
  execute : (source_chain message_id source_address payload : Bytes) → Op
  register_recipient : (user : Address) → Bytes → Op
  initiate_withdrawal : (user : Address) → ℤ → Bytes → Op
  set_rate_limits : (max_mint max_burn : ℤ) → ℕ → Op
  pause unpause : Op
  set_withdrawals_enabled : Bool → Op
  set_source_config : (source_chain source_address : Bytes) → Op
  set_admin : Address → Op
  upgrade : ℕ → Op

-- An event that tells of a message or a withdrawal.
abbrev pub tells_of_shares : Event → Bool
tells_of_shares (Event.deposit_processed recipient shares message_id h) = true
tells_of_shares (Event.yield_updated total message_id h) = true
tells_of_shares (Event.withdrawal_initiated user shares b h) = true
tells_of_shares (Event.recipient_registered user b) = false
tells_of_shares (Event.withdrawals_enabled_set enabled) = false
tells_of_shares (Event.source_config_set chain address) = false

-- No message is processed and nothing is counted or called; at most one other event is published.
pub record Quiet {W : Type 0} (w w' : World Store W) : Type 0 where
  pub same_outside : w'.outside ≡ w.outside
  pub same_marks : w'.store.processed_messages ≡ w.store.processed_messages
  pub same_mints : w'.store.epoch_mints ≡ w.store.epoch_mints
  pub same_burns : w'.store.epoch_burns ≡ w.store.epoch_burns
  pub notice :
      (w'.store.events ≡ w.store.events)
      ⊎ ((e : Event) × (tells_of_shares e ≡ false) × (w'.store.events ≡ w.store.events ++ e ∷ []))

module _ {W : Type 0} (lib : Library) (x : Externals W) where
  unfoldable pub apply : Env → Op → Call W (Unit {0})
  apply env (execute source_chain message_id source_address payload) =
      Calls.execute lib x env source_chain message_id source_address payload
  apply env (register_recipient user evm_address) = Admin.register_recipient env user evm_address
  apply env (initiate_withdrawal user shares eth_recipient) =
      Calls.initiate_withdrawal lib x env user shares eth_recipient
  apply env (set_rate_limits max_mint max_burn duration) =
      Admin.set_rate_limits env max_mint max_burn duration
  apply env pause = Admin.pause env
  apply env unpause = Admin.unpause env
  apply env (set_withdrawals_enabled enabled) = Admin.set_withdrawals_enabled env enabled
  apply env (set_source_config chain address) = Admin.set_source_config env chain address
  apply env (set_admin admin) = Admin.set_admin env admin
  apply env (upgrade hash) = Admin.upgrade env hash

module _ {W : Type 0} (lib : Library) (x : Externals W) (env : Env) (w w' : World Store W) where
  -- What a call that returns has done.
  pub data Called : Type 0 where
    executed :
        (c m a p : Bytes) (run : Approved lib x env c m a p w w')
        → DepositRun lib x env m p (lib.keccak256 p) run.approved w'
          ⊎ YieldRun lib x env m p (lib.keccak256 p) run.approved w'
        → Called
    withdrew :
        (user : Address) (shares : ℤ) (eth_recipient : Bytes)
        → WithdrawalRun lib x env user shares eth_recipient w w'
        → Called
    kept_quiet : Quiet w w' → Called

  pub apply-Called : (op : Op) → apply lib x env op w ≡ ok (tt, w') → Called
  unfolding apply
  apply-Called (execute c m a p) e =
      let run = execute-Approved lib x env c m a p w w' e in
      executed c m a p run (
        process_message-cases lib x env run.message_type m p (lib.keccak256 p) run.approved w'
          run.processed)
  apply-Called (initiate_withdrawal user n b) e =
      withdrew user n b (initiate_withdrawal-WithdrawalRun lib x env user n b w w' e)
  apply-Called (register_recipient user b) e = kept_quiet (
      unfold Admin.register_recipient in
      record {
        same_outside = ground arith;
        same_marks = ground arith;
        same_mints = ground arith;
        same_burns = ground arith;
        notice = inr (Event.recipient_registered user b, refl, ground arith);
      })
  apply-Called (set_rate_limits max_mint max_burn duration) e = kept_quiet (
      unfold Admin.set_rate_limits in
      record {
        same_outside = ground arith;
        same_marks = ground arith;
        same_mints = ground arith;
        same_burns = ground arith;
        notice = inl (ground arith);
      })
  apply-Called pause e = kept_quiet (
      unfold Admin.pause in
      record {
        same_outside = ground arith;
        same_marks = ground arith;
        same_mints = ground arith;
        same_burns = ground arith;
        notice = inl (ground arith);
      })
  apply-Called unpause e = kept_quiet (
      unfold Admin.unpause in
      record {
        same_outside = ground arith;
        same_marks = ground arith;
        same_mints = ground arith;
        same_burns = ground arith;
        notice = inl (ground arith);
      })
  apply-Called (set_withdrawals_enabled enabled) e = kept_quiet (
      unfold Admin.set_withdrawals_enabled in
      record {
        same_outside = ground arith;
        same_marks = ground arith;
        same_mints = ground arith;
        same_burns = ground arith;
        notice = inr (Event.withdrawals_enabled_set enabled, refl, ground arith);
      })
  apply-Called (set_source_config chain address) e = kept_quiet (
      unfold Admin.set_source_config in
      record {
        same_outside = ground arith;
        same_marks = ground arith;
        same_mints = ground arith;
        same_burns = ground arith;
        notice = inr (Event.source_config_set chain address, refl, ground arith);
      })
  apply-Called (set_admin admin) e = kept_quiet (
      unfold Admin.set_admin in
      record {
        same_outside = ground arith;
        same_marks = ground arith;
        same_mints = ground arith;
        same_burns = ground arith;
        notice = inl (ground arith);
      })
  apply-Called (upgrade hash) e = kept_quiet (
      unfold Admin.upgrade in
      record {
        same_outside = ground arith;
        same_marks = ground arith;
        same_mints = ground arith;
        same_burns = ground arith;
        notice = inl (ground arith);
      })
