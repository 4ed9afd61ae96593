-- ===== src/Lib.antt =====
-- The Soroban contracts of Helix: the lending vault, its share token, its oracle adaptor and its
-- bridge handler.
--
-- The parts and how they meet. A user deposits collateral shares of the hstETH token into the vault
-- (contracts/vault/src/lib.rs) and borrows another token against them; the vault asks the oracle
-- adaptor (contracts/oracle-adaptor/src/lib.rs) for prices and the token (contracts/token/src/lib.rs)
-- for balances, transfers and the worth of shares. The adaptor merges two price feeds and tells the
-- vault to pause when they disagree. The bridge handler (contracts/bridge-handler/src/lib.rs) mints and
-- burns shares and sets the assets of the token, on messages that the Axelar gateway approved and on
-- withdrawals by their holders. Each contract keeps its own storage and is called by anyone; the
-- host commits the writes of a call that returns and discards those of a call that fails.
--
-- The files:
--   Common   what the contracts take from the language and the host: i128 arithmetic (Common/Int),
--            calls that return or fail (Common/Host), storage maps and sums over them (Common/Storage),
--            bytes (Common/Octets), another contract's storage (Common/Outside), exclusive or (Common/Bits)
--   Token    the storage and internal functions of the token; Token/Calls its entry points;
--            Token/Supply, Rate, Allowance, Transfers, Conversion, Reach and Authority the proofs
--   Vault    the storage and internal functions of the vault; Vault/Risk interest, prices and health;
--            Vault/Calls, with a file for each group, and Vault/Admin its entry points; the other
--            files of Vault the proofs: the *Runs files say which steps an entry point has gone through
--            when it returns, Accounting and Books what it books, Repayment and Seizure what a repayment
--            and a liquidation take, Custody how the vault's balance of a token follows, Lock and
--            Unlocked the lock, Released what it leaves, Reach all sequences of transactions, Solvency and Outcomes what a
--            single call establishes, Authority who may change the configuration
--   Oracle   the storage of the adaptor; Oracle/Calls its functions; Oracle/Scale, Average, Feeds,
--            Prices and Reach the proofs
--   Bridge   the storage and internal functions of the bridge handler; Bridge/Words its conversions of
--            integers and the nonces, Bridge/Strkey the text of an address with the table of its
--            checksum in Bridge/Strkey/Crc and a proof on it in Bridge/Strkey/Checksum, Bridge/Calls
--            messages and withdrawals, Bridge/Admin the rest of the entry points; Bridge/Runs,
--            Withdrawals, Executions, Transactions, Messages, Reach, Limits and Delivery the proofs
--   System   the bridge handler over the token of this development; System/Ledger what they promise of the
--            shares, System/Refines that they keep it
--   Blend    the price feed for Blend (contracts/blend-oracle-adaptor/src/lib.rs); Blend/Quotes its answers,
--            also over the oracle adaptor of this development
--   Poc      the bridge experiment (contracts/bridge-poc/src/lib.rs); Poc/Delivery its texts
--   Bot      the types of the liquidation bot (liquidation-bot/src); Bot/Scanner its scanner.rs,
--            Bot/Health its health.rs, Bot/Executor its executor.rs, Bot/Iteration main.rs with what an
--            iteration sends, Bot/Retry the loop around every request of rpc.rs; Bot/Ordering,
--            Candidates, Sending, Tracking, Positions, Retrying and, with the vault, Agreement the
--            proofs
--   Tests in each folder are concrete runs that meet the theorems' hypotheses.
--
-- How the state corresponds. Each contract's `Store` is its storage: the instance entries, which
-- `initialize` writes together and nothing removes, are `Option Instance`, with `none` before it; the
-- persistent entries that are summed are a `Map`, in which a removed entry is an empty slot; roles
-- and allowances are functions. An address is a number. A call is a function from the state to a value
-- and a state, or to a fault: an error of the contract, a refused authorisation, or a failed call of
-- another contract. `authorized` in `Env` says whose `require_auth` passes. An entry point has the
-- source's name; a body that the source passes to `with_lock` is `deposit_locked` and so on, and the
-- writes at its end are `book_deposit` and so on.
--
-- The liquidation bot is a function from a state of the network to a result, or an error, and a state; each
-- request may find the network changed. The network's side is the parameters `Rpc` and `EventRpc`, and
-- what was sent to it is kept beside it.
--
-- The other contracts are the parameter `Externals W`, over any type `W` of their storage. Nothing is
-- assumed of what they answer. The host forbids calling back into a contract that is running, so they
-- do not write the caller's storage. Between two transactions of a sequence they may change in any way.
-- In `System` the handler's token is the one of this development, and `IsForeign` says of which calls of
-- it from elsewhere the theorems speak.
--
-- Integers: an i128 is an exact integer, and the checked operations test that it is representable;
-- Rust's `/` truncates. The few unchecked operations are a halving, a quotient by a positive number, a
-- difference of two prices that are not negative and a saturating subtraction of timestamps, none of
-- which overflows. Loops are structural recursion; no fuel is used.
--
-- Not modelled: extending an entry's time to live, which changes no value; the expiry of temporary
-- entries; what a contract does after `upgrade`, which here records the hash and leaves the code;
-- the mocks under contracts; of the liquidation bot the rest of the client, which is network input and
-- output around other libraries, and the log; the dashboard, the product adapters and the scripts.
pub mod Common
pub mod Token
pub mod Vault
pub mod Oracle
pub mod Bridge
pub mod Blend
pub mod Bot
pub mod System
pub mod Poc
