-- ===== src/Bridge/Limits.antt =====
-- contracts/bridge-handler/src/lib.rs: the limits per epoch, the words of the messages and the nonces.
use helix_mongolian_spring.Common.{
  ℕ, ◌/◌, ◌^◌, ◌≤◌, ◌<◌, ◌≡◌, ◌⊎◌, ◌∙◌, ap, some, none, Option, arith, Address, Bytes, Env, ok,
  World, ℤ, pos, ◌+ℤ◌, ◌≤ℤ◌, +ℤ_parts, put, get-put, Map, ◌==◌, if◌then◌else◌, ==_iff, Bool-cases,
  inl, inr,
}
use helix_mongolian_spring.Bridge.{Instance, Store, Externals, Library, count_of}
use helix_mongolian_spring.Bridge.Words.{u256_to_i128, i128_to_u256}
use helix_mongolian_spring.Bridge.Runs.{DepositRun, YieldRun}
use helix_mongolian_spring.Bridge.Withdrawals.{WithdrawalRun}
use helix_mongolian_spring.Bridge.Transactions.{
  Op, apply, Called, executed, withdrew, kept_quiet, apply-Called,
}

-- A word is read exactly where it is below 2^127, and is then its own value; writing the value gives
-- the word back.
pub u256_to_i128-i128_to_u256 :
    (v : ℕ)
    → ((v < 2 ^ 127) × (u256_to_i128 v ≡ some (pos v)) × (i128_to_u256 (pos v) ≡ some v))
      ⊎ ((2 ^ 127 ≤ v) × (u256_to_i128 v ≡ none))
unfolding u256_to_i128 i128_to_u256
u256_to_i128-i128_to_u256 v = ground arith

u256_to_i128_nonneg : (v : ℕ) (n : ℤ) → u256_to_i128 v ≡ some n → pos 0 ≤ℤ n
u256_to_i128_nonneg v n e = ground (arith, u256_to_i128-i128_to_u256 v)

-- The count of an epoch is as before, or it is the current epoch's, has not fallen, and is within the
-- limit.
abbrev pub Counted : (k : ℕ) (before after limit : ℤ) (now : ℕ) → Type 0
Counted k before after limit now =
    (after ≡ before) ⊎ ((k ≡ now) × (before ≤ℤ after) × (after ≤ℤ limit))

pub record Limited (env : Env) (i : Instance) (s s' : Store) : Type 0 where
  pub mints :
      (k : ℕ)
      → Counted k
          (count_of k s.epoch_mints)
          (count_of k s'.epoch_mints)
          i.max_mint_per_epoch
          (env.sequence / i.epoch_duration)
  pub burns :
      (k : ℕ)
      → Counted k
          (count_of k s.epoch_burns)
          (count_of k s'.epoch_burns)
          i.max_burn_per_epoch
          (env.sequence / i.epoch_duration)

count_of-put :
    (j k : ℕ) (n : ℤ) (m : Map ℤ)
    → count_of j (put k (some n) m) ≡ (if j == k then n else count_of j m)
count_of-put j k n m = ground (arith, get-put j k (some n) m)

raised : (a b c n : ℤ) → pos 0 ≤ℤ n → a ≡ c → b ≡ c +ℤ n → a ≤ℤ b
raised a b c n nn e f = rw (e, f) (omega (arith, +ℤ_parts c n))

put-Counted :
    (j k now : ℕ) (n limit : ℤ) (m m' : Map ℤ)
    → k ≡ now
    → pos 0 ≤ℤ n
    → count_of k m +ℤ n ≤ℤ limit
    → m' ≡ put k (some (count_of k m +ℤ n)) m
    → Counted j (count_of j m) (count_of j m') limit now
put-Counted j k now n limit m m' ek nn h e =
    let c : count_of j m' ≡ (if j == k then count_of k m +ℤ n else count_of j m) =
      ap (count_of j) e ∙ count_of-put j k (count_of k m +ℤ n) m in
    elim (Bool-cases (j == k)) [
      | inl here ↦
          let ej : j ≡ k = (==_iff j k).0 here in
          let new : count_of j m' ≡ count_of k m +ℤ n = rw here at c in
          let old : count_of j m ≡ count_of k m = ap (λ t. count_of t m) ej in
          inr (ej ∙ ek, raised (count_of j m) (count_of j m') (count_of k m) n nn old new, rw new h)
      | inr there ↦ inl (ground arith)
    ]

same_some : {o : Option Instance} {a b : Instance} → o ≡ some a → o ≡ some b → a ≡ b
same_some p q = ground arith

module _ {W : Type 0} (lib : Library) (x : Externals W) (env : Env) where
  DepositRun-Limited :
      (message_id payload h : Bytes) (i : Instance) (w w' : World Store W)
      → w.store.instance_storage ≡ some i
      → DepositRun lib x env message_id payload h w w'
      → Limited env i w.store w'.store
  DepositRun-Limited message_id payload h i w w' es run =
      let ei : run.instance_before ≡ i = same_some run.initialized es in
      let nn = u256_to_i128_nonneg run.decoded.shares run.shares run.word in
      record {
        mints = λ k. rw (← ei) (
            put-Counted k run.epoch _ run.shares _ w.store.epoch_mints w'.store.epoch_mints
              run.dated nn run.within (ap (λ (s : Store). s.epoch_mints) run.written));
        burns = λ k. inl (ap (λ (s : Store). count_of k s.epoch_burns) run.written);
      }

  YieldRun-Limited :
      (message_id payload h : Bytes) (i : Instance) (w w' : World Store W)
      → YieldRun lib x env message_id payload h w w'
      → Limited env i w.store w'.store
  YieldRun-Limited message_id payload h i w w' run = record {
    mints = λ k. inl (ap (λ (s : Store). count_of k s.epoch_mints) run.written);
    burns = λ k. inl (ap (λ (s : Store). count_of k s.epoch_burns) run.written);
  }

  WithdrawalRun-Limited :
      (user : Address) (n : ℤ) (b : Bytes) (i : Instance) (w w' : World Store W)
      → w.store.instance_storage ≡ some i
      → WithdrawalRun lib x env user n b w w'
      → Limited env i w.store w'.store
  WithdrawalRun-Limited user n b i w w' es run =
      let ei : run.instance_before ≡ i = same_some run.initialized es in
      record {
        mints = λ k. inl (ap (λ (s : Store). count_of k s.epoch_mints) run.written);
        burns = λ k. rw (← ei) (
            put-Counted k run.epoch _ n _ w.store.epoch_burns w'.store.epoch_burns run.dated
              run.nonneg run.within (ap (λ (s : Store). s.epoch_burns) run.written));
      }

  Called-Limited :
      (i : Instance) (w w' : World Store W)
      → w.store.instance_storage ≡ some i
      → Called lib x env w w'
      → Limited env i w.store w'.store
  Called-Limited i w w' es (executed c m a p run (inl d)) =
      let es' : run.approved.store.instance_storage ≡ some i = rw run.same es in
      (let done = DepositRun-Limited m p (lib.keccak256 p) i run.approved w' es' d in
        rw run.same at done)
  Called-Limited i w w' es (executed c m a p run (inr y)) =
      (let done = YieldRun-Limited m p (lib.keccak256 p) i run.approved w' y in rw run.same at done)
  Called-Limited i w w' es (withdrew user n b run) = WithdrawalRun-Limited user n b i w w' es run
  Called-Limited i w w' es (kept_quiet q) = record {
    mints = λ k. inl (ap (count_of k) q.same_mints);
    burns = λ k. inl (ap (count_of k) q.same_burns);
  }

  -- Any call that returns changes no epoch's count of minted or burned shares but that of the epoch it
  -- runs in, never lowers one, and leaves one that it changes within the limit in force.
  pub apply-Limited :
      (op : Op) (i : Instance) (w w' : World Store W)
      → w.store.instance_storage ≡ some i
      → apply lib x env op w ≡ ok (tt, w')
      → Limited env i w.store w'.store
  apply-Limited op i w w' es e = Called-Limited i w w' es (apply-Called lib x env w w' op e)
