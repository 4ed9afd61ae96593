-- ===== src/Bridge/Reach.antt =====
-- contracts/bridge-handler/src/lib.rs: every sequence of transactions on the bridge handler.
use helix_mongolian_spring.Common.{
  ◌+◌, ◌≤◌, ◌≡◌, ◌∙◌, ap, refl, true, false, List, [], ◌∷◌, arith, Address, Bytes, eqb_bytes,
  eqb_bytes_eq, if◌then◌else◌, Env, commit, World, Result-cases, Bool-cases, inl, inr,
}
use helix_mongolian_spring.Bridge.{Store, Externals, Library, constructed}
use helix_mongolian_spring.Bridge.Messages.{
  processings, processings-append, Processed, Silent, Called-cases,
}
use helix_mongolian_spring.Bridge.Transactions.{Op, apply, apply-Called}

-- A message is reported at most once, and not at all before it is marked.
pub record IsSettled (s : Store) : Type 0 where
  pub once : (h : Bytes) → processings h s.events ≤ 1
  pub unmarked : (h : Bytes) → s.processed_messages h ≡ false → processings h s.events ≡ 0

Processed-IsSettled : (s s' : Store) → Processed s s' → IsSettled s → IsSettled s'
unfolding processings
Processed-IsSettled s s' p v = record { once = once; unmarked = unmarked }
  where
    counted :
        (h : Bytes)
        → processings h s'.events
          ≡ processings h s.events + (if eqb_bytes h p.payload_hash then 1 else 0)
    counted h =
        ap (processings h) p.appended
        ∙ processings-append h s.events (p.event ∷ [])
        ∙ omega (arith, p.reported h)

    marks :
        (h : Bytes)
        → s'.processed_messages h
          ≡ (if eqb_bytes h p.payload_hash then true else s.processed_messages h)
    marks h = ap (λ f. f h) p.marked

    once : (h : Bytes) → processings h s'.events ≤ 1
    once h = elim (Bool-cases (eqb_bytes h p.payload_hash)) [
      | inl same ↦
          let eh = eqb_bytes_eq h p.payload_hash same in
          let none_yet = v.unmarked h (ap s.processed_messages eh ∙ p.new) in
          ground (arith, counted h, none_yet)
      | inr other ↦ ground (arith, counted h, v.once h)
    ]

    unmarked : (h : Bytes) → s'.processed_messages h ≡ false → processings h s'.events ≡ 0
    unmarked h e = elim (Bool-cases (eqb_bytes h p.payload_hash)) [
      | inl same ↦ absurd (ground (arith, marks h))
      | inr other ↦
          let old : s.processed_messages h ≡ false = ground (arith, marks h) in
          ground (arith, counted h, v.unmarked h old)
    ]

Silent-IsSettled : (s s' : Store) → Silent s s' → IsSettled s → IsSettled s'
Silent-IsSettled s s' q v = record {
  once = λ h. omega (arith, q.same_reports h, v.once h);
  unmarked = λ h e. q.same_reports h ∙ v.unmarked h (rw q.same_marks at e);
}

module _ {W : Type 0} (lib : Library) (x : Externals W) where
  commit-IsSettled :
      (env : Env) (op : Op) (w : World Store W)
      → IsSettled w.store
      → IsSettled (commit (apply lib x env op) w).store
  commit-IsSettled env op w v = elim (Result-cases (apply lib x env op w)) [
    | inl (_, w', e) ↦
        rw (e, commit)
          (elim (Called-cases lib x env w w' (apply-Called lib x env w w' op e)) [
            | inl p ↦ Processed-IsSettled w.store w'.store p v
            | inr q ↦ Silent-IsSettled w.store w'.store q v
          ])
    | inr (f, e) ↦ rw (e, commit) v
  ]

  -- Transactions one after another; each finds the other contracts in a state of its own.
  unfoldable pub run : List (W × Env × Op) → Store → Store
  run [] s = s
  run ((o, env, op) ∷ ts) s =
      run ts (commit (apply lib x env op) (record { store = s; outside = o })).store

  run-IsSettled : (ts : List (W × Env × Op)) (s : Store) → IsSettled s → IsSettled (run ts s)
  unfolding run
  run-IsSettled [] s v = v
  run-IsSettled ((o, env, op) ∷ ts) s v =
      run-IsSettled ts _ (commit-IsSettled env op (record { store = s; outside = o }) v)

-- Whatever transactions are sent to a bridge handler from its construction on, failed ones included,
-- and whatever the gateway approves: no payload is processed twice, by its hash, whether it is a
-- deposit or a yield update, and what is not marked was never processed.
pub run-constructed-IsSettled :
    {W : Type 0} (lib : Library) (x : Externals W) (ts : List (W × Env × Op))
    (admin gateway gas_service token vault : Address) (source_chain source_address : Bytes)
    → IsSettled (
        run lib x ts
          (constructed admin gateway gas_service token vault source_chain source_address))
unfolding constructed processings
run-constructed-IsSettled lib x ts admin gateway gas_service token vault chain address =
    run-IsSettled lib x ts _ (record { once = λ h. omega arith; unmarked = λ h e. refl })
