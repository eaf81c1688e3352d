-- ===== src/Lib.antt =====
-- Universal Execution System (ues/): the decisions that keep an external effect from being executed
-- twice or without authority, and the store that they rest on.
--
-- The parts and how they interact. A lane of work stands in a lifecycle state, and
-- `resolve_next_action` says what it may do next. An action with an external effect has an effect
-- identity, and its operation key is computed from it. `claim_operation` reads the lane's record and
-- the operation's record from a state store, asks `evaluate_idempotency` whether the operation may
-- run and an authority evaluation whether it is allowed, takes the lane's lease, consumes a canary
-- grant where there is one, and writes the operation as IN_FLIGHT. Afterwards
-- `record_unknown_write` and `record_authoritative_readback` record what became of it, and only a
-- readback that says the write did not happen makes the operation claimable again. All that is stored
-- goes through `sanitize_receipt`. Around this core, a transaction checks a write against its authority
-- envelope and the leases of others before it and against the tree after it, the recovery catalog and
-- the generation assessments decide whether a new provider session may be started, the budget's lane
-- counts the sessions that were, and failures are classified and joined by their root.
--
-- The files.
--   Prelude            library names passed on; tests, texts, lists, results with errors
--                      (Prelude.Results) and methods that change a store and may raise (Prelude.Execs)
--   Json, Runtime      JSON values; what is taken from the Python runtime: letter tables, JSON text, SHA-256,
--                      text of times; Runtime.Plain a runtime for the examples
--   Records            ues/operation_records.py: Keys the sensitive-key pattern, Patterns the substitutions of
--                      `_sanitize_string`, Sanitize `sanitize_receipt` and its laws
--   Lifecycle          ues/lifecycle.py: States the enumerations, Resolve `resolve_next_action` with
--                      one function for each state of the ladder, Graph the diagram; Outcome,
--                      Authority, Named, Gates, Classified and Progress the proofs
--   Idempotency        ues/idempotency.py: Records `latest_records` and `evaluate_idempotency`,
--                      Boundary the branch and the write boundary, Effect the effect identity, Key the
--                      operation keys; Decide, Latest, Serialization and Identity the proofs
--   StateStore         ues/state_store.py: Model the dataclasses, Persist `to_dict`, `from_dict` and
--                      `__post_init__`, Interface the abstract store and the laws its clients use,
--                      Document and File the file backend, Authority the two authority evaluations,
--                      Gate the checks of `claim_operation` before the lease, Claim the rest of it,
--                      Readback the two functions that end an operation. File/Swap, File/Lanes,
--                      File/Laws, File/Versions, File/Exclusion,
--                      Claim/Keeps, Claim/Refused, Claim/Secures, Claim/Once, Claim/Authorized, Claim/Exclusion,
--                      Authority/Allows and the files of Readback are proofs.
--   Failures           ues/failures.py: the classifications and the scope of a blocker, Collapse
--                      `collapse_failure_cascade`; Cascade the proofs
--   Recovery           ues/recovery.py: `reconcile_checkpoint` and `reconcile_provider_write`; Continue and
--                      Delivered the proofs
--   Generation         ues/generation_transition.py: the two assessments and the transition keys; Allowed the
--                      proofs
--   Identity           ues/identity.py: the lane ids; Roundtrip the proofs
--   Lineage            ues/lineage_registry.py: the roles, the lane of a lineage and
--                      `match_lineage_session`; Bound the proofs
--   RecoveryCatalog    ues/recovery_catalog.py: the observation and the decisions, Ladder `plan_recovery`;
--                      Guarded and Effects the proofs
--   Transaction        ues/transaction.py: the data; Paths `_normalize_path` and `_matches`, Sets, Validate
--                      `validate_authority`, Plan `active_lease_conflicts`, `plan_mutation` and
--                      `reconcile_post_write`; Covers, Segments, Permitted, Authorized, Leases, Eligible and
--                      Confirm the proofs
--   Accounting         ues/task_budget_accounting.py: what the evidence of the budget's lane holds, Rounds the
--                      attempts of `record_confirmed_generation`; Evidence, Once and Calls the proofs. They use
--                      StateStore's Evidence and File/Reads, what a lane's record keeps through the store.
--   TaskBudget         ues/task_budget.py: the file itself `evaluate_task_budget`, its return statements
--                      as the functions `judge…`, and `evaluate_new_task_gate`; Sound, Observed, Capacity and
--                      Gate the proofs
--
-- How the code is represented. A dict of known fields is a record; a mapping is a list of pairs in the
-- order of insertion; an exception is a value of Prelude.Results.Error; a method of the store is a
-- function from the state to a result and the new state, so what was written before a raise stays
-- written. Times are microseconds since the epoch. An in-memory record that a failed write leaves
-- changed is not seen by anyone after the raise, and is not kept. A call of the store is one step, as
-- the store's lock makes it; `release_lease` alone reads and then swaps without holding the lock over
-- both, and the model takes the two as one step, which the version test of the swap makes safe; a claim is a sequence of calls, and the theorems on several claims take
-- them one after the other. `now` is given by the caller. Recursion is structural; the
-- loop of `record_confirmed_generation` recurses on its three attempts, as the code does, and gives up
-- after them. There is no fuel and no machine-width integer in this code.
--
-- Not modelled: the explanatory `reason` and `schema_version` fields of the results, the text of the
-- JSON document and the temporary file that replaces it, `EffectIdentity.from_dict`,
-- `observe_rolling_quota_window`, the budget's outputs that repeat another under an older name, `upsert_lineage_observation`, values in a
-- stored document whose type is not the field's, the HTML markers of ues/operation_records.py, and
-- the other modules of ues/, which observe providers, route portfolios or print reports.
pub mod Accounting
pub mod Failures
pub mod Generation
pub mod Idempotency
pub mod Identity
pub mod Json
pub mod Lifecycle
pub mod Lineage
pub mod Prelude
pub mod Records
pub mod Recovery
pub mod RecoveryCatalog
pub mod Runtime
pub mod StateStore
pub mod TaskBudget
pub mod Transaction
