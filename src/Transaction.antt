-- ===== src/Transaction.antt =====
-- ues/transaction.py: the authority of a bounded write, its plan, and what is observed after it. This
-- file: the data. A list that is absent from a dict is empty; a text that is absent is `none`.
use universal_execution_syst.Prelude.{ℕ, String, Bool, Option, List}
use universal_execution_syst.TaskBudget.{ℤ}
pub mod Paths
pub mod Covers
pub mod Segments
pub mod Sets
pub mod Permitted
pub mod Authorized
pub mod Validate
pub mod Plan
pub mod Leases
pub mod Eligible
pub mod Confirm
mod Examples

-- What `datetime.fromisoformat` reads: whether a zone is given, and the time in microseconds since the
-- epoch.
pub record Timestamp : Type 0 where
  pub has_zone : Bool
  pub instant : ℕ

-- What the code takes from fnmatch and datetime: `fnmatchcase(name, pattern)`, and `fromisoformat`, which
-- is `none` where it raises ValueError.
pub record Host : Type 0 where
  pub fnmatchcase : String → String → Bool
  pub fromisoformat : String → Option Timestamp

-- The authority envelope. `allowed_paths` is `none` where the key is absent; `max_changed_paths` is
-- `none` where it is absent or no `int`.
pub record Envelope : Type 0 where
  pub schema_version : Option String
  pub operation_id : Option String
  pub workstream_id : Option String
  pub repository : Option String
  pub ref : Option String
  pub expected_head_sha : Option String
  pub expected_tree_sha : Option String
  pub operation : Option String
  pub allowed_paths : Option (List String)
  pub prohibited_paths : List String
  pub resource_classes : List String
  pub stop_gate : Option String
  pub expires_at : Option String
  pub max_changed_paths : Option ℤ

-- The arguments of `validate_authority` beside the envelope.
pub record Attempt : Type 0 where
  pub repository : String
  pub ref : String
  pub live_head_sha : String
  pub live_tree_sha : Option String
  pub operation : String
  pub proposed_paths : List String
  pub resource_classes : List String
  pub expected_operation_id : Option String
  pub expected_workstream_id : Option String
  pub now : ℕ

pub data AuthorityFailure : Type 0 where
  authority_field_missing unsafe_path : String → AuthorityFailure
  operation_id_mismatch workstream_id_mismatch repository_mismatch ref_mismatch : AuthorityFailure
  head_mismatch tree_mismatch operation_mismatch : AuthorityFailure
  authority_expired invalid_expiry : AuthorityFailure
  prohibited_path path_outside_write_set invalid_path_policy : String → AuthorityFailure
  resource_outside_authority : String → AuthorityFailure
  write_set_too_large : AuthorityFailure

pub record Validation : Type 0 where
  pub valid : Bool
  pub operation_id : String
  pub workstream_id : String
  pub stop_gate : Option String
  pub expected_head_sha : Option String
  pub expected_tree_sha : Option String
  pub proposed_paths : List String
  pub resource_classes : List String
  pub failures : List AuthorityFailure

pub record ActiveLease : Type 0 where
  pub lease_id : Option String
  pub operation_id : Option String
  pub repository : Option String
  pub ref : Option String
  pub state : Option String
  pub expires_at : Option String
  pub path_patterns : List String
  pub resource_classes : List String

pub data LeaseConflict : Type 0 where
  invalid_active_lease : Option String → LeaseConflict
  -- the lease, its operation, and the paths and resources it shares
  lease_conflict : Option String → Option String → List String → List String → LeaseConflict

-- A field of the request that should be a list.
pub data RawList : Type 0 where
  items : List String → RawList
  no_list : RawList

pub record MutationRequest : Type 0 where
  pub operation : Option String
  pub proposed_paths : RawList
  pub resource_classes : RawList

pub data RequestFailure : Type 0 where
  operation_missing proposed_paths_invalid resource_classes_invalid : RequestFailure

pub record LeaseRequest : Type 0 where
  pub operation_id : String
  pub repository : String
  pub ref : String
  pub path_patterns : List String
  pub resource_classes : List String

pub record TransactionPlan : Type 0 where
  pub decision : String
  pub eligible_for_future_execution : Bool
  pub execution_enabled : Bool
  pub safe_to_execute_now : Bool
  pub request_failures : List RequestFailure
  pub authority : Validation
  pub lease_conflicts : List LeaseConflict
  pub expected_head_sha : Option String
  pub expected_tree_sha : Option String
  pub live_head_sha : String
  pub live_tree_sha : Option String
  pub lease_request : Option LeaseRequest

pub data Verdict : Type 0 where
  plan_not_authorized unauthorized_post_write_paths post_tree_mismatch : Verdict
  write_confirmed_expected_post_state write_not_observed : Verdict
  post_state_requires_reconciliation : Verdict

pub record PostWrite : Type 0 where
  pub verdict : Verdict
  pub observed_changed_paths : List String
  pub unexpected_paths : List String
  pub safe_to_blind_retry : Bool
