-- ===== src/StateStore/Evidence.antt =====
-- ues/state_store.py: the evidence of a lane's record through `to_dict` and `from_dict`.
use mathlib.Core.List.{List}
use universal_execution_syst.Prelude.{◌≡◌, ap, sym, ◌∙◌, some}
use universal_execution_syst.Prelude.Results.{ok_injective, ok, >>=-eq-ok}
use universal_execution_syst.Json.{Fields, object}
use universal_execution_syst.Runtime.{Runtime}
use universal_execution_syst.Idempotency.Effect.{required_text}
use universal_execution_syst.Records.Sanitize.{sanitize_fields, sanitize_receipt}
use universal_execution_syst.StateStore.Model.{WorkstreamRuntimeRecord}
use universal_execution_syst.StateStore.Persist.{
  map_some, dict_or_none, sanitize_actor_bindings, grants_from_dicts, make_workstream,
  workstream_to_dict, workstream_from_dict,
}

module _ (rt : Runtime) (x r : WorkstreamRuntimeRecord) where
  pub to_dict-evidence :
      workstream_to_dict rt x ≡ ok r
      → r.evidence_bindings ≡ map_some (sanitize_receipt rt) x.evidence_bindings
  unfolding workstream_to_dict
  to_dict-evidence h =
      let (actors, a, e) = >>=-eq-ok (sanitize_actor_bindings rt List.[] x.actor_bindings) _ h in
      sym (ap (λ w. w.evidence_bindings) (ok_injective e))

  make-evidence : make_workstream rt x ≡ ok r → r.evidence_bindings ≡ x.evidence_bindings
  unfolding make_workstream
  make-evidence h =
      let (t1, a1, h1) = >>=-eq-ok (required_text x.lane_id) _ h in
      let (t2, a2, h2) = >>=-eq-ok (required_text x.project) _ h1 in
      let (t3, a3, h3) = >>=-eq-ok (required_text x.route) _ h2 in
      let (t4, a4, h4) = >>=-eq-ok (required_text x.workstream_id) _ h3 in
      let (actors, a5, e) = >>=-eq-ok (sanitize_actor_bindings rt List.[] x.actor_bindings) _ h4 in
      sym (ap (λ w. w.evidence_bindings) (ok_injective e))

pub from_dict-evidence :
    (rt : Runtime) (x r : WorkstreamRuntimeRecord)
    → workstream_from_dict rt x ≡ ok r
    → r.evidence_bindings ≡ dict_or_none x.evidence_bindings
unfolding workstream_from_dict
from_dict-evidence rt x r h =
    let (actors, a1, h1) = >>=-eq-ok (sanitize_actor_bindings rt List.[] x.actor_bindings) _ h in
    let (grants, a2, h2) = >>=-eq-ok (grants_from_dicts x.canary_grants) _ h1 in
    make-evidence rt _ r h2

-- A dict of evidence that is written and read back is redacted, and nothing else.
pub written-evidence :
    (rt : Runtime) (x m r : WorkstreamRuntimeRecord) (fs : Fields)
    → workstream_to_dict rt x ≡ ok m
    → workstream_from_dict rt m ≡ ok r
    → x.evidence_bindings ≡ some (object fs)
    → r.evidence_bindings ≡ some (object (sanitize_fields rt fs))
unfolding sanitize_receipt
written-evidence rt x m r fs to_dict from_dict e =
    from_dict-evidence rt m r from_dict
    ∙ ap dict_or_none
        (to_dict-evidence rt x m to_dict ∙ ap (λ o. map_some (sanitize_receipt rt) o) e)
