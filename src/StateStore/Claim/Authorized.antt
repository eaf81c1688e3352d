-- ===== src/StateStore/Claim/Authorized.antt =====
-- What a claim that allows the mutation has checked (ues/state_store.py, `claim_operation`).
use universal_execution_syst.Prelude.{
  ◌≡◌, ◌≢◌, refl, ap, if◌then◌else◌, Bool, true, false, Option, none, some, arith, eq_iff,
}
use universal_execution_syst.Prelude.Results.{Result, ok, raise}
use universal_execution_syst.Prelude.Execs
use universal_execution_syst.Runtime.{Runtime}
use universal_execution_syst.Idempotency.Effect.{EffectIdentity}
use universal_execution_syst.Idempotency.Key.{effect_operation_key}
use universal_execution_syst.Idempotency.Records.{evaluate_idempotency}
use universal_execution_syst.StateStore.Model.{
  ActivationMode, shadow, WorkstreamRuntimeRecord, StateRead, OperationRead, when_ok,
}
use universal_execution_syst.StateStore.Interface.{StateStore}
use universal_execution_syst.StateStore.Authority.{effect_matches_record}
use universal_execution_syst.StateStore.Gate
use universal_execution_syst.StateStore.Gate.{
  ClaimRequest, refused, open_to, gate, authority_for, records_of,
}
use universal_execution_syst.StateStore.Claim
use universal_execution_syst.StateStore.Claim.Refused.{is_allowed}

-- The lane's record lets the request's effect be executed, and so does the operation's.
pub record Authorized (rt : Runtime) (q : ClaimRequest) (r : WorkstreamRuntimeRecord)
    (o : OperationRead) : Type 0 where
  pub mode : r.activation_mode ≢ shadow
  pub effect : EffectIdentity
  pub requested : q.effect_identity ≡ some effect
  pub of_record :
      (effect.lane_id ≡ r.lane_id)
      × (effect.project ≡ r.project)
      × (effect.route ≡ r.route)
      × (effect.workstream_id ≡ r.workstream_id)
  pub lane : effect.lane_id ≡ q.lane_id
  pub action : q.action ≡ effect.action
  pub key : q.operation_key ≡ effect_operation_key rt effect
  pub fresh :
      (evaluate_idempotency q.operation_key q.request_digest
        (records_of (when_ok o.status o.record_read))).safe_to_execute
      ≡ true
  pub authority : (authority_for rt q r.activation_mode r effect).allowed ≡ true

abbrev is_open : Gate.Gate → Bool
is_open (refused d) = false
is_open (open_to r e a o) = true

module _ (rt : Runtime) (q : ClaimRequest) (r : WorkstreamRuntimeRecord) (o : OperationRead) where
  matches_iff :
      (e : EffectIdentity)
      → effect_matches_record r e ≡ true
      → (e.lane_id ≡ r.lane_id)
        × (e.project ≡ r.project)
        × (e.route ≡ r.route)
        × (e.workstream_id ≡ r.workstream_id)
  unfolding effect_matches_record
  matches_iff e h = ground (
    arith,
    h,
    eq_iff e.lane_id r.lane_id,
    eq_iff e.project r.project,
    eq_iff e.route r.route,
    eq_iff e.workstream_id r.workstream_id,
  )

  operation_open :
      (e : EffectIdentity)
      → is_open (Gate.gate_operation rt q r e o) ≡ true
      → ((evaluate_idempotency q.operation_key q.request_digest
            (records_of (when_ok o.status o.record_read))).safe_to_execute
          ≡ true)
        × ((authority_for rt q r.activation_mode r e).allowed ≡ true)
  unfolding Gate.gate_operation Gate.gate_authority
  operation_open e h = ground (arith, h)

  effect_tests :
      (e : EffectIdentity)
      → is_open (Gate.gate_effect rt q r (some e) o) ≡ true
      → (effect_matches_record r e ≡ true)
        × (e.lane_id ≡ q.lane_id)
        × (q.action ≡ e.action)
        × (q.operation_key ≡ effect_operation_key rt e)
        × (is_open (Gate.gate_operation rt q r e o) ≡ true)
  unfolding Gate.gate_effect
  effect_tests e h = ground (
    arith,
    h,
    eq_iff e.lane_id q.lane_id,
    eq_iff q.action e.action,
    eq_iff q.operation_key (effect_operation_key rt e),
  )

  effect_open :
      (e : EffectIdentity)
      → r.activation_mode ≢ shadow
      → q.effect_identity ≡ some e
      → is_open (Gate.gate_effect rt q r (some e) o) ≡ true
      → Authorized rt q r o
  effect_open e m g h =
      let (of_record, lane, action, key, rest) = effect_tests e h in
      let (fresh, authority) = operation_open e rest in
      record {
        mode = m;
        effect = e;
        requested = g;
        of_record = matches_iff e of_record;
        lane = lane;
        action = action;
        key = key;
        fresh = fresh;
        authority = authority;
      }

  given_open :
      (e : Option EffectIdentity)
      → r.activation_mode ≢ shadow
      → q.effect_identity ≡ e
      → is_open (Gate.gate_effect rt q r e o) ≡ true
      → Authorized rt q r o
  unfolding Gate.gate_effect
  given_open none m g h = cc
  given_open (some e) m g h = effect_open e m g h

if_open :
    (b : Bool) (d : Gate.ClaimDecision) (g : Gate.Gate)
    → is_open (if b then refused d else g) ≡ true
    → (b ≡ false) × (is_open g ≡ true)
if_open true d g h = cc
if_open false d g h = (refl, h)

not_shadow :
    (rt : Runtime) (q : ClaimRequest) (m : ActivationMode)
    → Gate.is_shadow rt q m ≡ false
    → m ≢ shadow
not_shadow rt q m h p = cc (ap (Gate.is_shadow rt q) p, h)

record_open :
    (rt : Runtime) (q : ClaimRequest) (r : WorkstreamRuntimeRecord) (o : OperationRead)
    → is_open (gate rt q (some r) o) ≡ true
    → Authorized rt q r o
unfolding gate
record_open rt q r o h =
    let (mode, rest) =
      if_open (Gate.is_shadow rt q r.activation_mode) Gate.shadow_mode
        (Gate.gate_effect rt q r q.effect_identity o) h in
    given_open rt q r o q.effect_identity (not_shadow rt q r.activation_mode mode) refl rest

gate_open :
    (rt : Runtime) (q : ClaimRequest) (m : Option WorkstreamRuntimeRecord) (o : OperationRead)
    → is_open (gate rt q m o) ≡ true
    → (r : WorkstreamRuntimeRecord) × (m ≡ some r) × Authorized rt q r o
unfolding gate
gate_open rt q none o h = cc
gate_open rt q (some r) o h = (r, refl, record_open rt q r o h)

module _ {S : Type 0} (rt : Runtime) (store : StateStore S) (q : ClaimRequest) where
  open_of_allowed :
      (g : Gate.Gate) (s : S)
      → is_allowed (Claim.proceed rt store q g s).0 ≡ true
      → is_open g ≡ true
  unfolding Claim.proceed
  open_of_allowed (refused d) s h = cc
  open_of_allowed (open_to r e a o) s h = refl

  after_read :
      (m : Result StateRead) (s : S)
      → is_allowed (Execs.continue m (Claim.claim_after rt store q) s).0 ≡ true
      → (ws : StateRead) × (r : WorkstreamRuntimeRecord) × (m ≡ ok ws)
        × (when_ok ws.status ws.record_read ≡ some r)
        × Authorized rt q r (store.read_operation q.operation_key s)
  unfolding Claim.claim_after
  after_read (raise e) s h = cc
  after_read (ok ws) s h =
      let (r, found, authorized) =
        gate_open rt q (when_ok ws.status ws.record_read) (store.read_operation q.operation_key s)
          (open_of_allowed _ s h) in
      (ws, r, refl, found, authorized)

  -- In any store, a claim that allows the mutation has read a record of the lane, which is not in
  -- SHADOW mode, and the request's effect is of that record's lane, project, route and workstream, of
  -- the requested lane and of the requested action; the operation key is the key computed from the
  -- effect; the operation's record was safe to execute; and the authority of the lane's mode allowed
  -- the effect.
  pub allowed-Authorized :
      (s : S)
      → is_allowed (Claim.claim_operation rt store q s).0 ≡ true
      → (ws : StateRead) × (r : WorkstreamRuntimeRecord) × (store.read_workstream q.lane_id s
          ≡ ok ws)
        × (when_ok ws.status ws.record_read ≡ some r)
        × Authorized rt q r (store.read_operation q.operation_key s)
  unfolding Claim.claim_operation
  allowed-Authorized s h = after_read (store.read_workstream q.lane_id s) s h
