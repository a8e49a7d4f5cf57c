-- ===== src/SupportAccess/BreakGlass.antt =====
-- The methods of `SupportAccessService` on break-glass requests: create, verify, approve, revoke.
use Prim.Native.Char.{code}
use Prim.Native.String.{◌++◌ as str_append}
use perseverance.Prelude.{
  ℕ, ◌+◌, ◌*◌, String, Bool, true, false, not, ◌&&◌, ◌||◌, Option, none, some, List, [], ◌∷◌, ◌++◌,
  ◌==◌, leb, str_eq, if◌then◌else◌, length, any, filter, contains,
}
use perseverance.Prelude.Text.{truthy, is_empty, utf16_length}
use perseverance.Prelude.Map.{get}
use perseverance.Prelude.Exec.{pure, gets, modify, require, ◌>>=◌, ◌>>◌}
use perseverance.SupportAccess.Types.{
  Action, content_decrypt, pending_verification, pending_approval, active, revoked, requested,
  success, break_glass, approve, Actor, BreakGlass, Approval, break_glass_alarm, pending,
  OutboxRecord, Runtime, separation_of_duty_required, ttl_out_of_range,
  narrow_object_scope_required, requester_mfa_required, invalid_state, approver_role_required,
  kms_operator_approval_required, revoke_forbidden, operator_required, incident_id_required, Method,
  action_eq, status_eq, is_operator, may_approve_break_glass, may_revoke_break_glass, is_grant_kind,
}
use perseverance.SupportAccess.Store.{
  on_store, set_break_glass, remember, push_approval, push_outbox, find_break_glass, check_version,
  decision_replay, of_break_glass, read_clock, random_uuid, append_audit, revoke_leases,
  queue_tenant_notification,
}
use perseverance.SupportAccess.Grants.{dedupe, get_existing, by_kms}

pub record CreateBreakGlass : Type 0 where
  pub tenant_id : String
  pub organization_id : String
  pub workspace_id : String
  pub session_id : Option String
  pub object_id : String
  pub actions : List Action
  pub incident_id : String
  pub reason : String
  pub requester : Actor
  pub duration_minutes : ℕ
  pub idempotency_key : String
  pub correlation_id : String

pub record VerifyBreakGlass : Type 0 where
  pub break_glass_id : String
  pub actor : Actor
  pub mfa_evidence_id : String
  pub expected_version : ℕ
  pub idempotency_key : String
  pub correlation_id : String

pub record ApproveBreakGlass : Type 0 where
  pub break_glass_id : String
  pub actor : Actor
  pub expected_version : ℕ
  pub idempotency_key : String
  pub mfa_evidence_id : Option String
  pub correlation_id : String

pub record RevokeBreakGlass : Type 0 where
  pub break_glass_id : String
  pub actor : Actor
  pub expected_version : ℕ
  pub correlation_id : String

-- `[A-Z0-9-]`.
abbrev pub is_incident_char : ℕ → Bool
is_incident_char c = (leb b'A' c && leb c b'Z') || (leb b'0' c && leb c b'9') || c == b'-'

abbrev pub all_incident_chars : String → Bool
all_incident_chars String.[] = true
all_incident_chars (String.◌∷◌ c s) = is_incident_char (code c) && all_incident_chars s

-- `/^INC-[A-Z0-9-]{4,64}$/`.
unfoldable pub is_incident_id : String → Bool
is_incident_id (String.◌∷◌ i (String.◌∷◌ n (String.◌∷◌ c (String.◌∷◌ d rest)))) =
    code i == b'I'
    && code n == b'N'
    && code c == b'C'
    && code d == b'-'
    && all_incident_chars rest
    && leb 4 (utf16_length rest)
    && leb (utf16_length rest) 64
is_incident_id _ = false

-- The request that `createBreakGlass` stores.
abbrev pub new_break_glass : CreateBreakGlass → String → ℕ → BreakGlass
new_break_glass input uuid created_at = record {
  break_glass_id = str_append "bgr_" uuid;
  tenant_id = input.tenant_id;
  organization_id = input.organization_id;
  workspace_id = input.workspace_id;
  session_id = input.session_id;
  object_id = some input.object_id;
  actions = dedupe [] input.actions;
  incident_id = input.incident_id;
  reason = input.reason;
  requester_principal_id = input.requester.principal_id;
  mfa_evidence_id = none;
  approval_principal_ids = [];
  status = pending_verification;
  issued_at = none;
  expires_at = created_at + input.duration_minutes * 60_000;
  revoked_at = none;
  version = 1;
  generation = 0;
  idempotency_key = input.idempotency_key;
}

-- The approvals that `approveBreakGlass` counts.
abbrev pub is_for_request : String → Approval → Bool
is_for_request id a = not (is_grant_kind a.aggregate_kind) && str_eq a.aggregate_id id

abbrev pub break_glass_approval : ApproveBreakGlass → BreakGlass → String → ℕ → Approval
break_glass_approval input b uuid at = record {
  aggregate_kind = break_glass;
  aggregate_id = b.break_glass_id;
  approval_id = str_append "bap_" uuid;
  approver_principal_id = input.actor.principal_id;
  approver_role = input.actor.role;
  decision = approve;
  mfa_evidence_id = elim input.mfa_evidence_id [ none ↦ "strong_mfa" | some e ↦ e ];
  idempotency_key = input.idempotency_key;
  decided_at = at;
}

abbrev pub alarm_record : BreakGlass → String → ℕ → OutboxRecord
alarm_record b uuid at = record {
  outbox_id = str_append "out_" uuid;
  tenant_id = b.tenant_id;
  organization_id = b.organization_id;
  workspace_id = b.workspace_id;
  kind = break_glass_alarm;
  aggregate_id = b.break_glass_id;
  status = pending;
  attempts = 0;
  available_at = at;
  delivered_at = none;
  idempotency_key = str_append "break-glass-alarm:" b.break_glass_id;
  last_result_idempotency_key = none;
}

module _ (rt : Runtime) where
  unfoldable pub open_break_glass : CreateBreakGlass → Method (Option BreakGlass)
  open_break_glass input = do
    created_at ← read_clock rt
    uuid ← random_uuid rt
    let request = new_break_glass input uuid created_at
    modify (on_store (set_break_glass request.break_glass_id request))
    modify (
        on_store
          (remember (str_append "break-glass:" input.idempotency_key) request.break_glass_id))
    append_audit rt (of_break_glass request) input.requester.principal_id "break_glass.started"
        requested input.incident_id input.correlation_id
    pure (some request)

  -- `createBreakGlass`. The answer is missing where the key is bound to no request of the store.
  unfoldable pub create_break_glass : CreateBreakGlass → Method (Option BreakGlass)
  create_break_glass input = do
    require (is_operator input.requester.role) operator_required
    require (is_incident_id input.incident_id) incident_id_required
    require
        (truthy input.session_id && not (is_empty input.object_id) && leb 1 (length input.actions))
        narrow_object_scope_required
    require (leb 1 input.duration_minutes && leb input.duration_minutes 15) ttl_out_of_range
    existing ← gets (λ s. get (str_append "break-glass:" input.idempotency_key) s.idempotency)
    let earlier : Method (Option BreakGlass) = gets (λ s. get_existing existing s.break_glass)
    if truthy existing then earlier else open_break_glass input

  unfoldable pub reverify : VerifyBreakGlass → BreakGlass → Method BreakGlass
  reverify input request = do
    check_version request.version input.expected_version
    require (str_eq input.actor.principal_id request.requester_principal_id) requester_mfa_required
    let verified = record request {
      mfa_evidence_id = some input.mfa_evidence_id;
      status = pending_approval;
      version = request.version + 1;
    }
    modify (on_store (set_break_glass input.break_glass_id verified))
    modify
        (on_store (remember (str_append "break-mfa:" input.idempotency_key) request.break_glass_id))
    append_audit rt (of_break_glass verified) input.actor.principal_id "break_glass.mfa_verified"
        success "strong_mfa" input.correlation_id
    pure verified

  -- `verifyBreakGlassMfa`: it does not look at the status.
  unfoldable pub verify_break_glass_mfa : VerifyBreakGlass → Method BreakGlass
  verify_break_glass_mfa input = do
    request ← find_break_glass input.break_glass_id
    replay ← decision_replay (str_append "break-mfa:" input.idempotency_key) request.break_glass_id
    if replay then pure request else reverify input request

  -- The second approval: the alarm is queued, and the request becomes active.
  unfoldable pub activate : ApproveBreakGlass → BreakGlass → Method BreakGlass
  activate input request = do
    uuid ← random_uuid rt
    queued ← read_clock rt
    modify (on_store (push_outbox (alarm_record request uuid queued)))
    now ← read_clock rt
    let activated = record request { status = active; issued_at = some now }
    modify (on_store (set_break_glass input.break_glass_id activated))
    append_audit rt (of_break_glass activated) input.actor.principal_id "alarm.enqueued" success
        "durable_outbox" input.correlation_id
    append_audit rt (of_break_glass activated) input.actor.principal_id "break_glass.activated"
        success "double_approval" input.correlation_id
    pure activated

  unfoldable pub approve_fresh : ApproveBreakGlass → BreakGlass → Method BreakGlass
  approve_fresh input request = do
    check_version request.version input.expected_version
    require (status_eq request.status pending_approval) invalid_state
    require (may_approve_break_glass input.actor.role) approver_role_required
    require
        (not (
          str_eq input.actor.principal_id request.requester_principal_id
          || contains input.actor.principal_id request.approval_principal_ids))
        separation_of_duty_required
    uuid ← random_uuid rt
    now ← read_clock rt
    let approval = break_glass_approval input request uuid now
    earlier ← gets (λ s. s.approvals)
    let candidates = filter (is_for_request request.break_glass_id) earlier ++ approval ∷ []
    require
        (not (
          length candidates == 2
          && any (action_eq content_decrypt) request.actions
          && not (any by_kms candidates)))
        kms_operator_approval_required
    let counted = record request {
      approval_principal_ids = request.approval_principal_ids ++ input.actor.principal_id ∷ [];
      version = request.version + 1;
    }
    modify (on_store (set_break_glass input.break_glass_id counted))
    modify (on_store (push_approval approval))
    result ← if length candidates == 2 then activate input counted else pure counted
    modify (
        on_store
          (remember (str_append "break-approval:" input.idempotency_key) request.break_glass_id))
    pure result

  -- `approveBreakGlass`.
  unfoldable pub approve_break_glass : ApproveBreakGlass → Method BreakGlass
  approve_break_glass input = do
    request ← find_break_glass input.break_glass_id
    replay ←
        decision_replay (str_append "break-approval:" input.idempotency_key) request.break_glass_id
    if replay then pure request else approve_fresh input request

  -- `revokeBreakGlass`.
  unfoldable pub revoke_break_glass : RevokeBreakGlass → Method BreakGlass
  revoke_break_glass input = do
    request ← find_break_glass input.break_glass_id
    check_version request.version input.expected_version
    require (may_revoke_break_glass input.actor.role) revoke_forbidden
    now ← read_clock rt
    let ended = record request {
      status = revoked;
      revoked_at = some now;
      generation = request.generation + 1;
      version = request.version + 1;
    }
    modify (on_store (set_break_glass input.break_glass_id ended))
    revoke_leases rt none (some request.break_glass_id)
    queue_tenant_notification rt ended
    append_audit rt (of_break_glass ended) input.actor.principal_id "break_glass.ended" success
        "early_revoke" input.correlation_id
    pure ended
