-- ===== src/SupportAccess/Types.antt =====
-- The data of packages/support-access/src/index.ts and of the schemas that it takes from
-- packages/control-plane-contracts/src/index.ts. A time is the number of its milliseconds, where
-- the source keeps an ISO text of it. `schemaVersion`, always 1, is left out.
use perseverance.Prelude.{ℕ, String, Bool, true, false, Option, List}
use perseverance.Prelude.Map.{Map}
use perseverance.Prelude.Exec.{Exec}

pub data Role : Type 0 where
  tenant_user admin support operator security_approver kms_operator : Role

pub data Action : Type 0 where
  content_view artifact_download attachment_download content_decrypt : Action

pub data Status : Type 0 where
  pending_verification pending_approval active revoked expired denied : Status

pub data Outcome : Type 0 where
  requested success failure : Outcome

pub data AggregateKind : Type 0 where
  support_grant break_glass : AggregateKind

pub data Decision : Type 0 where
  approve deny : Decision

pub data OutboxKind : Type 0 where
  break_glass_alarm tenant_notification : OutboxKind

pub data OutboxStatus : Type 0 where
  pending delivered : OutboxStatus

pub record Actor : Type 0 where
  pub principal_id : String
  pub role : Role

pub record Grant : Type 0 where
  pub grant_id : String
  pub tenant_id : String
  pub organization_id : String
  pub workspace_id : String
  pub session_id : Option String
  pub artifact_id : Option String
  pub attachment_id : Option String
  pub actions : List Action
  pub reason : String
  pub requester_principal_id : String
  pub support_principal_id : String
  pub mfa_evidence_id : Option String
  pub required_approvals : ℕ
  pub approval_principal_ids : List String
  pub status : Status
  pub issued_at : Option ℕ
  pub expires_at : ℕ
  pub revoked_at : Option ℕ
  pub version : ℕ
  pub generation : ℕ
  pub idempotency_key : String

pub record BreakGlass : Type 0 where
  pub break_glass_id : String
  pub tenant_id : String
  pub organization_id : String
  pub workspace_id : String
  pub session_id : Option String
  pub object_id : Option String
  pub actions : List Action
  pub incident_id : String
  pub reason : String
  pub requester_principal_id : String
  pub mfa_evidence_id : Option String
  pub approval_principal_ids : List String
  pub status : Status
  pub issued_at : Option ℕ
  pub expires_at : ℕ
  pub revoked_at : Option ℕ
  pub version : ℕ
  pub generation : ℕ
  pub idempotency_key : String

-- A lease as its holder sees it: `AccessLease` without `tokenHash`.
pub record PublicLease : Type 0 where
  pub lease_id : String
  pub grant_id : Option String
  pub break_glass_id : Option String
  pub tenant_id : String
  pub organization_id : String
  pub workspace_id : String
  pub session_id : Option String
  pub object_id : Option String
  pub action : Action
  pub principal_id : String
  pub generation : ℕ
  pub issued_at : ℕ
  pub expires_at : ℕ
  pub consumed_at : Option ℕ
  pub revoked_at : Option ℕ

pub record Lease : Type 0 where
  pub public : PublicLease
  pub open public use *
  pub token_hash : String

pub record IssuedLease : Type 0 where
  pub lease : PublicLease
  pub token : String

pub record Approval : Type 0 where
  pub aggregate_kind : AggregateKind
  pub aggregate_id : String
  pub approval_id : String
  pub approver_principal_id : String
  pub approver_role : Role
  pub decision : Decision
  pub mfa_evidence_id : String
  pub idempotency_key : String
  pub decided_at : ℕ

-- `SecurityAuditRecord` without `recordHash`: the text that is hashed is made from it.
pub record AuditBody : Type 0 where
  pub sequence : ℕ
  pub tenant_id : String
  pub organization_id : String
  pub workspace_id : String
  pub actor_principal_id : String
  pub scope : String
  pub action : String
  pub outcome : Outcome
  pub reason : String
  pub grant_id : Option String
  pub break_glass_id : Option String
  pub occurred_at : ℕ
  pub correlation_id : String
  pub previous_hash : String

pub record Audit : Type 0 where
  pub body : AuditBody
  pub open body use *
  pub record_hash : String

pub record OutboxRecord : Type 0 where
  pub outbox_id : String
  pub tenant_id : String
  pub organization_id : String
  pub workspace_id : String
  pub kind : OutboxKind
  pub aggregate_id : String
  pub status : OutboxStatus
  pub attempts : ℕ
  pub available_at : ℕ
  pub delivered_at : Option ℕ
  pub idempotency_key : String
  pub last_result_idempotency_key : Option String

-- The private fields of `SupportAccessService`.
pub record Store : Type 0 where
  pub grants : Map Grant
  pub break_glass : Map BreakGlass
  pub leases : Map Lease
  pub approvals : List Approval
  pub idempotency : Map String
  pub audit : List Audit
  pub outbox : List OutboxRecord

-- The store, with how often the clock, `randomUUID` and `randomBytes` have been read.
pub record Service : Type 0 where
  pub store : Store
  pub open store use *
  pub clock_reads : ℕ
  pub uuids : ℕ
  pub randoms : ℕ

-- What the methods take from outside: the clock and the generators give their n-th value, `sha256`
-- is the hexadecimal digest, `scope_json` and `audit_json` are `JSON.stringify` of the scope and of
-- the record body.
pub record Runtime : Type 0 where
  pub now : ℕ → ℕ
  pub uuid : ℕ → String
  pub random_token : ℕ → String
  pub sha256 : String → String
  pub scope_json : String → Option String → Option String → List Action → String
  pub audit_json : AuditBody → String

-- The codes of `SupportAccessError`; `schema_invalid` is the `ZodError` of `supportGrantSchema`.
pub data Error : Type 0 where
  tenant_user_initiation_required separation_of_duty_required ttl_out_of_range : Error
  narrow_object_scope_required ambiguous_object_scope requester_mfa_required : Error
  invalid_state approver_role_required distinct_approver_required : Error
  kms_operator_approval_required revoke_forbidden grant_inactive : Error
  support_principal_mismatch action_scope_mismatch session_scope_mismatch : Error
  object_scope_mismatch kms_decrypt_role_required break_glass_inactive : Error
  break_glass_principal_mismatch break_glass_scope_mismatch lease_invalid : Error
  lease_revoked_or_expired lease_scope_mismatch operator_required : Error
  incident_id_required outbox_not_found grant_not_found break_glass_not_found : Error
  version_conflict idempotency_conflict schema_invalid : Error

abbrev pub Method : Type 0 → Type 0
Method A = Exec Error Service A

-- Tests on the enumerations, where the source compares texts.
abbrev pub action_eq : Action → Action → Bool
action_eq content_view content_view = true
action_eq artifact_download artifact_download = true
action_eq attachment_download attachment_download = true
action_eq content_decrypt content_decrypt = true
action_eq _ _ = false

abbrev pub is_high_risk : Action → Bool
is_high_risk content_view = false
is_high_risk _ = true

abbrev pub status_eq : Status → Status → Bool
status_eq pending_verification pending_verification = true
status_eq pending_approval pending_approval = true
status_eq active active = true
status_eq revoked revoked = true
status_eq expired expired = true
status_eq denied denied = true
status_eq _ _ = false

abbrev pub is_terminal : Status → Bool
is_terminal revoked = true
is_terminal expired = true
is_terminal denied = true
is_terminal _ = false

abbrev pub is_tenant_user : Role → Bool
is_tenant_user tenant_user = true
is_tenant_user _ = false

abbrev pub is_operator : Role → Bool
is_operator operator = true
is_operator _ = false

abbrev pub is_security_approver : Role → Bool
is_security_approver security_approver = true
is_security_approver _ = false

abbrev pub is_kms_operator : Role → Bool
is_kms_operator kms_operator = true
is_kms_operator _ = false

-- `['support', 'security_approver', 'kms_operator'].includes(role)`.
abbrev pub may_approve_grant : Role → Bool
may_approve_grant support = true
may_approve_grant security_approver = true
may_approve_grant kms_operator = true
may_approve_grant _ = false

abbrev pub may_approve_break_glass : Role → Bool
may_approve_break_glass security_approver = true
may_approve_break_glass kms_operator = true
may_approve_break_glass _ = false

abbrev pub may_revoke_break_glass : Role → Bool
may_revoke_break_glass operator = true
may_revoke_break_glass security_approver = true
may_revoke_break_glass _ = false

abbrev pub is_approve : Decision → Bool
is_approve approve = true
is_approve deny = false

abbrev pub is_grant_kind : AggregateKind → Bool
is_grant_kind support_grant = true
is_grant_kind break_glass = false

abbrev pub is_notification : OutboxKind → Bool
is_notification tenant_notification = true
is_notification break_glass_alarm = false

abbrev pub is_delivered : OutboxStatus → Bool
is_delivered delivered = true
is_delivered pending = false
