-- ===== src/SharedFolders/Types.antt =====
-- The data of packages/shared-folders/src/index.ts and of the folder schemas of
-- packages/control-plane-contracts/src/index.ts. A time is the number of its milliseconds, where the
-- source keeps an ISO text of it. `schemaVersion`, always 1, is left out.
use perseverance.Prelude.{ℕ, String, Bool, true, false, Option, List}
use perseverance.Prelude.Map.{Map}
use perseverance.Prelude.Exec.{Exec}

pub record FolderScope : Type 0 where
  pub tenant_id : String
  pub organization_id : String
  pub workspace_id : String

pub record FolderIdentity : Type 0 where
  pub scope : FolderScope
  pub principal_id : String

pub data FolderRole : Type 0 where
  owner editor viewer : FolderRole

pub data Capability : Type 0 where
  read mutate turn approval manage export : Capability

pub data ResourceType : Type 0 where
  conversation source attachment artifact agent_task : ResourceType

pub data InvitationStatus : Type 0 where
  pending accepted expired revoked : InvitationStatus

pub data MembershipStatus : Type 0 where
  active revoked : MembershipStatus

pub data TaskStatus : Type 0 where
  reserved running completed failed interrupted incomplete : TaskStatus
  admission_denied start_failed recovery_required : TaskStatus

pub data AuditAction : Type 0 where
  folder_created folder_deleted invitation_created invitation_accepted : AuditAction
  invitation_revoked membership_role_changed membership_revoked : AuditAction
  ownership_transferred resource_moved folder_exported : AuditAction

pub data AccessReason : Type 0 where
  accepted revoked role_changed ownership_transferred resource_moved : AccessReason

pub data AuditOutcome : Type 0 where
  success failure : AuditOutcome

pub record SharedFolder : Type 0 where
  pub scope : FolderScope
  pub folder_id : String
  pub name : String
  pub acl_version : ℕ
  pub cache_epoch : ℕ
  pub version : ℕ
  pub created_by_principal_id : String
  pub created_at : ℕ
  pub updated_at : ℕ
  pub archived_at : Option ℕ

pub record FolderMembership : Type 0 where
  pub scope : FolderScope
  pub folder_id : String
  pub principal_id : String
  pub role : FolderRole
  pub status : MembershipStatus
  pub version : ℕ
  pub accepted_invitation_id : Option String
  pub created_at : ℕ
  pub updated_at : ℕ
  pub revoked_at : Option ℕ

-- `FolderInvitation`; its role is never `owner`.
pub record FolderInvitation : Type 0 where
  pub scope : FolderScope
  pub folder_id : String
  pub invitation_id : String
  pub invited_by_principal_id : String
  pub accepted_by_principal_id : Option String
  pub role : FolderRole
  pub status : InvitationStatus
  pub expires_at : ℕ
  pub accepted_at : Option ℕ
  pub revoked_at : Option ℕ
  pub version : ℕ
  pub created_at : ℕ
  pub updated_at : ℕ

pub record StoredInvitation : Type 0 where
  pub invitation : FolderInvitation
  pub open invitation use *
  pub token_digest : String

pub record ResourceBinding : Type 0 where
  pub scope : FolderScope
  pub folder_id : String
  pub resource_type : ResourceType
  pub resource_id : String
  pub version : ℕ
  pub created_at : ℕ
  pub updated_at : ℕ

-- `FolderAuditRecord` without `recordHash`: the text that is hashed is made from it.
pub record FolderAuditBody : Type 0 where
  pub sequence : ℕ
  pub audit_id : String
  pub scope : FolderScope
  pub folder_id : String
  pub actor_principal_id : String
  pub subject_principal_id : Option String
  pub resource_type : Option ResourceType
  pub resource_id : Option String
  pub action : AuditAction
  pub outcome : AuditOutcome
  pub reason_code : String
  pub aggregate_version : ℕ
  pub correlation_id : Option String
  pub occurred_at : ℕ
  pub previous_hash : String

pub record FolderAuditRecord : Type 0 where
  pub body : FolderAuditBody
  pub open body use *
  pub record_hash : String

pub record TaskReservation : Type 0 where
  pub key : String
  pub folder_id : String
  pub principal_id : String
  pub session_id : String
  pub request_hash : String
  pub task_id : String
  pub run_id : Option String
  pub codex_turn_id : Option String
  pub upstream_work_id : Option String
  pub admission_decision_id : Option String
  pub usage_dedupe_key : Option String
  pub credit_reservation_id : Option String
  pub billing_settlement_id : Option String
  pub status : TaskStatus

pub record FolderAccessChanged : Type 0 where
  pub scope : FolderScope
  pub folder_id : String
  pub acl_version : ℕ
  pub cache_epoch : ℕ
  pub reason : AccessReason
  pub affected_principal_id : Option String
  pub occurred_at : ℕ

-- An entry of `#authorizationCache`.
pub record CachedRole : Type 0 where
  pub epoch : ℕ
  pub role : Option FolderRole

-- The private fields of `InMemorySharedFolderCore`; `published` is the events that the listeners have
-- been called with, and the counters say how often `randomUUID` and `randomBytes` have been called.
pub record Core : Type 0 where
  pub folders : Map SharedFolder
  pub memberships : Map FolderMembership
  pub invitations : Map StoredInvitation
  pub invitation_by_digest : Map String
  pub bindings : Map ResourceBinding
  pub audit : List FolderAuditRecord
  pub authorization_cache : Map CachedRole
  pub tasks : Map TaskReservation
  pub approval_settlements : Map String
  pub billing_settlements : Map String
  pub published : List FolderAccessChanged
  pub uuids : ℕ
  pub randoms : ℕ

-- What the methods take from outside: the generators give their n-th value, `sha256` is the
-- hexadecimal digest, `scope_json` is `JSON.stringify` of the array of the three identifiers,
-- `record_json` is that of an audit record, and `decimal` prints a number.
pub record Environment : Type 0 where
  pub uuid : ℕ → String
  pub random_token : ℕ → String
  pub sha256 : String → String
  pub scope_json : FolderScope → String
  pub record_json : FolderAuditBody → String
  pub decimal : ℕ → String

-- The codes of `SharedFolderError`; `type_error` is JavaScript's, at a value that is `undefined`.
pub data FolderError : Type 0 where
  folder_name_invalid folder_access_denied folder_not_found : FolderError
  invitation_ttl_invalid invitation_invalid invitation_scope_mismatch : FolderError
  invitation_not_found invitation_not_pending version_conflict : FolderError
  membership_not_found last_owner_protected resource_already_bound resource_not_found : FolderError
  task_idempotency_conflict task_not_found billing_settlement_conflict type_error : FolderError
  -- `INVITATION_${status}`
  invitation_settled : InvitationStatus → FolderError

abbrev pub FolderMethod : Type 0 → Type 0
FolderMethod A = Exec FolderError Core A

abbrev pub is_owner : FolderRole → Bool
is_owner owner = true
is_owner _ = false

-- `folderRoleAllows`.
unfoldable pub folder_role_allows : FolderRole → Capability → Bool
folder_role_allows role read = true
folder_role_allows role manage = is_owner role
folder_role_allows role export = is_owner role
folder_role_allows owner _ = true
folder_role_allows editor _ = true
folder_role_allows viewer _ = false

abbrev pub is_active : MembershipStatus → Bool
is_active active = true
is_active revoked = false

abbrev pub is_pending : InvitationStatus → Bool
is_pending pending = true
is_pending _ = false

abbrev pub is_accepted : InvitationStatus → Bool
is_accepted accepted = true
is_accepted _ = false

abbrev pub is_revoked : InvitationStatus → Bool
is_revoked revoked = true
is_revoked _ = false
