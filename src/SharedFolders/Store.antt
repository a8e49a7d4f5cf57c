-- ===== src/SharedFolders/Store.antt =====
-- The private methods of `InMemorySharedFolderCore`, and `role` with its cache.
use Prim.Native.String.{◌++◌ as str_append}
use text.Mathlib.Text.{starts_with}
use perseverance.Prelude.{
  ℕ, suc, ◌+◌, String, Bool, false, not, ◌&&◌, Option, none, some, List, [], ◌∷◌, ◌++◌, ◌==◌, leb,
  is_some, if◌then◌else◌, length, filter,
}
use perseverance.Prelude.Map.{Map, get, set}
use perseverance.Prelude.Exec.{ok, pure, or_throw, modify, require, ◌>>=◌, ◌>>◌}
use perseverance.SharedFolders.Types.{
  FolderScope, FolderIdentity, FolderRole, Capability, ResourceType, expired, AuditAction,
  AccessReason, AuditOutcome, SharedFolder, FolderMembership, StoredInvitation, FolderAuditBody,
  FolderAuditRecord, FolderAccessChanged, CachedRole, Core, Environment, folder_access_denied,
  folder_not_found, FolderMethod, is_owner, folder_role_allows, is_active, is_pending,
}
use perseverance.SharedFolders.Keys.{folder_key, member_prefix, member_key}

abbrev pub set_folder : String → SharedFolder → Core → Core
set_folder key f s = record s { folders = set key f s.folders }

abbrev pub set_membership : String → FolderMembership → Core → Core
set_membership key m s = record s { memberships = set key m s.memberships }

abbrev pub set_invitation : String → StoredInvitation → Core → Core
set_invitation id i s = record s { invitations = set id i s.invitations }

-- The role that a membership gives, `membership?.status === 'active' ? membership.role : null`.
abbrev pub member_role : Option FolderMembership → Option FolderRole
member_role none = none
member_role (some m) = if is_active m.status then some m.role else none

-- The end of `role`: the role is computed from the membership, and cached.
abbrev pub refresh_role : SharedFolder → String → Core → Option FolderRole × Core
refresh_role folder key s =
    let found = member_role (get key s.memberships) in
    (
      found,
      record s {
        authorization_cache =
            set key (record { epoch = folder.cache_epoch; role = found }) s.authorization_cache;
      },
    )

abbrev pub cached_role : SharedFolder → String → Option CachedRole → Core → Option FolderRole × Core
cached_role folder key none s = refresh_role folder key s
cached_role folder key (some c) s =
    if c.epoch == folder.cache_epoch then (c.role, s) else refresh_role folder key s

abbrev pub folder_role : Option SharedFolder → String → Core → Option FolderRole × Core
folder_role none key s = (none, s)
folder_role (some folder) key s =
    if is_some folder.archived_at
    then (none, s)
    else cached_role folder key (get key s.authorization_cache) s

abbrev pub allowed : Option FolderRole → Capability → Bool
allowed none capability = false
allowed (some role) capability = folder_role_allows role capability

-- `#expire`, on the invitation that it changes.
abbrev pub expire : ℕ → StoredInvitation → StoredInvitation
expire now i =
    if is_pending i.status && leb i.expires_at now
    then record i {
      invitation = record i.invitation {
        status = expired;
        updated_at = now;
        version = i.version + 1;
      };
    }
    else i

abbrev pub is_owner_entry : String → String × FolderMembership → Bool
is_owner_entry prefix e = starts_with e.0 prefix && is_active (e.1).status && is_owner (e.1).role

-- The folder as `#bump` changes it.
abbrev pub bumped : SharedFolder → ℕ → SharedFolder
bumped f now = record f {
  acl_version = f.acl_version + 1;
  cache_epoch = f.cache_epoch + 1;
  version = f.version + 1;
  updated_at = now;
}

abbrev pub access_changed :
    SharedFolder → String → AccessReason → Option String → ℕ → FolderAccessChanged
access_changed f folder_id reason affected now = record {
  scope = f.scope;
  folder_id = folder_id;
  acl_version = f.acl_version;
  cache_epoch = f.cache_epoch;
  reason = reason;
  affected_principal_id = affected;
  occurred_at = now;
}

-- The entries of the cache that `#bump` leaves.
abbrev pub purge_cache : String → Map CachedRole → Map CachedRole
purge_cache prefix = filter (λ (e : String × CachedRole). not (starts_with e.0 prefix))

unfoldable pub last_record_hash : String → List FolderAuditRecord → String
last_record_hash genesis [] = genesis
last_record_hash genesis (r ∷ rs) = last_record_hash r.record_hash rs

-- What the arguments of `#appendAudit` after the reason code default to.
pub record AuditDetails : Type 0 where
  pub subject_principal_id : Option String
  pub resource_type : Option ResourceType
  pub resource_id : Option String
  pub correlation_id : Option String

abbrev pub no_details : AuditDetails
no_details = record {
  subject_principal_id = none;
  resource_type = none;
  resource_id = none;
  correlation_id = none;
}

abbrev pub about : Option String → AuditDetails
about subject = record no_details { subject_principal_id = subject }

module _ (env : Environment) where
  -- `randomUUID()` and `randomBytes(32)`.
  unfoldable pub random_uuid : FolderMethod String
  random_uuid s = (ok (env.uuid s.uuids), record s { uuids = suc s.uuids })

  unfoldable pub random_bytes : FolderMethod String
  random_bytes s = (ok (env.random_token s.randoms), record s { randoms = suc s.randoms })

  -- `#folder`.
  unfoldable pub find_folder : FolderScope → String → FolderMethod SharedFolder
  find_folder scope folder_id s =
      or_throw (get (folder_key env scope folder_id) s.folders) folder_not_found s

  -- `role`.
  unfoldable pub role : FolderIdentity → String → FolderMethod (Option FolderRole)
  role identity folder_id s =
      let (found, t) =
        folder_role (get (folder_key env identity.scope folder_id) s.folders)
          (member_key env identity.scope folder_id identity.principal_id) s in
      (ok found, t)

  -- `getFolder`.
  unfoldable pub get_folder : FolderIdentity → String → Capability → FolderMethod SharedFolder
  get_folder identity folder_id capability = do
    folder ← find_folder identity.scope folder_id
    found ← role identity folder_id
    require (allowed found capability) folder_access_denied
    pure folder

  -- `#activeMembership`, in a map of memberships.
  abbrev pub active_membership :
      Map FolderMembership → FolderIdentity → String → Option FolderMembership
  active_membership memberships identity folder_id =
      elim (get (member_key env identity.scope folder_id identity.principal_id) memberships) [
        | none ↦ none
        | some m ↦ if is_active m.status then some m else none
      ]

  -- `#ownerCount`.
  unfoldable pub owner_count : FolderScope → String → Core → ℕ
  owner_count scope folder_id s =
      length (filter (is_owner_entry (member_prefix env scope folder_id)) s.memberships)

  -- `#bump`: the listeners are called with one event.
  unfoldable pub bump :
      FolderScope → String → AccessReason → Option String → ℕ → FolderMethod SharedFolder
  bump scope folder_id reason affected now = do
    found ← find_folder scope folder_id
    let folder = bumped found now
    modify (λ s. record s {
      folders = set (folder_key env scope folder_id) folder s.folders;
      authorization_cache = purge_cache (member_prefix env scope folder_id) s.authorization_cache;
      published = s.published ++ access_changed folder folder_id reason affected now ∷ [];
    })
    pure folder

  -- The record that `#appendAudit` hashes, over the log so far.
  abbrev pub audit_body :
      FolderIdentity
      → SharedFolder
      → AuditAction
      → AuditOutcome
      → String
      → AuditDetails
      → String
      → List FolderAuditRecord
      → FolderAuditBody
  audit_body identity folder action outcome reason_code details uuid log = record {
    sequence = length log + 1;
    audit_id = str_append "fau_" uuid;
    scope = folder.scope;
    folder_id = folder.folder_id;
    actor_principal_id = identity.principal_id;
    subject_principal_id = details.subject_principal_id;
    resource_type = details.resource_type;
    resource_id = details.resource_id;
    action = action;
    outcome = outcome;
    reason_code = reason_code;
    aggregate_version = folder.version;
    correlation_id = details.correlation_id;
    occurred_at = folder.updated_at;
    previous_hash = last_record_hash "GENESIS" log;
  }

  -- `#appendAudit`.
  unfoldable pub append_audit :
      FolderIdentity
      → SharedFolder
      → AuditAction
      → AuditOutcome
      → String
      → AuditDetails
      → FolderMethod (Unit {0})
  append_audit identity folder action outcome reason_code details s =
      let body =
        audit_body identity folder action outcome reason_code details (env.uuid s.uuids) s.audit in
      (
        ok tt,
        record s {
          audit =
              s.audit
              ++ record { body = body; record_hash = env.sha256 (env.record_json body) } ∷ [];
          uuids = suc s.uuids;
        },
      )
