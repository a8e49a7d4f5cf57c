-- ===== src/SharedFolders/Members.antt =====
-- The methods of `InMemorySharedFolderCore` on memberships.
use perseverance.Prelude.{
  ℕ, ◌+◌, String, Bool, not, ◌&&◌, Option, none, some, ◌==◌, str_eq, if◌then◌else◌,
}
use perseverance.Prelude.Map.{get}
use perseverance.Prelude.Exec.{pure, gets, modify, require, or_throw, ◌>>=◌, ◌>>◌}
use perseverance.SharedFolders.Types.{
  FolderIdentity, FolderRole, owner, editor, manage, revoked, role_changed, ownership_transferred,
  membership_role_changed, membership_revoked, success, SharedFolder, FolderMembership, Core,
  Environment, version_conflict, membership_not_found, last_owner_protected, type_error,
  FolderMethod, is_owner, is_active,
}
use perseverance.SharedFolders.Types as Types
use perseverance.SharedFolders.Keys.{member_key}
use perseverance.SharedFolders.Store.{
  set_membership, get_folder, owner_count, bump, about, append_audit,
}

pub record ChangeRole : Type 0 where
  pub identity : FolderIdentity
  pub open identity use *
  pub folder_id : String
  pub target_principal_id : String
  pub role : FolderRole
  pub expected_version : ℕ
  pub now : ℕ

pub record RevokeMembership : Type 0 where
  pub identity : FolderIdentity
  pub open identity use *
  pub folder_id : String
  pub target_principal_id : String
  pub expected_version : ℕ
  pub now : ℕ

pub record TransferOwnership : Type 0 where
  pub identity : FolderIdentity
  pub open identity use *
  pub folder_id : String
  pub target_principal_id : String
  pub expected_version : ℕ
  -- `previousOwnerRole === 'editor'`
  pub steps_down : Bool
  pub now : ℕ

pub record Transfer : Type 0 where
  pub folder : SharedFolder
  pub previous_owner : Option FolderMembership
  pub owner : Option FolderMembership

-- `!membership || membership.status !== 'active'`.
abbrev pub active_only : Option FolderMembership → Option FolderMembership
active_only none = none
active_only (some m) = if is_active m.status then some m else none

abbrev pub with_role : FolderRole → ℕ → FolderMembership → FolderMembership
with_role role now m = record m { role = role; version = m.version + 1; updated_at = now }

abbrev pub ended_membership : ℕ → FolderMembership → FolderMembership
ended_membership now m = record m {
  status = revoked;
  version = m.version + 1;
  updated_at = now;
  revoked_at = some now;
}

module _ (env : Environment) where
  -- `changeRole`.
  unfoldable pub change_role : ChangeRole → FolderMethod FolderMembership
  change_role input = do
    get_folder env input.identity input.folder_id manage
    let key = member_key env input.scope input.folder_id input.target_principal_id
    found ← gets (λ s. get key s.memberships)
    membership ← or_throw (active_only found) membership_not_found
    require (membership.version == input.expected_version) version_conflict
    owners ← gets (owner_count env input.scope input.folder_id)
    require (not (is_owner membership.role && not (is_owner input.role) && owners == 1))
        last_owner_protected
    let changed = with_role input.role input.now membership
    modify (set_membership key changed)
    folder ←
        bump env input.scope input.folder_id role_changed (some input.target_principal_id) input.now
    append_audit env input.identity folder membership_role_changed success "ROLE_CHANGED"
        (about (some input.target_principal_id))
    pure changed

  -- `revokeMembership`.
  unfoldable pub revoke_membership : RevokeMembership → FolderMethod FolderMembership
  revoke_membership input = do
    get_folder env input.identity input.folder_id manage
    let key = member_key env input.scope input.folder_id input.target_principal_id
    found ← gets (λ s. get key s.memberships)
    membership ← or_throw (active_only found) membership_not_found
    require (membership.version == input.expected_version) version_conflict
    owners ← gets (owner_count env input.scope input.folder_id)
    require (not (is_owner membership.role && owners == 1)) last_owner_protected
    let ended = ended_membership input.now membership
    modify (set_membership key ended)
    folder ← bump env input.scope input.folder_id revoked (some input.target_principal_id) input.now
    append_audit env input.identity folder membership_revoked success "REVOKED"
        (about (some input.target_principal_id))
    pure ended

  -- The actor becomes an editor.
  unfoldable pub step_down : TransferOwnership → FolderMethod (Unit {0})
  step_down input = do
    let key = member_key env input.scope input.folder_id input.principal_id
    found ← gets (λ s. get key s.memberships)
    actor ← or_throw found type_error
    modify (set_membership key (with_role editor input.now actor))

  -- `transferOwnership`.
  unfoldable pub transfer_ownership : TransferOwnership → FolderMethod Transfer
  transfer_ownership input = do
    folder ← get_folder env input.identity input.folder_id manage
    require (folder.version == input.expected_version) version_conflict
    let target_key = member_key env input.scope input.folder_id input.target_principal_id
    let actor_key = member_key env input.scope input.folder_id input.principal_id
    found ← gets (λ s. get target_key s.memberships)
    target ← or_throw (active_only found) membership_not_found
    modify (set_membership target_key (with_role owner input.now target))
    if not (str_eq input.target_principal_id input.principal_id) && input.steps_down
        then step_down input
        else pure tt
    changed ←
        bump env input.scope input.folder_id ownership_transferred (some input.target_principal_id)
          input.now
    append_audit env input.identity changed Types.ownership_transferred success "TRANSFERRED"
        (about (some input.target_principal_id))
    previous ← gets (λ s. get actor_key s.memberships)
    now_owner ← gets (λ s. get target_key s.memberships)
    pure (record { folder = changed; previous_owner = previous; owner = now_owner })
