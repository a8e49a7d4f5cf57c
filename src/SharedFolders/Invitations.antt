-- ===== src/SharedFolders/Invitations.antt =====
-- The methods of `InMemorySharedFolderCore` on invitations.
use Prim.Native.String.{◌++◌ as str_append}
use perseverance.Prelude.{
  ℕ, ◌+◌, ◌*◌, String, Bool, true, false, ◌&&◌, Option, none, some, List, ◌==◌, leb, str_eq, opt_eq,
  if◌then◌else◌, filter, map,
}
use perseverance.Prelude.Text.{truthy}
use perseverance.Prelude.Map.{get, set, map_values, values}
use perseverance.Prelude.Exec.{pure, gets, modify, require, or_throw, ◌>>=◌, ◌>>◌}
use perseverance.SharedFolders.Types.{
  FolderScope, FolderIdentity, FolderRole, manage, pending, accepted, revoked, active,
  invitation_created, invitation_accepted, invitation_revoked, success, FolderMembership,
  FolderInvitation, StoredInvitation, Environment, invitation_ttl_invalid, invitation_invalid,
  invitation_scope_mismatch, invitation_not_found, invitation_not_pending, version_conflict,
  type_error, invitation_settled, FolderMethod, is_active, is_pending, is_accepted, is_revoked,
}
use perseverance.SharedFolders.Keys.{scope_key, member_key}
use perseverance.SharedFolders.Store.{
  set_membership, set_invitation, expire, random_uuid, random_bytes, get_folder, bump, no_details,
  about, append_audit,
}

pub record CreateInvitation : Type 0 where
  pub identity : FolderIdentity
  pub open identity use *
  pub folder_id : String
  pub role : FolderRole
  pub expires_in_seconds : ℕ
  pub now : ℕ

pub record AcceptInvitation : Type 0 where
  pub identity : FolderIdentity
  pub open identity use *
  pub token : String
  pub now : ℕ

pub record RevokeInvitation : Type 0 where
  pub identity : FolderIdentity
  pub open identity use *
  pub folder_id : String
  pub invitation_id : String
  pub expected_version : ℕ
  pub now : ℕ

pub record Acceptance : Type 0 where
  pub invitation : FolderInvitation
  pub membership : FolderMembership
  pub idempotent : Bool

abbrev pub new_invitation : CreateInvitation → String → String → StoredInvitation
new_invitation input invitation_id token_digest = record {
  invitation = record {
    scope = input.scope;
    folder_id = input.folder_id;
    invitation_id = invitation_id;
    invited_by_principal_id = input.principal_id;
    accepted_by_principal_id = none;
    role = input.role;
    status = pending;
    expires_at = input.now + input.expires_in_seconds * 1_000;
    accepted_at = none;
    revoked_at = none;
    version = 1;
    created_at = input.now;
    updated_at = input.now;
  };
  token_digest = token_digest;
}

abbrev pub accepted_invitation : AcceptInvitation → StoredInvitation → StoredInvitation
accepted_invitation input i = record i {
  invitation = record i.invitation {
    status = accepted;
    accepted_by_principal_id = some input.principal_id;
    accepted_at = some input.now;
    updated_at = input.now;
    version = i.version + 1;
  };
}

abbrev pub revoked_invitation : ℕ → StoredInvitation → StoredInvitation
revoked_invitation now i = record i {
  invitation = record i.invitation {
    status = revoked;
    revoked_at = some now;
    updated_at = now;
    version = i.version + 1;
  };
}

abbrev pub version_of : Option FolderMembership → ℕ
version_of none = 0
version_of (some m) = m.version

abbrev pub created_of : Option FolderMembership → ℕ → ℕ
created_of none now = now
created_of (some m) now = m.created_at

-- The membership that `acceptInvitation` stores, in the place of an existing one.
abbrev pub invited_membership :
    AcceptInvitation → StoredInvitation → Option FolderMembership → FolderMembership
invited_membership input i existing = record {
  scope = input.scope;
  folder_id = i.folder_id;
  principal_id = input.principal_id;
  role = i.role;
  status = active;
  version = version_of existing + 1;
  accepted_invitation_id = some i.invitation_id;
  created_at = created_of existing input.now;
  updated_at = input.now;
  revoked_at = none;
}

module _ (env : Environment) where
  abbrev pub of_folder : FolderScope → String → StoredInvitation → Bool
  of_folder scope folder_id i =
      str_eq i.folder_id folder_id && str_eq (scope_key env i.scope) (scope_key env scope)

  -- `createInvitation`.
  unfoldable pub create_invitation : CreateInvitation → FolderMethod (FolderInvitation × String)
  create_invitation input = do
    folder ← get_folder env input.identity input.folder_id manage
    require (leb 60 input.expires_in_seconds && leb input.expires_in_seconds 604_800)
        invitation_ttl_invalid
    uuid ← random_uuid env
    token ← random_bytes env
    let invitation_id = str_append "inv_" uuid
    let invitation = new_invitation input invitation_id (env.sha256 token)
    modify (set_invitation invitation_id invitation)
    modify (λ s. record s {
      invitation_by_digest = set invitation.token_digest invitation_id s.invitation_by_digest;
    })
    append_audit env input.identity folder invitation_created success "CREATED" no_details
    pure (invitation.invitation, token)

  -- `listInvitations`: the invitations that it returns are expired in the store too.
  unfoldable pub list_invitations :
      FolderIdentity → String → ℕ → FolderMethod (List FolderInvitation)
  list_invitations identity folder_id now = do
    get_folder env identity folder_id manage
    modify (λ s. record s {
      invitations =
          map_values
            (λ (i : StoredInvitation).
              if of_folder identity.scope folder_id i then expire now i else i)
            s.invitations;
    })
    gets (λ s.
        map (λ (i : StoredInvitation). i.invitation)
          (filter (of_folder identity.scope folder_id) (values s.invitations)))

  -- The writes of `acceptInvitation`, after its tests.
  unfoldable pub accept_write :
      AcceptInvitation
      → String
      → StoredInvitation
      → Option FolderMembership
      → FolderMethod Acceptance
  accept_write input invitation_id invitation existing = do
    let taken = accepted_invitation input invitation
    modify (set_invitation invitation_id taken)
    let membership = invited_membership input taken existing
    modify (
        set_membership (member_key env input.scope invitation.folder_id input.principal_id)
          membership)
    folder ← bump env input.scope invitation.folder_id accepted (some input.principal_id) input.now
    append_audit env input.identity folder invitation_accepted success "ACCEPTED"
        (about (some input.principal_id))
    pure (record { invitation = taken.invitation; membership = membership; idempotent = false })

  -- `invitation.status === 'accepted' && … && existing?.status === 'active'`.
  abbrev pub accepted_before :
      AcceptInvitation → StoredInvitation → Option FolderMembership → Option FolderMembership
  accepted_before input invitation none = none
  accepted_before input invitation (some m) =
      if is_accepted invitation.status
        && opt_eq invitation.accepted_by_principal_id (some input.principal_id)
        && is_active m.status
      then some m
      else none

  unfoldable pub settle_acceptance :
      AcceptInvitation
      → String
      → StoredInvitation
      → Option FolderMembership
      → FolderMethod Acceptance
  settle_acceptance input invitation_id invitation existing =
      elim (accepted_before input invitation existing) [
        | some m ↦
            pure (record { invitation = invitation.invitation; membership = m; idempotent = true })
        | none ↦ do
          require (is_pending invitation.status) (invitation_settled invitation.status)
          accept_write input invitation_id invitation existing
      ]

  -- `acceptInvitation`.
  unfoldable pub accept_invitation : AcceptInvitation → FolderMethod Acceptance
  accept_invitation input = do
    known ← gets (λ s. get (env.sha256 input.token) s.invitation_by_digest)
    require (truthy known) invitation_invalid
    invitation_id ← or_throw known invitation_invalid
    found ← gets (λ s. get invitation_id s.invitations)
    before ← or_throw found type_error
    require (str_eq (scope_key env before.scope) (scope_key env input.scope))
        invitation_scope_mismatch
    let invitation = expire input.now before
    modify (set_invitation invitation_id invitation)
    existing ← gets (λ s.
        get (member_key env input.scope invitation.folder_id input.principal_id) s.memberships)
    settle_acceptance input invitation_id invitation existing

  abbrev pub in_this_folder : RevokeInvitation → Option StoredInvitation → Option StoredInvitation
  in_this_folder input none = none
  in_this_folder input (some i) = if of_folder input.scope input.folder_id i then some i else none

  -- `revokeInvitation`.
  unfoldable pub revoke_invitation : RevokeInvitation → FolderMethod FolderInvitation
  revoke_invitation input = do
    folder ← get_folder env input.identity input.folder_id manage
    found ← gets (λ s. get input.invitation_id s.invitations)
    invitation ← or_throw (in_this_folder input found) invitation_not_found
    require (invitation.version == input.expected_version) version_conflict
    let ended = revoked_invitation input.now invitation
    let end_now : FolderMethod FolderInvitation = do
      require (is_pending invitation.status) invitation_not_pending
      modify (set_invitation input.invitation_id ended)
      append_audit env input.identity folder invitation_revoked success "REVOKED" no_details
      pure ended.invitation
    if is_revoked invitation.status then pure invitation.invitation else end_now
