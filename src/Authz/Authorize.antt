-- ===== src/Authz/Authorize.antt =====
-- `authorize` of packages/authz/src/index.ts.
use perseverance.Prelude.{
  String, Bool, true, false, not, ◌&&◌, Option, none, some, List, str_eq, if◌then◌else◌, find,
  contains, filter, length, ltb,
}
use perseverance.Prelude.Text.{truthy}
use perseverance.Authz.Types.{
  active, Membership, MembershipStatus, end_user, PrincipalKind, Principal, is_identifier,
}
use perseverance.Authz.Roles.{known_actions, permits}

-- `AuthorizationResource`; `sessionId` and `resourceId` are read by no method of the file.
pub record AuthorizationResource : Type 0 where
  pub organization_id : String
  pub workspace_id : Option String
  pub session_id : Option String
  pub resource_type : String
  pub resource_id : Option String

pub data ReasonCode : Type 0 where
  role_allowed role_denied unknown_action resource_scope_missing : ReasonCode
  principal_kind_mismatch membership_inactive workspace_membership_missing : ReasonCode

pub record AuthorizationDecision : Type 0 where
  pub allow : Bool
  pub reason_code : ReasonCode

-- `input.memberships` is what a directory has for the principal; `action` is any text.
pub record AuthorizationRequest : Type 0 where
  pub principal : Principal
  pub action : String
  pub resource : Option AuthorizationResource
  pub memberships : List Membership

abbrev pub denied_for : ReasonCode → AuthorizationDecision
denied_for reason = record { allow = false; reason_code = reason }

abbrev pub is_end_user : PrincipalKind → Bool
is_end_user end_user = true
is_end_user _ = false

abbrev pub is_active : MembershipStatus → Bool
is_active active = true
is_active _ = false

-- The test of `input.memberships.find`.
abbrev pub is_membership_for : Principal → AuthorizationResource → Membership → Bool
is_membership_for p r m =
    str_eq m.organization_id r.organization_id
    && str_eq m.subject p.subject
    && str_eq m.issuer p.issuer

abbrev pub text_of : Option String → String
text_of none = ""
text_of (some s) = s

-- A membership without workspaces stands for all workspaces of its organization.
abbrev pub covers_workspace : AuthorizationResource → Membership → Bool
covers_workspace r m = not (
    truthy r.workspace_id
    && ltb 0 (length m.workspace_ids)
    && not (contains (text_of r.workspace_id) m.workspace_ids))

abbrev pub decide_as_member :
    AuthorizationRequest → AuthorizationResource → Membership → AuthorizationDecision
decide_as_member input r m =
    if covers_workspace r m
    then if permits m.role input.action
      then record { allow = true; reason_code = role_allowed }
      else denied_for role_denied
    else denied_for workspace_membership_missing

abbrev pub decide_found :
    AuthorizationRequest → AuthorizationResource → Option Membership → AuthorizationDecision
decide_found input r none = denied_for membership_inactive
decide_found input r (some m) =
    if is_active m.status then decide_as_member input r m else denied_for membership_inactive

abbrev pub decide_on : AuthorizationRequest → Option AuthorizationResource → AuthorizationDecision
decide_on input none = denied_for resource_scope_missing
decide_on input (some r) =
    if is_identifier r.organization_id && is_identifier r.resource_type
    then if is_end_user input.principal.kind
      then decide_found input r (find (is_membership_for input.principal r) input.memberships)
      else denied_for principal_kind_mismatch
    else denied_for resource_scope_missing

-- `authorize`.
unfoldable pub authorize : AuthorizationRequest → AuthorizationDecision
authorize input =
    if contains input.action known_actions
    then decide_on input input.resource
    else denied_for unknown_action

-- `StaticMembershipDirectory.membershipsFor`.
abbrev pub memberships_for : List Membership → String → String → List Membership
memberships_for directory subject issuer =
    filter (λ m. str_eq m.subject subject && str_eq m.issuer issuer) directory
