-- ===== src/Authz/Types.antt =====
-- Principals and memberships, as packages/control-plane-contracts/src/index.ts checks them, and the
-- errors of packages/authz/src/index.ts. A time is the number of its milliseconds.
use perseverance.Prelude.{ℕ, String, Bool, true, not, ◌&&◌, List, [], ◌∷◌, leb, length}
use perseverance.Prelude.Text.{is_empty, utf16_length}
use perseverance.Prelude.Exec.{Exec, pure, require, ◌>>◌}

pub data OrganizationRole : Type 0 where
  owner admin developer viewer billing support operator security_approver kms_operator :
      OrganizationRole

pub data MembershipStatus : Type 0 where
  active disabled revoked : MembershipStatus

pub record Membership : Type 0 where
  pub subject : String
  pub issuer : String
  pub organization_id : String
  pub role : OrganizationRole
  pub status : MembershipStatus
  pub workspace_ids : List String
  pub updated_at : ℕ

pub data PrincipalKind : Type 0 where
  end_user internal_service : PrincipalKind

pub record Assurance : Type 0 where
  pub level : String
  pub mfa : Bool

pub record Principal : Type 0 where
  pub kind : PrincipalKind
  pub subject : String
  pub issuer : String
  pub audience : List String
  pub authenticated_at : ℕ
  pub expires_at : ℕ
  pub assurance : Assurance
  pub memberships : List Membership

-- The codes of `AuthenticationError` that the modelled code throws; `schema_invalid` is the
-- `ZodError` of `authPrincipalSchema`.
pub data AuthError : Type 0 where
  workload_signing_key_too_short workload_ttl_invalid workload_auth_required : AuthError
  workload_token_malformed workload_token_signature_invalid workload_token_rejected : AuthError
  workload_scope_rejected workload_proof_required workload_replay_rejected : AuthError
  workload_proof_invalid auth_required schema_invalid : AuthError

abbrev pub all : {A : Type 0} → (A → Bool) → List A → Bool
all p [] = true
all p (x ∷ xs) = p x && all p xs

abbrev pub is_identifier : String → Bool
is_identifier s = not (is_empty s)

-- `organizationMembershipSchema`.
abbrev pub is_schema_membership : Membership → Bool
is_schema_membership m =
    is_identifier m.subject
    && is_identifier m.issuer
    && is_identifier m.organization_id
    && leb (length m.workspace_ids) 1000
    && all is_identifier m.workspace_ids

-- `authPrincipalSchema`; the fields that hold by their types are left out.
unfoldable pub is_schema_principal : Principal → Bool
is_schema_principal p =
    is_identifier p.subject
    && is_identifier p.issuer
    && leb 1 (length p.audience)
    && leb (length p.audience) 16
    && all is_identifier p.audience
    && leb 1 (utf16_length p.assurance.level)
    && leb (utf16_length p.assurance.level) 128
    && leb (length p.memberships) 1000
    && all is_schema_membership p.memberships

-- `authPrincipalSchema.parse`.
unfoldable pub parse_principal : {S : Type 0} → Principal → Exec AuthError S Principal
parse_principal p = do require (is_schema_principal p) schema_invalid; pure p
