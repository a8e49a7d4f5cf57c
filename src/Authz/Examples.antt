-- ===== src/Authz/Examples.antt =====
-- The theorems on authorization at a small organization, and those on workload credentials at an
-- authority whose digests are constant.
use perseverance.Authz.Roles.{known_actions}
use perseverance.Prelude.{contains-IsIn, inr, ◌≤◌, ◌≡◌, refl, true, false, ◌↔◌, none, some, [], ◌∷◌}
use perseverance.Prelude.Text.{utf16_length, is_space}
use perseverance.Prelude.Map.{Map, get, set}
use perseverance.Prelude.Exec.{ok, pure, require, ◌>>=◌}
use perseverance.Authz.Types.{
  owner, viewer, active, Membership, end_user, Principal, AuthError, is_schema_principal,
  parse_principal,
}
use perseverance.Authz.Roles.{permits}
use perseverance.Authz.Authorize.{AuthorizationResource, AuthorizationRequest, authorize}
use perseverance.Authz.Allowed.{IsAuthorized, authorize_allows}
use perseverance.Authz.DevLogin.{
  Header, one, many, DevAdapter, dev_principal, dev_authenticate, own_request, dev_login_owns,
}
use perseverance.Authz.Duties.{asking, break_glass_duties_apart}
use perseverance.Authz.Workload.{
  source_search, citation_read, WorkloadClaims, Settings, Authority, IssueCredential,
  IssuedCredential, VerifyCredential, is_accepted, in_credential_scope, has_proof, is_proof,
  read_token, spend_nonce, verify, issue, revoke,
}
use perseverance.Authz.Workload.Verified.{IsVerified, verify-IsVerified}
use perseverance.Authz.Workload.Issued.{issue_bounded, issue-read_token}
use perseverance.Authz.Workload.Replay.{verifies, run, step, revoked_refused, nonce_used_once}

abbrev member : Membership
member = record {
  subject = "ada";
  issuer = "https://issuer";
  organization_id = "org";
  role = owner;
  status = active;
  workspace_ids = "workspace" ∷ [];
  updated_at = 5;
}

abbrev person : Principal
person = record {
  kind = end_user;
  subject = "ada";
  issuer = "https://issuer";
  audience = "app" ∷ [];
  authenticated_at = 5;
  expires_at = 500;
  assurance = record { level = "amr"; mfa = true };
  memberships = [];
}

abbrev place : AuthorizationResource
place = record {
  organization_id = "org";
  workspace_id = some "workspace";
  session_id = none;
  resource_type = "workspace";
  resource_id = none;
}

abbrev reading : AuthorizationRequest
reading = record {
  principal = person;
  action = "session.read";
  resource = some place;
  memberships =
      record member { role = viewer; organization_id = "other" }
      ∷ record member { role = viewer }
      ∷ [];
}

abbrev owning : AuthorizationRequest
owning = record reading { memberships = member ∷ [] }

authorize_allows_example : ((authorize reading).allow ≡ true) ↔ IsAuthorized reading
authorize_allows_example = authorize_allows reading

owning-IsAuthorized : IsAuthorized (asking "break_glass.request" owning)
unfolding permits
owning-IsAuthorized = record {
  resource = place;
  membership = member;
  asked = refl;
  known = contains-IsIn "break_glass.request" known_actions refl;
  names_organization = λ e. cc;
  names_type = λ e. cc;
  by_user = refl;
  first = refl;
  is_live = refl;
  in_organization = refl;
  of_subject = refl;
  of_issuer = refl;
  in_workspace = inr (inr ("workspace", refl, ([], [], refl)));
  permitted = refl;
}

break_glass_duties_apart_example : owning-IsAuthorized.membership.role ≡ owner
unfolding permits authorize
break_glass_duties_apart_example = break_glass_duties_apart owning owning-IsAuthorized refl

abbrev claims : WorkloadClaims
claims = record {
  version = 1;
  jti = "credential";
  subject = "workspace-corpus:workspace";
  audience = "corpus";
  tenant_id = "tenant";
  organization_id = "org";
  workspace_id = "workspace";
  actions = source_search ∷ citation_read ∷ [];
  proof_key_hash = "key";
  issued_at = 1_000;
  expires_at = 61_000;
}

abbrev cfg : Settings
cfg = record {
  signing_key = "secret";
  audience = "corpus";
  max_ttl_ms = 300_000;
  hmac = λ _ _. "mac";
  proof_key_hash = λ key. key;
  encode = λ _. "payload";
  decode = λ _. some claims;
  skew = λ _ _. some 0;
  uuid = λ _. "credential";
  random_key = λ _. "key";
}

abbrev fresh : Authority
fresh = record { revoked = []; nonces = []; uuids = 0; randoms = 0 }

abbrev search : VerifyCredential
search = record {
  authorization = some "Bearer pcw1.payload.mac";
  proof = some "key.mac";
  timestamp = some "2000";
  nonce = some "n1";
  action = source_search;
  tenant_id = "tenant";
  organization_id = "org";
  workspace_id = "workspace";
  now = 2_000;
}

abbrev citation : VerifyCredential
citation = record search { action = citation_read; nonce = some "n2"; now = 2_500 }

abbrev later : VerifyCredential
later = record search { now = 3_000 }

-- Everything that a verification calls.
unfoldable machine : Unit {0}
unfolding ◌>>=◌ parse_principal is_schema_principal is_accepted in_credential_scope has_proof
    is_proof read_token spend_nonce verify issue revoke step run get set is_space utf16_length
machine = tt

abbrev worker : Principal
worker = record {
  kind = perseverance.Authz.Types.internal_service;
  subject = "workspace-corpus:workspace";
  issuer = "urn:perseverance:workload";
  audience = "corpus" ∷ [];
  authenticated_at = 1_000;
  expires_at = 61_000;
  assurance = record { level = "workload-proof-v1"; mfa = false };
  memberships = [];
}

abbrev spent : Authority
spent = record fresh { nonces = ("credential:n1", 61_000) ∷ [] }

searched : verify cfg search fresh ≡ (ok worker, spent)
unfolding machine
searched = refl

verify-IsVerified_example : IsVerified cfg search fresh spent worker
verify-IsVerified_example = verify-IsVerified cfg search fresh worker spent searched

nonce_used_once_example :
    ¬ (verify cfg later (run cfg spent (verifies citation ∷ [])) ≡ (ok worker, spent))
nonce_used_once_example =
    nonce_used_once cfg fresh search later (verifies citation ∷ []) worker worker spent spent
      searched refl refl refl

abbrev withdrawn : Authority
withdrawn = record fresh { revoked = "credential" ∷ [] }

readable : read_token cfg search withdrawn ≡ (ok ("pcw1.payload.mac", claims), withdrawn)
unfolding machine
readable = refl

revoked_refused_example :
    ¬ (verify cfg search (run cfg withdrawn (verifies citation ∷ [])) ≡ (ok worker, spent))
revoked_refused_example =
    revoked_refused cfg withdrawn search (verifies citation ∷ []) "pcw1.payload.mac" claims worker
      spent readable refl

abbrev local : DevAdapter
local = record { issuer = "urn:perseverance:dev-auth"; subject = "dev-user" }

abbrev headers : Map Header
headers = ("x-tenant-id", one "org") ∷ ("x-workspace-id", many ("workspace" ∷ [])) ∷ []

abbrev developer_login : Principal
developer_login = dev_principal local "org" "workspace" 9

let_in : dev_authenticate local headers 9 fresh ≡ (ok developer_login, fresh)
unfolding dev_authenticate machine
let_in = refl

dev_login_owns_example :
    (authorize (own_request developer_login "session.create" place)).allow ≡ true
unfolding get
dev_login_owns_example =
    dev_login_owns local headers 9 fresh fresh developer_login "session.create" place let_in refl
      refl refl refl

abbrev asked : IssueCredential
asked = record {
  tenant_id = "tenant";
  organization_id = "org";
  workspace_id = "workspace";
  ttl_ms = none;
  now = 1_000;
}

abbrev credential : IssuedCredential
credential = record {
  access_token = "pcw1.payload.mac";
  proof_key = "key";
  expires_at = 61_000;
  credential_id = "credential";
}

gives : (issue cfg asked fresh).0 ≡ ok credential
unfolding issue ◌>>=◌ pure require
gives = refl

issue_bounded_example : (2_000 ≤ 61_000) × (61_000 ≤ 61_000) × (61_000 ≤ 301_000)
issue_bounded_example = issue_bounded cfg asked fresh credential gives

issue-read_token_example :
    (read : WorkloadClaims) × (read_token cfg search fresh ≡ (ok ("pcw1.payload.mac", read), fresh))
    × (read.jti ≡ "credential")
    × (read.expires_at ≡ 61_000)
    × (read.tenant_id ≡ "tenant")
    × (read.organization_id ≡ "org")
    × (read.workspace_id ≡ "workspace")
    × (read.proof_key_hash ≡ "key")
unfolding is_space
issue-read_token_example =
    issue-read_token cfg asked fresh fresh credential search refl (refl, refl, refl)
      (refl, refl, refl) gives refl
