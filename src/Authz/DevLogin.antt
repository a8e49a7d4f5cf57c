-- ===== src/Authz/DevLogin.antt =====
-- `ExplicitDevAuthenticationAdapter` of packages/authz/src/index.ts. Header names are in lower case,
-- and the clock's time is an argument.
use text.Mathlib.TextPositions.{eq_refl}
use perseverance.Prelude.{
  ◌≡◌, refl, sym, ap, ◌∙◌, subst, inl, inr, contains-IsIn, true, contains, Bool, ℕ, ◌+◌, ◌*◌,
  String, false, ◌&&◌, Option, none, some, List, [], ◌∷◌,
}
use perseverance.Prelude.Text.{truthy}
use perseverance.Prelude.Map.{Map, get}
use perseverance.Prelude.Exec.{Exec, Result, ok, pure, require_returns, require, ◌>>=◌}
use perseverance.Authz.Types.{
  owner, active, end_user, Membership, is_identifier, Principal, AuthError, auth_required,
  parse_principal,
}
use perseverance.Authz.Roles.{known_actions, permits}
use perseverance.Authz.Authorize.{text_of, AuthorizationResource, AuthorizationRequest, authorize}
use perseverance.Authz.Allowed.{IsCovered, not_empty, authorize_allows}

pub data Header : Type 0 where
  one : String → Header
  many : List String → Header

-- `firstHeader`.
abbrev pub first_header : Option Header → Option String
first_header none = none
first_header (some (one s)) = some s
first_header (some (many [])) = none
first_header (some (many (s ∷ _))) = some s

pub record DevAdapter : Type 0 where
  pub issuer : String
  pub subject : String

-- The membership of that principal.
abbrev pub dev_membership : DevAdapter → String → String → ℕ → Membership
dev_membership a organization_id workspace_id now = record {
  subject = a.subject;
  issuer = a.issuer;
  organization_id = organization_id;
  role = owner;
  status = active;
  workspace_ids = workspace_id ∷ [];
  updated_at = now;
}

-- The principal that `authenticate` answers with, before it is parsed.
abbrev pub dev_principal : DevAdapter → String → String → ℕ → Principal
dev_principal a organization_id workspace_id now = record {
  kind = end_user;
  subject = a.subject;
  issuer = a.issuer;
  audience = "persistent-codex-local" ∷ [];
  authenticated_at = now;
  expires_at = now + 5 * 60_000;
  assurance = record { level = "dev"; mfa = false };
  memberships =
      record {
        subject = a.subject;
        issuer = a.issuer;
        organization_id = organization_id;
        role = owner;
        status = active;
        workspace_ids = workspace_id ∷ [];
        updated_at = now;
      }
      ∷ [];
}

-- `authenticate`.
unfoldable pub dev_authenticate :
    {S : Type 0} → DevAdapter → Map Header → ℕ → Exec AuthError S Principal
dev_authenticate a headers now =
    let organization = first_header (get "x-tenant-id" headers) in
    let workspace = first_header (get "x-workspace-id" headers) in
    require (truthy organization && truthy workspace) auth_required >>= λ _.
    parse_principal (dev_principal a (text_of organization) (text_of workspace) now)

abbrev answered : Principal → Result AuthError Principal
answered p = ok p

of_ok : {a b : Principal} → answered a ≡ answered b → a ≡ b
of_ok h = cc

-- The call of `authorize` for the principal, on its own memberships.
abbrev pub own_request : Principal → String → AuthorizationResource → AuthorizationRequest
own_request p action r = record {
  principal = p;
  action = action;
  resource = some r;
  memberships = p.memberships;
}

own_workspace :
    (r : AuthorizationResource) (m : Membership) (workspace : String)
    → text_of r.workspace_id ≡ workspace
    → m.workspace_ids ≡ workspace ∷ []
    → IsCovered r m
own_workspace r m workspace e h = go r.workspace_id refl
  where
    go : (o : Option String) → r.workspace_id ≡ o → IsCovered r m
    go none n = inl (inl n)
    go (some w) n = inr (inr (w, n, ([], [], h ∙ ap (λ x. x ∷ []) (sym e ∙ ap text_of n))))

truthy-some : (x : String) (b : Bool) → (truthy (some x) && b) ≡ true → is_identifier x ≡ true
truthy-some String.[] b e = cc
truthy-some (String.◌∷◌ c x) b e = refl

dev_allowed :
    (a : DevAdapter) (organization workspace : String) (now : ℕ) (action : String)
    (r : AuthorizationResource)
    → is_identifier r.organization_id ≡ true
    → r.organization_id ≡ organization
    → text_of r.workspace_id ≡ workspace
    → is_identifier r.resource_type ≡ true
    → contains action known_actions ≡ true
    → (authorize (own_request (dev_principal a organization workspace now) action r)).allow ≡ true
unfolding permits
dev_allowed a organization workspace now action r named same_organization same_workspace typed
      known =
    let p = dev_principal a organization workspace now in
    (authorize_allows (own_request p action r)).1 (record {
      resource = r;
      membership = dev_membership a organization workspace now;
      asked = refl;
      known = contains-IsIn action known_actions known;
      names_organization = not_empty r.organization_id named;
      names_type = not_empty r.resource_type typed;
      by_user = refl;
      first =
          rw same_organization
            (rw (eq_refl organization, eq_refl a.subject, eq_refl a.issuer) refl);
      is_live = refl;
      in_organization = sym same_organization;
      of_subject = refl;
      of_issuer = refl;
      in_workspace =
          own_workspace r (dev_membership a organization workspace now) workspace same_workspace
            refl;
      permitted = refl;
    })

-- Whoever `authenticate` lets in through the headers of an organization and a workspace may do
-- everything: on the memberships of its own answer, `authorize` allows each known action on each
-- resource of that organization and workspace that names a type.
pub dev_login_owns :
    {S : Type 0} (a : DevAdapter) (headers : Map Header) (now : ℕ) (s t : S) (p : Principal)
    (action : String) (r : AuthorizationResource)
    → dev_authenticate a headers now s ≡ (ok p, t)
    → first_header (get "x-tenant-id" headers) ≡ some r.organization_id
    → first_header (get "x-workspace-id" headers) ≡ r.workspace_id
    → is_identifier r.resource_type ≡ true
    → contains action known_actions ≡ true
    → (authorize (own_request p action r)).allow ≡ true
unfolding dev_authenticate parse_principal pure
dev_login_owns a headers now s t p action r h same_organization same_workspace typed known =
    let (given, h₁) = require_returns _ _ _ _ h in
    let (_, h₂) = require_returns _ _ _ _ h₁ in
    let answer = of_ok (ap (λ q. q.0) h₂) in
    let named = truthy-some r.organization_id _ (
      subst
        (λ (o : Option String).
          (truthy o && truthy (first_header (get "x-workspace-id" headers))) ≡ true)
        same_organization given) in
    subst (λ (q : Principal). (authorize (own_request q action r)).allow ≡ true) answer
      (dev_allowed a _ _ now action r named (ap text_of (sym same_organization))
        (ap text_of (sym same_workspace)) typed known)
