-- ===== src/Authz/Duties.antt =====
-- The duties that `ROLE_ACTIONS` gives to the roles.
use perseverance.Prelude.{String, ◌≡◌, refl, sym, ◌∙◌, Bool, true, false, ◌&&◌, arith, of_some}
use perseverance.Authz.Types.{
  OrganizationRole, owner, admin, developer, viewer, billing, support, operator, security_approver,
  kms_operator,
}
use perseverance.Authz.Roles.{permits}
use perseverance.Authz.Authorize.{AuthorizationRequest, authorize}
use perseverance.Authz.Allowed.{IsAuthorized, authorize_allows}

abbrev is_owner : OrganizationRole → Bool
is_owner owner = true
is_owner _ = false

roles_apart :
    (r : OrganizationRole)
    → (permits r "break_glass.request" && permits r "break_glass.approve") ≡ is_owner r
unfolding permits
roles_apart owner = refl
roles_apart admin = refl
roles_apart developer = refl
roles_apart viewer = refl
roles_apart billing = refl
roles_apart support = refl
roles_apart operator = refl
roles_apart security_approver = refl
roles_apart kms_operator = refl

-- The call for another action.
abbrev pub asking : String → AuthorizationRequest → AuthorizationRequest
asking action input = record input { action = action }

owner_of : (r : OrganizationRole) → is_owner r ≡ true → r ≡ owner
owner_of owner e = refl
owner_of admin e = cc
owner_of developer e = cc
owner_of viewer e = cc
owner_of billing e = cc
owner_of support e = cc
owner_of operator e = cc
owner_of security_approver e = cc
owner_of kms_operator e = cc

both_true : (a b : Bool) → a ≡ true → b ≡ true → (a && b) ≡ true
both_true a b p q = ground arith

-- If `authorize` allows a principal, on one resource and by one list of memberships, both to request
-- break-glass access and to approve it, then the membership that it goes by has the role of an owner.
pub break_glass_duties_apart :
    (input : AuthorizationRequest) (h : IsAuthorized (asking "break_glass.request" input))
    → (authorize (asking "break_glass.approve" input)).allow ≡ true
    → h.membership.role ≡ owner
break_glass_duties_apart input h e =
    let a = (authorize_allows (asking "break_glass.approve" input)).0 e in
    let same_resource : h.resource ≡ a.resource = of_some (sym h.asked ∙ a.asked) in
    let same : h.membership ≡ a.membership = of_some (sym h.first ∙ rw same_resource a.first) in
    owner_of h.membership.role
      (sym (roles_apart h.membership.role) ∙ both_true _ _ h.permitted (rw same a.permitted))
