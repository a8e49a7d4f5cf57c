-- ===== src/Authz/Allowed.antt =====
-- When `authorize` of packages/authz/src/index.ts allows an action.
use text.Mathlib.TextEquality.{eq_iff}
use perseverance.Prelude.{
  String, ◌≡◌, ◌≢◌, ◌⊎◌, inl, inr, refl, ap, ◌↔◌, Bool, true, false, not, ◌&&◌, Option, none, some,
  List, [], ◌∷◌, arith, str_eq, if◌then◌else◌, find, contains, find_passes, length, ltb, IsIn,
  contains-IsIn, IsIn-contains, both_of,
}
use perseverance.Prelude.Text.{truthy}
use perseverance.Authz.Types.{
  active, Membership, MembershipStatus, end_user, PrincipalKind, is_identifier,
}
use perseverance.Authz.Roles.{known_actions, permits}
use perseverance.Authz.Authorize.{
  AuthorizationResource, AuthorizationDecision, AuthorizationRequest, role_allowed, unknown_action,
  denied_for, is_end_user, is_active, is_membership_for, text_of, covers_workspace, decide_found,
  decide_on, authorize,
}

-- The resource names no workspace, or the membership has none and so stands for all, or it has the
-- workspace that the resource names.
abbrev pub IsCovered : AuthorizationResource → Membership → Type 0
IsCovered r m =
    ((r.workspace_id ≡ none) ⊎ (r.workspace_id ≡ some ""))
    ⊎ ((m.workspace_ids ≡ []) ⊎ ((w : String) × (r.workspace_id ≡ some w) × IsIn w m.workspace_ids))

-- The reasons for which an action is allowed.
pub record IsAuthorized (input : AuthorizationRequest) : Type 0 where
  pub resource : AuthorizationResource
  pub membership : Membership
  pub asked : input.resource ≡ some resource
  pub known : IsIn input.action known_actions
  pub names_organization : resource.organization_id ≢ ""
  pub names_type : resource.resource_type ≢ ""
  pub by_user : input.principal.kind ≡ end_user
  pub first :
      find
        (λ m.
          str_eq m.organization_id resource.organization_id
          && str_eq m.subject input.principal.subject
          && str_eq m.issuer input.principal.issuer)
        input.memberships
      ≡ some membership
  pub is_live : membership.status ≡ active
  pub in_organization : membership.organization_id ≡ resource.organization_id
  pub of_subject : membership.subject ≡ input.principal.subject
  pub of_issuer : membership.issuer ≡ input.principal.issuer
  pub in_workspace : IsCovered resource membership
  pub permitted : permits membership.role input.action ≡ true

pub named : (x : String) → x ≢ "" → is_identifier x ≡ true
named String.[] h = absurd (h refl)
named (String.◌∷◌ c x) h = refl

pub not_empty : (x : String) → is_identifier x ≡ true → x ≢ ""
not_empty String.[] h e = cc
not_empty (String.◌∷◌ c x) h e = cc

listed : (b c : Bool) → b ≡ true → not (true && b && not c) ≡ true → c ≡ true
listed b c p h = ground arith

found_passes : (a b c : Bool) → c ≡ true → not (a && b && not c) ≡ true
found_passes a b c h = ground arith

not_empty_list : (x : String) (xs : List String) → ltb 0 (length (x ∷ xs)) ≡ true
not_empty_list x xs = ground arith

covered_list :
    (w : String) (ids : List String)
    → not (true && ltb 0 (length ids) && not (contains w ids)) ≡ true
    → (ids ≡ []) ⊎ IsIn w ids
covered_list w [] h = inl refl
covered_list w (x ∷ ids) h = inr (contains-IsIn w (x ∷ ids) (listed _ _ (not_empty_list x ids) h))

covered : (r : AuthorizationResource) (m : Membership) → covers_workspace r m ≡ true → IsCovered r m
covered r m h = go r.workspace_id refl h
  where
    go :
        (o : Option String)
        → r.workspace_id ≡ o
        → not (
            truthy o
            && ltb 0 (length m.workspace_ids)
            && not (contains (text_of o) m.workspace_ids))
          ≡ true
        → IsCovered r m
    go none e h = inl (inl e)
    go (some String.[]) e h = inl (inr e)
    go (some (String.◌∷◌ c w)) e h = elim (covered_list (String.◌∷◌ c w) m.workspace_ids h) [
      | inl n ↦ inr (inl n)
      | inr i ↦ inr (inr (String.◌∷◌ c w, e, i))
    ]

covers : (r : AuthorizationResource) (m : Membership) → IsCovered r m → covers_workspace r m ≡ true
covers r m (inl (inl e)) = rw e refl
covers r m (inl (inr e)) = rw e refl
covers r m (inr (inl e)) = rw e (unlisted (truthy r.workspace_id))
  where
    unlisted : (b : Bool) → not (b && false && true) ≡ true
    unlisted b = ground arith
covers r m (inr (inr (w, e, i))) = rw e (
    found_passes (truthy (some w)) (ltb 0 (length m.workspace_ids)) _
      (IsIn-contains w m.workspace_ids i))

active_of : (s : MembershipStatus) → is_active s ≡ true → s ≡ active
active_of active e = refl
active_of MembershipStatus.disabled e = cc
active_of MembershipStatus.revoked e = cc

end_user_of : (k : PrincipalKind) → is_end_user k ≡ true → k ≡ end_user
end_user_of end_user e = refl
end_user_of PrincipalKind.internal_service e = cc

allowed_resource :
    (input : AuthorizationRequest) (o : Option AuthorizationResource)
    → (decide_on input o).allow ≡ true
    → (r : AuthorizationResource) × (o ≡ some r)
      × ((is_identifier r.organization_id && is_identifier r.resource_type) ≡ true)
      × (is_end_user input.principal.kind ≡ true)
      × ((decide_found input r (find (is_membership_for input.principal r) input.memberships)).allow
          ≡ true)
allowed_resource input none e = cc
allowed_resource input (some r) e =
    (r, refl, ground (arith, e), ground (arith, e), ground (arith, e))

allowed_member :
    (input : AuthorizationRequest) (r : AuthorizationResource) (o : Option Membership)
    → (decide_found input r o).allow ≡ true
    → (m : Membership) × (o ≡ some m)
      × (is_active m.status ≡ true)
      × (covers_workspace r m ≡ true)
      × (permits m.role input.action ≡ true)
allowed_member input r none e = cc
allowed_member input r (some m) e =
    (m, refl, ground (arith, e), ground (arith, e), ground (arith, e))

all_three : (a b c : Bool) → (a && b && c) ≡ true → (a ≡ true) × (b ≡ true) × (c ≡ true)
all_three a b c e = (ground arith, ground arith, ground arith)

known_first :
    (c : Bool) (d : AuthorizationDecision)
    → (if c then d else denied_for unknown_action).allow ≡ true
    → (c ≡ true) × (d.allow ≡ true)
known_first true d e = (refl, e)
known_first false d e = cc

allowed-IsAuthorized :
    (input : AuthorizationRequest) → (authorize input).allow ≡ true → IsAuthorized input
unfolding authorize
allowed-IsAuthorized input e =
    let (known, decided) =
      known_first (contains input.action known_actions) (decide_on input input.resource) e in
    let (r, asked, scoped, by_user, found) = allowed_resource input input.resource decided in
    let (organization, typed) = both_of scoped in
    let (m, first, live, workspace, permitted) = allowed_member input r _ found in
    let (same_organization, same_subject, same_issuer) =
      all_three _ _ _ (find_passes (is_membership_for input.principal r) input.memberships first) in
    record {
      resource = r;
      membership = m;
      asked = asked;
      known = contains-IsIn input.action known_actions known;
      names_organization = not_empty r.organization_id organization;
      names_type = not_empty r.resource_type typed;
      by_user = end_user_of input.principal.kind by_user;
      first = first;
      is_live = active_of m.status live;
      in_organization = (eq_iff m.organization_id r.organization_id).0 same_organization;
      of_subject = (eq_iff m.subject input.principal.subject).0 same_subject;
      of_issuer = (eq_iff m.issuer input.principal.issuer).0 same_issuer;
      in_workspace = covered r m workspace;
      permitted = permitted;
    }

IsAuthorized-allowed :
    (input : AuthorizationRequest)
    → IsAuthorized input
    → authorize input ≡ record { allow = true; reason_code = role_allowed }
unfolding authorize
IsAuthorized-allowed input h =
    rw (IsIn-contains input.action known_actions h.known, h.asked)
      (rw
        (
          named h.resource.organization_id h.names_organization,
          named h.resource.resource_type h.names_type,
          h.by_user,
        )
        (rw h.first (
          rw h.is_live (rw (covers h.resource h.membership h.in_workspace) (rw h.permitted refl)))))

-- `authorize` allows an action exactly if the action is known, the resource names an organization
-- and a type, the principal is an end user, and the first membership of the list with the
-- principal's subject and issuer in that very organization is active, lists the workspace
-- that the resource names, if it names one and the membership lists any, and has a role that permits the
-- action.
pub authorize_allows :
    (input : AuthorizationRequest) → ((authorize input).allow ≡ true) ↔ IsAuthorized input
authorize_allows input = (
  allowed-IsAuthorized input,
  λ h. ap (λ (d : AuthorizationDecision). d.allow) (IsAuthorized-allowed input h),
)
