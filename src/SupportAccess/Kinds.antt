-- ===== src/SupportAccess/Kinds.antt =====
-- What the tests on roles, actions and statuses say when they hold.
use perseverance.Prelude.{◌≡◌, refl, sym, subst, true, not, ◌||◌, List, any, IsIn, any-IsIn}
use perseverance.SupportAccess.Types.{
  Role, tenant_user, admin, support, operator, security_approver, kms_operator, Action,
  content_view, artifact_download, attachment_download, content_decrypt, Status, active,
  pending_verification, pending_approval, revoked, expired, denied, action_eq, status_eq,
  is_kms_operator,
}

pub active_of : {status : Status} → status_eq status active ≡ true → status ≡ active
active_of {status = active} h = refl
active_of {status = pending_verification} h = cc
active_of {status = pending_approval} h = cc
active_of {status = revoked} h = cc
active_of {status = expired} h = cc
active_of {status = denied} h = cc

pub action_of : (a b : Action) → action_eq a b ≡ true → a ≡ b
action_of content_view content_view h = refl
action_of content_view artifact_download h = cc
action_of content_view attachment_download h = cc
action_of content_view content_decrypt h = cc
action_of artifact_download content_view h = cc
action_of artifact_download artifact_download h = refl
action_of artifact_download attachment_download h = cc
action_of artifact_download content_decrypt h = cc
action_of attachment_download content_view h = cc
action_of attachment_download artifact_download h = cc
action_of attachment_download attachment_download h = refl
action_of attachment_download content_decrypt h = cc
action_of content_decrypt content_view h = cc
action_of content_decrypt artifact_download h = cc
action_of content_decrypt attachment_download h = cc
action_of content_decrypt content_decrypt h = refl

kms_of : (role : Role) → is_kms_operator role ≡ true → role ≡ kms_operator
kms_of kms_operator h = refl
kms_of tenant_user h = cc
kms_of admin h = cc
kms_of support h = cc
kms_of operator h = cc
kms_of security_approver h = cc

pub decrypts_as_kms :
    {action : Action} {role : Role}
    → (not (action_eq action content_decrypt) || is_kms_operator role) ≡ true
    → action ≡ content_decrypt
    → role ≡ kms_operator
decrypts_as_kms {action = action} {role = role} h e =
    kms_of role
      (subst (λ a. (not (action_eq a content_decrypt) || is_kms_operator role) ≡ true) e h)

pub action_in :
    (action : Action) (actions : List Action)
    → any (action_eq action) actions ≡ true
    → IsIn action actions
action_in action actions h =
    let (a, same, i) = any-IsIn (action_eq action) actions h in
    subst (λ x. IsIn x actions) (sym (action_of action a same)) i
