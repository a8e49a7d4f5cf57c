-- ===== src/Authz/Roles.antt =====
-- What each role may do: `ROLE_ACTIONS` of packages/authz/src/index.ts, and the actions that
-- packages/control-plane-contracts/src/index.ts knows.
use perseverance.Prelude.{String, Bool, ◌||◌, List, [], ◌∷◌, contains}
use perseverance.Authz.Types.{
  OrganizationRole, owner, admin, developer, viewer, billing, support, operator, security_approver,
  kms_operator,
}

-- `authorizationActionSchema`.
abbrev pub known_actions : List String
known_actions =
    "session.read" ∷ "session.create" ∷ "session.update" ∷ "turn.start" ∷ "turn.interrupt"
    ∷ "turn.steer" ∷ "event.replay" ∷ "event.subscribe" ∷ "approval.read" ∷ "approval.decide"
    ∷ "notification.subscribe" ∷ "notification.read" ∷ "notification.revoke" ∷ "attachment.upload"
    ∷ "attachment.read" ∷ "attachment.delete" ∷ "source.create" ∷ "source.read" ∷ "source.delete"
    ∷ "source.reindex" ∷ "source.search" ∷ "citation.read" ∷ "artifact.metadata.read"
    ∷ "artifact.read" ∷ "artifact.download" ∷ "workspace.snapshot.read" ∷ "usage.read"
    ∷ "usage.reconcile" ∷ "billing.read" ∷ "billing.financial.read" ∷ "billing.webhook.receive"
    ∷ "audit.read" ∷ "metrics.read" ∷ "folder.read" ∷ "folder.manage" ∷ "folder.create"
    ∷ "folder.invite.create" ∷ "folder.invite.accept" ∷ "folder.invite.revoke"
    ∷ "folder.membership.manage" ∷ "folder.ownership.transfer" ∷ "folder.resource.move"
    ∷ "folder.export" ∷ "provider.catalog.read" ∷ "provider.readiness.read" ∷ "support.grant.create"
    ∷ "support.grant.read" ∷ "support.grant.revoke" ∷ "support.grant.approve" ∷ "support.access.use"
    ∷ "break_glass.request" ∷ "break_glass.approve" ∷ []

-- `ROLE_ACTIONS`.
unfoldable pub role_actions : OrganizationRole → List String
role_actions owner = "*" ∷ []
role_actions admin =
    "session.read" ∷ "session.create" ∷ "session.update" ∷ "turn.start" ∷ "turn.interrupt"
    ∷ "turn.steer" ∷ "workspace.snapshot.read" ∷ "usage.read" ∷ "billing.read"
    ∷ "billing.financial.read" ∷ "usage.reconcile" ∷ "audit.read" ∷ "metrics.read" ∷ "folder.read"
    ∷ "folder.manage" ∷ "folder.create" ∷ "folder.invite.create" ∷ "folder.invite.accept"
    ∷ "folder.invite.revoke" ∷ "folder.membership.manage" ∷ "folder.ownership.transfer"
    ∷ "folder.resource.move" ∷ "folder.export" ∷ "provider.catalog.read" ∷ "provider.readiness.read"
    ∷ "source.create" ∷ "source.read" ∷ "source.delete" ∷ "source.reindex" ∷ "source.search"
    ∷ "citation.read" ∷ "notification.subscribe" ∷ "notification.read" ∷ "notification.revoke"
    ∷ "support.grant.read" ∷ "support.grant.approve" ∷ "break_glass.approve" ∷ []
role_actions developer =
    "session.read" ∷ "session.create" ∷ "session.update" ∷ "turn.start" ∷ "turn.interrupt"
    ∷ "turn.steer" ∷ "event.replay" ∷ "event.subscribe" ∷ "approval.read" ∷ "approval.decide"
    ∷ "notification.subscribe" ∷ "notification.read" ∷ "notification.revoke" ∷ "attachment.upload"
    ∷ "attachment.read" ∷ "attachment.delete" ∷ "artifact.metadata.read" ∷ "artifact.read"
    ∷ "artifact.download" ∷ "workspace.snapshot.read" ∷ "usage.read" ∷ "billing.read" ∷ "audit.read"
    ∷ "folder.read" ∷ "folder.manage" ∷ "folder.create" ∷ "folder.invite.create"
    ∷ "folder.invite.accept" ∷ "folder.invite.revoke" ∷ "folder.membership.manage"
    ∷ "folder.ownership.transfer" ∷ "folder.resource.move" ∷ "folder.export"
    ∷ "provider.catalog.read" ∷ "provider.readiness.read" ∷ "source.create" ∷ "source.read"
    ∷ "source.delete" ∷ "source.reindex" ∷ "source.search" ∷ "citation.read"
    ∷ "support.grant.create" ∷ "support.grant.read" ∷ "support.grant.revoke" ∷ []
role_actions viewer =
    "session.read" ∷ "event.replay" ∷ "event.subscribe" ∷ "approval.read" ∷ "notification.subscribe"
    ∷ "notification.read" ∷ "notification.revoke" ∷ "attachment.read" ∷ "artifact.metadata.read"
    ∷ "artifact.read" ∷ "artifact.download" ∷ "workspace.snapshot.read" ∷ "usage.read"
    ∷ "billing.read" ∷ "audit.read" ∷ "folder.read" ∷ "folder.invite.accept"
    ∷ "provider.catalog.read" ∷ "provider.readiness.read" ∷ "source.read" ∷ "source.search"
    ∷ "citation.read" ∷ "support.grant.create" ∷ "support.grant.read" ∷ "support.grant.revoke" ∷ []
role_actions billing =
    "usage.read" ∷ "billing.read" ∷ "billing.financial.read" ∷ "usage.reconcile" ∷ "audit.read" ∷ []
role_actions support =
    "session.read" ∷ "support.grant.read" ∷ "support.grant.approve" ∷ "support.access.use" ∷ []
role_actions operator =
    "metrics.read" ∷ "provider.readiness.read" ∷ "support.grant.read" ∷ "break_glass.request" ∷ []
role_actions security_approver =
    "support.grant.read" ∷ "support.grant.approve" ∷ "break_glass.approve" ∷ []
role_actions kms_operator =
    "support.grant.read" ∷ "support.grant.approve" ∷ "support.access.use" ∷ "break_glass.approve"
    ∷ []

-- `actions.has('*') || actions.has(action)`.
unfoldable pub permits : OrganizationRole → String → Bool
unfolding role_actions
permits role action = contains "*" (role_actions role) || contains action (role_actions role)
