-- ===== src/SharedFolders/Run.antt =====
-- `InMemorySharedFolderCore` under any sequence of its methods, each call given its arguments by a
-- client; a call that threw leaves what it wrote before.
use perseverance.Prelude.{ℕ, String, Option, List, [], ◌∷◌}
use perseverance.SharedFolders.Types.{FolderIdentity, Capability, ResourceType, Core, Environment}
use perseverance.SharedFolders.Store.{get_folder}
use perseverance.SharedFolders.Folders.{
  CreateFolder, DeleteFolder, create_folder, delete_folder, list_members, record_export,
  list_folder_audit,
}
use perseverance.SharedFolders.Invitations.{
  CreateInvitation, AcceptInvitation, RevokeInvitation, create_invitation, list_invitations,
  accept_invitation, revoke_invitation,
}
use perseverance.SharedFolders.Members.{
  ChangeRole, RevokeMembership, TransferOwnership, change_role, revoke_membership,
  transfer_ownership,
}
use perseverance.SharedFolders.Resources.{
  BindResource, MoveResource, bind_resource, move_resource, authorize_resource,
}
use perseverance.SharedFolders.Tasks.{
  ReserveTask, BindTaskRuntime, SettleTask, ResolveApproval, reserve_task, get_task,
  bind_task_runtime, settle_task, resolve_approval,
}

-- The methods that write to the core, if only to its cached roles.
pub data Call : Type 0 where
  creates_folder : CreateFolder → Call
  deletes_folder : DeleteFolder → Call
  gets_folder : FolderIdentity → String → Capability → Call
  lists_members : FolderIdentity → String → Call
  records_export : FolderIdentity → String → Option String → Call
  lists_audit : FolderIdentity → String → Call
  creates_invitation : CreateInvitation → Call
  lists_invitations : FolderIdentity → String → ℕ → Call
  accepts_invitation : AcceptInvitation → Call
  revokes_invitation : RevokeInvitation → Call
  changes_role : ChangeRole → Call
  revokes_membership : RevokeMembership → Call
  transfers_ownership : TransferOwnership → Call
  binds_resource : BindResource → Call
  moves_resource : MoveResource → Call
  authorizes_resource : FolderIdentity → ResourceType → String → Capability → Call
  reserves_task : ReserveTask → Call
  gets_task : FolderIdentity → String → String → Call
  binds_task_runtime : BindTaskRuntime → Call
  settles_task : SettleTask → Call
  resolves_approval : ResolveApproval → Call

-- `new InMemorySharedFolderCore()`.
abbrev pub empty_core : Core
empty_core = record {
  folders = [];
  memberships = [];
  invitations = [];
  invitation_by_digest = [];
  bindings = [];
  audit = [];
  authorization_cache = [];
  tasks = [];
  approval_settlements = [];
  billing_settlements = [];
  published = [];
  uuids = 0;
  randoms = 0;
}

module _ (env : Environment) where
  unfoldable pub step : Core → Call → Core
  step s (creates_folder input) = (create_folder env input s).1
  step s (deletes_folder input) = (delete_folder env input s).1
  step s (gets_folder identity id capability) = (get_folder env identity id capability s).1
  step s (lists_members identity id) = (list_members env identity id s).1
  step s (records_export identity id correlation) = (record_export env identity id correlation s).1
  step s (lists_audit identity id) = (list_folder_audit env identity id s).1
  step s (creates_invitation input) = (create_invitation env input s).1
  step s (lists_invitations identity id now) = (list_invitations env identity id now s).1
  step s (accepts_invitation input) = (accept_invitation env input s).1
  step s (revokes_invitation input) = (revoke_invitation env input s).1
  step s (changes_role input) = (change_role env input s).1
  step s (revokes_membership input) = (revoke_membership env input s).1
  step s (transfers_ownership input) = (transfer_ownership env input s).1
  step s (binds_resource input) = (bind_resource env input s).1
  step s (moves_resource input) = (move_resource env input s).1
  step s (authorizes_resource identity type id capability) =
      (authorize_resource env identity type id capability s).1
  step s (reserves_task input) = (reserve_task env input s).1
  step s (gets_task identity session key) = (get_task env identity session key s).1
  step s (binds_task_runtime input) = (bind_task_runtime env input s).1
  step s (settles_task input) = (settle_task env input s).1
  step s (resolves_approval input) = (resolve_approval env input s).1

  unfoldable pub run : Core → List Call → Core
  run s [] = s
  run s (c ∷ cs) = run (step s c) cs
