-- ===== src/SharedFolders/Resources.antt =====
-- The methods of `InMemorySharedFolderCore` on the resources of a folder.
use perseverance.Prelude.{
  ℕ, ◌+◌, String, Bool, not, ◌&&◌, Option, none, some, List, [], ◌∷◌, ◌==◌, str_eq, opt_eq, is_some,
  if◌then◌else◌,
}
use perseverance.Prelude.Text.{truthy}
use perseverance.Prelude.Map.{get, set, values}
use perseverance.Prelude.Exec.{pure, gets, modify, require, or_throw, ◌>>=◌, ◌>>◌}
use perseverance.SharedFolders.Types.{
  FolderScope, FolderIdentity, Capability, mutate, ResourceType, resource_moved, success,
  ResourceBinding, TaskReservation, Core, Environment, folder_access_denied, resource_already_bound,
  resource_not_found, version_conflict, FolderMethod,
}
use perseverance.SharedFolders.Keys.{binding_key}
use perseverance.SharedFolders.Store.{get_folder, active_membership, bump, append_audit}

pub record BindResource : Type 0 where
  pub identity : FolderIdentity
  pub open identity use *
  pub folder_id : String
  pub resource_type : ResourceType
  pub resource_id : String
  pub now : ℕ

pub record MoveResource : Type 0 where
  pub identity : FolderIdentity
  pub open identity use *
  pub source_folder_id : Option String
  pub target_folder_id : String
  pub resource_type : ResourceType
  pub resource_id : String
  pub expected_version : ℕ
  pub now : ℕ

abbrev pub set_binding : String → ResourceBinding → Core → Core
set_binding key b s = record s { bindings = set key b s.bindings }

-- The binding that `bindResource` stores; that of the source has the fields `principalId` and `now` of
-- the input too.
abbrev pub new_binding : BindResource → ResourceBinding
new_binding input = record {
  scope = input.scope;
  folder_id = input.folder_id;
  resource_type = input.resource_type;
  resource_id = input.resource_id;
  version = 1;
  created_at = input.now;
  updated_at = input.now;
}

abbrev pub moved : MoveResource → ResourceBinding → ResourceBinding
moved input b = record b {
  folder_id = input.target_folder_id;
  version = b.version + 1;
  updated_at = input.now;
}

-- `!binding || binding.folderId !== input.sourceFolderId`.
abbrev pub bound_in : Option String → Option ResourceBinding → Option ResourceBinding
bound_in source none = none
bound_in source (some b) = if opt_eq (some b.folder_id) source then some b else none

abbrev pub last_matching : {A : Type 0} → (A → Bool) → List A → Option A
last_matching p [] = none
last_matching p (x ∷ xs) =
    let rest = last_matching p xs in
    elim rest [ some y ↦ some y | none ↦ if p x then some x else none ]

abbrev pub source_text : Option String → String
source_text none = ""
source_text (some s) = s

module _ (env : Environment) where
  -- `bindResource`.
  unfoldable pub bind_resource : BindResource → FolderMethod ResourceBinding
  bind_resource input = do
    get_folder env input.identity input.folder_id mutate
    let key = binding_key env input.scope input.resource_type input.resource_id
    found ← gets (λ s. get key s.bindings)
    require (not (is_some found)) resource_already_bound
    modify (set_binding key (new_binding input))
    pure (new_binding input)

  -- `moveResource`.
  unfoldable pub move_resource : MoveResource → FolderMethod ResourceBinding
  move_resource input = do
    get_folder env input.identity input.target_folder_id mutate
    let key = binding_key env input.scope input.resource_type input.resource_id
    found ← gets (λ s. get key s.bindings)
    binding ← or_throw (bound_in input.source_folder_id found) resource_not_found
    require (binding.version == input.expected_version) version_conflict
    if truthy input.source_folder_id
        then get_folder env input.identity (source_text input.source_folder_id) mutate >> pure tt
        else pure tt
    modify (set_binding key (moved input binding))
    if truthy input.source_folder_id
        then bump env input.scope (source_text input.source_folder_id) resource_moved none input.now
          >> pure tt
        else pure tt
    folder ← bump env input.scope input.target_folder_id resource_moved none input.now
    append_audit env input.identity folder resource_moved success "MOVED" (record {
      subject_principal_id = none;
      resource_type = some input.resource_type;
      resource_id = some input.resource_id;
      correlation_id = none;
    })
    pure (moved input binding)

  -- `authorizeResource`.
  unfoldable pub authorize_resource :
      FolderIdentity → ResourceType → String → Capability → FolderMethod ResourceBinding
  authorize_resource identity type resource_id capability = do
    found ← gets (λ s. get (binding_key env identity.scope type resource_id) s.bindings)
    binding ← or_throw found resource_not_found
    get_folder env identity binding.folder_id capability
    pure binding

  -- The test on a task in `authorizeWorkloadResource`.
  abbrev pub is_backed_by : FolderScope → String → Core → TaskReservation → Bool
  is_backed_by scope folder_id s task =
      str_eq task.folder_id folder_id
      && is_some (
          active_membership env s.memberships
            (record { scope = scope; principal_id = task.principal_id }) folder_id)

  -- `authorizeWorkloadResource`.
  unfoldable pub authorize_workload_resource :
      FolderScope → ResourceType → String → FolderMethod ResourceBinding
  authorize_workload_resource scope type resource_id = do
    found ← gets (λ s. get (binding_key env scope type resource_id) s.bindings)
    binding ← or_throw found resource_not_found
    reservation ←
        gets (λ s. last_matching (is_backed_by scope binding.folder_id s) (values s.tasks))
    or_throw reservation folder_access_denied
    pure binding
