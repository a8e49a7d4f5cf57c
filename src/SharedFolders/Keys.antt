-- ===== src/SharedFolders/Keys.antt =====
-- The keys of the maps of `InMemorySharedFolderCore`.
use Prim.Native.String.{◌++◌ as str_append}
use perseverance.Prelude.{String, ℕ}
use perseverance.SharedFolders.Types.{
  FolderScope, ResourceType, conversation, source, attachment, artifact, agent_task, Environment,
}

abbrev pub resource_type_name : ResourceType → String
resource_type_name conversation = "conversation"
resource_type_name source = "source"
resource_type_name attachment = "attachment"
resource_type_name artifact = "artifact"
resource_type_name agent_task = "agent_task"

module _ (env : Environment) where
  -- `scopeKey`.
  abbrev pub scope_key : FolderScope → String
  scope_key scope = env.scope_json scope

  -- `folderKey`.
  unfoldable pub folder_key : FolderScope → String → String
  folder_key scope folder_id = str_append (scope_key scope) (str_append ":" folder_id)

  -- What the keys of a folder's memberships begin with.
  abbrev pub member_prefix : FolderScope → String → String
  member_prefix scope folder_id = str_append (folder_key scope folder_id) ":"

  -- `memberKey`.
  unfoldable pub member_key : FolderScope → String → String → String
  member_key scope folder_id principal_id = str_append (member_prefix scope folder_id) principal_id

  -- `bindingKey`.
  unfoldable pub binding_key : FolderScope → ResourceType → String → String
  binding_key scope type resource_id =
      str_append (scope_key scope)
        (str_append ":" (str_append (resource_type_name type) (str_append ":" resource_id)))

  -- The key of a task.
  unfoldable pub task_key : FolderScope → String → String
  task_key scope idempotency_key = str_append (scope_key scope) (str_append ":" idempotency_key)

  -- The key of the resolution of an approval.
  unfoldable pub approval_key : String → ℕ → String
  approval_key approval_id version = str_append approval_id (str_append ":" (env.decimal version))
