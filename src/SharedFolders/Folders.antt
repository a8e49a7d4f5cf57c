-- ===== src/SharedFolders/Folders.antt =====
-- The methods of `InMemorySharedFolderCore` on folders: create, delete, list, members, export, audit.
-- The time of a call, `input.now` or the clock's, is an argument of the model.
use Prim.Native.String.{◌++◌ as str_append}
use text.Mathlib.Text.{starts_with}
use perseverance.Prelude.{
  ℕ, String, Bool, not, ◌&&◌, Option, none, some, List, [], ◌∷◌, leb, is_some, str_eq, filter, any,
  map,
}
use perseverance.Prelude.Text.{is_empty, trim, utf16_length}
use perseverance.Prelude.Map.{Map, get, keys}
use perseverance.Prelude.Exec.{pure, gets, modify, require, or_throw, ◌>>=◌, ◌>>◌}
use perseverance.SharedFolders.Types.{
  FolderScope, FolderIdentity, owner, manage, export, active, revoked, folder_created,
  folder_deleted, folder_exported, success, SharedFolder, FolderMembership, FolderAuditRecord,
  Environment, folder_name_invalid, type_error, FolderMethod, is_active,
}
use perseverance.SharedFolders.Keys.{scope_key, folder_key, member_prefix, member_key}
use perseverance.SharedFolders.Store.{
  set_folder, set_membership, random_uuid, get_folder, active_membership, bump, no_details,
  append_audit,
}

pub record CreateFolder : Type 0 where
  pub identity : FolderIdentity
  pub open identity use *
  pub name : String
  pub now : ℕ

pub record DeleteFolder : Type 0 where
  pub identity : FolderIdentity
  pub open identity use *
  pub folder_id : String
  pub now : ℕ

abbrev pub new_folder : CreateFolder → String → SharedFolder
new_folder input folder_id = record {
  scope = input.scope;
  folder_id = folder_id;
  name = trim input.name;
  acl_version = 1;
  cache_epoch = 0;
  version = 1;
  created_by_principal_id = input.principal_id;
  created_at = input.now;
  updated_at = input.now;
  archived_at = none;
}

abbrev pub owner_membership : CreateFolder → String → FolderMembership
owner_membership input folder_id = record {
  scope = input.scope;
  folder_id = folder_id;
  principal_id = input.principal_id;
  role = owner;
  status = active;
  version = 1;
  accepted_invitation_id = none;
  created_at = input.now;
  updated_at = input.now;
  revoked_at = none;
}

abbrev pub is_listed : String → String × SharedFolder → Bool
is_listed prefix e = starts_with e.0 prefix && not (is_some (e.1).archived_at)

module _ (env : Environment) where
  -- `createFolder`.
  unfoldable pub create_folder : CreateFolder → FolderMethod (SharedFolder × FolderMembership)
  create_folder input = do
    uuid ← random_uuid env
    let folder_id = str_append "fld_" uuid
    let folder = new_folder input folder_id
    require (not (is_empty folder.name) && leb (utf16_length folder.name) 80) folder_name_invalid
    let membership = owner_membership input folder_id
    modify (set_folder (folder_key env input.scope folder_id) folder)
    modify (set_membership (member_key env input.scope folder_id input.principal_id) membership)
    append_audit env input.identity folder folder_created success "CREATED" no_details
    pure (folder, membership)

  -- `deleteFolder`.
  unfoldable pub delete_folder : DeleteFolder → FolderMethod SharedFolder
  delete_folder input = do
    get_folder env input.identity input.folder_id manage
    changed ← bump env input.scope input.folder_id revoked none input.now
    append_audit env input.identity changed folder_deleted success "DELETED" no_details
    found ← gets (λ s. get (folder_key env input.scope input.folder_id) s.folders)
    stored ← or_throw found type_error
    let archived = record stored { archived_at = some input.now }
    modify (set_folder (folder_key env input.scope input.folder_id) archived)
    pure archived

  abbrev pub with_membership :
      FolderIdentity
      → Map FolderMembership
      → List (String × SharedFolder)
      → List (SharedFolder × FolderMembership)
  with_membership identity memberships [] = []
  with_membership identity memberships ((key, folder) ∷ m) =
      let rest = with_membership identity memberships m in
      elim (active_membership env memberships identity folder.folder_id) [
        | none ↦ rest
        | some membership ↦ (folder, membership) ∷ rest
      ]

  -- `listFolders`.
  unfoldable pub list_folders :
      FolderIdentity → FolderMethod (List (SharedFolder × FolderMembership))
  list_folders identity = gets (λ s.
      with_membership identity s.memberships
        (filter (is_listed (str_append (scope_key env identity.scope) ":")) s.folders))

  abbrev pub is_member_entry : String → String × FolderMembership → Bool
  is_member_entry prefix e = starts_with e.0 prefix && is_active (e.1).status

  -- `listMembers`.
  unfoldable pub list_members : FolderIdentity → String → FolderMethod (List FolderMembership)
  list_members identity folder_id = do
    get_folder env identity folder_id manage
    gets (λ s.
        map (λ (e : String × FolderMembership). e.1)
          (filter (is_member_entry (member_prefix env identity.scope folder_id)) s.memberships))

  -- `hasSharedFolders`.
  unfoldable pub has_shared_folders : FolderScope → FolderMethod Bool
  has_shared_folders scope =
      gets (λ s. any (λ k. starts_with k (str_append (scope_key env scope) ":")) (keys s.folders))

  -- `recordExport`.
  unfoldable pub record_export : FolderIdentity → String → Option String → FolderMethod (Unit {0})
  record_export identity folder_id correlation_id = do
    folder ← get_folder env identity folder_id export
    append_audit env identity folder folder_exported success "EXPORTED"
        (record no_details { correlation_id = correlation_id })

  -- `audit`.
  unfoldable pub list_folder_audit : FolderIdentity → String → FolderMethod (List FolderAuditRecord)
  list_folder_audit identity folder_id = do
    get_folder env identity folder_id manage
    gets (λ s.
        filter
          (λ r.
            str_eq r.folder_id folder_id
            && str_eq (scope_key env r.scope) (scope_key env identity.scope))
          s.audit)
