-- ===== src/SharedFolders/Cache/Access.antt =====
-- What `role` and `getFolder` answer after any calls.
use perseverance.Prelude.{
  String, ◌≡◌, refl, ap, ◌∙◌, Option, none, some, List, [], ◌∷◌, inl, inr, if◌then◌else◌,
  Bool-cases, Option-cases,
}
use perseverance.Prelude.Map.{get}
use perseverance.Prelude.Exec.{Result, ok, err, pure, or_throw, require, ◌>>=◌}
use perseverance.Prelude.Exec.Triple.{same_outcome}
use perseverance.SharedFolders.Types.{
  FolderIdentity, FolderRole, Capability, SharedFolder, Core, Environment, folder_not_found,
  folder_access_denied, FolderError,
}
use perseverance.SharedFolders.Keys.{folder_key, member_key}
use perseverance.SharedFolders.Store.{allowed, find_folder, role, get_folder}
use perseverance.SharedFolders.Run.{
  Call, creates_folder, deletes_folder, gets_folder, lists_members, records_export, lists_audit,
  creates_invitation, lists_invitations, accepts_invitation, revokes_invitation, changes_role,
  revokes_membership, transfers_ownership, binds_resource, moves_resource, authorizes_resource,
  reserves_task, gets_task, binds_task_runtime, settles_task, resolves_approval, empty_core, step,
  run,
}
use perseverance.SharedFolders.Cache.{
  SelfDelimiting, FreshIds, stored_role, IsCoherent, folder_role-IsReading,
}
use perseverance.SharedFolders.Cache.Reads.{real_role}
use perseverance.SharedFolders.Cache.Writes.{KeepsCoherent, get_folder-IsCoherent}
use perseverance.SharedFolders.Cache.Folders.{
  create_folder-Triple, delete_folder-Triple, list_members-Triple, record_export-Triple,
  list_folder_audit-Triple,
}
use perseverance.SharedFolders.Cache.Invitations.{
  create_invitation-Triple, list_invitations-Triple, accept_invitation-Triple,
  revoke_invitation-Triple,
}
use perseverance.SharedFolders.Cache.Members.{
  change_role-Triple, revoke_membership-Triple, transfer_ownership-Triple,
}
use perseverance.SharedFolders.Cache.Resources.{
  bind_resource-Triple, authorize_resource-Triple, reserve_task-Triple, get_task-Triple,
  bind_task_runtime-Triple, settle_task-Triple, resolve_approval-Triple,
}
use perseverance.SharedFolders.Cache.Move.{move_resource-Triple}

-- `getFolder` with no cache.
abbrev pub folder_for :
    Option SharedFolder → Option FolderRole → Capability → Result FolderError SharedFolder
folder_for none r capability = err folder_not_found
folder_for (some f) r capability = if allowed r capability then ok f else err folder_access_denied

kept :
    {A : Type 0} (env : Environment) (m : Core → Result FolderError A × Core) (s : Core)
    → KeepsCoherent env m
    → IsCoherent env none s
    → IsCoherent env none (m s).1
kept env m s t c = same_outcome (IsCoherent env none) (m s).0 (m s).1 (t.at s c)

module _ (env : Environment) (json : SelfDelimiting env) (fresh : FreshIds env) where
  step-IsCoherent :
      (s : Core) (call : Call) → IsCoherent env none s → IsCoherent env none (step env s call)
  unfolding step
  step-IsCoherent s (creates_folder i) = kept env _ s (create_folder-Triple env json fresh i)
  step-IsCoherent s (deletes_folder i) = kept env _ s (delete_folder-Triple env i)
  step-IsCoherent s (gets_folder i f c) = kept env _ s (get_folder-IsCoherent env i f c)
  step-IsCoherent s (lists_members i f) = kept env _ s (list_members-Triple env i f)
  step-IsCoherent s (records_export i f c) = kept env _ s (record_export-Triple env i f c)
  step-IsCoherent s (lists_audit i f) = kept env _ s (list_folder_audit-Triple env i f)
  step-IsCoherent s (creates_invitation i) = kept env _ s (create_invitation-Triple env i)
  step-IsCoherent s (lists_invitations i f n) = kept env _ s (list_invitations-Triple env i f n)
  step-IsCoherent s (accepts_invitation i) = kept env _ s (accept_invitation-Triple env i)
  step-IsCoherent s (revokes_invitation i) = kept env _ s (revoke_invitation-Triple env i)
  step-IsCoherent s (changes_role i) = kept env _ s (change_role-Triple env i)
  step-IsCoherent s (revokes_membership i) = kept env _ s (revoke_membership-Triple env i)
  step-IsCoherent s (transfers_ownership i) = kept env _ s (transfer_ownership-Triple env i)
  step-IsCoherent s (binds_resource i) = kept env _ s (bind_resource-Triple env i)
  step-IsCoherent s (moves_resource i) = kept env _ s (move_resource-Triple env i)
  step-IsCoherent s (authorizes_resource i t r c) =
      kept env _ s (authorize_resource-Triple env i t r c)
  step-IsCoherent s (reserves_task i) = kept env _ s (reserve_task-Triple env i)
  step-IsCoherent s (gets_task i t k) = kept env _ s (get_task-Triple env i t k)
  step-IsCoherent s (binds_task_runtime i) = kept env _ s (bind_task_runtime-Triple env i)
  step-IsCoherent s (settles_task i) = kept env _ s (settle_task-Triple env i)
  step-IsCoherent s (resolves_approval i) = kept env _ s (resolve_approval-Triple env i)

  run-IsCoherent :
      (s : Core) (calls : List Call) → IsCoherent env none s → IsCoherent env none (run env s calls)
  unfolding run
  run-IsCoherent s [] c = c
  run-IsCoherent s (call ∷ calls) c =
      run-IsCoherent (step env s call) calls (step-IsCoherent s call c)

  empty_core-IsCoherent : IsCoherent env none empty_core
  unfolding get
  empty_core-IsCoherent = record {
    drawn = λ k f e. cc;
    entries = λ k c e. cc;
    exact = λ k c t e. cc;
    invited = λ id i e. cc;
  }

module _ (env : Environment) where
  role_of_coherent :
      (identity : FolderIdentity) (folder_id : String) (s : Core)
      → IsCoherent env none s
      → (role env identity folder_id s).0 ≡ ok (real_role env identity folder_id s)
  unfolding role
  role_of_coherent identity folder_id s c =
      ap (λ r. ok r)
        (folder_role-IsReading (get (folder_key env identity.scope folder_id) s.folders)
          (member_key env identity.scope folder_id identity.principal_id) s c.exact).0

  access_checked :
      (identity : FolderIdentity) (folder_id : String) (f : SharedFolder) (capability : Capability)
      (r : Option FolderRole) (s : Core)
      → (role env identity folder_id s).0 ≡ ok r
      → ((role env identity folder_id >>= λ found.
            require (allowed found capability) folder_access_denied >>= λ _. pure f)
          s).0
        ≡ (if allowed r capability then ok f else err folder_access_denied)
  unfolding ◌>>=◌
  access_checked identity folder_id f capability r s e =
      rw e (elim (Bool-cases (allowed r capability)) [ inl b ↦ rw b refl | inr b ↦ rw b refl ])

  get_folder_of_coherent :
      (identity : FolderIdentity) (folder_id : String) (capability : Capability) (s : Core)
      → IsCoherent env none s
      → (get_folder env identity folder_id capability s).0
        ≡ folder_for
            (get (folder_key env identity.scope folder_id) s.folders)
            (real_role env identity folder_id s)
            capability
  unfolding get_folder ◌>>=◌ find_folder
  get_folder_of_coherent identity folder_id capability s c =
      elim (Option-cases (get (folder_key env identity.scope folder_id) s.folders)) [
        | inl e ↦ rw (e, or_throw) refl
        | inr (f, e) ↦
            let member =
              get (member_key env identity.scope folder_id identity.principal_id) s.memberships in
            rw (e, or_throw)
              (access_checked identity folder_id f capability _ s
                (role_of_coherent identity folder_id s c ∙ ap (λ o. ok (stored_role o member)) e))
      ]

module _ (env : Environment) (json : SelfDelimiting env) (fresh : FreshIds env) where
  -- After any calls, failing ones included, from an empty core, `role` returns the role that the
  -- stored folder and the stored membership of the caller give at that moment, whatever is cached. That
  -- `JSON.stringify` of two scopes never begins one text with different rests, and that no identifier
  -- of `randomUUID` begins with another, are hypotheses.
  pub run-role :
      (calls : List Call) (identity : FolderIdentity) (folder_id : String)
      → (role env identity folder_id (run env empty_core calls)).0
        ≡ ok (real_role env identity folder_id (run env empty_core calls))
  run-role calls identity folder_id =
      role_of_coherent env identity folder_id (run env empty_core calls)
        (run-IsCoherent env json fresh empty_core calls (empty_core-IsCoherent env json fresh))

  -- After any calls from an empty core, `getFolder` returns the stored folder if it is there, is not
  -- archived and the caller has an active membership whose role allows the capability; it throws
  -- FOLDER_NOT_FOUND if there is no folder, and FOLDER_ACCESS_DENIED otherwise. That
  -- `JSON.stringify` of two scopes never begins one text with different rests, and that no identifier
  -- of `randomUUID` begins with another, are hypotheses.
  pub run-get_folder :
      (calls : List Call) (identity : FolderIdentity) (folder_id : String) (capability : Capability)
      → (get_folder env identity folder_id capability (run env empty_core calls)).0
        ≡ folder_for
            (get (folder_key env identity.scope folder_id) (run env empty_core calls).folders)
            (real_role env identity folder_id (run env empty_core calls))
            capability
  run-get_folder calls identity folder_id capability =
      get_folder_of_coherent env identity folder_id capability (run env empty_core calls)
        (run-IsCoherent env json fresh empty_core calls (empty_core-IsCoherent env json fresh))
