-- ===== src/SharedFolders/Owners.antt =====
-- The owners of a folder under the methods that change memberships.
pub mod Count
pub mod Transfer
use text.Mathlib.TextPositions.{starts_with-append}
use text.Mathlib.TextLemmas.{append_cancel_left}
use perseverance.Prelude.{
  ℕ, ◌+◌, ◌≤◌, String, ◌≡◌, refl, sym, ap, ◌∙◌, subst, Bool, true, false, not, ◌&&◌, Option, none,
  some, List, [], ◌∷◌, inl, inr, arith, eq_iff, str_eq, if◌then◌else◌, length, filter, Bool-cases,
  ◌==◌, of_some,
}
use perseverance.Prelude.Map.{Map, get, set, get-set_other, get-set_self}
use perseverance.Prelude.Exec.{pure, ◌>>=◌, ◌>>◌}
use perseverance.Prelude.Exec.Triple.{
  Triple, bind-Triple, require-Triple, or_throw-Triple, gets-Triple, modify-Triple, pure-Triple,
  weaken-Triple, same_outcome, strengthen-Triple, cases-Triple, skip_gets, skip_require,
  skip_or_throw,
}
use perseverance.SharedFolders.Types.{
  FolderScope, FolderIdentity, AuditAction, AccessReason, AuditOutcome, success, manage,
  SharedFolder, FolderMembership, Core, Environment, is_owner, is_active, FolderMethod, owner,
}
use perseverance.SharedFolders.Keys.{member_prefix, member_key}
use perseverance.SharedFolders.Store.{
  is_owner_entry, set_membership, AuditDetails, owner_count, get_folder, bump, append_audit,
}
use perseverance.SharedFolders.Members.{
  ChangeRole, RevokeMembership, TransferOwnership, active_only, with_role, ended_membership,
  change_role, revoke_membership, step_down, transfer_ownership,
}
use perseverance.SharedFolders.Cache.Reads.{find_folder-Triple, get_folder_frame}
use perseverance.SharedFolders.Owners.Count.{bit, count_of_get, count-set, active_only_lem, guarded}

module _ (env : Environment) where
  abbrev pub HasOwner : FolderScope → String → Core → Type 0
  HasOwner scope folder_id s = 1 ≤ owner_count env scope folder_id s

  -- The owners after a membership of the folder is replaced.
  pub owner_count-set_membership :
      (scope : FolderScope) (folder_id principal_id : String) (old new : FolderMembership)
      (s : Core)
      → get (member_key env scope folder_id principal_id) s.memberships ≡ some old
      → owner_count env scope folder_id
            (set_membership (member_key env scope folder_id principal_id) new s)
          + bit (is_active old.status && is_owner old.role)
        ≡ owner_count env scope folder_id s + bit (is_active new.status && is_owner new.role)
  unfolding owner_count member_key
  owner_count-set_membership scope folder_id principal_id old new s e =
      let prefix = member_prefix env scope folder_id in
      let key = member_key env scope folder_id principal_id in
      let entry : (m : FolderMembership)
          → is_owner_entry prefix (key, m) ≡ (is_active m.status && is_owner m.role) =
        λ m. rw (starts_with-append prefix principal_id) refl in
      omega (
        arith,
        count-set (is_owner_entry prefix) key new old s.memberships e,
        ap bit (entry old),
        ap bit (entry new),
      )

  pub bump_frame :
      (scope : FolderScope) (folder_id : String) (reason : AccessReason) (affected : Option String)
      (now : ℕ)
      → Triple
          (HasOwner scope folder_id)
          (bump env scope folder_id reason affected now)
          (λ _. HasOwner scope folder_id)
          (HasOwner scope folder_id)
  unfolding bump owner_count
  bump_frame scope folder_id reason affected now =
      bind-Triple (strengthen-Triple (λ _ _ p. p.0) (find_folder-Triple env scope folder_id)) (λ f.
        bind-Triple (modify-Triple {Q = HasOwner scope folder_id} _ (λ s p. p))
          (λ _. pure-Triple _ (λ s p. p)))

  pub append_audit_frame :
      (scope : FolderScope) (folder_id : String) (identity : FolderIdentity) (folder : SharedFolder)
      (action : AuditAction) (outcome : AuditOutcome) (code : String) (details : AuditDetails)
      → Triple
          (HasOwner scope folder_id)
          (append_audit env identity folder action outcome code details)
          (λ _. HasOwner scope folder_id)
          (HasOwner scope folder_id)
  unfolding append_audit owner_count
  append_audit_frame scope folder_id identity folder action outcome code details = record {
    at = λ s p. p;
  }

  -- What follows the writing of a membership keeps the owners.
  published_frame :
      {A : Type 0} (identity : FolderIdentity) (folder_id : String) (affected : Option String)
      (reason : AccessReason) (now : ℕ) (action : AuditAction) (code : String)
      (details : AuditDetails) (a : A)
      → Triple
          (HasOwner identity.scope folder_id)
          (do
            folder ← bump env identity.scope folder_id reason affected now
            append_audit env identity folder action success code details
            pure a)
          (λ _. HasOwner identity.scope folder_id)
          (HasOwner identity.scope folder_id)
  published_frame identity folder_id affected reason now action code details a =
      bind-Triple (bump_frame identity.scope folder_id reason affected now) (λ folder.
        bind-Triple
          (append_audit_frame identity.scope folder_id identity folder action success code details)
          (λ _. pure-Triple a (λ s p. p)))

  pub enter_frame :
      (identity : FolderIdentity) (folder_id : String)
      → Triple
          (HasOwner identity.scope folder_id)
          (get_folder env identity folder_id manage)
          (λ _. HasOwner identity.scope folder_id)
          (HasOwner identity.scope folder_id)
  unfolding owner_count
  enter_frame identity folder_id = get_folder_frame env (λ s cache p. p) identity folder_id manage

  abbrev pub KeepsOwner : {A : Type 0} → FolderScope → String → FolderMethod A → Type 0
  KeepsOwner scope folder_id m =
      Triple (HasOwner scope folder_id) m (λ _. HasOwner scope folder_id) (HasOwner scope folder_id)

  change_role_owner :
      (input : ChangeRole) → KeepsOwner input.scope input.folder_id (change_role env input)
  unfolding change_role
  change_role_owner input = bind-Triple (enter_frame input.identity input.folder_id) (λ _.
      bind-Triple (gets-Triple _) (λ found. bind-Triple (or_throw-Triple _ _ (λ s p _. p.0)) (λ m.
        bind-Triple (skip_require _ _ (λ s p. (p.0).0)) (λ _. bind-Triple (gets-Triple _) (λ owners.
          bind-Triple (require-Triple _ _ (λ s p. ((p.0).0).0)) (λ _.
            bind-Triple
              (modify-Triple {Q = HasOwner input.scope input.folder_id} _
                (λ s ((((h, e), a), o), g).
                  let (same, active) = active_only_lem found m a in
                  let new = with_role input.role input.now m in
                  guarded owners _ (is_active m.status) (is_owner m.role) (is_owner input.role)
                    (omega (
                      arith,
                      o,
                      owner_count-set_membership input.scope input.folder_id
                          input.target_principal_id m new s (sym e ∙ same),
                      ap (λ b. bit (b && is_owner input.role)) active,
                    ))
                    g (omega (arith, h, o))))
              (λ _. published_frame input.identity input.folder_id _ _ _ _ _ _ _)))))))

  revoke_membership_owner :
      (input : RevokeMembership)
      → KeepsOwner input.scope input.folder_id (revoke_membership env input)
  unfolding revoke_membership
  revoke_membership_owner input = bind-Triple (enter_frame input.identity input.folder_id) (λ _.
      bind-Triple (gets-Triple _) (λ found. bind-Triple (or_throw-Triple _ _ (λ s p _. p.0)) (λ m.
        bind-Triple (skip_require _ _ (λ s p. (p.0).0)) (λ _. bind-Triple (gets-Triple _) (λ owners.
          bind-Triple (require-Triple _ _ (λ s p. ((p.0).0).0)) (λ _.
            bind-Triple
              (modify-Triple {Q = HasOwner input.scope input.folder_id} _
                (λ s ((((h, e), a), o), g).
                  let (same, active) = active_only_lem found m a in
                  guarded owners _ (is_active m.status) (is_owner m.role) false
                    (omega (
                      arith,
                      o,
                      owner_count-set_membership input.scope input.folder_id
                          input.target_principal_id m (ended_membership input.now m) s
                          (sym e ∙ same),
                    ))
                    (sole (is_owner m.role) (owners == 1) g) (omega (arith, h, o))))
              (λ _. published_frame input.identity input.folder_id _ _ _ _ _ _ _)))))))
    where
      sole : (was one : Bool) → not (was && one) ≡ true → not (was && not false && one) ≡ true
      sole was one g = ground arith

  pub final :
      {A : Type 0} (scope : FolderScope) (folder_id : String) (m : FolderMethod A) (s : Core)
      → KeepsOwner scope folder_id m
      → HasOwner scope folder_id s
      → HasOwner scope folder_id (m s).1
  final scope folder_id m s t h = same_outcome (HasOwner scope folder_id) (m s).0 (m s).1 (t.at s h)

  -- A folder that has an active owner has one after `changeRole` on it, whether the call returns or
  -- throws.
  pub change_role-HasOwner :
      (input : ChangeRole) (s : Core)
      → HasOwner input.scope input.folder_id s
      → HasOwner input.scope input.folder_id (change_role env input s).1
  change_role-HasOwner input s = final input.scope input.folder_id _ s (change_role_owner input)

  -- A folder that has an active owner has one after `revokeMembership` on it, whether the call
  -- returns or throws.
  pub revoke_membership-HasOwner :
      (input : RevokeMembership) (s : Core)
      → HasOwner input.scope input.folder_id s
      → HasOwner input.scope input.folder_id (revoke_membership env input s).1
  revoke_membership-HasOwner input s =
      final input.scope input.folder_id _ s (revoke_membership_owner input)
