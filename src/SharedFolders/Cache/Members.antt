-- ===== src/SharedFolders/Cache/Members.antt =====
-- The methods on memberships, for the cached roles.
use perseverance.Prelude.{◌≡◌, refl, true, Option, none, some, is_some, arith}
use perseverance.Prelude.Map.{get}
use perseverance.Prelude.Exec.{modify}
use perseverance.Prelude.Exec.Triple.{
  Triple, bind-Triple, or_throw-Triple, gets-Triple, modify-Triple, pure-Triple, strengthen-Triple,
  if-Triple, skip_gets, skip_require, skip_or_throw,
}
use perseverance.SharedFolders.Types.{
  Capability, manage, SharedFolder, FolderMembership, Core, Environment, FolderError,
}
use perseverance.SharedFolders.Keys.{member_key}
use perseverance.SharedFolders.Store.{get_folder, set_membership, allowed}
use perseverance.SharedFolders.Members.{
  ChangeRole, RevokeMembership, TransferOwnership, change_role, revoke_membership, step_down,
  transfer_ownership,
}
use perseverance.SharedFolders.Cache.{IsCoherent, stored_role}
use perseverance.SharedFolders.Cache.Reads.{get_folder-Triple}
use perseverance.SharedFolders.Cache.Writes.{
  IsStale, IsCurrent, KeepsCoherent, Coherent_write, Coherent-IsStale, bump-Triple, is_some-set,
  IsStored-is_some, append_audit-Triple, get_folder-IsCurrent, write_membership-Triple,
}

module _ (env : Environment) where
  pub change_role-Triple : (input : ChangeRole) → KeepsCoherent env (change_role env input)
  unfolding change_role
  change_role-Triple input =
      bind-Triple (get_folder-IsCurrent env input.identity input.folder_id manage) (λ _.
        bind-Triple (skip_gets _) (λ _. bind-Triple (skip_or_throw _ _ (λ s p. p.0)) (λ _.
          bind-Triple (skip_require _ _ (λ s p. p.0)) (λ _. bind-Triple (skip_gets _) (λ _.
            bind-Triple (skip_require _ _ (λ s p. p.0))
              (λ _. write_membership-Triple env input.identity input.folder_id _ _ _ _ _ _ _ _))))))

  pub revoke_membership-Triple :
      (input : RevokeMembership) → KeepsCoherent env (revoke_membership env input)
  unfolding revoke_membership
  revoke_membership-Triple input =
      bind-Triple (get_folder-IsCurrent env input.identity input.folder_id manage) (λ _.
        bind-Triple (skip_gets _) (λ _. bind-Triple (skip_or_throw _ _ (λ s p. p.0)) (λ _.
          bind-Triple (skip_require _ _ (λ s p. p.0)) (λ _. bind-Triple (skip_gets _) (λ _.
            bind-Triple (skip_require _ _ (λ s p. p.0))
              (λ _. write_membership-Triple env input.identity input.folder_id _ _ _ _ _ _ _ _))))))

  -- The caller of `transferOwnership` is a member.
  abbrev IsMember : TransferOwnership → Core → Type 0
  IsMember input s =
      is_some (get (member_key env input.scope input.folder_id input.principal_id) s.memberships)
      ≡ true

  allowed_is_member :
      (o : Option SharedFolder) (m : Option FolderMembership) (capability : Capability)
      → allowed (stored_role o m) capability ≡ true
      → is_some m ≡ true
  allowed_is_member none m capability h = cc
  allowed_is_member (some f) (some m) capability h = refl
  allowed_is_member (some f) none capability h = ground arith

  step_down-Triple :
      (input : TransferOwnership) (R : Core → Type 0)
      → Triple
          (λ s. IsStale env input.scope input.folder_id s × IsMember input s)
          (step_down env input)
          (λ _. IsStale env input.scope input.folder_id)
          R
  unfolding step_down
  step_down-Triple input R = bind-Triple (gets-Triple _) (λ found.
      bind-Triple (or_throw-Triple _ _ (λ s ((p, m), e) n. cc)) (λ actor.
        modify-Triple _ (λ s (((p, _), _), _).
          Coherent_write env input.scope input.folder_id input.principal_id _ s p)))

  pub transfer_ownership-Triple :
      (input : TransferOwnership) → KeepsCoherent env (transfer_ownership env input)
  unfolding transfer_ownership
  transfer_ownership-Triple input = bind-Triple get_member (λ _.
      bind-Triple (skip_require _ _ (λ s p. (p.0).0)) (λ _. bind-Triple (skip_gets _) (λ _.
        bind-Triple (skip_or_throw _ _ (λ s p. (p.0).0)) (λ target.
          bind-Triple (write_target _) (λ _.
            bind-Triple
              (if-Triple _ (step_down-Triple input (IsCoherent env none))
                (pure-Triple tt (λ s p. p.0)))
              (λ _. bind-Triple (bump-Triple env input.scope input.folder_id _ _ _ _) (λ changed.
                bind-Triple (append_audit-Triple env input.identity changed _ _ _ _ _) (λ _.
                  bind-Triple (skip_gets _)
                    (λ _. bind-Triple (skip_gets _) (λ _. pure-Triple _ (λ s c. c)))))))))))
    where
      get_member :
          Triple
            (IsCoherent env none)
            (get_folder env input.identity input.folder_id manage)
            (λ _ s. IsCurrent env input.scope input.folder_id s × IsMember input s)
            (IsCoherent env none)
      get_member =
          strengthen-Triple
            (λ f s ((c, e), a). (
              (c, IsStored-is_some env input.scope input.folder_id f s e),
              allowed_is_member _ _ manage a,
            ))
            (get_folder-Triple env input.identity input.folder_id manage)

      write_target :
          (m : FolderMembership)
          → Triple {E = FolderError}
              (λ s. IsCurrent env input.scope input.folder_id s × IsMember input s)
              (modify (
                set_membership
                  (member_key env input.scope input.folder_id input.target_principal_id)
                  m))
              (λ _ s. IsStale env input.scope input.folder_id s × IsMember input s)
              (IsCoherent env none)
      write_target m = modify-Triple _ (λ s (p, i). (
        Coherent_write env input.scope input.folder_id input.target_principal_id m s
            (Coherent-IsStale env input.scope input.folder_id s p),
        is_some-set _ _ m s.memberships i,
      ))
