-- ===== src/SharedFolders/Owners/Transfer.antt =====
-- The owners of a folder under `transferOwnership`.
use text.Mathlib.TextPositions.{starts_with-append}
use text.Mathlib.TextLemmas.{append_cancel_left}
use perseverance.Prelude.{
  String, ◌≡◌, refl, sym, ◌∙◌, Bool, true, false, not, ◌&&◌, Option, some, inl, inr, arith, eq_iff,
  str_eq, Bool-cases,
}
use perseverance.Prelude.Map.{get, get-set_other, get-set_self}
use perseverance.Prelude.Exec.Triple.{
  Triple, bind-Triple, or_throw-Triple, modify-Triple, pure-Triple, weaken-Triple, cases-Triple,
  skip_gets, skip_require, skip_or_throw,
}
use perseverance.SharedFolders.Types.{
  FolderScope, FolderMembership, Core, Environment, is_owner, is_active, owner,
}
use perseverance.SharedFolders.Keys.{member_prefix, member_key}
use perseverance.SharedFolders.Store.{is_owner_entry, set_membership, owner_count}
use perseverance.SharedFolders.Members.{
  TransferOwnership, active_only, with_role, step_down, transfer_ownership,
}
use perseverance.SharedFolders.Owners.Count.{count_of_get, active_only_lem}
use perseverance.SharedFolders.Owners.{
  HasOwner, KeepsOwner, bump_frame, append_audit_frame, enter_frame, final,
}

module _ (env : Environment) where
  -- The target of the transfer is an owner.
  abbrev TargetOwns : TransferOwnership → Core → Type 0
  TargetOwns input s =
      (m : FolderMembership) × (get
          (member_key env input.scope input.folder_id input.target_principal_id) s.memberships
        ≡ some m)
      × ((is_active m.status && is_owner m.role) ≡ true)

  TargetOwns-HasOwner :
      (input : TransferOwnership) (s : Core)
      → TargetOwns input s
      → HasOwner env input.scope input.folder_id s
  unfolding owner_count member_key
  TargetOwns-HasOwner input s (m, e, h) =
      let prefix = member_prefix env input.scope input.folder_id in
      count_of_get (is_owner_entry prefix)
        (member_key env input.scope input.folder_id input.target_principal_id) m s.memberships e
        (rw (starts_with-append prefix input.target_principal_id) h)

  -- The keys of two members are different.
  member_key_apart :
      (scope : FolderScope) (folder_id a b : String)
      → str_eq a b ≡ false
      → str_eq (member_key env scope folder_id b) (member_key env scope folder_id a) ≡ false
  unfolding member_key
  member_key_apart scope folder_id a b h =
      let ka = member_key env scope folder_id a in
      let kb = member_key env scope folder_id b in
      elim (Bool-cases (str_eq kb ka)) [
        | inl t ↦
            let same : b ≡ a =
              append_cancel_left (member_prefix env scope folder_id) b a ((eq_iff kb ka).0 t) in
            cc ((eq_iff a b).1 (sym same), h)
        | inr f ↦ f
      ]

  step_down_owner :
      (input : TransferOwnership)
      → str_eq input.target_principal_id input.principal_id ≡ false
      → Triple
          (TargetOwns input)
          (step_down env input)
          (λ _. TargetOwns input)
          (HasOwner env input.scope input.folder_id)
  unfolding step_down
  step_down_owner input apart = bind-Triple (skip_gets _) (λ found.
      bind-Triple (skip_or_throw _ _ (λ s p. TargetOwns-HasOwner input s p)) (λ actor.
        modify-Triple _ (λ s (m, e, h). (
          m,
          get-set_other _ _ _ s.memberships (member_key_apart input.scope input.folder_id _ _ apart)
              ∙ e,
          h,
        ))))

  apart_of : (same steps : Bool) → (not same && steps) ≡ true → same ≡ false
  apart_of same steps h = ground arith

  transfer_ownership_owner :
      (input : TransferOwnership)
      → KeepsOwner env input.scope input.folder_id (transfer_ownership env input)
  unfolding transfer_ownership
  transfer_ownership_owner input =
      bind-Triple (enter_frame env input.identity input.folder_id) (λ _.
        bind-Triple (skip_require _ _ (λ s p. p)) (λ _. bind-Triple (skip_gets _) (λ found.
          bind-Triple (or_throw-Triple _ _ (λ s p _. p)) (λ target.
            bind-Triple (modify-Triple {Q = TargetOwns input} _ (owns found target)) (λ _.
              bind-Triple
                (cases-Triple _
                  (λ c. step_down_owner input (
                    apart_of (str_eq input.target_principal_id input.principal_id) input.steps_down
                      c))
                  (λ _. pure-Triple tt (λ s p. p)))
                (λ _.
                  bind-Triple
                    (weaken-Triple (TargetOwns-HasOwner input)
                      (bump_frame env input.scope input.folder_id _ _ _))
                    (λ changed.
                      bind-Triple
                        (append_audit_frame env input.scope input.folder_id input.identity changed _
                          _ _ _)
                        (λ _.
                          bind-Triple (skip_gets _)
                            (λ _. bind-Triple (skip_gets _) (λ _. pure-Triple _ (λ s p. p)))))))))))
    where
      owns :
          (found : Option FolderMembership) (target : FolderMembership) (s : Core)
          → HasOwner env input.scope input.folder_id s × (active_only found ≡ some target)
          → TargetOwns input (
              set_membership
                (member_key env input.scope input.folder_id input.target_principal_id)
                (with_role owner input.now target)
                s)
      owns found target s (_, a) = (
        with_role owner input.now target,
        get-set_self _ _ s.memberships,
        rw (active_only_lem found target a).1 refl,
      )

  -- A folder that has an active owner has one after `transferOwnership` on it, whether the call
  -- returns or throws, and whether the previous owner steps down or stays.
  pub transfer_ownership-HasOwner :
      (input : TransferOwnership) (s : Core)
      → HasOwner env input.scope input.folder_id s
      → HasOwner env input.scope input.folder_id (transfer_ownership env input s).1
  transfer_ownership-HasOwner input s =
      final env input.scope input.folder_id _ s (transfer_ownership_owner input)
