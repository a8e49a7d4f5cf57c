-- ===== src/SharedFolders/Cache/Move.antt =====
-- `moveResource`, which bumps two folders, for the cached roles.
use perseverance.Prelude.{ℕ, String, ◌≡◌, true, Option, none, is_some}
use perseverance.Prelude.Text.{truthy}
use perseverance.Prelude.Map.{get}
use perseverance.Prelude.Exec.{pure, ◌>>◌}
use perseverance.Prelude.Exec.Triple.{
  Triple, bind-Triple, modify-Triple, pure-Triple, weaken-Triple, strengthen-Triple, cases-Triple,
  both-Triple, relax-Triple, skip_gets, skip_require, skip_or_throw,
}
use perseverance.SharedFolders.Types.{
  FolderScope, AccessReason, mutate, resource_moved, Core, Environment,
}
use perseverance.SharedFolders.Keys.{folder_key}
use perseverance.SharedFolders.Store.{get_folder, bump}
use perseverance.SharedFolders.Resources.{MoveResource, source_text, move_resource}
use perseverance.SharedFolders.Cache.{IsCoherent}
use perseverance.SharedFolders.Cache.Reads.{find_folder-Triple, get_folder_frame}
use perseverance.SharedFolders.Cache.Writes.{
  IsCurrent, KeepsCoherent, Coherent-IsStale, is_some-set, bump-Triple, append_audit-Triple,
  get_folder-IsCurrent,
}

module _ (env : Environment) where
  abbrev HasFolder : FolderScope → String → Core → Type 0
  HasFolder scope folder_id s = is_some (get (folder_key env scope folder_id) s.folders) ≡ true

  -- A bump removes no folder.
  bump_frame :
      (scope other : FolderScope) (folder_id id : String) (reason : AccessReason)
      (affected : Option String) (now : ℕ)
      → Triple
          (HasFolder other id)
          (bump env scope folder_id reason affected now)
          (λ _. HasFolder other id)
          (HasFolder other id)
  unfolding bump
  bump_frame scope other folder_id id reason affected now =
      bind-Triple (strengthen-Triple (λ _ _ p. p.0) (find_folder-Triple env scope folder_id)) (λ f.
        bind-Triple
          (modify-Triple {Q = HasFolder other id} _ (λ s p. is_some-set _ _ _ s.folders p))
          (λ _. pure-Triple _ (λ s p. p)))

  module _ (input : MoveResource) where
    abbrev from : String
    from = source_text input.source_folder_id

    -- The folder of the target is stored, and that of the source if there is one.
    abbrev Both : Core → Type 0
    Both s =
        IsCurrent env input.scope input.target_folder_id s
        × (truthy input.source_folder_id ≡ true → HasFolder input.scope from s)

    enter_source :
        truthy input.source_folder_id ≡ true
        → Triple
            (IsCurrent env input.scope input.target_folder_id)
            (get_folder env input.identity from mutate >> pure tt)
            (λ _. Both)
            (IsCoherent env none)
    enter_source t =
        bind-Triple
          (relax-Triple (λ s p. p.0)
            (both-Triple (get_folder-IsCurrent env input.identity from mutate)
              (get_folder_frame env (λ s cache p. p) input.identity from mutate)))
          (λ _. pure-Triple tt (λ s ((c, o), o'). ((c, o'), λ _. o)))

    bump_source :
        truthy input.source_folder_id ≡ true
        → Triple Both
            (bump env input.scope from resource_moved none input.now >> pure tt)
            (λ _. IsCurrent env input.scope input.target_folder_id)
            (IsCoherent env none)
    bump_source t =
        bind-Triple
          (relax-Triple (λ s p. p.0)
            (weaken-Triple (λ s ((c, o), h). (Coherent-IsStale env input.scope from s (c, h t), o))
              (both-Triple
                (bump-Triple env input.scope from resource_moved none input.now
                  (IsCoherent env none))
                (bump_frame input.scope input.scope from input.target_folder_id resource_moved none
                  input.now))))
          (λ _. pure-Triple tt (λ s p. p))

    pub move_resource-Triple : KeepsCoherent env (move_resource env input)
    unfolding move_resource
    move_resource-Triple =
        bind-Triple (get_folder-IsCurrent env input.identity input.target_folder_id mutate) (λ _.
          bind-Triple (skip_gets _) (λ _. bind-Triple (skip_or_throw _ _ (λ s p. p.0)) (λ _.
            bind-Triple (skip_require _ _ (λ s p. p.0)) (λ _.
              bind-Triple (cases-Triple _ enter_source (λ f. pure-Triple tt (λ s p. (p, λ t. cc))))
                (λ _. bind-Triple (modify-Triple {Q = Both} _ (λ s p. p)) (λ _.
                  bind-Triple (cases-Triple _ bump_source (λ _. pure-Triple tt (λ s p. p.0))) (λ _.
                    bind-Triple
                      (weaken-Triple
                        (λ s p. Coherent-IsStale env input.scope input.target_folder_id s p)
                        (bump-Triple env input.scope input.target_folder_id _ _ _ _))
                      (λ folder.
                        bind-Triple (append_audit-Triple env input.identity folder _ _ _ _ _)
                          (λ _. pure-Triple _ (λ s c. c))))))))))
