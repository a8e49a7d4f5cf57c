-- ===== src/SharedFolders/Cache/Reads.antt =====
-- `role` and `getFolder` of `InMemorySharedFolderCore`, which read and write the cached roles.
use perseverance.Prelude.{
  String, ◌≡◌, refl, sym, subst, true, Option, none, some, inl, inr, is_some, Bool-cases, ◌==◌,
}
use perseverance.Prelude.Map.{Map, get}
use perseverance.Prelude.Exec.{or_throw}
use perseverance.Prelude.Exec.Triple.{
  Outcome, Triple, bind-Triple, require-Triple, pure-Triple, strengthen-Triple, skip_require,
}
use perseverance.SharedFolders.Types.{
  FolderScope, FolderIdentity, FolderRole, Capability, SharedFolder, CachedRole, Core, Environment,
  folder_not_found,
}
use perseverance.SharedFolders.Keys.{folder_key, member_key}
use perseverance.SharedFolders.Store.{
  cached_role, folder_role, allowed, find_folder, role, get_folder,
}
use perseverance.SharedFolders.Cache.{
  IsCoherent, stored_role, folder_role-IsReading, Coherent_recache,
}

module _ (env : Environment) where
  abbrev pub IsStored : FolderScope → String → SharedFolder → Core → Type 0
  IsStored scope folder_id f s = get (folder_key env scope folder_id) s.folders ≡ some f

  -- The role of a caller in a folder, as the maps of folders and memberships give it.
  abbrev pub real_role : FolderIdentity → String → Core → Option FolderRole
  real_role identity folder_id s =
      stored_role (get (folder_key env identity.scope folder_id) s.folders)
        (get (member_key env identity.scope folder_id identity.principal_id) s.memberships)

  pub find_folder-Triple :
      {P : Core → Type 0} (scope : FolderScope) (folder_id : String)
      → Triple P (find_folder env scope folder_id) (λ f s. P s × IsStored scope folder_id f s) P
  unfolding find_folder or_throw
  find_folder-Triple {P} scope folder_id = record {
    at = λ s p. go s p (get (folder_key env scope folder_id) s.folders) refl;
  }
    where
      go :
          (s : Core)
          → P s
          → (o : Option SharedFolder) → get (folder_key env scope folder_id) s.folders ≡ o
          → Outcome
              (λ f s. P s × IsStored scope folder_id f s)
              P
              (or_throw o folder_not_found s).0
              (or_throw o folder_not_found s).1
      go s p none e = p
      go s p (some f) e = (p, e)

  abbrev pub IsFound : FolderScope → String → SharedFolder → Core → Type 0
  IsFound scope folder_id f s = IsCoherent env none s × IsStored scope folder_id f s

  -- `role` of a folder that is stored is the role that the membership gives.
  pub role-Triple :
      (identity : FolderIdentity) (folder_id : String) (f : SharedFolder)
      → Triple
          (IsFound identity.scope folder_id f)
          (role env identity folder_id)
          (λ r s. IsFound identity.scope folder_id f s × (r ≡ real_role identity folder_id s))
          (IsCoherent env none)
  unfolding role
  role-Triple identity folder_id f = record { at = outcome }
    where
      key : String
      key = member_key env identity.scope folder_id identity.principal_id

      folder : Core → Option SharedFolder
      folder s = get (folder_key env identity.scope folder_id) s.folders

      read : Core → Option FolderRole × Core
      read s = folder_role (folder s) key s

      Right : Core → Core → Type 0
      Right s t =
          IsFound identity.scope folder_id f t × ((read s).0 ≡ real_role identity folder_id t)

      outcome : (s : Core) → IsFound identity.scope folder_id f s → Right s (read s).1
      outcome s (c, o) =
          let (found, left) = folder_role-IsReading (folder s) key s c.exact in
          elim left [
            | inl e ↦ subst (Right s) (sym e) ((c, o), found)
            | inr (is, epoch, e) ↦ subst (Right s) (sym e) (
              (Coherent_recache env identity.scope folder_id identity.principal_id epoch s is c, o),
              found,
            )
          ]

  -- What a caller of `getFolder` has when it returns: the stored folder, and a stored membership
  -- whose role allows the capability.
  abbrev pub IsAllowed : FolderIdentity → String → Capability → SharedFolder → Core → Type 0
  IsAllowed identity folder_id capability f s =
      IsFound identity.scope folder_id f s
      × (allowed (real_role identity folder_id s) capability ≡ true)

  pub get_folder-Triple :
      (identity : FolderIdentity) (folder_id : String) (capability : Capability)
      → Triple
          (IsCoherent env none)
          (get_folder env identity folder_id capability)
          (IsAllowed identity folder_id capability)
          (IsCoherent env none)
  unfolding get_folder
  get_folder-Triple identity folder_id capability =
      bind-Triple (find_folder-Triple identity.scope folder_id) (λ f.
        bind-Triple (role-Triple identity folder_id f) (λ r.
          bind-Triple (require-Triple _ _ (λ s p. (p.0).0)) (λ _.
            pure-Triple f (λ s ((p, e), a). (p, subst (λ x. allowed x capability ≡ true) e a)))))

  -- Reading a role changes nothing but the cached roles.
  abbrev pub IgnoresCache : (Core → Type 0) → Type 0
  IgnoresCache F =
      (s : Core) (cache : Map CachedRole) → F s → F (record s { authorization_cache = cache })

  cached_role_frame :
      (F : Core → Type 0)
      → IgnoresCache F
      → (f : SharedFolder) (key : String) (o : Option CachedRole) (s : Core) → F s
      → F (cached_role f key o s).1
  cached_role_frame F keep f key none s p = keep s _ p
  cached_role_frame F keep f key (some c) s p = elim (Bool-cases (c.epoch == f.cache_epoch)) [
    | inl b ↦ rw b p
    | inr b ↦ rw b (keep s _ p)
  ]

  folder_role_frame :
      (F : Core → Type 0)
      → IgnoresCache F
      → (o : Option SharedFolder) (key : String) (s : Core) → F s
      → F (folder_role o key s).1
  folder_role_frame F keep none key s p = p
  folder_role_frame F keep (some f) key s p = elim (Bool-cases (is_some f.archived_at)) [
    | inl b ↦ rw b p
    | inr b ↦ rw b (cached_role_frame F keep f key (get key s.authorization_cache) s p)
  ]

  pub get_folder_frame :
      {F : Core → Type 0}
      → IgnoresCache F
      → (identity : FolderIdentity) (folder_id : String) (capability : Capability)
      → Triple F (get_folder env identity folder_id capability) (λ _. F) F
  unfolding get_folder role
  get_folder_frame {F} keep identity folder_id capability =
      bind-Triple (strengthen-Triple (λ _ _ p. p.0) (find_folder-Triple identity.scope folder_id))
        (λ f.
          bind-Triple {Q = λ _. F} (record { at = λ s p. folder_role_frame F keep _ _ s p })
            (λ r. bind-Triple (skip_require _ _ (λ s p. p)) (λ _. pure-Triple f (λ s p. p))))
