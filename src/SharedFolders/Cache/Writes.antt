-- ===== src/SharedFolders/Cache/Writes.antt =====
-- The private methods of `InMemorySharedFolderCore` that write: a membership is written and then
-- `#bump` drops the roles that this has made stale.
use text.Mathlib.Text.{starts_with}
use text.Mathlib.TextPositions.{starts_with-append}
use perseverance.Prelude.{
  ℕ, String, ◌≡◌, refl, subst, true, false, Option, none, some, [], ◌∷◌, inl, inr, arith, eq_iff,
  is_some,
}
use perseverance.Prelude.Map.{Map, get, set, get-set, get-set_cases}
use perseverance.Prelude.Exec.{pure, or_throw, modify, ◌>>=◌, ◌>>◌}
use perseverance.Prelude.Exec.Triple.{
  Outcome, Triple, bind-Triple, modify-Triple, pure-Triple, strengthen-Triple,
}
use perseverance.SharedFolders.Types.{
  FolderScope, FolderIdentity, AuditAction, AccessReason, AuditOutcome, success, Capability,
  SharedFolder, FolderMembership, CachedRole, Core, Environment, folder_not_found, FolderMethod,
}
use perseverance.SharedFolders.Keys.{folder_key, member_prefix, member_key}
use perseverance.SharedFolders.Store.{
  set_membership, bumped, purge_cache, AuditDetails, find_folder, get_folder, bump, append_audit,
}
use perseverance.SharedFolders.Cache.{IsCoherent, Coherent-draw}
use perseverance.SharedFolders.Cache.Reads.{IsStored, get_folder-Triple}

pub is_some-set :
    {V : Type 0} (k j : String) (v : V) (m : Map V)
    → is_some (get j m) ≡ true
    → is_some (get j (set k v m)) ≡ true
is_some-set k j v m h = ground (arith, get-set k j v m)

get-purge_cache :
    (prefix k : String) (c : CachedRole) (m : Map CachedRole)
    → get k (purge_cache prefix m) ≡ some c
    → (starts_with k prefix ≡ false) × (get k m ≡ some c)
unfolding get
get-purge_cache prefix k c [] e = cc
get-purge_cache prefix k c ((j, v) ∷ m) e = ground (arith, eq_iff j k, get-purge_cache prefix k c m)

module _ (env : Environment) where
  -- The roles of a folder may be stale.
  abbrev pub IsStale : FolderScope → String → Core → Type 0
  IsStale scope folder_id s =
      IsCoherent env (some (member_prefix env scope folder_id)) s
      × (is_some (get (folder_key env scope folder_id) s.folders) ≡ true)

  -- The roles are right, and the folder is stored.
  abbrev pub IsCurrent : FolderScope → String → Core → Type 0
  IsCurrent scope folder_id s =
      IsCoherent env none s × (is_some (get (folder_key env scope folder_id) s.folders) ≡ true)

  abbrev pub KeepsCoherent : {A : Type 0} → FolderMethod A → Type 0
  KeepsCoherent m = Triple (IsCoherent env none) m (λ _. IsCoherent env none) (IsCoherent env none)

  pub Coherent_write :
      (scope : FolderScope) (folder_id principal_id : String) (m : FolderMembership) (s : Core)
      → IsStale scope folder_id s
      → IsStale scope folder_id (set_membership (member_key env scope folder_id principal_id) m s)
  unfolding member_key
  Coherent_write scope folder_id principal_id m s (c, o) = (
    record {
      drawn = c.drawn;
      entries = c.entries;
      exact = λ k x t e.
          let same : get k (set (member_key env scope folder_id principal_id) m s.memberships)
              ≡ get k s.memberships =
            ground (
              arith,
              get-set (member_key env scope folder_id principal_id) k m s.memberships,
              eq_iff (member_key env scope folder_id principal_id) k,
              starts_with-append (member_prefix env scope folder_id) principal_id,
            ) in
          rw same (c.exact k x t e);
      invited = c.invited;
    },
    o,
  )

  pub IsStored-is_some :
      (scope : FolderScope) (folder_id : String) (f : SharedFolder) (s : Core)
      → IsStored env scope folder_id f s
      → is_some (get (folder_key env scope folder_id) s.folders) ≡ true
  IsStored-is_some scope folder_id f s e = rw e refl

  pub Coherent-IsStale :
      (scope : FolderScope) (folder_id : String) (s : Core)
      → IsCurrent scope folder_id s
      → IsStale scope folder_id s
  Coherent-IsStale scope folder_id s (c, o) = (
    record {
      drawn = c.drawn;
      entries = c.entries;
      exact = λ k x t e. c.exact k x refl e;
      invited = c.invited;
    },
    o,
  )

  find_folder-IsStale :
      (scope : FolderScope) (folder_id : String) (R : Core → Type 0)
      → Triple
          (IsStale scope folder_id)
          (find_folder env scope folder_id)
          (λ f s. IsStale scope folder_id s × IsStored env scope folder_id f s)
          R
  unfolding find_folder or_throw
  find_folder-IsStale scope folder_id R = record {
    at = λ s p. go s p (get (folder_key env scope folder_id) s.folders) refl;
  }
    where
      go :
          (s : Core)
          → IsStale scope folder_id s
          → (o : Option SharedFolder) → get (folder_key env scope folder_id) s.folders ≡ o
          → Outcome
              (λ f s. IsStale scope folder_id s × IsStored env scope folder_id f s)
              R
              (or_throw o folder_not_found s).0
              (or_throw o folder_not_found s).1
      go s (c, o) none e = cc
      go s p (some f) e = (p, e)

  pub bump-Triple :
      (scope : FolderScope) (folder_id : String) (reason : AccessReason) (affected : Option String)
      (now : ℕ) (R : Core → Type 0)
      → Triple
          (IsStale scope folder_id)
          (bump env scope folder_id reason affected now)
          (λ _. IsCoherent env none)
          R
  unfolding bump
  bump-Triple scope folder_id reason affected now R =
      bind-Triple (find_folder-IsStale scope folder_id R) (λ f.
        bind-Triple
          (modify-Triple _ (λ s ((c, o), e). record {
            drawn = λ k g h.
                elim (get-set_cases (folder_key env scope folder_id) k (bumped f now) g s.folders
                  h) [
                    | inl (i, _) ↦ c.drawn k f (subst (λ j. get j s.folders ≡ some f) i e)
                    | inr (_, h') ↦ c.drawn k g h'
                  ];
            entries = λ k x h.
                c.entries k x
                  (get-purge_cache (member_prefix env scope folder_id) k x s.authorization_cache
                    h).1;
            exact = λ k x _ h.
                let (t, h') =
                  get-purge_cache (member_prefix env scope folder_id) k x s.authorization_cache h in
                c.exact k x t h';
            invited = λ id i h. is_some-set _ _ _ s.folders (c.invited id i h);
          }))
          (λ _. pure-Triple _ (λ s c. c)))

  pub append_audit-Triple :
      (identity : FolderIdentity) (folder : SharedFolder) (action : AuditAction)
      (outcome : AuditOutcome) (reason_code : String) (details : AuditDetails) (R : Core → Type 0)
      → Triple
          (IsCoherent env none)
          (append_audit env identity folder action outcome reason_code details)
          (λ _. IsCoherent env none)
          R
  unfolding append_audit
  append_audit-Triple identity folder action outcome reason_code details R = record {
    at = λ s c. Coherent-draw env c;
  }

  pub get_folder-IsCurrent :
      (identity : FolderIdentity) (folder_id : String) (capability : Capability)
      → Triple
          (IsCoherent env none)
          (get_folder env identity folder_id capability)
          (λ _. IsCurrent identity.scope folder_id)
          (IsCoherent env none)
  get_folder-IsCurrent identity folder_id capability =
      strengthen-Triple (λ f s ((c, e), _). (c, IsStored-is_some identity.scope folder_id f s e))
        (get_folder-Triple env identity folder_id capability)

  pub get_folder-IsCoherent :
      (identity : FolderIdentity) (folder_id : String) (capability : Capability)
      → Triple
          (IsCoherent env none)
          (get_folder env identity folder_id capability)
          (λ _. IsCoherent env none)
          (IsCoherent env none)
  get_folder-IsCoherent identity folder_id capability =
      strengthen-Triple (λ f s p. (p.0).0) (get_folder-Triple env identity folder_id capability)

  -- A method that changes one membership, bumps the folder and logs it.
  pub write_membership-Triple :
      {A : Type 0} (identity : FolderIdentity) (folder_id principal_id : String)
      (m : FolderMembership) (reason : AccessReason) (now : ℕ) (action : AuditAction)
      (code : String) (details : AuditDetails) (a : A)
      → Triple
          (IsCurrent identity.scope folder_id)
          (do
            modify (set_membership (member_key env identity.scope folder_id principal_id) m)
            folder ← bump env identity.scope folder_id reason (some principal_id) now
            append_audit env identity folder action success code details
            pure a)
          (λ _. IsCoherent env none)
          (IsCoherent env none)
  write_membership-Triple identity folder_id principal_id m reason now action code details a =
      bind-Triple
        (modify-Triple _ (λ s p.
          Coherent_write identity.scope folder_id principal_id m s
            (Coherent-IsStale identity.scope folder_id s p)))
        (λ _.
          bind-Triple (bump-Triple identity.scope folder_id reason (some principal_id) now _)
            (λ folder.
              bind-Triple (append_audit-Triple identity folder action success code details _)
                (λ _. pure-Triple a (λ s c. c))))
