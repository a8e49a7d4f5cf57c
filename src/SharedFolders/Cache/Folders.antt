-- ===== src/SharedFolders/Cache/Folders.antt =====
-- The methods on folders, for the cached roles.
use Prim.Native.String.{◌++◌ as str_append}
use text.Mathlib.TextLemmas.{append_assoc, append_cancel_left}
use perseverance.Prelude.{
  ℕ, ◌<◌, String, ◌≡◌, refl, sym, ap, ◌∙◌, subst, Option, none, some, inl, inr, str_eq,
  if◌then◌else◌, Bool-cases, ◌≢◌, arith, eq_iff,
}
use perseverance.Prelude.Map.{Map, get, get-set, get-set_cases}
use perseverance.Prelude.Exec.Triple.{
  Triple, bind-Triple, modify-Triple, pure-Triple, weaken-Triple, gets-Triple, or_throw-Triple,
  skip_gets, skip_require,
}
use perseverance.SharedFolders.Types.{
  FolderScope, FolderIdentity, manage, export, SharedFolder, FolderMembership, CachedRole, Core,
  Environment,
}
use perseverance.SharedFolders.Keys.{folder_key, member_key}
use perseverance.SharedFolders.Store.{member_role, set_membership, set_folder, random_uuid}
use perseverance.SharedFolders.Folders.{
  CreateFolder, DeleteFolder, create_folder, delete_folder, list_folders, list_members,
  has_shared_folders, record_export, list_folder_audit,
}
use perseverance.SharedFolders.Cache.{
  SelfDelimiting, FreshIds, HaveFolder, IsCoherent, Coherent-draw, IsDrawn,
}
use perseverance.SharedFolders.Cache.Writes.{
  KeepsCoherent, Coherent-IsStale, bump-Triple, is_some-set, append_audit-Triple,
  get_folder-IsCurrent, get_folder-IsCoherent,
}

-- A stored folder is changed, or a new one with a drawn identifier is stored.
pub Coherent_store :
    (env : Environment) (k : String) (f : SharedFolder) (s : Core)
    → IsDrawn env s.uuids k
    → IsCoherent env none s
    → IsCoherent env none (set_folder k f s)
Coherent_store env k f s d c = record {
  drawn = λ j g h. elim (get-set_cases k j f g s.folders h) [
    | inl (i, _) ↦ subst (IsDrawn env s.uuids) i d
    | inr (_, h') ↦ c.drawn j g h'
  ];
  entries = c.entries;
  exact = c.exact;
  invited = λ id i h. is_some-set _ _ f s.folders (c.invited id i h);
}

module _ (env : Environment) (json : SelfDelimiting env) (fresh : FreshIds env) where
  -- Two folder keys with drawn identifiers that begin one text have one identifier.
  drawn_apart :
      (m n : ℕ) (a b : FolderScope) (s t : String)
      → str_append (folder_key env a (str_append "fld_" (env.uuid m))) s
        ≡ str_append (folder_key env b (str_append "fld_" (env.uuid n))) t
      → m ≡ n
  unfolding folder_key
  drawn_apart m n a b s t e = fresh m n s t (
      append_cancel_left "fld_" _ _
        (append_cancel_left ":" _ _ (json a b _ _ (sym (split a m s) ∙ e ∙ split b n t))))
    where
      split :
          (c : FolderScope) (i : ℕ) (u : String)
          → str_append
              (str_append (env.scope_json c) (str_append ":" (str_append "fld_" (env.uuid i))))
              u
            ≡ str_append
                (env.scope_json c)
                (str_append ":" (str_append "fld_" (str_append (env.uuid i) u)))
      split c i u =
          append_assoc (env.scope_json c) _ u
          ∙ ap (str_append (env.scope_json c)) (
              append_assoc ":" (str_append "fld_" (env.uuid i)) u
              ∙ ap (str_append ":") (append_assoc "fld_" (env.uuid i) u))

  -- The identifier is drawn, and no role in a folder with it is cached.
  abbrev IsNew : String → Core → Type 0
  IsNew uuid s =
      (n : ℕ) × (n < s.uuids)
      × (uuid ≡ env.uuid n)
      × ((k : String) (c : CachedRole)
          → get k s.authorization_cache ≡ some c
          → (scope : FolderScope) (p : String)
          → k ≢ member_key env scope (str_append "fld_" uuid) p)

  fresh_entry :
      (uuids : ℕ) (cache : Map CachedRole) (k : String) (c : CachedRole)
      → HaveFolder env uuids cache
      → get k cache ≡ some c
      → (scope : FolderScope) (p : String)
      → k ≢ member_key env scope (str_append "fld_" (env.uuid uuids)) p
  unfolding member_key
  fresh_entry uuids cache k c h e scope p q =
      let (j, p', (m, scope', l, r), t) = h k c e in
      let same : m ≡ uuids =
        drawn_apart m uuids scope' scope (str_append ":" p') (str_append ":" p) (
          sym (append_assoc _ ":" p')
          ∙ ap (λ x. str_append (str_append x ":") p') (sym r)
          ∙ sym t
          ∙ q
          ∙ append_assoc _ ":" p) in
      omega (arith, same, l)

  random_uuid-Triple :
      (R : Core → Type 0)
      → Triple
          (IsCoherent env none)
          (random_uuid env)
          (λ uuid s. IsCoherent env none s × IsNew uuid s)
          R
  unfolding random_uuid
  random_uuid-Triple R = record {
    at = λ s c. (
      Coherent-draw env c,
      (
        s.uuids,
        omega arith,
        refl,
        λ k x e. fresh_entry s.uuids s.authorization_cache k x c.entries e,
      ),
    );
  }

  Coherent_first_member :
      (scope : FolderScope) (uuid principal_id : String) (m : FolderMembership) (s : Core)
      → IsCoherent env none s
      → IsNew uuid s
      → IsCoherent env none
          (set_membership (member_key env scope (str_append "fld_" uuid) principal_id) m s)
  Coherent_first_member scope uuid principal_id m s c (_, _, _, new) = record {
    drawn = c.drawn;
    entries = c.entries;
    exact = λ k x t e.
        let key = member_key env scope (str_append "fld_" uuid) principal_id in
        elim (Bool-cases (str_eq key k)) [
          | inl b ↦ absurd (new k x e scope principal_id (sym ((eq_iff key k).0 b)))
          | inr b ↦
              subst (λ o. x.role ≡ member_role o)
                (sym (
                  get-set key k m s.memberships
                  ∙ ap (λ i. if i then some m else get k s.memberships) b))
                (c.exact k x t e)
        ];
    invited = c.invited;
  }

  pub create_folder-Triple : (input : CreateFolder) → KeepsCoherent env (create_folder env input)
  unfolding create_folder
  create_folder-Triple input = bind-Triple (random_uuid-Triple _) (λ uuid.
      bind-Triple (skip_require _ _ (λ s p. p.0)) (λ _.
        bind-Triple
          (modify-Triple {Q = λ s. IsCoherent env none s × IsNew uuid s} _ (λ s (c, (n, l, e, new)).
            let key = λ (u : String). folder_key env input.scope (str_append "fld_" u) in
            (Coherent_store env _ _ s (n, input.scope, l, ap key e) c, (n, l, e, new))))
          (λ _.
            bind-Triple
              (modify-Triple _
                (λ s (c, new). Coherent_first_member input.scope uuid input.principal_id _ s c new))
              (λ _.
                bind-Triple (append_audit-Triple env input.identity _ _ _ _ _ _)
                  (λ _. pure-Triple _ (λ s c. c))))))

module _ (env : Environment) where
  pub delete_folder-Triple : (input : DeleteFolder) → KeepsCoherent env (delete_folder env input)
  unfolding delete_folder
  delete_folder-Triple input =
      bind-Triple (get_folder-IsCurrent env input.identity input.folder_id manage) (λ _.
        bind-Triple
          (weaken-Triple (λ s p. Coherent-IsStale env input.scope input.folder_id s p)
            (bump-Triple env input.scope input.folder_id _ _ _ _))
          (λ changed. bind-Triple (append_audit-Triple env input.identity changed _ _ _ _ _) (λ _.
            bind-Triple (gets-Triple _) (λ found.
              bind-Triple (or_throw-Triple _ _ (λ s p _. p.0)) (λ stored.
                bind-Triple (modify-Triple _ (archive found stored))
                  (λ _. pure-Triple _ (λ s c. c)))))))
    where
      key : String
      key = folder_key env input.scope input.folder_id

      archive :
          (found : Option SharedFolder) (stored : SharedFolder) (s : Core)
          → (IsCoherent env none s × (found ≡ get key s.folders)) × (found ≡ some stored)
          → IsCoherent env none (set_folder key (record stored { archived_at = some input.now }) s)
      archive found stored s ((c, e), o) =
          Coherent_store env key _ s (c.drawn key stored (sym e ∙ o)) c

  pub list_folders-Triple :
      (identity : FolderIdentity) → KeepsCoherent env (list_folders env identity)
  unfolding list_folders
  list_folders-Triple identity = skip_gets _

  pub list_members-Triple :
      (identity : FolderIdentity) (folder_id : String)
      → KeepsCoherent env (list_members env identity folder_id)
  unfolding list_members
  list_members-Triple identity folder_id =
      bind-Triple (get_folder-IsCoherent env identity folder_id manage) (λ _. skip_gets _)

  pub has_shared_folders-Triple :
      (scope : FolderScope) → KeepsCoherent env (has_shared_folders env scope)
  unfolding has_shared_folders
  has_shared_folders-Triple scope = skip_gets _

  pub record_export-Triple :
      (identity : FolderIdentity) (folder_id : String) (correlation_id : Option String)
      → KeepsCoherent env (record_export env identity folder_id correlation_id)
  unfolding record_export
  record_export-Triple identity folder_id correlation_id =
      bind-Triple (get_folder-IsCoherent env identity folder_id export)
        (λ f. append_audit-Triple env identity f _ _ _ _ _)

  pub list_folder_audit-Triple :
      (identity : FolderIdentity) (folder_id : String)
      → KeepsCoherent env (list_folder_audit env identity folder_id)
  unfolding list_folder_audit
  list_folder_audit-Triple identity folder_id =
      bind-Triple (get_folder-IsCoherent env identity folder_id manage) (λ _. skip_gets _)
