-- ===== src/SharedFolders/Cache.antt =====
-- What keeps the cached roles of `InMemorySharedFolderCore` right: the invariant of its maps, and the
-- private methods that read and write them.
pub mod Reads
pub mod Access
pub mod Move
pub mod Resources
pub mod Invitations
pub mod Folders
pub mod Members
pub mod Writes
use Prim.Native.String.{◌++◌ as str_append}
use text.Mathlib.Text.{starts_with}
use text.Mathlib.TextPositions.{starts_with-append}
use text.Mathlib.TextLemmas.{append_assoc, append_cancel_left}
use perseverance.Prelude.{
  ℕ, suc, ◌<◌, String, ◌≡◌, refl, sym, ap, ◌∙◌, subst, Bool, true, false, Option, none, some, ◌⊎◌,
  inl, inr, arith, eq_iff, str_eq, is_some, if◌then◌else◌, Bool-cases, Option-cases, ◌==◌,
}
use perseverance.Prelude.Map.{Map, get, set, get-set, get-set_cases}
use perseverance.SharedFolders.Types.{
  FolderScope, FolderIdentity, FolderRole, SharedFolder, FolderMembership, StoredInvitation,
  CachedRole, Core, Environment,
}
use perseverance.SharedFolders.Keys.{folder_key, member_prefix, member_key}
use perseverance.SharedFolders.Store.{member_role, folder_role, cached_role, refresh_role}

-- `JSON.stringify` of two arrays that begin one text is the same text.
abbrev pub SelfDelimiting : Environment → Type 0
SelfDelimiting env =
    (a b : FolderScope) (s t : String)
    → str_append (env.scope_json a) s ≡ str_append (env.scope_json b) t
    → s ≡ t

-- Two identifiers of `randomUUID` are different, and neither begins with the other.
abbrev pub FreshIds : Environment → Type 0
FreshIds env =
    (m n : ℕ) (s t : String) → str_append (env.uuid m) s ≡ str_append (env.uuid n) t → m ≡ n

-- The role of a member as the stored folder and membership give it, with no cache.
abbrev pub stored_role : Option SharedFolder → Option FolderMembership → Option FolderRole
stored_role none m = none
stored_role (some f) m = if is_some f.archived_at then none else member_role m

-- The entries that a change of a membership has made out of date, by the beginning of their keys.
abbrev pub is_stale : Option String → String → Bool
is_stale none k = false
is_stale (some prefix) k = starts_with k prefix

abbrev pub IsExact : Option String → Map FolderMembership → Map CachedRole → Type 0
IsExact stale memberships cache =
    (k : String) (c : CachedRole)
    → is_stale stale k ≡ false
    → get k cache ≡ some c
    → c.role ≡ member_role (get k memberships)

module _ (env : Environment) where
  -- The key of a folder with one of the first `uuids` identifiers.
  abbrev pub IsDrawn : ℕ → String → Type 0
  IsDrawn uuids k =
      (n : ℕ) × (scope : FolderScope) × (n < uuids)
      × (k ≡ folder_key env scope (str_append "fld_" (env.uuid n)))

  abbrev pub AreDrawn : ℕ → Map SharedFolder → Type 0
  AreDrawn uuids folders =
      (k : String) (f : SharedFolder) → get k folders ≡ some f → IsDrawn uuids k

  abbrev pub HaveFolder : ℕ → Map CachedRole → Type 0
  HaveFolder uuids cache =
      (k : String) (c : CachedRole)
      → get k cache ≡ some c
      → (j p : String) × IsDrawn uuids j × (k ≡ str_append (str_append j ":") p)

  abbrev pub AreInvited : Map SharedFolder → Map StoredInvitation → Type 0
  AreInvited folders invitations =
      (id : String) (i : StoredInvitation)
      → get id invitations ≡ some i
      → is_some (get (folder_key env i.scope i.folder_id) folders) ≡ true

-- Every folder has a drawn identifier, every cached role is one of such a folder and is the role of
-- the stored membership, but where it is stale, and every invitation is to a stored folder.
pub record Coherent (env : Environment) (stale : Option String) (folders : Map SharedFolder)
    (memberships : Map FolderMembership) (invitations : Map StoredInvitation)
    (cache : Map CachedRole) (uuids : ℕ) : Type 0 where
  pub drawn : AreDrawn env uuids folders
  pub entries : HaveFolder env uuids cache
  pub exact : IsExact stale memberships cache
  pub invited : AreInvited env folders invitations

abbrev pub IsCoherent : Environment → Option String → Core → Type 0
IsCoherent env stale s =
    Coherent env stale s.folders s.memberships s.invitations s.authorization_cache s.uuids

module _ (env : Environment) where
  IsDrawn-more : {n : ℕ} {k : String} → IsDrawn env n k → IsDrawn env (suc n) k
  IsDrawn-more (m, scope, l, e) = (m, scope, omega arith, e)

  pub Coherent-draw :
      {stale : Option String} {folders : Map SharedFolder} {memberships : Map FolderMembership}
      {invitations : Map StoredInvitation} {cache : Map CachedRole} {n : ℕ}
      → Coherent env stale folders memberships invitations cache n
      → Coherent env stale folders memberships invitations cache (suc n)
  Coherent-draw c = record {
    drawn = λ k f e. IsDrawn-more (c.drawn k f e);
    entries = λ k x e. let (j, p, d, q) = c.entries k x e in (j, p, IsDrawn-more d, q);
    exact = c.exact;
    invited = c.invited;
  }

-- The state after the role at a key has been computed and cached.
abbrev pub recached : String → ℕ → Core → Core
recached key epoch s = record s {
  authorization_cache =
      set key (record { epoch = epoch; role = member_role (get key s.memberships) })
        s.authorization_cache;
}

-- What a reading of the role leaves: the expected role, and at most a new entry for it.
abbrev pub IsReading :
    Option FolderRole → Option SharedFolder → String → Core → Option FolderRole × Core → Type 0
IsReading expected folder key s r =
    (r.0 ≡ expected)
    × ((r.1 ≡ s) ⊎ ((is_some folder ≡ true) × (epoch : ℕ) × (r.1 ≡ recached key epoch s)))

cached_role-IsReading :
    (f : SharedFolder) (key : String) (s : Core) (o : Option CachedRole)
    → get key s.authorization_cache ≡ o
    → IsExact none s.memberships s.authorization_cache
    → IsReading (member_role (get key s.memberships)) (some f) key s (cached_role f key o s)
cached_role-IsReading f key s none e h = (refl, inr (refl, f.cache_epoch, refl))
cached_role-IsReading f key s (some c) e h = elim (Bool-cases (c.epoch == f.cache_epoch)) [
  | inl b ↦ rw b (h key c refl e, inl refl)
  | inr b ↦ rw b (refl, inr (refl, f.cache_epoch, refl))
]

pub folder_role-IsReading :
    (folder : Option SharedFolder) (key : String) (s : Core)
    → IsExact none s.memberships s.authorization_cache
    → IsReading (stored_role folder (get key s.memberships)) folder key s (folder_role folder key s)
folder_role-IsReading none key s h = (refl, inl refl)
folder_role-IsReading (some f) key s h = elim (Bool-cases (is_some f.archived_at)) [
  | inl a ↦ rw a (refl, inl refl)
  | inr a ↦ rw a (cached_role-IsReading f key s (get key s.authorization_cache) refl h)
]

-- A new entry with the stored role.
pub Coherent_recache :
    (env : Environment) (scope : FolderScope) (folder_id principal_id : String) (epoch : ℕ)
    (s : Core)
    → is_some (get (folder_key env scope folder_id) s.folders) ≡ true
    → IsCoherent env none s
    → IsCoherent env none (recached (member_key env scope folder_id principal_id) epoch s)
unfolding member_key
Coherent_recache env scope folder_id principal_id epoch s found c = record {
  drawn = c.drawn;
  entries = λ k x e. elim (get-set_cases key k entry x s.authorization_cache e) [
    | inl (i, _) ↦ elim (Option-cases (get (folder_key env scope folder_id) s.folders)) [
      | inl n ↦ cc
      | inr (f, o) ↦ (folder_key env scope folder_id, principal_id, c.drawn _ f o, sym i)
    ]
    | inr (_, o) ↦ c.entries k x o
  ];
  exact = λ k x t e. elim (get-set_cases key k entry x s.authorization_cache e) [
    | inl (i, v) ↦
        subst (λ y. y.role ≡ member_role (get k s.memberships)) v
          (ap (λ j. member_role (get j s.memberships)) i)
    | inr (_, o) ↦ c.exact k x t o
  ];
  invited = c.invited;
}
  where
    key : String
    key = member_key env scope folder_id principal_id

    entry : CachedRole
    entry = record { epoch = epoch; role = member_role (get key s.memberships) }
