-- ===== src/SharedFolders/Owners/Count.antt =====
-- Counting the owners among the memberships of a map.
use perseverance.Prelude.{
  ℕ, ◌+◌, ◌≤◌, String, ◌≡◌, ap, ◌∙◌, subst, Bool, true, false, not, ◌&&◌, Option, none, some, List,
  [], ◌∷◌, inl, inr, arith, eq_iff, str_eq, if◌then◌else◌, length, filter, Bool-cases, ◌==◌,
  of_some,
}
use perseverance.Prelude.Map.{Map, get, set}
use perseverance.SharedFolders.Types.{FolderMembership, is_active}
use perseverance.SharedFolders.Members.{active_only}

abbrev pub bit : Bool → ℕ
bit true = 1
bit false = 0

abbrev pub count : {A : Type 0} → (A → Bool) → List A → ℕ
count p xs = length (filter p xs)

count-cons :
    {A : Type 0} (p : A → Bool) (x : A) (xs : List A) → count p (x ∷ xs) ≡ bit (p x) + count p xs
count-cons p x xs = elim (Bool-cases (p x)) [
  | inl b ↦ rw b (omega arith)
  | inr b ↦ rw b (omega arith)
]

-- A value is replaced: it is counted in the place of the old one.
pub count-set :
    {V : Type 0} (p : String × V → Bool) (k : String) (v old : V) (m : Map V)
    → get k m ≡ some old
    → count p (set k v m) + bit (p (k, old)) ≡ count p m + bit (p (k, v))
unfolding get set
count-set p k v old [] e = cc
count-set {V} p k v old ((j, w) ∷ m) e =
    let first = λ (x : V). count-cons p (j, x) m in
    elim (Bool-cases (str_eq j k)) [
      | inl b ↦
          let same : w ≡ old =
            of_some (subst (λ c. (if c then some w else get k m) ≡ some old) b e) in
          let at_key : j ≡ k = (eq_iff j k).0 b in
          let counted : count p ((j, v) ∷ m) + bit (p (k, old))
              ≡ count p ((j, w) ∷ m) + bit (p (k, v)) =
            omega (
              arith,
              first v,
              first w,
              ap (λ i. bit (p (i, v))) at_key,
              ap (λ i. bit (p (i, w))) at_key,
              ap (λ x. bit (p (k, x))) same,
            ) in
          rw b counted
      | inr b ↦
          let later = subst (λ c. (if c then some w else get k m) ≡ some old) b e in
          let counted : count p ((j, w) ∷ set k v m) + bit (p (k, old))
              ≡ count p ((j, w) ∷ m) + bit (p (k, v)) =
            omega (arith, first w, count-cons p (j, w) (set k v m), count-set p k v old m later) in
          rw b counted
    ]

pub count_of_get :
    {V : Type 0} (p : String × V → Bool) (k : String) (v : V) (m : Map V)
    → get k m ≡ some v
    → p (k, v) ≡ true
    → 1 ≤ count p m
unfolding get
count_of_get p k v [] e h = cc
count_of_get {V} p k v ((j, w) ∷ m) e h = elim (Bool-cases (str_eq j k)) [
  | inl b ↦
      let same : w ≡ v = of_some (subst (λ c. (if c then some w else get k m) ≡ some v) b e) in
      let at_key : p (j, w) ≡ true =
        ap (λ i. p (i, w)) ((eq_iff j k).0 b) ∙ ap (λ x. p (k, x)) same ∙ h in
      omega (arith, count-cons p (j, w) m, ap bit at_key)
  | inr b ↦
      let later = subst (λ c. (if c then some w else get k m) ≡ some v) b e in
      omega (arith, count-cons p (j, w) m, count_of_get p k v m later h)
]

pub active_only_lem :
    (o : Option FolderMembership) (m : FolderMembership)
    → active_only o ≡ some m
    → (o ≡ some m) × (is_active m.status ≡ true)
active_only_lem none m e = cc
active_only_lem (some x) m e = elim (Bool-cases (is_active x.status)) [
  | inl b ↦
      let same = subst (λ c. (if c then some x else none) ≡ some m) b e in
      (same, subst (λ y. is_active y.status ≡ true) (of_some same) b)
  | inr b ↦ cc (subst (λ c. (if c then some x else none) ≡ some m) b e)
]

-- The guard of LAST_OWNER_PROTECTED, on the number of owners.
pub guarded :
    (n n' : ℕ) (active was now : Bool)
    → n' + bit (active && was) ≡ n + bit now
    → not (was && not now && n == 1) ≡ true
    → 1 ≤ n
    → 1 ≤ n'
guarded n n' active was now e g h = ground arith
