-- ===== src/SupportAccess/Consume.antt =====
-- What `consumeLease` has tested when it answers, and what it has written.
use text.Mathlib.TextEquality.{eq_iff}
use perseverance.Prelude.{
  ℕ, suc, ◌≡◌, refl, sym, ap, subst, Bool, true, none, some, Option, inl, inr, ◌⊎◌, ◌<◌, String,
  arith, Option-cases, Bool-cases, both_of, same_text, same_option, same_number, none_of, above,
}
use perseverance.Prelude.Text.{truthy}
use perseverance.Prelude.Map.{Map, get, get-set_self}
use perseverance.Prelude.Exec.{Result, ok, err, continue, bind_returns, require_returns, ◌>>=◌}
use perseverance.SupportAccess.Types.{
  Grant, BreakGlass, active, Lease, Service, Runtime, Error, Method,
}
use perseverance.SupportAccess.Kinds.{active_of, action_of}
use perseverance.SupportAccess.Store.{Aggregate, of_grant, of_break_glass, primitives, read_clock}
use perseverance.SupportAccess.Leases.{
  ConsumeLease, lookup, grant_result, break_glass_result, aggregate_status, aggregate_generation,
  is_usable, in_scope, aggregate_of, find_aggregate, find_lease, consume_checked, consume_write,
  consume_lease, expire,
}
use perseverance.SupportAccess.Protocol.{spent}

-- The lease names a stored grant, which is active and has the generation of the lease.
abbrev pub IsOfGrant : Lease → Service → Type 0
IsOfGrant l s =
    (id : String) × (g : Grant) × (l.grant_id ≡ some id)
    × (get id s.grants ≡ some g)
    × (g.status ≡ active)
    × (g.generation ≡ l.generation)

-- The lease names a stored break-glass request, which is active and has its generation.
abbrev pub IsOfBreakGlass : Lease → Service → Type 0
IsOfBreakGlass l s =
    (id : String) × (b : BreakGlass) × (l.break_glass_id ≡ some id)
    × (get id s.break_glass ≡ some b)
    × (b.status ≡ active)
    × (b.generation ≡ l.generation)

looked_up :
    {A : Type 0} (o : Option String) (m : Map A) (a : A)
    → lookup o m ≡ some a
    → (id : String) × (o ≡ some id) × (get id m ≡ some a)
looked_up none m a h = cc
looked_up (some id) m a h = (id, refl, h)

grant_found :
    (o : Option Grant) (a : Aggregate)
    → grant_result o ≡ ok a
    → (g : Grant) × (o ≡ some g) × (a ≡ of_grant g)
grant_found none a h = cc
grant_found (some g) a h = (g, refl, cc)

break_glass_found :
    (o : Option BreakGlass) (a : Aggregate)
    → break_glass_result o ≡ ok a
    → (b : BreakGlass) × (o ≡ some b) × (a ≡ of_break_glass b)
break_glass_found none a h = cc
break_glass_found (some b) a h = (b, refl, cc)

is_governed :
    (l : Lease) (s : Service) (a : Aggregate)
    → aggregate_of l s ≡ ok a
    → aggregate_status a ≡ active
    → aggregate_generation a ≡ l.generation
    → IsOfGrant l s ⊎ IsOfBreakGlass l s
unfolding aggregate_of
is_governed l s a h live same = elim (Bool-cases (truthy l.grant_id)) [
  | inl b ↦
      let (g, at, e) = grant_found (lookup l.grant_id s.grants) a (rw b at h) in
      let (id, named, found) = looked_up l.grant_id s.grants g at in
      inl (id, g, named, found, rw e at live, rw e at same)
  | inr b ↦
      let (r, at, e) = break_glass_found (lookup l.break_glass_id s.break_glass) a (rw b at h) in
      let (id, named, found) = looked_up l.break_glass_id s.break_glass r at in
      inr (id, r, named, found, rw e at live, rw e at same)
]

-- What the tests on the use of a lease say.
usable_facts :
    (a : Aggregate) (l : Lease)
    → is_usable a l ≡ true
    → (aggregate_status a ≡ active)
      × (aggregate_generation a ≡ l.generation)
      × (l.consumed_at ≡ none)
      × (l.revoked_at ≡ none)
unfolding is_usable
usable_facts a l h =
    let (h₁, unrevoked) = both_of h in
    let (h₂, unused) = both_of h₁ in
    let (live, same) = both_of h₂ in
    (active_of live, same_number same, none_of unused, none_of unrevoked)

-- What the tests on the scope say.
record IsInScope (input : ConsumeLease) (l : Lease) : Type 0 where
  tenant : input.tenant_id ≡ l.tenant_id
  organization : input.organization_id ≡ l.organization_id
  workspace : input.workspace_id ≡ l.workspace_id
  session : input.session_id ≡ l.session_id
  object : input.object_id ≡ l.object_id
  action : input.action ≡ l.action
  holder : input.principal_id ≡ l.principal_id

scope_facts : (input : ConsumeLease) (l : Lease) → in_scope input l ≡ true → IsInScope input l
unfolding in_scope
scope_facts input l h =
    let (h₁, holder) = both_of h in
    let (h₂, action) = both_of h₁ in
    let (h₃, object) = both_of h₂ in
    let (h₄, session) = both_of h₃ in
    let (h₅, workspace) = both_of h₄ in
    let (tenant, organization) = both_of h₅ in
    record {
      tenant = sym (same_text tenant);
      organization = sym (same_text organization);
      workspace = sym (same_text workspace);
      session = sym (same_option session);
      object = sym (same_option object);
      action = sym (action_of l.action input.action action);
      holder = sym (same_text holder);
    }

module _ (rt : Runtime) where
  -- The tests behind a successful consumption, in the service `s` that expiry has left, and the
  -- lease as it is afterwards.
  pub record IsGranted (input : ConsumeLease) (s t : Service) : Type 0 where
    pub lease : Lease
    pub presented : get input.lease_id s.leases ≡ some lease
    pub token_known : lease.token_hash ≡ rt.sha256 input.token
    pub governed : IsOfGrant lease s ⊎ IsOfBreakGlass lease s
    pub unused : lease.consumed_at ≡ none
    pub unrevoked : lease.revoked_at ≡ none
    pub in_time : rt.now s.clock_reads < lease.expires_at
    pub same_tenant : input.tenant_id ≡ lease.tenant_id
    pub same_organization : input.organization_id ≡ lease.organization_id
    pub same_workspace : input.workspace_id ≡ lease.workspace_id
    pub same_session : input.session_id ≡ lease.session_id
    pub same_object : input.object_id ≡ lease.object_id
    pub same_action : input.action ≡ lease.action
    pub by_holder : input.principal_id ≡ lease.principal_id
    pub marked :
        get input.lease_id t.leases
        ≡ some (record lease {
          public = record lease.public { consumed_at = some (rt.now (suc s.clock_reads)) };
        })

  find_lease_returns :
      (input : ConsumeLease) (s : Service) (l : Lease) (t : Service)
      → find_lease rt input s ≡ (ok l, t)
      → (get input.lease_id s.leases ≡ some l) × (l.token_hash ≡ rt.sha256 input.token) × (t ≡ s)
  unfolding find_lease
  find_lease_returns input s l t h = elim (Option-cases (get input.lease_id s.leases)) [
    | inl e ↦ cc (ap (λ p. p.0) (rw (e, find_lease) at h))
    | inr (x, e) ↦ ground (arith, e, h, eq_iff x.token_hash (rt.sha256 input.token))
  ]

  written :
      (input : ConsumeLease) (l : Lease) (a : Aggregate) (s : Service) (b : Bool) (t : Service)
      → (consume_write rt input l a s) ≡ (ok b, t)
      → get input.lease_id t.leases ≡ some (spent l (rt.now s.clock_reads))
  unfolding consume_write primitives
  written input l a s b t h =
      subst (λ (u : Service). get input.lease_id u.leases ≡ some (spent l (rt.now s.clock_reads)))
        (ap (λ p. p.1) h) (get-set_self input.lease_id (spent l (rt.now s.clock_reads)) s.leases)

  module _ {A : Type 0} {b : A} {t : Service} (s : Service) where
    find_lease_passes :
        (input : ConsumeLease) (k : Lease → Method A)
        → (find_lease rt input >>= k) s ≡ (ok b, t)
        → (l : Lease) × (get input.lease_id s.leases ≡ some l)
          × (l.token_hash ≡ rt.sha256 input.token)
          × (k l s ≡ (ok b, t))
    find_lease_passes input k h =
        let (l, found, h₁) = bind_returns (find_lease rt input) k s h in
        let (presented, known, same) = find_lease_returns input s l _ found in
        (l, presented, known, subst (λ (u : Service). k l u ≡ (ok b, t)) same h₁)

    find_aggregate_passes :
        (l : Lease) (k : Aggregate → Method A)
        → (find_aggregate l >>= k) s ≡ (ok b, t)
        → (a : Aggregate) × (aggregate_of l s ≡ ok a) × (k a s ≡ (ok b, t))
    unfolding ◌>>=◌ find_aggregate
    find_aggregate_passes l k h = go (aggregate_of l s) refl h
      where
        go :
            (r : Result Error Aggregate)
            → aggregate_of l s ≡ r
            → continue r k s ≡ (ok b, t)
            → (a : Aggregate) × (aggregate_of l s ≡ ok a) × (k a s ≡ (ok b, t))
        go (ok a) e f = (a, e, f)
        go (err x) e f = cc (ap (λ p. p.0) f)

    clock_passes :
        (k : ℕ → Method A)
        → (read_clock rt >>= k) s ≡ (ok b, t)
        → k (rt.now s.clock_reads) (record s { clock_reads = suc s.clock_reads }) ≡ (ok b, t)
    unfolding ◌>>=◌ read_clock
    clock_passes k h = h

  consume_checked-IsGranted :
      (input : ConsumeLease) (s : Service) (b : Bool) (t : Service)
      → consume_checked rt input s ≡ (ok b, t)
      → IsGranted input s t
  unfolding consume_checked
  consume_checked-IsGranted input s b t h =
      let (l, presented, known, h₁) = find_lease_passes s input _ h in
      let (a, governed, h₂) = find_aggregate_passes s l _ h₁ in
      let (usable, h₃) = require_returns _ _ _ _ h₂ in
      let (in_time, h₄) = require_returns _ _ _ _ (clock_passes s _ h₃) in
      let (scoped, h₅) = require_returns _ _ _ _ h₄ in
      let (live, same, unused, unrevoked) = usable_facts a l usable in
      let scope = scope_facts input l scoped in
      record {
        lease = l;
        presented = presented;
        token_known = known;
        governed = is_governed l s a governed live same;
        unused = unused;
        unrevoked = unrevoked;
        in_time = above in_time;
        same_tenant = scope.tenant;
        same_organization = scope.organization;
        same_workspace = scope.workspace;
        same_session = scope.session;
        same_object = scope.object;
        same_action = scope.action;
        by_holder = scope.holder;
        marked = written input l a _ b t h₅;
      }

  -- `consumeLease` answers only if, in the service that its expiry pass has left, the identifier
  -- names a stored lease, the hash of the token is the stored one, the lease names a stored grant or
  -- break-glass request that is active and has the lease's generation, the lease is not consumed, not
  -- revoked and ends after the clock's time, and tenant, organization, workspace, session, object, action
  -- and principal of the call are the lease's. Afterwards the lease is stored as consumed at the clock's
  -- next time and is otherwise the same.
  pub consume_lease-IsGranted :
      (input : ConsumeLease) (s : Service) (b : Bool) (t : Service)
      → consume_lease rt input s ≡ (ok b, t)
      → IsGranted input (expire rt s).1 t
  unfolding consume_lease
  consume_lease-IsGranted input s b t h =
      let (_, _, h₁) = bind_returns (expire rt) _ s h in consume_checked-IsGranted input _ b t h₁
