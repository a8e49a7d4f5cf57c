-- ===== src/SupportAccess/Issue.antt =====
-- What `issueLease` has tested when it answers, and which lease it leaves behind.
use perseverance.Prelude.{
  ◌+◌, ◌≤◌, String, ◌≡◌, refl, sym, ap, subst, none, some, inl, inr, arith, ◌⊎◌, IsIn, same_text,
  same_option, min_cases, Option-cases,
}
use perseverance.Prelude.Map.{get, get-set_self}
use perseverance.Prelude.Exec.{
  Result, ok, modify, pure, or_throw, bind_returns, require_returns, ◌>>=◌,
}
use perseverance.SupportAccess.Types.{
  active, content_decrypt, Grant, Lease, IssuedLease, Service, Runtime, Error, Method, kms_operator,
}
use perseverance.SupportAccess.Kinds.{active_of, action_in, decrypts_as_kms}
use perseverance.SupportAccess.Store.{primitives, object_id, find_grant}
use perseverance.SupportAccess.Leases.{
  IssueLease, grant_lease, issue_write, issue_checked, issue_lease, expire,
}

abbrev issued_result : IssuedLease → Result Error IssuedLease
issued_result i = ok i

of_ok : {a b : IssuedLease} → issued_result a ≡ issued_result b → a ≡ b
of_ok h = cc

module _ (rt : Runtime) where
  -- The tests behind an issued lease, in the service `s` that expiry has left, and the lease as it
  -- stands in the service `t` afterwards.
  pub record IsNarrow (input : IssueLease) (s t : Service) (issued : IssuedLease) : Type 0 where
    pub grant : Grant
    pub lease : Lease
    pub found : get input.grant_id s.grants ≡ some grant
    pub live : grant.status ≡ active
    pub by_holder : input.actor.principal_id ≡ grant.support_principal_id
    pub allowed : IsIn input.action grant.actions
    pub same_session : input.session_id ≡ grant.session_id
    pub same_object : input.object_id ≡ object_id grant
    pub decrypts : input.action ≡ content_decrypt → input.actor.role ≡ kms_operator
    pub answered : issued.lease ≡ lease.public
    pub stored : get lease.lease_id t.leases ≡ some lease
    pub hashed : lease.token_hash ≡ rt.sha256 issued.token
    pub of_grant : lease.grant_id ≡ some grant.grant_id
    pub of_no_request : lease.break_glass_id ≡ none
    pub same_generation : lease.generation ≡ grant.generation
    pub of_tenant : lease.tenant_id ≡ grant.tenant_id
    pub of_organization : lease.organization_id ≡ grant.organization_id
    pub of_workspace : lease.workspace_id ≡ grant.workspace_id
    pub of_session : lease.session_id ≡ input.session_id
    pub of_object : lease.object_id ≡ input.object_id
    pub for_action : lease.action ≡ input.action
    pub for_caller : lease.principal_id ≡ input.actor.principal_id
    pub issued_now : lease.issued_at ≡ rt.now s.clock_reads
    pub within_grant : lease.expires_at ≤ grant.expires_at
    pub short : lease.expires_at ≤ rt.now s.clock_reads + 300_000
    pub ends :
        (lease.expires_at ≡ grant.expires_at) ⊎ (lease.expires_at ≡ rt.now s.clock_reads + 300_000)
    pub unused : lease.consumed_at ≡ none
    pub unrevoked : lease.revoked_at ≡ none

  module _ {A : Type 0} {b : A} {t : Service} (s : Service) where
    find_grant_passes :
        (id : String) (k : Grant → Method A)
        → (find_grant id >>= k) s ≡ (ok b, t)
        → (g : Grant) × (get id s.grants ≡ some g) × (k g s ≡ (ok b, t))
    unfolding ◌>>=◌ find_grant
    find_grant_passes id k h = elim (Option-cases (get id s.grants)) [
      | inl e ↦ cc (ap (λ p. p.0) (rw (e, or_throw) at h))
      | inr (g, e) ↦ (g, e, rw (e, or_throw) at h)
    ]

  issue_write_returns :
      (input : IssueLease) (g : Grant) (s : Service) (issued : IssuedLease) (t : Service)
      → issue_write rt input g s ≡ (ok issued, t)
      → let l =
          grant_lease input g
            (rt.uuid s.uuids)
            (rt.now s.clock_reads)
            (rt.sha256 (rt.random_token s.randoms)) in
        (issued ≡ record { lease = l.public; token = rt.random_token s.randoms })
        × (get l.lease_id t.leases ≡ some l)
  unfolding issue_write primitives modify pure
  issue_write_returns input g s issued t h =
      let l =
        grant_lease input g (rt.uuid s.uuids) (rt.now s.clock_reads)
          (rt.sha256 (rt.random_token s.randoms)) in
      (
        sym (of_ok (ap (λ p. p.0) h)),
        subst (λ (u : Service). get l.lease_id u.leases ≡ some l) (ap (λ p. p.1) h)
            (get-set_self l.lease_id l s.leases),
      )

  issue_checked-IsNarrow :
      (input : IssueLease) (s : Service) (issued : IssuedLease) (t : Service)
      → issue_checked rt input s ≡ (ok issued, t)
      → IsNarrow input s t issued
  unfolding issue_checked
  issue_checked-IsNarrow input s issued t h =
      let (g, found, h₁) = find_grant_passes s input.grant_id _ h in
      let (live, h₂) = require_returns _ _ _ _ h₁ in
      let (holder, h₃) = require_returns _ _ _ _ h₂ in
      let (allowed, h₄) = require_returns _ _ _ _ h₃ in
      let (same_session, h₅) = require_returns _ _ _ _ h₄ in
      let (same_object, h₆) = require_returns _ _ _ _ h₅ in
      let (decrypts, h₇) = require_returns _ _ _ _ h₆ in
      let (answer, stored) = issue_write_returns input g s issued t h₇ in
      record {
        grant = g;
        lease =
            grant_lease input g (rt.uuid s.uuids) (rt.now s.clock_reads)
              (rt.sha256 (rt.random_token s.randoms));
        found = found;
        live = active_of live;
        by_holder = same_text holder;
        allowed = action_in input.action g.actions allowed;
        same_session = sym (same_option same_session);
        same_object = sym (same_option same_object);
        decrypts = decrypts_as_kms decrypts;
        answered = ap (λ (i : IssuedLease). i.lease) answer;
        stored = stored;
        hashed = ap (λ (i : IssuedLease). rt.sha256 i.token) (sym answer);
        of_grant = refl;
        of_no_request = refl;
        same_generation = refl;
        of_tenant = refl;
        of_organization = refl;
        of_workspace = refl;
        of_session = same_option same_session;
        of_object = same_option same_object;
        for_action = refl;
        for_caller = refl;
        issued_now = refl;
        within_grant = omega arith;
        short = omega arith;
        ends = min_cases g.expires_at (rt.now s.clock_reads + 300_000);
        unused = refl;
        unrevoked = refl;
      }

  -- `issueLease` answers only if, in the service that its expiry pass has left, the grant is active,
  -- the actor is its support principal, the action is among its actions, session and object are the
  -- grant's, and content is decrypted by a KMS operator alone. The lease of the answer is stored,
  -- unused and not revoked, with the hash of the token; it is under that grant, its generation, tenant,
  -- organization and workspace, for the session, the object, the action and the actor of the call; it is
  -- issued at the clock's time, and it ends with the grant or five minutes after that time, whichever is
  -- earlier.
  pub issue_lease-IsNarrow :
      (input : IssueLease) (s : Service) (issued : IssuedLease) (t : Service)
      → issue_lease rt input s ≡ (ok issued, t)
      → IsNarrow input (expire rt s).1 t issued
  unfolding issue_lease
  issue_lease-IsNarrow input s issued t h =
      let (_, _, h₁) = bind_returns (expire rt) _ s h in issue_checked-IsNarrow input _ issued t h₁
