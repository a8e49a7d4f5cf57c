-- ===== src/Authz/Workload/Verified.antt =====
-- What `CorpusWorkloadCredentialAuthority.verify` of packages/authz/src/index.ts has tested when it
-- answers, written out.
use Prim.Native.String.{◌++◌ as str_append}
use perseverance.Prelude.{
  ℕ, ◌+◌, ◌≤◌, ◌<◌, String, ◌≡◌, refl, sym, ap, subst, ◌∙◌, true, false, Option, none, some, List,
  ltb, is_some, filter, any, contains, both_of, false_of, same_text, same_number, below, at_most,
  IsIn, any-IsIn, IsIn-contains,
}
use perseverance.Prelude.Map.{get, set}
use perseverance.Prelude.Exec.{ok}
use perseverance.Authz.Types.{internal_service, Principal}
use perseverance.Authz.Workload.{
  CorpusWorkloadAction, source_search, citation_read, corpus_action_eq, Settings, Authority,
  WorkloadClaims, VerifyCredential, replay_key, purge, store_nonce, is_accepted,
  in_credential_scope, verify,
}
use perseverance.Authz.Workload.Passed.{verify-IsPassed}
use perseverance.Authz.Workload.Readable.{IsReadable, read_token-IsReadable}
use perseverance.Authz.Workload.Proved.{IsProved, is_proof-IsProved}

corpus_action_of : (a b : CorpusWorkloadAction) → corpus_action_eq a b ≡ true → a ≡ b
corpus_action_of source_search source_search h = refl
corpus_action_of citation_read citation_read h = refl
corpus_action_of source_search citation_read h = cc
corpus_action_of citation_read source_search h = cc

action_in :
    (action : CorpusWorkloadAction) (actions : List CorpusWorkloadAction)
    → any (λ a. corpus_action_eq a action) actions ≡ true
    → IsIn action actions
action_in action actions h =
    let (a, same, i) = any-IsIn (λ a. corpus_action_eq a action) actions h in
    subst (λ x. IsIn x actions) (corpus_action_of a action same) i

module _ (cfg : Settings) where
  -- The tests behind an answer in the authority `s`, which `t` comes after.
  pub record IsVerified (input : VerifyCredential) (s t : Authority) (p : Principal) : Type 0 where
    pub token : String
    pub claims : WorkloadClaims
    pub nonce : String
    pub read : IsReadable cfg input token claims
    pub proved : IsProved cfg input token claims nonce
    pub first_version : claims.version ≡ 1
    pub for_audience : claims.audience ≡ cfg.audience
    pub not_expired : input.now < claims.expires_at
    pub not_ahead : claims.issued_at ≤ input.now + 5_000
    pub not_revoked : ¬ IsIn claims.jti s.revoked
    pub same_tenant : input.tenant_id ≡ claims.tenant_id
    pub same_organization : input.organization_id ≡ claims.organization_id
    pub same_workspace : input.workspace_id ≡ claims.workspace_id
    pub allowed : IsIn input.action claims.actions
    pub unused :
        get
          (str_append claims.jti (str_append ":" nonce))
          (filter (λ (e : String × ℕ). ltb input.now e.1) s.nonces)
        ≡ none
    pub kind : p.kind ≡ internal_service
    pub subject : p.subject ≡ claims.subject
    pub audience : p.audience ≡ List.◌∷◌ cfg.audience List.[]
    pub authenticated_at : p.authenticated_at ≡ claims.issued_at
    pub expires_at : p.expires_at ≡ claims.expires_at
    pub memberships : p.memberships ≡ List.[]
    pub stored : t ≡ record s {
      nonces =
          set
            (str_append claims.jti (str_append ":" nonce))
            claims.expires_at
            (filter (λ (e : String × ℕ). ltb input.now e.1) s.nonces);
    }

  record IsCurrent (claims : WorkloadClaims) (now : ℕ) (revoked : List String) : Type 0 where
    version : claims.version ≡ 1
    audience : claims.audience ≡ cfg.audience
    expiry : now < claims.expires_at
    issued : claims.issued_at ≤ now + 5_000
    live : ¬ IsIn claims.jti revoked

  accepted-IsCurrent :
      (claims : WorkloadClaims) (now : ℕ) (revoked : List String)
      → is_accepted cfg claims now revoked ≡ true
      → IsCurrent claims now revoked
  unfolding is_accepted
  accepted-IsCurrent claims now revoked h =
      let (h₁, live) = both_of h in
      let (h₂, issued) = both_of h₁ in
      let (h₃, expiry) = both_of h₂ in
      let (version, audience) = both_of h₃ in
      let unlisted : contains claims.jti revoked ≡ false = false_of live in
      record {
        version = same_number version;
        audience = same_text audience;
        expiry = below expiry;
        issued = at_most issued;
        live = λ i. cc (unlisted, IsIn-contains claims.jti revoked i);
      }

  scope_of :
      (claims : WorkloadClaims) (input : VerifyCredential)
      → in_credential_scope cfg claims input ≡ true
      → (input.tenant_id ≡ claims.tenant_id)
        × (input.organization_id ≡ claims.organization_id)
        × (input.workspace_id ≡ claims.workspace_id)
        × IsIn input.action claims.actions
  unfolding in_credential_scope
  scope_of claims input h =
      let (h₁, action) = both_of h in
      let (h₂, workspace) = both_of h₁ in
      let (tenant, organization) = both_of h₂ in
      (
        sym (same_text tenant),
        sym (same_text organization),
        sym (same_text workspace),
        action_in input.action claims.actions action,
      )

  -- `verify` answers only if the header is `Bearer ` with a token without white space whose second part
  -- decodes to the claims and whose third part is the signature of the second; the claims are of version
  -- 1, for this audience, not expired, not issued more than five seconds ahead and not revoked, and have
  -- the tenant, the organization, the workspace and the action of the call; the call has a nonce of at
  -- most 128 code units, a time stamp at most thirty seconds away and a proof by the key of the claims
  -- over the token, the time stamp, the nonce and the action; and the nonce is not stored for the
  -- credential among those that have not expired. The answer is an internal service with the subject,
  -- the audience and the times of the claims and no membership, and the authority afterwards is the same
  -- without the expired nonces and with the nonce, until the credential's end.
  pub verify-IsVerified :
      (input : VerifyCredential) (s : Authority) (p : Principal) (t : Authority)
      → verify cfg input s ≡ (ok p, t)
      → IsVerified input s t p
  verify-IsVerified input s p t h =
      let passed = verify-IsPassed cfg input s p t h in
      let current = accepted-IsCurrent passed.claims input.now s.revoked passed.accepted in
      let (tenant, organization, workspace, allowed) = scope_of passed.claims input passed.scoped in
      let (nonce, proved) =
        is_proof-IsProved cfg passed.token passed.claims input passed.proof_given passed.proved in
      record {
        token = passed.token;
        claims = passed.claims;
        nonce = nonce;
        read = read_token-IsReadable cfg input s passed.token passed.claims passed.read;
        proved = proved;
        first_version = current.version;
        for_audience = current.audience;
        not_expired = current.expiry;
        not_ahead = current.issued;
        not_revoked = current.live;
        same_tenant = tenant;
        same_organization = organization;
        same_workspace = workspace;
        allowed = allowed;
        unused = none_of_false (
            subst
              (λ (o : Option String).
                is_some (get (replay_key passed.claims o) (purge input.now s).nonces) ≡ false)
              proved.by_nonce passed.unused);
        kind = ap (λ q. q.kind) passed.answer;
        subject = ap (λ q. q.subject) passed.answer;
        audience =
            ap (λ q. q.audience) passed.answer ∙ ap (λ a. List.◌∷◌ a List.[]) current.audience;
        authenticated_at = ap (λ q. q.authenticated_at) passed.answer;
        expires_at = ap (λ q. q.expires_at) passed.answer;
        memberships = ap (λ q. q.memberships) passed.answer;
        stored =
            subst
              (λ (o : Option String).
                t
                ≡ store_nonce (replay_key passed.claims o) passed.claims.expires_at
                    (purge input.now s))
              proved.by_nonce passed.stored;
      }
    where
      none_of_false : {o : Option ℕ} → is_some o ≡ false → o ≡ none
      none_of_false {o = none} e = refl
      none_of_false {o = some x} e = cc
