-- ===== src/Authz/Workload.antt =====
-- `CorpusWorkloadCredentialAuthority` of packages/authz/src/index.ts. The time of a call, `input.now`
-- or the clock's, is an argument of the model.
pub mod Passed
pub mod Readable
pub mod Proved
pub mod Verified
pub mod Replay
pub mod Issued
use Prim.Native.String.{◌++◌ as str_append}
use perseverance.Prelude.{
  ℕ, suc, ◌+◌, ◌*◌, min, String, Bool, true, false, not, ◌&&◌, ◌||◌, Option, none, some, List, [],
  ◌∷◌, ltb, leb, ◌==◌, str_eq, is_some, if◌then◌else◌, filter, any, contains,
}
use perseverance.Prelude.Text.{truthy, is_empty, utf16_length, strip_prefix, has_space, split_dots}
use perseverance.Prelude.Map.{Map, get, set}
use perseverance.Prelude.Exec.{
  Result, ok, err, Exec, pure, gets, modify, require, or_throw, ◌>>=◌, ◌>>◌,
}
use perseverance.Authz.Types.{
  internal_service, Principal, AuthError, workload_signing_key_too_short, workload_ttl_invalid,
  workload_auth_required, workload_token_malformed, workload_token_signature_invalid,
  workload_token_rejected, workload_scope_rejected, workload_proof_required,
  workload_replay_rejected, workload_proof_invalid, parse_principal,
}
use perseverance.Authz.Authorize.{text_of}

pub data CorpusWorkloadAction : Type 0 where
  source_search citation_read : CorpusWorkloadAction

abbrev pub corpus_action_name : CorpusWorkloadAction → String
corpus_action_name source_search = "source.search"
corpus_action_name citation_read = "citation.read"

abbrev pub corpus_action_eq : CorpusWorkloadAction → CorpusWorkloadAction → Bool
corpus_action_eq source_search source_search = true
corpus_action_eq citation_read citation_read = true
corpus_action_eq _ _ = false

-- `WorkloadClaims`; `version` is a number that a decoded payload may have wrong.
pub record WorkloadClaims : Type 0 where
  pub version : ℕ
  pub jti : String
  pub subject : String
  pub audience : String
  pub tenant_id : String
  pub organization_id : String
  pub workspace_id : String
  pub actions : List CorpusWorkloadAction
  pub proof_key_hash : String
  pub issued_at : ℕ
  pub expires_at : ℕ

-- The options of the constructor, and what the methods take from outside: `hmac key message` and
-- `proof_key_hash` are base64url digests, `encode` and `decode` turn claims into the base64url text
-- of their JSON and back, `skew now timestamp` is `Math.abs(now - Number(timestamp))` rounded up,
-- and none where it is not finite, and the generators give their n-th value.
pub record Settings : Type 0 where
  pub signing_key : String
  pub audience : String
  pub max_ttl_ms : ℕ
  pub hmac : String → String → String
  pub proof_key_hash : String → String
  pub encode : WorkloadClaims → String
  pub decode : String → Option WorkloadClaims
  pub skew : ℕ → String → Option ℕ
  pub uuid : ℕ → String
  pub random_key : ℕ → String

-- `#revoked` and `#nonces`, and how often the generators have been called.
pub record Authority : Type 0 where
  pub revoked : List String
  pub nonces : Map ℕ
  pub uuids : ℕ
  pub randoms : ℕ

pub record IssueCredential : Type 0 where
  pub tenant_id : String
  pub organization_id : String
  pub workspace_id : String
  pub ttl_ms : Option ℕ
  pub now : ℕ

pub record IssuedCredential : Type 0 where
  pub access_token : String
  pub proof_key : String
  pub expires_at : ℕ
  pub credential_id : String

pub record VerifyCredential : Type 0 where
  pub authorization : Option String
  pub proof : Option String
  pub timestamp : Option String
  pub nonce : Option String
  pub action : CorpusWorkloadAction
  pub tenant_id : String
  pub organization_id : String
  pub workspace_id : String
  pub now : ℕ

abbrev pub Checked : Type 0 → Type 0
Checked A = Exec AuthError Authority A

abbrev pub ttl_of : Option ℕ → ℕ
ttl_of none = 60_000
ttl_of (some t) = t

-- `authorization?.match(/^Bearer (pcw1\.[^\s]+)$/)?.[1]`.
abbrev pub bearer_rest : Option String → Option String
bearer_rest none = none
bearer_rest (some rest) =
    if is_empty rest || has_space rest then none else some (str_append "pcw1." rest)

abbrev pub bearer_token : Option String → Option String
bearer_token none = none
bearer_token (some header) = bearer_rest (strip_prefix "Bearer pcw1." header)

-- `const [, payload, signature] = token.split('.')`, if neither is empty.
abbrev pub parts_of : List String → Option (String × String)
parts_of (_ ∷ payload ∷ signature ∷ _) =
    if is_empty payload || is_empty signature then none else some (payload, signature)
parts_of _ = none

-- `proof.split('.')[0]` and `[1]`, if neither is empty.
abbrev pub proof_parts : List String → Option (String × String)
proof_parts (key ∷ signature ∷ _) =
    if is_empty key || is_empty signature then none else some (key, signature)
proof_parts _ = none

abbrev pub within : ℕ → Option ℕ → Bool
within limit none = false
within limit (some d) = leb d limit

abbrev pub timestamp_skew : Settings → ℕ → Option String → Option ℕ
timestamp_skew cfg now none = none
timestamp_skew cfg now (some t) = cfg.skew now t

-- `` `${claims.jti}:${input.nonce}` ``.
abbrev pub replay_key : WorkloadClaims → Option String → String
replay_key claims nonce = str_append claims.jti (str_append ":" (text_of nonce))

abbrev pub proof_message : String → VerifyCredential → String
proof_message token input = str_append token (
    str_append "\n" (
      str_append (text_of input.timestamp) (
        str_append "\n"
          (str_append (text_of input.nonce) (str_append "\n" (corpus_action_name input.action))))))

-- The expired nonces are forgotten.
abbrev pub purge : ℕ → Authority → Authority
purge now s = record s { nonces = filter (λ (e : String × ℕ). ltb now e.1) s.nonces }

abbrev pub store_nonce : String → ℕ → Authority → Authority
store_nonce key expires_at s = record s { nonces = set key expires_at s.nonces }

-- The constructor, for a signing key of that many bytes.
unfoldable pub new_authority : ℕ → Result AuthError Authority
new_authority key_bytes =
    if ltb key_bytes 32
    then err workload_signing_key_too_short
    else ok (record { revoked = []; nonces = []; uuids = 0; randoms = 0 })

module _ (cfg : Settings) where
  -- The claims of a new credential.
  abbrev pub new_claims : IssueCredential → ℕ → String → String → WorkloadClaims
  new_claims input ttl proof_key uuid = record {
    version = 1;
    jti = uuid;
    subject = str_append "workspace-corpus:" input.workspace_id;
    audience = cfg.audience;
    tenant_id = input.tenant_id;
    organization_id = input.organization_id;
    workspace_id = input.workspace_id;
    actions = source_search ∷ citation_read ∷ [];
    proof_key_hash = cfg.proof_key_hash proof_key;
    issued_at = input.now;
    expires_at = input.now + ttl;
  }

  abbrev pub issued_credential : WorkloadClaims → String → IssuedCredential
  issued_credential claims proof_key =
      let payload = cfg.encode claims in
      record {
        access_token =
            str_append "pcw1."
              (str_append payload (str_append "." (cfg.hmac cfg.signing_key payload)));
        proof_key = proof_key;
        expires_at = claims.expires_at;
        credential_id = claims.jti;
      }

  -- `issue`.
  unfoldable pub issue : IssueCredential → Checked IssuedCredential
  issue input s =
      let ttl = min (ttl_of input.ttl_ms) cfg.max_ttl_ms in
      (require (leb 1_000 ttl) workload_ttl_invalid >>= λ _ t.
      let proof_key = cfg.random_key t.randoms in
      pure (issued_credential (new_claims input ttl proof_key (cfg.uuid t.uuids)) proof_key)
        (record t { uuids = suc t.uuids; randoms = suc t.randoms }))
        s

  -- `revoke`.
  unfoldable pub revoke : String → Checked (Unit {0})
  revoke id = modify (λ s. record s { revoked = id ∷ s.revoked })

  -- The tests under `WORKLOAD_TOKEN_REJECTED`.
  unfoldable pub is_accepted : WorkloadClaims → ℕ → List String → Bool
  is_accepted claims now revoked =
      claims.version == 1
      && str_eq claims.audience cfg.audience
      && ltb now claims.expires_at
      && leb claims.issued_at (now + 5_000)
      && not (contains claims.jti revoked)

  -- The tests under `WORKLOAD_SCOPE_REJECTED`.
  unfoldable pub in_credential_scope : WorkloadClaims → VerifyCredential → Bool
  in_credential_scope claims input =
      str_eq claims.tenant_id input.tenant_id
      && str_eq claims.organization_id input.organization_id
      && str_eq claims.workspace_id input.workspace_id
      && any (λ a. corpus_action_eq a input.action) claims.actions

  -- The tests under `WORKLOAD_PROOF_REQUIRED`.
  unfoldable pub has_proof : VerifyCredential → Bool
  has_proof input =
      truthy input.nonce
      && leb (utf16_length (text_of input.nonce)) 128
      && within 30_000 (timestamp_skew cfg input.now input.timestamp)
      && truthy input.proof

  -- The two tests under `WORKLOAD_PROOF_INVALID`.
  unfoldable pub is_proof : String → WorkloadClaims → VerifyCredential → Bool
  is_proof token claims input = elim (proof_parts (split_dots (text_of input.proof))) [
    | none ↦ false
    | some (key, signature) ↦
        str_eq (cfg.proof_key_hash key) claims.proof_key_hash
        && str_eq signature (cfg.hmac key (proof_message token input))
  ]

  -- The token of a call, with its claims, once its form and its signature are checked.
  unfoldable pub read_token : VerifyCredential → Checked (String × WorkloadClaims)
  read_token input = or_throw (bearer_token input.authorization) workload_auth_required >>= λ token.
      or_throw (parts_of (split_dots token)) workload_token_malformed >>= λ parts.
      require (str_eq parts.1 (cfg.hmac cfg.signing_key parts.0)) workload_token_signature_invalid
      >>= λ _.
          or_throw (cfg.decode parts.0) workload_token_malformed >>= λ claims. pure (token, claims)

  abbrev pub workload_principal : WorkloadClaims → Principal
  workload_principal claims = record {
    kind = internal_service;
    subject = claims.subject;
    issuer = "urn:perseverance:workload";
    audience = claims.audience ∷ [];
    authenticated_at = claims.issued_at;
    expires_at = claims.expires_at;
    assurance = record { level = "workload-proof-v1"; mfa = false };
    memberships = [];
  }

  -- The part of `verify` that uses the nonce up.
  unfoldable pub spend_nonce : VerifyCredential → String → WorkloadClaims → Checked (Unit {0})
  spend_nonce input token claims = modify (purge input.now) >>= λ _.
      gets (λ s. is_some (get (replay_key claims input.nonce) s.nonces)) >>= λ used.
      require (not used) workload_replay_rejected >>= λ _.
      require (is_proof token claims input) workload_proof_invalid >>= λ _.
      modify (store_nonce (replay_key claims input.nonce) claims.expires_at)

  -- `verify`.
  unfoldable pub verify : VerifyCredential → Checked Principal
  verify input = read_token input >>= λ read. gets (λ s. s.revoked) >>= λ revoked.
      require (is_accepted read.1 input.now revoked) workload_token_rejected >>= λ _.
      require (in_credential_scope read.1 input) workload_scope_rejected >>= λ _.
      require (has_proof input) workload_proof_required >>= λ _.
      spend_nonce input read.0 read.1 >>= λ _. parse_principal (workload_principal read.1)
