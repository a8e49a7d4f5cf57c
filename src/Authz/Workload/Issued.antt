-- ===== src/Authz/Workload/Issued.antt =====
-- What `issue` of `CorpusWorkloadCredentialAuthority` gives, read back as `verify` reads it.
use Prim.Native.Char.{Char, code}
use Prim.Native.String.{[], ◌∷◌, ◌++◌ as str_append}
use text.Mathlib.TextLemmas.{nil-append, cons-append, append_assoc}
use perseverance.Prelude.{
  ℕ, ◌+◌, ◌≤◌, min, String, ◌≡◌, refl, sym, ap, ◌∙◌, Bool, true, false, ◌||◌, some, List, arith,
  eq_iff, leb, ◌==◌, str_eq,
}
use perseverance.Prelude.Text.{is_empty, is_space, has_space, strip_prefix, push_char, split_dots}
use perseverance.Prelude.Exec.{ok, Exec, pure, require, or_throw, ◌>>=◌}
use perseverance.Prelude.Exec.Triple.{ok_injective}
use perseverance.Authz.Types.{workload_ttl_invalid}
use perseverance.Authz.Workload.{
  WorkloadClaims, Settings, Authority, IssueCredential, IssuedCredential, VerifyCredential, ttl_of,
  bearer_rest, bearer_token, parts_of, new_claims, issued_credential, issue, read_token,
}

-- A dot is in the text.
abbrev has_dot : String → Bool
has_dot [] = false
has_dot (c ∷ s) = code c == 46 || has_dot s

-- What base64url gives: a text that is not empty, without dots and white space.
abbrev pub IsBase64Url : String → Type 0
IsBase64Url s = (is_empty s ≡ false) × (has_dot s ≡ false) × (has_space s ≡ false)

same_code : (n : ℕ) → (n == n) ≡ true
same_code n = ground arith

strip_prefix-append : (p s : String) → strip_prefix p (str_append p s) ≡ some s
strip_prefix-append [] s = ap (λ t. strip_prefix [] t) (nil-append s)
strip_prefix-append (c ∷ p) s =
    rw (cons-append c p s) (rw (same_code (code c)) (strip_prefix-append p s))

has_space-append : (a b : String) → has_space (str_append a b) ≡ (has_space a || has_space b)
has_space-append [] b = ap has_space (nil-append b)
has_space-append (c ∷ a) b =
    rw (cons-append c a b)
      (rw (has_space-append a b) (or_assoc (is_space (code c)) (has_space a) (has_space b)))
  where
    or_assoc : (x y z : Bool) → (x || (y || z)) ≡ ((x || y) || z)
    or_assoc x y z = ground arith

or_false : (a b : Bool) → (a || b) ≡ false → (a ≡ false) × (b ≡ false)
or_false a b h = ground arith

push_char_one :
    (c : Char) (s : String) (rest : List String)
    → push_char (c ∷ []) (List.◌∷◌ s rest) ≡ List.◌∷◌ (c ∷ s) rest
push_char_one c s rest =
    ap (λ t. List.◌∷◌ t rest) (cons-append c [] s ∙ ap (λ t. c ∷ t) (nil-append s))

split_dots_none : (a : String) → has_dot a ≡ false → split_dots a ≡ List.◌∷◌ a List.[]
split_dots_none [] h = refl
split_dots_none (c ∷ a) h =
    let (first, rest) = or_false (code c == 46) (has_dot a) h in
    rw first (rw (split_dots_none a rest) (push_char_one c a List.[]))

split_dots-append :
    (a b : String)
    → has_dot a ≡ false
    → split_dots (str_append a (str_append "." b)) ≡ List.◌∷◌ a (split_dots b)
split_dots-append [] b h =
    ap split_dots (nil-append _ ∙ cons-append "." [] b ∙ ap (λ t. "." ∷ t) (nil-append b))
split_dots-append (c ∷ a) b h =
    let (first, rest) = or_false (code c == 46) (has_dot a) h in
    rw (cons-append c a (str_append "." b))
      (rw first (rw (split_dots-append a b rest) (push_char_one c a (split_dots b))))

is_empty-append : (a b : String) → is_empty a ≡ false → is_empty (str_append a b) ≡ false
is_empty-append [] b h = cc
is_empty-append (c ∷ a) b h = ap is_empty (cons-append c a b)

-- The text of an access token.
abbrev token_text : String → String → String
token_text payload signature = str_append "pcw1." (str_append payload (str_append "." signature))

bearer_token_of :
    (payload signature : String)
    → IsBase64Url payload
    → IsBase64Url signature
    → bearer_token (some (str_append "Bearer " (token_text payload signature)))
      ≡ some (token_text payload signature)
unfolding is_space
bearer_token_of payload signature (full, _, solid) (_, _, solid') =
    let rest = str_append payload (str_append "." signature) in
    let no_space : has_space rest ≡ false =
      has_space-append payload (str_append "." signature)
      ∙ ap (λ b. has_space payload || b) (has_space-append "." signature)
      ∙ ap (λ b. b || has_space signature) solid
      ∙ solid' in
    ap (λ t. bearer_token (some t)) (sym (append_assoc "Bearer " "pcw1." rest))
    ∙ ap bearer_rest (strip_prefix-append "Bearer pcw1." rest)
    ∙ rw (is_empty-append payload (str_append "." signature) full) (rw no_space refl)

parts_of_token :
    (payload signature : String)
    → IsBase64Url payload
    → IsBase64Url signature
    → parts_of (split_dots (token_text payload signature)) ≡ some (payload, signature)
parts_of_token payload signature (full, plain, _) (full', plain', _) =
    ap (λ t. parts_of (split_dots t))
      (append_assoc "pcw1" "." (str_append payload (str_append "." signature)))
    ∙ ap parts_of (split_dots-append "pcw1" (str_append payload (str_append "." signature)) refl)
    ∙ ap (λ l. parts_of (List.◌∷◌ "pcw1" l)) (split_dots-append payload signature plain)
    ∙ ap (λ l. parts_of (List.◌∷◌ "pcw1" (List.◌∷◌ payload l))) (split_dots_none signature plain')
    ∙ rw full (rw full' refl)

require_passes :
    {E S A : Type 0} (b : Bool) (e : E) (k : Unit {0} → Exec E S A) (s : S) {a : A}
    → ((require b e >>= k) s).0 ≡ ok a
    → (b ≡ true) × ((k tt s).0 ≡ ok a)
unfolding ◌>>=◌ require
require_passes true e k s h = (refl, h)
require_passes false e k s h = cc

module _ (cfg : Settings) where
  -- A token with a right signature is read as its claims.
  read_token_of :
      (claims : WorkloadClaims) (input : VerifyCredential) (s : Authority)
      → cfg.decode (cfg.encode claims) ≡ some claims
      → IsBase64Url (cfg.encode claims)
      → IsBase64Url (cfg.hmac cfg.signing_key (cfg.encode claims))
      → input.authorization
        ≡ some (
            str_append "Bearer "
              (token_text (cfg.encode claims) (cfg.hmac cfg.signing_key (cfg.encode claims))))
      → read_token cfg input s ≡ (
        ok (token_text (cfg.encode claims) (cfg.hmac cfg.signing_key (cfg.encode claims)), claims),
        s,
      )
  unfolding read_token ◌>>=◌ or_throw
  read_token_of claims input s decoded plain plain' given =
      let payload = cfg.encode claims in
      let signature = cfg.hmac cfg.signing_key payload in
      let token : bearer_token input.authorization ≡ some (token_text payload signature) =
        ap bearer_token given ∙ bearer_token_of payload signature plain plain' in
      let self : str_eq signature signature ≡ true = (eq_iff signature signature).1 refl in
      rw token (rw (parts_of_token payload signature plain plain') (rw self (rw decoded refl)))

  -- The claims of the credential that `issue` gives in a state.
  abbrev pub claims_of : IssueCredential → Authority → WorkloadClaims
  claims_of input s =
      new_claims cfg input (min (ttl_of input.ttl_ms) cfg.max_ttl_ms) (cfg.random_key s.randoms)
        (cfg.uuid s.uuids)

  issued_lem :
      (input : IssueCredential) (s : Authority) (c : IssuedCredential)
      → (issue cfg input s).0 ≡ ok c
      → (leb 1_000 (min (ttl_of input.ttl_ms) cfg.max_ttl_ms) ≡ true)
        × (c
            ≡ issued_credential cfg
                (new_claims cfg input
                  (min (ttl_of input.ttl_ms) cfg.max_ttl_ms)
                  (cfg.random_key s.randoms)
                  (cfg.uuid s.uuids))
                (cfg.random_key s.randoms))
  unfolding issue pure
  issued_lem input s c e =
      let (long, made) =
        require_passes (leb 1_000 (min (ttl_of input.ttl_ms) cfg.max_ttl_ms)) workload_ttl_invalid _
          s e in
      (long, sym (ok_injective made))

  -- A credential that `issue` gives lives for a second at least, for the time that was asked for (a
  -- minute if none was) at most, and for the maximum of the authority at most.
  pub issue_bounded :
      (input : IssueCredential) (s : Authority) (c : IssuedCredential)
      → (issue cfg input s).0 ≡ ok c
      → (input.now + 1_000 ≤ c.expires_at)
        × (c.expires_at ≤ input.now + ttl_of input.ttl_ms)
        × (c.expires_at ≤ input.now + cfg.max_ttl_ms)
  issue_bounded input s c e =
      let (long, made) = issued_lem input s c e in
      let expires : c.expires_at ≡ input.now + min (ttl_of input.ttl_ms) cfg.max_ttl_ms =
        ap (λ x. x.expires_at) made in
      ground (arith, long, expires)

  -- What `issue` writes into the token, `verify` reads back: presented as a bearer token, in whatever
  -- state of the authority, the token of an issued credential passes the tests of form and signature,
  -- and its claims have the identifier, the expiry and the scope of the credential. Hypotheses are that
  -- the decoding of base64url and JSON undoes their encoding on the claims, and that the encoded claims
  -- and their digest are not empty and have neither dots nor white space.
  pub issue-read_token :
      (input : IssueCredential) (s u : Authority) (c : IssuedCredential) (v : VerifyCredential)
      → cfg.decode (cfg.encode (claims_of input s)) ≡ some (claims_of input s)
      → IsBase64Url (cfg.encode (claims_of input s))
      → IsBase64Url (cfg.hmac cfg.signing_key (cfg.encode (claims_of input s)))
      → (issue cfg input s).0 ≡ ok c
      → v.authorization ≡ some (str_append "Bearer " c.access_token)
      → (claims : WorkloadClaims) × (read_token cfg v u ≡ (ok (c.access_token, claims), u))
        × (claims.jti ≡ c.credential_id)
        × (claims.expires_at ≡ c.expires_at)
        × (claims.tenant_id ≡ input.tenant_id)
        × (claims.organization_id ≡ input.organization_id)
        × (claims.workspace_id ≡ input.workspace_id)
        × (claims.proof_key_hash ≡ cfg.proof_key_hash c.proof_key)
  issue-read_token input s u c v decoded plain plain' e given =
      let made = (issued_lem input s c e).1 in
      let claims = claims_of input s in
      (
        claims,
        read_token_of claims v u decoded plain plain'
              (given ∙ ap (λ x. some (str_append "Bearer " x.access_token)) made)
            ∙ ap (λ x. (ok (x.access_token, claims), u)) (sym made),
        ap (λ x. x.credential_id) (sym made),
        ap (λ x. x.expires_at) (sym made),
        refl,
        refl,
        refl,
        ap (λ x. cfg.proof_key_hash x.proof_key) (sym made),
      )
