-- ===== src/Authz/Workload/Proved.antt =====
-- The nonce, the time stamp and the proof that `verify` of packages/authz/src/index.ts asks for.
use Prim.Native.String.{[], ◌∷◌, ◌++◌ as str_append}
use perseverance.Prelude.{
  ℕ, ◌≤◌, String, ◌≡◌, ◌≢◌, refl, ap, subst, true, false, ◌&&◌, ◌||◌, Option, none, some, List,
  str_eq, inl, inr, Bool-cases, both_of, same_text, at_most, of_some,
}
use perseverance.Prelude.Text.{truthy, is_empty, utf16_length, split_dots}
use perseverance.Authz.Authorize.{text_of}
use perseverance.Authz.Workload.{
  corpus_action_name, Settings, WorkloadClaims, VerifyCredential, proof_parts, within,
  timestamp_skew, proof_message, has_proof, is_proof,
}
use perseverance.Authz.Workload.Readable.{filled, neither}

-- The call has a nonce of at most 128 code units, a time stamp at most thirty seconds away, and a
-- proof, whose key has the hash of the claims and whose signature is that of the call under the key.
pub record IsProved (cfg : Settings) (input : VerifyCredential) (token : String)
    (claims : WorkloadClaims) (nonce : String) : Type 0 where
  pub by_nonce : input.nonce ≡ some nonce
  pub nonce_given : nonce ≢ ""
  pub nonce_short : utf16_length nonce ≤ 128
  pub timestamp : String
  pub by_timestamp : input.timestamp ≡ some timestamp
  pub skew : ℕ
  pub apart : cfg.skew input.now timestamp ≡ some skew
  pub recent : skew ≤ 30_000
  pub proof : String
  pub by_proof : input.proof ≡ some proof
  pub key : String
  pub signature : String
  pub others : List String
  pub split : split_dots proof ≡ List.◌∷◌ key (List.◌∷◌ signature others)
  pub key_given : key ≢ ""
  pub own_key : cfg.proof_key_hash key ≡ claims.proof_key_hash
  pub signed :
      signature
      ≡ cfg.hmac key (
          str_append token (
            str_append "\n" (
              str_append timestamp (
                str_append "\n"
                  (str_append nonce (str_append "\n" (corpus_action_name input.action)))))))

given : (o : Option String) → truthy o ≡ true → (x : String) × (o ≡ some x) × (x ≢ "")
given none h = cc
given (some []) h = cc
given (some (c ∷ x)) h = (c ∷ x, refl, λ e. cc)

proof_parts_given :
    (parts : List String) (key signature : String)
    → proof_parts parts ≡ some (key, signature)
    → (others : List String) × (parts ≡ List.◌∷◌ key (List.◌∷◌ signature others)) × (key ≢ "")
proof_parts_given List.[] key signature h = cc
proof_parts_given (List.◌∷◌ a List.[]) key signature h = cc
proof_parts_given (List.◌∷◌ a (List.◌∷◌ b others)) key signature h =
    elim (Bool-cases (is_empty a || is_empty b)) [
      | inl e ↦ cc (rw e at h)
      | inr e ↦
          let same = of_some (rw e at h) in
          (
            others,
            ap (λ (p : String × String). List.◌∷◌ p.0 (List.◌∷◌ p.1 others)) same,
            subst (λ x. x ≢ "") (ap (λ p. p.0) same)
                (filled a (neither (is_empty a) (is_empty b) e).0),
          )
    ]

skew_of :
    (cfg : Settings) (now : ℕ) (o : Option String)
    → within 30_000 (timestamp_skew cfg now o) ≡ true
    → (timestamp : String) × (skew : ℕ) × (o ≡ some timestamp)
      × (cfg.skew now timestamp ≡ some skew)
      × (skew ≤ 30_000)
skew_of cfg now none h = cc
skew_of cfg now (some timestamp) h = go (cfg.skew now timestamp) refl h
  where
    go :
        (d : Option ℕ)
        → cfg.skew now timestamp ≡ d
        → within 30_000 d ≡ true
        → (t : String) × (skew : ℕ) × (some timestamp ≡ some t)
          × (cfg.skew now t ≡ some skew)
          × (skew ≤ 30_000)
    go none e h = cc
    go (some d) e h = (timestamp, d, refl, e, at_most h)

module _ (cfg : Settings) where
  proof_of :
      (token : String) (claims : WorkloadClaims) (input : VerifyCredential) (proof : String)
      → input.proof ≡ some proof
      → is_proof cfg token claims input ≡ true
      → (key : String) × (signature : String) × (others : List String) × (split_dots proof
          ≡ List.◌∷◌ key (List.◌∷◌ signature others))
        × (key ≢ "")
        × (cfg.proof_key_hash key ≡ claims.proof_key_hash)
        × (signature ≡ cfg.hmac key (proof_message token input))
  unfolding is_proof
  proof_of token claims input proof e h = go (proof_parts (split_dots proof)) refl (rw e at h)
    where
      go :
          (o : Option (String × String))
          → proof_parts (split_dots proof) ≡ o
          → elim o [
            | none ↦ false
            | some (key, signature) ↦
                str_eq (cfg.proof_key_hash key) claims.proof_key_hash
                && str_eq signature (cfg.hmac key (proof_message token input))
          ]
            ≡ true
          → (key : String) × (signature : String) × (others : List String) × (split_dots proof
              ≡ List.◌∷◌ key (List.◌∷◌ signature others))
            × (key ≢ "")
            × (cfg.proof_key_hash key ≡ claims.proof_key_hash)
            × (signature ≡ cfg.hmac key (proof_message token input))
      go none e h = cc
      go (some (key, signature)) e h =
          let (others, split, full) = proof_parts_given (split_dots proof) key signature e in
          let (own, signed) = both_of h in
          (key, signature, others, split, full, same_text own, same_text signed)

  pub is_proof-IsProved :
      (token : String) (claims : WorkloadClaims) (input : VerifyCredential)
      → has_proof cfg input ≡ true
      → is_proof cfg token claims input ≡ true
      → (nonce : String) × IsProved cfg input token claims nonce
  unfolding has_proof
  is_proof-IsProved token claims input h k =
      let (h₁, with_proof) = both_of h in
      let (h₂, recent) = both_of h₁ in
      let (with_nonce, short) = both_of h₂ in
      let (nonce, by_nonce, nonce_given) = given input.nonce with_nonce in
      let (timestamp, skew, by_timestamp, apart, near) =
        skew_of cfg input.now input.timestamp recent in
      let (proof, by_proof, _) = given input.proof with_proof in
      let (key, signature, others, split, key_given, own_key, signed) =
        proof_of token claims input proof by_proof k in
      (
        nonce,
        record {
          by_nonce = by_nonce;
          nonce_given = nonce_given;
          nonce_short =
              subst (λ (o : Option String). utf16_length (text_of o) ≤ 128) by_nonce
                (at_most short);
          timestamp = timestamp;
          by_timestamp = by_timestamp;
          skew = skew;
          apart = apart;
          recent = near;
          proof = proof;
          by_proof = by_proof;
          key = key;
          signature = signature;
          others = others;
          split = split;
          key_given = key_given;
          own_key = own_key;
          signed = rw (by_timestamp, by_nonce) at signed;
        },
      )
