-- ===== src/Authz/Workload/Passed.antt =====
-- The tests of `CorpusWorkloadCredentialAuthority.verify` that an answer has passed, as the code
-- groups them.
use perseverance.Prelude.{
  String, ◌≡◌, refl, sym, ap, subst, ◌∙◌, true, false, arith, is_some, Bool, not,
}
use perseverance.Prelude.Map.{get}
use perseverance.Prelude.Exec.{
  Result, ok, modify, pure, bind_returns, gets_returns, require_returns, modify_returns, ◌>>=◌,
}
use perseverance.Prelude.Exec.Keeps.{Keeps, bind-Keeps, pure-Keeps, or_throw-Keeps, require-Keeps}
use perseverance.Authz.Types.{AuthError, Principal, parse_principal}
use perseverance.Authz.Workload.{
  Settings, Checked, Authority, WorkloadClaims, VerifyCredential, replay_key, purge, store_nonce,
  is_accepted, in_credential_scope, has_proof, is_proof, read_token, workload_principal,
  spend_nonce, verify,
}

abbrev Answer : Type 0
Answer = Result AuthError Principal

abbrev answered : Principal → Answer
answered p = ok p

of_ok : {a b : Principal} → answered a ≡ answered b → a ≡ b
of_ok h = cc

module _ (cfg : Settings) where
  -- The tests behind an answer in the authority `s`, which `t` comes after.
  pub record IsPassed (input : VerifyCredential) (s t : Authority) (p : Principal) : Type 0 where
    pub token : String
    pub claims : WorkloadClaims
    pub read : read_token cfg input s ≡ (ok (token, claims), s)
    pub accepted : is_accepted cfg claims input.now s.revoked ≡ true
    pub scoped : in_credential_scope cfg claims input ≡ true
    pub proof_given : has_proof cfg input ≡ true
    pub unused : is_some (get (replay_key claims input.nonce) (purge input.now s).nonces) ≡ false
    pub proved : is_proof cfg token claims input ≡ true
    pub answer : p ≡ workload_principal cfg claims
    pub stored :
        t ≡ store_nonce (replay_key claims input.nonce) claims.expires_at (purge input.now s)

  pub read_token-Keeps :
      (P : Authority → Type 0) (input : VerifyCredential) → Keeps P (read_token cfg input)
  unfolding read_token
  read_token-Keeps P input = bind-Keeps P _ _ (or_throw-Keeps P _ _) (λ token.
      bind-Keeps P _ _ (or_throw-Keeps P _ _) (λ parts.
        bind-Keeps P _ _ (require-Keeps P _ _)
          (λ _. bind-Keeps P _ _ (or_throw-Keeps P _ _) (λ claims. pure-Keeps AuthError P _))))

  false_of : (b : Bool) → not b ≡ true → b ≡ false
  false_of b e = ground arith

  spend_nonce_returns :
      (input : VerifyCredential) (token : String) (claims : WorkloadClaims) (s : Authority)
      (a : Unit {0}) (t : Authority)
      → spend_nonce cfg input token claims s ≡ (ok a, t)
      → (is_some (get (replay_key claims input.nonce) (purge input.now s).nonces) ≡ false)
        × (is_proof cfg token claims input ≡ true)
        × (t ≡ store_nonce (replay_key claims input.nonce) claims.expires_at (purge input.now s))
  unfolding spend_nonce modify
  spend_nonce_returns input token claims s a t h =
      let h₁ = modify_returns _ _ _ h in
      let h₂ = gets_returns _ _ _ h₁ in
      let (unused, h₃) = require_returns _ _ _ _ h₂ in
      let (proved, h₄) = require_returns _ _ _ _ h₃ in
      (false_of _ unused, proved, sym (ap (λ p. p.1) h₄))

  read_token_passes :
      (input : VerifyCredential) (k : String × WorkloadClaims → Checked Principal) (s : Authority)
      {p : Principal} {t : Authority}
      → (read_token cfg input >>= k) s ≡ (ok p, t)
      → (read : String × WorkloadClaims) × (read_token cfg input s ≡ (ok read, s))
        × (k read s ≡ (ok p, t))
  read_token_passes input k s {p = p} {t = t} h =
      let (read, at, h₁) = bind_returns (read_token cfg input) k s h in
      let same = read_token-Keeps (λ u. u ≡ s) input s refl in
      (
        read,
        at ∙ ap (λ (u : Authority). (ok read, u)) same,
        subst (λ (u : Authority). k read u ≡ (ok p, t)) same h₁,
      )

  pub verify-IsPassed :
      (input : VerifyCredential) (s : Authority) (p : Principal) (t : Authority)
      → verify cfg input s ≡ (ok p, t)
      → IsPassed input s t p
  unfolding verify parse_principal pure
  verify-IsPassed input s p t h =
      let (read, at, h₁) = read_token_passes input _ s h in
      let (accepted, h₂) = require_returns _ _ _ _ (gets_returns _ _ _ h₁) in
      let (scoped, h₃) = require_returns _ _ _ _ h₂ in
      let (given, h₄) = require_returns _ _ _ _ h₃ in
      let (a, spent, h₅) = bind_returns (spend_nonce cfg input read.0 read.1) _ _ h₄ in
      let (_, h₆) = require_returns _ _ _ _ h₅ in
      let (unused, proved, stored) = spend_nonce_returns input read.0 read.1 _ a _ spent in
      record {
        token = read.0;
        claims = read.1;
        read = at;
        accepted = accepted;
        scoped = scoped;
        proof_given = given;
        unused = unused;
        proved = proved;
        answer = sym (of_ok (ap (λ p. p.0) h₆));
        stored = sym (ap (λ p. p.1) h₆) ∙ stored;
      }
