-- ===== src/Authz/Workload/Replay.antt =====
-- Revoked credentials and used nonces under sequences of calls.
use text.Mathlib.TextEquality.{eq_iff}
use perseverance.Prelude.{
  ℕ, String, ◌≡◌, refl, sym, ap, subst, ◌∙◌, Bool, true, false, ◌&&◌, not, some, List, [], ◌∷◌,
  arith, ltb, leb, is_some, filter, contains, str_eq, inl, inr, Bool-cases, ◌<◌,
}
use perseverance.Prelude.Map.{Map, get, set, get-set, get-set_self}
use perseverance.Prelude.Exec.{Result, ok, modify, pure, require, ◌>>=◌}
use perseverance.Prelude.Exec.Keeps.{
  the, Keeps, bind-Keeps, pure-Keeps, gets-Keeps, require-Keeps, Stateless, bind-Stateless,
  require-Stateless, or_throw-Stateless,
}
use perseverance.Authz.Types.{
  AuthError, workload_replay_rejected, workload_proof_invalid, Principal, parse_principal,
}
use perseverance.Authz.Workload.{
  Settings, Checked, Authority, WorkloadClaims, IssueCredential, VerifyCredential, replay_key,
  purge, store_nonce, is_accepted, is_proof, issue, revoke, read_token, spend_nonce, verify,
}
use perseverance.Authz.Workload.Passed.{read_token-Keeps, verify-IsPassed}

pub data AuthorityCall : Type 0 where
  issues : IssueCredential → AuthorityCall
  revokes : String → AuthorityCall
  verifies : VerifyCredential → AuthorityCall

-- No `verify` of the list is called later than `limit`.
abbrev pub until : ℕ → List AuthorityCall → Bool
until limit [] = true
until limit (verifies input ∷ cs) = leb input.now limit && until limit cs
until limit (_ ∷ cs) = until limit cs

abbrev until_one : ℕ → AuthorityCall → Bool
until_one end (verifies input) = ltb input.now end
until_one end _ = true

rest_early :
    (limit : ℕ) (c : AuthorityCall) (cs : List AuthorityCall)
    → until limit (c ∷ cs) ≡ true
    → until limit cs ≡ true
rest_early limit (issues input) cs e = e
rest_early limit (revokes id) cs e = e
rest_early limit (verifies input) cs e = ground arith

first_early :
    (limit end : ℕ) (c : AuthorityCall) (cs : List AuthorityCall)
    → limit < end
    → until limit (c ∷ cs) ≡ true
    → until_one end c ≡ true
first_early limit end (issues input) cs below e = refl
first_early limit end (revokes id) cs below e = refl
first_early limit end (verifies input) cs below e = ground arith

abbrev pub IsRevoked : String → Authority → Type 0
IsRevoked id s = contains id s.revoked ≡ true

-- The key is bound to the end of its credential.
abbrev pub Bound : String → ℕ → Authority → Type 0
Bound key end s = get key s.nonces ≡ some end

get-purged :
    (now : ℕ) (key : String) (m : Map ℕ) (end : ℕ)
    → get key m ≡ some end
    → ltb now end ≡ true
    → get key (filter (λ (e : String × ℕ). ltb now e.1) m) ≡ some end
unfolding get
get-purged now key [] end h later = h
get-purged now key ((k, v) ∷ m) end h later = ground (arith, get-purged now key m end)

used_key :
    (key other : String) (end v : ℕ) (m : Map ℕ)
    → get key m ≡ some end
    → is_some (get other m) ≡ false
    → get key (set other v m) ≡ some end
used_key key other end v m h free = elim (Bool-cases (str_eq other key)) [
  | inl same ↦ cc (free, ap (λ o. is_some (get o m)) ((eq_iff other key).0 same), ap is_some h)
  | inr differ ↦ rw get-set (rw differ h)
]

abbrev read_result : String × WorkloadClaims → Result AuthError (String × WorkloadClaims)
read_result r = ok r

of_read : {r r' : String × WorkloadClaims} → read_result r ≡ read_result r' → r ≡ r'
of_read h = cc

module _ (cfg : Settings) where
  unfoldable pub step : Authority → AuthorityCall → Authority
  step s (issues input) = (issue cfg input s).1
  step s (revokes id) = (revoke cfg id s).1
  step s (verifies input) = (verify cfg input s).1

  unfoldable pub run : Authority → List AuthorityCall → Authority
  run s [] = s
  run s (c ∷ cs) = run (step s c) cs

  module _ (P : Authority → Type 0) where
    parse-Keeps : (p : Principal) → Keeps P (parse_principal p)
    unfolding parse_principal
    parse-Keeps p = bind-Keeps P _ _ (require-Keeps P _ _) (λ _. pure-Keeps AuthError P p)

    verify-Keeps :
        (input : VerifyCredential)
        → ((token : String) (claims : WorkloadClaims)
            → Keeps P (spend_nonce cfg input token claims))
        → Keeps P (verify cfg input)
    unfolding verify
    verify-Keeps input spends = bind-Keeps P _ _ (read_token-Keeps cfg P input) (λ read.
        bind-Keeps P _ _ (gets-Keeps AuthError P _) (λ _.
          bind-Keeps P _ _ (require-Keeps P _ _) (λ _. bind-Keeps P _ _ (require-Keeps P _ _) (λ _.
            bind-Keeps P _ _ (require-Keeps P _ _)
              (λ _. bind-Keeps P _ _ (spends read.0 read.1) (λ _. parse-Keeps _))))))

  stores_if_fresh :
      (used proved : Bool) (e e' : AuthError) (f : Authority → Authority) (P : Authority → Type 0)
      (s : Authority)
      → P s
      → (used ≡ false → P (f s))
      → P
          ((require (not used) e >>= λ _.
              require proved e' >>= λ _. the (Checked (Unit {0})) (modify f))
            s).1
  unfolding ◌>>=◌
  stores_if_fresh true proved e e' f P s h stored = h
  stores_if_fresh false true e e' f P s h stored = stored refl
  stores_if_fresh false false e e' f P s h stored = h

  passes_or_stays :
      {A : Type 0} (P : Authority → Type 0) (b : Bool) (e : AuthError) (k : Unit {0} → Checked A)
      (s : Authority)
      → P s
      → P (k tt s).1
      → P ((require b e >>= k) s).1
  unfolding ◌>>=◌
  passes_or_stays P true e k s p q = q
  passes_or_stays P false e k s p q = p

  spend_nonce-Bound :
      (key : String) (end : ℕ) (input : VerifyCredential)
      → ltb input.now end ≡ true
      → (token : String) (claims : WorkloadClaims)
      → Keeps (Bound key end) (spend_nonce cfg input token claims)
  unfolding spend_nonce ◌>>=◌
  spend_nonce-Bound key end input later token claims s h =
      let other = replay_key claims input.nonce in
      let kept = get-purged input.now key s.nonces end h later in
      stores_if_fresh (is_some (get other (purge input.now s).nonces))
        (is_proof cfg token claims input) workload_replay_rejected workload_proof_invalid
        (store_nonce other claims.expires_at) (Bound key end) (purge input.now s) kept
        (used_key key other end claims.expires_at _ kept)

  step-Bound :
      (key : String) (end : ℕ) (s : Authority) (c : AuthorityCall)
      → until_one end c ≡ true
      → Bound key end s
      → Bound key end (step s c)
  unfolding step issue revoke modify pure
  step-Bound key end s (issues input) early h = passes_or_stays (Bound key end) _ _ _ s h h
  step-Bound key end s (revokes id) early h = h
  step-Bound key end s (verifies input) early h =
      verify-Keeps (Bound key end) input (spend_nonce-Bound key end input early) s h

  run-Bound :
      (key : String) (end limit : ℕ) (s : Authority) (cs : List AuthorityCall)
      → limit < end
      → until limit cs ≡ true
      → Bound key end s
      → Bound key end (run s cs)
  unfolding run
  run-Bound key end limit s [] below early h = h
  run-Bound key end limit s (c ∷ cs) below early h =
      run-Bound key end limit (step s c) cs below (rest_early limit c cs early)
        (step-Bound key end s c (first_early limit end c cs below early) h)

  IsRevoked-Keeps :
      (id : String) (input : VerifyCredential) (token : String) (claims : WorkloadClaims)
      → Keeps (IsRevoked id) (spend_nonce cfg input token claims)
  unfolding spend_nonce ◌>>=◌
  IsRevoked-Keeps id input token claims s h =
      stores_if_fresh (is_some (get (replay_key claims input.nonce) (purge input.now s).nonces))
        (is_proof cfg token claims input) workload_replay_rejected workload_proof_invalid
        (store_nonce (replay_key claims input.nonce) claims.expires_at) (IsRevoked id)
        (purge input.now s) h (λ _. h)

  step-IsRevoked :
      (id : String) (s : Authority) (c : AuthorityCall) → IsRevoked id s → IsRevoked id (step s c)
  unfolding step issue revoke modify pure
  step-IsRevoked id s (issues input) h = passes_or_stays (IsRevoked id) _ _ _ s h h
  step-IsRevoked id s (revokes other) h = ground (arith, h)
  step-IsRevoked id s (verifies input) h =
      verify-Keeps (IsRevoked id) input (IsRevoked-Keeps id input) s h

  run-IsRevoked :
      (id : String) (s : Authority) (cs : List AuthorityCall)
      → IsRevoked id s
      → IsRevoked id (run s cs)
  unfolding run
  run-IsRevoked id s [] h = h
  run-IsRevoked id s (c ∷ cs) h = run-IsRevoked id (step s c) cs (step-IsRevoked id s c h)

  read_same :
      (input again : VerifyCredential)
      → again.authorization ≡ input.authorization
      → (s : Authority) → read_token cfg again s ≡ read_token cfg input s
  unfolding read_token
  read_same input again e s = rw e refl

  read_token-Stateless : (input : VerifyCredential) → Stateless (read_token cfg input)
  unfolding read_token pure
  read_token-Stateless input = bind-Stateless _ _ (or_throw-Stateless Authority _ _) (λ token.
      bind-Stateless _ _ (or_throw-Stateless Authority _ _) (λ parts.
        bind-Stateless _ _ (require-Stateless Authority _ _) (λ _.
          bind-Stateless _ _ (or_throw-Stateless Authority _ _)
            (λ claims. (ok (token, claims), λ s. refl)))))

  -- Two calls with the same credential read the same claims.
  same_claims :
      (input again : VerifyCredential) (s u : Authority) (read read' : String × WorkloadClaims)
      → again.authorization ≡ input.authorization
      → read_token cfg input s ≡ (ok read, s)
      → read_token cfg again u ≡ (ok read', u)
      → read' ≡ read
  same_claims input again s u read read' e h h' =
      let (r, same) = read_token-Stateless input in
      of_read (
        sym (ap (λ q. q.0) h')
        ∙ ap (λ q. q.0) (read_same input again e u ∙ same u)
        ∙ sym (ap (λ q. q.0) (same s))
        ∙ ap (λ q. q.0) h)

  not_expired :
      (claims : WorkloadClaims) (now : ℕ) (revoked : List String)
      → is_accepted cfg claims now revoked ≡ true
      → now < claims.expires_at
  unfolding is_accepted
  not_expired claims now revoked e = ground (arith, e)

  not_revoked :
      (claims : WorkloadClaims) (now : ℕ) (revoked : List String)
      → is_accepted cfg claims now revoked ≡ true
      → contains claims.jti revoked ≡ false
  unfolding is_accepted
  not_revoked claims now revoked e = ground (arith, e)

-- A credential whose identifier is revoked at some moment gets no answer from `verify` after any
-- further calls of the authority.
pub revoked_refused :
    (cfg : Settings) (s : Authority) (input : VerifyCredential) (cs : List AuthorityCall)
    (token : String) (claims : WorkloadClaims) (p : Principal) (t : Authority)
    → read_token cfg input s ≡ (ok (token, claims), s)
    → IsRevoked claims.jti s
    → ¬ (verify cfg input (run cfg s cs) ≡ (ok p, t))
revoked_refused cfg s input cs token claims p t read h h' =
    let found = verify-IsPassed cfg input (run cfg s cs) p t h' in
    let same : found.claims ≡ claims =
      ap (λ (r : String × WorkloadClaims). r.1)
        (same_claims cfg input input s (run cfg s cs) _ _ refl read found.read) in
    let live = not_revoked cfg found.claims input.now _ found.accepted in
    cc (live, same, run-IsRevoked cfg claims.jti s cs h)

-- A nonce is used once per credential: after `verify` has answered a call, it answers no call that
-- carries the same credential and the same nonce, whatever calls of the authority lie between, if no
-- `verify` between is called at a later time than the second call.
pub nonce_used_once :
    (cfg : Settings) (s : Authority) (input again : VerifyCredential) (cs : List AuthorityCall)
    (p p' : Principal) (t t' : Authority)
    → verify cfg input s ≡ (ok p, t)
    → again.authorization ≡ input.authorization
    → again.nonce ≡ input.nonce
    → until again.now cs ≡ true
    → ¬ (verify cfg again (run cfg t cs) ≡ (ok p', t'))
nonce_used_once cfg s input again cs p p' t t' h same_token same_nonce early h' =
    let first = verify-IsPassed cfg input s p t h in
    let second = verify-IsPassed cfg again (run cfg t cs) p' t' h' in
    let same : second.claims ≡ first.claims =
      ap (λ (r : String × WorkloadClaims). r.1)
        (same_claims cfg input again s (run cfg t cs) _ _ same_token first.read second.read) in
    let key = replay_key first.claims input.nonce in
    let later : again.now < first.claims.expires_at =
      subst (λ (c : WorkloadClaims). again.now < c.expires_at) same
        (not_expired cfg second.claims again.now _ second.accepted) in
    let bound : Bound key first.claims.expires_at t =
      subst (Bound key first.claims.expires_at) (sym first.stored)
        (get-set_self key first.claims.expires_at _) in
    let kept =
      get-purged again.now key _ _
        (run-Bound cfg key first.claims.expires_at again.now t cs later early bound)
        (ground (arith, later)) in
    cc (second.unused, same, same_nonce, kept)
