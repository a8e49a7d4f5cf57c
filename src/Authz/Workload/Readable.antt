-- ===== src/Authz/Workload/Readable.antt =====
-- The token that `verify` of packages/authz/src/index.ts reads.
use Prim.Native.Char.{code}
use Prim.Native.String.{[], ◌∷◌, ◌++◌ as str_append}
use text.Mathlib.TextEquality.{Char-path}
use text.Mathlib.TextLemmas.{nil-append, cons-append}
use perseverance.Prelude.{
  String, ◌≡◌, ◌≢◌, refl, sym, ap, subst, ◌∙◌, Bool, false, ◌||◌, Option, none, some, List, arith,
  ◌==◌, inl, inr, Bool-cases, same_text, same_number, of_some,
}
use perseverance.Prelude.Text.{is_empty, strip_prefix, has_space, split_dots}
use perseverance.Prelude.Exec.{ok, Result, pure, or_throw_returns, require_returns}
use perseverance.Authz.Types.{AuthError}
use perseverance.Authz.Workload.{
  Settings, Authority, WorkloadClaims, VerifyCredential, bearer_rest, bearer_token, parts_of,
  read_token,
}

-- The header is `Bearer ` with the token, which has three parts between dots, and more that are not
-- read; the second is the payload of the claims, the third its signature.
pub record IsReadable (cfg : Settings) (input : VerifyCredential) (token : String)
    (claims : WorkloadClaims) : Type 0 where
  pub rest : String
  pub by_header : input.authorization ≡ some (str_append "Bearer pcw1." rest)
  pub is_token : token ≡ str_append "pcw1." rest
  pub rest_given : rest ≢ ""
  pub no_space : has_space rest ≡ false
  pub head : String
  pub payload : String
  pub signature : String
  pub others : List String
  pub split : split_dots token ≡ List.◌∷◌ head (List.◌∷◌ payload (List.◌∷◌ signature others))
  pub payload_given : payload ≢ ""
  pub signed : signature ≡ cfg.hmac cfg.signing_key payload
  pub decoded : cfg.decode payload ≡ some claims

stripped : (p s r : String) → strip_prefix p s ≡ some r → s ≡ str_append p r
stripped [] s r h = of_some h ∙ sym (nil-append r)
stripped (c ∷ p) [] r h = cc
stripped (c ∷ p) (d ∷ s) r h = elim (Bool-cases (code c == code d)) [
  | inl b ↦
      let same = Char-path d c (sym (same_number b)) in
      ap (λ x. x ∷ s) same ∙ ap (λ x. c ∷ x) (stripped p s r (rw b at h)) ∙ sym (cons-append c p r)
  | inr b ↦ cc (rw b at h)
]

pub filled : (x : String) → is_empty x ≡ false → x ≢ ""
filled [] h e = cc
filled (c ∷ x) h e = cc

pub neither : (a b : Bool) → (a || b) ≡ false → (a ≡ false) × (b ≡ false)
neither a b h = (ground arith, ground arith)

header_of :
    (o : Option String) (token : String)
    → bearer_token o ≡ some token
    → (rest : String) × (o ≡ some (str_append "Bearer pcw1." rest))
      × (token ≡ str_append "pcw1." rest)
      × (rest ≢ "")
      × (has_space rest ≡ false)
header_of none token h = cc
header_of (some header) token h = go (strip_prefix "Bearer pcw1." header) refl h
  where
    go :
        (o : Option String)
        → strip_prefix "Bearer pcw1." header ≡ o
        → bearer_rest o ≡ some token
        → (rest : String) × (some header ≡ some (str_append "Bearer pcw1." rest))
          × (token ≡ str_append "pcw1." rest)
          × (rest ≢ "")
          × (has_space rest ≡ false)
    go none e h = cc
    go (some rest) e h = elim (Bool-cases (is_empty rest || has_space rest)) [
      | inl b ↦ cc (rw b at h)
      | inr b ↦
          let (full, close) = neither (is_empty rest) (has_space rest) b in
          (
            rest,
            ap some (stripped "Bearer pcw1." header rest e),
            sym (of_some (rw b at h)),
            filled rest full,
            close,
          )
    ]

parts_given :
    (parts : List String) (payload signature : String)
    → parts_of parts ≡ some (payload, signature)
    → (head : String) × (others : List String) × (parts
        ≡ List.◌∷◌ head (List.◌∷◌ payload (List.◌∷◌ signature others)))
      × (payload ≢ "")
parts_given List.[] payload signature h = cc
parts_given (List.◌∷◌ a List.[]) payload signature h = cc
parts_given (List.◌∷◌ a (List.◌∷◌ b List.[])) payload signature h = cc
parts_given (List.◌∷◌ a (List.◌∷◌ b (List.◌∷◌ c others))) payload signature h =
    elim (Bool-cases (is_empty b || is_empty c)) [
      | inl e ↦ cc (rw e at h)
      | inr e ↦
          let same = of_some (rw e at h) in
          let first : b ≡ payload = ap (λ p. p.0) same in
          let second : c ≡ signature = ap (λ p. p.1) same in
          (
            a,
            others,
            ap (λ (p : String × String). List.◌∷◌ a (List.◌∷◌ p.0 (List.◌∷◌ p.1 others))) same,
            subst (λ x. x ≢ "") first (filled b (neither (is_empty b) (is_empty c) e).0),
          )
    ]

module _ (cfg : Settings) where
  abbrev Read : Type 0
  Read = Result AuthError (String × WorkloadClaims)

  abbrev read_result : String × WorkloadClaims → Read
  read_result r = ok r

  ok_of : {a b : String × WorkloadClaims} → read_result a ≡ read_result b → a ≡ b
  ok_of h = cc

  pub read_token-IsReadable :
      (input : VerifyCredential) (s : Authority) (token : String) (claims : WorkloadClaims)
      → read_token cfg input s ≡ (ok (token, claims), s)
      → IsReadable cfg input token claims
  unfolding read_token pure
  read_token-IsReadable input s token claims h =
      let (found, by_header, h₁) = or_throw_returns _ _ _ _ h in
      let (parts, split, h₂) = or_throw_returns _ _ _ _ h₁ in
      let (signed, h₃) = require_returns _ _ _ _ h₂ in
      let (decoded, by_payload, h₄) = or_throw_returns _ _ _ _ h₃ in
      let same = ok_of (ap (λ p. p.0) h₄) in
      let (rest, header, is_token, full, close) = header_of input.authorization found by_header in
      let (head, others, three, filled_payload) =
        parts_given (split_dots found) parts.0 parts.1 split in
      let same_token : found ≡ token = ap (λ r. r.0) same in
      record {
        rest = rest;
        by_header = header;
        is_token = sym same_token ∙ is_token;
        rest_given = full;
        no_space = close;
        head = head;
        payload = parts.0;
        signature = parts.1;
        others = others;
        split = ap split_dots (sym same_token) ∙ three;
        payload_given = filled_payload;
        signed = same_text signed;
        decoded = by_payload ∙ ap (λ r. some r.1) same;
      }
