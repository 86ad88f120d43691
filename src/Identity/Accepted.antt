-- ===== src/Identity/Accepted.antt =====
-- run_identity.py: what a request that resumes must have shown.
use Prim.Native.String.{◌++◌}
use langchain_langraph_app_l.Prelude.{
  ℕ, ◌<◌, ◌≡◌, ◌⊎◌, inl, inr, refl, String, [], ◌∷◌, Bool, true, false, not, ◌&&◌, ◌||◌, ◌==◌, leb,
  Option, none, some, str_eq, eq_iff, arith, if◌then◌else◌, Result, ok, err, Option-cases,
  Bool-cases, Result-cases,
}
use langchain_langraph_app_l.Prelude.Dict.{Dict, lookup}
use langchain_langraph_app_l.Identity.{
  Claims, Token, Primitives, Service, Request, Identity, IdentityError, token_invalid,
  token_expired, incompatible_state, text_or, is_given, number_or, text_claim, signing_key,
  candidates, verified, decode_token, identity_of, all_given, check_claims, identity_from_token,
  normalize,
}

-- The pair is in the dictionary.
abbrev pub IsIn : String → String → Dict String → Type 0
IsIn k v [] = ⊥
IsIn k v ((j, w) ∷ d) = ((j ≡ k) × (w ≡ v)) ⊎ IsIn k v d

-- The token is signed by a key of the service, and its claims are read from its payload.
pub record IsSigned (lib : Primitives) (service : Service) (token : Option Token) (claims : Claims)
    (key_id : String) : Type 0 where
  pub sent : Token
  pub is_sent : token ≡ some sent
  pub raw : String
  pub payload : lib.b64decode sent.encoded_payload ≡ some raw
  pub json : lib.loads raw ≡ some claims
  pub secret : String
  pub key : IsIn key_id secret service.keys
  pub signature :
      lib.b64decode sent.encoded_signature ≡ some (lib.digest secret sent.encoded_payload)

-- The claims fit the request, the service and the time.
pub record IsFitting (service : Service) (request : Request) (now : ℕ) (claims : Claims)
    : Type 0 where
  pub unexpired : now < number_or claims.exp 0
  pub schema : number_or claims.state_schema_version 0 ≡ service.state_schema_version
  pub thread :
      text_claim claims.execution_thread_id
      ≡ text_claim claims.conversation_id ++ ":" ++ text_claim claims.run_id
  pub namespace : text_claim claims.checkpoint_namespace ≡ service.checkpoint_namespace
  pub hash :
      ((number_or claims.v 0 ≡ 2) × (text_claim claims.request_hash ≡ request.request_hash))
      ⊎ ((number_or claims.v 0 ≡ 1)
          × (text_claim claims.request_hash ≡ request.legacy_request_hash))
  pub conversation :
      (text_or request.conversation_id request.thread_id ≡ "")
      ⊎ (text_or request.conversation_id request.thread_id ≡ text_claim claims.conversation_id)
  pub run : (request.run_id ≡ "") ⊎ (request.run_id ≡ text_claim claims.run_id)

lookup-IsIn : (k v : String) (d : Dict String) → lookup k d ≡ some v → IsIn k v d
unfolding lookup
lookup-IsIn k v [] h = absurd (ground (arith, h))
lookup-IsIn k v ((j, w) ∷ d) h = elim (Bool-cases (str_eq j k)) [
  | inl e ↦ inl ((eq_iff j k).0 e, ground (arith, h, e))
  | inr e ↦ inr (lookup-IsIn k v d (ground (arith, h, e)))
]

signing_key-IsIn :
    (lib : Primitives) (payload signature : String) (d : Dict String) (key_id : String)
    → signing_key lib payload signature d ≡ some key_id
    → (secret : String) × IsIn key_id secret d × (lib.digest secret payload ≡ signature)
unfolding signing_key
signing_key-IsIn lib payload signature [] key_id h = absurd (ground (arith, h))
signing_key-IsIn lib payload signature ((k, secret) ∷ d) key_id h =
    elim (Bool-cases (str_eq (lib.digest secret payload) signature)) [
      | inl e ↦ (
        secret,
        inl (ground (arith, h, e), refl),
        (eq_iff (lib.digest secret payload) signature).0 e,
      )
      | inr e ↦
          let (found, member, same) =
            signing_key-IsIn lib payload signature d key_id (ground (arith, h, e)) in
          (found, inr member, same)
    ]

one-IsIn :
    (j w k v : String) (d : Dict String) → lookup j d ≡ some w → IsIn k v ((j, w) ∷ []) → IsIn k v d
one-IsIn j w k v d e (inl (p, q)) = rw⁻¹ (p, q) (lookup-IsIn j w d e)
one-IsIn j w k v d e (inr h) = absurd h

candidates-IsIn :
    (service : Service) (key_id k v : String)
    → IsIn k v (candidates service key_id)
    → IsIn k v service.keys
candidates-IsIn service key_id k v h = elim (Option-cases (lookup key_id service.keys)) [
  | inl e ↦ ground (arith, h, e)
  | inr (secret, e) ↦ one-IsIn key_id secret k v service.keys e (rw (e, candidates) at h)
]

decoded-IsSigned :
    (lib : Primitives) (service : Service) (token : Token) (claims given : Claims)
    (key_id raw signature : String)
    → lib.b64decode token.encoded_payload ≡ some raw
    → lib.b64decode token.encoded_signature ≡ some signature
    → lib.loads raw ≡ some given
    → verified lib service token.encoded_payload signature given ≡ ok (claims, key_id)
    → IsSigned lib service (some token) claims key_id
decoded-IsSigned lib service token claims given key_id raw signature e e' j h =
    let keys = candidates service (text_claim given.kid) in
    elim (Option-cases (signing_key lib token.encoded_payload signature keys)) [
      | inl q ↦ absurd (ground (arith, h, q))
      | inr (found, q) ↦
          let (secret, member, same) =
            signing_key-IsIn lib token.encoded_payload signature keys found q in
          let one : found ≡ key_id = ground (arith, h, q) in
          record {
            sent = token;
            is_sent = refl;
            raw = raw;
            payload = e;
            json = ground (arith, j, h, q);
            secret = secret;
            key = rw one at (candidates-IsIn service (text_claim given.kid) found secret member);
            signature = ground (arith, e', same);
          }
    ]

decode_token-IsSigned :
    (lib : Primitives) (service : Service) (token : Option Token) (claims : Claims)
    (key_id : String)
    → decode_token lib service token ≡ ok (claims, key_id)
    → IsSigned lib service token claims key_id
unfolding decode_token
decode_token-IsSigned lib service none claims key_id h = absurd (ground (arith, h))
decode_token-IsSigned lib service (some token) claims key_id h =
    elim (Option-cases (lib.b64decode token.encoded_payload)) [
      | inl e ↦ absurd (ground (arith, h, e))
      | inr (raw, e) ↦ elim (Option-cases (lib.b64decode token.encoded_signature)) [
        | inl e' ↦ absurd (ground (arith, h, e, e'))
        | inr (signature, e') ↦ elim (Option-cases (lib.loads raw)) [
          | inl j ↦ absurd (ground (arith, h, e, e', j))
          | inr (given, j) ↦
              decoded-IsSigned lib service token claims given key_id raw signature e e' j
                (ground (arith, h, e, e', j))
        ]
      ]
    ]

-- A guard that raises was passed.
guard-ok :
    {A : Type 0} {E : Type 0} (b : Bool) (e : E) (rest : Result E A) (a : A)
    → (if b then err e else rest) ≡ ok a
    → (b ≡ false) × (rest ≡ ok a)
guard-ok true e rest a h = absurd (ground (arith, h))
guard-ok false e rest a h = (refl, h)

ok-same : (a b : Identity) → ◌≡◌ {A = Result IdentityError Identity} (ok a) (ok b) → b ≡ a
ok-same a b h = ground (arith, h)

text-same : (a b : String) → not (str_eq a b) ≡ false → a ≡ b
text-same a b h = ground (arith, h, eq_iff a b)

text-passes :
    (supplied right : String)
    → (is_given supplied && not (str_eq supplied right)) ≡ false
    → (supplied ≡ "") ⊎ (supplied ≡ right)
text-passes supplied right h = elim (Bool-cases (str_eq supplied "")) [
  | inl e ↦ inl ((eq_iff supplied "").0 e)
  | inr e ↦ inr (text-same supplied right (ground (arith, h, e)))
]

hash-passes :
    (v : ℕ) (hash legacy current : String)
    → not (v == 1 || v == 2) ≡ false
    → not (str_eq hash (if v == 1 then legacy else current)) ≡ false
    → ((v ≡ 2) × (hash ≡ current)) ⊎ ((v ≡ 1) × (hash ≡ legacy))
hash-passes v hash legacy current h k = elim (Bool-cases (v == 1)) [
  | inl e ↦ inr (ground (arith, e), text-same hash legacy (ground (arith, k, e)))
  | inr e ↦ inl (ground (arith, h, e), text-same hash current (ground (arith, k, e)))
]

number-same : (a b : ℕ) → not (a == b) ≡ false → a ≡ b
number-same a b h = ground (arith, h)

later : (t now : ℕ) → leb t now ≡ false → now < t
later t now h = ground (arith, h)

check_claims-IsFitting :
    (lib : Primitives) (service : Service) (request : Request) (now : ℕ) (claims : Claims)
    (key_id : String) (identity : Identity)
    → check_claims lib service request now claims key_id ≡ ok identity
    → IsFitting service request now claims × (identity ≡ identity_of service request claims key_id)
unfolding check_claims
check_claims-IsFitting lib service request now claims key_id identity h =
    let joined = text_claim claims.conversation_id ++ ":" ++ text_claim claims.run_id in
    let v = number_or claims.v 0 in
    let supplied = text_or request.conversation_id request.thread_id in
    let current = if v == 1 then request.legacy_request_hash else request.request_hash in
    let (known, h1) = guard-ok (not (v == 1 || v == 2)) token_invalid _ identity h in
    let (unexpired, h2) = guard-ok (leb (number_or claims.exp 0) now) token_expired _ identity h1 in
    let (schema, h3) =
      guard-ok (not (number_or claims.state_schema_version 0 == service.state_schema_version))
        incompatible_state _ identity h2 in
    let (_, h4) =
      guard-ok
        (v == 2
          && not (
              number_or claims.request_hash_version service.request_hash_version
              == service.request_hash_version))
        incompatible_state _ identity h3 in
    let (_, h5) = guard-ok (not (all_given claims)) token_invalid _ identity h4 in
    let (_, h6) =
      guard-ok (not (lib.is_uuid (text_claim claims.run_id))) token_invalid _ identity h5 in
    let (thread, h7) =
      guard-ok (not (str_eq (text_claim claims.execution_thread_id) joined)) token_invalid _
        identity h6 in
    let (namespace, h8) =
      guard-ok (not (str_eq (text_claim claims.checkpoint_namespace) service.checkpoint_namespace))
        incompatible_state _ identity h7 in
    let (hash, h9) =
      guard-ok (not (str_eq (text_claim claims.request_hash) current)) token_invalid _ identity
        h8 in
    let (conversation, h10) =
      guard-ok (is_given supplied && not (str_eq supplied (text_claim claims.conversation_id)))
        token_invalid _ identity h9 in
    let (run, h11) =
      guard-ok (is_given request.run_id && not (str_eq request.run_id (text_claim claims.run_id)))
        token_invalid _ identity h10 in
    (
      record {
        unexpired = later (number_or claims.exp 0) now unexpired;
        schema =
            number-same (number_or claims.state_schema_version 0) service.state_schema_version
              schema;
        thread = text-same (text_claim claims.execution_thread_id) joined thread;
        namespace =
            text-same (text_claim claims.checkpoint_namespace) service.checkpoint_namespace
              namespace;
        hash =
            hash-passes v (text_claim claims.request_hash) request.legacy_request_hash
              request.request_hash known hash;
        conversation = text-passes supplied (text_claim claims.conversation_id) conversation;
        run = text-passes request.run_id (text_claim claims.run_id) run;
      },
      ok-same (identity_of service request claims key_id) identity h11,
    )

-- When a request that resumes is given an identity, its token is signed with a key of the service, and
-- the token's claims are unexpired and fit the service's schema and namespace, the request's hash, and
-- the conversation and run that the request names, if it names them; the identity is the claims'.
pub normalize-IsSigned :
    (lib : Primitives) (service : Service) (request : Request) (now : ℕ) (uuid uuid' : String)
    (identity : Identity)
    → request.resume ≡ true
    → normalize lib service request now uuid uuid' ≡ ok identity
    → (claims : Claims) × (key_id : String) × IsSigned lib service request.resume_token claims
        key_id
      × IsFitting service request now claims
      × (identity ≡ identity_of service request claims key_id)
unfolding normalize identity_from_token
normalize-IsSigned lib service request now uuid uuid' identity resumes h =
    elim (Result-cases (decode_token lib service request.resume_token)) [
      | inr (e, p) ↦ absurd (ground (arith, h, resumes, p))
      | inl ((claims, key_id), p) ↦
          let (fitting, same) =
            check_claims-IsFitting lib service request now claims key_id identity
              (ground (arith, h, resumes, p)) in
          (
            claims,
            key_id,
            decode_token-IsSigned lib service request.resume_token claims key_id p,
            fitting,
            same,
          )
    ]
