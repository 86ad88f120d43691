-- ===== src/Identity.antt =====
-- app/orchestration/run_identity.py: RunIdentityService. base64, JSON, HMAC and UUIDs are the functions
-- of `Primitives`; the two hashes of a request are given with it. A text that is absent is "". A token
-- is given as its two parts; one without a dot is none. Claims that are no text or number, and the
-- limits on lengths of the schema RunIdentity, are left out. Times are whole seconds.
pub mod Tokens
pub mod Accepted
pub mod Gate
mod Tests
use Prim.Native.String.{◌++◌}
use langchain_langraph_app_l.Prelude.{
  ℕ, ◌+◌, String, List, [], ◌∷◌, Bool, true, false, not, ◌&&◌, ◌||◌, ◌==◌, leb, Option, none, some,
  is_some, or_else, str_eq, if◌then◌else◌, Result, ok, err, ◌>>=◌,
}
use langchain_langraph_app_l.Prelude.Strings.{strip_blanks}
use langchain_langraph_app_l.Prelude.Dict.{Dict, lookup}

-- The exceptions, by their classes.
pub data IdentityError : Type 0 where
  token_invalid token_expired incompatible_state : IdentityError

-- The JSON object of a token.
pub record Claims : Type 0 where
  pub v : Option ℕ
  pub kid : Option String
  pub conversation_id : Option String
  pub run_id : Option String
  pub execution_thread_id : Option String
  pub checkpoint_namespace : Option String
  pub state_schema_version : Option ℕ
  pub request_hash : Option String
  pub request_hash_version : Option ℕ
  pub resume_token_version : Option ℕ
  pub iat : Option ℕ
  pub exp : Option ℕ

pub record Token : Type 0 where
  pub encoded_payload : String
  pub encoded_signature : String

pub record Primitives : Type 0 where
  pub b64encode : String → String
  pub b64decode : String → Option String
  pub dumps : Claims → String
  pub loads : String → Option Claims
  pub digest : String → String → String
  pub is_uuid : String → Bool

pub record Service : Type 0 where
  pub ttl_seconds : ℕ
  pub checkpoint_namespace : String
  pub state_schema_version : ℕ
  pub request_hash_version : ℕ
  pub active_key_id : String
  pub keys : Dict String

pub record Request : Type 0 where
  pub conversation_id : String
  pub thread_id : String
  pub run_id : String
  pub resume : Bool
  pub resume_token : Option Token
  pub request_hash : String
  pub legacy_request_hash : String

pub record Identity : Type 0 where
  pub conversation_id : String
  pub run_id : String
  pub execution_thread_id : String
  pub checkpoint_namespace : String
  pub state_schema_version : ℕ
  pub request_hash : String
  pub request_hash_version : ℕ
  pub resume_token_version : ℕ
  pub resume_token_key_id : String
  pub resume_requested : Bool
  pub resumed : Bool
  pub client_supplied_run_id : Bool

-- Python's `x or d` for texts, and `bool(x)`.
abbrev pub text_or : String → String → String
text_or x d = if str_eq x "" then d else x

abbrev pub is_given : String → Bool
is_given x = not (str_eq x "")

-- `int(payload.get(key, d) or d)`, and `str(payload.get(key) or "").strip()`
abbrev pub number_or : Option ℕ → ℕ → ℕ
number_or none d = d
number_or (some n) d = if n == 0 then d else n

abbrev pub text_claim : Option String → String
text_claim none = strip_blanks ""
text_claim (some s) = strip_blanks s

-- `issue_resume_token`; none is the KeyError of an unknown active key, which `__init__` rules out.
abbrev pub claims_of : Service → Identity → ℕ → Claims
claims_of service identity now = record {
  v = some 2;
  kid = some service.active_key_id;
  conversation_id = some identity.conversation_id;
  run_id = some identity.run_id;
  execution_thread_id = some identity.execution_thread_id;
  checkpoint_namespace = some identity.checkpoint_namespace;
  state_schema_version = some identity.state_schema_version;
  request_hash = some identity.request_hash;
  request_hash_version = some identity.request_hash_version;
  resume_token_version = some identity.resume_token_version;
  iat = some now;
  exp = some (now + service.ttl_seconds);
}

abbrev pub signed : Primitives → String → String → Token
signed lib secret encoded_payload = record {
  encoded_payload = encoded_payload;
  encoded_signature = lib.b64encode (lib.digest secret encoded_payload);
}

unfoldable pub issue_resume_token : Primitives → Service → Identity → ℕ → Option Token
issue_resume_token lib service identity now = elim (lookup service.active_key_id service.keys) [
  | none ↦ none
  | some secret ↦
      some (signed lib secret (lib.b64encode (lib.dumps (claims_of service identity now))))
]

-- The first of the candidate keys that made the signature.
unfoldable pub signing_key : Primitives → String → String → Dict String → Option String
signing_key lib encoded_payload signature [] = none
signing_key lib encoded_payload signature ((key_id, secret) ∷ keys) =
    let rest = signing_key lib encoded_payload signature keys in
    if str_eq (lib.digest secret encoded_payload) signature then some key_id else rest

abbrev pub candidates : Service → String → Dict String
candidates service key_id = elim (lookup key_id service.keys) [
  | some secret ↦ (key_id, secret) ∷ []
  | none ↦ service.keys
]

abbrev pub verified :
    Primitives → Service → String → String → Claims → Result IdentityError (Claims × String)
verified lib service encoded_payload signature claims =
    elim (signing_key lib encoded_payload signature (candidates service (text_claim claims.kid))) [
      | none ↦ err token_invalid
      | some key_id ↦ ok (claims, key_id)
    ]

-- `_decode_token`
abbrev pub decoded :
    Primitives
    → Service
    → String
    → Option String
    → Option String
    → Result IdentityError (Claims × String)
decoded lib service encoded_payload (some raw) (some signature) = elim (lib.loads raw) [
  | none ↦ err token_invalid
  | some claims ↦ verified lib service encoded_payload signature claims
]
decoded lib service encoded_payload _ _ = err token_invalid

unfoldable pub decode_token :
    Primitives → Service → Option Token → Result IdentityError (Claims × String)
unfolding signing_key
decode_token lib service none = err token_invalid
decode_token lib service (some token) =
    decoded lib service token.encoded_payload (lib.b64decode token.encoded_payload)
      (lib.b64decode token.encoded_signature)

abbrev pub identity_of : Service → Request → Claims → String → Identity
identity_of service request claims key_id = record {
  conversation_id = text_claim claims.conversation_id;
  run_id = text_claim claims.run_id;
  execution_thread_id = text_claim claims.execution_thread_id;
  checkpoint_namespace = text_claim claims.checkpoint_namespace;
  state_schema_version = number_or claims.state_schema_version 0;
  request_hash = request.request_hash;
  request_hash_version = service.request_hash_version;
  resume_token_version = number_or claims.resume_token_version 1;
  resume_token_key_id = key_id;
  resume_requested = true;
  resumed = true;
  client_supplied_run_id = is_given request.run_id;
}

abbrev pub all_given : Claims → Bool
all_given claims =
    is_given (text_claim claims.conversation_id)
    && (is_given (text_claim claims.run_id)
        && (is_given (text_claim claims.execution_thread_id)
            && (is_given (text_claim claims.checkpoint_namespace)
                && is_given (text_claim claims.request_hash))))

-- The checks of `_identity_from_token` on the decoded claims, in their order.
unfoldable pub check_claims :
    Primitives → Service → Request → ℕ → Claims → String → Result IdentityError Identity
check_claims lib service request now claims key_id =
    let version = number_or claims.v 0 in
    let conversation_id = text_claim claims.conversation_id in
    let run_id = text_claim claims.run_id in
    let supplied = text_or request.conversation_id request.thread_id in
    if not (version == 1 || version == 2)
    then err token_invalid
    else if leb (number_or claims.exp 0) now
    then err token_expired
    else if not (number_or claims.state_schema_version 0 == service.state_schema_version)
    then err incompatible_state
    else if version == 2
        && not (
            number_or claims.request_hash_version service.request_hash_version
            == service.request_hash_version)
    then err incompatible_state
    else if not (all_given claims)
    then err token_invalid
    else if not (lib.is_uuid run_id)
    then err token_invalid
    else if not (str_eq (text_claim claims.execution_thread_id) (conversation_id ++ ":" ++ run_id))
    then err token_invalid
    else if not (str_eq (text_claim claims.checkpoint_namespace) service.checkpoint_namespace)
    then err incompatible_state
    else if not (
        str_eq (text_claim claims.request_hash)
          (if version == 1 then request.legacy_request_hash else request.request_hash))
    then err token_invalid
    else if is_given supplied && not (str_eq supplied conversation_id)
    then err token_invalid
    else if is_given request.run_id && not (str_eq request.run_id run_id)
    then err token_invalid
    else ok (identity_of service request claims key_id)

-- `_identity_from_token`
unfoldable pub identity_from_token :
    Primitives → Service → Request → ℕ → Result IdentityError Identity
unfolding decode_token check_claims
identity_from_token lib service request now = decode_token lib service request.resume_token >>= λ x.
    check_claims lib service request now x.0 x.1

-- `normalize`; the two texts are fresh UUIDs.
unfoldable pub normalize :
    Primitives → Service → Request → ℕ → String → String → Result IdentityError Identity
unfolding identity_from_token
normalize lib service request now uuid uuid' =
    let conversation_id = text_or request.conversation_id (text_or request.thread_id uuid) in
    let run_id = text_or request.run_id uuid' in
    if request.resume
    then identity_from_token lib service request now
    else if not (lib.is_uuid run_id)
    then err token_invalid
    else ok (record {
      conversation_id = conversation_id;
      run_id = run_id;
      execution_thread_id = conversation_id ++ ":" ++ run_id;
      checkpoint_namespace = service.checkpoint_namespace;
      state_schema_version = service.state_schema_version;
      request_hash = request.request_hash;
      request_hash_version = service.request_hash_version;
      resume_token_version = 1;
      resume_token_key_id = service.active_key_id;
      resume_requested = false;
      resumed = false;
      client_supplied_run_id = is_given request.run_id;
    })
