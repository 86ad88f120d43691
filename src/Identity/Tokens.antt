-- ===== src/Identity/Tokens.antt =====
-- run_identity.py: a resume token, from its issue to the identity that it is exchanged for.
use Prim.Native.String.{◌++◌}
use langchain_langraph_app_l.Prelude.{
  ℕ, ◌+◌, ◌<◌, ◌≡◌, ◌≢◌, ◌⊎◌, inl, inr, String, true, false, not, ◌&&◌, some, str_eq, eq_iff, arith,
  ok,
}
use langchain_langraph_app_l.Prelude.Strings.{strip_blanks}
use langchain_langraph_app_l.Prelude.Dict.{lookup}
use langchain_langraph_app_l.Identity.{
  Primitives, Service, Request, Identity, text_or, is_given, claims_of, issue_resume_token,
  signing_key, decode_token, identity_of, check_claims, identity_from_token, normalize,
}

-- The claims of a token that the service issues for the identity are read back from their JSON.
pub record Restores (lib : Primitives) (service : Service) (identity : Identity) (now : ℕ)
    : Type 0 where
  pub b64 : (s : String) → lib.b64decode (lib.b64encode s) ≡ some s
  pub json :
      lib.loads (lib.dumps (claims_of service identity now)) ≡ some (claims_of service identity now)

-- A text that is not empty and has no blanks around it.
pub record IsPlain (s : String) : Type 0 where
  pub stripped : strip_blanks s ≡ s
  pub given : str_eq s "" ≡ false

-- An identity as `normalize` makes it, for a service of this namespace and these versions.
pub record IsOwn (lib : Primitives) (service : Service) (identity : Identity) : Type 0 where
  pub conversation : IsPlain identity.conversation_id
  pub run : IsPlain identity.run_id
  pub thread : IsPlain identity.execution_thread_id
  pub namespace : IsPlain identity.checkpoint_namespace
  pub hash : IsPlain identity.request_hash
  pub uuid : lib.is_uuid identity.run_id ≡ true
  pub joined : identity.execution_thread_id ≡ identity.conversation_id ++ ":" ++ identity.run_id
  pub same_namespace : identity.checkpoint_namespace ≡ service.checkpoint_namespace
  pub same_schema : identity.state_schema_version ≡ service.state_schema_version
  pub same_hash_version : identity.request_hash_version ≡ service.request_hash_version
  pub versioned : identity.resume_token_version ≢ 0

-- The request is the one that the token was issued for, and names no other conversation or run.
pub record IsResume (request : Request) (identity : Identity) : Type 0 where
  pub resumes : request.resume ≡ true
  pub same_hash : request.request_hash ≡ identity.request_hash
  pub conversation :
      (text_or request.conversation_id request.thread_id ≡ "")
      ⊎ (text_or request.conversation_id request.thread_id ≡ identity.conversation_id)
  pub run : (request.run_id ≡ "") ⊎ (request.run_id ≡ identity.run_id)

abbrev resumed_identity : Service → Request → Identity → Identity
resumed_identity service request identity = record identity {
  resume_token_key_id = service.active_key_id;
  resume_requested = true;
  resumed = true;
  client_supplied_run_id = is_given request.run_id;
}

decode-issue :
    (lib : Primitives) (service service' : Service) (identity : Identity) (secret : String)
    (now : ℕ)
    → Restores lib service identity now
    → lookup service.active_key_id service.keys ≡ some secret
    → lookup service.active_key_id service'.keys ≡ some secret
    → strip_blanks service.active_key_id ≡ service.active_key_id
    → decode_token lib service' (issue_resume_token lib service identity now)
      ≡ ok (claims_of service identity now, service.active_key_id)
unfolding decode_token issue_resume_token signing_key
decode-issue lib service service' identity secret now restores key key' stripped =
    let payload = lib.b64encode (lib.dumps (claims_of service identity now)) in
    ground (
      arith,
      key,
      key',
      stripped,
      restores.b64 (lib.dumps (claims_of service identity now)),
      restores.b64 (lib.digest secret payload),
      restores.json,
      eq_iff (lib.digest secret payload) (lib.digest secret payload),
    )

-- A text that is absent or the right one passes.
passes :
    (supplied right : String)
    → (supplied ≡ "") ⊎ (supplied ≡ right)
    → (is_given supplied && not (str_eq supplied right)) ≡ false
passes supplied right (inl e) = ground (arith, e, eq_iff supplied "")
passes supplied right (inr e) = ground (arith, e, eq_iff supplied right)

check-issued :
    (lib : Primitives) (service service' : Service) (request : Request) (identity : Identity)
    (now now' : ℕ)
    → IsOwn lib service' identity
    → IsResume request identity
    → now' < now + service.ttl_seconds
    → check_claims lib service' request now' (claims_of service identity now) service.active_key_id
      ≡ ok (resumed_identity service request identity)
unfolding check_claims
check-issued lib service service' request identity now now' own resume early =
    let joined = identity.conversation_id ++ ":" ++ identity.run_id in
    let supplied = text_or request.conversation_id request.thread_id in
    let conversation = passes supplied identity.conversation_id resume.conversation in
    let run = passes request.run_id identity.run_id resume.run in
    let thread : str_eq identity.execution_thread_id joined ≡ true =
      (eq_iff identity.execution_thread_id joined).1 own.joined in
    let namespace : str_eq identity.checkpoint_namespace service'.checkpoint_namespace ≡ true =
      (eq_iff identity.checkpoint_namespace service'.checkpoint_namespace).1 own.same_namespace in
    let hash : str_eq identity.request_hash request.request_hash ≡ true =
      ground (arith, resume.same_hash, eq_iff identity.request_hash identity.request_hash) in
    let made : identity_of service' request (claims_of service identity now) service.active_key_id
        ≡ resumed_identity service request identity =
      ground (
        arith, own.conversation.stripped, own.run.stripped, own.thread.stripped,
        own.namespace.stripped, own.same_hash_version, own.versioned, resume.same_hash,
      ) in
    ground (
      arith, early, own.same_schema, own.same_hash_version, own.conversation.stripped,
      own.run.stripped, own.thread.stripped, own.namespace.stripped, own.hash.stripped,
      own.conversation.given, own.run.given, own.thread.given, own.namespace.given, own.hash.given,
      own.uuid, thread, namespace, hash, conversation, run, made,
    )

-- A token that a service issues for an identity of the form that normalize gives, whose texts have
-- no blanks around them, and that is sent again with the same request before it expires, to a
-- service that still has the key under its ID, the same namespace and the same versions, is
-- exchanged for that identity, marked as resumed. The active key may be another by then, a
-- conversation or run that the request names is the identity's, and base64 and the token's JSON are
-- read back.
pub normalize-issue :
    (lib : Primitives) (service service' : Service) (request : Request) (identity : Identity)
    (secret : String) (now now' : ℕ) (uuid uuid' : String)
    → Restores lib service identity now
    → lookup service.active_key_id service.keys ≡ some secret
    → lookup service.active_key_id service'.keys ≡ some secret
    → strip_blanks service.active_key_id ≡ service.active_key_id
    → IsOwn lib service' identity
    → IsResume request identity
    → request.resume_token ≡ issue_resume_token lib service identity now
    → now' < now + service.ttl_seconds
    → normalize lib service' request now' uuid uuid'
      ≡ ok (record identity {
        resume_token_key_id = service.active_key_id;
        resume_requested = true;
        resumed = true;
        client_supplied_run_id = is_given request.run_id;
      })
unfolding normalize identity_from_token
normalize-issue lib service service' request identity secret now now' uuid uuid' restores key key'
      stripped own resume sent early =
    ground (
      arith,
      resume.resumes,
      sent,
      decode-issue lib service service' identity secret now restores key key' stripped,
      check-issued lib service service' request identity now now' own resume early,
    )
