-- ===== src/Identity/Tests.antt =====
-- run_identity.py: a token of one key, read after the active key was changed.
use Prim.Native.String.{◌++◌}
use langchain_langraph_app_l.Prelude.{
  ◌≡◌, inl, inr, refl, String, [], ◌∷◌, true, false, some, ok, arith,
}
use langchain_langraph_app_l.Prelude.Strings.{strip_blanks}
use langchain_langraph_app_l.Prelude.Dict.{lookup, put}
use langchain_langraph_app_l.Identity.{
  Claims, Primitives, Service, Request, Identity, claims_of, identity_of, issue_resume_token,
  signing_key, decode_token, check_claims, identity_from_token, normalize,
}
use langchain_langraph_app_l.Identity.Gate.{
  Holder, State, enter, Step, Reach, IsExclusive, Reach-IsExclusive,
}
use langchain_langraph_app_l.Identity.Tokens.{IsPlain, IsOwn, normalize-issue}
use langchain_langraph_app_l.Identity.Accepted.{IsSigned, IsFitting, normalize-IsSigned}

abbrev service : Service
service = record {
  ttl_seconds = 60;
  checkpoint_namespace = "n";
  state_schema_version = 1;
  request_hash_version = 1;
  active_key_id = "k1";
  keys = ("k1", "s1") ∷ [];
}

abbrev rotated : Service
rotated = record service { active_key_id = "k2"; keys = ("k2", "s2") ∷ ("k1", "s1") ∷ [] }

abbrev identity : Identity
identity = record {
  conversation_id = "c";
  run_id = "r";
  execution_thread_id = "c:r";
  checkpoint_namespace = "n";
  state_schema_version = 1;
  request_hash = "h";
  request_hash_version = 1;
  resume_token_version = 1;
  resume_token_key_id = "k1";
  resume_requested = false;
  resumed = false;
  client_supplied_run_id = false;
}

-- The digest puts the secret in front, and only the claims of this identity have a JSON text.
abbrev lib : Primitives
lib = record {
  b64encode = λ s. s;
  b64decode = λ s. some s;
  dumps = λ c. "claims";
  loads = λ s. some (claims_of service identity 5);
  digest = λ secret s. secret ++ s;
  is_uuid = λ s. true;
}

abbrev request : Request
request = record {
  conversation_id = "c";
  thread_id = "";
  run_id = "";
  resume = true;
  resume_token = issue_resume_token lib service identity 5;
  request_hash = "h";
  legacy_request_hash = "l";
}

plain_c : IsPlain "c"
unfolding strip_blanks
plain_c = record { stripped = refl; given = refl }

plain_r : IsPlain "r"
unfolding strip_blanks
plain_r = record { stripped = refl; given = refl }

plain_thread : IsPlain "c:r"
unfolding strip_blanks
plain_thread = record { stripped = refl; given = refl }

plain_n : IsPlain "n"
unfolding strip_blanks
plain_n = record { stripped = refl; given = refl }

plain_h : IsPlain "h"
unfolding strip_blanks
plain_h = record { stripped = refl; given = refl }

own : IsOwn lib rotated identity
own = record {
  conversation = plain_c;
  run = plain_r;
  thread = plain_thread;
  namespace = plain_n;
  hash = plain_h;
  uuid = refl;
  joined = refl;
  same_namespace = refl;
  same_schema = refl;
  same_hash_version = refl;
  versioned = λ h. omega (arith, h);
}

abbrev resumed : Identity
resumed = record identity { resume_requested = true; resumed = true }

normalize-issue_example : normalize lib rotated request 9 "u" "u'" ≡ ok resumed
normalize-issue_example =
    normalize-issue lib service rotated request identity "s1" 5 9 "u" "u'"
      (record { b64 = λ s. refl; json = refl }) (unfold lookup in refl) (unfold lookup in refl)
      (unfold strip_blanks in refl) own
      (record { resumes = refl; same_hash = refl; conversation = inr refl; run = inl refl }) refl
      (omega arith)

accepted : normalize lib rotated request 9 "u" "u'" ≡ ok resumed
unfolding normalize identity_from_token decode_token check_claims issue_resume_token signing_key
    lookup strip_blanks
accepted = refl

normalize-IsSigned_example :
    (claims : Claims) × (key_id : String) × IsSigned lib rotated
      (issue_resume_token lib service identity 5)
      claims
      key_id
    × IsFitting rotated request 9 claims
    × (resumed ≡ identity_of rotated request claims key_id)
normalize-IsSigned_example = normalize-IsSigned lib rotated request 9 "u" "u'" resumed refl accepted

abbrev holder : String → Holder
holder run_id = record { conversation_id = "c"; run_id = run_id }

abbrev nobody : State
nobody = record { owners = []; inside = [] }

abbrev one_inside : State
one_inside = record { owners = ("c", "r1") ∷ []; inside = holder "r1" ∷ [] }

-- A second run of the conversation is refused while the first is inside.
one_enters : Reach nobody one_inside
unfolding enter lookup put
one_enters =
    Reach.next one_inside one_inside
      (Reach.next nobody one_inside Reach.here
        (Step.admitted nobody (holder "r1") one_inside.owners refl))
      (Step.refused one_inside (holder "r2") refl)

Reach-IsExclusive_example : IsExclusive one_inside
Reach-IsExclusive_example = Reach-IsExclusive one_inside one_enters
