-- ===== src/Chat/Example.antt =====
-- chat_runtime.py: one request, what it meets outside, and the world before it.
use langchain_langraph_app_l.Prelude.{
  ◌≡◌, refl, String, [], ◌∷◌, Bool, true, false, Option, none, some, ok, arith, str_eq,
  if◌then◌else◌,
}
use langchain_langraph_app_l.Runs.{RunIdentity, Payload, empty_repository}
use langchain_langraph_app_l.Chat.{
  Request, ChatResponse, World, Point, GraphOutcome, Codec, Outside,
}
use langchain_langraph_app_l.Chat.Outcome.{Restores}

abbrev pub flag_text : Option Bool → String
flag_text none = ""
flag_text (some true) = "true"
flag_text (some false) = "false"

abbrev pub read_flag : String → Option Bool
read_flag text =
    if str_eq text "true" then some true else if str_eq text "false" then some false else none

-- A codec that puts the text and the flag in front of the other fields.
abbrev pub validate_payload : Payload → Option ChatResponse
validate_payload ((_, text) ∷ (_, flag) ∷ fields) =
    some (record { response = text; history_persisted = read_flag flag; fields = fields })
validate_payload _ = none

abbrev pub codec : Codec
codec = record {
  dump = λ r. ("response", r.response) ∷ ("history", flag_text r.history_persisted) ∷ r.fields;
  validate = validate_payload;
}

read-flag_text : (f : Option Bool) → read_flag (flag_text f) ≡ f
read-flag_text none = refl
read-flag_text (some true) = refl
read-flag_text (some false) = refl

pub codec-Restores : Restores codec
codec-Restores = record {
  validate-dump = λ r. ground (arith, read-flag_text r.history_persisted);
  dump-nonempty = λ r. refl;
}

abbrev pub identity : String → RunIdentity
identity run_id = record {
  conversation_id = "c";
  run_id = run_id;
  execution_thread_id = "e";
  request_hash = "h";
  request_hash_version = 1;
  state_schema_version = 1;
  resume_token_version = 1;
}

abbrev pub request : Request
request = record {
  identity = identity "r";
  resumed = false;
  client_supplied_run_id = true;
  message = "hello";
}

abbrev pub never : Point → Bool
never p = false

abbrev pub at_append : Point → Bool
at_append Point.appending = true
at_append _ = false

-- Nobody else is served, and the graph answers.
abbrev pub outside : (Point → Bool) → Outside
outside is_cancelled = record {
  run_lease_ttl = 10;
  clock = λ p n. 5;
  others = λ p. [];
  turns = λ p. [];
  is_cancelled = is_cancelled;
  codec = codec;
  checkpoint = ok false;
  checkpoint_id = none;
  owner_id = "o";
  beats = record { others = []; now = 5; now' = 5; now'' = 5 } ∷ [];
  prepared = ok tt;
  reported = ok tt;
  graph = GraphOutcome.returned "answer" false none none;
  fields = [];
}

abbrev pub world : World
world = record {
  repository = empty_repository;
  memory = record {
    ttl = 100;
    max_sessions = 2;
    max_messages = 4;
    sessions = [];
    committed_runs = [];
  };
  metrics = [];
}

abbrev pub response : ChatResponse
response = record { response = "answer"; history_persisted = some true; fields = [] }
