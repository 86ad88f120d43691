-- ===== src/Conversations/Tests.antt =====
-- in_memory.py: a store of two conversations of three messages each, and the theorems at it.
use langchain_langraph_app_l.Prelude.{
  ◌≡◌, refl, String, true, false, some, List, [], ◌∷◌, ◌++◌, arith, last_n, ok,
}
use langchain_langraph_app_l.Prelude.Dict.{lookup, put, put_last, remove}
use langchain_langraph_app_l.Conversations.{
  Store, expired_keys, drop_keys, purge, evict, messages_of, append_locked, get, append_turn_locked,
  append_turn,
}
use langchain_langraph_app_l.Conversations.Bounds.{
  IsBounded, Call, get_messages, append_messages, append_pair, clear_sessions, perform_all,
  perform_all-Bounded,
}
use langchain_langraph_app_l.Conversations.Turns.{append_turn-get}

abbrev small : Store String
small = record {
  ttl = 100;
  max_sessions = 2;
  max_messages = 3;
  sessions = ("c1", (5, "hello" ∷ "hi" ∷ [])) ∷ [];
  committed_runs = ("c1", "r1" ∷ []) ∷ [];
}

abbrev grown : Store String
grown = record small {
  sessions = ("c1", (9, "hi" ∷ "how?" ∷ "so." ∷ [])) ∷ [];
  committed_runs = ("c1", "r2" ∷ "r1" ∷ []) ∷ [];
}

second_turn : append_turn "c1" "r2" "how?" "so." 9 small ≡ ok (true, grown)
unfolding append_turn append_turn_locked append_locked purge expired_keys drop_keys evict put_last
    remove lookup put
second_turn = refl

append_turn-get_example :
    ((get "c1" 50 grown).0
      ≡ last_n 3 (messages_of (lookup "c1" (purge 9 small).sessions) ++ "how?" ∷ "so." ∷ []))
    × ((s'' : Store String) × (append_turn "c1" "r2" "again?" "no." 50 grown ≡ ok (false, s''))
        × (lookup "c1" s''.sessions ≡ lookup "c1" grown.sessions))
append_turn-get_example =
    append_turn-get "c1" "r2" "how?" "so." "again?" "no." 9 50 small grown (omega arith) second_turn
      (omega arith)

abbrev calls : List (Call String)
calls =
    append_pair "c2" "r3" "a" "b" 10
    ∷ append_messages "c3" ("c" ∷ "d" ∷ "e" ∷ "f" ∷ []) 11
    ∷ get_messages "c2" 12
    ∷ clear_sessions (some "c3")
    ∷ []

small-IsBounded : IsBounded 2 3 small
small-IsBounded = record {
  same_sessions = refl;
  same_messages = refl;
  sessions = omega arith;
  messages = (omega arith, tt);
}

perform_all-Bounded_example : IsBounded 2 3 (perform_all calls small)
perform_all-Bounded_example = perform_all-Bounded 2 3 calls small small-IsBounded
