-- ===== src/Tools/Executor/Tests.antt =====
-- executor.py: a search that times out once, and a tool that would write.
use langchain_langraph_app_l.Prelude.{
  ℕ, List, ◌↔◌, ◌⊎◌, arith, ◌≡◌, refl, String, true, false, none, [], ◌∷◌, ok, err,
}
use langchain_langraph_app_l.Meter.{
  ExecutionBudget, create, check, begin_tool_attempt, finish_tool_attempt, add_queue_wait,
}
use langchain_langraph_app_l.Mcp.{
  delivered, timeout, object, post_body, finish_post, post, client_attempts,
}
use langchain_langraph_app_l.Tools.Executor.{
  execution_denied, returned, ToolCall, is_explicitly_safe_read, admitted, execute,
}
use langchain_langraph_app_l.Prelude.Text.{codes}
use langchain_langraph_app_l.Tools.Executor.Names.{words_of, SomeOf}
use langchain_langraph_app_l.Tools.Executor.Denial.{reading, writing, execute_denied_iff}
use langchain_langraph_app_l.Tools.Executor.Safety.{IsSettled, execute-IsSettled}

abbrev small : ExecutionBudget
unfolding create
small = create 100 2 3 3 none 0 0

-- The first attempt times out, the second one succeeds.
abbrev retried : ToolCall String
retried = record {
  waited = admitted 5;
  now = 10;
  attempts =
      record { now = 10; allow_empty = true; delivery = timeout }
      ∷ record { now = 20; allow_empty = false; delivery = delivered object }
      ∷ [];
  refused = "";
  outcome = returned (record { ok = true; reply = "330 m" });
}

search_runs :
    (execute false "web_search" retried small).0 ≡ ok (record { ok = true; reply = "330 m" })
unfolding execute is_explicitly_safe_read client_attempts post post_body finish_post
    begin_tool_attempt check create add_queue_wait finish_tool_attempt
search_runs = refl

send_denied : execute false "mail_send" retried small ≡ (err execution_denied, small)
unfolding execute is_explicitly_safe_read
send_denied = refl

execute-IsSettled_example : IsSettled small (execute true "web_search" retried small).1
execute-IsSettled_example = execute-IsSettled true "web_search" retried small

-- mail_send
abbrev first_word : List ℕ
first_word = codes "mail"

abbrev more_words : List (ℕ × List ℕ)
more_words = (b'_', codes "send") ∷ []

execute_denied_iff_example :
    (((execute false "mail_send" retried small).0 ≡ err execution_denied) ↔ (
      (SomeOf (words_of first_word more_words) reading → ⊥)
      ⊎ SomeOf (words_of first_word more_words) writing))
    × ((execute false "mail_send" retried small).0 ≡ err execution_denied
        → (execute false "mail_send" retried small).1 ≡ small)
execute_denied_iff_example =
    execute_denied_iff false "mail_send" first_word more_words retried small refl (ground arith)
