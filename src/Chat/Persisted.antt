-- ===== src/Chat/Persisted.antt =====
-- chat_runtime.py: the try statement once the outcome was persisted, however it ends.
use langchain_langraph_app_l.Prelude.{◌≡◌, String, Result, err}
use langchain_langraph_app_l.Runs.{RunIdentity, RunLease}
use langchain_langraph_app_l.Chat.{Request, ChatResponse, Exception, World, Codec, Outside}
use langchain_langraph_app_l.Conversations
use langchain_langraph_app_l.Chat.Execution.{RunExecution}
use langchain_langraph_app_l.Chat.Outcome.{Restores, IsApart, IsAnswered}

-- The run has the response's text stored, and what ended is no cancellation.
record Kept (identity : RunIdentity) (codec : Codec) (text : String)
    (x : Result Exception ChatResponse × World) : Type 0 where
  pub stored : IsAnswered identity codec text x.1.repository
  pub no_cancellation : x.0 ≡ err Exception.cancelled → ⊥

module _ (request : Request) (o : Outside) (lease : RunLease) (execution : RunExecution)
    (codec : Restores o.codec) (apart : IsApart o request.identity.run_id)
    (own : lease.run_id ≡ request.identity.run_id) where
  abbrev KeptBy : Result Exception ChatResponse × World → Type 0
  KeptBy x = Kept request.identity o.codec execution.response.response x
