-- ===== src/Chat/Cancelled.antt =====
-- chat_runtime.py: a cancellation once an outcome was persisted.
use langchain_langraph_app_l.Prelude.{
  ℕ, ◌≡◌, refl, String, [], true, false, none, some, ok, err, eq_iff, arith,
}
use langchain_langraph_app_l.Prelude.Dict.{lookup, lookup-put}
use langchain_langraph_app_l.Runs.{interrupted, RunRecord, RunLease, MemoryRunRepository}
use langchain_langraph_app_l.Runs.Memory.{owns, owned_record, release, mark_terminal, ended, store}
use langchain_langraph_app_l.Chat.Execution
use langchain_langraph_app_l.Runs.Calls.{perform_all}
use langchain_langraph_app_l.Chat.{Request, Exception, World, Point, Outside, pause, interfere}
use langchain_langraph_app_l.Chat.Runtime.{
  handle, mark_interrupted_safely, interruption, persist, commit_history, leased_run, release_lease,
}

-- `mark_terminal` of an interruption, by the holder of the lease.
interrupted-record :
    (lease : RunLease) (code : String) (now now' : ℕ) (r : MemoryRunRepository) (known : RunRecord)
    → owns (lookup lease.conversation_id r.leases) lease now ≡ true
    → lookup lease.run_id r.records ≡ some known
    → mark_terminal lease (interruption code) now now' r
      ≡ ok (
        ended known (interruption code) now',
        store lease.run_id (ended known (interruption code) now') r,
      )
unfolding mark_terminal owned_record
interrupted-record lease code now now' r known owned found = ground (arith, owned, found)

-- A request that is cancelled after its outcome was persisted, while it appends the turn, with its
-- lease still held and its run recorded when the interruption is noted and no other request served
-- while the lease is given back, raises the cancellation and leaves its run interrupted, without a
-- payload.
pub cancelled-loses :
    (request : Request) (o : Outside) (lease : RunLease) (w w' : World)
    (execution : Execution.RunExecution) (known : RunRecord)
    → persist request o lease w ≡ (ok execution, w')
    → o.is_cancelled Point.appending ≡ true
    → o.is_cancelled Point.interrupting ≡ false
    → o.is_cancelled Point.releasing ≡ false
    → o.others Point.releasing ≡ []
    → owns
        (lookup lease.conversation_id
          (interfere o Point.interrupting (interfere o Point.appending w')).repository.leases)
        lease
        (o.clock Point.interrupting 0)
      ≡ true
    → lookup lease.run_id
        (interfere o Point.interrupting (interfere o Point.appending w')).repository.records
      ≡ some known
    → ((leased_run request o lease w).0 ≡ err Exception.cancelled)
      × ((later : RunRecord) × (lookup lease.run_id
              (leased_run request o lease w).1.repository.records
            ≡ some later)
          × (later.status ≡ interrupted)
          × (later.response_payload ≡ none))
unfolding leased_run commit_history handle mark_interrupted_safely release_lease pause perform_all
    release
cancelled-loses request o lease w w' execution known done at_append at_mark at_release alone owned
      found =
    let marked = interfere o Point.interrupting (interfere o Point.appending w') in
    let now' = o.clock Point.interrupting 1 in
    let later = ended known (interruption "request_cancelled") now' in
    let step =
      interrupted-record lease "request_cancelled" (o.clock Point.interrupting 0) now'
        marked.repository known owned found in
    let law = lookup-put lease.run_id lease.run_id later marked.repository.records in
    (
      ground (arith, done, at_append, at_mark, at_release, step),
      (
        later,
        ground (
          arith,
          done,
          at_append,
          at_mark,
          at_release,
          alone,
          step,
          law,
          eq_iff lease.run_id lease.run_id,
        ),
        refl,
        refl,
      ),
    )
