-- ===== src/Chat/Liveness.antt =====
-- chat_runtime.py: the conversation after a leased run, for the next run.
use langchain_langraph_app_l.Prelude.{
  ℕ, ◌+◌, ◌≡◌, String, Bool, true, false, none, some, Result, ok, err, is_ok, eq_iff, arith,
}
use langchain_langraph_app_l.Prelude.Dict.{lookup, lookup-put, lookup-remove}
use langchain_langraph_app_l.Runs.{
  RunRecord, RunIdentity, RunLease, MemoryRunRepository, validate_identity,
}
use langchain_langraph_app_l.Runs.Memory.{acquire, release, new_lease, token_of}
use langchain_langraph_app_l.Chat.{
  Request, ChatResponse, Exception, World, Point, Outside, pause, interfere, call,
}
use langchain_langraph_app_l.Chat.Execution.{RunExecution}
use langchain_langraph_app_l.Chat.Runtime.{
  take_lease, persist, commit_history, release_lease, leased_run, after_persist, or_handle, finally,
}
use langchain_langraph_app_l.Chat.Release.{Mine, perform_all-Mine, Keeps, IsUndisturbed}
use langchain_langraph_app_l.Runs.Contract.{Matches, acquire_iff}
use langchain_langraph_app_l.Chat.Freed.{persist-Keeps, commit_history-Keeps, handle-Keeps}
use langchain_langraph_app_l.Chat.Outcome.{call-ok}
use langchain_langraph_app_l.Chat.Steps.{and_then-ok}

or_handle-Mine :
    (o : Outside) (lease : RunLease) (b : Bool) (x : Result Exception ChatResponse × World)
    → IsUndisturbed o lease.conversation_id
    → Mine lease x.1.repository
    → Mine lease (or_handle o lease b x).1.repository
unfolding Keeps
or_handle-Mine o lease b (ok response, w) quiet h = h
or_handle-Mine o lease b (err e, w) quiet h = handle-Keeps o lease b e quiet w h

after_persist-Mine :
    (request : Request) (o : Outside) (lease : RunLease) (x : Result Exception RunExecution × World)
    → IsUndisturbed o lease.conversation_id
    → Mine lease x.1.repository
    → Mine lease (after_persist request o lease x).1.repository
unfolding Keeps
after_persist-Mine request o lease (ok execution, w) quiet h =
    or_handle-Mine o lease true (commit_history request o lease execution w) quiet
      (commit_history-Keeps request o lease execution quiet w h)
after_persist-Mine request o lease (err e, w) quiet h = handle-Keeps o lease false e quiet w h

release-none :
    (lease : RunLease) (r : MemoryRunRepository)
    → Mine lease r
    → lookup lease.conversation_id (release lease r).leases ≡ none
unfolding release
release-none lease r h = ground (
  arith,
  h,
  lookup-remove lease.conversation_id lease.conversation_id r.leases,
  eq_iff lease.conversation_id lease.conversation_id,
)

finally-none :
    (o : Outside) (lease : RunLease) (x : Result Exception ChatResponse × World)
    → IsUndisturbed o lease.conversation_id
    → o.is_cancelled Point.releasing ≡ false
    → Mine lease x.1.repository
    → lookup lease.conversation_id (finally o lease x).1.repository.leases ≡ none
unfolding release_lease pause Keeps
finally-none o lease (x, w) quiet calm h =
    let kept =
      perform_all-Mine lease (o.others Point.releasing) w.repository
        (quiet.at_points Point.releasing) h in
    ground (arith, calm, release-none lease (interfere o Point.releasing w).repository kept)

leased_run-none :
    (request : Request) (o : Outside) (lease : RunLease) (w : World)
    → IsUndisturbed o lease.conversation_id
    → o.is_cancelled Point.releasing ≡ false
    → Mine lease w.repository
    → lookup lease.conversation_id (leased_run request o lease w).1.repository.leases ≡ none
unfolding leased_run Keeps
leased_run-none request o lease w quiet calm h =
    finally-none o lease (after_persist request o lease (persist request o lease w)) quiet calm (
      after_persist-Mine request o lease (persist request o lease w) quiet
        (persist-Keeps request o lease quiet w h))

acquired-Mine :
    (identity : RunIdentity) (owner : String) (ttl now : ℕ) (r r' : MemoryRunRepository)
    (lease : RunLease)
    → acquire identity owner ttl now r ≡ ok (lease, r')
    → Mine lease r'
unfolding acquire validate_identity
acquired-Mine identity owner ttl now r r' lease h =
    let new =
      new_lease identity owner ttl (token_of (lookup identity.conversation_id r.fencing) + 1) now in
    ground (
      arith,
      lookup-put identity.conversation_id identity.conversation_id new r.leases,
      eq_iff identity.conversation_id identity.conversation_id,
      eq_iff identity.run_id identity.run_id,
      eq_iff owner owner,
    )

-- Once a request has taken its lease, whatever way it then ends (it returns, it raises, the heartbeat
-- stops or it is cancelled, but not in the finally clause), and if no other request takes a lease on
-- the conversation meanwhile: the conversation has no lease, and a run that is recorded for it under a
-- matching identity is granted one, at any time.
pub leased_run-frees :
    (request : Request) (o : Outside) (lease : RunLease) (w w' : World) (identity : RunIdentity)
    (known : RunRecord) (owner : String) (ttl now : ℕ)
    → take_lease request o w ≡ (ok lease, w')
    → IsUndisturbed o lease.conversation_id
    → o.is_cancelled Point.releasing ≡ false
    → identity.conversation_id ≡ lease.conversation_id
    → lookup identity.run_id (leased_run request o lease w').1.repository.records ≡ some known
    → Matches known identity
    → (lookup lease.conversation_id (leased_run request o lease w').1.repository.leases ≡ none)
      × (is_ok (acquire identity owner ttl now (leased_run request o lease w').1.repository) ≡ true)
leased_run-frees request o lease w w' identity known owner ttl now h quiet calm same found matches =
    let take = acquire request.identity o.owner_id o.run_lease_ttl (o.clock Point.acquiring 0) in
    let (_, w1, e1, h1) =
      and_then-ok (pause o Point.acquiring w) (λ (u : Unit {0}). call take) lease w' h in
    let mine =
      acquired-Mine request.identity o.owner_id o.run_lease_ttl (o.clock Point.acquiring 0)
        w1.repository w'.repository lease (call-ok take w1 w' lease h1) in
    let free = leased_run-none request o lease w' quiet calm mine in
    (
      free,
      (acquire_iff identity owner ttl now (leased_run request o lease w').1.repository).1 (record {
        known = known;
        found = found;
        matches = matches;
        free = λ l e. absurd (ground (arith, free, same, e));
      }),
    )
