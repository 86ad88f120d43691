-- ===== src/Chat/Answered.antt =====
-- chat_runtime.py: a request that executes its run and returns.
use langchain_langraph_app_l.Prelude.{
  ℕ, ◌≡◌, ap, inl, inr, List, [], ◌∷◌, Bool, true, false, Option, none, some, Result, ok, arith,
  Result-cases,
}
use langchain_langraph_app_l.Runs.{Payload, RunRecord, RunIdentity, RunLease}
use langchain_langraph_app_l.Runs.Memory.{renew, mark_terminal}
use langchain_langraph_app_l.Runs.Calls.{Call, perform, perform_all}
use langchain_langraph_app_l.Chat.{
  Request, Exception, World, ◌>>◌, pure, inc, Point, Beat, Outside, pause, interfere, call,
}
use langchain_langraph_app_l.Chat.Execution.{
  RunExecution, GraphResult, read_history, prepare, execute_run, invoke_graph_safely,
  lease_heartbeat, execute_with_heartbeat, executed, settle,
}
use langchain_langraph_app_l.Chat.Preflight.{is_over}
use langchain_langraph_app_l.Chat.Runtime.{ending_of, persist}
use langchain_langraph_app_l.Chat.Steps.{
  and_then-ok, IsRecorded, HasOutcome, perform-IsRecorded, perform_all-IsRecorded,
  perform_all-HasOutcome,
}
use langchain_langraph_app_l.Chat.Outcome.{
  Restores, IsApart, pause-ok, call-ok, mark_terminal-HasOutcome,
}

lease_heartbeat-IsRecorded :
    (ttl : ℕ) (lease : RunLease) (beats : List Beat) (identity : RunIdentity) (w : World)
    → IsRecorded identity w.repository
    → IsRecorded identity (lease_heartbeat ttl lease beats w).1.repository
unfolding lease_heartbeat perform
lease_heartbeat-IsRecorded ttl lease [] identity w h = h
lease_heartbeat-IsRecorded ttl lease (b ∷ beats) identity w h =
    let before = perform_all b.others w.repository in
    let kept = perform_all-IsRecorded b.others identity w.repository h in
    let renewed =
      perform-IsRecorded (Call.renew_lease lease ttl b.now b.now' b.now'') identity before kept in
    elim (Result-cases (renew lease ttl b.now b.now' b.now'' before)) [
      | inr (e, p) ↦ rw (p, lease_heartbeat) kept
      | inl ((next, r), p) ↦
          rw (p, lease_heartbeat)
            (lease_heartbeat-IsRecorded ttl next beats identity
              (record w { repository = r; metrics = "chat.lease_renewed" ∷ w.metrics })
              (rw (p, perform) at renewed))
    ]

pub execute_run-repository :
    (request : Request) (o : Outside) (w : World)
    → (execute_run request o w).1.repository ≡ w.repository
unfolding execute_run invoke_graph_safely
execute_run-repository request o w = ground arith

execute_run-ok :
    (request : Request) (o : Outside) (w w' : World) (execution : RunExecution)
    → execute_run request o w ≡ (ok execution, w')
    → (result : GraphResult) × (execution ≡ executed o result)
unfolding execute_run
execute_run-ok request o w w' execution h = elim (Result-cases o.prepared) [
  | inr (name, p) ↦ absurd (ground (arith, p))
  | inl (_, p) ↦
      let history = read_history request.identity.conversation_id (o.clock Point.reading 0) w in
      let (result, w1, _, e) =
        and_then-ok (invoke_graph_safely o.graph (inc "chat.requests" history.1).1)
          (λ (result : GraphResult). prepare o.reported >> pure (executed o result)) execution w'
          (rw p at h) in
      let (_, _, _, e') =
        and_then-ok (prepare o.reported w1) (λ (u : Unit {0}). pure (executed o result)) execution
          w' e in
      (result, ground (arith, e'))
]

settle-ok :
    (result : Result Exception RunExecution) (is_cancelled : Bool)
    (beats : Option Exception × World) (execution : RunExecution) (w : World)
    → settle result is_cancelled beats ≡ (ok execution, w)
    → (result ≡ ok execution) × (beats ≡ (none, w))
settle-ok result is_cancelled (some e, w') execution w h = absurd (ground arith)
settle-ok result true (none, w') execution w h = absurd (ground arith)
settle-ok result false (none, w') execution w h = (
  ap (λ (x : Result Exception RunExecution × World). x.0) h,
  ap (λ (x : Result Exception RunExecution × World). (none, x.1)) h,
)

execute_with_heartbeat-ok :
    (request : Request) (o : Outside) (lease : RunLease) (identity : RunIdentity) (w w' : World)
    (execution : RunExecution)
    → execute_with_heartbeat request o lease w ≡ (ok execution, w')
    → IsRecorded identity w.repository
    → ((result : GraphResult) × (execution ≡ executed o result)) × IsRecorded identity w'.repository
unfolding execute_with_heartbeat
execute_with_heartbeat-ok request o lease identity w w' execution h recorded =
    let (result, after) = execute_run request o w in
    let same = execute_run-repository request o w in
    let before = interfere o Point.executing after in
    let served : IsRecorded identity before.repository =
      perform_all-IsRecorded (o.others Point.executing) identity after.repository
        (rw same recorded) in
    let (e, beats) =
      settle-ok result (o.is_cancelled Point.executing)
        (lease_heartbeat o.run_lease_ttl lease o.beats before) execution w' h in
    (
      execute_run-ok request o w after execution
          (ap (λ (x : Result Exception RunExecution). (x, after)) e),
      (rw beats at
          (lease_heartbeat-IsRecorded o.run_lease_ttl lease o.beats identity before served)),
    )

pub pause-IsRecorded :
    (o : Outside) (p : Point) (identity : RunIdentity) (w w' : World) (u : Unit {0})
    → pause o p w ≡ (ok u, w')
    → IsRecorded identity w.repository
    → IsRecorded identity w'.repository
pause-IsRecorded o p identity w w' u e h =
    rw (pause-ok o p w w' u e) (perform_all-IsRecorded (o.others p) identity w.repository h)

pub pause-HasOutcome :
    (o : Outside) (p : Point) (identity : RunIdentity) (payload : Payload) (w w' : World)
    (u : Unit {0})
    → IsApart o identity.run_id
    → pause o p w ≡ (ok u, w')
    → HasOutcome identity payload w.repository
    → HasOutcome identity payload w'.repository
pause-HasOutcome o p identity payload w w' u a e h =
    rw (pause-ok o p w w' u e)
      (perform_all-HasOutcome (o.others p) identity payload w.repository (a.apart p) h)

-- The try block up to `terminal_persisted = True`.
pub persist-HasOutcome :
    (request : Request) (o : Outside) (lease : RunLease) (w w' : World) (execution : RunExecution)
    → Restores o.codec
    → lease.run_id ≡ request.identity.run_id
    → IsRecorded request.identity w.repository
    → persist request o lease w ≡ (ok execution, w')
    → HasOutcome request.identity (o.codec.dump execution.response) w'.repository
unfolding persist
persist-HasOutcome request o lease w w' execution codec own recorded h =
    let identity = request.identity in
    let mark = λ (x : RunExecution).
      mark_terminal lease (ending_of o x) (o.clock Point.ending 0) (o.clock Point.ending 1) in
    let (x, w1, e1, h1) =
      and_then-ok (execute_with_heartbeat request o lease w)
        (λ (x : RunExecution).
          pause o Point.inspecting >> (pause o Point.ending >> (call (mark x) >> pure x)))
        execution w' h in
    let ((result, made), r1) =
      execute_with_heartbeat-ok request o lease identity w w1 x e1 recorded in
    let (_, w2, e2, h2) =
      and_then-ok (pause o Point.inspecting w1)
        (λ (u : Unit {0}). pause o Point.ending >> (call (mark x) >> pure x)) execution w' h1 in
    let (_, w3, e3, h3) =
      and_then-ok (pause o Point.ending w2) (λ (u : Unit {0}). call (mark x) >> pure x) execution w'
        h2 in
    let (known, w4, e4, h4) =
      and_then-ok (call (mark x) w3) (λ (k : RunRecord). pure x) execution w' h3 in
    let r2 = pause-IsRecorded o Point.inspecting identity w1 w2 tt e2 r1 in
    let r3 = pause-IsRecorded o Point.ending identity w2 w3 tt e3 r2 in
    let over : is_over x.status ≡ true = ground (arith, made) in
    let done =
      mark_terminal-HasOutcome identity (o.codec.dump x.response) lease (ending_of o x)
        (o.clock Point.ending 0) (o.clock Point.ending 1) w3.repository w4.repository known own r3
        over (codec.dump-nonempty x.response) (call-ok (mark x) w3 w4 known e4) in
    ground (arith, done, h4)
