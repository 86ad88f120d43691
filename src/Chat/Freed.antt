-- ===== src/Chat/Freed.antt =====
-- chat_runtime.py: the end of a leased run, one way or another.
use langchain_langraph_app_l.Prelude.{
  ℕ, ◌≡◌, refl, inl, inr, String, List, [], ◌∷◌, Bool, true, false, Option, none, some, All, Result,
  ok, err, arith, Result-cases,
}
use langchain_langraph_app_l.Runs.{RunLease, MemoryRunRepository}
use langchain_langraph_app_l.Runs.Memory.{Done, renew, mark_terminal, mark_history_committed}
use langchain_langraph_app_l.Runs.Calls.{Call, after, perform, perform_all}
use langchain_langraph_app_l.Chat.{
  Request, ChatResponse, Exception, World, Act, ◌>>=◌, pure, Point, Beat, Outside, pause, interfere,
  call,
}
use langchain_langraph_app_l.Chat.Execution.{
  RunExecution, execute_run, lease_heartbeat, execute_with_heartbeat, settle,
}
use langchain_langraph_app_l.Chat.Preflight.{append_history_safely}
use langchain_langraph_app_l.Chat.Runtime.{
  interruption, ending_of, persist, commit_history, note_history, mark_history, handle,
  mark_interrupted_safely, swallow,
}
use langchain_langraph_app_l.Chat.Answered.{execute_run-repository}
use langchain_langraph_app_l.Chat.Release.{
  Mine, Leaves, perform-Mine, perform_all-Mine, Keeps, and_then-Mine, call-repository,
  IsUndisturbed,
}

pub pause-Keeps :
    (o : Outside) (p : Point) (lease : RunLease)
    → IsUndisturbed o lease.conversation_id
    → Keeps lease (pause o p)
unfolding Keeps pause
pause-Keeps o p lease quiet w h =
    ground (arith, perform_all-Mine lease (o.others p) w.repository (quiet.at_points p) h)

call-Keeps :
    {A : Type 0} (f : MemoryRunRepository → Done A) (c : Call) (lease : RunLease)
    → Leaves lease.conversation_id c
    → ((r : MemoryRunRepository) → after r (f r) ≡ perform c r)
    → Keeps lease (call f)
unfolding Keeps
call-Keeps f c lease leaves same w h =
    rw (call-repository f w, same w.repository) (perform-Mine lease c w.repository leaves h)

pure-Keeps : {A : Type 0} (lease : RunLease) (a : A) → Keeps lease (pure a)
unfolding Keeps
pure-Keeps lease a w h = h

then-Keeps :
    {A : Type 0} {B : Type 0} (lease : RunLease) (act : Act A) (f : A → Act B)
    → Keeps lease act
    → ((a : A) → Keeps lease (f a))
    → Keeps lease (act >>= f)
unfolding Keeps
then-Keeps lease act f h k w m = and_then-Mine lease (act w) f (h w m) k

lease_heartbeat-Mine :
    (lease current : RunLease) (ttl : ℕ) (beats : List Beat) (w : World)
    → All (λ (b : Beat). All (Leaves lease.conversation_id) b.others) beats
    → Mine lease w.repository
    → Mine lease (lease_heartbeat ttl current beats w).1.repository
unfolding lease_heartbeat perform
lease_heartbeat-Mine lease current ttl [] w leaves h = h
lease_heartbeat-Mine lease current ttl (b ∷ beats) w leaves h =
    let before = perform_all b.others w.repository in
    let kept = perform_all-Mine lease b.others w.repository leaves.0 h in
    let renewed =
      perform-Mine lease (Call.renew_lease current ttl b.now b.now' b.now'') before tt kept in
    elim (Result-cases (renew current ttl b.now b.now' b.now'' before)) [
      | inr (e, p) ↦ rw (p, lease_heartbeat) kept
      | inl ((next, r), p) ↦
          rw (p, lease_heartbeat)
            (lease_heartbeat-Mine lease next ttl beats
              (record w { repository = r; metrics = "chat.lease_renewed" ∷ w.metrics }) leaves.1
              (rw (p, perform) at renewed))
    ]

settle-Mine :
    (lease : RunLease) (x : Result Exception RunExecution) (b : Bool) (y : Option Exception × World)
    → Mine lease y.1.repository
    → Mine lease (settle x b y).1.repository
settle-Mine lease x b (some e, w) h = h
settle-Mine lease x true (none, w) h = h
settle-Mine lease x false (none, w) h = h

execute_with_heartbeat-Keeps :
    (request : Request) (o : Outside) (lease : RunLease)
    → IsUndisturbed o lease.conversation_id
    → Keeps lease (execute_with_heartbeat request o lease)
unfolding Keeps execute_with_heartbeat
execute_with_heartbeat-Keeps request o lease quiet w h =
    let (x, w1) = execute_run request o w in
    let before = interfere o Point.executing w1 in
    let same = execute_run-repository request o w in
    let served : Mine lease before.repository =
      perform_all-Mine lease (o.others Point.executing) w1.repository
        (quiet.at_points Point.executing) (rw same h) in
    settle-Mine lease x (o.is_cancelled Point.executing)
      (lease_heartbeat o.run_lease_ttl lease o.beats before)
      (lease_heartbeat-Mine lease lease o.run_lease_ttl o.beats before quiet.at_beats served)

pub persist-Keeps :
    (request : Request) (o : Outside) (lease : RunLease)
    → IsUndisturbed o lease.conversation_id
    → Keeps lease (persist request o lease)
unfolding persist perform
persist-Keeps request o lease quiet =
    then-Keeps lease (execute_with_heartbeat request o lease) _
      (execute_with_heartbeat-Keeps request o lease quiet)
      (λ x.
        then-Keeps lease (pause o Point.inspecting) _ (pause-Keeps o Point.inspecting lease quiet)
          (λ _.
            then-Keeps lease (pause o Point.ending) _ (pause-Keeps o Point.ending lease quiet) (λ _.
              then-Keeps lease
                (call (
                  mark_terminal lease (ending_of o x) (o.clock Point.ending 0)
                    (o.clock Point.ending 1)))
                _
                (call-Keeps
                  (mark_terminal lease (ending_of o x) (o.clock Point.ending 0)
                    (o.clock Point.ending 1))
                  (Call.end_run lease (ending_of o x) (o.clock Point.ending 0)
                    (o.clock Point.ending 1))
                  lease tt (λ r. refl))
                (λ _. pure-Keeps lease x))))

append-Keeps :
    (request : Request) (text : String) (now : ℕ) (lease : RunLease)
    → Keeps lease (append_history_safely request text now)
unfolding Keeps append_history_safely
append-Keeps request text now lease w h = ground (arith, h)

note_history-Keeps :
    (o : Outside) (lease : RunLease) (execution : RunExecution) (b : Bool)
    → IsUndisturbed o lease.conversation_id
    → Keeps lease (note_history o lease execution b)
unfolding note_history perform
note_history-Keeps o lease execution false quiet =
    pure-Keeps lease (record execution.response { history_persisted = some false })
note_history-Keeps o lease execution true quiet =
    let noted : ChatResponse = record execution.response { history_persisted = some true } in
    then-Keeps lease (pause o Point.committing) _ (pause-Keeps o Point.committing lease quiet) (λ _.
      then-Keeps lease (mark_history o lease execution) _
        (call-Keeps
          (mark_history_committed lease (some (o.codec.dump noted)) (o.clock Point.committing 0)
            (o.clock Point.committing 1) (o.clock Point.committing 2))
          (Call.commit_history lease (some (o.codec.dump noted)) (o.clock Point.committing 0)
            (o.clock Point.committing 1) (o.clock Point.committing 2))
          lease tt (λ r. refl))
        (λ _. pure-Keeps lease noted))

pub commit_history-Keeps :
    (request : Request) (o : Outside) (lease : RunLease) (execution : RunExecution)
    → IsUndisturbed o lease.conversation_id
    → Keeps lease (commit_history request o lease execution)
unfolding commit_history
commit_history-Keeps request o lease execution quiet =
    then-Keeps lease (pause o Point.appending) _ (pause-Keeps o Point.appending lease quiet) (λ _.
      then-Keeps lease
        (append_history_safely request execution.response.response (o.clock Point.appending 0)) _
        (append-Keeps request execution.response.response (o.clock Point.appending 0) lease)
        (λ b. note_history-Keeps o lease execution b quiet))

swallow-repository :
    {A : Type 0} (x : Result Exception A × World) → (swallow x).1.repository ≡ x.1.repository
swallow-repository (ok a, w) = refl
swallow-repository (err e, w) = ground arith

mark_interrupted-Keeps :
    (o : Outside) (lease : RunLease) (code : String)
    → IsUndisturbed o lease.conversation_id
    → Keeps lease (mark_interrupted_safely o lease code)
unfolding mark_interrupted_safely perform Keeps
mark_interrupted-Keeps o lease code quiet =
    let mark =
      mark_terminal lease (interruption code) (o.clock Point.interrupting 0)
        (o.clock Point.interrupting 1) in
    then-Keeps lease (pause o Point.interrupting) _ (pause-Keeps o Point.interrupting lease quiet)
      (λ _ w h. rw (swallow-repository (call mark w)) (
        call-Keeps mark
          (Call.end_run lease (interruption code) (o.clock Point.interrupting 0)
            (o.clock Point.interrupting 1))
          lease tt (λ r. refl) w h))

pub handle-Keeps :
    (o : Outside) (lease : RunLease) (b : Bool) (e : Exception)
    → IsUndisturbed o lease.conversation_id
    → Keeps lease (handle o lease b e)
unfolding Keeps handle
handle-Keeps o lease b e quiet w h =
    let cancelled = mark_interrupted-Keeps o lease "request_cancelled" quiet w h in
    let stopped = mark_interrupted-Keeps o lease "runtime_interrupted" quiet w h in
    ground (arith, h, cancelled, stopped)
