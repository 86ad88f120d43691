-- ===== src/Chat/Leased.antt =====
-- chat_runtime.py: what a leased run that returns leaves behind.
use langchain_langraph_app_l.Prelude.{
  ℕ, ◌≡◌, refl, ap, String, Bool, true, false, some, Result, ok, err, arith,
}
use langchain_langraph_app_l.Runs.{
  RunRecord, RunIdentity, RunLease, MemoryRunRepository, validate_identity,
}
use langchain_langraph_app_l.Runs.Memory.{acquire, release, mark_history_committed}
use langchain_langraph_app_l.Runs.Calls.{Call, perform}
use langchain_langraph_app_l.Chat.{
  Request, ChatResponse, Exception, World, Act, ◌>>=◌, ◌>>◌, pure, Point, Codec, Outside, pause,
  call,
}
use langchain_langraph_app_l.Chat.Execution.{RunExecution}
use langchain_langraph_app_l.Chat.Preflight.{append_history_safely}
use langchain_langraph_app_l.Chat.Runtime.{
  persist, mark_history, note_history, commit_history, handle, release_lease, leased_run,
  after_persist, take_lease, or_handle,
}
use langchain_langraph_app_l.Chat.Steps.{
  and_then-ok, IsRecorded, HasOutcome, perform-IsRecorded, perform-HasOutcome,
}
use langchain_langraph_app_l.Chat.Outcome.{
  Restores, IsApart, IsAnswered, call-ok, append-repository, mark_history-HasOutcome,
}
use langchain_langraph_app_l.Chat.Answered.{persist-HasOutcome, pause-HasOutcome, pause-IsRecorded}

pub note_history-IsAnswered :
    (identity : RunIdentity) (o : Outside) (lease : RunLease) (persisted : Bool) (w w' : World)
    (execution : RunExecution) (response : ChatResponse)
    → Restores o.codec
    → IsApart o identity.run_id
    → lease.run_id ≡ identity.run_id
    → HasOutcome identity (o.codec.dump execution.response) w.repository
    → note_history o lease execution persisted w ≡ (ok response, w')
    → IsAnswered identity o.codec response.response w'.repository
unfolding note_history
note_history-IsAnswered identity o lease false w w' execution response codec apart own outcome h =
    record {
      payload = o.codec.dump execution.response;
      response = execution.response;
      outcome = ground (arith, h, outcome);
      valid_payload = codec.validate-dump execution.response;
      same_text = ground (arith, h);
    }
note_history-IsAnswered identity o lease true w w' execution response codec apart own outcome h =
    let noted : ChatResponse = record execution.response { history_persisted = some true } in
    let (_, w1, e1, h1) =
      and_then-ok (pause o Point.committing w)
        (λ (u : Unit {0}). mark_history o lease execution >> pure noted) response w' h in
    let (known, w2, e2, h2) =
      and_then-ok (mark_history o lease execution w1) (λ (k : RunRecord). pure noted) response w'
        h1 in
    let o1 =
      pause-HasOutcome o Point.committing identity (o.codec.dump execution.response) w w1 tt apart
        e1 outcome in
    let written =
      call-ok
        (mark_history_committed lease (some (o.codec.dump noted)) (o.clock Point.committing 0)
          (o.clock Point.committing 1) (o.clock Point.committing 2))
        w1 w2 known e2 in
    let o2 =
      mark_history-HasOutcome identity (o.codec.dump execution.response) (o.codec.dump noted) lease
        (o.clock Point.committing 0) (o.clock Point.committing 1) (o.clock Point.committing 2)
        w1.repository w2.repository known own o1 written in
    record {
      payload = o.codec.dump noted;
      response = noted;
      outcome = ground (arith, h2, o2);
      valid_payload = codec.validate-dump noted;
      same_text = ground (arith, h2);
    }

-- The rest of the try block.
commit_history-IsAnswered :
    (request : Request) (o : Outside) (lease : RunLease) (w w' : World) (execution : RunExecution)
    (response : ChatResponse)
    → Restores o.codec
    → IsApart o request.identity.run_id
    → lease.run_id ≡ request.identity.run_id
    → HasOutcome request.identity (o.codec.dump execution.response) w.repository
    → commit_history request o lease execution w ≡ (ok response, w')
    → IsAnswered request.identity o.codec response.response w'.repository
unfolding commit_history
commit_history-IsAnswered request o lease w w' execution response codec apart own outcome h =
    let identity = request.identity in
    let append =
      append_history_safely request execution.response.response (o.clock Point.appending 0) in
    let (_, w1, e1, h1) =
      and_then-ok (pause o Point.appending w)
        (λ (u : Unit {0}). append >>= note_history o lease execution) response w' h in
    let o1 =
      pause-HasOutcome o Point.appending identity (o.codec.dump execution.response) w w1 tt apart e1
        outcome in
    let (persisted, w2, e2, h2) =
      and_then-ok (append w1) (note_history o lease execution) response w' h1 in
    let same =
      append-repository request execution.response.response (o.clock Point.appending 0) w1 w2
        persisted e2 in
    note_history-IsAnswered identity o lease persisted w2 w' execution response codec apart own
      (rw same o1) h2

handle-raises :
    (o : Outside) (lease : RunLease) (b : Bool) (e : Exception) (w w' : World)
    (response : ChatResponse)
    → handle o lease b e w ≡ (ok response, w')
    → ⊥
unfolding handle
handle-raises o lease b e w w' response h = ground (arith, h)

or_handle-ok :
    (o : Outside) (lease : RunLease) (b : Bool) (x : Result Exception ChatResponse × World)
    (w' : World) (response : ChatResponse)
    → or_handle o lease b x ≡ (ok response, w')
    → x ≡ (ok response, w')
or_handle-ok o lease b (ok given, w) w' response h = h
or_handle-ok o lease b (err e, w) w' response h = absurd (handle-raises o lease b e w w' response h)

after_persist-IsAnswered :
    (request : Request) (o : Outside) (lease : RunLease) (x : Result Exception RunExecution)
    (w w' : World) (response : ChatResponse)
    → Restores o.codec
    → IsApart o request.identity.run_id
    → lease.run_id ≡ request.identity.run_id
    → ((execution : RunExecution)
        → x ≡ ok execution
        → HasOutcome request.identity (o.codec.dump execution.response) w.repository)
    → after_persist request o lease (x, w) ≡ (ok response, w')
    → IsAnswered request.identity o.codec response.response w'.repository
after_persist-IsAnswered request o lease (err e) w w' response codec apart own outcome h =
    absurd (handle-raises o lease false e w w' response h)
after_persist-IsAnswered request o lease (ok execution) w w' response codec apart own outcome h =
    commit_history-IsAnswered request o lease w w' execution response codec apart own
      (outcome execution refl)
      (or_handle-ok o lease true (commit_history request o lease execution w) w' response h)

pub release-IsAnswered :
    (lease : RunLease) (identity : RunIdentity) (codec : Codec) (text : String)
    (r : MemoryRunRepository)
    → IsAnswered identity codec text r
    → IsAnswered identity codec text (release lease r)
unfolding perform
release-IsAnswered lease identity codec text r h = record {
  payload = h.payload;
  response = h.response;
  outcome = perform-HasOutcome (Call.release_lease lease) identity h.payload r tt h.outcome;
  valid_payload = h.valid_payload;
  same_text = h.same_text;
}

pub pause-IsAnswered :
    (o : Outside) (p : Point) (identity : RunIdentity) (codec : Codec) (text : String)
    (w w' : World) (u : Unit {0})
    → IsApart o identity.run_id
    → pause o p w ≡ (ok u, w')
    → IsAnswered identity codec text w.repository
    → IsAnswered identity codec text w'.repository
pause-IsAnswered o p identity codec text w w' u apart e h = record {
  payload = h.payload;
  response = h.response;
  outcome = pause-HasOutcome o p identity h.payload w w' u apart e h.outcome;
  valid_payload = h.valid_payload;
  same_text = h.same_text;
}

pub leased_run-IsAnswered :
    (request : Request) (o : Outside) (lease : RunLease) (w w' : World) (response : ChatResponse)
    → Restores o.codec
    → IsApart o request.identity.run_id
    → lease.run_id ≡ request.identity.run_id
    → IsRecorded request.identity w.repository
    → leased_run request o lease w ≡ (ok response, w')
    → IsAnswered request.identity o.codec response.response w'.repository
unfolding leased_run release_lease
leased_run-IsAnswered request o lease w w' response codec apart own recorded h =
    let identity = request.identity in
    let (x, w1) = persist request o lease w in
    let (y, w2) = after_persist request o lease (x, w1) in
    let give_back : Act (Unit {0}) =
      λ w. (ok tt, record w { repository = release lease w.repository }) in
    let (_, w3, e3, h3) =
      and_then-ok (release_lease o lease w2) (λ (u : Unit {0}) (w : World). (y, w)) response w' h in
    let (_, w4, e4, h4) =
      and_then-ok (pause o Point.releasing w2) (λ (u : Unit {0}). give_back) tt w3 e3 in
    let done =
      after_persist-IsAnswered request o lease x w1 w2 response codec apart own
        (λ execution e.
          persist-HasOutcome request o lease w w1 execution codec own recorded
            (ap (λ (x : Result Exception RunExecution). (x, w1)) e))
        (ap (λ (z : Result Exception ChatResponse × World). (z.0, w2)) h3) in
    let paused =
      pause-IsAnswered o Point.releasing identity o.codec response.response w2 w4 tt apart e4
        done in
    let released =
      release-IsAnswered lease identity o.codec response.response w4.repository paused in
    ground (arith, released, h4, h3)

acquired-run :
    (identity : RunIdentity) (owner : String) (ttl now : ℕ) (r r' : MemoryRunRepository)
    (lease : RunLease)
    → acquire identity owner ttl now r ≡ ok (lease, r')
    → lease.run_id ≡ identity.run_id
unfolding acquire validate_identity
acquired-run identity owner ttl now r r' lease h = ground arith

-- A lease that is taken is for the run of the request, which is recorded.
pub take_lease-IsRecorded :
    (request : Request) (o : Outside) (w w' : World) (lease : RunLease)
    → IsRecorded request.identity w.repository
    → take_lease request o w ≡ (ok lease, w')
    → (lease.run_id ≡ request.identity.run_id) × IsRecorded request.identity w'.repository
unfolding perform
take_lease-IsRecorded request o w w' lease recorded h =
    let identity = request.identity in
    let now = o.clock Point.acquiring 0 in
    let take = acquire identity o.owner_id o.run_lease_ttl now in
    let (_, w1, e1, h1) =
      and_then-ok (pause o Point.acquiring w) (λ (u : Unit {0}). call take) lease w' h in
    let r1 = pause-IsRecorded o Point.acquiring identity w w1 tt e1 recorded in
    let granted = call-ok take w1 w' lease h1 in
    let r2 =
      perform-IsRecorded (Call.acquire_lease identity o.owner_id o.run_lease_ttl now) identity
        w1.repository r1 in
    (
      acquired-run identity o.owner_id o.run_lease_ttl now w1.repository w'.repository lease
          granted,
      rw (granted, perform) at r2,
    )
