-- ===== src/Chat/Idempotent.antt =====
-- chat_runtime.py: a request and its retry.
use langchain_langraph_app_l.Prelude.{
  ◌≡◌, ◌⊎◌, ◌∙◌, inl, inr, Bool, true, false, not, ◌&&◌, ◌||◌, ◌==◌, Option, none, some, ok, arith,
  Option-cases, Bool-cases, is_some,
}
use langchain_langraph_app_l.Runs.{Payload, RunRecord}
use langchain_langraph_app_l.Runs.Memory.{reconcile_history_committed}
use langchain_langraph_app_l.Chat.{
  Request, ChatResponse, World, ◌>>=◌, ◌>>◌, pure, inc, Point, Outside, pause, call,
}
use langchain_langraph_app_l.Chat.Preflight.{
  append_history_safely, checkpoint_exists_safely, stored_outcome, note_replay, retry_history,
  replay, preflight_existing_run, find_record, Found, refusal,
}
use langchain_langraph_app_l.Chat.Runtime.{
  ainvoke_with_identity, known_checkpoint, check_checkpoint, answer_found, take_lease, leased_run,
  require_checkpoint,
}
use langchain_langraph_app_l.Chat.Steps.{and_then-ok, IsRecorded, HasOutcome}
use langchain_langraph_app_l.Chat.Outcome.{
  Restores, IsApart, IsAnswered, call-ok, append-repository, reconcile-HasOutcome,
}
use langchain_langraph_app_l.Chat.Answered.{pause-HasOutcome, pause-IsRecorded}
use langchain_langraph_app_l.Chat.Leased.{leased_run-IsAnswered, take_lease-IsRecorded}
use langchain_langraph_app_l.Chat.Retry.{Answers, IsCalm, ainvoke-Answers}
use langchain_langraph_app_l.Chat.Found.{Shows, find_record-Shows}

note_replay-IsAnswered :
    (request : Request) (o : Outside) (payload : Payload) (response response' : ChatResponse)
    (b : Bool) (w w' : World)
    → Restores o.codec
    → IsApart o request.identity.run_id
    → HasOutcome request.identity payload w.repository
    → o.codec.validate payload ≡ some response
    → note_replay request o response b w ≡ (ok response', w')
    → IsAnswered request.identity o.codec response'.response w'.repository
unfolding note_replay
note_replay-IsAnswered request o payload response response' false w w' codec apart outcome valid h =
    record {
      payload = payload;
      response = response;
      outcome = ground (arith, h, outcome);
      valid_payload = valid;
      same_text = ground (arith, h);
    }
note_replay-IsAnswered request o payload response response' true w w' codec apart outcome valid h =
    let identity = request.identity in
    let noted : ChatResponse = record response { history_persisted = some true } in
    let mark =
      reconcile_history_committed identity.run_id (some (o.codec.dump noted))
        (o.clock Point.reconciling 0) (o.clock Point.reconciling 1) in
    let (_, w1, e1, h1) =
      and_then-ok (pause o Point.reconciling w)
        (λ (u : Unit {0}). call mark >> (inc "chat.idempotent_durable_replay" >> pure noted))
        response' w' h in
    let (known, w2, e2, h2) =
      and_then-ok (call mark w1)
        (λ (k : RunRecord). inc "chat.idempotent_durable_replay" >> pure noted) response' w' h1 in
    let o1 = pause-HasOutcome o Point.reconciling identity payload w w1 tt apart e1 outcome in
    let o2 =
      reconcile-HasOutcome identity payload (o.codec.dump noted) (o.clock Point.reconciling 0)
        (o.clock Point.reconciling 1) w1.repository w2.repository known o1
        (call-ok mark w1 w2 known e2) in
    record {
      payload = o.codec.dump noted;
      response = noted;
      outcome = ground (arith, h2, o2);
      valid_payload = codec.validate-dump noted;
      same_text = ground (arith, h2);
    }

replay-IsAnswered :
    (request : Request) (o : Outside) (known : RunRecord) (payload : Payload)
    (response : ChatResponse) (w w' : World)
    → Restores o.codec
    → IsApart o request.identity.run_id
    → HasOutcome request.identity payload w.repository
    → replay request o known payload w ≡ (ok response, w')
    → IsAnswered request.identity o.codec response.response w'.repository
unfolding replay retry_history
replay-IsAnswered request o known payload response w w' codec apart outcome h =
    elim (Option-cases (o.codec.validate payload)) [
      | inl invalid ↦ absurd (ground (arith, h, invalid))
      | inr (given, valid) ↦ elim (Bool-cases (is_some known.history_committed_at)) [
        | inl e ↦ record {
          payload = payload;
          response = given;
          outcome = ground (arith, h, valid, e, outcome);
          valid_payload = valid;
          same_text = ground (arith, h, valid, e);
        }
        | inr e ↦
            let append = append_history_safely request given.response (o.clock Point.replaying 0) in
            let (_, w1, e1, h1) =
              and_then-ok (pause o Point.replaying w)
                (λ (u : Unit {0}). append >>= note_replay request o given) response w'
                (ground (arith, h, valid, e)) in
            let (b, w2, e2, h2) =
              and_then-ok (append w1) (note_replay request o given) response w' h1 in
            let o1 =
              pause-HasOutcome o Point.replaying request.identity payload w w1 tt apart e1
                outcome in
            let same =
              append-repository request given.response (o.clock Point.replaying 0) w1 w2 b e2 in
            note_replay-IsAnswered request o payload given response b w2 w' codec apart (rw same o1)
              valid h2
      ]
    ]

preflight-ok :
    (request : Request) (o : Outside) (found : Found) (x : Option ChatResponse) (w w' : World)
    → preflight_existing_run request o found w ≡ (ok x, w')
    → ((payload : Payload) × (response : ChatResponse) × (stored_outcome found.known ≡ some payload)
        × (x ≡ some response)
        × (replay request o found.known payload w ≡ (ok response, w')))
      ⊎ ((x ≡ none) × (w' ≡ w))
unfolding preflight_existing_run
preflight-ok request o found x w w' h = elim (Option-cases (stored_outcome found.known)) [
  | inl e ↦ elim (Option-cases (refusal request found (o.clock Point.replaying 1))) [
    | inl q ↦ inr (ground (arith, h, e, q), ground (arith, h, e, q))
    | inr (raised, q) ↦ absurd (ground (arith, h, e, q))
  ]
  | inr (payload, e) ↦
      elim (Bool-cases (
        request.resumed
        && not (request.identity.resume_token_version == found.known.resume_token_version))) [
          | inl revoked ↦ absurd (ground (arith, h, e, revoked))
          | inr valid ↦
              let (response, w1, e1, h1) =
                and_then-ok (replay request o found.known payload w)
                  (λ (r : ChatResponse). pure (some r)) x w' (ground (arith, h, e, valid)) in
              inl (payload, response, e, ground (arith, h1), ground (arith, e1, h1))
        ]
]

checkpoint-repository :
    (o : Outside) (required : Bool) (w w' : World) (b : Bool)
    → checkpoint_exists_safely o required w ≡ (ok b, w')
    → w'.repository ≡ w.repository
unfolding checkpoint_exists_safely
checkpoint-repository o required w w' b h = ground arith

known_checkpoint-IsRecorded :
    (request : Request) (o : Outside) (found : Found) (w w' : World) (b : Bool)
    → known_checkpoint request o found w ≡ (ok b, w')
    → IsRecorded request.identity w.repository
    → IsRecorded request.identity w'.repository
unfolding known_checkpoint
known_checkpoint-IsRecorded request o found w w' b h recorded =
    elim (Option-cases found.checkpoint_exists) [
      | inr (exists, e) ↦ ground (arith, h, e, recorded)
      | inl e ↦
          let required = request.resumed || (request.client_supplied_run_id && not found.created) in
          let (_, w1, e1, h1) =
            and_then-ok (pause o Point.checking w)
              (λ (u : Unit {0}). checkpoint_exists_safely o required) b w' (ground (arith, h, e)) in
          let r1 = pause-IsRecorded o Point.checking request.identity w w1 tt e1 recorded in
          rw (checkpoint-repository o required w1 w' b h1) r1
    ]

check_checkpoint-IsRecorded :
    (request : Request) (o : Outside) (found : Found) (w w' : World) (u : Unit {0})
    → check_checkpoint request o found w ≡ (ok u, w')
    → IsRecorded request.identity w.repository
    → IsRecorded request.identity w'.repository
unfolding check_checkpoint
check_checkpoint-IsRecorded request o found w w' u h recorded =
    let (exists, w1, e1, h1) =
      and_then-ok (known_checkpoint request o found w) (require_checkpoint request found) u w' h in
    let r1 = known_checkpoint-IsRecorded request o found w w1 exists e1 recorded in
    let same : w' ≡ w1 = ground (arith, h1) in rw same r1

-- A request that returns leaves its run recorded with a response of the same text.
ainvoke-IsAnswered :
    (request : Request) (o : Outside) (w w' : World) (response : ChatResponse)
    → Restores o.codec
    → IsApart o request.identity.run_id
    → ainvoke_with_identity request o w ≡ (ok response, w')
    → IsAnswered request.identity o.codec response.response w'.repository
unfolding Shows ainvoke_with_identity answer_found
ainvoke-IsAnswered request o w w' response codec apart h =
    let (found, w1, e1, h1) =
      and_then-ok (find_record request o w)
        (λ (found : Found). preflight_existing_run request o found >>= answer_found request o found)
        response w' h in
    let (known, valid) = find_record-Shows request o w w1 found e1 in
    let (x, w2, e2, h2) =
      and_then-ok (preflight_existing_run request o found w1) (answer_found request o found)
        response w' h1 in
    elim (preflight-ok request o found x w1 w2 e2) [
      | inl (payload, given, outcome, same, replayed) ↦
          let kept =
            replay-IsAnswered request o found.known payload given w1 w2 codec apart
              (record { known = found.known; found = known; valid = valid; outcome = outcome })
              replayed in
          ground (arith, kept, h2, same)
      | inr (same, unchanged) ↦
          let (_, w3, e3, h3) =
            and_then-ok (check_checkpoint request o found w2)
              (λ (u : Unit {0}). take_lease request o >>= leased_run request o) response w'
              (ground (arith, h2, same)) in
          let r2 : IsRecorded request.identity w2.repository =
            rw unchanged (record { known = found.known; found = known; valid = valid }) in
          let r3 = check_checkpoint-IsRecorded request o found w2 w3 tt e3 r2 in
          let (lease, w4, e4, h4) =
            and_then-ok (take_lease request o w3) (leased_run request o) response w' h3 in
          let (own, r4) = take_lease-IsRecorded request o w3 w4 lease r3 e4 in
          leased_run-IsAnswered request o lease w4 w' response codec apart own r4 h4
    ]

-- Once a request has been answered, a retry of its run that is not cancelled and does not ask to
-- resume is answered with the same text, and begins no execution. No other request acquires, ends,
-- commits or reconciles that run at a wait of the two, and pydantic reads each response back from
-- its payload, which is not empty.
pub ainvoke-idempotent :
    (request retry : Request) (o o' : Outside) (w w' : World) (response : ChatResponse)
    → Restores o.codec
    → o'.codec ≡ o.codec
    → IsApart o request.identity.run_id
    → IsApart o' request.identity.run_id
    → ainvoke_with_identity request o w ≡ (ok response, w')
    → retry.identity ≡ request.identity
    → retry.resumed ≡ false
    → IsCalm o'
    → Answers (ainvoke_with_identity retry o' w') response.response w'
unfolding Answers
ainvoke-idempotent request retry o o' w w' response codec same apart apart' h identity fresh calm =
    let a = ainvoke-IsAnswered request o w w' response codec apart h in
    let (given, w2, e, text, count) =
      ainvoke-Answers retry o' a.payload a.response w' fresh calm (rw identity apart')
        (rw identity a.outcome) (rw same a.valid_payload) in
    (given, w2, e, text ∙ a.same_text, count)
