-- ===== src/Chat/Outcome.antt =====
-- chat_runtime.py: the record that a request leaves behind when it has been answered.
use langchain_langraph_app_l.Prelude.{
  ℕ, ◌≡◌, refl, inl, inr, String, Bool, true, some, All, ok, eq_iff, arith, Result-cases,
}
use langchain_langraph_app_l.Prelude.Dict.{lookup, lookup-put}
use langchain_langraph_app_l.Runs.{Payload, RunRecord, RunIdentity, RunLease, MemoryRunRepository}
use langchain_langraph_app_l.Runs.Memory.{
  Done, Ending, mark_terminal, mark_history_committed, reconcile_history_committed, owned_record,
  ended, history_committed, or_now, store, nonempty_payload,
}
use langchain_langraph_app_l.Runs.Leases.{owned_record-Owns}
use langchain_langraph_app_l.Chat.{
  Request, ChatResponse, World, Point, Codec, Outside, pause, interfere, call,
}
use langchain_langraph_app_l.Chat.Preflight.{stored_outcome, is_over, append_history_safely}
use langchain_langraph_app_l.Chat.Steps.{IsRecorded, HasOutcome, Spares, name, validate-name}

-- What is relied on of pydantic: a response is read back from its payload, which is not empty.
pub record Restores (codec : Codec) : Type 0 where
  pub validate-dump :
      (response : ChatResponse) → codec.validate (codec.dump response) ≡ some response
  pub dump-nonempty :
      (response : ChatResponse)
      → nonempty_payload (some (codec.dump response)) ≡ some (codec.dump response)

-- The calls of other requests leave the status and the payload of the run alone.
pub record IsApart (o : Outside) (run_id : String) : Type 0 where
  pub apart : (p : Point) → All (Spares run_id) (o.others p)

-- The run is recorded with a response of this text.
pub record IsAnswered (identity : RunIdentity) (codec : Codec) (text : String)
    (r : MemoryRunRepository) : Type 0 where
  pub payload : Payload
  pub response : ChatResponse
  pub outcome : HasOutcome identity payload r
  pub valid_payload : codec.validate payload ≡ some response
  pub same_text : response.response ≡ text

pub pause-ok :
    (o : Outside) (p : Point) (w w' : World) (u : Unit {0})
    → pause o p w ≡ (ok u, w')
    → w' ≡ interfere o p w
unfolding pause
pause-ok o p w w' u h = ground arith

pub call-ok :
    {A : Type 0} (f : MemoryRunRepository → Done A) (w w' : World) (a : A)
    → call f w ≡ (ok a, w')
    → f w.repository ≡ ok (a, w'.repository)
call-ok f w w' a h = elim (Result-cases (f w.repository)) [
  | inl ((b, r), e) ↦ ground (arith, e)
  | inr (x, e) ↦ absurd (ground (arith, e))
]

pub append-repository :
    (request : Request) (text : String) (now : ℕ) (w w' : World) (b : Bool)
    → append_history_safely request text now w ≡ (ok b, w')
    → w'.repository ≡ w.repository
unfolding append_history_safely
append-repository request text now w w' b h = ground arith

store-HasOutcome :
    (identity : RunIdentity) (payload : Payload) (id : String) (known updated : RunRecord)
    (r : MemoryRunRepository)
    → id ≡ identity.run_id
    → lookup id r.records ≡ some known
    → IsRecorded identity r
    → name updated ≡ name known
    → stored_outcome updated ≡ some payload
    → HasOutcome identity payload (store id updated r)
store-HasOutcome identity payload id known updated r same_id found h same outcome = record {
  known = updated;
  found =
      ground (
        arith,
        same_id,
        lookup-put id identity.run_id updated r.records,
        eq_iff id identity.run_id,
      );
  valid =
      validate-name h.known updated identity (ground (arith, same, found, same_id, h.found))
        h.valid;
  outcome = outcome;
}

pub mark_terminal-HasOutcome :
    (identity : RunIdentity) (payload : Payload) (lease : RunLease) (e : Ending) (now now' : ℕ)
    (r r' : MemoryRunRepository) (x : RunRecord)
    → lease.run_id ≡ identity.run_id
    → IsRecorded identity r
    → is_over e.status ≡ true
    → nonempty_payload e.response_payload ≡ some payload
    → mark_terminal lease e now now' r ≡ ok (x, r')
    → HasOutcome identity payload r'
unfolding mark_terminal
mark_terminal-HasOutcome identity payload lease e now now' r r' x same recorded over full h =
    elim (Result-cases (owned_record lease now r)) [
      | inr (_, p) ↦ absurd (ground (arith, p))
      | inl (known, p) ↦
          let found = (owned_record-Owns lease now r known p).1 in
          let outcome : stored_outcome (ended known e now') ≡ some payload =
            ground (arith, over, full) in
          let result : r' ≡ store lease.run_id (ended known e now') r = ground (arith, p) in
          rw result (
            store-HasOutcome identity payload lease.run_id known (ended known e now') r same found
              recorded refl outcome)
    ]

pub HasOutcome-IsRecorded :
    (identity : RunIdentity) (payload : Payload) (r : MemoryRunRepository)
    → HasOutcome identity payload r
    → IsRecorded identity r
HasOutcome-IsRecorded identity payload r h = record {
  known = h.known;
  found = h.found;
  valid = h.valid;
}

pub mark_history-HasOutcome :
    (identity : RunIdentity) (payload payload' : Payload) (lease : RunLease) (now now' now'' : ℕ)
    (r r' : MemoryRunRepository) (x : RunRecord)
    → lease.run_id ≡ identity.run_id
    → HasOutcome identity payload r
    → mark_history_committed lease (some payload') now now' now'' r ≡ ok (x, r')
    → HasOutcome identity payload' r'
unfolding mark_history_committed
mark_history-HasOutcome identity payload payload' lease now now' now'' r r' x same h e =
    elim (Result-cases (owned_record lease now r)) [
      | inr (_, p) ↦ absurd (ground (arith, p))
      | inl (known, p) ↦
          let found = (owned_record-Owns lease now r known p).1 in
          let updated = history_committed known (some payload') (some now') now'' in
          let outcome : stored_outcome updated ≡ some payload' =
            ground (arith, found, same, h.found, h.outcome) in
          let result : r' ≡ store lease.run_id updated r = ground (arith, p) in
          rw result (
            store-HasOutcome identity payload' lease.run_id known updated r same found
              (HasOutcome-IsRecorded identity payload r h) refl outcome)
    ]

pub reconcile-HasOutcome :
    (identity : RunIdentity) (payload payload' : Payload) (now now' : ℕ)
    (r r' : MemoryRunRepository) (x : RunRecord)
    → HasOutcome identity payload r
    → reconcile_history_committed identity.run_id (some payload') now now' r ≡ ok (x, r')
    → HasOutcome identity payload' r'
unfolding reconcile_history_committed
reconcile-HasOutcome identity payload payload' now now' r r' x h e =
    let updated =
      history_committed h.known (some payload') (or_now h.known.history_committed_at now) now' in
    let outcome : stored_outcome updated ≡ some payload' = ground (arith, h.outcome) in
    let result : r' ≡ store identity.run_id updated r = ground (arith, h.found) in
    rw result (
      store-HasOutcome identity payload' identity.run_id h.known updated r refl h.found
        (HasOutcome-IsRecorded identity payload r h) refl outcome)
