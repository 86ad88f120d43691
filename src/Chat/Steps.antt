-- ===== src/Chat/Steps.antt =====
-- chat_runtime.py: one step after another, and the calls of other requests during a wait.
use langchain_langraph_app_l.Prelude.{
  ℕ, ◌+◌, ◌≡◌, ◌≢◌, refl, inl, inr, String, List, [], ◌∷◌, none, some, All, Result, ok, err, eq_iff,
  arith, str_eq, Option-cases, Result-cases, Bool-cases,
}
use langchain_langraph_app_l.Prelude.Dict.{lookup, put, lookup-put}
use langchain_langraph_app_l.Runs.{
  Payload, RunRecord, RunIdentity, MemoryRunRepository, validate_identity,
}
use langchain_langraph_app_l.Runs.Memory.{
  new_record, new_lease, token_of, taken, or_now, ended, history_committed, create_or_get, acquire,
  renew, release, mark_terminal, mark_history_committed, reconcile_history_committed,
  revoke_resume_tokens, owned_record,
}
use langchain_langraph_app_l.Runs.Leases.{owned_record-Owns}
use langchain_langraph_app_l.Runs.Calls.{Call, perform, perform_all}
use langchain_langraph_app_l.Chat.{Exception, World, Act, and_then}
use langchain_langraph_app_l.Chat.Preflight.{stored_outcome}

-- What returns has returned in its first part.
pub and_then-ok {ℓ κ} :
    {A : Type ℓ} {B : Type κ} (x : Result Exception A × World) (f : A → Act B) (b : B) (w' : World)
    → and_then x f ≡ (ok b, w')
    → (a : A) × (w : World) × (x ≡ (ok a, w)) × (f a w ≡ (ok b, w'))
and_then-ok (ok a, w) f b w' h = (a, w, refl, h)
and_then-ok (err e, w) f b w' h = absurd (ground arith)

-- The run has a record that matches the identity.
pub record IsRecorded (identity : RunIdentity) (r : MemoryRunRepository) : Type 0 where
  pub known : RunRecord
  pub found : lookup identity.run_id r.records ≡ some known
  pub valid : validate_identity known identity ≡ ok tt

-- Such a record, with an outcome that is sent again.
pub record HasOutcome (identity : RunIdentity) (payload : Payload) (r : MemoryRunRepository)
    : Type 0 where
  pub known : RunRecord
  pub found : lookup identity.run_id r.records ≡ some known
  pub valid : validate_identity known identity ≡ ok tt
  pub outcome : stored_outcome known ≡ some payload

-- The call leaves the status and the payload of the run alone.
abbrev pub Spares : String → Call → Type 0
Spares run_id (Call.acquire_lease identity owner ttl now) = identity.run_id ≢ run_id
Spares run_id (Call.end_run lease e now now') = lease.run_id ≢ run_id
Spares run_id (Call.commit_history lease payload now now' now'') = lease.run_id ≢ run_id
Spares run_id (Call.reconcile_history id payload now now') = id ≢ run_id
Spares run_id _ = Unit

-- What the identity of a run is compared with.
abbrev pub name : RunRecord → (String × String) × (String × ℕ) × ℕ
name known = (
  (known.conversation_id, known.execution_thread_id),
  (known.request_hash, known.request_hash_version),
  known.state_schema_version,
)

-- What a call writes to the records: nothing, or one record. A record that was there keeps its
-- identity, and its outcome if the call spares the run.
pub data Written (c : Call) (r r' : MemoryRunRepository) : Type 0 where
  unwritten : r'.records ≡ r.records → Written c r r'
  written :
      (id : String) (old updated : RunRecord)
      → lookup id r.records ≡ some old
      → name updated ≡ name old
      → (Spares id c → stored_outcome updated ≡ stored_outcome old)
      → r'.records ≡ put id updated r.records
      → Written c r r'
  created :
      (id : String) (new : RunRecord)
      → lookup id r.records ≡ none
      → r'.records ≡ put id new r.records
      → Written c r r'

perform-Written : (c : Call) (r : MemoryRunRepository) → Written c r (perform c r)
unfolding perform create_or_get acquire renew release mark_terminal mark_history_committed
    reconcile_history_committed revoke_resume_tokens validate_identity
perform-Written Call.start_call r = unwritten refl
perform-Written Call.aclose_call r = unwritten refl
perform-Written (Call.create identity now) r =
    elim (Option-cases (lookup identity.run_id r.records)) [
      | inl e ↦ created identity.run_id (new_record identity now) e (ground (arith, e))
      | inr (known, e) ↦ unwritten (ground (arith, e))
    ]
perform-Written (Call.acquire_lease identity owner ttl now) r =
    elim (Result-cases (acquire identity owner ttl now r)) [
      | inr (x, e) ↦ unwritten (ground (arith, e))
      | inl ((lease, r'), e) ↦ elim (Option-cases (lookup identity.run_id r.records)) [
        | inl missing ↦ absurd (ground (arith, e, missing))
        | inr (known, found) ↦
            let new =
              new_lease identity owner ttl
                (token_of (lookup identity.conversation_id r.fencing) + 1) now in
            written identity.run_id known (taken known new now) found refl (λ h. absurd (h refl))
              (ground (arith, e, found))
      ]
    ]
perform-Written (Call.renew_lease lease ttl now now' now'') r =
    elim (Result-cases (owned_record lease now r)) [
      | inr (x, e) ↦ unwritten (ground (arith, e))
      | inl (known, e) ↦
          written lease.run_id known
            (record known { lease_expires_at = some (now' + ttl); updated_at = some now'' })
            (owned_record-Owns lease now r known e).1 refl (λ h. refl) (ground (arith, e))
    ]
perform-Written (Call.release_lease lease) r = unwritten (ground arith)
perform-Written (Call.end_run lease x now now') r = elim (Result-cases (owned_record lease now r)) [
  | inr (_, e) ↦ unwritten (ground (arith, e))
  | inl (known, e) ↦
      written lease.run_id known (ended known x now') (owned_record-Owns lease now r known e).1 refl
        (λ h. absurd (h refl)) (ground (arith, e))
]
perform-Written (Call.commit_history lease payload now now' now'') r =
    elim (Result-cases (owned_record lease now r)) [
      | inr (_, e) ↦ unwritten (ground (arith, e))
      | inl (known, e) ↦
          written lease.run_id known (history_committed known payload (some now') now'')
            (owned_record-Owns lease now r known e).1 refl (λ h. absurd (h refl))
            (ground (arith, e))
    ]
perform-Written (Call.reconcile_history id payload now now') r =
    elim (Option-cases (lookup id r.records)) [
      | inl e ↦ unwritten (ground (arith, e))
      | inr (known, e) ↦
          written id known
            (history_committed known payload (or_now known.history_committed_at now) now') e refl
            (λ h. absurd (h refl)) (ground (arith, e))
    ]
perform-Written (Call.revoke_tokens id now) r = elim (Option-cases (lookup id r.records)) [
  | inl e ↦ unwritten (ground (arith, e))
  | inr (known, e) ↦
      written id known
        (record known {
          resume_token_version = known.resume_token_version + 1;
          updated_at = some now;
        })
        e refl (λ h. refl) (ground (arith, e))
]

pub validate-name :
    (known updated : RunRecord) (identity : RunIdentity)
    → name updated ≡ name known
    → validate_identity known identity ≡ ok tt
    → validate_identity updated identity ≡ ok tt
unfolding validate_identity
validate-name known updated identity same h = ground arith

-- The record of the run after a call.
Kept : Call → String → RunRecord → MemoryRunRepository → Type 0
Kept c run_id known r' =
    (later : RunRecord) × (lookup run_id r'.records ≡ some later)
    × (name later ≡ name known)
    × (Spares run_id c → stored_outcome later ≡ stored_outcome known)

Written-Kept :
    (c : Call) (r r' : MemoryRunRepository) (run_id : String) (known : RunRecord)
    → Written c r r'
    → lookup run_id r.records ≡ some known
    → Kept c run_id known r'
unfolding Kept
Written-Kept c r r' run_id known (unwritten same) found =
    (known, ground (arith, same, found), refl, λ h. refl)
Written-Kept c r r' run_id known (written id old updated e same outcome put_e) found =
    elim (Bool-cases (str_eq id run_id)) [
      | inl p ↦
          let q = (eq_iff id run_id).0 p in
          let one : old ≡ known = ground (arith, e, found, q) in
          (
            updated,
            ground (arith, put_e, lookup-put id run_id updated r.records, p),
            rw⁻¹ one same,
            λ h. rw⁻¹ one (outcome (rw q h)),
          )
      | inr p ↦ (
        known,
        ground (arith, put_e, lookup-put id run_id updated r.records, p, found),
        refl,
        λ h. refl,
      )
    ]
Written-Kept c r r' run_id known (created id new missing put_e) found =
    elim (Bool-cases (str_eq id run_id)) [
      | inl p ↦ absurd (ground (arith, missing, found, (eq_iff id run_id).0 p))
      | inr p ↦ (
        known,
        ground (arith, put_e, lookup-put id run_id new r.records, p, found),
        refl,
        λ h. refl,
      )
    ]

pub perform-IsRecorded :
    (c : Call) (identity : RunIdentity) (r : MemoryRunRepository)
    → IsRecorded identity r
    → IsRecorded identity (perform c r)
unfolding Kept
perform-IsRecorded c identity r h =
    let (later, found, same, _) =
      Written-Kept c r (perform c r) identity.run_id h.known (perform-Written c r) h.found in
    record {
      known = later;
      found = found;
      valid = validate-name h.known later identity same h.valid;
    }

pub perform_all-IsRecorded :
    (cs : List Call) (identity : RunIdentity) (r : MemoryRunRepository)
    → IsRecorded identity r
    → IsRecorded identity (perform_all cs r)
unfolding perform_all
perform_all-IsRecorded [] identity r h = h
perform_all-IsRecorded (c ∷ cs) identity r h =
    perform_all-IsRecorded cs identity (perform c r) (perform-IsRecorded c identity r h)

pub perform-HasOutcome :
    (c : Call) (identity : RunIdentity) (payload : Payload) (r : MemoryRunRepository)
    → Spares identity.run_id c
    → HasOutcome identity payload r
    → HasOutcome identity payload (perform c r)
unfolding Kept
perform-HasOutcome c identity payload r spares h =
    let (later, found, same, outcome) =
      Written-Kept c r (perform c r) identity.run_id h.known (perform-Written c r) h.found in
    record {
      known = later;
      found = found;
      valid = validate-name h.known later identity same h.valid;
      outcome = rw (outcome spares) h.outcome;
    }

pub perform_all-HasOutcome :
    (cs : List Call) (identity : RunIdentity) (payload : Payload) (r : MemoryRunRepository)
    → All (Spares identity.run_id) cs
    → HasOutcome identity payload r
    → HasOutcome identity payload (perform_all cs r)
unfolding perform_all
perform_all-HasOutcome [] identity payload r spares h = h
perform_all-HasOutcome (c ∷ cs) identity payload r spares h =
    perform_all-HasOutcome cs identity payload (perform c r) spares.1
      (perform-HasOutcome c identity payload r spares.0 h)
