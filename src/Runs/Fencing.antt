-- ===== src/Runs/Fencing.antt =====
-- run_repository.py: the fencing tokens of a conversation, and leases with an old one.
use langchain_langraph_app_l.Prelude.{
  ℕ, ◌+◌, ◌≤◌, ◌<◌, ◌≡◌, inl, inr, String, List, [], ◌∷◌, true, Option, some, eq_iff, ok, err,
  arith, Option-cases,
}
use langchain_langraph_app_l.Prelude.Dict.{lookup, lookup-put}
use langchain_langraph_app_l.Runs.{
  Payload, RunLease, RunIdentity, stale_lease, MemoryRunRepository, validate_identity,
}
use langchain_langraph_app_l.Runs.Memory.{
  Ending, create_or_get, token_of, acquire, same_owner, owned_record, renew, release, mark_terminal,
  mark_history_committed, reconcile_history_committed, revoke_resume_tokens,
}
use langchain_langraph_app_l.Runs.Calls.{Call, after, perform, perform_all}
use langchain_langraph_app_l.Runs.Leases.{IsConsistent, same_owner-fields}
use langchain_langraph_app_l.Runs.Leases.Kept.{acquire-IsConsistent, perform_all-IsConsistent}

-- The last fencing token given out for a conversation, 0 before the first one.
abbrev pub last_token : String → MemoryRunRepository → ℕ
last_token c r = token_of (lookup c r.fencing)

acquire-last_token :
    (identity : RunIdentity) (owner : String) (ttl now : ℕ) (r : MemoryRunRepository) (c : String)
    → last_token c r ≤ last_token c (after r (acquire identity owner ttl now r))
unfolding acquire validate_identity
acquire-last_token identity owner ttl now r c =
    let token = token_of (lookup identity.conversation_id r.fencing) + 1 in
    ground (
      arith,
      lookup-put identity.conversation_id c token r.fencing,
      eq_iff identity.conversation_id c,
    )

pub acquired :
    (identity : RunIdentity) (owner : String) (ttl now : ℕ) (r r' : MemoryRunRepository)
    (lease : RunLease)
    → acquire identity owner ttl now r ≡ ok (lease, r')
    → (lease.fencing_token ≡ last_token identity.conversation_id r + 1)
      × (lease.conversation_id ≡ identity.conversation_id)
      × (last_token identity.conversation_id r' ≡ lease.fencing_token)
unfolding acquire validate_identity
acquired identity owner ttl now r r' lease h =
    let c = identity.conversation_id in
    ground (arith, lookup-put c c (last_token c r + 1) r.fencing, eq_iff c c)

perform-last_token :
    (call : Call) (r : MemoryRunRepository) (c : String)
    → last_token c r ≤ last_token c (perform call r)
unfolding perform create_or_get renew owned_record release mark_terminal mark_history_committed
    reconcile_history_committed revoke_resume_tokens validate_identity
perform-last_token (Call.acquire_lease identity owner ttl now) r c =
    acquire-last_token identity owner ttl now r c
perform-last_token _ r c = ground arith

pub perform_all-last_token :
    (calls : List Call) (r : MemoryRunRepository) (c : String)
    → last_token c r ≤ last_token c (perform_all calls r)
unfolding perform_all
perform_all-last_token [] r c = omega arith
perform_all-last_token (call ∷ calls) r c =
    omega (arith, perform-last_token call r c, perform_all-last_token calls (perform call r) c)

-- A lease with an older token than the last one is nobody's lease.
outdated :
    (r : MemoryRunRepository) (old : RunLease) (l : RunLease)
    → IsConsistent r
    → old.fencing_token < last_token old.conversation_id r
    → lookup old.conversation_id r.leases ≡ some l
    → same_owner l old ≡ true
    → ⊥
outdated r old l h less e same =
    let (_, token) = same_owner-fields l old same in
    let latest = h.latest old.conversation_id l e in ground arith

-- Every write with a lease is refused, and giving it back changes nothing.
pub record IsFenced (r : MemoryRunRepository) (lease : RunLease) : Type 0 where
  pub no_renewal : (ttl now now' now'' : ℕ) → renew lease ttl now now' now'' r ≡ err stale_lease
  pub no_outcome : (e : Ending) (now now' : ℕ) → mark_terminal lease e now now' r ≡ err stale_lease
  pub no_history :
      (payload : Option Payload) (now now' now'' : ℕ)
      → mark_history_committed lease payload now now' now'' r ≡ err stale_lease
  pub no_release : release lease r ≡ r

outdated-owned :
    (r : MemoryRunRepository) (old : RunLease) (now : ℕ)
    → IsConsistent r
    → old.fencing_token < last_token old.conversation_id r
    → owned_record old now r ≡ err stale_lease
unfolding owned_record
outdated-owned r old now h less = elim (Option-cases (lookup old.conversation_id r.leases)) [
  | inl e ↦ ground (arith, e)
  | inr (l, e) ↦ ground (arith, e, outdated r old l h less e)
]

outdated-IsFenced :
    (r : MemoryRunRepository) (old : RunLease)
    → IsConsistent r
    → old.fencing_token < last_token old.conversation_id r
    → IsFenced r old
unfolding renew mark_terminal mark_history_committed release
outdated-IsFenced r old h less = record {
  no_renewal = λ ttl now now' now''. ground (arith, outdated-owned r old now h less);
  no_outcome = λ e now now'. ground (arith, outdated-owned r old now h less);
  no_history = λ payload now now' now''. ground (arith, outdated-owned r old now h less);
  no_release = elim (Option-cases (lookup old.conversation_id r.leases)) [
    | inl e ↦ ground (arith, e)
    | inr (l, e) ↦ ground (arith, e, outdated r old l h less e)
  ];
}

-- In a consistent repository, once a run has acquired a conversation, a lease of the conversation
-- with a token that was given out before is fenced for ever: after any further calls, at any time,
-- it can neither be renewed nor persist an outcome or the history, and giving it back changes
-- nothing.
pub takeover_fences :
    (identity : RunIdentity) (owner : String) (ttl now : ℕ) (r r' : MemoryRunRepository)
    (lease old : RunLease) (calls : List Call)
    → IsConsistent r
    → acquire identity owner ttl now r ≡ ok (lease, r')
    → old.conversation_id ≡ identity.conversation_id
    → old.fencing_token ≤ last_token identity.conversation_id r
    → IsFenced (perform_all calls r') old
takeover_fences identity owner ttl now r r' lease old calls h e same given_out =
    let kept : IsConsistent r' = ground (arith, acquire-IsConsistent identity owner ttl now r h) in
    let (token, _, last) = acquired identity owner ttl now r r' lease e in
    let grown = perform_all-last_token calls r' identity.conversation_id in
    outdated-IsFenced (perform_all calls r') old (perform_all-IsConsistent calls r' kept)
      (ground (arith, token, last, grown))
