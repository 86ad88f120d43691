-- ===== src/Chat/Release.antt =====
-- chat_runtime.py: the lease of a request that has ended, one way or another.
use langchain_langraph_app_l.Prelude.{
  ℕ, ◌+◌, ◌≡◌, ◌≢◌, inl, inr, String, List, [], ◌∷◌, Bool, true, Option, none, some, All, Result,
  ok, err, eq_iff, arith, str_eq, Result-cases, Bool-cases,
}
use langchain_langraph_app_l.Prelude.Dict.{lookup, lookup-put, lookup-remove}
use langchain_langraph_app_l.Runs.{RunLease, MemoryRunRepository, validate_identity}
use langchain_langraph_app_l.Runs.Memory.{
  Done, create_or_get, acquire, same_owner, owned_record, renew, release, mark_terminal,
  mark_history_committed, reconcile_history_committed, revoke_resume_tokens, new_lease, token_of,
}
use langchain_langraph_app_l.Runs.Leases.{owned_record-Owns}
use langchain_langraph_app_l.Runs.Exclusion.{same_owner-euclidean, owns-same_owner}
use langchain_langraph_app_l.Runs.Calls.{Call, after, perform, perform_all}
use langchain_langraph_app_l.Chat.{Exception, World, Act, and_then, Point, Beat, Outside, call}

-- The conversation has no lease, or this one or a renewal of it.
abbrev pub is_mine : RunLease → Option RunLease → Bool
is_mine lease none = true
is_mine lease (some current) = same_owner current lease

abbrev pub Mine : RunLease → MemoryRunRepository → Type 0
Mine lease r = is_mine lease (lookup lease.conversation_id r.leases) ≡ true

-- The call takes no lease on the conversation.
abbrev pub Leaves : String → Call → Type 0
Leaves conversation_id (Call.acquire_lease identity owner ttl now) =
    identity.conversation_id ≢ conversation_id
Leaves conversation_id _ = Unit

renew-Mine :
    (lease other : RunLease) (ttl now now' now'' : ℕ) (r : MemoryRunRepository)
    → Mine lease r
    → Mine lease (after r (renew other ttl now now' now'' r))
unfolding renew
renew-Mine lease other ttl now now' now'' r h = elim (Result-cases (owned_record other now r)) [
  | inr (_, e) ↦ ground (arith, e, h)
  | inl (known, e) ↦
      let (owned, _) = owned_record-Owns other now r known e in
      let (current, filed, k) =
        owns-same_owner (lookup other.conversation_id r.leases) other now owned in
      let law =
        lookup-put other.conversation_id lease.conversation_id
          (record other { expires_at = now' + ttl }) r.leases in
      elim (Bool-cases (str_eq other.conversation_id lease.conversation_id)) [
        | inr apart ↦ ground (arith, e, law, apart, h)
        | inl same ↦
            let p = (eq_iff other.conversation_id lease.conversation_id).0 same in
            let mine : same_owner current lease ≡ true = ground (arith, h, filed, p) in
            let own = same_owner-euclidean current other lease k mine in
            ground (arith, e, law, same, own)
      ]
]

pub perform-Mine :
    (lease : RunLease) (c : Call) (r : MemoryRunRepository)
    → Leaves lease.conversation_id c
    → Mine lease r
    → Mine lease (perform c r)
unfolding perform acquire create_or_get mark_terminal mark_history_committed
    reconcile_history_committed revoke_resume_tokens validate_identity owned_record release
perform-Mine lease (Call.acquire_lease identity owner ttl now) r apart h =
    let new =
      new_lease identity owner ttl (token_of (lookup identity.conversation_id r.fencing) + 1) now in
    ground (
      arith,
      h,
      lookup-put identity.conversation_id lease.conversation_id new r.leases,
      eq_iff identity.conversation_id lease.conversation_id,
    )
perform-Mine lease (Call.renew_lease other ttl now now' now'') r leaves h =
    renew-Mine lease other ttl now now' now'' r h
perform-Mine lease (Call.release_lease other) r leaves h =
    ground (arith, h, lookup-remove other.conversation_id lease.conversation_id r.leases)
perform-Mine lease _ r leaves h = ground (arith, h)

pub perform_all-Mine :
    (lease : RunLease) (cs : List Call) (r : MemoryRunRepository)
    → All (Leaves lease.conversation_id) cs
    → Mine lease r
    → Mine lease (perform_all cs r)
unfolding perform_all
perform_all-Mine lease [] r leaves h = h
perform_all-Mine lease (c ∷ cs) r leaves h =
    perform_all-Mine lease cs (perform c r) leaves.1 (perform-Mine lease c r leaves.0 h)

-- What goes on after a lease was taken keeps it, or gives it back.
unfoldable pub Keeps : {A : Type 0} → RunLease → Act A → Type 0
Keeps lease act = (w : World) → Mine lease w.repository → Mine lease (act w).1.repository

pub and_then-Mine :
    {A : Type 0} {B : Type 0} (lease : RunLease) (x : Result Exception A × World) (f : A → Act B)
    → Mine lease x.1.repository
    → ((a : A) → Keeps lease (f a))
    → Mine lease (and_then x f).1.repository
unfolding Keeps
and_then-Mine lease (ok a, w) f h k = k a w h
and_then-Mine lease (err e, w) f h k = h

pub call-repository :
    {A : Type 0} (f : MemoryRunRepository → Done A) (w : World)
    → (call f w).1.repository ≡ after w.repository (f w.repository)
call-repository f w = elim (Result-cases (f w.repository)) [
  | inl (x, e) ↦ ground (arith, e)
  | inr (x, e) ↦ ground (arith, e)
]

-- No other request takes a lease on the conversation meanwhile.
pub record IsUndisturbed (o : Outside) (conversation_id : String) : Type 0 where
  pub at_points : (p : Point) → All (Leaves conversation_id) (o.others p)
  pub at_beats : All (λ (b : Beat). All (Leaves conversation_id) b.others) o.beats
