-- ===== src/Runs/Exclusion.antt =====
-- run_repository.py: a conversation's lease while it is unexpired and not given back.
use langchain_langraph_app_l.Prelude.{
  str_eq, sym, ◌∙◌, ℕ, ◌+◌, ◌≤◌, ◌<◌, ◌≡◌, inl, inr, refl, String, Bool, List, [], ◌∷◌, All, true,
  false, ◌&&◌, leb, Option, none, some, eq_iff, ok, is_ok, arith, Option-cases, Result-cases,
  Bool-cases,
}
use langchain_langraph_app_l.Prelude.Dict.{lookup, put, lookup-put, lookup-remove}
use langchain_langraph_app_l.Runs.{RunLease, RunIdentity, MemoryRunRepository, validate_identity}
use langchain_langraph_app_l.Runs.Memory.{
  create_or_get, token_of, new_lease, acquire, same_owner, owns, owned_record, renew, release,
  mark_terminal, mark_history_committed, reconcile_history_committed, revoke_resume_tokens,
}
use langchain_langraph_app_l.Runs.Leases.{owned_record-Owns}
use langchain_langraph_app_l.Runs.Fencing.{acquired}
use langchain_langraph_app_l.Runs.Calls.{Call, after, perform, perform_all}

-- The conversation's lease is this one, or a renewal of it, and runs until the limit or longer.
abbrev holds : RunLease → ℕ → Option RunLease → Bool
holds lease limit none = false
holds lease limit (some current) = same_owner current lease && leb limit current.expires_at

pub Holds : RunLease → ℕ → MemoryRunRepository → Type 0
Holds lease limit r = holds lease limit (lookup lease.conversation_id r.leases) ≡ true

-- A call before the limit that neither gives the lease back nor shortens it.
abbrev pub Before : RunLease → ℕ → Call → Type 0
Before lease limit (Call.acquire_lease identity owner ttl now) = now < limit
Before lease limit (Call.renew_lease other ttl now now' now'') =
    same_owner lease other ≡ true → limit ≤ now' + ttl
Before lease limit (Call.release_lease other) = same_owner lease other ≡ false
Before lease limit _ = Unit

acquire-holds :
    (lease : RunLease) (limit : ℕ) (identity : RunIdentity) (owner : String) (ttl now : ℕ)
    (r : MemoryRunRepository)
    → now < limit
    → holds lease limit (lookup lease.conversation_id r.leases) ≡ true
    → holds lease limit
        (lookup lease.conversation_id (after r (acquire identity owner ttl now r)).leases)
      ≡ true
unfolding acquire validate_identity
acquire-holds lease limit identity owner ttl now r early h =
    let new =
      new_lease identity owner ttl (token_of (lookup identity.conversation_id r.fencing) + 1) now in
    ground (
      arith,
      lookup-put identity.conversation_id lease.conversation_id new r.leases,
      eq_iff identity.conversation_id lease.conversation_id,
    )

pub same_owner-euclidean :
    (a b c : RunLease) → same_owner a b ≡ true → same_owner a c ≡ true → same_owner b c ≡ true
same_owner-euclidean a b c h k = ground (
  arith,
  eq_iff a.conversation_id b.conversation_id,
  eq_iff a.conversation_id c.conversation_id,
  eq_iff b.conversation_id c.conversation_id,
  eq_iff a.run_id b.run_id,
  eq_iff a.run_id c.run_id,
  eq_iff b.run_id c.run_id,
  eq_iff a.owner_id b.owner_id,
  eq_iff a.owner_id c.owner_id,
  eq_iff b.owner_id c.owner_id,
)

-- If the calls of two leases both match the one that is filed, they are one another's.
same_holder :
    (lease other : RunLease) (limit : ℕ) (filed : Option RunLease) (current : RunLease)
    → holds lease limit filed ≡ true
    → filed ≡ some current
    → same_owner current other ≡ true
    → (same_owner other lease ≡ true) × (same_owner lease other ≡ true)
same_holder lease other limit filed current h e k =
    let same : same_owner current lease ≡ true = ground arith in
    (
      same_owner-euclidean current other lease k same,
      same_owner-euclidean current lease other same k,
    )

pub owns-same_owner :
    (filed : Option RunLease) (other : RunLease) (now : ℕ)
    → owns filed other now ≡ true
    → (current : RunLease) × (filed ≡ some current) × (same_owner current other ≡ true)
owns-same_owner none other now h = absurd (ground arith)
owns-same_owner (some current) other now h = (current, refl, ground arith)

renewed-holds :
    (lease : RunLease) (limit : ℕ) (other : RunLease) (expiry now : ℕ) (r : MemoryRunRepository)
    → (same_owner lease other ≡ true → limit ≤ expiry)
    → owns (lookup other.conversation_id r.leases) other now ≡ true
    → holds lease limit (lookup lease.conversation_id r.leases) ≡ true
    → holds lease limit (
        lookup lease.conversation_id
          (put other.conversation_id (record other { expires_at = expiry }) r.leases))
      ≡ true
renewed-holds lease limit other expiry now r late owned h =
    let renewed : RunLease = record other { expires_at = expiry } in
    let law = lookup-put other.conversation_id lease.conversation_id renewed r.leases in
    elim (Bool-cases (str_eq other.conversation_id lease.conversation_id)) [
      | inl same ↦
          let e = (eq_iff other.conversation_id lease.conversation_id).0 same in
          let (current, filed, k) =
            owns-same_owner (lookup other.conversation_id r.leases) other now owned in
          let (holder, mine) =
            same_holder lease other limit (lookup lease.conversation_id r.leases) current h
              (rw e at filed) k in
          ground (arith, law, same, holder, late mine)
      | inr differs ↦ ground (arith, law, differs)
    ]

renew-holds :
    (lease : RunLease) (limit : ℕ) (other : RunLease) (ttl now now' now'' : ℕ)
    (r : MemoryRunRepository)
    → (same_owner lease other ≡ true → limit ≤ now' + ttl)
    → holds lease limit (lookup lease.conversation_id r.leases) ≡ true
    → holds lease limit
        (lookup lease.conversation_id (after r (renew other ttl now now' now'' r)).leases)
      ≡ true
unfolding renew
renew-holds lease limit other ttl now now' now'' r late h =
    elim (Result-cases (owned_record other now r)) [
      | inl (known, e) ↦
          let (owned, _) = owned_record-Owns other now r known e in
          ground (arith, e, renewed-holds lease limit other (now' + ttl) now r late owned h)
      | inr (_, e) ↦ ground (arith, e, h)
    ]

release-holds :
    (lease : RunLease) (limit : ℕ) (other : RunLease) (r : MemoryRunRepository)
    → same_owner lease other ≡ false
    → holds lease limit (lookup lease.conversation_id r.leases) ≡ true
    → holds lease limit (lookup lease.conversation_id (release other r).leases) ≡ true
unfolding release
release-holds lease limit other r differs h =
    let law = lookup-remove other.conversation_id lease.conversation_id r.leases in
    elim (Option-cases (lookup other.conversation_id r.leases)) [
      | inl e ↦ ground (arith, e, h)
      | inr (current, e) ↦ elim (Bool-cases (same_owner current other)) [
        | inr apart ↦ ground (arith, e, h, apart)
        | inl k ↦ elim (Bool-cases (str_eq other.conversation_id lease.conversation_id)) [
          | inr apart ↦ ground (arith, law, e, h, k, apart)
          | inl same ↦
              let p = (eq_iff other.conversation_id lease.conversation_id).0 same in
              let (_, holder) =
                same_holder lease other limit (lookup lease.conversation_id r.leases) current h
                  (rw p at e) k in
              absurd (ground (arith, differs, holder))
        ]
      ]
    ]

perform-holds :
    (lease : RunLease) (limit : ℕ) (call : Call) (r : MemoryRunRepository)
    → Before lease limit call
    → holds lease limit (lookup lease.conversation_id r.leases) ≡ true
    → holds lease limit (lookup lease.conversation_id (perform call r).leases) ≡ true
unfolding perform create_or_get mark_terminal mark_history_committed reconcile_history_committed
    revoke_resume_tokens validate_identity owned_record
perform-holds lease limit (Call.acquire_lease identity owner ttl now) r early h =
    acquire-holds lease limit identity owner ttl now r early h
perform-holds lease limit (Call.renew_lease other ttl now now' now'') r late h =
    renew-holds lease limit other ttl now now' now'' r late h
perform-holds lease limit (Call.release_lease other) r differs h =
    release-holds lease limit other r differs h
perform-holds lease limit _ r before h = ground arith

perform_all-holds :
    (lease : RunLease) (limit : ℕ) (calls : List Call) (r : MemoryRunRepository)
    → All (Before lease limit) calls
    → holds lease limit (lookup lease.conversation_id r.leases) ≡ true
    → holds lease limit (lookup lease.conversation_id (perform_all calls r).leases) ≡ true
unfolding perform_all
perform_all-holds lease limit [] r before h = h
perform_all-holds lease limit (call ∷ calls) r before h =
    perform_all-holds lease limit calls (perform call r) before.1
      (perform-holds lease limit call r before.0 h)

acquired-holds :
    (identity : RunIdentity) (owner : String) (ttl now : ℕ) (r r' : MemoryRunRepository)
    (lease : RunLease)
    → acquire identity owner ttl now r ≡ ok (lease, r')
    → holds lease (now + ttl) (lookup lease.conversation_id r'.leases) ≡ true
unfolding acquire validate_identity
acquired-holds identity owner ttl now r r' lease h =
    let new =
      new_lease identity owner ttl (token_of (lookup identity.conversation_id r.fencing) + 1) now in
    ground (
      arith,
      lookup-put identity.conversation_id identity.conversation_id new r.leases,
      eq_iff identity.conversation_id identity.conversation_id,
      eq_iff identity.run_id identity.run_id,
      eq_iff owner owner,
    )

refused :
    (identity : RunIdentity) (owner : String) (ttl now limit : ℕ) (r : MemoryRunRepository)
    (lease : RunLease)
    → holds lease limit (lookup lease.conversation_id r.leases) ≡ true
    → identity.conversation_id ≡ lease.conversation_id
    → now < limit
    → is_ok (acquire identity owner ttl now r) ≡ false
unfolding acquire validate_identity
refused identity owner ttl now limit r lease h same early =
    let filed : holds lease limit (lookup identity.conversation_id r.leases) ≡ true =
      ground (arith, same, h) in
    ground arith

-- Once a lease is granted, through any calls that are made before it expires and neither give it
-- back nor renew it for less, the conversation's lease stays that of the same run, owner and token
-- with the granted time or more, and no run of the conversation is granted another before that time.
pub acquire_excludes :
    (identity : RunIdentity) (owner : String) (ttl now : ℕ) (r r' : MemoryRunRepository)
    (lease : RunLease) (calls : List Call)
    → acquire identity owner ttl now r ≡ ok (lease, r')
    → All (Before lease (now + ttl)) calls
    → Holds lease (now + ttl) (perform_all calls r')
      × ((identity' : RunIdentity) (owner' : String) (ttl' now' : ℕ)
          → identity'.conversation_id ≡ identity.conversation_id
          → now' < now + ttl
          → is_ok (acquire identity' owner' ttl' now' (perform_all calls r')) ≡ false)
unfolding Holds
acquire_excludes identity owner ttl now r r' lease calls h before =
    let kept =
      perform_all-holds lease (now + ttl) calls r' before
        (acquired-holds identity owner ttl now r r' lease h) in
    let (_, own, _) = acquired identity owner ttl now r r' lease h in
    (
      kept,
      λ identity' owner' ttl' now' same early.
          refused identity' owner' ttl' now' (now + ttl) (perform_all calls r') lease kept
            (same ∙ sym own) early,
    )
