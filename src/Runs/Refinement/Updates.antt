-- ===== src/Runs/Refinement/Updates.antt =====
-- run_repository.py: the updates of the tables, on both sides.
use langchain_langraph_app_l.Prelude.{
  ℕ, ◌+◌, ◌≤◌, ◌≡◌, ◌⊎◌, inl, inr, refl, ap, String, if◌then◌else◌, true, Option, none, some,
  eq_iff, arith, Option-cases,
}
use langchain_langraph_app_l.Prelude.Dict.{lookup, put, lookup-put}
use langchain_langraph_app_l.Runs.{RunRecord, RunLease, RunIdentity, MemoryRunRepository}
use langchain_langraph_app_l.Runs.Memory.{store, same_owner, owns, is_held, new_lease}
use langchain_langraph_app_l.Runs.Leases.{conversation_of, store-IsConsistent, same_owner-fields}
use langchain_langraph_app_l.Runs.Exclusion.{owns-same_owner}
use langchain_langraph_app_l.Runs.Postgres.{Tables, update_run, held_row, taken_row, same_token}
use langchain_langraph_app_l.Runs.Refinement.{row_token, RowOf, holder_of, Agrees}

RowOf-later :
    (now now' : ℕ) (l row : Option RunLease) → now ≤ now' → RowOf now l row → RowOf now' l row
RowOf-later now now' (some l) row h k = k
RowOf-later now now' none none h k = k
RowOf-later now now' none (some row) h k = omega arith

pub Agrees-later :
    (now now' : ℕ) (m : MemoryRunRepository) (t : Tables)
    → now ≤ now'
    → Agrees now m t
    → Agrees now' m t
Agrees-later now now' m t h a = record {
  consistent = a.consistent;
  runs = a.runs;
  tokens = a.tokens;
  rows = λ c.
      RowOf-later now now' (lookup c m.leases) (lookup c t.app_conversation_leases) h (a.rows c);
  holders = a.holders;
}

-- A record is replaced by one of the same conversation and holder.
pub store-Agrees :
    (now : ℕ) (id : String) (updated : RunRecord) (m : MemoryRunRepository) (t : Tables)
    → (lookup id m.records ≡ none)
      ⊎ ((conversation_of (lookup id m.records) ≡ some updated.conversation_id)
          × (holder_of (lookup id m.records) ≡ some (updated.fencing_token, updated.lease_owner)))
    → Agrees now m t
    → Agrees now (store id updated m) (update_run id updated t)
store-Agrees now id updated m t old a = record {
  consistent = store-IsConsistent id updated m (ground (arith, old)) a.consistent;
  runs = ap (put id updated) a.runs;
  tokens = a.tokens;
  rows = a.rows;
  holders = λ c l e.
      ground (arith, lookup-put id l.run_id updated m.records, eq_iff id l.run_id, a.holders c l e);
}

pub taken_row-token :
    (filed row : Option RunLease) (identity : RunIdentity) (owner : String) (ttl now token : ℕ)
    → RowOf now filed row
    → row_token row ≡ token
    → taken_row row identity owner ttl now
      ≡ (if is_held filed now then none else some (new_lease identity owner ttl (token + 1) now))
taken_row-token none none identity owner ttl now token h k = ground (arith, k)
taken_row-token none (some row) identity owner ttl now token h k = ground (arith, h, k)
taken_row-token (some l) none identity owner ttl now token h k = cc
taken_row-token (some l) (some row) identity owner ttl now token h k = ground (arith, h, k)

pub held_row-owns :
    (filed row : Option RunLease) (lease : RunLease) (now : ℕ)
    → RowOf now filed row
    → held_row row lease now ≡ owns filed lease now
held_row-owns none none lease now h = refl
held_row-owns none (some row) lease now h = ground (arith, h)
held_row-owns (some l) none lease now h = cc
held_row-owns (some l) (some row) lease now h = ground (arith, h)

same_owner-owner :
    (current lease : RunLease) → same_owner current lease ≡ true → current.owner_id ≡ lease.owner_id
same_owner-owner current lease h = ground (arith, eq_iff current.owner_id lease.owner_id)

-- The record of a run whose lease is held shows the lease's token and owner.
pub holder-found :
    (now : ℕ) (m : MemoryRunRepository) (t : Tables) (lease : RunLease) (now' : ℕ)
    → Agrees now m t
    → owns (lookup lease.conversation_id m.leases) lease now' ≡ true
    → (known : RunRecord) × (lookup lease.run_id m.records ≡ some known)
      × (known.fencing_token ≡ some lease.fencing_token)
      × (known.lease_owner ≡ some lease.owner_id)
holder-found now m t lease now' a owned =
    let (current, filed, e) =
      owns-same_owner (lookup lease.conversation_id m.leases) lease now' owned in
    let (same_run, same_token) = same_owner-fields current lease e in
    let shown = a.holders lease.conversation_id current filed in
    elim (Option-cases (lookup lease.run_id m.records)) [
      | inl missing ↦ absurd (ground (arith, shown, missing, same_run))
      | inr (known, found) ↦ (
        known,
        found,
        ground (arith, shown, found, same_run, same_token),
        ground (arith, shown, found, same_run, same_owner-owner current lease e),
      )
    ]
