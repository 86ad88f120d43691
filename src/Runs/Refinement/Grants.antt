-- ===== src/Runs/Refinement/Grants.antt =====
-- run_repository.py: a lease that is granted, renewed or given back, on both sides.
use langchain_langraph_app_l.Prelude.{
  ℕ, ◌≡◌, ◌⊎◌, inl, inr, refl, sym, ap, ◌∙◌, String, Bool, true, not, Option, none, some, eq_iff,
  arith, str_eq, if◌then◌else◌, Option-cases, Bool-cases,
}
use langchain_langraph_app_l.Prelude.Dict.{lookup, put, lookup-put, lookup-remove}
use langchain_langraph_app_l.Runs.{RunRecord, RunLease, MemoryRunRepository}
use langchain_langraph_app_l.Runs.Memory.{granted, taken, same_owner, owns, owned_record, release}
use langchain_langraph_app_l.Runs.Leases.{
  IsConsistent, granted-IsConsistent, renewed-IsConsistent, same_owner-fields,
}
use langchain_langraph_app_l.Runs.Leases.Kept.{release-IsConsistent}
use langchain_langraph_app_l.Runs.Exclusion.{owns-same_owner}
use langchain_langraph_app_l.Runs.Postgres.{
  Tables, update_run, update_lease, held_row, writes, written_run, same_token, same_text_value,
}
use langchain_langraph_app_l.Runs.Postgres
use langchain_langraph_app_l.Runs.Refinement.{RowOf, Agrees, Names}
use langchain_langraph_app_l.Runs.Refinement.Updates.{held_row-owns, holder-found}

pub granted-Agrees :
    (now : ℕ) (lease : RunLease) (known : RunRecord) (m : MemoryRunRepository) (t : Tables)
    → lookup lease.run_id m.records ≡ some known
    → known.conversation_id ≡ lease.conversation_id
    → Agrees now m t
    → Agrees now
        (granted lease known now m)
        (update_run lease.run_id (taken known lease now) (update_lease lease t))
granted-Agrees now lease known m t found same a =
    let k = lease.conversation_id in
    record {
      consistent =
          granted-IsConsistent lease known now m same (ground (arith, found, same)) a.consistent;
      runs = ap (put lease.run_id (taken known lease now)) a.runs;
      tokens = λ c. ground (
        arith,
        lookup-put k c lease t.app_conversation_leases,
        lookup-put k c lease.fencing_token m.fencing,
        a.tokens c,
      );
      rows = λ c. ground (
        arith,
        lookup-put k c lease t.app_conversation_leases,
        lookup-put k c lease m.leases,
        a.rows c,
      );
      holders = λ c l e. ground (
        arith,
        found,
        same,
        lookup-put k c lease m.leases,
        lookup-put lease.run_id l.run_id (taken known lease now) m.records,
        eq_iff lease.run_id l.run_id,
        eq_iff k c,
        a.consistent.has_run c l,
        a.holders c l,
      );
    }

pub written_run-owned_record :
    (now : ℕ) (lease : RunLease) (m : MemoryRunRepository) (t : Tables)
    → Agrees now m t
    → Names m lease
    → written_run lease now t ≡ owned_record lease now m
unfolding written_run owned_record
written_run-owned_record now lease m t a names =
    let row =
      held_row-owns (lookup lease.conversation_id m.leases)
        (lookup lease.conversation_id t.app_conversation_leases) lease now
        (a.rows lease.conversation_id) in
    elim (Bool-cases (owns (lookup lease.conversation_id m.leases) lease now)) [
      | inl owned ↦
          let (known, found, token, owner) = holder-found now m t lease now a owned in
          ground (
            arith,
            found,
            token,
            owner,
            names known found,
            a.runs,
            row,
            owned,
            eq_iff lease.owner_id lease.owner_id,
          )
      | inr free ↦ elim (Option-cases (lookup lease.run_id m.records)) [
        | inl missing ↦ ground (arith, a.runs, missing, free)
        | inr (known, found) ↦ ground (arith, found, names known found, a.runs, row, free)
      ]
    ]

pub renewed-Agrees :
    (now expiry : ℕ) (lease : RunLease) (m : MemoryRunRepository) (t : Tables)
    → owns (lookup lease.conversation_id m.leases) lease now ≡ true
    → Agrees now m t
    → Agrees now
        (record m {
          leases = put lease.conversation_id (record lease { expires_at = expiry }) m.leases;
        })
        (update_lease (record lease { expires_at = expiry }) t)
renewed-Agrees now expiry lease m t owned a =
    let k = lease.conversation_id in
    let renewed : RunLease = record lease { expires_at = expiry } in
    let (current, filed, e) = owns-same_owner (lookup k m.leases) lease now owned in
    let (_, same_token) = same_owner-fields current lease e in
    let (known, found, token, owner) = holder-found now m t lease now a owned in
    record {
      consistent = renewed-IsConsistent lease renewed now m owned refl refl refl a.consistent;
      runs = a.runs;
      tokens = λ c. ground (
        arith,
        lookup-put k c renewed t.app_conversation_leases,
        eq_iff k c,
        a.tokens c,
        a.consistent.latest k current filed,
        same_token,
      );
      rows = λ c. ground (
        arith,
        lookup-put k c renewed t.app_conversation_leases,
        lookup-put k c renewed m.leases,
        a.rows c,
      );
      holders = λ c l p.
          ground (arith, lookup-put k c renewed m.leases, found, token, owner, a.holders c l);
    }

-- The row of a conversation without a lease on the other side expires now.
expired-Agrees :
    (now : ℕ) (k : String) (row : RunLease) (m m' : MemoryRunRepository) (t : Tables)
    → row.conversation_id ≡ k
    → lookup k t.app_conversation_leases ≡ some row
    → IsConsistent m'
    → m'.records ≡ m.records
    → m'.fencing ≡ m.fencing
    → ((c : String) → lookup c m'.leases ≡ (if str_eq k c then none else lookup c m.leases))
    → Agrees now m t
    → Agrees now m' (update_lease (record row { expires_at = now }) t)
expired-Agrees now k row m m' t own filed consistent same_records same_fencing leases a =
    let updated : RunLease = record row { expires_at = now } in
    record {
      consistent = consistent;
      runs = a.runs ∙ sym same_records;
      tokens = λ c. ground (
        arith,
        lookup-put row.conversation_id c updated t.app_conversation_leases,
        own,
        eq_iff k c,
        a.tokens c,
        filed,
        same_fencing,
      );
      rows = λ c. ground (
        arith,
        lookup-put row.conversation_id c updated t.app_conversation_leases,
        own,
        leases c,
        a.rows c,
      );
      holders = λ c l e. ground (arith, leases c, same_records, a.holders c l);
    }

RowOf-cases :
    (now : ℕ) (filed row : Option RunLease) → RowOf now filed row → (filed ≡ none) ⊎ (filed ≡ row)
RowOf-cases now none row h = inl refl
RowOf-cases now (some l) row h = inr (sym h)

unchanged : (lease : RunLease) (filed : Option RunLease) → Bool
unchanged lease none = true
unchanged lease (some current) = not (same_owner current lease)

released-lookup :
    (lease : RunLease) (m : MemoryRunRepository) (now : ℕ) (row : RunLease) (c : String)
    → RowOf now (lookup lease.conversation_id m.leases) (some row)
    → same_owner row lease ≡ true
    → lookup c (release lease m).leases
      ≡ (if str_eq lease.conversation_id c then none else lookup c m.leases)
unfolding release
released-lookup lease m now row c h same =
    let law = lookup-remove lease.conversation_id c m.leases in
    elim (RowOf-cases now (lookup lease.conversation_id m.leases) (some row) h) [
      | inl e ↦ ground (arith, e, eq_iff lease.conversation_id c)
      | inr e ↦ ground (arith, e, same, law)
    ]

released-others :
    (lease : RunLease) (m : MemoryRunRepository)
    → ((release lease m).records ≡ m.records) × ((release lease m).fencing ≡ m.fencing)
unfolding release
released-others lease m = ground arith

-- Nothing is given back.
unreleased-Agrees :
    (now : ℕ) (lease : RunLease) (m : MemoryRunRepository) (t : Tables) (row : Option RunLease)
    → lookup lease.conversation_id t.app_conversation_leases ≡ row
    → unchanged lease row ≡ true
    → Agrees now m t
    → Agrees now (release lease m) (Postgres.release lease now t)
unfolding release Postgres.release unchanged
unreleased-Agrees now lease m t row filed differs a =
    elim (RowOf-cases now (lookup lease.conversation_id m.leases)
      (lookup lease.conversation_id t.app_conversation_leases) (a.rows lease.conversation_id)) [
        | inl e ↦ ground (arith, e, a, filed, differs)
        | inr e ↦ ground (arith, e, a, filed, differs)
      ]

pub released-Agrees :
    (now : ℕ) (lease : RunLease) (m : MemoryRunRepository) (t : Tables)
    → Agrees now m t
    → Agrees now (release lease m) (Postgres.release lease now t)
unfolding unchanged Postgres.release
released-Agrees now lease m t a =
    let k = lease.conversation_id in
    elim (Option-cases (lookup k t.app_conversation_leases)) [
      | inl missing ↦ unreleased-Agrees now lease m t none missing refl a
      | inr (row, filed) ↦ elim (Bool-cases (same_owner row lease)) [
        | inr differs ↦ unreleased-Agrees now lease m t (some row) filed (ground (arith, differs)) a
        | inl same ↦
            let own : row.conversation_id ≡ k = ground (arith, eq_iff row.conversation_id k) in
            let (records, fencing) = released-others lease m in
            ground (
              arith,
              filed,
              same,
              expired-Agrees now k row m (release lease m) t own filed
                  (release-IsConsistent lease m a.consistent) records fencing
                  (λ (c : String). released-lookup lease m now row c (rw filed at (a.rows k)) same)
                  a,
            )
      ]
    ]
