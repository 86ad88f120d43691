-- ===== src/Evidence/Grounding/Support.antt =====
-- claim_grounding.py: the evidence that carries a claim.
use langchain_langraph_app_l.Prelude.{
  ℕ, ◌≤◌, ◌<◌, ap, ◌≡◌, ◌≢◌, ◌↔◌, ◌⊎◌, inl, inr, refl, String, Bool, true, false, ◌&&◌, none, some,
  List, [], ◌∷◌, str_eq, eq_iff, arith, length, All, Option-cases, Bool-cases,
}
use langchain_langraph_app_l.Prelude.Dict.{Dict, lookup, put, lookup-put}
use langchain_langraph_app_l.Evidence.{EvidenceItem, FreshnessStatus, ToolStatus}
use langchain_langraph_app_l.Evidence.Grounding.{
  Claim, supported, by_id, index_from, is_valid, is_fresh, is_stale, valid_items, select,
  grounding_status, ground_claim,
}

abbrev pub Among : EvidenceItem → List EvidenceItem → Type 0
Among item [] = ⊥
Among item (x ∷ xs) = (item ≡ x) ⊎ Among item xs

abbrev pub IsFresh : Bool → FreshnessStatus → Type 0
IsFresh true status = status ≡ FreshnessStatus.current
IsFresh false status = status ≢ FreshnessStatus.stale

-- An evidence item that carries a claim: listed under the ID that the claim names, of the same run
-- and task, eligible, from a tool that succeeded, and fresh enough.
pub record Supports (evidence : List EvidenceItem) (run_id task_id : String)
    (requires_current : Bool) (id : String) : Type 0 where
  pub item : EvidenceItem
  pub listed : Among item evidence
  pub named : item.evidence_id ≡ id
  pub found : lookup id (by_id evidence) ≡ some item
  pub same_run : item.run_id ≡ run_id
  pub same_task : item.task_id ≡ task_id
  pub eligible : item.eligible_for_claim_support ≡ true
  pub succeeded : item.tool_status ≡ ToolStatus.success
  pub fresh : IsFresh requires_current item.freshness_status

-- What one ID adds to the acceptable items.
abbrev accepts : String → String → Bool → Dict EvidenceItem → String → Bool
accepts run_id task_id current index id = elim (lookup id index) [
  | none ↦ false
  | some item ↦ is_valid run_id task_id item && is_fresh current item
]

module _ (run_id task_id : String) (current : Bool) (index : Dict EvidenceItem) where
  abbrev acceptable : List String → List EvidenceItem
  acceptable ids = select (is_fresh current) (valid_items run_id task_id index ids)

  acceptable-le : (ids : List String) → length (acceptable ids) ≤ length ids
  unfolding valid_items select
  acceptable-le [] = omega arith
  acceptable-le (id ∷ ids) = ground (arith, acceptable-le ids)

  acceptable-accepts :
      (ids : List String)
      → length (acceptable ids) ≡ length ids
      → All (λ id. accepts run_id task_id current index id ≡ true) ids
  unfolding valid_items select
  acceptable-accepts [] h = tt
  acceptable-accepts (id ∷ ids) h = ground (arith, acceptable-le ids, acceptable-accepts ids)

  accepts-acceptable :
      (ids : List String)
      → All (λ id. accepts run_id task_id current index id ≡ true) ids
      → length (acceptable ids) ≡ length ids
  unfolding valid_items select
  accepts-acceptable [] h = refl
  accepts-acceptable (id ∷ ids) h = ground (arith, accepts-acceptable ids h.1)

-- What the index finds is in the list under that ID, or was in the index before.
index_from_source :
    (id : String) (item : EvidenceItem) (d : Dict EvidenceItem) (evidence : List EvidenceItem)
    → lookup id (index_from d evidence) ≡ some item
    → (Among item evidence × (item.evidence_id ≡ id)) ⊎ (lookup id d ≡ some item)
unfolding index_from
index_from_source id item d [] h = inr h
index_from_source id item d (x ∷ rest) h =
    elim (index_from_source id item (put x.evidence_id x d) rest h) [
      | inl (among, named) ↦ inl (inr among, named)
      | inr old ↦ elim (Bool-cases (str_eq x.evidence_id id)) [
        | inl same ↦ ground (arith, lookup-put x.evidence_id id x d, eq_iff x.evidence_id id)
        | inr other ↦ ground (arith, lookup-put x.evidence_id id x d)
      ]
    ]

by_id_source :
    (id : String) (item : EvidenceItem) (evidence : List EvidenceItem)
    → lookup id (by_id evidence) ≡ some item
    → Among item evidence × (item.evidence_id ≡ id)
unfolding by_id lookup
by_id_source id item evidence h = elim (index_from_source id item [] evidence h) [
  | inl found ↦ found
  | inr old ↦ cc
]

grounding_status-supported :
    (current : Bool) (stale_count acceptable ids : ℕ)
    → (grounding_status current stale_count acceptable ids ≡ supported)
      ↔ ((0 < acceptable) × (acceptable ≡ ids))
grounding_status-supported current stale_count acceptable ids =
    (λ h. ground arith, λ h. ground arith)

nonempty_length : (ids : List String) → ids ≢ [] → 0 < length ids
nonempty_length [] h = absurd (h refl)
nonempty_length (id ∷ ids) h = omega arith

module _ (evidence : List EvidenceItem) (run_id task_id : String) where
  Supports-accepts :
      (current : Bool) (id : String)
      → Supports evidence run_id task_id current id
      → accepts run_id task_id current (by_id evidence) id ≡ true
  Supports-accepts true id s =
      ground (arith, eq_iff s.item.run_id run_id, eq_iff s.item.task_id task_id)
  Supports-accepts false id s =
      ground (arith, eq_iff s.item.run_id run_id, eq_iff s.item.task_id task_id)

  IsFresh-is_fresh :
      (current : Bool) (item : EvidenceItem)
      → is_fresh current item ≡ true
      → IsFresh current item.freshness_status
  IsFresh-is_fresh true item h = ground arith
  IsFresh-is_fresh false item h = λ e. ground arith

  valid-Supports :
      (current : Bool) (id : String) (item : EvidenceItem)
      → lookup id (by_id evidence) ≡ some item
      → is_valid run_id task_id item ≡ true
      → is_fresh current item ≡ true
      → Supports evidence run_id task_id current id
  valid-Supports current id item found valid fresh =
      let (listed, named) = by_id_source id item evidence found in
      record {
        item = item;
        listed = listed;
        named = named;
        found = found;
        same_run = (eq_iff item.run_id run_id).0 (ground arith);
        same_task = (eq_iff item.task_id task_id).0 (ground arith);
        eligible = ground arith;
        succeeded = ground arith;
        fresh = IsFresh-is_fresh current item fresh;
      }

  accepts-Supports :
      (current : Bool) (id : String)
      → accepts run_id task_id current (by_id evidence) id ≡ true
      → Supports evidence run_id task_id current id
  accepts-Supports current id h = elim (Option-cases (lookup id (by_id evidence))) [
    | inl missing ↦ absurd (ground arith)
    | inr (item, found) ↦ valid-Supports current id item found (ground arith) (ground arith)
  ]

  All-Supports :
      (current : Bool) (ids : List String)
      → All (λ id. accepts run_id task_id current (by_id evidence) id ≡ true) ids
      → All (Supports evidence run_id task_id current) ids
  All-Supports current [] h = tt
  All-Supports current (id ∷ ids) h =
      (accepts-Supports current id h.0, All-Supports current ids h.1)

  All-accepts :
      (current : Bool) (ids : List String)
      → All (Supports evidence run_id task_id current) ids
      → All (λ id. accepts run_id task_id current (by_id evidence) id ≡ true) ids
  All-accepts current [] h = tt
  All-accepts current (id ∷ ids) h = (Supports-accepts current id h.0, All-accepts current ids h.1)

  -- A claim is reported as supported exactly when it names evidence and every ID that it names is
  -- that of a listed item, the last one listed under that ID, which is of the same run and task,
  -- eligible, from a tool that succeeded, and current if the claim needs that, else not stale.
  pub supported_iff :
      (position : ℕ) (claim : Claim)
      → ((ground_claim (by_id evidence) run_id task_id position claim).status ≡ supported) ↔ (
          (claim.evidence_ids ≢ [])
          × All
              (Supports evidence run_id task_id claim.requires_current_evidence)
              claim.evidence_ids)
  unfolding ground_claim
  supported_iff position claim =
      let current = claim.requires_current_evidence in
      let ids = claim.evidence_ids in
      let index = by_id evidence in
      let valid = valid_items run_id task_id index ids in
      let counts =
        grounding_status-supported current
          (length (select (λ item. is_stale item.freshness_status) valid))
          (length (acceptable run_id task_id current index ids)) (length ids) in
      (
        λ h.
            let (some_accepted, all) = counts.0 h in
            (
              λ e. absurd (omega (arith, ap length e)),
              All-Supports current ids (acceptable-accepts run_id task_id current index ids all),
            ),
        λ h.
            let same =
              accepts-acceptable run_id task_id current index ids (All-accepts current ids h.1) in
            counts.1 (omega (arith, nonempty_length ids h.0), same),
      )
