-- ===== src/Evidence/Grounding.antt =====
-- app/services/claim_grounding.py: whether each claim of a worker is supported by evidence.
pub mod Support
use langchain_langraph_app_l.Prelude.{
  ℕ, ◌+◌, String, Bool, true, false, not, ◌&&◌, Option, none, some, List, [], ◌∷◌, str_eq,
  if◌then◌else◌, ◌==◌, ltb, length, map,
}
use langchain_langraph_app_l.Prelude.Dict.{Dict, lookup, put}
use langchain_langraph_app_l.Evidence.{EvidenceItem, FreshnessStatus, ToolStatus}

pub record Claim : Type 0 where
  pub claim_id : Option String
  pub text : String
  pub evidence_ids : List String
  pub requires_current_evidence : Bool

pub data GroundingStatus : Type 0 where
  supported partially_supported contradicted stale unsupported : GroundingStatus

-- A claim's own ID, or its place for f"claim-{index}".
pub data ClaimId : Type 0 where
  named : String → ClaimId
  numbered : ℕ → ClaimId

pub record ClaimGroundingResult : Type 0 where
  pub claim_id : ClaimId
  pub status : GroundingStatus
  pub supporting_evidence_ids : List String

-- `{item.evidence_id: item for item in evidence}`: of two items with one ID the later one stays.
index_from : Dict EvidenceItem → List EvidenceItem → Dict EvidenceItem
index_from d [] = d
index_from d (item ∷ rest) = index_from (put item.evidence_id item d) rest

unfoldable pub by_id : List EvidenceItem → Dict EvidenceItem
unfolding index_from
by_id evidence = index_from [] evidence

abbrev pub is_success : ToolStatus → Bool
is_success ToolStatus.success = true
is_success _ = false

abbrev pub is_stale : FreshnessStatus → Bool
is_stale FreshnessStatus.stale = true
is_stale _ = false

abbrev pub is_current : FreshnessStatus → Bool
is_current FreshnessStatus.current = true
is_current _ = false

abbrev pub is_valid : String → String → EvidenceItem → Bool
is_valid run_id task_id item =
    str_eq item.run_id run_id
    && (str_eq item.task_id task_id
        && (item.eligible_for_claim_support && is_success item.tool_status))

abbrev pub is_fresh : Bool → EvidenceItem → Bool
is_fresh requires_current item =
    if requires_current
    then is_current item.freshness_status
    else not (is_stale item.freshness_status)

-- `[by_id.get(evidence_id) for …]` and the comprehension over it, which drops what is missing
unfoldable pub valid_items : String → String → Dict EvidenceItem → List String → List EvidenceItem
valid_items run_id task_id index [] = []
valid_items run_id task_id index (id ∷ ids) =
    let rest = valid_items run_id task_id index ids in
    elim (lookup id index) [
      | none ↦ rest
      | some item ↦ if is_valid run_id task_id item then item ∷ rest else rest
    ]

unfoldable pub select : (EvidenceItem → Bool) → List EvidenceItem → List EvidenceItem
select p [] = []
select p (item ∷ rest) = let chosen = select p rest in if p item then item ∷ chosen else chosen

-- `claim.claim_id or f"claim-{index}"`
abbrev pub claim_name : Option String → ℕ → ClaimId
claim_name none index = numbered index
claim_name (some name) index = if str_eq name "" then numbered index else named name

-- The ladder of `if`s: whether a current source is required, and the numbers of stale and of
-- acceptable items and of IDs.
abbrev pub grounding_status : Bool → ℕ → ℕ → ℕ → GroundingStatus
grounding_status requires_current stale_count acceptable ids =
    if requires_current && (ltb 0 stale_count && acceptable == 0)
    then stale
    else if ltb 0 acceptable && acceptable == ids
    then supported
    else if ltb 0 acceptable
    then partially_supported
    else unsupported

unfoldable pub ground_claim : Dict EvidenceItem → String → String → ℕ → Claim → ClaimGroundingResult
ground_claim index run_id task_id position claim =
    let valid = valid_items run_id task_id index claim.evidence_ids in
    let acceptable = select (is_fresh claim.requires_current_evidence) valid in
    record {
      claim_id = claim_name claim.claim_id position;
      status =
          grounding_status claim.requires_current_evidence
            (length (select (λ item. is_stale item.freshness_status) valid)) (length acceptable)
            (length claim.evidence_ids);
      supporting_evidence_ids = map (λ item. item.evidence_id) acceptable;
    }

ground_from : Dict EvidenceItem → String → String → ℕ → List Claim → List ClaimGroundingResult
ground_from index run_id task_id position [] = []
ground_from index run_id task_id position (claim ∷ rest) =
    ground_claim index run_id task_id position claim
    ∷ ground_from index run_id task_id (position + 1) rest

unfoldable pub ground_claims :
    List Claim → List EvidenceItem → String → String → List ClaimGroundingResult
unfolding ground_from
ground_claims claims evidence run_id task_id = ground_from (by_id evidence) run_id task_id 1 claims
