-- ===== src/Evidence.antt =====
-- app/schemas/evidence.py and the builders of app/services/evidence.py that the graph calls.
-- The readings of a tool's data (normalised text, URIs, dates, quality) are computed by the text
-- helpers of services/evidence.py; here they are given. `metadata` is left out.
pub mod Grounding
pub mod Dedup
pub mod Context
mod Tests
use langchain_langraph_app_l.Prelude.{
  ℕ, ◌+◌, String, Bool, true, false, ◌&&◌, ◌||◌, Option, none, some, List, [], ◌∷◌, str_eq,
  if◌then◌else◌, or_else,
}

pub data TrustClass : Type 0 where
  retrieved_external user_supplied internal_system derived_summary tool_error : TrustClass
  unknown_legacy : TrustClass

pub data FreshnessStatus : Type 0 where
  current stale unknown not_time_sensitive : FreshnessStatus

pub data SourceQuality : Type 0 where
  primary_authoritative primary_non_authoritative secondary_reputable : SourceQuality
  secondary_unknown user_supplied unverifiable unknown : SourceQuality

pub data InjectionScanStatus : Type 0 where
  not_scanned clean suspicious blocked : InjectionScanStatus

pub data ToolStatus : Type 0 where
  success failed timeout not_applicable unknown : ToolStatus

pub record EvidenceItem : Type 0 where
  pub evidence_id : String
  pub run_id : String
  pub task_id : String
  pub query_id : Option String
  pub tool_name : Option String
  pub source_uri : Option String
  pub canonical_uri : Option String
  pub source_title : Option String
  pub retrieved_at : ℕ
  pub published_at : Option ℕ
  pub content_type : String
  pub raw_artifact_uri : Option String
  pub normalized_text : String
  pub summary : String
  pub content_hash : String
  pub trust_class : TrustClass
  pub freshness_status : FreshnessStatus
  pub source_quality : SourceQuality
  pub injection_scan_status : InjectionScanStatus
  pub truncated : Bool
  pub tool_status : ToolStatus
  pub eligible_for_claim_support : Bool

-- `trust_class in {"tool_error", "user_supplied", "unknown_legacy"}`
abbrev pub is_untrusted : TrustClass → Bool
is_untrusted TrustClass.tool_error = true
is_untrusted TrustClass.user_supplied = true
is_untrusted TrustClass.unknown_legacy = true
is_untrusted _ = false

-- `tool_status in {"failed", "timeout"}`
abbrev pub is_failure : ToolStatus → Bool
is_failure ToolStatus.failed = true
is_failure ToolStatus.timeout = true
is_failure _ = false

-- `enforce_non_supporting_failures`, which runs when an item is built; `sha256` is hashlib's.
unfoldable pub validate : (String → String) → EvidenceItem → EvidenceItem
validate sha256 item = record item {
  summary = if str_eq item.summary "" then item.normalized_text else item.summary;
  content_hash =
      if str_eq item.content_hash "" then sha256 item.normalized_text else item.content_hash;
  eligible_for_claim_support =
      if is_untrusted item.trust_class || is_failure item.tool_status
      then false
      else item.eligible_for_claim_support;
}

-- What the helpers of services/evidence.py read from a tool's data or error.
pub record Readings : Type 0 where
  pub text : String
  pub truncated : Bool
  pub source_uri : Option String
  pub canonical_uri : Option String
  pub retrieved_at : ℕ
  pub published_at : Option ℕ
  pub title : Option String
  pub raw_artifact_uri : Option String
  pub freshness : FreshnessStatus
  pub quality : SourceQuality
  pub injection_scan : InjectionScanStatus

unfoldable pub evidence_from_tool_result :
    (String → String)
    → Bool
    → Readings
    → String
    → String
    → String
    → Option String
    → String
    → EvidenceItem
unfolding validate
evidence_from_tool_result sha256 ok r evidence_id run_id task_id query_id tool_name =
    validate sha256 (record {
      evidence_id = evidence_id;
      run_id = run_id;
      task_id = task_id;
      query_id = query_id;
      tool_name = some tool_name;
      source_uri = r.source_uri;
      canonical_uri = r.canonical_uri;
      source_title = some (or_else r.title tool_name);
      retrieved_at = r.retrieved_at;
      published_at = r.published_at;
      content_type = "text/plain";
      raw_artifact_uri = r.raw_artifact_uri;
      normalized_text = r.text;
      summary = r.text;
      content_hash = sha256 r.text;
      trust_class = if ok then TrustClass.retrieved_external else TrustClass.tool_error;
      freshness_status = if ok then r.freshness else FreshnessStatus.unknown;
      source_quality = if ok then r.quality else SourceQuality.unverifiable;
      injection_scan_status = r.injection_scan;
      truncated = r.truncated;
      tool_status = if ok then ToolStatus.success else ToolStatus.failed;
      eligible_for_claim_support = ok;
    })

-- One entry of the caller's `metadata["evidence"]`: its `id` or `evidence_id` if it has one, the
-- normalised text, whether that was cut, and the scan. `numbered` is f"user-{index}".
pub record Supplied : Type 0 where
  pub id : Option String
  pub text : String
  pub truncated : Bool
  pub injection_scan : InjectionScanStatus

unfoldable pub evidence_from_entry :
    (String → String) → (ℕ → String) → ℕ → String → String → ℕ → Supplied → EvidenceItem
unfolding validate
evidence_from_entry sha256 numbered now run_id task_id index entry = validate sha256 (record {
  evidence_id = or_else entry.id (numbered index);
  run_id = run_id;
  task_id = task_id;
  query_id = none;
  tool_name = none;
  source_uri = none;
  canonical_uri = none;
  source_title = some "request_metadata";
  retrieved_at = now;
  published_at = none;
  content_type = "text/plain";
  raw_artifact_uri = none;
  normalized_text = entry.text;
  summary = entry.text;
  content_hash = sha256 entry.text;
  trust_class = TrustClass.user_supplied;
  freshness_status = FreshnessStatus.unknown;
  source_quality = SourceQuality.unknown;
  injection_scan_status = entry.injection_scan;
  truncated = entry.truncated;
  tool_status = ToolStatus.not_applicable;
  eligible_for_claim_support = false;
})

unfoldable pub evidence_from_entries :
    (String → String) → (ℕ → String) → ℕ → String → String → ℕ → List Supplied → List EvidenceItem
evidence_from_entries sha256 numbered now run_id task_id index [] = []
evidence_from_entries sha256 numbered now run_id task_id index (entry ∷ rest) =
    evidence_from_entry sha256 numbered now run_id task_id index entry
    ∷ evidence_from_entries sha256 numbered now run_id task_id (index + 1) rest

unfoldable pub evidence_from_metadata :
    (String → String) → (ℕ → String) → ℕ → List Supplied → String → String → List EvidenceItem
unfolding evidence_from_entries evidence_from_entry
evidence_from_metadata sha256 numbered now raw run_id task_id =
    evidence_from_entries sha256 numbered now run_id task_id 1 raw

-- `(item.canonical_uri or "", item.content_hash)`
abbrev pub dedup_key : EvidenceItem → String × String
dedup_key item = (or_else item.canonical_uri "", item.content_hash)

abbrev pub same_key : String × String → String × String → Bool
same_key (u, h) (v, g) = str_eq u v && str_eq h g

abbrev pub seen_key : String × String → List (String × String) → Bool
seen_key k [] = false
seen_key k (j ∷ seen) = same_key k j || seen_key k seen

dedup_from : List (String × String) → List EvidenceItem → List EvidenceItem
dedup_from seen [] = []
dedup_from seen (item ∷ rest) =
    let keep = item ∷ dedup_from (dedup_key item ∷ seen) rest in
    let skip = dedup_from seen rest in if seen_key (dedup_key item) seen then skip else keep

unfoldable pub deduplicate_evidence : List EvidenceItem → List EvidenceItem
unfolding dedup_from
deduplicate_evidence items = dedup_from [] items
