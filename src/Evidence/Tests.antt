-- ===== src/Evidence/Tests.antt =====
-- services/evidence.py and services/claim_grounding.py: the theorems at a run with two tool results.
use langchain_langraph_app_l.Prelude.{
  ◌≤◌, ◌≡◌, ◌≢◌, ◌↔◌, refl, String, true, false, none, List, [], ◌∷◌, All,
}
use langchain_langraph_app_l.Prelude.Dict.{lookup, put}
use langchain_langraph_app_l.Evidence.{
  EvidenceItem, Readings, FreshnessStatus, SourceQuality, InjectionScanStatus,
  evidence_from_tool_result, validate, deduplicate_evidence,
}
use langchain_langraph_app_l.Evidence.Dedup.{
  has_key, DistinctKeys, Sublist, deduplicate_evidence-keeps,
}
use langchain_langraph_app_l.Evidence.Grounding.{
  Claim, supported, stale, by_id, valid_items, select, ground_claim,
}
use langchain_langraph_app_l.Evidence.Grounding.Support.{Supports, supported_iff}
use langchain_langraph_app_l.Evidence.Context.{
  IsWithin, prefix, suffix, build_from, build_context, content_chars, context_character_count,
  build_context-IsWithin,
}

abbrev readings : String → FreshnessStatus → Readings
readings text freshness = record {
  text = text;
  truncated = false;
  source_uri = none;
  canonical_uri = none;
  retrieved_at = 1;
  published_at = none;
  title = none;
  raw_artifact_uri = none;
  freshness = freshness;
  quality = SourceQuality.secondary_unknown;
  injection_scan = InjectionScanStatus.clean;
}

abbrev found : String → String → FreshnessStatus → EvidenceItem
found id text freshness =
    evidence_from_tool_result (λ s. s) true (readings text freshness) id "r1" "t1" none "web_search"

abbrev items : List EvidenceItem
items =
    found "e1" "330 m" FreshnessStatus.current
    ∷ found "e2" "320 m" FreshnessStatus.stale
    ∷ found "e3" "330 m" FreshnessStatus.unknown
    ∷ []

abbrev claim : List String → Claim
claim ids = record {
  claim_id = none;
  text = "It is 330 m tall.";
  evidence_ids = ids;
  requires_current_evidence = true;
}

abbrev one : List String
one = "e1" ∷ []

current_claim : (ground_claim (by_id items) "r1" "t1" 1 (claim one)).status ≡ supported
unfolding by_id lookup put valid_items select ground_claim evidence_from_tool_result validate
current_claim = refl

stale_claim : (ground_claim (by_id items) "r1" "t1" 1 (claim ("e2" ∷ []))).status ≡ stale
unfolding by_id lookup put valid_items select ground_claim evidence_from_tool_result validate
stale_claim = refl

repeated_text :
    deduplicate_evidence items
    ≡ found "e1" "330 m" FreshnessStatus.current ∷ found "e2" "320 m" FreshnessStatus.stale ∷ []
unfolding deduplicate_evidence evidence_from_tool_result validate
repeated_text = refl

supported_iff_example :
    ((ground_claim (by_id items) "r1" "t1" 1 (claim one)).status ≡ supported)
    ↔ ((one ≢ []) × All (Supports items "r1" "t1" true) one)
supported_iff_example = supported_iff items "r1" "t1" 1 (claim one)

deduplicate_evidence-keeps_example :
    Sublist (deduplicate_evidence items) items
    × DistinctKeys (deduplicate_evidence items)
    × ((k : String × String) → has_key k (deduplicate_evidence items) ≡ has_key k items)
deduplicate_evidence-keeps_example = deduplicate_evidence-keeps items

-- Each of the first two items is cut to two characters; nothing is left for the third one.
two_items : content_chars (build_context items 120 60) ≡ 120
unfolding content_chars build_from prefix suffix evidence_from_tool_result validate
two_items = refl

build_context-IsWithin_example :
    All (IsWithin 60) (build_context items 120 60)
    × (content_chars (build_context items 120 60) ≤ 120)
    × (context_character_count (build_context items 120 60)
        ≡ content_chars (build_context items 120 60))
build_context-IsWithin_example = build_context-IsWithin items 120 60
