-- ===== src/Evidence/Dedup.antt =====
-- services/evidence.py: the items that `deduplicate_evidence` keeps.
use langchain_langraph_app_l.Prelude.{
  ◌≡◌, refl, inl, inr, String, Bool, true, false, ◌||◌, List, [], ◌∷◌, eq_iff, arith, Bool-cases,
}
use langchain_langraph_app_l.Evidence.{
  EvidenceItem, dedup_key, same_key, seen_key, dedup_from, deduplicate_evidence,
}

-- The key of an item, as one of a list of keys.
abbrev pub has_key : String × String → List EvidenceItem → Bool
has_key k [] = false
has_key k (item ∷ items) = same_key k (dedup_key item) || has_key k items

-- No two items have the same key.
pub DistinctKeys : List EvidenceItem → Type 0
DistinctKeys [] = Unit
DistinctKeys (item ∷ items) = (has_key (dedup_key item) items ≡ false) × DistinctKeys items

-- The items of the first list stand in the second one, in their order.
pub data Sublist : List EvidenceItem → List EvidenceItem → Type 0 where
  nothing : Sublist [] []
  kept :
      {item : EvidenceItem} {xs ys : List EvidenceItem}
      → Sublist xs ys
      → Sublist (item ∷ xs) (item ∷ ys)
  left_out :
      {item : EvidenceItem} {xs ys : List EvidenceItem} → Sublist xs ys → Sublist xs (item ∷ ys)

same_key_trans : (k j i : String × String) → same_key k j ≡ true → same_key k i ≡ same_key j i
same_key_trans (a, b) (c, d) (e, f) h = ground (arith, eq_iff a c, eq_iff b d)

seen_same :
    (k j : String × String) (seen : List (String × String))
    → same_key k j ≡ true
    → seen_key k seen ≡ seen_key j seen
seen_same k j [] h = refl
seen_same k j (i ∷ seen) h = ground (arith, same_key_trans k j i h, seen_same k j seen h)

same_key_refl : (k : String × String) → same_key k k ≡ true
same_key_refl (a, b) = ground (arith, eq_iff a a, eq_iff b b)

-- A key that was seen before is no key of the output.
seen-has_key :
    (k : String × String) (seen : List (String × String)) (items : List EvidenceItem)
    → seen_key k seen ≡ true
    → has_key k (dedup_from seen items) ≡ false
unfolding dedup_from
seen-has_key k seen [] h = refl
seen-has_key k seen (item ∷ items) h = ground (
  arith,
  seen-has_key k seen items h,
  seen-has_key k (dedup_key item ∷ seen) items,
  seen_same k (dedup_key item) seen,
)

-- Any other key is one of the output exactly when it is one of the input.
unseen-has_key :
    (k : String × String) (seen : List (String × String)) (items : List EvidenceItem)
    → seen_key k seen ≡ false
    → has_key k (dedup_from seen items) ≡ has_key k items
unfolding dedup_from
unseen-has_key k seen [] h = refl
unseen-has_key k seen (item ∷ items) h = ground (
  arith,
  unseen-has_key k seen items h,
  unseen-has_key k (dedup_key item ∷ seen) items,
  seen_same k (dedup_key item) seen,
)

dedup_from-DistinctKeys :
    (seen : List (String × String)) (items : List EvidenceItem)
    → DistinctKeys (dedup_from seen items)
unfolding dedup_from DistinctKeys
dedup_from-DistinctKeys seen [] = tt
dedup_from-DistinctKeys seen (item ∷ items) = elim (Bool-cases (seen_key (dedup_key item) seen)) [
  | inl e ↦ rw (e, DistinctKeys) (dedup_from-DistinctKeys seen items)
  | inr e ↦
      rw (e, DistinctKeys)
        (
          seen-has_key (dedup_key item) (dedup_key item ∷ seen) items
              (ground (arith, same_key_refl (dedup_key item))),
          dedup_from-DistinctKeys (dedup_key item ∷ seen) items,
        )
]

dedup_from-Sublist :
    (seen : List (String × String)) (items : List EvidenceItem)
    → Sublist (dedup_from seen items) items
unfolding dedup_from
dedup_from-Sublist seen [] = nothing
dedup_from-Sublist seen (item ∷ items) = elim (Bool-cases (seen_key (dedup_key item) seen)) [
  | inl e ↦ rw e (left_out (dedup_from-Sublist seen items))
  | inr e ↦ rw e (kept (dedup_from-Sublist (dedup_key item ∷ seen) items))
]

-- The items that are kept stand in the order they came, no two have the same canonical URI and
-- content hash, and each pair of a URI and a hash that came is still there.
pub deduplicate_evidence-keeps :
    (items : List EvidenceItem)
    → Sublist (deduplicate_evidence items) items
      × DistinctKeys (deduplicate_evidence items)
      × ((k : String × String) → has_key k (deduplicate_evidence items) ≡ has_key k items)
unfolding deduplicate_evidence
deduplicate_evidence-keeps items = (
  dedup_from-Sublist [] items,
  dedup_from-DistinctKeys [] items,
  λ k. unseen-has_key k [] items refl,
)
