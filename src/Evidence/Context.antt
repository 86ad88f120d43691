-- ===== src/Evidence/Context.antt =====
-- app/services/context_builder.py: build_context and context_character_count. Texts are measured in
-- their code points. An item's copied fields are those of its source; of its metadata, the four entries
-- that are set. max_chars and max_item_chars are not negative; 0 for the latter stands for None, too.
use langchain_langraph_app_l.Prelude.{
  ℕ, zero, suc, ◌<◌, ◌+◌, ◌-◌, ◌≤◌, ◌≡◌, refl, String, List, [], ◌∷◌, ◌++◌, Bool, true, false, ◌&&◌,
  ◌||◌, leb, ltb, min, max, str_eq, length, length-append, take, All, arith, if◌then◌else◌,
  Bool-cases, inl, inr,
}
use langchain_langraph_app_l.Prelude.Text.{codes}
use langchain_langraph_app_l.Evidence.{EvidenceItem}

pub record ContextItem : Type 0 where
  pub source : EvidenceItem
  pub content : List ℕ
  pub original_content_chars : ℕ
  pub context_content_chars : ℕ
  pub context_body_chars : ℕ
  pub context_truncated : Bool

abbrev pub key_in : String → String → List (String × String) → Bool
key_in id text [] = false
key_in id text ((id', text') ∷ seen) = (str_eq id id' && str_eq text text') || key_in id text seen

unfoldable pub prefix : EvidenceItem → List ℕ
prefix item = codes "<untrusted_evidence evidence_id=\"" ++ (codes item.evidence_id ++ codes "\">")

unfoldable pub suffix : List ℕ
suffix = codes "</untrusted_evidence>"

abbrev pub wrapper_chars : EvidenceItem → ℕ
wrapper_chars item = length (prefix item) + length suffix

abbrev pub body : EvidenceItem → ℕ → List ℕ
body item allowed = take (allowed - wrapper_chars item) (codes item.normalized_text)

-- No item of the service brings an `original_content_chars` along, so `setdefault` sets it.
abbrev pub wrapped : EvidenceItem → ℕ → ContextItem
wrapped item allowed =
    let content = prefix item ++ (body item allowed ++ suffix) in
    record {
      source = item;
      content = content;
      original_content_chars = length (codes item.normalized_text);
      context_content_chars = length content;
      context_body_chars = length (body item allowed);
      context_truncated =
          item.truncated || ltb (length (body item allowed)) (length (codes item.normalized_text));
    }

-- The loop, with what is left and the keys that were seen.
unfoldable pub build_from : ℕ → ℕ → List (String × String) → List EvidenceItem → List ContextItem
build_from per_item remaining seen [] = []
build_from per_item remaining seen (item ∷ items) = elim (leb remaining 0) [
  | true ↦ []
  | false ↦ elim (key_in item.evidence_id item.normalized_text seen) [
    | true ↦ build_from per_item remaining seen items
    | false ↦ elim (leb (min remaining per_item) (wrapper_chars item)) [
      | true ↦ []
      | false ↦
          wrapped item (min remaining per_item)
          ∷ build_from per_item
              (remaining - (wrapped item (min remaining per_item)).context_content_chars)
              ((item.evidence_id, item.normalized_text) ∷ seen) items
    ]
  ]
]

-- `max(1, int(max_item_chars or max_chars or 1))`
abbrev pub per_item_chars : ℕ → ℕ → ℕ
per_item_chars max_item_chars max_chars =
    max 1 (if leb max_item_chars 0 then max_chars else max_item_chars)

abbrev pub build_context : List EvidenceItem → ℕ → ℕ → List ContextItem
build_context items max_chars max_item_chars =
    build_from (per_item_chars max_item_chars max_chars) max_chars [] items

-- `context_character_count` on items that have their count.
unfoldable pub context_character_count : List ContextItem → ℕ
context_character_count [] = 0
context_character_count (item ∷ items) = item.context_content_chars + context_character_count items

unfoldable pub content_chars : List ContextItem → ℕ
content_chars [] = 0
content_chars (item ∷ items) = length item.content + content_chars items

abbrev pub IsWithin : ℕ → ContextItem → Type 0
IsWithin limit item =
    (length item.content ≤ limit) × (item.context_content_chars ≡ length item.content)

within : (a b : ℕ) → leb a b ≡ false → b < a
within a b h = ground (arith, h)

length-take : (n : ℕ) (xs : List ℕ) → length (take n xs) ≤ n
length-take zero xs = omega arith
length-take (suc n) [] = omega arith
length-take (suc n) (x ∷ xs) = omega (arith, length-take n xs)

wrapped-IsWithin :
    (item : EvidenceItem) (allowed : ℕ)
    → leb allowed (wrapper_chars item) ≡ false
    → IsWithin allowed (wrapped item allowed)
wrapped-IsWithin item allowed h =
    let inner = body item allowed in
    (
      omega (
        arith,
        within allowed (wrapper_chars item) h,
        length-append {0} (prefix item) (inner ++ suffix),
        length-append {0} inner suffix,
        length-take (allowed - wrapper_chars item) (codes item.normalized_text),
      ),
      refl,
    )

-- What is built is within the two limits, and counted right.
abbrev AreWithin : ℕ → ℕ → List ContextItem → Type 0
AreWithin per_item remaining built =
    All (IsWithin per_item) built
    × (content_chars built ≤ remaining)
    × (context_character_count built ≡ content_chars built)

none-AreWithin : (per_item remaining : ℕ) → AreWithin per_item remaining []
unfolding content_chars context_character_count
none-AreWithin per_item remaining = (tt, omega arith, refl)

more-AreWithin :
    (per_item remaining : ℕ) (item : ContextItem) (built : List ContextItem)
    → IsWithin (min remaining per_item) item
    → AreWithin per_item (remaining - item.context_content_chars) built
    → AreWithin per_item remaining (item ∷ built)
unfolding content_chars context_character_count
more-AreWithin per_item remaining item built (size, count) (sizes, total, counts) = (
  ((omega (arith, size), count), sizes),
  omega (arith, size, count, total),
  omega (arith, count, counts),
)

build_from-AreWithin :
    (per_item remaining : ℕ) (seen : List (String × String)) (items : List EvidenceItem)
    → AreWithin per_item remaining (build_from per_item remaining seen items)
unfolding build_from
build_from-AreWithin per_item remaining seen [] = none-AreWithin per_item remaining
build_from-AreWithin per_item remaining seen (item ∷ items) =
    let new = wrapped item (min remaining per_item) in
    elim (Bool-cases (leb remaining 0)) [
      | inl e ↦ ground (arith, e, none-AreWithin per_item remaining)
      | inr e ↦ elim (Bool-cases (key_in item.evidence_id item.normalized_text seen)) [
        | inl old ↦ ground (arith, e, old, build_from-AreWithin per_item remaining seen items)
        | inr fresh ↦ elim (Bool-cases (leb (min remaining per_item) (wrapper_chars item))) [
          | inl full ↦ ground (arith, e, fresh, full, none-AreWithin per_item remaining)
          | inr fits ↦
              let more =
                more-AreWithin per_item remaining new
                  (build_from per_item (remaining - new.context_content_chars)
                    ((item.evidence_id, item.normalized_text) ∷ seen) items)
                  (wrapped-IsWithin item (min remaining per_item) fits)
                  (build_from-AreWithin per_item (remaining - new.context_content_chars)
                    ((item.evidence_id, item.normalized_text) ∷ seen) items) in
              ground (arith, e, fresh, fits, more)
        ]
      ]
    ]

-- However long the evidence is, build_context gives at most max_chars characters of content, the
-- wrappers included, each item at most the per-item limit and with its own count right, and
-- context_character_count is the sum of the lengths.
pub build_context-IsWithin :
    (items : List EvidenceItem) (max_chars max_item_chars : ℕ)
    → All
        (IsWithin (per_item_chars max_item_chars max_chars))
        (build_context items max_chars max_item_chars)
      × (content_chars (build_context items max_chars max_item_chars) ≤ max_chars)
      × (context_character_count (build_context items max_chars max_item_chars)
          ≡ content_chars (build_context items max_chars max_item_chars))
build_context-IsWithin items max_chars max_item_chars =
    build_from-AreWithin (per_item_chars max_item_chars max_chars) max_chars [] items
