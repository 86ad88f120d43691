-- ===== src/Tools/Policies.antt =====
-- app/tools/policies.py
use langchain_langraph_app_l.Prelude.{
  ℕ, String, Bool, true, false, Option, none, some, List, [], ◌∷◌, map, ◌==◌, if◌then◌else◌,
}
use langchain_langraph_app_l.Prelude.Text.{
  codes, same_text, lower_code, is_word_code, is_blank, strip, split_on, meets,
}

pub data SideEffectLevel : Type 0 where
  read_only external_read reversible_write external_communication restricted : SideEffectLevel

pub record ToolPolicy : Type 0 where
  pub level : SideEffectLevel
  pub known : Bool
  pub cacheable : Bool

-- The property `read_only`.
abbrev pub is_read_only : ToolPolicy → Bool
is_read_only p = elim p.level [
  | SideEffectLevel.read_only ↦ true
  | SideEffectLevel.external_read ↦ true
  | _ ↦ false
]

abbrev pub policy : SideEffectLevel → Bool → ToolPolicy
policy level known = record { level = level; known = known; cacheable = false }

abbrev pub write_tokens : List String
write_tokens =
    "create" ∷ "update" ∷ "delete" ∷ "remove" ∷ "send" ∷ "publish" ∷ "post" ∷ "write" ∷ "modify"
    ∷ "forward" ∷ "reply" ∷ "book" ∷ "purchase" ∷ "order" ∷ "upload" ∷ "put" ∷ "patch" ∷ []

abbrev pub read_tokens : List String
read_tokens =
    "search" ∷ "read" ∷ "get" ∷ "list" ∷ "find" ∷ "lookup" ∷ "query" ∷ "fetch" ∷ "scrape" ∷ "news"
    ∷ "weather" ∷ "status" ∷ "inventory" ∷ "inspect" ∷ "describe" ∷ []

-- `re.sub(r"[^a-z0-9]+", "_", s)`: `after` tells that the character before was replaced.
replace_runs : Bool → List ℕ → List ℕ
replace_runs after [] = []
replace_runs after (c ∷ s) =
    let kept = c ∷ replace_runs false s in
    let replaced = replace_runs true s in
    if is_word_code c then kept else if after then replaced else b'_' ∷ replaced

unfoldable pub normalize : String → List ℕ
unfolding replace_runs strip
normalize tool =
    strip (λ c. c == b'_') (replace_runs false (map lower_code (strip is_blank (codes tool))))

unfoldable pub nonempty : List (List ℕ) → List (List ℕ)
nonempty [] = []
nonempty ([] ∷ parts) = nonempty parts
nonempty ((c ∷ s) ∷ parts) = (c ∷ s) ∷ nonempty parts

-- `POLICIES`
abbrev explicit_policy : List ℕ → Option ToolPolicy
explicit_policy name =
    if same_text name (codes "mail_search")
    then some (policy SideEffectLevel.external_read true)
    else if same_text name (codes "mail_create_draft")
    then some (policy SideEffectLevel.reversible_write true)
    else if same_text name (codes "mail_send_draft")
    then some (policy SideEffectLevel.external_communication true)
    else none

abbrev pub policy_tokens : List ℕ → List (List ℕ)
policy_tokens normalized = nonempty (split_on b'_' normalized)

abbrev token_policy : List (List ℕ) → ToolPolicy
token_policy tokens =
    if meets tokens write_tokens
    then policy SideEffectLevel.restricted false
    else if meets tokens read_tokens
    then policy SideEffectLevel.external_read false
    else policy SideEffectLevel.restricted false

abbrev or_token_policy : Option ToolPolicy → List (List ℕ) → ToolPolicy
or_token_policy (some explicit) tokens = explicit
or_token_policy none tokens = token_policy tokens

unfoldable pub policy_for : String → ToolPolicy
unfolding normalize nonempty split_on
policy_for tool =
    let normalized = normalize tool in
    or_token_policy (explicit_policy normalized) (policy_tokens normalized)
