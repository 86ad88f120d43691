-- ===== src/Tools/Executor/Names.antt =====
-- executor.py: the words that a tool's name is made of, and the parts that the executor takes.
use langchain_langraph_app_l.Prelude.{
  ℕ, ◌≡◌, ◌≢◌, ◌⊎◌, inl, inr, refl, String, true, false, List, [], ◌∷◌, ◌++◌, map, ◌↔◌, ◌==◌, All,
  arith, Bool-cases, sym,
}
use langchain_langraph_app_l.Prelude.Text.{codes, lower_code, same_text, split_on, elem_text, meets}
use langchain_langraph_app_l.Tools.Policies.{nonempty}
use langchain_langraph_app_l.Tools.Executor.{dash_to_underscore}

-- A character that separates no words.
abbrev pub IsPlain : ℕ → Type 0
IsPlain c = (c ≢ b'_') × (c ≢ b'-')

abbrev pub IsSeparator : ℕ → Type 0
IsSeparator c = (c ≡ b'_') ⊎ (c ≡ b'-')

-- A first word, and further ones with the separators before them.
abbrev pub join : List ℕ → List (ℕ × List ℕ) → List ℕ
join word [] = word
join word ((separator, next) ∷ rest) = word ++ separator ∷ join next rest

abbrev pub words_of : List ℕ → List (ℕ × List ℕ) → List (List ℕ)
words_of word [] = word ∷ []
words_of word ((separator, next) ∷ rest) = word ∷ words_of next rest

abbrev pub AreWords : List ℕ → List (ℕ × List ℕ) → Type 0
AreWords word [] = All IsPlain word
AreWords word ((separator, next) ∷ rest) =
    All IsPlain word × IsSeparator separator × AreWords next rest

-- The word, in small letters, is in the list.
abbrev pub IsOneOf : List ℕ → List String → Type 0
IsOneOf word [] = ⊥
IsOneOf word (w ∷ ws) = (map lower_code word ≡ codes w) ⊎ IsOneOf word ws

abbrev pub SomeOf : List (List ℕ) → List String → Type 0
SomeOf [] ws = ⊥
SomeOf (word ∷ words) ws = IsOneOf word ws ⊎ SomeOf words ws

abbrev normal : ℕ → ℕ
normal c = dash_to_underscore (lower_code c)

plain-normal : (c : ℕ) → IsPlain c → (normal c ≡ lower_code c) × ((normal c == b'_') ≡ false)
plain-normal c h = (ground arith, ground arith)

separator-normal : (c : ℕ) → IsSeparator c → (normal c == b'_') ≡ true
separator-normal c h = ground arith

abbrev pub name_tokens : List ℕ → List (List ℕ)
name_tokens cs = split_on b'_' (map dash_to_underscore (map lower_code cs))

last-name_tokens : (word : List ℕ) → All IsPlain word → name_tokens word ≡ map lower_code word ∷ []
unfolding split_on
last-name_tokens [] h = refl
last-name_tokens (c ∷ word) h =
    let (same, no_split) = plain-normal c h.0 in
    let rest = last-name_tokens word h.1 in rw (no_split, rest, same) refl

word-name_tokens :
    (word : List ℕ) (separator : ℕ) (cs : List ℕ)
    → All IsPlain word
    → IsSeparator separator
    → name_tokens (word ++ separator ∷ cs) ≡ map lower_code word ∷ name_tokens cs
unfolding split_on
word-name_tokens [] separator cs h k = rw (separator-normal separator k) refl
word-name_tokens (c ∷ word) separator cs h k =
    let (same, no_split) = plain-normal c h.0 in
    let rest = word-name_tokens word separator cs h.1 k in rw (no_split, rest, same) refl

pub join-name_tokens :
    (word : List ℕ) (rest : List (ℕ × List ℕ))
    → AreWords word rest
    → name_tokens (join word rest) ≡ map (map lower_code) (words_of word rest)
join-name_tokens word [] h = last-name_tokens word h
join-name_tokens word ((separator, next) ∷ rest) (h, k, hs) =
    rw (word-name_tokens word separator (join next rest) h k, join-name_tokens next rest hs) refl

same_text_iff : (s t : List ℕ) → (same_text s t ≡ true) ↔ (s ≡ t)
same_text_iff [] [] = (λ h. refl, λ h. refl)
same_text_iff [] (d ∷ t) = (λ h. absurd (ground (arith, h)), λ h. absurd (ground (arith, h)))
same_text_iff (c ∷ s) [] = (λ h. absurd (ground (arith, h)), λ h. absurd (ground (arith, h)))
same_text_iff (c ∷ s) (d ∷ t) =
    let (forth, back) = same_text_iff s t in
    (λ h. ground (arith, h, forth), λ h. ground (arith, h, back))

elem_text_iff :
    (word : List ℕ) (ws : List String)
    → (elem_text (map lower_code word) ws ≡ true) ↔ IsOneOf word ws
elem_text_iff word [] = (λ h. absurd (ground (arith, h)), λ h. absurd h)
elem_text_iff word (w ∷ ws) =
    let (forth, back) = elem_text_iff word ws in
    let (here, there) = same_text_iff (map lower_code word) (codes w) in
    (
      λ h. elim (Bool-cases (same_text (map lower_code word) (codes w))) [
        | inl e ↦ inl (here e)
        | inr e ↦ inr (forth (ground (arith, h, e)))
      ],
      λ h. elim h [
        | inl e ↦ let k = there e in ground (arith, k)
        | inr e ↦ let k = back e in ground (arith, k)
      ],
    )

abbrev pub AreNamed : List String → Type 0
AreNamed ws = All (λ w. same_text (codes w) [] ≡ false) ws

empty-IsOneOf : (ws : List String) → AreNamed ws → IsOneOf [] ws → ⊥
empty-IsOneOf [] h k = k
empty-IsOneOf (w ∷ ws) h (inl e) =
    let k = (same_text_iff (codes w) []).1 (sym e) in absurd (ground (arith, k, h.0))
empty-IsOneOf (w ∷ ws) h (inr k) = empty-IsOneOf ws h.1 k

pub meets_iff :
    (words : List (List ℕ)) (ws : List String)
    → AreNamed ws
    → (meets (nonempty (map (map lower_code) words)) ws ≡ true) ↔ SomeOf words ws
unfolding nonempty
meets_iff [] ws named = (λ h. absurd (ground (arith, h)), λ h. absurd h)
meets_iff ([] ∷ words) ws named =
    let (forth, back) = meets_iff words ws named in
    (λ h. inr (forth h), λ h. elim h [ inl e ↦ absurd (empty-IsOneOf ws named e) | inr k ↦ back k ])
meets_iff ((c ∷ s) ∷ words) ws named =
    let (forth, back) = meets_iff words ws named in
    let (here, there) = elem_text_iff (c ∷ s) ws in
    (
      λ h. elim (Bool-cases (elem_text (map lower_code (c ∷ s)) ws)) [
        | inl e ↦ inl (here e)
        | inr e ↦ inr (forth (ground (arith, h, e)))
      ],
      λ h. elim h [
        | inl e ↦ let k = there e in ground (arith, k)
        | inr e ↦ let k = back e in ground (arith, k)
      ],
    )
