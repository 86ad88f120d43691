-- ===== src/Prelude/Text.antt =====
-- Python's `str` methods that the program uses, over the code points of a text. Letters are
-- lowered and blanks are stripped within ASCII.
use Prim.Native.Nat.{ℕ, zero, suc, ◌+◌, ◌-◌}
use Prim.Native.Char.{code}
use Prim.Native.String.{String}
use mathlib.Core.Bool.{Bool, true, false, ◌&&◌, ◌||◌}
use mathlib.Core.List.{List, [], ◌∷◌, reverse}
use langchain_langraph_app_l.Prelude.Tests.{leb, ◌==◌, if◌then◌else◌}
use langchain_langraph_app_l.Prelude.Lists.{length}

abbrev pub codes : String → List ℕ
codes String.[] = []
codes (String.◌∷◌ c s) = code c ∷ codes s

abbrev pub same_text : List ℕ → List ℕ → Bool
same_text [] [] = true
same_text [] (d ∷ t) = false
same_text (c ∷ s) [] = false
same_text (c ∷ s) (d ∷ t) = c == d && same_text s t

abbrev pub lower_code : ℕ → ℕ
lower_code c = if leb b'A' c && leb c b'Z' then c + 32 else c

abbrev pub is_word_code : ℕ → Bool
is_word_code c = (leb b'a' c && leb c b'z') || (leb b'0' c && leb c b'9')

abbrev pub is_blank : ℕ → Bool
is_blank c = c == 32 || ((leb 9 c && leb c 13) || (leb 28 c && leb c 31))

unfoldable pub lstrip : (ℕ → Bool) → List ℕ → List ℕ
lstrip p [] = []
lstrip p (c ∷ s) = let rest = lstrip p s in if p c then rest else c ∷ s

-- s.strip(), for the codes that `p` holds of
unfoldable pub strip : (ℕ → Bool) → List ℕ → List ℕ
unfolding lstrip
strip p s = reverse (lstrip p (reverse (lstrip p s)))

abbrev cons_first : ℕ → List (List ℕ) → List (List ℕ)
cons_first c [] = (c ∷ []) ∷ []
cons_first c (part ∷ parts) = (c ∷ part) ∷ parts

-- s.split(sep), for a separator of one character
unfoldable pub split_on : ℕ → List ℕ → List (List ℕ)
split_on sep [] = [] ∷ []
split_on sep (c ∷ s) =
    let parts = split_on sep s in if c == sep then [] ∷ parts else cons_first c parts

abbrev pub starts_with : List ℕ → List ℕ → Bool
starts_with [] s = true
starts_with (c ∷ t) [] = false
starts_with (c ∷ t) (d ∷ s) = c == d && starts_with t s

-- s.count(t) for a text t that is not empty: occurrences that do not overlap. `skip` characters
-- belong to the last one found.
count_from : List ℕ → ℕ → List ℕ → ℕ
count_from t skip [] = 0
count_from t (suc skip) (c ∷ s) = count_from t skip s
count_from t zero (c ∷ s) =
    let found = suc (count_from t (length t - 1) s) in
    let none_here = count_from t zero s in if starts_with t (c ∷ s) then found else none_here

unfoldable pub count_text : List ℕ → List ℕ → ℕ
unfolding count_from
count_text t s = count_from t 0 s

-- `t in s`
unfoldable pub contains_text : List ℕ → List ℕ → Bool
contains_text t [] = starts_with t []
contains_text t (c ∷ s) = starts_with t (c ∷ s) || contains_text t s

abbrev pub elem_text : List ℕ → List String → Bool
elem_text t [] = false
elem_text t (w ∷ words) = same_text t (codes w) || elem_text t words

-- `tokens & words` is not empty
abbrev pub meets : List (List ℕ) → List String → Bool
meets [] words = false
meets (t ∷ tokens) words = elem_text t words || meets tokens words
