-- ===== src/Tools/Executor/Denial.antt =====
-- executor.py: which calls are denied, by the words of the tool's name.
use langchain_langraph_app_l.Prelude.{
  ℕ, ◌≡◌, ◌⊎◌, inl, inr, refl, String, Bool, false, List, [], ◌∷◌, map, ◌↔◌, err, arith, Bool-cases,
  Result-cases,
}
use langchain_langraph_app_l.Prelude.Text.{codes, lower_code, meets}
use langchain_langraph_app_l.Meter.{ExecutionBudget, begin_tool_attempt, add_queue_wait}
use langchain_langraph_app_l.Mcp.{client_attempts}
use langchain_langraph_app_l.Tools.Policies.{nonempty}
use langchain_langraph_app_l.Tools.Executor.{
  write_markers, tool_name_tokens, execution_denied, Outcome, Wait, admitted, too_late, interrupted,
  ToolCall, conclude, call_tool, metered_call, admitted_call, execute,
}
use langchain_langraph_app_l.Tools.Executor.Safety.{IsSafeRead, execute_denied}
use langchain_langraph_app_l.Tools.Executor.Names.{
  join, words_of, AreWords, SomeOf, join-name_tokens, AreNamed, meets_iff,
}

-- The words that make a name one of a tool that reads, and of one that may write.
abbrev pub reading : List String
reading =
    "calculate" ∷ "convert" ∷ "explain" ∷ "extract" ∷ "fetch" ∷ "get" ∷ "health" ∷ "list" ∷ "lookup"
    ∷ "news" ∷ "query" ∷ "quote" ∷ "read" ∷ "scrape" ∷ "search" ∷ "status" ∷ "time" ∷ "weather" ∷ []

abbrev pub writing : List String
writing =
    "approve" ∷ "create" ∷ "delete" ∷ "draft" ∷ "execute" ∷ "modify" ∷ "patch" ∷ "post" ∷ "publish"
    ∷ "remove" ∷ "run" ∷ "send" ∷ "trigger" ∷ "update" ∷ "upload" ∷ "write" ∷ []

reading-AreNamed : AreNamed reading
reading-AreNamed = ground arith

writing-AreNamed : AreNamed writing
writing-AreNamed = ground arith

-- Some word of the name is a reading one, and none is a writing one.
pub record IsReader (words : List (List ℕ)) : Type 0 where
  pub reads : SomeOf words reading
  pub never_writes : SomeOf words writing → ⊥

joined-tokens :
    (name : String) (word : List ℕ) (rest : List (ℕ × List ℕ))
    → codes name ≡ join word rest
    → AreWords word rest
    → tool_name_tokens name ≡ nonempty (map (map lower_code) (words_of word rest))
unfolding tool_name_tokens
joined-tokens name word rest e h = rw (e, join-name_tokens word rest h) refl

IsSafeRead-IsReader :
    (name : String) (word : List ℕ) (rest : List (ℕ × List ℕ))
    → codes name ≡ join word rest
    → AreWords word rest
    → IsSafeRead name
    → IsReader (words_of word rest)
IsSafeRead-IsReader name word rest e h safe =
    let tokens = joined-tokens name word rest e h in
    record {
      reads = (meets_iff (words_of word rest) reading reading-AreNamed).0 (rw tokens at safe.reads);
      never_writes = λ k.
          let found = (meets_iff (words_of word rest) writing writing-AreNamed).1 k in
          let none_found = rw tokens at safe.no_write in absurd (ground (arith, found, none_found));
    }

IsReader-IsSafeRead :
    (name : String) (word : List ℕ) (rest : List (ℕ × List ℕ))
    → codes name ≡ join word rest
    → AreWords word rest
    → IsReader (words_of word rest)
    → IsSafeRead name
IsReader-IsSafeRead name word rest e h reader =
    let tokens = joined-tokens name word rest e h in
    record {
      reads = rw tokens ((meets_iff (words_of word rest) reading reading-AreNamed).1 reader.reads);
      no_write = elim (Bool-cases (meets (tool_name_tokens name) write_markers)) [
        | inr p ↦ p
        | inl p ↦ absurd (
            reader.never_writes
              ((meets_iff (words_of word rest) writing writing-AreNamed).0 (rw tokens at p)))
      ];
    }

-- The call behind the two tests never ends in a denial.
module _ {ℓ} {R : Type ℓ} (manual : Bool) where
  conclude_runs :
      (outcome : Outcome R) (b : ExecutionBudget)
      → (conclude manual outcome b).0 ≡ err execution_denied
      → ⊥
  unfolding conclude
  conclude_runs (Outcome.returned x) b h = absurd (ground (arith, h))
  conclude_runs Outcome.expired b h = absurd (ground (arith, h))
  conclude_runs Outcome.timed_out b h = absurd (ground (arith, h))
  conclude_runs Outcome.cancelled b h = absurd (ground (arith, h))
  conclude_runs (Outcome.failed name) b h = absurd (ground (arith, h))

  call_tool_runs :
      (c : ToolCall R) (b : ExecutionBudget) → (call_tool manual c b).0 ≡ err execution_denied → ⊥
  unfolding call_tool
  call_tool_runs c b h =
      let (r, b') = client_attempts c.attempts b in
      let refused : Outcome R = Outcome.returned (record { ok = false; reply = c.refused }) in
      elim (Result-cases r) [
        | inl (_, e) ↦ conclude_runs c.outcome b' (ground (arith, e, h))
        | inr (_, e) ↦ conclude_runs refused b' (ground (arith, e, h))
      ]

  metered_call_runs :
      (c : ToolCall R) (b : ExecutionBudget)
      → (metered_call manual c b).0 ≡ err execution_denied
      → ⊥
  unfolding metered_call
  metered_call_runs c b h = elim (Bool-cases manual) [
    | inr m ↦ call_tool_runs c b (ground (arith, m, h))
    | inl m ↦ elim (Result-cases (begin_tool_attempt b c.now)) [
      | inl (b', e) ↦ call_tool_runs c b' (ground (arith, m, e, h))
      | inr (_, e) ↦ absurd (ground (arith, m, e, h))
    ]
  ]

  admitted_call_runs :
      (c : ToolCall R) (waited : Wait) (b : ExecutionBudget)
      → (admitted_call manual c waited b).0 ≡ err execution_denied
      → ⊥
  unfolding admitted_call
  admitted_call_runs c too_late b h = absurd (ground (arith, h))
  admitted_call_runs c interrupted b h = absurd (ground (arith, h))
  admitted_call_runs c (admitted waited) b h = metered_call_runs c (add_queue_wait b waited) h

-- A call whose tool has a name of words that are joined by _ or - is denied exactly when no word,
-- in small letters, is one of the eighteen that mean reading, or some word is one of the sixteen
-- that mean writing; the budget is then as it was.
pub execute_denied_iff {ℓ} :
    {R : Type ℓ} (manual : Bool) (name : String) (word : List ℕ) (rest : List (ℕ × List ℕ))
    (c : ToolCall R) (b : ExecutionBudget)
    → codes name ≡ join word rest
    → AreWords word rest
    → (((execute manual name c b).0 ≡ err execution_denied)
        ↔ ((SomeOf (words_of word rest) reading → ⊥) ⊎ SomeOf (words_of word rest) writing))
      × ((execute manual name c b).0 ≡ err execution_denied → (execute manual name c b).1 ≡ b)
execute_denied_iff manual name word rest c b e h =
    let words = words_of word rest in
    let (reads, reads_back) = meets_iff words reading reading-AreNamed in
    let (writes, writes_back) = meets_iff words writing writing-AreNamed in
    elim (execute_denied manual name c b) [
      | inl (safe, runs) ↦
          let reader = IsSafeRead-IsReader name word rest e h safe in
          let never = λ (d : (execute manual name c b).0 ≡ err execution_denied).
            admitted_call_runs manual c c.waited b (ground (arith, runs, d)) in
          (
            (
              λ d. absurd (never d),
              λ k. absurd (elim k [
                | inl unread ↦ unread reader.reads
                | inr some_writing ↦ reader.never_writes some_writing
              ]),
            ),
            λ d. absurd (never d),
          )
      | inr (unsafe, denied) ↦ (
        (
          λ d. elim (Bool-cases (meets (nonempty (map (map lower_code) words)) writing)) [
            | inl p ↦ inr (writes p)
            | inr p ↦ inl λ k. unsafe (
                IsReader-IsSafeRead name word rest e h (record {
                  reads = k;
                  never_writes = λ w. let q = writes_back w in absurd (ground (arith, p, q));
                }))
          ],
          λ k. ground (arith, denied),
        ),
        λ d. ground (arith, denied),
      )
    ]
