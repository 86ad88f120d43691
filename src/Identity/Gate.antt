-- ===== src/Identity/Gate.antt =====
-- run_identity.py: ConversationGate, and the requests of one process that pass through it. Its lock
-- makes each of the two parts of `hold` one step.
use langchain_langraph_app_l.Prelude.{
  ◌≡◌, ◌≢◌, sym, inl, inr, String, List, [], ◌∷◌, ◌++◌, Option, none, some, All, str_eq, eq_iff,
  arith, if◌then◌else◌, Option-cases,
}
use langchain_langraph_app_l.Prelude.Dict.{Dict, lookup, put, remove, lookup-put, lookup-remove}

-- A request in the body of `hold`: its conversation and its run.
pub record Holder : Type 0 where
  pub conversation_id : String
  pub run_id : String

-- The first part of `hold`; none is ConversationBusyError.
unfoldable pub enter : Holder → Dict String → Option (Dict String)
enter h owners = elim (lookup h.conversation_id owners) [
  | some owner ↦ none
  | none ↦ some (put h.conversation_id h.run_id owners)
]

-- The finally clause of `hold`.
unfoldable pub exit : Holder → Dict String → Dict String
exit h owners = elim (lookup h.conversation_id owners) [
  | none ↦ owners
  | some owner ↦ if str_eq owner h.run_id then remove h.conversation_id owners else owners
]

pub record State : Type 0 where
  pub owners : Dict String
  pub inside : List Holder

-- A request comes in, or is refused, or one that is inside goes out.
pub data Step : State → State → Type 0 where
  admitted :
      (s : State) (h : Holder) (owners : Dict String)
      → enter h s.owners ≡ some owners
      → Step s (record { owners = owners; inside = h ∷ s.inside })
  refused : (s : State) (h : Holder) → enter h s.owners ≡ none → Step s s
  left :
      (owners : Dict String) (before later : List Holder) (h : Holder)
      → Step
          (record { owners = owners; inside = before ++ (h ∷ later) })
          (record { owners = exit h owners; inside = before ++ later })

pub data Reach (s : State) : State → Type 0 where
  here : Reach s s
  next : (t u : State) → Reach s t → Step t u → Reach s u

-- No two requests inside are of one conversation.
abbrev pub Apart : String → Holder → Type 0
Apart c h = h.conversation_id ≢ c

abbrev pub AllApart : List Holder → Type 0
AllApart [] = Unit
AllApart (h ∷ hs) = All (Apart h.conversation_id) hs × AllApart hs

abbrev Owns : Dict String → Holder → Type 0
Owns owners h = lookup h.conversation_id owners ≡ some h.run_id

pub record IsExclusive (s : State) : Type 0 where
  pub owned : All (Owns s.owners) s.inside
  pub apart : AllApart s.inside

free-Apart :
    (owners : Dict String) (c : String) (hs : List Holder)
    → lookup c owners ≡ none
    → All (Owns owners) hs
    → All (Apart c) hs
free-Apart owners c [] e a = tt
free-Apart owners c (h ∷ hs) e (own, a) =
    ((λ same. ground (arith, e, own, same)), free-Apart owners c hs e a)

put-Owns :
    (owners owners' : Dict String) (c run : String) (hs : List Holder)
    → owners' ≡ put c run owners
    → All (Apart c) hs
    → All (Owns owners) hs
    → All (Owns owners') hs
put-Owns owners owners' c run [] e apart a = tt
put-Owns owners owners' c run (h ∷ hs) e (apart, rest) (own, a) = (
  ground
      (arith, own, apart, e, lookup-put c h.conversation_id run owners, eq_iff c h.conversation_id),
  put-Owns owners owners' c run hs e rest a,
)

remove-Owns :
    (owners : Dict String) (c : String) (hs : List Holder)
    → All (Apart c) hs
    → All (Owns owners) hs
    → All (Owns (remove c owners)) hs
remove-Owns owners c [] apart a = tt
remove-Owns owners c (h ∷ hs) (apart, rest) (own, a) = (
  ground (arith, own, apart, lookup-remove c h.conversation_id owners, eq_iff c h.conversation_id),
  remove-Owns owners c hs rest a,
)

-- What is left when one of the list goes.
All-without :
    (P : Holder → Type 0) (before : List Holder) (h : Holder) (later : List Holder)
    → All P (before ++ (h ∷ later))
    → P h × All P (before ++ later)
All-without P [] h later (p, a) = (p, a)
All-without P (b ∷ before) h later (p, a) =
    let (q, rest) = All-without P before h later a in (q, (p, rest))

AllApart-without :
    (before : List Holder) (h : Holder) (later : List Holder)
    → AllApart (before ++ (h ∷ later))
    → All (Apart h.conversation_id) (before ++ later) × AllApart (before ++ later)
AllApart-without [] h later a = a
AllApart-without (b ∷ before) h later (p, a) =
    let (q, rest) = All-without (Apart b.conversation_id) before h later p in
    let (apart, others) = AllApart-without before h later a in
    (((λ same. q (sym same)), apart), (rest, others))

Step-IsExclusive : (s t : State) → Step s t → IsExclusive s → IsExclusive t
unfolding enter exit
Step-IsExclusive s _ (Step.admitted _ h owners e) i =
    elim (Option-cases (lookup h.conversation_id s.owners)) [
      | inr (owner, f) ↦ absurd (ground (arith, e, f))
      | inl f ↦
          let apart = free-Apart s.owners h.conversation_id s.inside f i.owned in
          let same : owners ≡ put h.conversation_id h.run_id s.owners = ground (arith, e, f) in
          record {
            owned = (
              ground (
                arith,
                same,
                lookup-put h.conversation_id h.conversation_id h.run_id s.owners,
                eq_iff h.conversation_id h.conversation_id,
              ),
              put-Owns s.owners owners h.conversation_id h.run_id s.inside same apart i.owned,
            );
            apart = (apart, i.apart);
          }
    ]
Step-IsExclusive s _ (Step.refused _ h e) i = i
Step-IsExclusive _ _ (Step.left owners before later h) i =
    let (own, owned) = All-without (Owns owners) before h later i.owned in
    let (apart, others) = AllApart-without before h later i.apart in
    record {
      owned = ground (
        arith,
        own,
        eq_iff h.run_id h.run_id,
        remove-Owns owners h.conversation_id (before ++ later) apart owned,
      );
      apart = others;
    }

-- However requests come in, are refused and go out, with the gate empty at first: no two that are
-- inside at once are of one conversation, and each that is inside owns its conversation in the gate.
pub Reach-IsExclusive : (s : State) → Reach (record { owners = []; inside = [] }) s → IsExclusive s
Reach-IsExclusive _ Reach.here = record { owned = tt; apart = tt }
Reach-IsExclusive s (Reach.next t _ run step) = Step-IsExclusive t s step (Reach-IsExclusive t run)
