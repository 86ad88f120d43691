-- ===== src/Chat/Decision.antt =====
-- chat_runtime.py: which runs are executed.
use langchain_langraph_app_l.Prelude.{
  ℕ, ◌≡◌, ◌↔◌, ◌≤◌, ◌⊎◌, refl, inl, inr, Bool, true, false, not, ◌&&◌, ◌==◌, Option, none, some, ok,
  arith, leb→le, Option-cases, Bool-cases,
}
use langchain_langraph_app_l.Runs.{
  RunStatus, pending, running, interrupted, completed, failed, cancelled, expired, reconciling,
  Payload,
}
use langchain_langraph_app_l.Chat.{Request, ChatResponse, World, Point, Outside, pure}
use langchain_langraph_app_l.Chat.Steps.{and_then-ok}
use langchain_langraph_app_l.Chat.Preflight.{
  Found, stored_outcome, preflight_existing_run, refusal, refusal_fresh, refusal_resumed,
  lease_has_expired, replay, is_pending,
}

-- A new run or a pending one; or, for a request that resumes, an interrupted run, a running one whose
-- lease has expired, or a pending one that comes of a checkpoint.
pub data MayExecute (request : Request) (found : Found) (now : ℕ) : Type 0 where
  new_run : request.resumed ≡ false → found.created ≡ true → MayExecute request found now
  pending_run :
      request.resumed ≡ false
      → found.created ≡ false
      → found.known.status ≡ pending
      → MayExecute request found now
  migrated_run :
      request.resumed ≡ true
      → found.resume_migrated ≡ true
      → found.known.status ≡ pending
      → MayExecute request found now
  interrupted_run :
      request.resumed ≡ true
      → found.created ≡ false
      → found.known.status ≡ interrupted
      → MayExecute request found now
  abandoned_run :
      (t : ℕ)
      → request.resumed ≡ true
      → found.created ≡ false
      → found.known.status ≡ running
      → found.known.lease_expires_at ≡ some t
      → t ≤ now
      → MayExecute request found now

refusal_fresh-none : (s : RunStatus) (b : Bool) → refusal_fresh s b ≡ none → s ≡ pending
refusal_fresh-none pending b h = refl
refusal_fresh-none running true h = absurd (ground arith)
refusal_fresh-none running false h = absurd (ground arith)
refusal_fresh-none interrupted b h = absurd (ground arith)
refusal_fresh-none completed b h = absurd (ground arith)
refusal_fresh-none failed b h = absurd (ground arith)
refusal_fresh-none cancelled b h = absurd (ground arith)
refusal_fresh-none expired b h = absurd (ground arith)
refusal_fresh-none reconciling b h = absurd (ground arith)

refusal_resumed-none :
    (s : RunStatus) (b : Bool)
    → refusal_resumed s b ≡ none
    → (s ≡ interrupted) ⊎ ((s ≡ running) × (b ≡ true))
refusal_resumed-none interrupted b h = inl refl
refusal_resumed-none running true h = inr (refl, refl)
refusal_resumed-none running false h = absurd (ground arith)
refusal_resumed-none pending b h = absurd (ground arith)
refusal_resumed-none completed b h = absurd (ground arith)
refusal_resumed-none failed b h = absurd (ground arith)
refusal_resumed-none cancelled b h = absurd (ground arith)
refusal_resumed-none expired b h = absurd (ground arith)
refusal_resumed-none reconciling b h = absurd (ground arith)

lease_has_expired-at :
    (expiry : Option ℕ) (now : ℕ)
    → lease_has_expired expiry now ≡ true
    → (t : ℕ) × (expiry ≡ some t) × (t ≤ now)
lease_has_expired-at none now h = absurd (ground arith)
lease_has_expired-at (some t) now h = (t, refl, leb→le t now h)

is_pending-pending : (s : RunStatus) → is_pending s ≡ true → s ≡ pending
is_pending-pending pending h = refl
is_pending-pending running h = absurd (ground arith)
is_pending-pending interrupted h = absurd (ground arith)
is_pending-pending completed h = absurd (ground arith)
is_pending-pending failed h = absurd (ground arith)
is_pending-pending cancelled h = absurd (ground arith)
is_pending-pending expired h = absurd (ground arith)
is_pending-pending reconciling h = absurd (ground arith)

refusal-MayExecute :
    (request : Request) (found : Found) (now : ℕ)
    → refusal request found now ≡ none
    → MayExecute request found now
refusal-MayExecute request found now h = elim (Bool-cases request.resumed) [
  | inr fresh ↦ elim (Bool-cases found.created) [
    | inl made ↦ new_run fresh made
    | inr old ↦ pending_run fresh old (
        refusal_fresh-none found.known.status (lease_has_expired found.known.lease_expires_at now)
          (ground (arith, h, fresh, old)))
  ]
  | inl resumed ↦ elim (Bool-cases (found.resume_migrated && is_pending found.known.status)) [
    | inl migrated ↦
        migrated_run resumed (ground arith) (is_pending-pending found.known.status (ground arith))
    | inr other ↦ elim (Bool-cases found.created) [
      | inl made ↦ absurd (ground (arith, h, resumed, other, made))
      | inr old ↦
          elim (refusal_resumed-none found.known.status
            (lease_has_expired found.known.lease_expires_at now)
            (ground (arith, h, resumed, other, old))) [
              | inl q ↦ interrupted_run resumed old q
              | inr (q, gone) ↦
                  let (t, e, late) = lease_has_expired-at found.known.lease_expires_at now gone in
                  abandoned_run t resumed old q e late
            ]
    ]
  ]
]

MayExecute-refusal :
    (request : Request) (found : Found) (now : ℕ)
    → MayExecute request found now
    → refusal request found now ≡ none
MayExecute-refusal request found now (new_run a b) = ground (arith, a, b)
MayExecute-refusal request found now (pending_run a b c) = ground (arith, a, b, c)
MayExecute-refusal request found now (migrated_run a b c) = ground (arith, a, b, c)
MayExecute-refusal request found now (interrupted_run a b c) = ground (arith, a, b, c)
MayExecute-refusal request found now (abandoned_run t a b c d e) = ground (arith, a, b, c, d, e)

-- The token of a request that resumes has not been revoked.
abbrev pub is_revoked : Request → Found → Bool
is_revoked request found =
    request.resumed
    && not (request.identity.resume_token_version == found.known.resume_token_version)

-- A run with a stored outcome is not executed.
replayed :
    (request : Request) (o : Outside) (found : Found) (payload : Payload) (w : World)
    → preflight_existing_run request o found w ≡ (ok none, w)
    → is_revoked request found ≡ false
    → stored_outcome found.known ≡ some payload
    → ⊥
unfolding preflight_existing_run
replayed request o found payload w h valid e =
    let (response, w1, _, h1) =
      and_then-ok (replay request o found.known payload w) (λ (r : ChatResponse). pure (some r))
        none w (ground (arith, h, valid, e)) in
    ground (arith, h1)

-- preflight lets a run be executed exactly when the token of a request that resumes has the record's
-- version, no outcome is stored for the run, and the run is new or pending, or else the request
-- resumes and the run is interrupted, is running under a lease that has expired, or is pending and
-- comes of a checkpoint.
pub preflight_iff :
    (request : Request) (o : Outside) (found : Found) (w : World)
    → (preflight_existing_run request o found w ≡ (ok none, w)) ↔ (
        (is_revoked request found ≡ false)
        × (stored_outcome found.known ≡ none)
        × MayExecute request found (o.clock Point.replaying 1))
unfolding preflight_existing_run
preflight_iff request o found w = (
  (λ h. elim (Bool-cases (is_revoked request found)) [
    | inl revoked ↦ absurd (ground (arith, h, revoked))
    | inr valid ↦ elim (Option-cases (stored_outcome found.known)) [
      | inr (payload, e) ↦ absurd (replayed request o found payload w h valid e)
      | inl e ↦ elim (Option-cases (refusal request found (o.clock Point.replaying 1))) [
        | inl q ↦ (valid, e, refusal-MayExecute request found (o.clock Point.replaying 1) q)
        | inr (raised, q) ↦ absurd (ground (arith, h, valid, e, q))
      ]
    ]
  ]),
  (λ h.
      let (valid, e, may) = h in
      ground (arith, valid, e, MayExecute-refusal request found (o.clock Point.replaying 1) may)),
)
