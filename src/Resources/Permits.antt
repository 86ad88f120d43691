-- ===== src/Resources/Permits.antt =====
-- resource_manager.py: the slots of the two semaphores.
use langchain_langraph_app_l.Prelude.{
  ℕ, ◌+◌, ◌-◌, ◌≤◌, ◌≡◌, refl, List, [], ◌∷◌, ◌++◌, Bool, true, false, max, arith,
}
use langchain_langraph_app_l.Resources.{
  Manager, create, leave, Phase, waiting_all, ready, running, gone, Request, Move, System, Step,
  Reach,
}

abbrev pub one_if : Bool → ℕ
one_if true = 1
one_if false = 0

-- The requests that hold a slot, that hold a heavy slot, that wait, and that are in the body.
abbrev holds_all : Bool → Phase → Bool
holds_all h waiting_all = false
holds_all h gone = false
holds_all h _ = true

abbrev holds_heavy : Bool → Phase → Bool
holds_heavy h ready = h
holds_heavy h running = h
holds_heavy h _ = false

abbrev waits : Bool → Phase → Bool
waits h running = false
waits h gone = false
waits h _ = true

abbrev pub is_running : Bool → Phase → Bool
is_running h running = true
is_running h _ = false

abbrev pub is_heavy_running : Bool → Phase → Bool
is_heavy_running h running = h
is_heavy_running h _ = false

unfoldable pub count : (Bool → Phase → Bool) → List Request → ℕ
count p [] = 0
count p (r ∷ rs) = one_if (p r.is_heavy r.phase) + count p rs

pub count-at :
    (p : Bool → Phase → Bool) (before : List Request) (r : Request) (later : List Request)
    → count p (before ++ (r ∷ later)) ≡ one_if (p r.is_heavy r.phase) + count p (before ++ later)
unfolding count
count-at p [] r later = refl
count-at p (b ∷ before) r later = omega (arith, count-at p before r later)

-- Every slot is free or held by one request, and the queue has the requests that wait.
pub record IsFair (most most_heavy : ℕ) (s : System) : Type 0 where
  pub slots : s.manager.all + count holds_all s.requests ≡ most
  pub heavy_slots : s.manager.heavy + count holds_heavy s.requests ≡ most_heavy
  pub queue : s.manager.queued ≡ count waits s.requests

-- A move passes slots between the semaphores and its request.
Passes : Bool → Manager → Phase → Manager → Phase → Type 0
Passes h m p m' p' =
    (m'.all + one_if (holds_all h p') ≡ m.all + one_if (holds_all h p))
    × (m'.heavy + one_if (holds_heavy h p') ≡ m.heavy + one_if (holds_heavy h p))
    × (m'.queued ≡ (m.queued + one_if (waits h p')) - one_if (waits h p))

Move-Passes : (h : Bool) (m m' : Manager) (p p' : Phase) → Move h m p m' p' → Passes h m p m' p'
unfolding Passes leave
Move-Passes true m _ _ _ (Move.take_all _ n e) = (omega (arith, e), refl, omega arith)
Move-Passes false m _ _ _ (Move.take_all _ n e) = (omega (arith, e), refl, omega arith)
Move-Passes h m _ _ _ (Move.take_heavy _ n e is_heavy) =
    (refl, ground (arith, e, is_heavy), omega arith)
Move-Passes h m _ _ _ (Move.enter _) = (refl, refl, omega arith)
Move-Passes h m _ _ _ (Move.cancel_all _) = (refl, refl, omega arith)
Move-Passes h m _ _ _ (Move.cancel_heavy _) = (omega arith, refl, omega arith)
Move-Passes true m _ _ _ (Move.cancel_ready _) = (omega arith, omega arith, omega arith)
Move-Passes false m _ _ _ (Move.cancel_ready _) = (omega arith, omega arith, omega arith)
Move-Passes true m _ _ _ (Move.finish _) = (omega arith, omega arith, omega arith)
Move-Passes false m _ _ _ (Move.finish _) = (omega arith, omega arith, omega arith)

Move-IsFair :
    (most most_heavy : ℕ) (m m' : Manager) (h : Bool) (p p' : Phase) (before later : List Request)
    → Move h m p m' p'
    → IsFair most most_heavy
        (record { manager = m; requests = before ++ (record { is_heavy = h; phase = p } ∷ later) })
    → IsFair most most_heavy (record {
      manager = m';
      requests = before ++ (record { is_heavy = h; phase = p' } ∷ later);
    })
unfolding Passes
Move-IsFair most most_heavy m m' h p p' before later mv f =
    let r : Request = record { is_heavy = h; phase = p } in
    let r' : Request = record { is_heavy = h; phase = p' } in
    let (slot, heavy_slot, queue) = Move-Passes h m m' p p' mv in
    record {
      slots = omega (
        arith,
        slot,
        f.slots,
        count-at holds_all before r later,
        count-at holds_all before r' later,
      );
      heavy_slots = omega (
        arith,
        heavy_slot,
        f.heavy_slots,
        count-at holds_heavy before r later,
        count-at holds_heavy before r' later,
      );
      queue =
          omega
            (arith, queue, f.queue, count-at waits before r later, count-at waits before r' later);
    }

Step-IsFair :
    (most most_heavy : ℕ) (s t : System)
    → Step s t
    → IsFair most most_heavy s
    → IsFair most most_heavy t
unfolding count
Step-IsFair most most_heavy s _ (Step.arrive _ h) f = record {
  slots = omega (arith, f.slots);
  heavy_slots = omega (arith, f.heavy_slots);
  queue = omega (arith, f.queue);
}
Step-IsFair most most_heavy _ _ (Step.move m m' h p p' before later mv) f =
    Move-IsFair most most_heavy m m' h p p' before later mv f

Reach-IsFair :
    (most most_heavy : ℕ) (s t : System)
    → Reach s t
    → IsFair most most_heavy s
    → IsFair most most_heavy t
Reach-IsFair most most_heavy s _ Reach.here f = f
Reach-IsFair most most_heavy s u (Reach.next t _ run step) f =
    Step-IsFair most most_heavy t u step (Reach-IsFair most most_heavy s t run f)

create-IsFair :
    (a b : ℕ) → IsFair (max 1 a) (max 1 b) (record { manager = create a b; requests = [] })
unfolding count
create-IsFair a b = record { slots = omega arith; heavy_slots = omega arith; queue = refl }

running-holds : (rs : List Request) → count is_running rs ≤ count holds_all rs
unfolding count
running-holds [] = omega arith
running-holds (r ∷ rs) = ground (arith, running-holds rs)

heavy_running-holds : (rs : List Request) → count is_heavy_running rs ≤ count holds_heavy rs
unfolding count
heavy_running-holds [] = omega arith
heavy_running-holds (r ∷ rs) = ground (arith, heavy_running-holds rs)

-- However requests arrive, get their slots, are cancelled and end, from a new manager on: at most
-- max_concurrency of them are in the body at once and at most max_heavy_concurrency heavy ones, each
-- slot is free or held by one request that has not ended, and _queued is the number that wait.
pub Reach-IsBounded :
    (a b : ℕ) (s : System)
    → Reach (record { manager = create a b; requests = [] }) s
    → (count is_running s.requests ≤ max 1 a)
      × (count is_heavy_running s.requests ≤ max 1 b)
      × IsFair (max 1 a) (max 1 b) s
Reach-IsBounded a b s run =
    let f =
      Reach-IsFair (max 1 a) (max 1 b) (record { manager = create a b; requests = [] }) s run
        (create-IsFair a b) in
    (
      omega (arith, f.slots, running-holds s.requests),
      omega (arith, f.heavy_slots, heavy_running-holds s.requests),
      f,
    )
