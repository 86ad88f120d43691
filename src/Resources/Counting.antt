-- ===== src/Resources/Counting.antt =====
-- resource_manager.py: the number of active requests that `snapshot` reports.
use langchain_langraph_app_l.Prelude.{
  ℕ, ◌+◌, ◌≤◌, ◌<◌, ◌≡◌, List, [], ◌∷◌, ◌++◌, Bool, true, false, arith,
}
use langchain_langraph_app_l.Resources.{
  Manager, create, leave, Phase, waiting_heavy, gone, Request, Move, System, Step, Reach,
}
use langchain_langraph_app_l.Resources.Permits.{count, count-at, is_running, one_if}

-- The number is right.
abbrev pub CountsActive : System → Type 0
CountsActive s = s.manager.active ≡ count is_running s.requests

-- When the number of active requests is right and above 0, a heavy request that is cancelled while it
-- waits for a heavy slot, which is a step of the system, leaves the number one below the requests that
-- are in the body.
pub cancelled_waiter-undercounts :
    (m : Manager) (before later : List Request)
    → CountsActive (record {
      manager = m;
      requests = before ++ (record { is_heavy = true; phase = waiting_heavy } ∷ later);
    })
    → 0 < m.active
    → Step
        (record {
          manager = m;
          requests = before ++ (record { is_heavy = true; phase = waiting_heavy } ∷ later);
        })
        (record {
          manager = leave true false true m;
          requests = before ++ (record { is_heavy = true; phase = gone } ∷ later);
        })
      × ((leave true false true m).active + 1
          ≡ count is_running (before ++ (record { is_heavy = true; phase = gone } ∷ later)))
unfolding leave
cancelled_waiter-undercounts m before later right busy = (
  Step.move m (leave true false true m) true waiting_heavy gone before later (Move.cancel_heavy m),
  ground (
    arith,
    right,
    busy,
    count-at is_running before (record { is_heavy = true; phase = waiting_heavy }) later,
    count-at is_running before (record { is_heavy = true; phase = gone }) later,
  ),
)

Move-active :
    (h : Bool) (m m' : Manager) (p p' : Phase) (k : ℕ)
    → Move h m p m' p'
    → m.active ≤ one_if (is_running h p) + k
    → m'.active ≤ one_if (is_running h p') + k
unfolding leave
Move-active true m _ _ _ k (Move.take_all _ n e) f = omega (arith, f)
Move-active false m _ _ _ k (Move.take_all _ n e) f = omega (arith, f)
Move-active h m _ _ _ k (Move.take_heavy _ n e is_heavy) f = omega (arith, f)
Move-active h m _ _ _ k (Move.enter _) f = omega (arith, f)
Move-active h m _ _ _ k (Move.cancel_all _) f = omega (arith, f)
Move-active h m _ _ _ k (Move.cancel_heavy _) f = ground (arith, f)
Move-active true m _ _ _ k (Move.cancel_ready _) f = ground (arith, f)
Move-active false m _ _ _ k (Move.cancel_ready _) f = ground (arith, f)
Move-active true m _ _ _ k (Move.finish _) f = ground (arith, f)
Move-active false m _ _ _ k (Move.finish _) f = ground (arith, f)

Step-active :
    (s t : System)
    → Step s t
    → s.manager.active ≤ count is_running s.requests
    → t.manager.active ≤ count is_running t.requests
unfolding count
Step-active s _ (Step.arrive _ h) f = omega (arith, f)
Step-active _ _ (Step.move m m' h p p' before later mv) f =
    let r : Request = record { is_heavy = h; phase = p } in
    let r' : Request = record { is_heavy = h; phase = p' } in
    let at : m.active ≤ one_if (is_running h p) + count is_running (before ++ later) =
      omega (arith, f, count-at is_running before r later) in
    omega (
      arith,
      Move-active h m m' p p' (count is_running (before ++ later)) mv at,
      count-at is_running before r' later,
    )

-- From a new manager on, the number of active requests is never above the number in the body.
pub Reach-active :
    (a b : ℕ) (s : System)
    → Reach (record { manager = create a b; requests = [] }) s
    → s.manager.active ≤ count is_running s.requests
Reach-active a b _ Reach.here = omega arith
Reach-active a b s (Reach.next t _ run step) = Step-active t s step (Reach-active a b t run)
