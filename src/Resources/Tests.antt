-- ===== src/Resources/Tests.antt =====
-- resource_manager.py: one request in the body and a heavy one that waits.
use langchain_langraph_app_l.Prelude.{◌+◌, ◌≤◌, ◌≡◌, refl, [], ◌∷◌, true, false, arith}
use langchain_langraph_app_l.Resources.{
  Manager, create, enqueue, begin, leave, Phase, waiting_all, waiting_heavy, ready, running, gone,
  Request, Move, System, Step, Reach,
}
use langchain_langraph_app_l.Resources.Permits.{
  count, is_running, is_heavy_running, IsFair, Reach-IsBounded,
}
use langchain_langraph_app_l.Resources.Counting.{cancelled_waiter-undercounts, Reach-active}

abbrev at : Phase → Request
at p = record { is_heavy = true; phase = p }

abbrev m0 : Manager
m0 = create 2 1

abbrev m1 : Manager
m1 = enqueue m0

abbrev m2 : Manager
m2 = record m1 { all = 1 }

abbrev m3 : Manager
m3 = record m2 { heavy = 0 }

abbrev m4 : Manager
m4 = begin true m3

abbrev first : System
first = record { manager = m4; requests = at running ∷ [] }

abbrev second : System
second = record {
  manager = record (enqueue m4) { all = 0 };
  requests = at waiting_heavy ∷ at running ∷ [];
}

first_runs : Reach (record { manager = m0; requests = [] }) first
first_runs =
    Reach.next _ _
      (Reach.next _ _
        (Reach.next _ _
          (Reach.next _ _ Reach.here (Step.arrive (record { manager = m0; requests = [] }) true))
          (Step.move m1 m2 true waiting_all waiting_heavy [] [] (Move.take_all m1 1 refl)))
        (Step.move m2 m3 true waiting_heavy ready [] [] (Move.take_heavy m2 0 refl refl)))
      (Step.move m3 m4 true ready running [] [] (Move.enter m3))

Reach-IsBounded_example :
    (count is_running first.requests ≤ 2)
    × (count is_heavy_running first.requests ≤ 1)
    × IsFair 2 1 first
Reach-IsBounded_example = Reach-IsBounded 2 1 first first_runs

Reach-active_example : first.manager.active ≤ count is_running first.requests
Reach-active_example = Reach-active 2 1 first first_runs

cancelled_waiter-undercounts_example :
    Step second (record {
      manager = leave true false true second.manager;
      requests = at gone ∷ at running ∷ [];
    })
    × ((leave true false true second.manager).active + 1
        ≡ count is_running (at gone ∷ at running ∷ []))
cancelled_waiter-undercounts_example =
    cancelled_waiter-undercounts second.manager [] (at running ∷ []) (unfold count in refl)
      (omega arith)
