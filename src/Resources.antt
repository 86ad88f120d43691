-- ===== src/Resources.antt =====
-- app/llm/resource_manager.py: OllamaResourceManager, and the requests that pass through `acquire` at
-- the same time. A semaphore is the number of its free slots; which waiter gets a slot is left open.
-- `heavy` is a capability of the model. Metrics are left out.
pub mod Permits
pub mod Counting
mod Tests
use langchain_langraph_app_l.Prelude.{
  ℕ, zero, suc, ◌+◌, ◌-◌, ◌≡◌, List, [], ◌∷◌, ◌++◌, Bool, true, false, ltb, max, if◌then◌else◌,
}

-- `_active_heavy` has no guard and can fall below 0.
pub data ℤ : Type 0 where
  pos : ℕ → ℤ
  negsuc : ℕ → ℤ

abbrev pub incr : ℤ → ℤ
incr (pos n) = pos (suc n)
incr (negsuc zero) = pos 0
incr (negsuc (suc n)) = negsuc n

abbrev pub decr : ℤ → ℤ
decr (pos zero) = negsuc 0
decr (pos (suc n)) = pos n
decr (negsuc n) = negsuc (suc n)

pub record Manager : Type 0 where
  pub max_concurrency : ℕ
  pub max_heavy_concurrency : ℕ
  pub all : ℕ
  pub heavy : ℕ
  pub active : ℕ
  pub active_heavy : ℤ
  pub queued : ℕ

-- `__init__`
abbrev pub create : ℕ → ℕ → Manager
create max_concurrency max_heavy_concurrency = record {
  max_concurrency = max 1 max_concurrency;
  max_heavy_concurrency = max 1 max_heavy_concurrency;
  all = max 1 max_concurrency;
  heavy = max 1 max_heavy_concurrency;
  active = 0;
  active_heavy = pos 0;
  queued = 0;
}

-- `acquire`, in its parts: up to the first semaphore, and behind the last.
abbrev pub enqueue : Manager → Manager
enqueue m = record m { queued = m.queued + 1 }

abbrev pub begin : Bool → Manager → Manager
begin is_heavy m = record m {
  queued = m.queued - 1;
  active = m.active + 1;
  active_heavy = if is_heavy then incr m.active_heavy else m.active_heavy;
}

-- The except clause, which takes a request that still waits off the queue.
abbrev pub dequeue : Bool → Manager → Manager
dequeue counted_as_queued m = if counted_as_queued then record m { queued = m.queued - 1 } else m

-- The finally clause.
abbrev pub give_back_heavy : Bool → Manager → Manager
give_back_heavy acquired_heavy m =
    if acquired_heavy
    then record m { active_heavy = decr m.active_heavy; heavy = m.heavy + 1 }
    else m

abbrev pub give_back_all : Bool → Manager → Manager
give_back_all acquired_all m =
    if acquired_all
    then record m { active = if ltb 0 m.active then m.active - 1 else m.active; all = m.all + 1 }
    else m

-- The way out, whether the body returned or an exception passed.
unfoldable pub leave : Bool → Bool → Bool → Manager → Manager
leave counted_as_queued acquired_heavy acquired_all m =
    give_back_all acquired_all (give_back_heavy acquired_heavy (dequeue counted_as_queued m))

-- Where a request stands: before a semaphore, before the lock behind them, in the body, or out.
pub data Phase : Type 0 where
  waiting_all waiting_heavy ready running gone : Phase

pub record Request : Type 0 where
  pub is_heavy : Bool
  pub phase : Phase

-- One move of one request. A cancellation, or an exception of the body, is a move to `gone`.
pub data Move (h : Bool) : Manager → Phase → Manager → Phase → Type 0 where
  take_all :
      (m : Manager) (n : ℕ)
      → m.all ≡ suc n
      → Move h m waiting_all (record m { all = n }) (if h then waiting_heavy else ready)
  take_heavy :
      (m : Manager) (n : ℕ)
      → m.heavy ≡ suc n
      → h ≡ true
      → Move h m waiting_heavy (record m { heavy = n }) ready
  enter : (m : Manager) → Move h m ready (begin h m) running
  cancel_all : (m : Manager) → Move h m waiting_all (leave true false false m) gone
  cancel_heavy : (m : Manager) → Move h m waiting_heavy (leave true false true m) gone
  cancel_ready : (m : Manager) → Move h m ready (leave true h true m) gone
  finish : (m : Manager) → Move h m running (leave false h true m) gone

-- The manager and all requests, which arrive one by one.
pub record System : Type 0 where
  pub manager : Manager
  pub requests : List Request

pub data Step : System → System → Type 0 where
  arrive :
      (s : System) (h : Bool)
      → Step s (record {
        manager = enqueue s.manager;
        requests = record { is_heavy = h; phase = waiting_all } ∷ s.requests;
      })
  move :
      (m m' : Manager) (h : Bool) (p p' : Phase) (before later : List Request)
      → Move h m p m' p'
      → Step
          (record {
            manager = m;
            requests = before ++ (record { is_heavy = h; phase = p } ∷ later);
          })
          (record {
            manager = m';
            requests = before ++ (record { is_heavy = h; phase = p' } ∷ later);
          })

-- A run of the system.
pub data Reach (s : System) : System → Type 0 where
  here : Reach s s
  next : (t u : System) → Reach s t → Step t u → Reach s u
