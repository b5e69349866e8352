-- ===== src/Scheduler/Reaches.antt =====
-- How the scheduler (gitrank/services/scheduler-worker/internal/service) uses the job queue
-- (gitrank/packages/store/memory.go): by calls that add only jobs which the queue can keep.
use gitrank.Common.{◌≡◌, refl, Option, List, [], ◌∷◌, ◌++◌, All}
use gitrank.Common.Grown.{All-append}
use gitrank.Store.Jobs.{Bytes}
use gitrank.Store.Queue.State.{JobQueue}
use gitrank.Store.Queue.Steps.{Call, step, run}
use gitrank.Store.Queue.Dedupe.{Dedupes}
use gitrank.Store.Queue.Lifecycle.{HasBudget}
use gitrank.Store.Queue.Evolution.{Admits}

-- No `Enqueue` that checks no key, and of the added jobs each has an attempt left.
abbrev pub IsCareful : Call → Type 0
IsCareful c = Dedupes c × Admits HasBudget c

module _ (marshal : Bytes → Option Bytes) where
  -- A queue becomes another by careful calls.
  pub record Reaches (q next : JobQueue) : Type 0 where
    pub calls : List Call
    pub careful : All IsCareful calls
    pub same : next ≡ run marshal q calls

  pub Reaches-refl : (q : JobQueue) → Reaches q q
  unfolding run
  Reaches-refl q = record { calls = []; careful = tt; same = refl }

  pub Reaches-step : (q : JobQueue) (c : Call) → IsCareful c → Reaches q (step marshal q c)
  unfolding run
  Reaches-step q c careful = record { calls = c ∷ []; careful = (careful, tt); same = refl }

  run-append :
      (q : JobQueue) (cs ds : List Call)
      → run marshal q (cs ++ ds) ≡ run marshal (run marshal q cs) ds
  unfolding run
  run-append q [] ds = refl
  run-append q (c ∷ cs) ds = run-append (step marshal q c) cs ds

  pub Reaches-trans : (a b c : JobQueue) → Reaches a b → Reaches b c → Reaches a c
  Reaches-trans a b c r s = record {
    calls = r.calls ++ s.calls;
    careful = All-append IsCareful r.calls s.calls r.careful s.careful;
    same = rw (s.same, r.same, run-append a r.calls s.calls) refl;
  }
