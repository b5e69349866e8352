-- ===== src/Store/Queue/Guarantees.antt =====
-- What holds after any history of calls on an `InMemoryJobQueue`
-- (gitrank/packages/store/memory.go): its jobs, their attempts, and the dead letters.
use gitrank.Common.{ℕ, zero, suc, ◌≡◌, refl, Option, some, List, [], ◌∷◌, get_elem?, All, arith}
use gitrank.Common.Grown.{Grown-All}
use gitrank.Store.Jobs.{Bytes, QueueJob}
use gitrank.Store.Queue.State.{JobQueue}
use gitrank.Store.Queue.Steps.{Call, enqueues, enqueues_unique, run}
use gitrank.Store.Queue.Lifecycle.{Moves, HasBudget, IsWithinLimit}
use gitrank.Store.Queue.History.{Follows, IsNew}
use gitrank.Store.Queue.Evolution.{Admits, run-Follows}

abbrev Any : QueueJob → Type 0
Any job = Unit

Admits-Any : (cs : List Call) → All (Admits Any) cs
Admits-Any [] = tt
Admits-Any (c ∷ cs) = (one c, Admits-Any cs)
  where
    one : (c : Call) → Admits Any c
    one (enqueues job) = tt
    one (enqueues_unique job) = tt
    one c = tt

Follows-get :
    (xs ys : List QueueJob) (i : ℕ) (job : QueueJob)
    → Follows Any xs ys
    → get_elem? xs i ≡ some job
    → (next : QueueJob) × (get_elem? ys i ≡ some next) × Moves job next
Follows-get [] ys i job g h = cc
Follows-get (x ∷ xs) [] i job g h = elim g [ ]
Follows-get (x ∷ xs) (y ∷ ys) zero job g h = (y, refl, ground (arith, g.0))
Follows-get (x ∷ xs) (y ∷ ys) (suc i) job g h = Follows-get xs ys i job g.1 h

-- A job counts no more attempts than its limit, and has one left unless it is terminal.
abbrev pub IsTriable : QueueJob → Type 0
IsTriable job = HasBudget job × IsWithinLimit job

pub new-HasBudget : (job : QueueJob) → IsNew job → HasBudget job
new-HasBudget job new = ground arith

module _ (marshal : Bytes → Option Bytes) where
  -- No history of the calls of Steps, among which `RestoreState` is not, drops a job, moves it to
  -- another place or changes its id, type, key, payload or limit of attempts; its attempts are only
  -- counted up, and a job in a terminal state is the same record ever after.
  pub run-Moves :
      (q : JobQueue) (cs : List Call) (i : ℕ) (job : QueueJob)
      → get_elem? q.jobs i ≡ some job
      → (next : QueueJob) × (get_elem? (run marshal q cs).jobs i ≡ some next) × Moves job next
  run-Moves q cs i job h =
      Follows-get q.jobs (run marshal q cs).jobs i job
        (run-Follows Any (λ j n m u. u) (λ j n. tt) marshal q cs (Admits-Any cs)) h

  pub run-HasBudget :
      (q : JobQueue) (cs : List Call)
      → All (Admits HasBudget) cs
      → All HasBudget q.jobs
      → All HasBudget (run marshal q cs).jobs
  run-HasBudget q cs ns h =
      Grown-All Moves HasBudget HasBudget (λ x y m. m.budgeted) (λ y n. n) q.jobs _
        (run-Follows HasBudget (λ x y m. m.budgeted) new-HasBudget marshal q cs ns) h

  -- If no job that is enqueued, or that is in the queue at first, counts more attempts than its
  -- limit, and each has an attempt left unless it is terminal, then both hold of every job in the
  -- queue after any history of the calls of Steps. What is counted are failed attempts: a lease
  -- that expires counts as none.
  pub run-IsTriable :
      (q : JobQueue) (cs : List Call)
      → All (Admits IsTriable) cs
      → All IsTriable q.jobs
      → All IsTriable (run marshal q cs).jobs
  run-IsTriable q cs ns h =
      Grown-All Moves IsTriable IsTriable stays-IsTriable (λ y n. n) q.jobs _
        (run-Follows IsTriable stays-IsTriable new-IsTriable marshal q cs ns) h
    where
      stays-IsTriable : (job next : QueueJob) → Moves job next → IsTriable job → IsTriable next
      stays-IsTriable job next m (budget, within) = (m.budgeted budget, m.limited budget within)

      new-IsTriable : (job : QueueJob) → IsNew job → IsTriable job
      new-IsTriable job new = (ground arith, ground arith)
