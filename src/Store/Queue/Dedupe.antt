-- ===== src/Store/Queue/Dedupe.antt =====
-- The promise of `EnqueueUnique` and `ReplayDeadLetter` (gitrank/packages/store/memory.go): of the
-- jobs with one deduplication key at most one is active.
use text.Mathlib.Text.{◌==◌ as str_eq}
use gitrank.Common.{
  ℕ, ◌≡◌, refl, inl, inr, Bool, false, ◌&&◌, not, String, Option, none, List, [], ◌∷◌, ◌++◌, All,
  Option-cases, arith, eq_iff,
}
use gitrank.Common.Grown.{All-append, Grown-All}
use gitrank.Common.Clock.{Time}
use gitrank.Store.Jobs.{
  Bytes, QueueJob, DeadLetterRecord, Result, ok, err, is_active, new_queue_job,
}
use gitrank.Store.Queue.State.{JobQueue, find_record}
use gitrank.Store.Queue.Admission.{
  enqueue_unique, find_duplicate, replay_dead_letter, replay_at, admit_replay, correlated,
  replay_input, mark_replayed,
}
use gitrank.Store.Queue.Steps.{Call, enqueues, enqueues_unique, replays, step, run}
use gitrank.Store.Queue.Lifecycle.{Moves, is_failed}
use gitrank.Store.Queue.History.{Follows}
use gitrank.Store.Queue.Evolution.{Admits, step-Follows_kept, step-Follows}

-- Both jobs are active, under one key that is not "".
abbrev pub clashes : QueueJob → QueueJob → Bool
clashes a b =
    not (str_eq a.dedupe_key "")
    && (str_eq b.dedupe_key a.dedupe_key && (is_active a.status && is_active b.status))

abbrev pub NoClash : QueueJob → List QueueJob → Type 0
NoClash a jobs = All (λ b. clashes a b ≡ false) jobs

abbrev pub KeysUnique : List QueueJob → Type 0
KeysUnique [] = Unit
KeysUnique (job ∷ jobs) = NoClash job jobs × KeysUnique jobs

-- No job has the status `JobFailed`.
abbrev pub NotFailed : QueueJob → Type 0
NotFailed job = is_failed job.status ≡ false

clashes-Moves :
    (a b a' b' : QueueJob)
    → Moves a a'
    → Moves b b'
    → NotFailed a
    → NotFailed b
    → clashes a b ≡ false
    → clashes a' b' ≡ false
clashes-Moves a b a' b' m n f g h = ground arith

abbrev NothingNew : QueueJob → Type 0
NothingNew job = ⊥

NoClash-Follows :
    (a a' : QueueJob) (xs ys : List QueueJob)
    → Moves a a'
    → NotFailed a
    → Follows NothingNew xs ys
    → All NotFailed xs
    → NoClash a xs
    → NoClash a' ys
NoClash-Follows a a' [] [] m f g fs h = tt
NoClash-Follows a a' [] (y ∷ ys) m f g fs h = absurd g.0
NoClash-Follows a a' (x ∷ xs) [] m f g fs h = elim g [ ]
NoClash-Follows a a' (x ∷ xs) (y ∷ ys) m f g fs h =
    (clashes-Moves a x a' y m g.0 f fs.0 h.0, NoClash-Follows a a' xs ys m f g.1 fs.1 h.1)

KeysUnique-Follows :
    (xs ys : List QueueJob)
    → Follows NothingNew xs ys
    → All NotFailed xs
    → KeysUnique xs
    → KeysUnique ys
KeysUnique-Follows [] [] g fs u = tt
KeysUnique-Follows [] (y ∷ ys) g fs u = absurd g.0
KeysUnique-Follows (x ∷ xs) [] g fs u = elim g [ ]
KeysUnique-Follows (x ∷ xs) (y ∷ ys) g fs u =
    (NoClash-Follows x y xs ys g.0 fs.0 g.1 fs.1 u.0, KeysUnique-Follows xs ys g.1 fs.1 u.1)

-- What `find_duplicate` misses does not clash.
KeysUnique-added :
    (job : QueueJob) (jobs : List QueueJob)
    → find_duplicate job jobs ≡ none
    → KeysUnique jobs
    → KeysUnique (jobs ++ job ∷ [])
unfolding find_duplicate
KeysUnique-added job [] e u = (tt, tt)
KeysUnique-added job (x ∷ jobs) e u = (
  All-append (λ b. clashes x b ≡ false) jobs (job ∷ []) u.0
      (ground (arith, eq_iff x.dedupe_key job.dedupe_key, eq_iff job.dedupe_key x.dedupe_key), tt),
  KeysUnique-added job jobs (ground arith) u.1,
)

admit_replay-KeysUnique :
    (job : QueueJob) (q : JobQueue) → KeysUnique q.jobs → KeysUnique (admit_replay job q).0.jobs
unfolding admit_replay
admit_replay-KeysUnique job q u = ground (arith, KeysUnique-added job q.jobs)

enqueue_unique-KeysUnique :
    (job : QueueJob) (q : JobQueue) → KeysUnique q.jobs → KeysUnique (enqueue_unique job q).0.jobs
unfolding enqueue_unique
enqueue_unique-KeysUnique job q u = ground (arith, KeysUnique-added job q.jobs)

-- `Enqueue`, which checks no key, is left out; a job is not handed in with the status `JobFailed`.
abbrev pub Dedupes : Call → Type 0
Dedupes (enqueues job) = ⊥
Dedupes (enqueues_unique job) = NotFailed job
Dedupes _ = Unit

Dedupes-Admits : (c : Call) → Dedupes c → Admits NotFailed c
Dedupes-Admits (enqueues job) d = elim d [ ]
Dedupes-Admits (enqueues_unique job) d = d
Dedupes-Admits c d = tt

module _ (marshal : Bytes → Option Bytes) where
  replay_at-KeysUnique :
      (index : ℕ) (letter : DeadLetterRecord) (correlation : String) (now clock : Time)
      (new_id : String) (q : JobQueue)
      → KeysUnique q.jobs
      → KeysUnique (replay_at marshal index letter correlation now clock new_id q).0.jobs
  unfolding replay_at
  replay_at-KeysUnique index letter correlation now clock new_id q u =
      made (new_queue_job marshal (replay_input letter correlation) clock new_id) refl
    where
      made :
          (r : Result QueueJob)
          → new_queue_job marshal (replay_input letter correlation) clock new_id ≡ r
          → KeysUnique (replay_at marshal index letter correlation now clock new_id q).0.jobs
      made (ok job) e =
          rw (e, replay_at)
            (admit_replay-KeysUnique (correlated job letter) (mark_replayed q index letter now) u)
      made (err x) e = rw (e, replay_at) u

  replay-KeysUnique :
      (record_id correlation : String) (now clock : Time) (new_id : String) (q : JobQueue)
      → KeysUnique q.jobs
      → KeysUnique (replay_dead_letter marshal record_id correlation now clock new_id q).0.jobs
  unfolding replay_dead_letter
  replay-KeysUnique record_id correlation now clock new_id q u =
      elim (Option-cases (find_record record_id q.dead_letters)) [
        | inl gone ↦ rw (gone, replay_dead_letter) u
        | inr ((index, letter), found) ↦
            rw (found, replay_dead_letter)
              (replay_at-KeysUnique index letter correlation now clock new_id q u)
      ]

  step-NotFailed :
      (q : JobQueue) (c : Call)
      → Dedupes c
      → All NotFailed q.jobs
      → All NotFailed (step marshal q c).jobs
  step-NotFailed q c d =
      Grown-All Moves NotFailed NotFailed (λ x y m. m.not_failed) (λ y n. n) q.jobs _
        (step-Follows NotFailed (λ x y m. m.not_failed) (λ job new. ground arith) marshal q c
          (Dedupes-Admits c d))

  step-KeysUnique :
      (q : JobQueue) (c : Call)
      → Dedupes c
      → All NotFailed q.jobs
      → KeysUnique q.jobs
      → KeysUnique (step marshal q c).jobs
  unfolding step
  step-KeysUnique q (enqueues job) d f u = elim d [ ]
  step-KeysUnique q (enqueues_unique job) d f u = enqueue_unique-KeysUnique job q u
  step-KeysUnique q (replays record_id correlation now clock new_id) d f u =
      replay-KeysUnique record_id correlation now clock new_id q u
  step-KeysUnique q c d f u =
      KeysUnique-Follows q.jobs _ (step-Follows_kept NothingNew (λ x y m n. n) marshal q c refl) f u

  -- Over any history of calls that add jobs only by `EnqueueUnique` and `ReplayDeadLetter`, a queue
  -- in which no two active jobs share a key that is not "" stays such a queue, provided that no job
  -- has the status `JobFailed`, in the queue or as it is handed in.
  pub run-KeysUnique :
      (q : JobQueue) (cs : List Call)
      → All Dedupes cs
      → All NotFailed q.jobs
      → KeysUnique q.jobs
      → KeysUnique (run marshal q cs).jobs
  unfolding run
  run-KeysUnique q [] ds f u = u
  run-KeysUnique q (c ∷ cs) ds f u =
      run-KeysUnique (step marshal q c) cs ds.1 (step-NotFailed q c ds.0 f)
        (step-KeysUnique q c ds.0 f u)
