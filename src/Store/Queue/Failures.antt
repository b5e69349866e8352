-- ===== src/Store/Queue/Failures.antt =====
-- `Fail` and `FailNonRetryable` (gitrank/packages/store/memory.go): the backoff, the last attempt,
-- and the count of dead letters.
use gitrank.Common.{
  ℕ, zero, suc, ◌+◌, ◌*◌, ◌^◌, ◌%◌, ◌<◌, ◌≤◌, ◌-◌, ◌≡◌, refl, ◌∙◌, true, false, String, Option,
  none, some, List, [], ◌∷◌, ap, length, ◌++◌, set, arith,
}
use native.Mathlib.Nat.{pow-suc}
use gitrank.Common.Int.{pos, ◌<ℤ◌, ◌*ℤ◌, int64_nonneg, int64_multiple, *ℤ-zero, leb_ℤ, nonpos}
use gitrank.Common.Clock.{Time, Duration, add}
use gitrank.Store.Jobs.{QueueJob, DeadLetterRecord, Result, pending, dead_letter, ok, is_terminal}
use gitrank.Store.Queue.State.{JobQueue, find_job}
use gitrank.Store.Queue.Lookups.{find_job-set}
use gitrank.Store.Queue.Transitions.{message, retry_delay, attempted, fail, dead_letter_for}

-- A job becomes a dead letter, with all of `limit` attempts made: the queue afterwards, in which the
-- job is terminal, its record stands behind the others and one failure more is counted, and the
-- answer, which is the job and the record.
unfoldable pub dead_lettered :
    QueueJob
    → ℕ
    → Time
    → ℕ
    → Option String
    → Time
    → String
    → JobQueue
    → JobQueue × Result (QueueJob × Option DeadLetterRecord)
dead_lettered job limit due index error now new_id q =
    let text : String = elim error [ none ↦ "" | some text ↦ text ] in
    let buried = record job {
      status = dead_letter;
      attempt_count = limit;
      not_before = due;
      lease_expires_at = 0;
      last_error = text;
    } in
    let letter : DeadLetterRecord = record {
      id = new_id;
      job_id = job.id;
      queue_name = job.queue_name;
      job_type = job.type;
      delivery_id = job.delivery_id;
      correlation_id = job.correlation_id;
      installation_id = job.installation_id;
      repository = job.repository;
      subject = job.subject;
      dedupe_key = job.dedupe_key;
      attempts = limit;
      max_attempts = job.max_attempts;
      error_message = text;
      payload = job.payload;
      created_at = now;
      replayed_at = none;
    } in
    (
      record q {
        jobs = set q.jobs index buried;
        dead_letters = q.dead_letters ++ letter ∷ [];
        failure_count = suc q.failure_count;
      },
      ok (buried, some letter),
    )

message-eq : (error : Option String) → message error ≡ elim error [ none ↦ "" | some text ↦ text ]
message-eq none = refl
message-eq (some text) = refl

-- The queue after a failure with an attempt left.
abbrev retried_as : QueueJob → Duration → ℕ → Option String → Time → JobQueue → JobQueue
retried_as job base index error now q =
    let again = record (attempted job error) {
      status = pending;
      not_before = add now (retry_delay base (suc job.attempt_count));
    } in
    record q { jobs = set q.jobs index again; retry_count = suc q.retry_count }

one-le-pow : (n : ℕ) → 1 ≤ 2 ^ n
one-le-pow zero = omega arith
one-le-pow (suc n) = omega (arith, one-le-pow n, pow-suc 2 n)

retry_delay-eq :
    (b n : ℕ) → 0 < b → b * 2 ^ n < 2 ^ 63 → retry_delay (pos b) (suc n) ≡ pos (b * 2 ^ n)
unfolding retry_delay
retry_delay-eq b n h k =
    let e : suc n - 1 ≡ n = omega arith in
    let small : 2 ^ n < 2 ^ 63 = grind (arith, one-le-pow n) in
    let product : pos b *ℤ pos (2 ^ n) ≡ pos (b * 2 ^ n) = ground arith in
    let s : nonpos (pos b) ≡ false = ground arith in
    rw (e, s, int64_nonneg (2 ^ n) small, product) (int64_nonneg (b * 2 ^ n) k)

pow_past : (k : ℕ) → 2 ^ (k + 64) % 2 ^ 64 ≡ 0
pow_past zero = refl
pow_past (suc k) =
    let e : suc k + 64 ≡ suc (k + 64) = omega arith in
    rw e (rw (pow-suc 2 (k + 64)) (omega (arith, pow_past k)))

-- From its 65th failure on a job is due again at once, whatever the base: the shift leaves nothing.
pub retry_delay-overflow : (base : Duration) (k : ℕ) → retry_delay base (suc (k + 64)) ≡ pos 0
unfolding retry_delay
retry_delay-overflow base k =
    let e : suc (k + 64) - 1 ≡ k + 64 = omega arith in
    rw (e, int64_multiple (2 ^ (k + 64)) (pow_past k), *ℤ-zero) (int64_nonneg 0 (omega arith))

module _ (id : String) (index : ℕ) (job : QueueJob) (error : Option String) (now : Time)
    (new_id : String) (q : JobQueue) (found : find_job id q.jobs ≡ some (index, job))
    (going : is_terminal job.status ≡ false) where
  -- A job that fails with an attempt left is pending again, with one attempt more, the error and no
  -- lease, and due after the base delay, doubled for each failure before this one and without
  -- jitter; it alone changes in the queue, beside the retry count. The delay must fit an `int64`.
  pub fail_backoff :
      (b : ℕ)
      → pos (suc job.attempt_count) <ℤ job.max_attempts
      → 0 < b
      → b * 2 ^ job.attempt_count < 2 ^ 63
      → let again = record (attempted job error) {
        status = pending;
        not_before = now + b * 2 ^ job.attempt_count;
      } in
        fail id error now (pos b) new_id q ≡ (
          record q { jobs = set q.jobs index again; retry_count = suc q.retry_count },
          ok (again, none),
        )
  unfolding fail
  fail_backoff b more h k =
      let delay = retry_delay-eq b job.attempt_count h k in
      let test : leb_ℤ job.max_attempts (pos (suc job.attempt_count)) ≡ false = ground arith in
      let due : add now (pos (b * 2 ^ job.attempt_count)) ≡ now + b * 2 ^ job.attempt_count =
        ground arith in
      rw (found, fail) (rw (going, test, delay, due) refl)

  -- A failure that uses up the attempts makes the job a dead letter.
  fail_at_limit :
      (base : Duration) (limit : ℕ)
      → job.max_attempts ≡ pos limit
      → limit ≡ suc job.attempt_count
      → fail id error now base new_id q
        ≡ dead_lettered job limit job.not_before index error now new_id q
  unfolding fail dead_lettered dead_letter_for
  fail_at_limit base limit h k =
      let test : leb_ℤ job.max_attempts (pos (suc job.attempt_count)) ≡ true = ground arith in
      rw (found, fail) (rw (going, test, k, message-eq error) refl)

  -- A failure before the last leaves the job where it is, not terminal, with one attempt more.
  fail_before :
      (base : Duration) (limit : ℕ)
      → job.max_attempts ≡ pos limit
      → suc job.attempt_count < limit
      → (fail id error now base new_id q).0 ≡ retried_as job base index error now q
  unfolding fail
  fail_before base limit h k =
      let test : leb_ℤ job.max_attempts (pos (suc job.attempt_count)) ≡ false = ground arith in
      rw (found, fail) (rw (going, test) refl)

set-set : (jobs : List QueueJob) (i : ℕ) (x y : QueueJob) → set (set jobs i x) i y ≡ set jobs i y
set-set [] i x y = refl
set-set (j ∷ jobs) zero x y = refl
set-set (j ∷ jobs) (suc i) x y = ap (λ js. j ∷ js) (set-set jobs i x y)

-- What a call of `Fail` is given, beside the job's id.
pub record Failing : Type 0 where
  pub error : Option String
  pub now : Time
  pub base : Duration
  pub new_id : String

-- One job fails again and again.
unfoldable pub fails_in_row : String → List Failing → JobQueue → JobQueue
unfolding fail
fails_in_row id [] q = q
fails_in_row id (f ∷ fs) q = fails_in_row id fs (fail id f.error f.now f.base f.new_id q).0

-- To become a dead letter after a retry is to become one, with one retry more counted.
dead_lettered-retried :
    (job : QueueJob) (base : Duration) (tried : Option String) (earlier : Time) (limit : ℕ)
    (due : Time) (index n : ℕ) (error : Option String) (now : Time) (new_id : String) (q : JobQueue)
    → let again = record (attempted job tried) {
      status = pending;
      not_before = add earlier (retry_delay base (suc job.attempt_count));
    } in
      let q' = retried_as job base index tried earlier q in
      dead_lettered again limit due index error now new_id
        (record q' { retry_count = q'.retry_count + n })
      ≡ dead_lettered job limit due index error now new_id
          (record q { retry_count = q.retry_count + suc n })
unfolding dead_lettered
dead_lettered-retried job base tried earlier limit due index n error now new_id q =
    let more : suc q.retry_count + n ≡ q.retry_count + suc n = omega arith in
    rw (set-set q.jobs index, more) refl

-- A job that is given a number of failures that uses up its attempts, by one call of `Fail` after the
-- other, whatever the errors, the times and the base delays, leaves exactly one dead letter, behind
-- those that were there: with all its attempts, the error of the last call and the fields of the job.
-- The last call answers with the job and the letter; the job is terminal, all other jobs are as they
-- were, one failure more is counted, and each earlier call is counted as a retry.
pub fail_last :
    (id : String) (index : ℕ) (job : QueueJob) (earlier : List Failing) (error : Option String)
    (now : Time) (base : Duration) (new_id : String) (limit : ℕ) (q : JobQueue)
    → find_job id q.jobs ≡ some (index, job)
    → is_terminal job.status ≡ false
    → job.max_attempts ≡ pos limit
    → limit ≡ suc (job.attempt_count + length earlier)
    → (due : Time) × (fail id error now base new_id (fails_in_row id earlier q)
        ≡ dead_lettered job limit due index error now new_id
            (record q { retry_count = q.retry_count + length earlier }))
unfolding fails_in_row
fail_last id index job [] error now base new_id limit q found going h k =
    let none_more : q.retry_count + 0 ≡ q.retry_count = omega arith in
    (
      job.not_before,
      rw none_more (
          fail_at_limit id index job error now new_id q found going base limit h
            (omega (arith, k))),
    )
fail_last id index job (f ∷ fs) error now base new_id limit q found going h k =
    let again = record (attempted job f.error) {
      status = pending;
      not_before = add f.now (retry_delay f.base (suc job.attempt_count));
    } in
    let q' = retried_as job f.base index f.error f.now q in
    let first =
      fail_before id index job f.error f.now f.new_id q found going f.base limit h
        (omega (arith, k)) in
    let (due, last) =
      fail_last id index again fs error now base new_id limit q'
        (find_job-set id q.jobs index job again found refl) refl h (omega (arith, k)) in
    (
      due,
      rw first (
          last
          ∙ dead_lettered-retried job f.base f.error f.now limit due index (length fs) error now
              new_id q),
    )
