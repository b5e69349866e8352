-- ===== src/Store/Jobs.antt =====
-- gitrank/packages/store/jobs.go: the jobs of the queue, their dead letters and `NewQueueJob`.
use text.Mathlib.Text.{◌==◌ as str_eq}
use gitrank.Common.{
  ℕ, Bool, true, false, ◌==◌, String, Option, none, some, List, if◌then◌else◌, trim_space,
}
use gitrank.Common.Int.{ℤ, nonpos}
use gitrank.Common.Clock.{Time, is_zero, zero_time}

-- A `json.RawMessage`.
abbrev pub Bytes : Type 0
Bytes = List ℕ

-- `SyncJobStatus`; a field of that type only ever holds one of its constants.
pub data JobStatus : Type 0 where
  pending leased running succeeded failed dead_letter paused canceled : JobStatus

-- `SyncJobType` stays a text, since `NewQueueJob` tests it for "".
pub record QueueJob : Type 0 where
  pub id : String
  pub queue_name : String
  pub type : String
  pub status : JobStatus
  pub correlation_id : String
  pub delivery_id : String
  pub installation_id : ℤ
  pub repository : String
  pub subject : String
  pub dedupe_key : String
  pub attempt_count : ℕ  -- starts at 0 and is only counted up
  pub max_attempts : ℤ
  pub scheduled_at : Time
  pub not_before : Time
  pub lease_expires_at : Time
  pub last_error : String
  pub payload : Bytes

pub record DeadLetterRecord : Type 0 where
  pub id : String
  pub job_id : String
  pub queue_name : String
  pub job_type : String
  pub delivery_id : String
  pub correlation_id : String
  pub installation_id : ℤ
  pub repository : String
  pub subject : String
  pub dedupe_key : String
  pub attempts : ℕ
  pub max_attempts : ℤ
  pub error_message : String
  pub payload : Bytes
  pub created_at : Time
  pub replayed_at : Option Time

-- `A` is the type of the value that `Payload any` holds.
pub record QueueJobInput (A : Type 0) : Type 0 where
  pub queue_name : String
  pub type : String
  pub correlation_id : String
  pub delivery_id : String
  pub installation_id : ℤ
  pub repository : String
  pub subject : String
  pub dedupe_key : String
  pub max_attempts : ℤ
  pub scheduled_at : Time
  pub not_before : Time
  pub payload : A

-- The errors that the package makes by `errors.New`.
pub data StoreError : Type 0 where
  queue_name_required type_required attempts_not_positive payload_not_encoded : StoreError
  job_id_required job_not_found job_not_ready concurrency_reached : StoreError
  already_terminal not_paused record_not_found delivery_not_found : StoreError

pub data Result {ℓ} (A : Type ℓ) : Type ℓ where
  ok : A → Result A
  err : StoreError → Result A

abbrev pub or_time : Time → Time → Time
or_time t fallback = if is_zero t then fallback else t

new_pending : {A : Type 0} → QueueJobInput A → Bytes → Time → String → QueueJob
new_pending input payload now new_id =
    let scheduled = or_time input.scheduled_at now in
    record {
      id = new_id;
      queue_name = input.queue_name;
      type = input.type;
      status = pending;
      correlation_id = trim_space input.correlation_id;
      delivery_id = trim_space input.delivery_id;
      installation_id = input.installation_id;
      repository = trim_space input.repository;
      subject = trim_space input.subject;
      dedupe_key = trim_space input.dedupe_key;
      attempt_count = 0;
      max_attempts = input.max_attempts;
      scheduled_at = scheduled;
      not_before = or_time input.not_before scheduled;
      lease_expires_at = zero_time;
      last_error = "";
      payload = payload;
    }

-- `NewQueueJob`, with `json.Marshal`, the clock's reading and the new random id handed in.
unfoldable pub new_queue_job :
    {A : Type 0} → (A → Option Bytes) → QueueJobInput A → Time → String → Result QueueJob
unfolding new_pending
new_queue_job marshal input now new_id =
    if str_eq (trim_space input.queue_name) ""
    then err queue_name_required
    else if str_eq input.type ""
    then err type_required
    else if nonpos input.max_attempts
    then err attempts_not_positive
    else elim (marshal input.payload) [
      | none ↦ err payload_not_encoded
      | some payload ↦ ok (new_pending input payload now new_id)
    ]

-- `isActiveJobStatus`
abbrev pub is_active : JobStatus → Bool
is_active pending = true
is_active leased = true
is_active running = true
is_active paused = true
is_active _ = false

-- `isTerminalJobStatus`
abbrev pub is_terminal : JobStatus → Bool
is_terminal succeeded = true
is_terminal dead_letter = true
is_terminal canceled = true
is_terminal _ = false

-- job.Status == JobLeased || job.Status == JobRunning
abbrev pub holds_lease : JobStatus → Bool
holds_lease leased = true
holds_lease running = true
holds_lease _ = false

abbrev pub is_pending : JobStatus → Bool
is_pending pending = true
is_pending _ = false

abbrev pub is_leased : JobStatus → Bool
is_leased leased = true
is_leased _ = false

abbrev pub is_paused : JobStatus → Bool
is_paused paused = true
is_paused _ = false

abbrev pub status_code : JobStatus → ℕ
status_code pending = 0
status_code leased = 1
status_code running = 2
status_code succeeded = 3
status_code failed = 4
status_code dead_letter = 5
status_code paused = 6
status_code canceled = 7

abbrev pub status_eq : JobStatus → JobStatus → Bool
status_eq a b = status_code a == status_code b
