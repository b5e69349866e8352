-- ===== src/Store/Deliveries.antt =====
-- gitrank/packages/store/deliveries.go and the `InMemoryDeliveryStore` of memory.go beside it: the
-- webhook deliveries that were seen. The map is an association list; `time.Now()`, `json.Valid` and
-- the digest of the payload are arguments.
pub mod Remembered
mod Examples
use text.Mathlib.Text.{◌==◌ as str_eq}
use gitrank.Common.{
  ℕ, Bool, true, false, not, String, Option, none, some, List, [], ◌∷◌, length, count_by, keep, map,
  ◌==◌, if◌then◌else◌, trim_space,
}
use gitrank.Common.Int.{ℤ, pos, nonpos, ltb_ℤ, pos_part}
use gitrank.Common.Clock.{Time, Duration, sub, is_zero}
use gitrank.Store.Jobs.{Bytes, or_time}

-- `WebhookDeliveryStatus`
pub data DeliveryStatus : Type 0 where
  received duplicate enqueued processed failed : DeliveryStatus

pub record WebhookDelivery : Type 0 where
  pub delivery_id : String
  pub event_type : String
  pub action : String
  pub repository : String
  pub installation_id : ℤ
  pub signature : String
  pub payload_sha256 : String
  pub payload : Bytes
  pub status : DeliveryStatus
  pub received_at : Time
  pub last_error : String

pub record WebhookDeliveryInput : Type 0 where
  pub delivery_id : String
  pub event_type : String
  pub action : String
  pub repository : String
  pub installation_id : ℤ
  pub signature : String
  pub payload : Bytes
  pub received_at : Time

pub data DeliveryError : Type 0 where
  delivery_id_required event_type_required payload_not_json : DeliveryError

pub data Made : Type 0 where
  made : WebhookDelivery → Made
  rejected : DeliveryError → Made

-- `NewWebhookDelivery`
unfoldable pub new_webhook_delivery :
    (Bytes → Bool) → (Bytes → String) → Time → WebhookDeliveryInput → Made
new_webhook_delivery json_valid sha256_hex now input =
    if str_eq (trim_space input.delivery_id) ""
    then rejected delivery_id_required
    else if str_eq (trim_space input.event_type) ""
    then rejected event_type_required
    else if not (json_valid input.payload)
    then rejected payload_not_json
    else made (record {
      delivery_id = trim_space input.delivery_id;
      event_type = trim_space input.event_type;
      action = trim_space input.action;
      repository = trim_space input.repository;
      installation_id = input.installation_id;
      signature = trim_space input.signature;
      payload_sha256 = sha256_hex input.payload;
      payload = input.payload;
      status = received;
      received_at = or_time input.received_at now;
      last_error = "";
    })

-- Each id has one entry.
pub record DeliveryStore : Type 0 where
  pub ttl : ℕ
  pub entries : List (String × WebhookDelivery)

-- `NewInMemoryDeliveryStore`; a lifetime that is not positive becomes seven days.
unfoldable pub new_delivery_store : Duration → DeliveryStore
new_delivery_store ttl = record {
  ttl = if nonpos ttl then 604_800_000_000_000 else pos_part ttl;
  entries = [];
}

unfoldable pub lookup_entry : String → List (String × WebhookDelivery) → Option WebhookDelivery
lookup_entry id [] = none
lookup_entry id ((key, d) ∷ entries) =
    let later = lookup_entry id entries in if str_eq key id then some d else later

-- entries[id] = d
unfoldable pub put_entry :
    String → WebhookDelivery → List (String × WebhookDelivery) → List (String × WebhookDelivery)
put_entry id d [] = (id, d) ∷ []
put_entry id d ((key, e) ∷ entries) =
    let later = put_entry id d entries in
    if str_eq key id then (key, d) ∷ entries else (key, e) ∷ later

-- `pruneLocked`
abbrev pub is_kept : ℕ → Time → String × WebhookDelivery → Bool
is_kept ttl now entry = not (ltb_ℤ (pos ttl) (sub now entry.1.received_at))

unfoldable pub prune : Time → DeliveryStore → DeliveryStore
prune now s = record s { entries = keep (is_kept s.ttl now) s.entries }

-- `Remember`; the Boolean says that the delivery was known.
unfoldable pub remember : Time → WebhookDelivery → DeliveryStore → DeliveryStore × Bool
unfolding prune lookup_entry put_entry
remember now d s =
    let s' = prune now s in
    elim (lookup_entry d.delivery_id s'.entries) [
      | some existing ↦ (
        record s' {
          entries = put_entry d.delivery_id (record existing { status = duplicate }) s'.entries;
        },
        true,
      )
      | none ↦ (record s' { entries = put_entry d.delivery_id d s'.entries }, false)
    ]

-- `err.Error()`, or "" for nil.
abbrev error_text : Option String → String
error_text none = ""
error_text (some text) = text

-- `MarkStatus`; the Boolean is false for "delivery not found".
unfoldable pub mark_status :
    String → DeliveryStatus → Option String → DeliveryStore → DeliveryStore × Bool
unfolding lookup_entry put_entry
mark_status id status error s = elim (lookup_entry id s.entries) [
  | none ↦ (s, false)
  | some d ↦ (
    record s {
      entries =
          put_entry id (record d { status = status; last_error = error_text error }) s.entries;
    },
    true,
  )
]

-- `Lookup`
unfoldable pub lookup : Time → String → DeliveryStore → DeliveryStore × Option WebhookDelivery
unfolding prune lookup_entry
lookup now id s = let s' = prune now s in (s', lookup_entry id s'.entries)

abbrev status_code : DeliveryStatus → ℕ
status_code received = 0
status_code duplicate = 1
status_code enqueued = 2
status_code processed = 3
status_code failed = 4

pub record DeliverySnapshot : Type 0 where
  pub total : ℕ
  pub by_status : DeliveryStatus → ℕ
  pub deduplicated : ℕ
  pub replay_recorded : ℕ

-- `Snapshot`, with its map of counts as a function of the status.
unfoldable pub snapshot : Time → DeliveryStore → DeliveryStore × DeliverySnapshot
unfolding prune
snapshot now s =
    let s' = prune now s in
    (
      s',
      record {
        total = length s'.entries;
        by_status =
            λ status. count_by (λ e. status_code e.1.status == status_code status) s'.entries;
        deduplicated = count_by (λ e. status_code e.1.status == status_code duplicate) s'.entries;
        replay_recorded = count_by (λ e. not (str_eq e.1.signature "")) s'.entries;
      },
    )
