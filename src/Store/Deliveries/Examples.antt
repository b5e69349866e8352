-- ===== src/Store/Deliveries/Examples.antt =====
-- Small runs of the webhook delivery store (gitrank/packages/store/memory.go).
use gitrank.Common.{[]}
use gitrank.Common.Int.{pos}
use gitrank.Store.Deliveries.{received, WebhookDelivery, DeliveryStore}

abbrev push : WebhookDelivery
push = record {
  delivery_id = "d1";
  event_type = "pull_request";
  action = "opened";
  repository = "octo/app";
  installation_id = pos 7;
  signature = "";
  payload_sha256 = "";
  payload = [];
  status = received;
  received_at = 100;
  last_error = "";
}

abbrev store : DeliveryStore
store = record { ttl = 50; entries = [] }
