-- ===== src/Store/Deliveries/Remembered.antt =====
-- Duplicate detection by the webhook delivery store (gitrank/packages/store/memory.go).
use mathlib.Core.Option
use text.Mathlib.Text.{◌==◌ as str_eq}
use text.Mathlib.TextPositions.{eq_refl}
use gitrank.Common.{
  ◌≡◌, refl, ◌⊎◌, inl, inr, true, false, String, Option, none, some, List, [], ◌∷◌, arith,
  Bool-cases, Option-cases, eq_iff, if◌then◌else◌,
}
use gitrank.Store.Deliveries.{
  DeliveryStatus, WebhookDelivery, DeliveryStore, lookup_entry, put_entry, mark_status, error_text,
}

lookup_entry-put_entry :
    (k j : String) (d : WebhookDelivery) (entries : List (String × WebhookDelivery))
    → lookup_entry j (put_entry k d entries)
      ≡ (if str_eq k j then some d else lookup_entry j entries)
unfolding lookup_entry put_entry
lookup_entry-put_entry k j d [] = refl
lookup_entry-put_entry k j d ((key, e) ∷ entries) =
    ground (arith, eq_iff k j, eq_iff key k, eq_iff key j, lookup_entry-put_entry k j d entries)

-- `MarkStatus` changes the status and the error of the delivery that it names and nothing else; of an
-- unknown id it reports so and changes nothing.
mark_status_lem :
    (id j : String) (status : DeliveryStatus) (error : Option String) (s : DeliveryStore)
    → lookup_entry j (mark_status id status error s).0.entries ≡ (
        if str_eq id j
        then Option.map {A = WebhookDelivery}
            (λ d. record d { status = status; last_error = error_text error })
            (lookup_entry id s.entries)
        else lookup_entry j s.entries)
unfolding mark_status
mark_status_lem id j status error s = elim (Option-cases (lookup_entry id s.entries)) [
  | inl gone ↦ rw (gone, mark_status) (missing (Bool-cases (str_eq id j)) gone)
  | inr (d, e) ↦ rw (e, mark_status) (lookup_entry-put_entry id j _ s.entries)
]
  where
    missing :
        (str_eq id j ≡ true) ⊎ (str_eq id j ≡ false)
        → lookup_entry id s.entries ≡ none
        → lookup_entry j s.entries ≡ (if str_eq id j then none else lookup_entry j s.entries)
    missing (inl same) gone = let e : id ≡ j = (eq_iff id j).0 same in rw (← e, eq_refl) gone
    missing (inr other) gone = rw other
