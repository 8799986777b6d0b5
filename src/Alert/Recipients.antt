-- ===== src/Alert/Recipients.antt =====
-- Who is sent an alert.
use mathlib.Core.List.{Memᴰ}
use sheeld.Prelude.{
  ℕ, ◌+◌, ◌≡◌, ◌≢◌, refl, inl, inr, nat_eq, eq_iff, List, [], ◌∷◌, lookup, lookup-insert, All,
  All-map, arith, Bool-cases, length,
}
use sheeld.Domain.{AlertWebhookConfig}
use sheeld.RateLimit.{Buckets}
use sheeld.BackendConfig.{Store, alert_webhooks}
use sheeld.Processor.Report.{Event}
use sheeld.Alert.{Delivery, limiter_of, allow, notify_each, notify}

-- The delivery is of the event, to one of the webhooks, in its format.
pub record IsFor (event : Event) (ws : List AlertWebhookConfig) (d : Delivery) : Type 0 where
  pub webhook : AlertWebhookConfig
  pub listed : Memᴰ webhook ws
  pub to_url : d.url ≡ webhook.url
  pub in_format : d.format ≡ webhook.payload_format
  pub of_event : d.event ≡ event

IsFor-tail :
    (event : Event) (w : AlertWebhookConfig) (ws : List AlertWebhookConfig) (d : Delivery)
    → IsFor event ws d
    → IsFor event (w ∷ ws) d
IsFor-tail event w ws d p = record {
  webhook = p.webhook;
  listed = Memᴰ.tail p.listed;
  to_url = p.to_url;
  in_format = p.in_format;
  of_event = p.of_event;
}

module _ {L : Type 0} (b : Buckets L) (now : ℕ) (event : Event) where
  notify_each-IsFor :
      (ws : List AlertWebhookConfig) (limiters : List (ℕ × L))
      → All (IsFor event ws) (notify_each b now event ws limiters).deliveries
  unfolding notify_each
  notify_each-IsFor [] limiters = tt
  notify_each-IsFor (w ∷ ws) limiters =
      let later = allow b now w.id limiters in
      let rest =
        All-map (IsFor event ws) (notify_each b now event ws later.1).deliveries
          (λ d p. IsFor-tail event w ws d p) (notify_each-IsFor ws later.1) in
      elim (Bool-cases later.0) [
        | inl e ↦ rw e (
            (
              record {
                webhook = w;
                listed = Memᴰ.head refl;
                to_url = refl;
                in_format = refl;
                of_event = refl;
              },
              rest,
            ))
        | inr e ↦ rw e rest
      ]

  notify_each-length :
      (ws : List AlertWebhookConfig) (limiters : List (ℕ × L))
      → length (notify_each b now event ws limiters).deliveries
          + (notify_each b now event ws limiters).suppressed
        ≡ length ws
  unfolding notify_each
  notify_each-length [] limiters = omega arith
  notify_each-length (w ∷ ws) limiters =
      let later = allow b now w.id limiters in
      elim (Bool-cases later.0) [
        | inl e ↦ rw e (omega (arith, notify_each-length ws later.1))
        | inr e ↦ rw e (omega (arith, notify_each-length ws later.1))
      ]

  notify_each-others :
      (ws : List AlertWebhookConfig) (limiters : List (ℕ × L)) (id : ℕ)
      → All (λ (w : AlertWebhookConfig). w.id ≢ id) ws
      → lookup id (notify_each b now event ws limiters).limiters ≡ lookup id limiters
  unfolding notify_each allow
  notify_each-others [] limiters id h = refl
  notify_each-others (w ∷ ws) limiters id h =
      let later = allow b now w.id limiters in
      ground (
        arith,
        notify_each-others ws later.1 id h.1,
        lookup-insert w.id id (b.allow now (limiter_of b w.id limiters)).1 limiters,
        eq_iff w.id id,
        h.0,
      )

-- A rejection is reported to the webhooks of the event's organization only: every delivery is of the
-- event, to one of the webhooks that the configuration lists for the organization, in its format. Each
-- of these is sent the alert or has it suppressed by its own rate cap; the caps of all other webhooks
-- are as they were.
notify_recipients :
    {L : Type 0} (b : Buckets L) (now : ℕ) (store : Store) (event : Event) (limiters : List (ℕ × L))
    → All
        (IsFor event (alert_webhooks store event.organization_id))
        (notify b now store event limiters).deliveries
      × (length (notify b now store event limiters).deliveries
            + (notify b now store event limiters).suppressed
          ≡ length (alert_webhooks store event.organization_id))
      × ((id : ℕ)
          → All (λ (w : AlertWebhookConfig). w.id ≢ id) (alert_webhooks store event.organization_id)
          → lookup id (notify b now store event limiters).limiters ≡ lookup id limiters)
unfolding notify
notify_recipients b now store event limiters = (
  notify_each-IsFor b now event (alert_webhooks store event.organization_id) limiters,
  notify_each-length b now event (alert_webhooks store event.organization_id) limiters,
  λ id h. notify_each-others b now event (alert_webhooks store event.organization_id) limiters id h,
)
