-- ===== src/Alert.antt =====
-- internal/dataplane/alert/notifier.go: rejection events are posted to the organization's webhooks,
-- each under its own rate cap. The buckets of golang.org/x/time/rate are the parameter `Buckets`; a
-- delivery runs in the background and only counts its outcome, so a call of `Notify` is the list of the
-- deliveries that it starts. The event's time is left out.
pub mod Recipients
mod Tests
use sheeld.Prelude.{
  ℕ, suc, Bool, true, false, ◌==◌, nat_eq, string_eq, if◌then◌else◌, String, Str, str, List, [],
  ◌∷◌, ◌++◌, Option, none, some, lookup, insert,
}
use sheeld.Prelude.Int.{ℤ, pos}
use sheeld.Json.{Json, text, arr, obj, Items, nil, cons, field, end}
use sheeld.Domain.{AlertWebhookConfig}
use sheeld.RateLimit.{Buckets}
use sheeld.BackendConfig.{Store, alert_webhooks}
use sheeld.Processor.Report.{Event, FailedGuard}

-- A tenth of an alert per second, in billionths.
abbrev pub alerts_per_second : ℤ
alerts_per_second = pos 100000000

abbrev pub alert_burst : ℤ
alert_burst = pos 3

-- The arguments of `deliver`.
pub record Delivery : Type 0 where
  pub url : String
  pub format : String
  pub event : Event

-- What a call starts, how many alerts it suppresses, and the limiters after it.
pub record Notified (L : Type 0) : Type 0 where
  pub deliveries : List Delivery
  pub suppressed : ℕ
  pub limiters : List (ℕ × L)

module _ {L : Type 0} (b : Buckets L) where
  -- The bucket of a webhook: a new one where there is none.
  abbrev pub limiter_of : ℕ → List (ℕ × L) → L
  limiter_of id limiters = elim (lookup id limiters) [
    | none ↦ b.new_limiter alerts_per_second alert_burst
    | some l ↦ l
  ]

  unfoldable pub allow : ℕ → ℕ → List (ℕ × L) → Bool × List (ℕ × L)
  allow now id limiters =
      let (allowed, l) = b.allow now (limiter_of id limiters) in (allowed, insert id l limiters)

  -- The loop of `Notify`.
  unfoldable pub notify_each : ℕ → Event → List AlertWebhookConfig → List (ℕ × L) → Notified L
  unfolding allow
  notify_each now event [] limiters = record {
    deliveries = [];
    suppressed = 0;
    limiters = limiters;
  }
  notify_each now event (w ∷ ws) limiters =
      let (allowed, limiters') = allow now w.id limiters in
      let rest = notify_each now event ws limiters' in
      if allowed
      then record rest {
        deliveries =
            record { url = w.url; format = w.payload_format; event = event } ∷ rest.deliveries;
      }
      else record rest { suppressed = suc rest.suppressed }

  unfoldable pub notify : ℕ → Store → Event → List (ℕ × L) → Notified L
  unfolding notify_each
  notify now store event limiters =
      notify_each now event (alert_webhooks store event.organization_id) limiters

unfoldable pub slack_guards : List FailedGuard → Str
slack_guards [] = []
slack_guards (g ∷ gs) =
    str "\n• *"
    ++ (str g.name
        ++ (str "* (" ++ (str g.kind ++ (str "): " ++ (str g.message ++ slack_guards gs)))))

unfoldable pub slack_text : Event → Str
unfolding slack_guards
slack_text event =
    str ":no_entry: Sheeld rejected a request on source `"
    ++ (str event.source_route
        ++ (str "` ("
            ++ (str event.phase
                ++ (str " phase)"
                    ++ (slack_guards event.failed_guards
                        ++ (if event.request_id == ""
                            then []
                            else str "\nrequest_id: `" ++ (str event.request_id ++ str "`")))))))

abbrev pub guard_items : List FailedGuard → Items
guard_items [] = nil
guard_items (g ∷ gs) =
    cons
      (obj (
        field "name" (text (str g.name))
          (field "type" (text (str g.kind)) (field "message" (text (str g.message)) end))))
      (guard_items gs)

-- `uuid_text` writes an identifier.
unfoldable pub marshal_payload : (ℕ → Str) → String → Event → Json
unfolding slack_text
marshal_payload uuid_text format event =
    if format == "slack"
    then obj (field "text" (text (slack_text event)) end)
    else obj (
        field "type" (text (str "guard_rejection")) (
          field "organization_id" (text (uuid_text event.organization_id)) (
            field "source_route" (text (str event.source_route)) (
              field "phase" (text (str event.phase)) (
                if event.request_id == ""
                then field "failed_guards" (arr (guard_items event.failed_guards)) end
                else field "request_id" (text (str event.request_id))
                    (field "failed_guards" (arr (guard_items event.failed_guards)) end))))))
