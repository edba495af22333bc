-- ===== src/Tests/Uploader.antt =====
-- src/delivery/uploader.js against a server that acknowledges, and one that does not.
use sidewisp_plugin.Prelude.{◌+◌, ◌≡◌, refl, true, none, some, [], ◌∷◌}
use sidewisp_plugin.Delivery.Uploader.{
  Limits, Uploader, Request, Reply, response, World, outcome, not_started, credential_rejected,
  prepare,
}
use sidewisp_plugin.Delivery.Uploader.Send.{settle, perform_send}
use sidewisp_plugin.Delivery.Uploader.Drain.{drain}
use sidewisp_plugin.Delivery.Uploader.Trace.{Accounted}
use sidewisp_plugin.Delivery.Uploader.Isolation.{IsSafe, prepare-IsSafe}
use sidewisp_plugin.Delivery.Uploader.Safety.{
  prepared_acks, status_of, settle_refused, perform_send-Accounted,
}
use sidewisp_plugin.Delivery.Uploader.Retries.{IsBounded, drain-IsBounded}
use sidewisp_plugin.Tests.Spool.{flat, tick, two_installations, started, row_of, started-Waits}

abbrev limits : Limits
limits = record { max_batch = 100; max_body_bytes = 262144; max_backoff_ms = 60000 }

abbrev uploader : Uploader
uploader = record {
  spool = two_installations;
  attempt = 0;
  healthy_installation = none;
  last_delivered_at = none;
  last_result = outcome not_started 0 0;
  refreshes = 0;
}

-- Acknowledges the first event only.
abbrev partial_server : Request → Reply
partial_server q =
    response 200 none (some (record { acknowledged = some ("e1" ∷ []); rejections = none }))

abbrev world : World
world = record {
  credential = some (record { installation_id = "inst-a"; active = true });
  clock = tick;
  server = partial_server;
}

perform_send-Accounted_example :
    Accounted
      (prepared_acks world (prepare flat limits world uploader))
      "e1"
      (row_of started 1)
      (perform_send flat limits world uploader).0.spool
perform_send-Accounted_example =
    perform_send-Accounted flat limits world uploader "e1" (row_of started 1) started-Waits

prepare-IsSafe_example : IsSafe limits world.credential (prepare flat limits world uploader)
prepare-IsSafe_example = prepare-IsSafe flat limits world uploader

settle_refused_example :
    let (u', o) =
      settle flat limits world "inst-a" (("e1", started) ∷ []) (response 403 none none) uploader in
    (u'.spool ≡ uploader.spool)
    × (u'.attempt ≡ uploader.attempt)
    × (u'.last_delivered_at ≡ none)
    × (u'.last_result.sent_count ≡ 0)
    × (u'.last_result.remaining ≡ 1)
    × (status_of o ≡ some credential_rejected)
    × (u'.refreshes ≡ uploader.refreshes + 1)
settle_refused_example =
    settle_refused flat limits world "inst-a" (("e1", started) ∷ []) (response 403 none none)
      uploader refl

drain-IsBounded_example :
    IsBounded 10 (drain flat limits (λ i. world) (λ i base. base) 0 10 none uploader)
drain-IsBounded_example =
    drain-IsBounded flat limits (λ i. world) (λ i base. base) 0 10 none uploader
