-- ===== src/Tests/Diagnostics.antt =====
-- src/delivery/runtime-diagnostics.js on a spool with one pending snapshot.
use sidewisp_plugin.Prelude.{true, some}
use sidewisp_plugin.Delivery.Diagnostics.{
  Credential, Limits, Snapshot, not_started, Delivery, response, settle,
}
use sidewisp_plugin.Delivery.Diagnostics.Latest.{IsSettled, after, settle-IsSettled}
use sidewisp_plugin.Tests.Spool.{flat, two_installations, two_installations-AreKeyed}

abbrev delivery : Delivery
delivery = record {
  spool = two_installations;
  last_fingerprint = some "f0";
  last_queued_at = 0;
  retry_attempt = 3;
  last_result = not_started;
}

settle-IsSettled_example :
    IsSettled "inst-a" "snap-1" "inst-a"
      (response 200 (some (some "snap-1")))
      delivery
      (after (settle flat "inst-a" "snap-1" (response 200 (some (some "snap-1"))) delivery))
settle-IsSettled_example =
    settle-IsSettled flat "inst-a" "snap-1" "inst-a" (response 200 (some (some "snap-1"))) delivery
      two_installations-AreKeyed.diagnostics

abbrev limits : Limits
limits = record { interval_ms = 900000; max_refresh_ms = 3600000 }

abbrev credential : Credential
credential = record { installation_id = "inst-a"; active = true }

abbrev snapshot : Snapshot
snapshot = record {
  snapshot_id = "snap-2";
  installation = "inst-a";
  ttl_seconds = 970;
  payload = "{}";
  fingerprint = "f1";
}
