-- ===== src/Status/Counters.antt =====
-- internal/status/counters.go: the failure counters. A pointer to the counters is an `Option`.
use poc_controller.Prelude.{String, Option, none, some, ◌==◌, inc64, if◌then◌else◌}
use poc_controller.Api.{FailureCounters}

abbrev pub counter_reconcile : String
counter_reconcile = "reconcile"

abbrev pub counter_apply : String
counter_apply = "apply"

abbrev pub counter_prune : String
counter_prune = "prune"

abbrev pub counter_drift : String
counter_drift = "drift"

-- ensureCountersField, EnsureCounters and EnsureReleaseCounters
unfoldable pub ensure_counters : Option FailureCounters → FailureCounters
ensure_counters none = record { reconcile = 0; apply = 0; prune = 0; drift = 0 }
ensure_counters (some c) = c

unfoldable pub increment_counter : FailureCounters → String → FailureCounters
increment_counter c field =
    if field == counter_reconcile
    then record c { reconcile = inc64 c.reconcile }
    else if field == counter_apply
    then record c { apply = inc64 c.apply }
    else if field == counter_prune
    then record c { prune = inc64 c.prune }
    else if field == counter_drift
    then record c { drift = inc64 c.drift }
    else c

unfoldable pub reset_counter : FailureCounters → String → FailureCounters
reset_counter c field =
    if field == counter_reconcile
    then record c { reconcile = 0 }
    else if field == counter_apply
    then record c { apply = 0 }
    else if field == counter_prune
    then record c { prune = 0 }
    else if field == counter_drift
    then record c { drift = 0 }
    else c
