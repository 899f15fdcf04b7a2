-- ===== src/Tests/Heartbeats.antt =====
-- A heartbeat of a cluster that has one already, in a registry of two.
use federation_autoscaler.Base.{ℕ, String, some, none, [], ◌∷◌}
use federation_autoscaler.Broker.Heartbeats.{
  HeartbeatRequest, ConsumerRegistry, touch_consumer, handle_heartbeat,
}
use federation_autoscaler.Broker.Registry.{HasRegistered, handle_heartbeat-HasRegistered}

abbrev request : HeartbeatRequest ℕ String
request = record {
  cluster_id = "a";
  liqo_cluster_id = "liqo-a";
  placement = some "price";
  region = "eu";
  city = "turin";
  latitude = some 45;
  longitude = some 7;
  measured_latencies = ("b", 12) ∷ [];
  chosen_provider = "b";
  decided_by = "local";
}

abbrev registry : ConsumerRegistry ℕ String
registry =
    touch_consumer 0 "" "c" "liqo-c" "" "" "" none none 20
      (touch_consumer 0 "" "a" "liqo-old" "" "" "" none (some 7) 10 [])

handle_heartbeat-HasRegistered_example :
    HasRegistered 0 "" "a" request 30 registry (handle_heartbeat 0 "" "a" request 30 registry)
handle_heartbeat-HasRegistered_example = handle_heartbeat-HasRegistered 0 "" "a" request 30 registry
