-- ===== src/Broker/Heartbeats.antt =====
-- internal/broker/api: heartbeat.go, and of registry.go Touch, SetDecision and Lookup. One lock
-- guards the registry, so that a call is one change of it. The placement policy is stored as it
-- comes: its type is a parameter, as is float64.
use federation_autoscaler.Base.{
  ℕ, String, Bool, true, false, not, ◌&&◌, ◌||◌, Option, none, some, List, [], ◌∷◌, str_eq,
  if◌then◌else◌,
}
use federation_autoscaler.Api.{Time}

abbrev pub decided_by_local : String
decided_by_local = "local"

-- `F` is float64 and `P` PlacementPolicy.
pub record HeartbeatRequest (F P : Type 0) : Type 0 where
  pub cluster_id : String
  pub liqo_cluster_id : String
  pub placement : Option P
  pub region : String
  pub city : String
  pub latitude : Option F
  pub longitude : Option F
  pub measured_latencies : List (String × F)
  pub chosen_provider : String
  pub decided_by : String

pub record ConsumerEntry (F P : Type 0) : Type 0 where
  pub cluster_id : String
  pub liqo_cluster_id : String
  pub last_seen : Time
  pub placement : P
  pub region : String
  pub city : String
  pub measured_latencies : List (String × F)
  pub chosen_provider : String
  pub decided_by : String
  pub latitude : F
  pub longitude : F
  pub has_location : Bool

-- The map from a cluster to its entry; a key stands in it at most once.
abbrev pub ConsumerRegistry : Type 0 → Type 0 → Type 0
ConsumerRegistry F P = List (String × ConsumerEntry F P)

module _ {F P : Type 0} where
  unfoldable pub lookup_consumer : String → ConsumerRegistry F P → Option (ConsumerEntry F P)
  lookup_consumer id [] = none
  lookup_consumer id ((key, entry) ∷ reg) =
      let rest = lookup_consumer id reg in if str_eq key id then some entry else rest

  -- The assignment to a key of the map.
  unfoldable pub put_entry :
      String → ConsumerEntry F P → ConsumerRegistry F P → ConsumerRegistry F P
  put_entry id entry [] = (id, entry) ∷ []
  put_entry id entry ((key, old) ∷ reg) =
      let rest = put_entry id entry reg in
      if str_eq key id then (key, entry) ∷ reg else (key, old) ∷ rest

  unfoldable pub validate_heartbeat_request : HeartbeatRequest F P → Bool
  validate_heartbeat_request req =
      not (str_eq req.cluster_id "")
      && (not (str_eq req.liqo_cluster_id "")
          && (str_eq req.decided_by "" || str_eq req.decided_by decided_by_local))

  abbrev pub with_decision :
      List (String × F) → String → String → ConsumerEntry F P → ConsumerEntry F P
  with_decision rtts chosen decided_by entry = record entry {
    measured_latencies = rtts;
    chosen_provider = chosen;
    decided_by = decided_by;
  }

  -- Of a cluster with no entry nothing is recorded.
  unfoldable pub set_decision :
      String → List (String × F) → String → String → ConsumerRegistry F P → ConsumerRegistry F P
  set_decision id rtts chosen decided_by reg = elim (lookup_consumer id reg) [
    | none ↦ reg
    | some entry ↦ put_entry id (with_decision rtts chosen decided_by entry) reg
  ]

  -- `zero_float` and `no_policy` are the zero values.
  module _ (zero_float : F) (no_policy : P) where
    abbrev pub located : Option F → Option F → ConsumerEntry F P → ConsumerEntry F P
    located (some lat) (some lon) entry = record entry {
      latitude = lat;
      longitude = lon;
      has_location = true;
    }
    located (some lat) none entry = entry
    located none lon entry = entry

    unfoldable pub touch_consumer :
        String
        → String
        → P
        → String
        → String
        → Option F
        → Option F
        → Time
        → ConsumerRegistry F P
        → ConsumerRegistry F P
    touch_consumer id liqo_id placement region city lat lon now reg =
        let entry : ConsumerEntry F P = record {
          cluster_id = id;
          liqo_cluster_id = liqo_id;
          last_seen = now;
          placement = placement;
          region = region;
          city = city;
          measured_latencies = [];
          chosen_provider = "";
          decided_by = "";
          latitude = zero_float;
          longitude = zero_float;
          has_location = false;
        } in
        put_entry id (located lat lon entry) reg

    abbrev pub policy_of : Option P → P
    policy_of none = no_policy
    policy_of (some policy) = policy

    -- What an accepted heartbeat does to the registry.
    unfoldable pub registered :
        HeartbeatRequest F P → Time → ConsumerRegistry F P → ConsumerRegistry F P
    registered req now reg =
        set_decision req.cluster_id req.measured_latencies req.chosen_provider req.decided_by (
          touch_consumer req.cluster_id req.liqo_cluster_id (policy_of req.placement) req.region
            req.city req.latitude req.longitude now reg)

    -- The HTTP status and the registry after it.
    unfoldable pub handle_heartbeat :
        String → HeartbeatRequest F P → Time → ConsumerRegistry F P → ℕ × ConsumerRegistry F P
    handle_heartbeat caller req now reg =
        if not (validate_heartbeat_request req)
        then (400, reg)
        else if not (str_eq req.cluster_id caller)
        then (403, reg)
        else (200, registered req now reg)
