-- ===== src/Tests/Server.antt =====
-- A server that keeps one Reservation, one advertisement, one Secret, a clock and a counter of the
-- reads that it still refuses.
use federation_autoscaler.Base.{ℕ, suc, String, Bool, true, false, none, some, List, [], ◌∷◌}
use federation_autoscaler.Base.Int.{pos}
use federation_autoscaler.Api.{
  Reservation, ReservationPhase, ClusterAdvertisement, ProviderInstruction, ProviderInstructionKind,
  ReservationInstruction, ReservationInstructionKind, InstructionStatus,
}
use federation_autoscaler.Kube.Core.{Client, Run, Result, ok, err, not_found, other}
use federation_autoscaler.Controller.Config.{Reconciler}
use federation_autoscaler.Broker.Server.{Server, ReservationRequest}

pub record World : Type 0 where
  pub clock : ℕ
  pub reservation : Reservation
  pub advertisement : ClusterAdvertisement
  pub has_secret : Bool
  pub readable : Bool

abbrev secret_value : Bool → Result String
secret_value true = ok "config"
secret_value false = err not_found

abbrev reading : Bool → Reservation → Result Reservation
reading true resv = ok resv
reading false resv = err other

abbrev pub small_client : Client World
small_client = record {
  now = λ w. (w.clock, record w { clock = suc w.clock });
  get_reservation = λ name w. (reading w.readable w.reservation, w);
  list_reservations = λ w. (ok (w.reservation ∷ []), w);
  create_reservation = λ x w. (ok x, record w { reservation = x });
  update_reservation = λ x w. (ok x, record w { reservation = x });
  update_reservation_status = λ x w. (ok x, record w { reservation = x });
  delete_reservation = λ x w. (ok tt, w);
  get_advertisement = λ name w. (ok w.advertisement, w);
  update_advertisement_status = λ x w. (ok x, record w { advertisement = x });
  upsert_advertisement = λ spec w. (
    ok (record w.advertisement { spec = spec }),
    record w { advertisement = record w.advertisement { spec = spec } },
  );
  get_provider_instruction = λ name w. (err not_found, w);
  list_provider_instructions = λ w. (ok [], w);
  create_provider_instruction = λ x w. (ok x, w);
  update_provider_instruction = λ x w. (ok x, w);
  update_provider_instruction_status = λ x w. (ok x, w);
  delete_provider_instruction = λ x w. (ok tt, w);
  get_reservation_instruction = λ name w. (err not_found, w);
  list_reservation_instructions = λ w. (ok [], w);
  create_reservation_instruction = λ x w. (ok x, w);
  update_reservation_instruction = λ x w. (ok x, w);
  update_reservation_instruction_status = λ x w. (ok x, w);
  delete_reservation_instruction = λ x w. (ok tt, w);
  set_controller_reference = λ resv ri. ok (record ri { owner = some resv.metadata.name });
  get_secret = λ name w. (secret_value w.has_secret, w);
  create_secret = λ name value w. (ok tt, record w { has_secret = true });
  update_secret = λ name value w. (ok tt, w);
  delete_secret = λ name w. (ok tt, record w { has_secret = false });
}

abbrev pub reconciler : Reconciler
reconciler = record {
  terminal_ttl = pos 100;
  gk_resync_interval = pos 5;
  reservation_timeout = pos 1000;
}

abbrev pub server : Server World
server = record {
  reservation_timeout = pos 1000;
  consumer_liqo_id = λ id. some "liqo-a";
  is_dns1123_subdomain = λ name. true;
  new_reservation_name = λ w. ("res-1", w);
}

-- A Reservation of one chunk in the given phase.
abbrev pub resv_in : ReservationPhase → List (String × String) → Reservation
resv_in phase annotations = record {
  metadata = record {
    name = "res-1";
    generation = 1;
    creation_timestamp = 10;
    deleting = false;
    finalizer = true;
    annotations = annotations;
  };
  spec = record {
    consumer_cluster_id = "a";
    consumer_liqo_cluster_id = "liqo-a";
    provider_cluster_id = "b";
    provider_liqo_cluster_id = "liqo-b";
    chunk_count = pos 1;
    chunk_type = "standard";
    namespaces = [];
  };
  status = record {
    observed_generation = 1;
    phase = phase;
    created_at = some 10;
    expires_at = some 1010;
    virtual_node_names = [];
    terminated_at = none;
  };
}

-- Four chunks, one of them reserved.
abbrev pub advert : ClusterAdvertisement
advert = record {
  metadata = record {
    name = "b";
    generation = 1;
    creation_timestamp = 1;
    deleting = false;
    finalizer = false;
    annotations = [];
  };
  spec = record { cluster_id = "b"; liqo_cluster_id = "liqo-b"; cluster_type = "standard" };
  status = record {
    observed_generation = 1;
    last_seen = some 9;
    available = true;
    total_chunks = pos 4;
    reserved_chunks = pos 1;
    available_chunks = pos 3;
  };
}

abbrev pub world_of : Reservation → Bool → Bool → World
world_of resv has_secret readable = record {
  clock = 20;
  reservation = resv;
  advertisement = advert;
  has_secret = has_secret;
  readable = readable;
}

abbrev pub start : World → Run World
start w = record { world = w; log = [] }

abbrev pub request : ReservationRequest
request = record {
  provider_cluster_id = "b";
  node_group_id = "";
  chunk_count = pos 1;
  chunk_type = "standard";
  namespaces = [];
}

abbrev instruction_status : InstructionStatus
instruction_status = record {
  observed_generation = 0;
  enforced = false;
  issued_at = none;
  last_delivered_at = none;
  last_update_time = none;
  attempts = pos 0;
}

abbrev pub order_for_b : ProviderInstruction
order_for_b = record {
  name = "gk-a-b";
  generation = 1;
  spec = record {
    reservation_id = "res-1";
    kind = ProviderInstructionKind.generate_kubeconfig;
    target_cluster_id = "b";
    consumer_cluster_id = "a";
    consumer_liqo_cluster_id = "liqo-a";
    chunk_count = pos 1;
    last_chunk = false;
    expires_at = none;
  };
  status = instruction_status;
}

abbrev pub order_for_a : ReservationInstruction
order_for_a = record {
  name = "peer-res-1";
  generation = 1;
  owner = some "res-1";
  spec = record {
    reservation_id = "res-1";
    kind = ReservationInstructionKind.peer;
    target_cluster_id = "a";
    provider_cluster_id = "b";
    provider_liqo_cluster_id = "liqo-b";
    chunk_count = pos 1;
    last_chunk = false;
    kubeconfig_ref = "kubeconfig-a-b";
    expires_at = none;
  };
  status = instruction_status;
}
