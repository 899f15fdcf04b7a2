-- ===== src/Tests/Clusters.antt =====
-- A small cluster of an agent that grants everything; its world is its clock.
use federation_autoscaler.Base.{ℕ, suc, true, false, none, some, [], ◌∷◌}
use federation_autoscaler.Base.Int.{pos}
use federation_autoscaler.Api
use federation_autoscaler.Kube.Core.{Run, ok}
use federation_autoscaler.Broker.Delivery.{for_consumer}
use federation_autoscaler.Agent.Types.{VirtualNodeState, VirtualNodeStatus, unset, running}
use federation_autoscaler.Agent.Calls.{Cluster, ClusterNode, Work, Texts}
use federation_autoscaler.Agent.Handlers.{HandlerConfig}
use federation_autoscaler.Tests.Sites.{two_cores}

abbrev pub unpeer_work : Work
unpeer_work = record {
  view = record {
    id = "unpeer-1";
    kind = for_consumer Api.unpeer;
    reservation_id = "res-1";
    chunk_count = pos 1;
    last_chunk = true;
    consumer_cluster_id = "a";
    consumer_liqo_cluster_id = "liqo-a";
    provider_cluster_id = "b";
    provider_liqo_cluster_id = "liqo-b";
    expires_at = none;
    kubeconfig = "";
    namespaces = [];
  };
  resources = two_cores;
}

abbrev pub peer_work : Work
peer_work = record unpeer_work {
  view = record unpeer_work.view {
    id = "peer-1";
    kind = for_consumer Api.peer;
    kubeconfig = "kube";
  };
}

abbrev pub cleanup_work : Work
cleanup_work = record unpeer_work {
  view = record unpeer_work.view { id = "cleanup-1"; kind = for_consumer Api.cleanup };
}

abbrev pub node : ClusterNode
node = record {
  name = "rs-res-1";
  deleting = false;
  unschedulable = false;
  ready = true ∷ [];
  provider_id = "liqo://b";
  allocatable = two_cores;
}

abbrev pub no_status : VirtualNodeStatus
no_status = record {
  observed_generation = 0;
  phase = unset;
  virtual_node_name = "";
  provider_id = "";
  resource_slice_name = "";
  allocatable = [];
  last_transition_time = none;
  message = "";
  conditions = [];
}

-- What a pass at the time 7 makes of it.
abbrev pub shown_status : VirtualNodeStatus
shown_status = record {
  observed_generation = 1;
  phase = running;
  virtual_node_name = "rs-res-1";
  provider_id = "liqo://b";
  resource_slice_name = "rs-res-1";
  allocatable = two_cores;
  last_transition_time = some 7;
  message = "Liqo virtual node is ready";
  conditions =
      record {
        condition_type = "Ready";
        status = true;
        reason = "VirtualNodeReady";
        message = "Liqo virtual node is ready";
        last_transition_time = 8;
      }
      ∷ record {
        condition_type = "Failed";
        status = false;
        reason = "VirtualNodeNotFailed";
        message = "Liqo virtual node is ready";
        last_transition_time = 9;
      }
      ∷ [];
}

abbrev pub vns : VirtualNodeState
vns = record {
  name = "vns-res-1";
  generation = 1;
  deleting = false;
  spec = record {
    provider_cluster_id = "b";
    provider_liqo_cluster_id = "liqo-b";
    resource_slice_name = "rs-res-1";
    node_group_id = "ng-b-standard";
    chunk_index = pos 0;
    reservation_id = "res-1";
    resources = two_cores;
  };
  status = no_status;
}

abbrev pub cluster : Cluster ℕ
cluster = record {
  now = λ w. (w, suc w);
  cancelled = λ w. (false, w);
  get_instructions = λ w. (ok (peer_work ∷ unpeer_work ∷ []), w);
  post_instruction_result = λ id result w. (ok tt, w);
  get_secret = λ name w. (ok "kube", w);
  create_secret = λ name value w. (ok tt, w);
  update_secret = λ name value w. (ok tt, w);
  delete_secret = λ name w. (ok tt, w);
  write_file = λ id kubeconfig w. (ok "/tmp/kube", w);
  remove_file = λ path w. w;
  run_liqoctl = λ args w. (record { succeeded = true; stdout = ""; stderr = "" }, w);
  list_tenant_namespaces = λ provider w. (ok ("liqo-tenant-b" ∷ []), w);
  create_slice = λ x w. (ok tt, w);
  delete_slice = λ namespace name w. (ok tt, w);
  create_state = λ x w. (ok tt, w);
  delete_state = λ name w. (ok tt, w);
  get_state = λ name w. (ok (record vns { status = shown_status }), w);
  list_states = λ w. (ok (vns ∷ []), w);
  update_state_status = λ x w. (ok tt, w);
  delete_foreign_cluster = λ name w. (ok tt, w);
  get_node = λ name w. (ok node, w);
  list_nodes = λ w. (ok (node ∷ []), w);
}

abbrev pub texts : Texts
texts = record { trim_space = λ text. text; contains = λ text part. false }

abbrev pub config : HandlerConfig
config = record { has_client = true; namespace = "fed" }

abbrev pub at : ℕ → Run ℕ
at w = record { world = w; log = [] }
