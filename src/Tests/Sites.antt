-- ===== src/Tests/Sites.antt =====
-- A consumer's site with one ResourceRequest, the two node groups of its agent, and a clock.
use federation_autoscaler.Base.{
  ℕ, suc, ◌-◌, ◌*◌, String, Bool, true, false, none, some, List, [], ◌∷◌, ltb, ◌==◌, arith,
}
use federation_autoscaler.Base.Int.{ℤ, pos, pos_part}
use federation_autoscaler.Kube.Core.{Run, Result, ok, err, other, not_found}
use federation_autoscaler.Consumer.Types.{
  Quantity, ResourceList, Float64, NodeGroupView, NodeGroupListResponse, ResourceRequest,
  ResourceRequestPhase, price,
}
use federation_autoscaler.Consumer.Port.{Agent, RequestReconciler}
use federation_autoscaler.Placement.Build.{Metrics}
use federation_autoscaler.Placement.Sorting.{IsOrder}

pub record Site : Type 0 where
  pub clock : ℕ
  pub request : ResourceRequest
  -- The agent refuses to reserve.
  pub full : Bool

-- Metrics that are natural numbers.
abbrev pub float : Float64 ℕ
float = record { lt = ltb; eq = λ a b. a == b; sub = λ a b. a - b; mul = λ a b. a * b; micro = 0 }

pub float-IsOrder : IsOrder float
float-IsOrder = record {
  asym = λ a b h. ground arith;
  le_trans = λ a b c h k. ground arith;
  eq_le = λ a b h. ground arith;
}

abbrev pub new_quantity : ℤ → Quantity
new_quantity z = record { milli_value = pos (1_000 * pos_part z); value = z }

abbrev pub two_cores : ResourceList
two_cores = ("cpu", new_quantity (pos 2)) ∷ []

abbrev pub group_of : String → ℤ → ℤ → ℕ → NodeGroupView ℕ
group_of provider maximum reserved metric = record {
  id = provider;
  provider_cluster_id = provider;
  provider_liqo_cluster_id = provider;
  chunk_type = "standard";
  min_size = pos 0;
  max_size = maximum;
  current_reserved = reserved;
  chunk_resources = two_cores;
  placement_metric = metric;
  has_metric = true;
}

abbrev pub groups : List (NodeGroupView ℕ)
groups = group_of "b" (pos 4) (pos 1) 7 ∷ group_of "d" (pos 2) (pos 2) 5 ∷ []

abbrev pub response : NodeGroupListResponse ℕ
response = record { node_groups = groups; latency_shortlist = false; applied_placement = price }

abbrev answer_of : Bool → Result (Unit {0})
answer_of true = err other
answer_of false = ok tt

abbrev pub small_agent : Agent ℕ Site
small_agent = record {
  now = λ w. (w.clock, record w { clock = suc w.clock });
  get_request = λ name w. (ok w.request, w);
  update_request = λ x w. (ok x, record w { request = x });
  update_request_status = λ x w. (ok x, record w { request = x });
  get_node_groups = λ w. (ok response, w);
  get_node_groups_within = none;
  post_reservation = λ id req w. (answer_of w.full, w);
  delete_reservation = λ id w. (ok tt, w);
  list_virtual_nodes = λ id w. (ok ("n1" ∷ []), w);
  get_virtual_nodes = λ w. (ok (("n1", "r1") ∷ ("n2", "r2") ∷ []), w);
  get_node = λ name w. (err not_found, w);
  patch_node = λ x w. (ok x, w);
}

abbrev pub settings : RequestReconciler ℕ
settings = record {
  has_agent = true;
  re_eval_interval = pos 100;
  float = float;
  error_text = λ e. "refused";
  decimal = λ z. "1";
}

-- A request for one core.
abbrev pub request_in : ResourceRequestPhase → String → Bool → ResourceRequest
request_in phase id deleting = record {
  name = "q";
  uid = "u1";
  deleting = deleting;
  finalizer = true;
  spec = record { resources = ("cpu", new_quantity (pos 1)) ∷ []; latency_bound = none };
  status = record {
    phase = phase;
    reservation_id = id;
    provider_cluster_id = "d";
    chunk_count = pos 1;
    migration_count = pos 0;
    message = "";
    last_transition_time = none;
  };
}

abbrev pub site : ResourceRequest → Bool → Run Site
site request full = record {
  world = record { clock = 500; request = request; full = full };
  log = [];
}

abbrev pub new_id : Site → String × Site
new_id w = ("res-1", w)

abbrev pub metrics : Metrics ℕ
metrics = record {
  float = float;
  zero = 0;
  per_chunk_cost = λ cadv. some 3;
  weighted_carbon = λ cadv. none;
  distance = λ cadv. none;
  standard_score = λ cadv. some 1;
  draw = λ is. 0;
  per_chunk_resources = λ cadv. two_cores;
}
