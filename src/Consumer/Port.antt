-- ===== src/Consumer/Port.antt =====
-- What the consumer's programs ask of their own API server and of the agent beside them: the
-- interface ReservationClient, and the settings of ResourceRequestReconciler.
use federation_autoscaler.Base.{String, Bool, true, false, Option, List}
use federation_autoscaler.Base.Int.{ℤ}
use federation_autoscaler.Api.{Time}
use federation_autoscaler.Kube.Core.{
  ApiError, not_found, Result, ok, err, accepted, Call, M, query, request, consumer,
}
use federation_autoscaler.Controller.Config.{Duration}
use federation_autoscaler.Broker.Server.{ReservationRequest}
use federation_autoscaler.Consumer.Types.{
  Float64, LatencyBound, NodeGroupListResponse, ResourceRequest, Node, posted_reservation,
  freed_reservation, wrote_request, wrote_request_status, patched_node,
}

-- A write answers with the object as stored; `get_node_groups_within` is absent for an agent that
-- cannot bound the latency.
pub record Agent (F W : Type 0) : Type 0 where
  pub now : W → Time × W
  pub get_request : String → Call W ResourceRequest
  pub update_request : ResourceRequest → Call W ResourceRequest
  pub update_request_status : ResourceRequest → Call W ResourceRequest
  pub get_node_groups : Call W (NodeGroupListResponse F)
  pub get_node_groups_within : Option (LatencyBound → Call W (NodeGroupListResponse F))
  pub post_reservation : String → ReservationRequest → Call W (Unit {0})
  pub delete_reservation : String → Call W (Unit {0})
  -- The names of the virtual nodes of the VirtualNodeStates with the reservation's label.
  pub list_virtual_nodes : String → Call W (List String)
  -- The name of each virtual node with the id of its reservation.
  pub get_virtual_nodes : Call W (List (String × String))
  pub get_node : String → Call W Node
  pub patch_node : Node → Call W Node

-- The settings, and the texts that package fmt and the errors make.
pub record RequestReconciler (F : Type 0) : Type 0 where
  -- Agent is not nil.
  pub has_agent : Bool
  pub re_eval_interval : Duration
  pub float : Float64 F
  pub error_text : ApiError → String
  pub decimal : ℤ → String

-- A release that finds nothing is as good as one that is accepted.
abbrev pub is_released : Result (Unit {0}) → Bool
is_released (ok a) = true
is_released (err not_found) = true
is_released (err _) = false

module _ {F W : Type 0} (c : Agent F W) where
  abbrev pub now : M W Time
  now s = (ok (c.now s.world).0, record s { world = (c.now s.world).1 })

  abbrev pub get_request : String → M W ResourceRequest
  get_request name = query (c.get_request name)

  abbrev pub update_request : ResourceRequest → M W ResourceRequest
  update_request x = request (c.update_request x) (λ a. consumer (wrote_request (accepted a) x))

  abbrev pub update_request_status : ResourceRequest → M W ResourceRequest
  update_request_status x =
      request (c.update_request_status x) (λ a. consumer (wrote_request_status (accepted a) x))

  abbrev pub get_node_groups : M W (NodeGroupListResponse F)
  get_node_groups = query c.get_node_groups

  abbrev pub post_reservation : String → ReservationRequest → M W (Unit {0})
  post_reservation id req =
      request (c.post_reservation id req)
        (λ a. consumer (posted_reservation (accepted a) id req.chunk_count))

  abbrev pub delete_reservation : String → M W (Unit {0})
  delete_reservation id =
      request (c.delete_reservation id) (λ a. consumer (freed_reservation (is_released a) id))

  abbrev pub list_virtual_nodes : String → M W (List String)
  list_virtual_nodes id = query (c.list_virtual_nodes id)

  abbrev pub get_virtual_nodes : M W (List (String × String))
  get_virtual_nodes = query c.get_virtual_nodes

  abbrev pub get_node : String → M W Node
  get_node name = query (c.get_node name)

  abbrev pub patch_node : Node → M W Node
  patch_node x = request (c.patch_node x) (λ a. consumer (patched_node (accepted a) x.name))
