-- ===== src/Broker/Server.antt =====
-- What the handlers share: the answers, the requests and the settings of the server. The JSON of a
-- request is decoded and the caller is authenticated before a handler runs.
use Prim.Native.String.{◌++◌}
use federation_autoscaler.Base.{
  ℕ, String, Bool, true, false, Option, none, some, List, [], ◌∷◌, str_eq, ◌&&◌, ◌||◌, not,
  if◌then◌else◌,
}
use federation_autoscaler.Base.Int.{ℤ, pos, ltb_ℤ, int32}
use federation_autoscaler.Api.{Reservation, ReservationSpec, chunk_type_standard, chunk_type_gpu}

-- The HTTP status with the Reservation in the body, or the status of an error.
pub data Answer : Type 0 where
  answered : ℕ → Reservation → Answer
  rejected : ℕ → Answer
  -- InstructionResultResponse{Accepted: true}.
  taken : Answer

pub record ReservationRequest : Type 0 where
  pub provider_cluster_id : String
  pub node_group_id : String
  pub chunk_count : ℤ
  pub chunk_type : String
  pub namespaces : List String

-- The settings of the server and what it takes from elsewhere: the consumer registry's Liqo
-- identity of a cluster, validation.IsDNS1123Subdomain, and `res-` with a new UUID.
pub record Server (W : Type 0) : Type 0 where
  pub reservation_timeout : ℤ
  pub consumer_liqo_id : String → Option String
  pub is_dns1123_subdomain : String → Bool
  pub new_reservation_name : W → String × W

-- `ng-<provider>-<chunkType>`; the chunk types are in lower case already.
unfoldable pub node_group_id : String → String → String
node_group_id provider chunk_type = "ng-" ++ (provider ++ ("-" ++ chunk_type))

unfoldable pub validate_reservation_request : ReservationRequest → Bool
validate_reservation_request req =
    not (str_eq req.provider_cluster_id "")
    && (not (ltb_ℤ req.chunk_count (pos 1))
        && (not (ltb_ℤ (pos 1) req.chunk_count)
            && ((str_eq req.chunk_type chunk_type_standard || str_eq req.chunk_type chunk_type_gpu)
                && (str_eq req.node_group_id ""
                    || str_eq req.node_group_id
                        (node_group_id req.provider_cluster_id req.chunk_type)))))

unfoldable pub same_strings : List String → List String → Bool
same_strings [] [] = true
same_strings (x ∷ xs) (y ∷ ys) = str_eq x y && same_strings xs ys
same_strings _ _ = false

-- Whether an existing Reservation was made by the same request.
unfoldable pub same_reservation_request :
    ReservationSpec → ReservationRequest → String → String → String → Bool
same_reservation_request spec req consumer consumer_liqo provider_liqo =
    str_eq spec.consumer_cluster_id consumer
    && (str_eq spec.consumer_liqo_cluster_id consumer_liqo
        && (str_eq spec.provider_cluster_id req.provider_cluster_id
            && (str_eq spec.provider_liqo_cluster_id provider_liqo
                && (not (ltb_ℤ spec.chunk_count req.chunk_count)
                    && (not (ltb_ℤ req.chunk_count spec.chunk_count)
                        && (str_eq spec.chunk_type req.chunk_type
                            && same_strings spec.namespaces req.namespaces))))))

-- The query parameter `chunks`, after strconv.Atoi: absent, or a number that is cut to 32 bits.
unfoldable pub parse_chunks_query : (String → Option ℤ) → String → Option ℤ
parse_chunks_query atoi raw =
    if str_eq raw ""
    then some (pos 0)
    else elim (atoi raw) [ none ↦ none | some n ↦ if ltb_ℤ n (pos 0) then none else some (int32 n) ]
