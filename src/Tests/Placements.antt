-- ===== src/Tests/Placements.antt =====
-- Placement and chunk sizing on small inputs.
use federation_autoscaler.Base.{All₂, ℕ, String, Bool, true, ◌≡◌, refl, none, List, [], ◌∷◌, arith}
use federation_autoscaler.Base.Int.{ℤ, pos}
use federation_autoscaler.Api.{ClusterAdvertisement}
use federation_autoscaler.Consumer.Types.{ResourceList, price, quantity_of}
use federation_autoscaler.Placement.Masking.{Row, Verdict, of_type, apply_metric_preference}
use federation_autoscaler.Placement.Best.{HasEffect, IsJustified, apply_metric_preference_lem}
use federation_autoscaler.Placement.Build.{PlacementInput}
use federation_autoscaler.Chunks.{size_standard}
use federation_autoscaler.Chunks.Bounds.{IsMost, size_standard_lem}
use federation_autoscaler.Tests.Server.{advert}
use federation_autoscaler.Tests.Sites.{float, float-IsOrder, new_quantity, group_of}

abbrev row_of : ℕ → String → ℤ → ℤ → ℕ → Row ℕ
row_of i provider maximum reserved metric = record {
  index = i;
  view = group_of provider maximum reserved metric;
  metric = metric;
  has = true;
}

-- The better provider is full with a reservation in flight.
abbrev small_rows : List (Row ℕ)
small_rows = row_of 0 "b" (pos 4) (pos 1) 7 ∷ row_of 1 "d" (pos 2) (pos 2) 5 ∷ []

abbrev peering_on_d : String → Bool
peering_on_d provider = true

apply_metric_preference_lem_example :
    (v : Verdict) × All₂
      (HasEffect float peering_on_d v)
      (of_type "standard" small_rows)
      (of_type "standard" (apply_metric_preference float peering_on_d small_rows))
    × IsJustified float peering_on_d v (of_type "standard" small_rows)
apply_metric_preference_lem_example =
    apply_metric_preference_lem float peering_on_d float-IsOrder "standard" small_rows

abbrev adverts : List ClusterAdvertisement
adverts = advert ∷ []

abbrev input : PlacementInput
input = record {
  advertisements = adverts;
  placement = price;
  in_flight = peering_on_d;
  own_reserved = none;
}

abbrev five_cores : ResourceList
five_cores = ("cpu", new_quantity (pos 5)) ∷ ("memory", new_quantity (pos 17_179_869_184)) ∷ []

size_standard_lem_example :
    (n : ℕ) × ((size_standard new_quantity five_cores).count ≡ pos n)
    × IsMost 5_000 17_179_869_184 2_000 4_294_967_296 n
unfolding quantity_of
size_standard_lem_example =
    size_standard_lem new_quantity five_cores 5_000 17_179_869_184 refl refl (omega arith)
