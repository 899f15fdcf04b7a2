-- ===== src/Chunks.antt =====
-- internal/broker/chunk/chunk.go: how many chunks an advertisement yields.
pub mod Bounds
use federation_autoscaler.Base.{String, Bool, true, false, ◌&&◌, not, List, [], ◌∷◌, if◌then◌else◌}
use federation_autoscaler.Base.Int.{ℤ, pos, ltb_ℤ, leb_ℤ, int32, quot, floor_zero}
use federation_autoscaler.Api.{chunk_type_standard, chunk_type_gpu}
use federation_autoscaler.Consumer.Types.{
  ResourceList, Quantity, quantity_of, has_resource, gpu_resource_name,
}

-- chunk.Result.
pub record ChunkResult : Type 0 where
  pub chunk_type : String
  pub count : ℤ
  pub per_chunk : ResourceList

abbrev pub std_cpu_milli : ℤ
std_cpu_milli = pos 2_000

abbrev pub std_mem_bytes : ℤ
std_mem_bytes = pos 4_294_967_296

abbrev pub gpu_cpu_milli : ℤ
gpu_cpu_milli = pos 4_000

abbrev pub gpu_mem_bytes : ℤ
gpu_mem_bytes = pos 8_589_934_592

unfoldable pub min64 : ℤ → ℤ → ℤ
min64 a b = if ltb_ℤ a b then a else b

-- resource.NewQuantity, whose value and milli-value are the argument and a thousand times that.
module _ (new_quantity : ℤ → Quantity) where
  unfoldable pub size_standard : ResourceList → ChunkResult
  size_standard advertised =
      let cpu_chunks = quot (quantity_of "cpu" advertised).milli_value std_cpu_milli in
      let mem_chunks = quot (quantity_of "memory" advertised).value std_mem_bytes in
      record {
        chunk_type = chunk_type_standard;
        count = floor_zero (int32 (min64 cpu_chunks mem_chunks));
        per_chunk = ("cpu", new_quantity (pos 2)) ∷ ("memory", new_quantity std_mem_bytes) ∷ [];
      }

  unfoldable pub size_gpu : ResourceList → ℤ → ChunkResult
  size_gpu advertised gpu_count =
      let cpu_chunks = quot (quantity_of "cpu" advertised).milli_value gpu_cpu_milli in
      let mem_chunks = quot (quantity_of "memory" advertised).value gpu_mem_bytes in
      record {
        chunk_type = chunk_type_gpu;
        count = floor_zero (int32 (min64 (min64 cpu_chunks mem_chunks) gpu_count));
        per_chunk =
            ("cpu", new_quantity (pos 4))
            ∷ ("memory", new_quantity gpu_mem_bytes)
            ∷ (gpu_resource_name, new_quantity (pos 1))
            ∷ [];
      }

  -- Size of the DefaultSizer.
  unfoldable pub size : ResourceList → List ChunkResult
  size advertised =
      let gpu_count = (quantity_of gpu_resource_name advertised).value in
      if has_resource gpu_resource_name advertised && not (leb_ℤ gpu_count (pos 0))
      then size_gpu advertised gpu_count ∷ []
      else size_standard advertised ∷ []
