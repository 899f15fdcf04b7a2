-- ===== src/Controller/Names.antt =====
-- The deterministic names of instructions and Secrets.
use Prim.Native.String.{◌++◌}
use federation_autoscaler.Base.{String}

abbrev pub peering_credential_key : String → String → String
peering_credential_key consumer provider = consumer ++ ("-" ++ provider)

abbrev pub provider_instruction_gk_name : String → String → String
provider_instruction_gk_name consumer provider = "gk-" ++ peering_credential_key consumer provider

abbrev pub reservation_instruction_peer_name : String → String
reservation_instruction_peer_name name = "peer-" ++ name

abbrev pub reservation_instruction_unpeer_name : String → String
reservation_instruction_unpeer_name name = "unpeer-" ++ name

abbrev pub reservation_instruction_cleanup_name : String → String
reservation_instruction_cleanup_name name = "cleanup-" ++ name

abbrev pub provider_instruction_cleanup_name : String → String → String
provider_instruction_cleanup_name consumer provider =
    "pcleanup-" ++ peering_credential_key consumer provider

abbrev pub kubeconfig_secret_name : String → String → String
kubeconfig_secret_name consumer provider = "kubeconfig-" ++ peering_credential_key consumer provider
