-- ===== src/Controller/Naming.antt =====
-- What the deterministic names keep apart, and what they do not.
use Prim.Native.String.{◌++◌}
use Prim.Native.Char.{Char, code}
use Prim.Native.Nat.{ℕ}
use text.Mathlib.TextLemmas.{cons-append, append_assoc, append_cancel_left}
use federation_autoscaler.Base.{String, ◌≡◌, ◌≢◌, ap, ◌∙◌, arith}
use federation_autoscaler.Controller.Names.{
  peering_credential_key, provider_instruction_gk_name, reservation_instruction_peer_name,
  reservation_instruction_unpeer_name, reservation_instruction_cleanup_name,
  provider_instruction_cleanup_name, kubeconfig_secret_name,
}

-- Two pairs of clusters may share one staging Secret: a dash that ends the consumer's name or
-- starts the provider's is not recorded.
pub kubeconfig_secret_name_collides :
    (consumer middle provider : String)
    → kubeconfig_secret_name (consumer ++ ("-" ++ middle)) provider
      ≡ kubeconfig_secret_name consumer (middle ++ ("-" ++ provider))
kubeconfig_secret_name_collides consumer middle provider = simp append_assoc

-- For one consumer the name of the Secret tells the providers apart.
pub kubeconfig_secret_name-injective :
    (consumer p q : String)
    → kubeconfig_secret_name consumer p ≡ kubeconfig_secret_name consumer q
    → p ≡ q
kubeconfig_secret_name-injective consumer p q h =
    append_cancel_left "-" p q
      (append_cancel_left consumer ("-" ++ p) ("-" ++ q) (append_cancel_left "kubeconfig-" _ _ h))

-- The code points at the first two places, zero beyond the end.
abbrev first : String → ℕ
first String.[] = 0
first (String.◌∷◌ a s) = code a

abbrev second : String → ℕ
second String.[] = 0
second (String.◌∷◌ a s) = first s

first-append : (a : Char) (s t : String) → first (String.◌∷◌ a s ++ t) ≡ code a
first-append a s t = ap first (cons-append a s t)

second-append : (a b : Char) (s t : String) → second (String.◌∷◌ a (String.◌∷◌ b s) ++ t) ≡ code b
second-append a b s t = ap second (cons-append a (String.◌∷◌ b s) t) ∙ ap first (cons-append b s t)

differ_first : (s t : String) → first s ≢ first t → s ≢ t
differ_first s t h e = h (ap first e)

differ_second : (s t : String) → second s ≢ second t → s ≢ t
differ_second s t h e = h (ap second e)

-- No provider-side instruction has the name of a consumer-side one.
pub names_apart :
    (consumer provider resv : String)
    → (provider_instruction_gk_name consumer provider ≢ reservation_instruction_peer_name resv)
      × (provider_instruction_gk_name consumer provider ≢ reservation_instruction_unpeer_name resv)
      × (provider_instruction_gk_name consumer provider ≢ reservation_instruction_cleanup_name resv)
      × (provider_instruction_cleanup_name consumer provider
          ≢ reservation_instruction_peer_name resv)
      × (provider_instruction_cleanup_name consumer provider
          ≢ reservation_instruction_unpeer_name resv)
      × (provider_instruction_cleanup_name consumer provider
          ≢ reservation_instruction_cleanup_name resv)
names_apart consumer provider resv =
    let key = peering_credential_key consumer provider in
    let gk = first-append "g" "k-" key in
    let pcleanup = first-append "p" "cleanup-" key in
    let unpeer = first-append "u" "npeer-" resv in
    let cleanup = first-append "c" "leanup-" resv in
    (
      differ_first _ _ (omega (arith, gk, first-append "p" "eer-" resv)),
      differ_first _ _ (omega (arith, gk, unpeer)),
      differ_first _ _ (omega (arith, gk, cleanup)),
      differ_second _ _
          (omega (arith, second-append "p" "c" "leanup-" key, second-append "p" "e" "er-" resv)),
      differ_first _ _ (omega (arith, pcleanup, unpeer)),
      differ_first _ _ (omega (arith, pcleanup, cleanup)),
    )
