-- ===== src/Kube/Core.antt =====
-- Results, the client, the log of requests and the actions over them.
use federation_autoscaler.Base.{String, Bool, true, false, List, ◌∷◌}
use federation_autoscaler.Api.{
  Time, Reservation, ClusterAdvertisement, AdvertisementSpec, ProviderInstruction,
  ReservationInstruction,
}
use federation_autoscaler.Consumer.Types.{ConsumerEvent}
use federation_autoscaler.Agent.Types.{AgentEvent}

-- The errors that the source tells apart (apierrors.IsNotFound, IsConflict, IsAlreadyExists), the
-- ones it makes itself, and all others. Wrapping by fmt.Errorf keeps the kind.
pub data ApiError : Type 0 where
  not_found conflict already_exists exhausted nil_pointer phase_mismatch empty_kubeconfig other :
      ApiError

pub data Result {ℓ} (A : Type ℓ) : Type ℓ where
  ok : A → Result A
  err : ApiError → Result A

abbrev pub accepted {ℓ} : {A : Type ℓ} → Result A → Bool
accepted (ok a) = true
accepted (err e) = false

-- One request of the server from a given world: its answer, and the world after it.
abbrev pub Call : Type 0 → Type 0 → Type 0
Call W A = W → Result A × W

-- A write answers with the object as stored.
pub record Client (W : Type 0) : Type 0 where
  pub now : W → Time × W
  pub get_reservation : String → Call W Reservation
  pub list_reservations : Call W (List Reservation)
  pub create_reservation : Reservation → Call W Reservation
  pub update_reservation : Reservation → Call W Reservation
  pub update_reservation_status : Reservation → Call W Reservation
  pub delete_reservation : Reservation → Call W (Unit {0})
  pub get_advertisement : String → Call W ClusterAdvertisement
  pub update_advertisement_status : ClusterAdvertisement → Call W ClusterAdvertisement
  -- controllerutil.CreateOrUpdate of the object that the spec names.
  pub upsert_advertisement : AdvertisementSpec → Call W ClusterAdvertisement
  pub get_provider_instruction : String → Call W ProviderInstruction
  pub list_provider_instructions : Call W (List ProviderInstruction)
  pub create_provider_instruction : ProviderInstruction → Call W ProviderInstruction
  pub update_provider_instruction : ProviderInstruction → Call W ProviderInstruction
  pub update_provider_instruction_status : ProviderInstruction → Call W ProviderInstruction
  pub delete_provider_instruction : ProviderInstruction → Call W (Unit {0})
  pub get_reservation_instruction : String → Call W ReservationInstruction
  pub list_reservation_instructions : Call W (List ReservationInstruction)
  pub create_reservation_instruction : ReservationInstruction → Call W ReservationInstruction
  pub update_reservation_instruction : ReservationInstruction → Call W ReservationInstruction
  pub update_reservation_instruction_status : ReservationInstruction → Call W ReservationInstruction
  pub delete_reservation_instruction : ReservationInstruction → Call W (Unit {0})
  -- controllerutil.SetControllerReference.
  pub set_controller_reference :
      Reservation → ReservationInstruction → Result ReservationInstruction
  -- The value of a Secret under the key "kubeconfig", the empty string if it has none.
  pub get_secret : String → Call W String
  pub create_secret : String → String → Call W (Unit {0})
  pub update_secret : String → String → Call W (Unit {0})
  pub delete_secret : String → Call W (Unit {0})

-- A request that was sent, and its outcome: what a read returned, and of a write the object sent
-- and whether the server accepted it.
pub data Event : Type 0 where
  read_reservation : String → Result Reservation → Event
  listed_reservations : Result (List Reservation) → Event
  created_reservation : Bool → Reservation → Event
  wrote_reservation : Bool → Reservation → Event
  wrote_reservation_status : Bool → Reservation → Event
  deleted_reservation : Bool → Reservation → Event
  read_advertisement : String → Result ClusterAdvertisement → Event
  wrote_advertisement_status : Bool → ClusterAdvertisement → Event
  created_provider_instruction : Bool → ProviderInstruction → Event
  wrote_provider_instruction : Bool → ProviderInstruction → Event
  wrote_provider_instruction_status : Bool → ProviderInstruction → Event
  deleted_provider_instruction : Bool → ProviderInstruction → Event
  created_reservation_instruction : Bool → ReservationInstruction → Event
  wrote_reservation_instruction : Bool → ReservationInstruction → Event
  wrote_reservation_instruction_status : Bool → ReservationInstruction → Event
  deleted_reservation_instruction : Bool → ReservationInstruction → Event
  read_secret : String → Result String → Event
  created_secret : Bool → String → Event
  wrote_secret : Bool → String → Event
  deleted_secret : Bool → String → Event
  -- A request on the consumer's side.
  consumer : ConsumerEvent → Event
  -- A request of an agent.
  agent : AgentEvent → Event

pub record Run (W : Type 0) : Type 0 where
  pub world : W
  pub log : List Event

abbrev pub M : Type 0 → Type 0 → Type 0
M W A = Run W → Result A × Run W

module _ {W A : Type 0} where
  abbrev pub pure : A → M W A
  pure a s = (ok a, s)

  abbrev pub throw : ApiError → M W A
  throw e s = (err e, s)

  -- The error of an action as a value, for code that looks at it.
  abbrev pub attempt : M W A → M W (Result A)
  attempt m s = (ok (m s).0, (m s).1)

  -- A read that is not logged.
  abbrev pub query : Call W A → M W A
  query f s = ((f s.world).0, record s { world = (f s.world).1 })

  abbrev pub request : Call W A → (Result A → Event) → M W A
  request f e s = ((f s.world).0, record { world = (f s.world).1; log = e (f s.world).0 ∷ s.log })

module _ {W A B : Type 0} where
  infixl 10 ◌>>=◌ ◌>>◌
  abbrev pub ◌>>=◌ : M W A → (A → M W B) → M W B
  ◌>>=◌ m f s = elim (m s).0 [ ok a ↦ f a (m s).1 | err e ↦ (err e, (m s).1) ]

  abbrev pub ◌>>◌ : M W A → M W B → M W B
  m >> k = m >>= λ _. k

module _ {W : Type 0} (c : Client W) where
  -- time.Now().
  abbrev pub now : M W Time
  now s = (ok (c.now s.world).0, record s { world = (c.now s.world).1 })

  abbrev pub get_reservation : String → M W Reservation
  get_reservation name = request (c.get_reservation name) (read_reservation name)

  abbrev pub list_reservations : M W (List Reservation)
  list_reservations = request c.list_reservations listed_reservations

  abbrev pub create_reservation : Reservation → M W Reservation
  create_reservation x = request (c.create_reservation x) (λ a. created_reservation (accepted a) x)

  abbrev pub update_reservation : Reservation → M W Reservation
  update_reservation x = request (c.update_reservation x) (λ a. wrote_reservation (accepted a) x)

  abbrev pub update_reservation_status : Reservation → M W Reservation
  update_reservation_status x =
      request (c.update_reservation_status x) (λ a. wrote_reservation_status (accepted a) x)

  abbrev pub delete_reservation : Reservation → M W (Unit {0})
  delete_reservation x = request (c.delete_reservation x) (λ a. deleted_reservation (accepted a) x)

  abbrev pub get_advertisement : String → M W ClusterAdvertisement
  get_advertisement name = request (c.get_advertisement name) (read_advertisement name)

  abbrev pub update_advertisement_status : ClusterAdvertisement → M W ClusterAdvertisement
  update_advertisement_status x =
      request (c.update_advertisement_status x) (λ a. wrote_advertisement_status (accepted a) x)

  -- It answers with the object as stored, like a read.
  abbrev pub upsert_advertisement : AdvertisementSpec → M W ClusterAdvertisement
  upsert_advertisement spec =
      request (c.upsert_advertisement spec) (read_advertisement spec.cluster_id)

  abbrev pub get_provider_instruction : String → M W ProviderInstruction
  get_provider_instruction name = query (c.get_provider_instruction name)

  abbrev pub list_provider_instructions : M W (List ProviderInstruction)
  list_provider_instructions = query c.list_provider_instructions

  abbrev pub create_provider_instruction : ProviderInstruction → M W ProviderInstruction
  create_provider_instruction x =
      request (c.create_provider_instruction x) (λ a. created_provider_instruction (accepted a) x)

  abbrev pub update_provider_instruction : ProviderInstruction → M W ProviderInstruction
  update_provider_instruction x =
      request (c.update_provider_instruction x) (λ a. wrote_provider_instruction (accepted a) x)

  abbrev pub update_provider_instruction_status : ProviderInstruction → M W ProviderInstruction
  update_provider_instruction_status x =
      request (c.update_provider_instruction_status x)
        (λ a. wrote_provider_instruction_status (accepted a) x)

  abbrev pub delete_provider_instruction : ProviderInstruction → M W (Unit {0})
  delete_provider_instruction x =
      request (c.delete_provider_instruction x) (λ a. deleted_provider_instruction (accepted a) x)

  abbrev pub get_reservation_instruction : String → M W ReservationInstruction
  get_reservation_instruction name = query (c.get_reservation_instruction name)

  abbrev pub list_reservation_instructions : M W (List ReservationInstruction)
  list_reservation_instructions = query c.list_reservation_instructions

  abbrev pub create_reservation_instruction : ReservationInstruction → M W ReservationInstruction
  create_reservation_instruction x =
      request (c.create_reservation_instruction x)
        (λ a. created_reservation_instruction (accepted a) x)

  abbrev pub update_reservation_instruction : ReservationInstruction → M W ReservationInstruction
  update_reservation_instruction x =
      request (c.update_reservation_instruction x)
        (λ a. wrote_reservation_instruction (accepted a) x)

  abbrev pub update_reservation_instruction_status :
      ReservationInstruction → M W ReservationInstruction
  update_reservation_instruction_status x =
      request (c.update_reservation_instruction_status x)
        (λ a. wrote_reservation_instruction_status (accepted a) x)

  abbrev pub delete_reservation_instruction : ReservationInstruction → M W (Unit {0})
  delete_reservation_instruction x =
      request (c.delete_reservation_instruction x)
        (λ a. deleted_reservation_instruction (accepted a) x)

  abbrev pub get_secret : String → M W String
  get_secret name = request (c.get_secret name) (read_secret name)

  abbrev pub create_secret : String → String → M W (Unit {0})
  create_secret name value =
      request (c.create_secret name value) (λ a. created_secret (accepted a) name)

  abbrev pub update_secret : String → String → M W (Unit {0})
  update_secret name value =
      request (c.update_secret name value) (λ a. wrote_secret (accepted a) name)

  abbrev pub delete_secret : String → M W (Unit {0})
  delete_secret x = request (c.delete_secret x) (λ a. deleted_secret (accepted a) x)

  abbrev pub set_controller_reference :
      Reservation → ReservationInstruction → M W ReservationInstruction
  set_controller_reference resv ri s = (c.set_controller_reference resv ri, s)
