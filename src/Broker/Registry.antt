-- ===== src/Broker/Registry.antt =====
-- What a heartbeat makes of the registry of consumers.
use federation_autoscaler.Base.{
  ℕ, String, Bool, true, false, not, Option, none, some, List, [], ◌∷◌, ◌≡◌, ◌≢◌, ◌⊎◌, ◌↔◌, subst,
  inl, inr, refl, ap, ◌∙◌, str_eq, eq_iff, eq_refl, if◌then◌else◌, arith,
}
use federation_autoscaler.Api.{Time}
use federation_autoscaler.Broker.Heartbeats.{
  HeartbeatRequest, ConsumerEntry, ConsumerRegistry, lookup_consumer, put_entry, with_decision,
  set_decision, located, touch_consumer, policy_of, registered, handle_heartbeat,
  validate_heartbeat_request,
}

module _ {F P : Type 0} where
  -- The assignment to a key is read back at that key alone.
  lookup_consumer-put_entry :
      (id key : String) (entry : ConsumerEntry F P) (reg : ConsumerRegistry F P)
      → lookup_consumer id (put_entry key entry reg)
        ≡ (if str_eq key id then some entry else lookup_consumer id reg)
  unfolding lookup_consumer put_entry
  lookup_consumer-put_entry id key entry [] = refl
  lookup_consumer-put_entry id key entry ((k, old) ∷ reg) =
      by_test (str_eq k key) (eq_iff k key) (eq_iff k id) (eq_iff key id)
        (lookup_consumer-put_entry id key entry reg)
    where
      by_test :
          (b : Bool)
          → ((b ≡ true) ↔ (k ≡ key))
          → ((str_eq k id ≡ true) ↔ (k ≡ id))
          → ((str_eq key id ≡ true) ↔ (key ≡ id))
          → lookup_consumer id (put_entry key entry reg)
            ≡ (if str_eq key id then some entry else lookup_consumer id reg)
          → lookup_consumer id (if b then (k, entry) ∷ reg else (k, old) ∷ put_entry key entry reg)
            ≡ (if str_eq key id
                then some entry
                else if str_eq k id
                then some old
                else lookup_consumer id reg)
      by_test true h i j rest = ground arith
      by_test false h i j rest = ground arith

  lookup_consumer-set_decision :
      (id key : String) (rtts : List (String × F)) (chosen decided_by : String)
      (entry : ConsumerEntry F P) (reg : ConsumerRegistry F P)
      → lookup_consumer key reg ≡ some entry
      → lookup_consumer id (set_decision key rtts chosen decided_by reg) ≡ (
          if str_eq key id
          then some (with_decision rtts chosen decided_by entry)
          else lookup_consumer id reg)
  unfolding set_decision
  lookup_consumer-set_decision id key rtts chosen decided_by entry reg h =
      by_found (lookup_consumer key reg) h
    where
      by_found :
          (found : Option (ConsumerEntry F P))
          → found ≡ some entry
          → lookup_consumer id (elim found [
            | none ↦ reg
            | some e ↦ put_entry key (with_decision rtts chosen decided_by e) reg
          ])
            ≡ (if str_eq key id
                then some (with_decision rtts chosen decided_by entry)
                else lookup_consumer id reg)
      by_found none e = absurd (cc)
      by_found (some x) e =
          let same : x ≡ entry = cc in
          lookup_consumer-put_entry id key (with_decision rtts chosen decided_by x) reg
          ∙ ap
              (λ y.
                if str_eq key id
                then some (with_decision rtts chosen decided_by y)
                else lookup_consumer id reg)
              same

  -- A decision on an entry that has just been assigned.
  lookup_consumer-set_decision-put_entry :
      (id key : String) (rtts : List (String × F)) (chosen decided_by : String)
      (entry : ConsumerEntry F P) (reg : ConsumerRegistry F P)
      → lookup_consumer id (set_decision key rtts chosen decided_by (put_entry key entry reg)) ≡ (
          if str_eq key id
          then some (with_decision rtts chosen decided_by entry)
          else lookup_consumer id reg)
  lookup_consumer-set_decision-put_entry id key rtts chosen decided_by entry reg =
      let there = lookup_consumer-put_entry key key entry reg in
      let own = eq_refl key in
      let found : lookup_consumer key (put_entry key entry reg) ≡ some entry = ground arith in
      let decided =
        lookup_consumer-set_decision id key rtts chosen decided_by entry (put_entry key entry reg)
          found in
      let elsewhere = lookup_consumer-put_entry id key entry reg in ground arith

  module _ (zero_float : F) (no_policy : P) where
    -- The entry that a heartbeat at `now` reports: a location is one of both coordinates.
    abbrev pub reported : HeartbeatRequest F P → Time → ConsumerEntry F P
    reported req now = located zero_float no_policy req.latitude req.longitude (record {
      cluster_id = req.cluster_id;
      liqo_cluster_id = req.liqo_cluster_id;
      last_seen = now;
      placement = policy_of zero_float no_policy req.placement;
      region = req.region;
      city = req.city;
      measured_latencies = req.measured_latencies;
      chosen_provider = req.chosen_provider;
      decided_by = req.decided_by;
      latitude = zero_float;
      longitude = zero_float;
      has_location = false;
    })

    -- The map that the registry is, with one entry assigned.
    abbrev pub HasAssigned :
        String → ConsumerEntry F P → ConsumerRegistry F P → ConsumerRegistry F P → Type 0
    HasAssigned key entry before after =
        (id : String)
        → lookup_consumer id after
          ≡ (if str_eq key id then some entry else lookup_consumer id before)

    located-with_decision :
        (lat lon : Option F) (rtts : List (String × F)) (chosen decided_by : String)
        (entry : ConsumerEntry F P)
        → with_decision rtts chosen decided_by (located zero_float no_policy lat lon entry)
          ≡ located zero_float no_policy lat lon (with_decision rtts chosen decided_by entry)
    located-with_decision (some lat) (some lon) rtts chosen decided_by entry = refl
    located-with_decision (some lat) none rtts chosen decided_by entry = refl
    located-with_decision none lon rtts chosen decided_by entry = refl

    registered-HasAssigned :
        (req : HeartbeatRequest F P) (now : Time) (reg : ConsumerRegistry F P)
        → HasAssigned req.cluster_id
            (reported req now)
            reg
            (registered zero_float no_policy req now reg)
    unfolding registered touch_consumer
    registered-HasAssigned req now reg id =
        lookup_consumer-set_decision-put_entry id req.cluster_id req.measured_latencies
          req.chosen_provider req.decided_by _ reg
        ∙ ap (λ entry. if str_eq req.cluster_id id then some entry else lookup_consumer id reg)
            (located-with_decision req.latitude req.longitude req.measured_latencies
              req.chosen_provider req.decided_by _)

    -- What the answer says of the registry.
    abbrev pub HasRegistered :
        String
        → HeartbeatRequest F P
        → Time
        → ConsumerRegistry F P
        → ℕ × ConsumerRegistry F P
        → Type 0
    HasRegistered caller req now before (status, after) =
        ((status ≢ 200) × (after ≡ before))
        ⊎ ((status ≡ 200)
            × (req.cluster_id ≡ caller)
            × (req.liqo_cluster_id ≢ "")
            × HasAssigned caller (reported req now) before after)

    validate_heartbeat_request-named :
        (req : HeartbeatRequest F P)
        → validate_heartbeat_request req ≡ true
        → str_eq req.liqo_cluster_id "" ≡ false
    unfolding validate_heartbeat_request
    validate_heartbeat_request-named req h = ground arith

    -- By the outcome of the two checks.
    checked-HasRegistered :
        (caller : String) (req : HeartbeatRequest F P) (now : Time) (reg : ConsumerRegistry F P)
        (valid own : Bool)
        → (valid ≡ true → str_eq req.liqo_cluster_id "" ≡ false)
        → (own ≡ true → req.cluster_id ≡ caller)
        → HasRegistered caller req now reg (
            if not valid
            then (400, reg)
            else if not own
            then (403, reg)
            else (200, registered zero_float no_policy req now reg))
    checked-HasRegistered caller req now reg false own named same =
        inl (λ e. absurd (omega arith), refl)
    checked-HasRegistered caller req now reg true false named same =
        inl (λ e. absurd (omega arith), refl)
    checked-HasRegistered caller req now reg true true named same =
        let some_name : req.liqo_cluster_id ≢ "" = λ e.
          let named_by = named refl in
          let same_name = (eq_iff req.liqo_cluster_id "").1 e in ground arith in
        inr (
          refl,
          same refl,
          some_name,
          subst
              (λ key.
                HasAssigned key (reported req now) reg
                  (registered zero_float no_policy req now reg))
              (same refl) (registered-HasAssigned req now reg),
        )

    -- A heartbeat is refused and the registry stays as it is; or it is answered by 200, the request
    -- is of the caller and names a Liqo identity, and the entry of the caller alone is now the one
    -- that the request reports.
    pub handle_heartbeat-HasRegistered :
        (caller : String) (req : HeartbeatRequest F P) (now : Time) (reg : ConsumerRegistry F P)
        → HasRegistered caller req now reg
            (handle_heartbeat zero_float no_policy caller req now reg)
    unfolding handle_heartbeat
    handle_heartbeat-HasRegistered caller req now reg =
        checked-HasRegistered caller req now reg (validate_heartbeat_request req)
          (str_eq req.cluster_id caller) (validate_heartbeat_request-named req)
          (eq_iff req.cluster_id caller).0
