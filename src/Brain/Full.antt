-- ===== src/Brain/Full.antt =====
-- internal/agent/consumer/brain/full.go: the providers that the Broker refused for lack of capacity,
-- with times in nanoseconds. The lock is left out: each method is one step.
use federation_autoscaler.Base.{
  ℕ, ◌+◌, ◌≤◌, String, Bool, true, false, Option, none, some, List, [], ◌∷◌, ◌≡◌, refl, ap, ◌∙◌,
  arith, ltb, str_eq, if◌then◌else◌,
}

-- FullCooldown.
abbrev pub full_cooldown : ℕ
full_cooldown = 30_000_000_000

-- `until`.
abbrev pub FullProviders : Type 0
FullProviders = String → Option ℕ

abbrev pub no_marks : FullProviders
no_marks provider = none

unfoldable pub mark : ℕ → String → FullProviders → FullProviders
mark now provider until =
    λ other. if str_eq provider other then some (now + full_cooldown) else until other

-- Whether the error is the Broker's InsufficientCapacity refusal is told by client.go.
unfoldable pub mark_if_no_capacity : ℕ → String → Bool → FullProviders → Bool × FullProviders
mark_if_no_capacity now provider no_capacity until =
    if no_capacity then (true, mark now provider until) else (false, until)

abbrev pub live : ℕ → Option ℕ → Option ℕ
live now none = none
live now (some until) = if ltb now until then some until else none

abbrev pub is_marked : Option ℕ → Bool
is_marked none = false
is_marked (some until) = true

-- The marks that have not expired, and the table without the others.
unfoldable pub snapshot : ℕ → FullProviders → (String → Bool) × FullProviders
snapshot now until =
    (λ provider. is_marked (live now (until provider)), λ provider. live now (until provider))

-- The outcome of a reservation attempt, or a decision, each at its time.
pub data Step : Type 0 where
  attempted : ℕ → String → Bool → Step
  decided : ℕ → Step

abbrev pub time_of : Step → ℕ
time_of (attempted now provider no_capacity) = now
time_of (decided now) = now

-- The table after the steps, the newest first.
unfoldable pub after_steps : List Step → FullProviders
after_steps [] = no_marks
after_steps (attempted now provider no_capacity ∷ steps) =
    (mark_if_no_capacity now provider no_capacity (after_steps steps)).1
after_steps (decided now ∷ steps) = (snapshot now (after_steps steps)).1

-- When the provider was last refused for lack of capacity.
abbrev pub last_refusal : String → List Step → Option ℕ
last_refusal provider [] = none
last_refusal provider (attempted now other no_capacity ∷ steps) =
    let rest = last_refusal provider steps in
    if no_capacity then (if str_eq other provider then some now else rest) else rest
last_refusal provider (decided now ∷ steps) = last_refusal provider steps

-- No step is later than the time, and the clock never goes back.
abbrev pub IsBy : ℕ → List Step → Type 0
IsBy now [] = Unit
IsBy now (step ∷ steps) = (time_of step ≤ now) × IsBy (time_of step) steps

abbrev pub is_recent : ℕ → Option ℕ → Bool
is_recent now none = false
is_recent now (some refused) = ltb now (refused + full_cooldown)

later-IsBy : (t now : ℕ) (steps : List Step) → t ≤ now → IsBy t steps → IsBy now steps
later-IsBy t now [] h hs = tt
later-IsBy t now (step ∷ steps) h (k, ks) = (ground arith, ks)

live-live : (t now : ℕ) (o : Option ℕ) → t ≤ now → live now (live t o) ≡ live now o
live-live t now none h = refl
live-live t now (some until) h = ground arith

is_marked-live : (now until : ℕ) → is_marked (live now (some until)) ≡ ltb now until
is_marked-live now until = ground arith

-- While the clock does not go back, a decision takes a provider for full just where its last refusal
-- for lack of capacity is less than 30 seconds old, whatever other outcomes and decisions came
-- between.
pub snapshot_lem :
    (provider : String) (now : ℕ) (steps : List Step)
    → IsBy now steps
    → (snapshot now (after_steps steps)).0 provider ≡ is_recent now (last_refusal provider steps)
unfolding snapshot after_steps mark_if_no_capacity mark
snapshot_lem provider now [] h = refl
snapshot_lem provider now (attempted t other b ∷ steps) (h, hs) =
    by_refusal b (snapshot_lem provider now steps (later-IsBy t now steps h hs))
  where
    by_match :
        (same : Bool)
        → is_marked (live now (after_steps steps provider))
          ≡ is_recent now (last_refusal provider steps)
        → is_marked
            (live now (if same then some (t + full_cooldown) else after_steps steps provider))
          ≡ is_recent now (if same then some t else last_refusal provider steps)
    by_match true rest = is_marked-live now (t + full_cooldown)
    by_match false rest = rest

    by_refusal :
        (c : Bool)
        → is_marked (live now (after_steps steps provider))
          ≡ is_recent now (last_refusal provider steps)
        → is_marked (live now ((mark_if_no_capacity t other c (after_steps steps)).1 provider))
          ≡ is_recent now (last_refusal provider (attempted t other c ∷ steps))
    by_refusal true rest = by_match (str_eq other provider) rest
    by_refusal false rest = rest
snapshot_lem provider now (decided t ∷ steps) (h, hs) =
    ap is_marked (live-live t now (after_steps steps provider) h)
    ∙ snapshot_lem provider now steps (later-IsBy t now steps h hs)
