-- ===== src/Instructions/Wakeup.antt =====
-- instruction.go: when the controller looks at an instruction again.
use federation_autoscaler.Base.{Option, none, some, leb, if◌then◌else◌}
use federation_autoscaler.Base.Int.{pos, ltb_ℤ}
use federation_autoscaler.Api.{Time, InstructionStatus}
use federation_autoscaler.Controller.Config.{Duration, later, since}

-- 5 minutes.
abbrev default_enforced_ttl : Duration
default_enforced_ttl = pos 300_000_000_000

-- ttl() of either reconciler.
unfoldable pub enforced_ttl : Duration → Duration
enforced_ttl setting = if ltb_ℤ (pos 0) setting then setting else default_enforced_ttl

-- The instant that the controller waits for: the end of the grace period of an enforced instruction,
-- the deadline of another. Only one of the two is ever set.
unfoldable pub wake_at : Option Time → InstructionStatus → Duration → Option Time
wake_at expires_at status ttl =
    if status.enforced
    then (elim status.last_update_time [ none ↦ none | some t ↦ some (later t ttl) ])
    else expires_at

unfoldable pub instruction_wakeup : Time → Option Time → InstructionStatus → Duration → Duration
instruction_wakeup now expires_at status ttl = elim (wake_at expires_at status ttl) [
  | none ↦ pos 0
  | some wake ↦ if leb wake now then pos 0 else since wake now
]
