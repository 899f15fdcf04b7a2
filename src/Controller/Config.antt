-- ===== src/Controller/Config.antt =====
-- The settings of ReservationReconciler with their defaults, and the predicates on phases. Durations
-- are in nanoseconds.
use federation_autoscaler.Base.{Bool, true, false, if◌then◌else◌}
use federation_autoscaler.Base.Int.{ℤ, pos, pos_part, ltb_ℤ, ◌+ℤ◌, ◌-ℤ◌}
use federation_autoscaler.Api.{Time, ReservationPhase, peering, peered, released, expired, failed}

abbrev pub Duration : Type 0
Duration = ℤ

pub record Reconciler : Type 0 where
  pub terminal_ttl : Duration
  pub gk_resync_interval : Duration
  pub reservation_timeout : Duration

-- 15 minutes.
abbrev default_terminal_reservation_ttl : Duration
default_terminal_reservation_ttl = pos 900_000_000_000

-- 5 seconds.
abbrev default_gk_resync_interval : Duration
default_gk_resync_interval = pos 5_000_000_000

-- 24 hours.
abbrev default_reservation_timeout : Duration
default_reservation_timeout = pos 86_400_000_000_000

-- A setting that is not positive falls back to its default.
abbrev or_default : Duration → Duration → Duration
or_default d default = if ltb_ℤ (pos 0) d then d else default

unfoldable pub ttl : Reconciler → Duration
ttl r = or_default r.terminal_ttl default_terminal_reservation_ttl

unfoldable pub gk_resync : Reconciler → Duration
gk_resync r = or_default r.gk_resync_interval default_gk_resync_interval

unfoldable pub timeout : Reconciler → Duration
timeout r = or_default r.reservation_timeout default_reservation_timeout

-- time.Since(t) at the instant `now`.
abbrev pub since : Time → Time → Duration
since now t = pos now -ℤ pos t

-- t.Add(d).
abbrev pub later : Time → Duration → Time
later t d = pos_part (pos t +ℤ d)

unfoldable pub is_reservation_terminal : ReservationPhase → Bool
is_reservation_terminal released = true
is_reservation_terminal expired = true
is_reservation_terminal failed = true
is_reservation_terminal _ = false

unfoldable pub needs_consumer_cleanup : ReservationPhase → Bool
needs_consumer_cleanup peering = true
needs_consumer_cleanup peered = true
needs_consumer_cleanup _ = false
