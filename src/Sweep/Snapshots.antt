-- ===== src/Sweep/Snapshots.antt =====
-- src/rf/sweep.c and src/rf/measurement.c: the flags through which a reader of the last sweep and the
-- sweep itself keep out of one another's way. Each function locks the system and is one step.
pub mod Race
use nano_vna_x.Base.{
  ℕ, ◌+◌, ◌%◌, ◌^◌, ◌≡◌, Bool, true, false, Option, none, some, List, [], ◌∷◌, ltb, leb, ◌==◌, ◌||◌,
  not, if◌then◌else◌, u32,
}

pub record Service : Type 0 where
  pub sweep_in_progress : Bool
  pub sweep_copy_in_progress : Bool
  pub sweep_generation : ℕ
  pub sweep_cancel_request : Bool

-- What the snapshot keeps beside the pointer to the data of its channel.
pub record Snapshot : Type 0 where
  pub generation : ℕ
  pub points : ℕ
  pub channel : ℕ

unfoldable pub sweep_service_begin_measurement : Service → Service
sweep_service_begin_measurement s = record s {
  sweep_in_progress = true;
  sweep_cancel_request = false;
}

unfoldable pub sweep_service_end_measurement : Service → Service
sweep_service_end_measurement s = record s { sweep_in_progress = false }

unfoldable pub sweep_service_increment_generation : Service → Service
sweep_service_increment_generation s = record s { sweep_generation = u32 (s.sweep_generation + 1) }

-- One look of sweep_service_wait_for_copy_release: may it go on?
unfoldable pub copy_released : Service → Bool
copy_released s = not s.sweep_copy_in_progress

-- The loop of those looks, at the service that each finds: whether it ends. It has no timeout.
unfoldable pub sweep_service_wait_for_copy_release : List Service → Bool
unfolding copy_released
sweep_service_wait_for_copy_release [] = false
sweep_service_wait_for_copy_release (s ∷ looks) =
    let later = sweep_service_wait_for_copy_release looks in if copy_released s then true else later

-- One look of the loop of sweep_service_snapshot_acquire, for a sweep of `points` points.
unfoldable pub snapshot_look : ℕ → ℕ → Service → Option (Snapshot × Service)
snapshot_look channel points s =
    if s.sweep_in_progress || s.sweep_copy_in_progress
    then none
    else some (
      record { generation = s.sweep_generation; points = points; channel = channel },
      record s { sweep_copy_in_progress = true },
    )

-- The service at a look, and the ticks since the call.
pub record Look : Type 0 where
  pub service : Service
  pub elapsed : ℕ

-- The call: `none` is a loop that still waits, `some none` the result false. The timeout is in ticks.
unfoldable pub sweep_service_snapshot_acquire :
    ℕ → ℕ → ℕ → List Look → Option (Option (Snapshot × Service))
sweep_service_snapshot_acquire timeout channel points [] = if leb 2 channel then some none else none
sweep_service_snapshot_acquire timeout channel points (l ∷ looks) =
    let later = sweep_service_snapshot_acquire timeout channel points looks in
    if leb 2 channel then some none else elim (snapshot_look channel points l.service) [
      | some r ↦ some (some r)
      | none ↦ if leb timeout l.elapsed then some none else later
    ]

-- The result is whether the sweep is still the one that was acquired.
unfoldable pub sweep_service_snapshot_release : Option Snapshot → Service → Bool × Service
sweep_service_snapshot_release snapshot s = (
  elim snapshot [ none ↦ false | some snap ↦ snap.generation == s.sweep_generation ],
  record s { sweep_copy_in_progress = false },
)
