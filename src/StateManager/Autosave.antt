-- ===== src/StateManager/Autosave.antt =====
-- When the sweep settings are saved by themselves.
use nano_vna_x.Base.{ℕ, ◌≡◌, Bool, true, false, ◌&&◌, not, if◌then◌else◌, sub32, arith}
use nano_vna_x.Storage.Blocks.{Properties}
use nano_vna_x.Storage.{Storage, caldata_save}
use nano_vna_x.StateManager.{
  Device, active_calibration_slot, has_mode, autosave_min_gap, int32_lt, state_manager_service,
  state_manager_force_save,
}

-- A save of the current properties that falls due: what it leaves behind.
abbrev pub autosaved : Bool → (Properties → Properties) → ℕ → Device → Device
autosaved granted flashed now d =
    let slot = active_calibration_slot d.storage in
    record d {
      storage =
          if d.storage.calibration_in_progress
          then d.storage
          else (caldata_save granted flashed slot d.storage).1;
      sweep_state_dirty = false;
      sweep_state_last_save = now;
    }

-- The save reaches the flash.
abbrev pub writable : Bool → Storage → Bool
writable granted s = s.initialized && not s.calibration_in_progress && granted

service-clean :
    (granted : Bool) (flashed : Properties → Properties) (now : ℕ) (d : Device)
    → d.sweep_state_dirty ≡ false
    → state_manager_service granted flashed now d ≡ d
unfolding state_manager_service
service-clean granted flashed now d clean = ground arith

-- The calibration is over.
abbrev pub calibrated : Device → Device
calibrated d = record d { storage = record d.storage { calibration_in_progress = false } }

-- A save that falls due during a calibration is lost: the storage stays as it is, and once the
-- calibration is over no later call of the service saves anything.
pub state_manager_service_lost :
    (granted granted' : Bool) (flashed flashed' : Properties → Properties) (now now' : ℕ)
    (d : Device)
    → d.storage.calibration_in_progress ≡ true
    → has_mode d.storage.config ≡ true
    → d.sweep_state_dirty ≡ true
    → int32_lt (sub32 now d.sweep_state_deadline) 0 ≡ false
    → int32_lt (sub32 now d.sweep_state_last_save) autosave_min_gap ≡ false
    → ((state_manager_service granted flashed now d).storage ≡ d.storage)
      × (state_manager_service granted' flashed' now'
            (calibrated (state_manager_service granted flashed now d))
          ≡ calibrated (state_manager_service granted flashed now d))
unfolding state_manager_service state_manager_force_save
state_manager_service_lost granted granted' flashed flashed' now now' d busy on dirty due rested = (
  ground arith,
  service-clean granted' flashed' now' (calibrated (state_manager_service granted flashed now d))
      (ground arith),
)
