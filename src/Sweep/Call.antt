-- ===== src/Sweep/Call.antt =====
-- src/rf/sweep.c: a call of app_measurement_sweep with its wait for a reader of the last sweep.
use nano_vna_x.Base.{ℕ, Bool, Option, none, List, if◌then◌else◌}
use nano_vna_x.Sweep.Port.{Float}
use nano_vna_x.Sweep.State.{Settings, Input, Machine}
use nano_vna_x.Sweep.Snapshots.{Service, sweep_service_wait_for_copy_release}
use nano_vna_x.Sweep.{enter, behind_wait}

module _ (fp : Float) where
  -- The wait has the looks at the flags that it makes; a call whose wait does not end in them has no
  -- result.
  unfoldable pub app_measurement_sweep :
      ℕ
      → Settings fp
      → (ℕ → Input fp)
      → List Service
      → Bool
      → ℕ
      → Machine fp
      → Option (Bool × Machine fp)
  app_measurement_sweep fuel cfg inputs looks break_on_operation mask m =
      let entered = enter fp cfg break_on_operation mask (inputs 0) m in
      let later = behind_wait fp fuel cfg inputs break_on_operation mask entered in
      if sweep_service_wait_for_copy_release looks then later else none
