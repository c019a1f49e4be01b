-- ===== src/Sweep/Snapshots/Race/Transform.antt =====
-- What a reader may see where the result is shown in the time domain.
use nano_vna_x.Base.{ℕ, true, false, some, List, if◌then◌else◌}
use nano_vna_x.Storage.{update}
use nano_vna_x.Sweep.Snapshots.{
  Snapshot, sweep_service_begin_measurement, sweep_service_end_measurement,
  sweep_service_increment_generation,
}
use nano_vna_x.Sweep.Snapshots.Race.{handling, System}

-- The data that a sweep of both channels leaves.
abbrev both : (ℕ → List ℕ) → (ℕ → List ℕ) → ℕ → List ℕ
both measured swept = update (update measured 0 (swept 0)) 1 (swept 1)

-- A complete sweep with no reader.
abbrev swept_system : System → (ℕ → List ℕ) → System
swept_system s swept = record s {
  phase = handling 0;
  measured = both s.measured swept;
  service = sweep_service_increment_generation (
      sweep_service_end_measurement
        (record (sweep_service_begin_measurement s.service) { sweep_in_progress = false }));
}

-- What app_measurement_transform_domain makes of a channel.
abbrev transformed : System → ℕ → ℕ → List ℕ
transformed s channel =
    if s.in_mask channel
    then update s.measured channel (s.transform (s.measured channel))
    else s.measured

-- The snapshot of a reader that comes between the count of a sweep and the handling.
abbrev snapped : System → ℕ → ℕ → Snapshot
snapped c channel points = record {
  generation = c.service.sweep_generation;
  points = points;
  channel = channel;
}

abbrev reading : System → ℕ → ℕ → System
reading c channel points = record c {
  service = record c.service { sweep_copy_in_progress = true };
  reader = some (snapped c channel points, c.measured channel);
}
