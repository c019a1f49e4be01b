-- ===== src/Sweep/Snapshots/Race.antt =====
-- src/rf/measurement.c: `measurement_engine_tick` beside a reader, in every interleaving. The data is
-- written by the sweep, which the tick calls through src/rf/pipeline.c, and which a command or a
-- calibration calls in the service loop; by the pipeline, after a complete sweep, where the port is
-- not that of the calibration; by app_measurement_handle_result of src/runtime/runtime_entry.c, where
-- the result is shown in the time domain; and by load_snp of src/ui/menus/menu_storage.c, which the
-- service loop runs when the user loads a file of data.
pub mod Guarded
pub mod Transform
use nano_vna_x.Base.{
  ℕ, ◌+◌, ◌%◌, ◌^◌, ◌≡◌, refl, sym, subst, Bool, true, false, Option, none, some, List, [], ◌∷◌,
  leb, ◌==◌, ◌||◌, not, if◌then◌else◌, u32, arith,
}
use nano_vna_x.Storage.{update}
use nano_vna_x.Sweep.Snapshots.{
  Service, Snapshot, sweep_service_begin_measurement, sweep_service_end_measurement,
  sweep_service_increment_generation, copy_released, snapshot_look, sweep_service_snapshot_release,
}

-- Where measurement_engine_tick stands: before its wait for a reader, its service loop included,
-- before it begins, in the sweep's own wait, in the sweep, behind it, before it counts a complete
-- sweep, and where the result is handled, by the channel that comes next. The flag of a sweep is
-- whether the tick began it, and not its service loop.
pub data Phase : Type 0 where
  idle waited ended : Phase
  begun : Bool → Phase
  sweeping : Bool → Phase
  returned : Bool → Phase
  handling : ℕ → Phase

-- `measured` is what the data of each channel holds, and a reader has its snapshot with what the data
-- of the channel held when it was acquired. The settings are whether the pipeline renormalizes,
-- whether the result is shown in the time domain, which channels are in the mask of the sweep, and
-- whether files of data are loaded; `transform` is what app_measurement_transform_domain makes of the
-- data of a channel, in floating point.
pub record System : Type 0 where
  pub service : Service
  pub phase : Phase
  pub measured : ℕ → List ℕ
  pub renormalizes : Bool
  pub time_domain : Bool
  pub in_mask : ℕ → Bool
  pub loads_files : Bool
  pub transform : List ℕ → List ℕ
  pub reader : Option (Snapshot × List ℕ)

pub data Step : System → System → Type 0 where
  loads :
      (s : System) (channel : ℕ) (block : List ℕ)
      → s.phase ≡ idle
      → s.loads_files ≡ true
      → Step s (record s { measured = update s.measured channel block })
  calls_sweep :
      (s : System)
      → s.phase ≡ idle
      → Step s (record s {
        phase = begun false;
        service = record s.service { sweep_in_progress = true };
      })
  waits :
      (s : System)
      → s.phase ≡ idle
      → copy_released s.service ≡ true
      → Step s (record s { phase = waited })
  begins :
      (s : System)
      → s.phase ≡ waited
      → Step s
          (record s { phase = begun true; service = sweep_service_begin_measurement s.service })
  sweep_waits :
      (s : System) (ticks : Bool)
      → s.phase ≡ begun ticks
      → copy_released s.service ≡ true
      → Step s (record s { phase = sweeping ticks })
  writes :
      (s : System) (ticks : Bool) (channel : ℕ) (block : List ℕ)
      → s.phase ≡ sweeping ticks
      → Step s (record s { measured = update s.measured channel block })
  sweep_returns :
      (s : System) (ticks completed : Bool)
      → s.phase ≡ sweeping ticks
      → Step s (record s {
        phase = if ticks then returned completed else idle;
        service = record s.service { sweep_in_progress = false };
      })
  renormalizes :
      (s : System) (block : List ℕ)
      → s.phase ≡ returned true
      → s.renormalizes ≡ true
      → Step s (record s { measured = update s.measured 0 block })
  ends :
      (s : System) (completed : Bool)
      → s.phase ≡ returned completed
      → Step s (record s {
        phase = if completed then ended else idle;
        service = sweep_service_end_measurement s.service;
      })
  counts :
      (s : System)
      → s.phase ≡ ended
      → Step s
          (record s { phase = handling 0; service = sweep_service_increment_generation s.service })
  transforms :
      (s : System) (channel : ℕ)
      → s.phase ≡ handling channel
      → leb 2 channel ≡ false
      → s.time_domain ≡ true
      → Step s (record s {
        phase = handling (channel + 1);
        measured =
            if s.in_mask channel
            then update s.measured channel (s.transform (s.measured channel))
            else s.measured;
      })
  handles :
      (s : System) (channel : ℕ)
      → s.phase ≡ handling channel
      → (leb 2 channel || not s.time_domain) ≡ true
      → Step s (record s { phase = idle })
  cancels :
      (s : System)
      → Step s (record s { service = record s.service { sweep_cancel_request = true } })
  acquires :
      (s : System) (channel points : ℕ) (snap : Snapshot) (service : Service)
      → s.reader ≡ none
      → leb 2 channel ≡ false
      → snapshot_look channel points s.service ≡ some (snap, service)
      → Step s (record s { service = service; reader = some (snap, s.measured channel) })
  releases :
      (s : System) (snap : Snapshot) (seen : List ℕ)
      → s.reader ≡ some (snap, seen)
      → Step s (record s {
        service = (sweep_service_snapshot_release (some snap) s.service).1;
        reader = none;
      })

pub data Reach (s : System) : System → Type 0 where
  here : Reach s s
  next : {t u : System} → Reach s t → Step t u → Reach s u

-- The data that a reader has acquired is as it was then.
abbrev pub Unchanged : Option (Snapshot × List ℕ) → (ℕ → List ℕ) → Type 0
Unchanged none measured = Unit
Unchanged (some (snap, seen)) measured = measured snap.channel ≡ seen

-- Nothing runs: no sweep has begun and nobody reads.
abbrev pub IsQuiet : System → Type 0
IsQuiet s =
    (s.phase ≡ idle)
    × (s.reader ≡ none)
    × (s.service.sweep_in_progress ≡ false)
    × (s.service.sweep_copy_in_progress ≡ false)

-- Nothing but a sweep writes: the pipeline does not renormalize, the result is not shown in the time
-- domain, and no file of data is loaded.
abbrev pub IsPlain : System → Type 0
IsPlain s = (s.renormalizes ≡ false) × (s.time_domain ≡ false) × (s.loads_files ≡ false)
