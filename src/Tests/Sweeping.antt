-- ===== src/Tests/Sweeping.antt =====
-- src/rf/sweep.c at a small sweep, a capture of two cycles, and a reader of the last sweep.
use nano_vna_x.Base.{ℕ, ◌-◌, ◌≡◌, refl, true, false, none, some, List, [], ◌∷◌, length, arith}
use nano_vna_x.Sweep.Frequencies.{app_measurement_set_frequencies, get_frequency}
use nano_vna_x.Sweep.Frequencies.Table as Table
use nano_vna_x.Sweep.Frequencies.Laws.{table-get_frequency}
use nano_vna_x.Sweep.Capture.{Capture, Interrupt, sweep_service_start_capture, run_interrupts}
use nano_vna_x.Sweep.Capture.Laws.{ready_halves, taken_in, start_capture-run_interrupts}
use nano_vna_x.Sweep.Snapshots.{
  Snapshot, snapshot_look, copy_released, sweep_service_begin_measurement,
}
use nano_vna_x.Sweep.Snapshots.Race.{
  System, idle, waited, begun, Reach, here, next, waits, begins, acquires, Unchanged,
}
use nano_vna_x.Sweep.Snapshots.Race.Guarded.{Reach-Unchanged}

table-get_frequency_example :
    Table.get_frequency (Table.app_measurement_set_frequencies 101 50000 900000000 51) 17
    ≡ get_frequency (app_measurement_set_frequencies 50000 900000000 51) 17
table-get_frequency_example =
    table-get_frequency 101 50000 900000000 51 17 (omega arith) (omega arith) (omega arith)
      (omega arith)

abbrev two_cycles : Capture
two_cycles = record { ready_time = 0; wait_count = 0; bandwidth = 1 }

-- The first interrupt comes before the generator has settled.
abbrev interrupts : List Interrupt
interrupts =
    record { time = 104; half = 0 }
    ∷ record { time = 105; half = 1 }
    ∷ record { time = 106; half = 0 }
    ∷ record { time = 107; half = 1 }
    ∷ record { time = 108; half = 0 }
    ∷ []

start_capture-run_interrupts_example :
    ((run_interrupts interrupts (sweep_service_start_capture 100 5 two_cycles)).1
      ≡ taken_in 3 3 (ready_halves 105 interrupts))
    × ((run_interrupts interrupts (sweep_service_start_capture 100 5 two_cycles)).0.wait_count
        ≡ 3 - length (ready_halves 105 interrupts))
start_capture-run_interrupts_example =
    start_capture-run_interrupts 100 5 two_cycles interrupts (omega arith) (omega arith)

abbrev quiet : System
quiet = record {
  service = record {
    sweep_in_progress = false;
    sweep_copy_in_progress = false;
    sweep_generation = 4;
    sweep_cancel_request = false;
  };
  phase = idle;
  measured = λ channel. 1 ∷ 2 ∷ [];
  renormalizes = false;
  time_domain = false;
  in_mask = λ channel. true;
  loads_files = false;
  transform = λ block. 7 ∷ block;
  reader = none;
}

abbrev snap : Snapshot
snap = record { generation = 4; points = 2; channel = 0 }

abbrev waiting : System
waiting = record quiet { phase = waited }

abbrev reading : System
reading = record waiting {
  service = record quiet.service { sweep_copy_in_progress = true };
  reader = some (snap, quiet.measured 0);
}

-- A reader gets in between the wait and the begin.
read_between : Reach quiet (record reading {
  phase = begun true;
  service = sweep_service_begin_measurement reading.service;
})
unfolding copy_released snapshot_look
read_between =
    next
      (next (next here (waits quiet refl refl))
        (acquires waiting 0 2 snap reading.service refl refl refl))
      (begins reading refl)

Reach-Unchanged_example : Unchanged (some (snap, quiet.measured 0)) quiet.measured
Reach-Unchanged_example = Reach-Unchanged (refl, refl, refl, refl) (refl, refl, refl) read_between

abbrev quiet_time : System
quiet_time = record quiet { time_domain = true }

-- What a sweep leaves.
abbrev swept : ℕ → List ℕ
swept channel = channel ∷ 5 ∷ 6 ∷ []
