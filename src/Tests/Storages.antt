-- ===== src/Tests/Storages.antt =====
-- src/sys/config_service.c and src/sys/state_manager.c at small blocks.
use nano_vna_x.Base.{◌≡◌, refl, true, false, List, [], ◌∷◌, ◌==◌, arith, sub32}
use nano_vna_x.Storage.Blocks.{
  Config, Properties, config_valid, properties_valid, config_words, properties_words, checksum,
  checksum_from, ror31, seal_config, seal_properties,
}
use nano_vna_x.Storage.{
  Storage, ok, caldata_save, caldata_save_impl, caldata_recall, sem_wait, sem_signal,
}
use nano_vna_x.Storage.Calls.{
  StorageCall, saves_slot, recalls_slot, looks_up, edits_properties, run_calls,
}
use nano_vna_x.Storage.Sound.{IsSound, run_calls-IsSound}
use nano_vna_x.Storage.Recall.{caldata_recall-caldata_save, caldata_recall_damaged}
use nano_vna_x.StateManager.{
  Device, Limits, has_mode, autosave_min_gap, int32_lt, state_manager_service, update_backup_data,
  load_settings,
}
use nano_vna_x.StateManager.Autosave.{calibrated, state_manager_service_lost}
use nano_vna_x.StateManager.Backup.{SameSettings, load_settings-update_backup_data}

-- The backup mode is bit 5.
abbrev plain_config : Config
plain_config = record {
  magic = 0;
  harmonic_freq_threshold = 300000000;
  if_freq = 12000;
  vna_mode = 32;
  bandwidth = 7;
  lever_mode = 1;
  brightness = 70;
  others = 1 ∷ 2 ∷ [];
  check = 0;
}

abbrev plain_properties : Properties
plain_properties = record {
  magic = 0;
  frequency0 = 50000;
  frequency1 = 900000000;
  var_freq = 0;
  sweep_points = 401;
  others = [];
  check = 0;
}

abbrev own_storage : Storage
own_storage = record {
  flash_config = seal_config plain_config;
  flash_slots = λ id. seal_properties plain_properties;
  config = plain_config;
  current_props = plain_properties;
  checksum_ok = λ id. false;
  lastsaveid = 2;
  semaphore = 1;
  calibration_in_progress = false;
  initialized = true;
  has_bus = true;
  published = [];
}

-- Slots that are all zero.
abbrev zero_storage : Storage
zero_storage = record own_storage { flash_slots = λ id. plain_properties }

abbrev checked_storage : Storage
checked_storage = record own_storage { checksum_ok = λ id. id == 3 }

abbrev same_block : Properties → Properties
same_block p = p

-- A flash that loses the frequencies.
abbrev damaged_block : Properties → Properties
damaged_block p = record p { frequency0 = 0; frequency1 = 0 }

abbrev some_calls : List StorageCall
some_calls =
    edits_properties (record plain_properties { sweep_points = 101 })
    ∷ saves_slot true same_block 2
    ∷ looks_up 3
    ∷ recalls_slot true 2
    ∷ []

save_3 : (caldata_save true same_block 3 own_storage).0 ≡ ok
unfolding caldata_save caldata_save_impl sem_wait sem_signal
save_3 = refl

blocks_valid :
    (config_valid own_storage.flash_config ≡ true)
    × (properties_valid (own_storage.flash_slots 2) ≡ true)
    × (properties_valid (zero_storage.flash_slots 2) ≡ false)
    × (has_mode own_storage.flash_config ≡ true)
unfolding config_valid properties_valid config_words properties_words checksum checksum_from ror31
    seal_config seal_properties
blocks_valid = (refl, refl, refl, refl)

run_calls-IsSound_example : IsSound (run_calls own_storage some_calls)
run_calls-IsSound_example =
    run_calls-IsSound some_calls own_storage (tt, ((λ p. refl), (tt, (tt, tt)))) (λ id e. cc)

abbrev later_storage : Storage
later_storage = run_calls (caldata_save true same_block 3 own_storage).1 some_calls

caldata_recall-caldata_save_example :
    ((caldata_recall true 3 later_storage).0 ≡ ok)
    × ((caldata_recall true 3 later_storage).1.current_props ≡ seal_properties plain_properties)
    × ((caldata_recall true 3 later_storage).1.lastsaveid ≡ 3)
caldata_recall-caldata_save_example =
    caldata_recall-caldata_save 3 own_storage same_block some_calls (λ p. refl) save_3
      (tt, (omega arith, (tt, (tt, tt))))

caldata_recall_damaged_example :
    ((caldata_save true damaged_block 3 checked_storage).0 ≡ ok)
    × ((caldata_recall true 3 (caldata_save true damaged_block 3 checked_storage).1).0 ≡ ok)
    × ((caldata_recall true 3 (caldata_save true damaged_block 3 checked_storage).1).1.current_props
        ≡ damaged_block (seal_properties plain_properties))
caldata_recall_damaged_example =
    caldata_recall_damaged 3 checked_storage damaged_block refl refl (omega arith) refl

abbrev own_device : Device
own_device = record {
  storage = own_storage;
  backup = λ r. 0;
  sweep_state_dirty = true;
  sweep_state_deadline = 5;
  sweep_state_last_save = 4294867296;
}

abbrev calibrating_device : Device
calibrating_device = record own_device {
  storage = record own_storage { calibration_in_progress = true };
}

due_now :
    (int32_lt (sub32 400000 calibrating_device.sweep_state_deadline) 0 ≡ false)
    × (int32_lt (sub32 400000 calibrating_device.sweep_state_last_save) autosave_min_gap ≡ false)
unfolding int32_lt
due_now = (refl, refl)

state_manager_service_lost_example :
    ((state_manager_service true same_block 400000 calibrating_device).storage
      ≡ calibrating_device.storage)
    × (state_manager_service true same_block 900000
          (calibrated (state_manager_service true same_block 400000 calibrating_device))
        ≡ calibrated (state_manager_service true same_block 400000 calibrating_device))
state_manager_service_lost_example =
    state_manager_service_lost true true same_block same_block 400000 900000 calibrating_device refl
      refl refl due_now.0 due_now.1

abbrev own_limits : Limits
own_limits = record {
  frequency_min = 600;
  frequency_max = 2000000000;
  if_offset_min = 4000;
  if_offset_max = 96000;
}

-- A memory that is empty but for the flash.
abbrev restarted : Device
restarted = record {
  storage = record own_storage {
    config = record plain_config { vna_mode = 0; bandwidth = 0 };
    current_props = record plain_properties { frequency0 = 0; sweep_points = 0 };
    lastsaveid = 0;
  };
  backup = (update_backup_data own_device).backup;
  sweep_state_dirty = false;
  sweep_state_deadline = 0;
  sweep_state_last_save = 0;
}

load_settings-update_backup_data_example :
    SameSettings (load_settings own_limits [] true restarted) own_device
load_settings-update_backup_data_example =
    load_settings-update_backup_data own_device restarted.storage own_limits [] false 0 0
      (record {
        points = omega arith;
        some_points = omega arith;
        bandwidth = omega arith;
        slot = omega arith;
        lever = omega arith;
        brightness = omega arith;
        mode = omega arith;
        on = refl;
      })
      refl blocks_valid.0 blocks_valid.3 blocks_valid.1
