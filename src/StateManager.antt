-- ===== src/StateManager.antt =====
-- src/sys/state_manager.c: the settings that are restored at power-up, with the backup registers of
-- the clock, and the autosave of the sweep settings. The system time wraps at 2 ^ 32.
pub mod Autosave
pub mod Backup
use nano_vna_x.Base.{
  ℕ, ◌+◌, ◌-◌, ◌*◌, ◌/◌, ◌%◌, ◌^◌, Bool, true, false, Option, List, [], ◌∷◌, ltb, leb, ◌==◌, not,
  ◌&&◌, ◌||◌, if◌then◌else◌, sub32,
}
use nano_vna_x.Storage.Blocks.{Config, Properties, properties_magic}
use nano_vna_x.Storage.{
  Storage, Status, ok, failed, missing, savearea_max, no_save_slot, update, caldata_save,
  caldata_recall, config_recall,
}

-- SWEEP_STATE_AUTOSAVE_DELAY and SWEEP_STATE_AUTOSAVE_MIN_GAP, at 100000 ticks a second.
abbrev pub autosave_delay : ℕ
autosave_delay = 75000

abbrev pub autosave_min_gap : ℕ
autosave_min_gap = 300000

-- The bit VNA_MODE_BACKUP of `_vna_mode`, in a build without a serial console.
abbrev pub vna_mode_backup : ℕ
vna_mode_backup = 5

abbrev pub has_mode : Config → Bool
has_mode c = c.vna_mode / 2 ^ vna_mode_backup % 2 == 1

-- The state of this file, over the storage; `backup` are the registers that keep their value while
-- the device is off.
pub record Device : Type 0 where
  pub storage : Storage
  pub backup : ℕ → ℕ
  pub sweep_state_dirty : Bool
  pub sweep_state_deadline : ℕ
  pub sweep_state_last_save : ℕ

-- The bounds of a build.
pub record Limits : Type 0 where
  pub frequency_min : ℕ
  pub frequency_max : ℕ
  pub if_offset_min : ℕ
  pub if_offset_max : ℕ

unfoldable pub clamp_harmonic_threshold : Limits → ℕ → ℕ
clamp_harmonic_threshold l value =
    if ltb value l.frequency_min
    then l.frequency_min
    else if ltb l.frequency_max value
    then l.frequency_max
    else value

-- An int32_t, by its bits.
unfoldable pub clamp_if_offset : Limits → ℕ → ℕ
clamp_if_offset l offset =
    if leb (2 ^ 31) offset || ltb offset l.if_offset_min
    then l.if_offset_min
    else if ltb l.if_offset_max offset
    then l.if_offset_max
    else offset

unfoldable pub sanitize_rf_preferences : Limits → Storage → Storage
sanitize_rf_preferences l s = record s {
  config = record s.config {
    if_freq = clamp_if_offset l s.config.if_freq;
    harmonic_freq_threshold = clamp_harmonic_threshold l s.config.harmonic_freq_threshold;
  };
}

-- `others` are the words of the fields that are not read here.
unfoldable pub load_default_properties : List ℕ → Storage → Storage
load_default_properties others s = record s {
  current_props = record {
    magic = properties_magic;
    frequency0 = 50000;
    frequency1 = 900000000;
    var_freq = 0;
    sweep_points = 401;
    others = others;
    check = s.current_props.check;
  };
}

unfoldable pub active_calibration_slot : Storage → ℕ
active_calibration_slot s =
    if s.lastsaveid == no_save_slot || leb savearea_max s.lastsaveid then 0 else s.lastsaveid

-- The word of the bit fields of `backup_0`, the first field in the lowest bits.
unfoldable pub pack_backup : ℕ → ℕ → ℕ → ℕ → ℕ → ℕ
pack_backup points bw id leveler brightness =
    points % 2 ^ 9
    + bw % 2 ^ 9 * 2 ^ 9
    + id % 2 ^ 4 * 2 ^ 18
    + leveler % 2 ^ 3 * 2 ^ 22
    + brightness % 2 ^ 7 * 2 ^ 25

unfoldable pub update_backup_data : Device → Device
update_backup_data d =
    let props = d.storage.current_props in
    let config = d.storage.config in
    let word =
      pack_backup props.sweep_points config.bandwidth d.storage.lastsaveid config.lever_mode
        config.brightness in
    record d {
      backup =
          update
            (update (update (update (update d.backup 0 word) 1 props.frequency0) 2 props.frequency1)
              3 props.var_freq)
            4 config.vna_mode;
    }

-- set_bandwidth of src/runtime/runtime_entry.c; its request to redraw is left out.
unfoldable pub set_bandwidth : ℕ → Device → Device
set_bandwidth bw_count d = update_backup_data (record d {
  storage = record d.storage { config = record d.storage.config { bandwidth = bw_count % 2 ^ 9 } };
})

-- `_vna_mode | (1 << VNA_MODE_BACKUP)`, of 16 bits.
unfoldable pub with_backup_mode : ℕ → ℕ
with_backup_mode mode =
    let low = mode % 2 ^ 16 in
    if low / 2 ^ vna_mode_backup % 2 == 1 then low else low + 2 ^ vna_mode_backup

-- The sweep that the registers name, over the slot that they name or slot 0. The recall is told
-- whether it gets the semaphore.
unfoldable pub load_sweep : Bool → (ℕ → ℕ) → Storage → Storage
load_sweep granted registers s =
    let id = registers 0 / 2 ^ 18 % 2 ^ 4 in
    let (status, recalled) = caldata_recall granted id s in
    let named = record recalled {
      current_props = record recalled.current_props {
        sweep_points = registers 0 % 2 ^ 9;
        frequency0 = registers 1;
        frequency1 = registers 2;
        var_freq = registers 3;
      };
    } in
    if ltb id savearea_max
    then elim status [
      | ok ↦ named
      | failed ↦ (caldata_recall granted 0 recalled).1
      | missing ↦ (caldata_recall granted 0 recalled).1
    ]
    else (caldata_recall granted 0 s).1

unfoldable pub load_backup : Bool → Device → Device
load_backup granted d =
    let s = load_sweep granted d.backup d.storage in
    let mode = if d.backup 4 == 2 ^ 32 - 1 then s.config.vna_mode else d.backup 4 in
    set_bandwidth (d.backup 0 / 2 ^ 9 % 2 ^ 9) (record d {
      storage = record s {
        config = record s.config {
          brightness = d.backup 0 / 2 ^ 25 % 2 ^ 7;
          lever_mode = d.backup 0 / 2 ^ 22 % 2 ^ 3;
          vna_mode = with_backup_mode mode;
        };
      };
    })

-- The settings, once the configuration has been recalled or not.
unfoldable pub load_from : Limits → Bool → Device → Status × Storage → Device
load_from l granted d (ok, s) =
    let clean = record d { storage = sanitize_rf_preferences l s } in
    if has_mode s.config
    then if d.backup 0 == 0
      then record clean { storage = (caldata_recall granted 0 clean.storage).1 }
      else load_backup granted clean
    else record d { storage = sanitize_rf_preferences l (caldata_recall granted 0 s).1 }
load_from l granted d (failed, s) = record d {
  storage = sanitize_rf_preferences l (caldata_recall granted 0 s).1;
}
load_from l granted d (missing, s) = record d {
  storage = sanitize_rf_preferences l (caldata_recall granted 0 s).1;
}

-- The update of the frequencies and of the measure mode, at the end, is left out.
unfoldable pub load_settings : Limits → List ℕ → Bool → Device → Device
load_settings l others granted d =
    load_from l granted d (config_recall (load_default_properties others d.storage))

unfoldable pub state_manager_mark_dirty : ℕ → Device → Device
state_manager_mark_dirty now d = record d {
  sweep_state_dirty = true;
  sweep_state_deadline = (now + autosave_delay) % 2 ^ 32;
}

unfoldable pub state_manager_force_save : Bool → (Properties → Properties) → ℕ → Device → Device
state_manager_force_save granted flashed now d =
    let s = d.storage in
    let slot = active_calibration_slot s in
    let saved = (caldata_save granted flashed slot s).1 in
    record d {
      storage = if s.calibration_in_progress then s else saved;
      sweep_state_dirty = false;
      sweep_state_last_save = now;
    }

-- (int32_t)x < bound, for a bound below 2 ^ 31.
unfoldable pub int32_lt : ℕ → ℕ → Bool
int32_lt x bound = leb (2 ^ 31) x || ltb x bound

unfoldable pub state_manager_service : Bool → (Properties → Properties) → ℕ → Device → Device
state_manager_service granted flashed now d =
    if not (has_mode d.storage.config) || not d.sweep_state_dirty
    then d
    else if int32_lt (sub32 now d.sweep_state_deadline) 0
    then d
    else if int32_lt (sub32 now d.sweep_state_last_save) autosave_min_gap
    then d
    else state_manager_force_save granted flashed now d
