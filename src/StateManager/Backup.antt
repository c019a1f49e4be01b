-- ===== src/StateManager/Backup.antt =====
-- The settings that the backup registers keep.
use nano_vna_x.Base.{
  ℕ, ◌-◌, ◌/◌, ◌%◌, ◌^◌, ◌<◌, ◌≡◌, refl, ap, sym, subst, ◌∙◌, Bool, true, false, List, ◌==◌, arith,
  lt→ltb,
}
use nano_vna_x.Storage.Blocks.{config_valid, properties_valid}
use nano_vna_x.Storage.{
  Storage, ok, savearea_max, caldata_recall, config_recall, config_recall_impl,
}
use nano_vna_x.Storage.Recall.{recall-valid}
use nano_vna_x.StateManager.{
  Device, Limits, has_mode, vna_mode_backup, pack_backup, with_backup_mode, update_backup_data,
  set_bandwidth, load_sweep, load_backup, load_from, load_settings, load_default_properties,
  sanitize_rf_preferences,
}

-- The bit fields of a packed word.
unpack-pack :
    (points bw id leveler brightness : ℕ)
    → points < 2 ^ 9
    → bw < 2 ^ 9
    → id < 2 ^ 4
    → leveler < 2 ^ 3
    → brightness < 2 ^ 7
    → (pack_backup points bw id leveler brightness % 2 ^ 9 ≡ points)
      × (pack_backup points bw id leveler brightness / 2 ^ 9 % 2 ^ 9 ≡ bw)
      × (pack_backup points bw id leveler brightness / 2 ^ 18 % 2 ^ 4 ≡ id)
      × (pack_backup points bw id leveler brightness / 2 ^ 22 % 2 ^ 3 ≡ leveler)
      × (pack_backup points bw id leveler brightness / 2 ^ 25 % 2 ^ 7 ≡ brightness)
unfolding pack_backup
unpack-pack points bw id leveler brightness p b i l r =
    (omega arith, omega arith, omega arith, omega arith, omega arith)

with_backup_mode_self :
    (mode : ℕ)
    → mode < 2 ^ 16
    → (mode / 2 ^ vna_mode_backup % 2 == 1) ≡ true
    → with_backup_mode mode ≡ mode
unfolding with_backup_mode
with_backup_mode_self mode small on = ground arith

abbrev packed : Device → ℕ
packed d =
    pack_backup d.storage.current_props.sweep_points d.storage.config.bandwidth d.storage.lastsaveid
      d.storage.config.lever_mode d.storage.config.brightness

-- The settings that a word and four registers name.
abbrev pub HasSettings : (ℕ → ℕ) → Device → Type 0
HasSettings registers d =
    (registers 0
      ≡ pack_backup d.storage.current_props.sweep_points d.storage.config.bandwidth
          d.storage.lastsaveid d.storage.config.lever_mode d.storage.config.brightness)
    × (registers 1 ≡ d.storage.current_props.frequency0)
    × (registers 2 ≡ d.storage.current_props.frequency1)
    × (registers 3 ≡ d.storage.current_props.var_freq)
    × (registers 4 ≡ d.storage.config.vna_mode)

update_backup_data-HasSettings : (d : Device) → HasSettings (update_backup_data d).backup d
unfolding update_backup_data
update_backup_data-HasSettings d = (refl, refl, refl, refl, refl)

-- The fields are within their widths, the active slot is one of the area, and the backup is on.
pub record Fits (d : Device) : Type 0 where
  pub points : d.storage.current_props.sweep_points < 2 ^ 9
  pub some_points : 0 < d.storage.current_props.sweep_points
  pub bandwidth : d.storage.config.bandwidth < 2 ^ 9
  pub slot : d.storage.lastsaveid < savearea_max
  pub lever : d.storage.config.lever_mode < 2 ^ 3
  pub brightness : d.storage.config.brightness < 2 ^ 7
  pub mode : d.storage.config.vna_mode < 2 ^ 16
  pub on : has_mode d.storage.config ≡ true

unpacked :
    (d : Device)
    → Fits d
    → (packed d % 2 ^ 9 ≡ d.storage.current_props.sweep_points)
      × (packed d / 2 ^ 9 % 2 ^ 9 ≡ d.storage.config.bandwidth)
      × (packed d / 2 ^ 18 % 2 ^ 4 ≡ d.storage.lastsaveid)
      × (packed d / 2 ^ 22 % 2 ^ 3 ≡ d.storage.config.lever_mode)
      × (packed d / 2 ^ 25 % 2 ^ 7 ≡ d.storage.config.brightness)
unpacked d fits =
    unpack-pack d.storage.current_props.sweep_points d.storage.config.bandwidth d.storage.lastsaveid
      d.storage.config.lever_mode d.storage.config.brightness fits.points fits.bandwidth
      (omega arith) fits.lever fits.brightness

load_sweep-restores :
    (d : Device) (registers : ℕ → ℕ) (s : Storage)
    → Fits d
    → HasSettings registers d
    → s.initialized ≡ true
    → properties_valid (s.flash_slots d.storage.lastsaveid) ≡ true
    → ((load_sweep true registers s).current_props.sweep_points
        ≡ d.storage.current_props.sweep_points)
      × ((load_sweep true registers s).current_props.frequency0
          ≡ d.storage.current_props.frequency0)
      × ((load_sweep true registers s).current_props.frequency1
          ≡ d.storage.current_props.frequency1)
      × ((load_sweep true registers s).current_props.var_freq ≡ d.storage.current_props.var_freq)
      × ((load_sweep true registers s).lastsaveid ≡ d.storage.lastsaveid)
unfolding load_sweep
load_sweep-restores d registers s fits has ready valid =
    let (points, _, slot, _, _) = unpacked d fits in
    let at : registers 0 / 2 ^ 18 % 2 ^ 4 ≡ d.storage.lastsaveid =
      ap (λ w. w / 2 ^ 18 % 2 ^ 4) has.0 ∙ slot in
    let (status, _, last) = recall-valid d.storage.lastsaveid s ready fits.slot valid in
    let small = lt→ltb d.storage.lastsaveid savearea_max fits.slot in
    rw (at, small, status)
      (
        ap (λ w. w % 2 ^ 9) has.0 ∙ points,
        has.1,
        has.2,
        has.3,
        ap (λ k. (caldata_recall true k s).1.lastsaveid) at ∙ last,
      )

-- The settings of `d` at the device `r`.
abbrev pub SameSettings : Device → Device → Type 0
SameSettings r d =
    (r.storage.current_props.sweep_points ≡ d.storage.current_props.sweep_points)
    × (r.storage.current_props.frequency0 ≡ d.storage.current_props.frequency0)
    × (r.storage.current_props.frequency1 ≡ d.storage.current_props.frequency1)
    × (r.storage.current_props.var_freq ≡ d.storage.current_props.var_freq)
    × (r.storage.lastsaveid ≡ d.storage.lastsaveid)
    × (r.storage.config.bandwidth ≡ d.storage.config.bandwidth)
    × (r.storage.config.lever_mode ≡ d.storage.config.lever_mode)
    × (r.storage.config.brightness ≡ d.storage.config.brightness)
    × (r.storage.config.vna_mode ≡ d.storage.config.vna_mode)

load_backup-restores :
    (d r : Device)
    → Fits d
    → HasSettings r.backup d
    → r.storage.initialized ≡ true
    → properties_valid (r.storage.flash_slots d.storage.lastsaveid) ≡ true
    → SameSettings (load_backup true r) d
unfolding load_backup set_bandwidth update_backup_data
load_backup-restores d r fits has ready valid =
    let (points, f0, f1, var, last) =
      load_sweep-restores d r.backup r.storage fits has ready valid in
    let (_, bw, _, lever, bright) = unpacked d fits in
    let not_erased : (r.backup 4 == 2 ^ 32 - 1) ≡ false = ground (arith, has.4, fits.mode) in
    (
      points,
      f0,
      f1,
      var,
      last,
      omega (arith, ap (λ w. w / 2 ^ 9 % 2 ^ 9) has.0 ∙ bw, fits.bandwidth),
      ap (λ w. w / 2 ^ 22 % 2 ^ 3) has.0 ∙ lever,
      ap (λ w. w / 2 ^ 25 % 2 ^ 7) has.0 ∙ bright,
      rw not_erased (
          ap with_backup_mode has.4
          ∙ with_backup_mode_self d.storage.config.vna_mode fits.mode fits.on),
    )

config_recall-valid :
    (s : Storage)
    → s.initialized ≡ true
    → config_valid s.flash_config ≡ true
    → config_recall s ≡ (ok, record s { config = s.flash_config })
unfolding config_recall config_recall_impl
config_recall-valid s ready valid = ground arith

load_settings-backup :
    (l : Limits) (others : List ℕ) (r : Device) (t : Storage)
    → config_recall (load_default_properties others r.storage) ≡ (ok, t)
    → has_mode t.config ≡ true
    → (r.backup 0 == 0) ≡ false
    → load_settings l others true r
      ≡ load_backup true (record r { storage = sanitize_rf_preferences l t })
unfolding load_settings load_from
load_settings-backup l others r t recalled on some_word =
    ap (load_from l true r) recalled ∙ rw (on, some_word) refl

some_backup : (d : Device) → Fits d → ((update_backup_data d).backup 0 == 0) ≡ false
some_backup d fits =
    ground (arith, (update_backup_data-HasSettings d).0, (unpacked d fits).0, fits.some_points)

-- A device whose settings fit their fields, with the backup mode on and a slot of the area active,
-- updates the registers and loses its memory. If the flash holds a valid configuration with the
-- backup mode on and a valid block in that slot, then load_settings, whose recall gets the
-- semaphore, restores the sweep, the active slot, the bandwidth, the mode of the lever, the
-- brightness and the modes, whatever the memory held before.
pub load_settings-update_backup_data :
    (d : Device) (s : Storage) (l : Limits) (others : List ℕ) (dirty : Bool) (deadline last : ℕ)
    → Fits d
    → s.initialized ≡ true
    → config_valid s.flash_config ≡ true
    → has_mode s.flash_config ≡ true
    → properties_valid (s.flash_slots d.storage.lastsaveid) ≡ true
    → SameSettings
        (load_settings l others true (record {
          storage = s;
          backup = (update_backup_data d).backup;
          sweep_state_dirty = dirty;
          sweep_state_deadline = deadline;
          sweep_state_last_save = last;
        }))
        d
unfolding load_default_properties sanitize_rf_preferences
load_settings-update_backup_data d s l others dirty deadline last fits ready valid on slot =
    let r : Device = record {
      storage = s;
      backup = (update_backup_data d).backup;
      sweep_state_dirty = dirty;
      sweep_state_deadline = deadline;
      sweep_state_last_save = last;
    } in
    let start = load_default_properties others s in
    let read = record start { config = s.flash_config } in
    let clean = record r { storage = sanitize_rf_preferences l read } in
    let loaded =
      load_settings-backup l others r read (config_recall-valid start ready valid) on
        (some_backup d fits) in
    subst (λ x. SameSettings x d) (sym loaded)
      (load_backup-restores d clean fits (update_backup_data-HasSettings d) ready slot)
