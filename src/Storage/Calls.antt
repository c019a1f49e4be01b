-- ===== src/Storage/Calls.antt =====
-- The calls of the service and what else changes its state, as steps.
use nano_vna_x.Base.{ℕ, Bool, List, [], ◌∷◌}
use nano_vna_x.Storage.Blocks.{Config, Properties}
use nano_vna_x.Storage.{
  Storage, config_save, config_recall, caldata_save, caldata_recall, get_properties,
  clear_all_config_prop_data, config_service_notify_configuration_changed,
}

-- The first six are calls of the service; the last three are what the rest of the firmware does to
-- the globals.
pub data StorageCall : Type 0 where
  saves_config : Bool → (Config → Config) → StorageCall
  recalls_config : StorageCall
  saves_slot : Bool → (Properties → Properties) → ℕ → StorageCall
  recalls_slot : Bool → ℕ → StorageCall
  looks_up : ℕ → StorageCall
  erases : Bool → Config → Properties → StorageCall
  notifies : StorageCall
  edits_config : Config → StorageCall
  edits_properties : Properties → StorageCall
  calibrates : Bool → StorageCall

abbrev pub after_call : Storage → StorageCall → Storage
after_call s (saves_config granted flashed) = (config_save granted flashed s).1
after_call s recalls_config = (config_recall s).1
after_call s (saves_slot granted flashed id) = (caldata_save granted flashed id s).1
after_call s (recalls_slot granted id) = (caldata_recall granted id s).1
after_call s (looks_up id) = (get_properties id s).1
after_call s (erases granted ec e) = clear_all_config_prop_data granted ec e s
after_call s notifies = config_service_notify_configuration_changed s
after_call s (edits_config c) = record s { config = c }
after_call s (edits_properties p) = record s { current_props = p }
after_call s (calibrates b) = record s { calibration_in_progress = b }

unfoldable pub run_calls : Storage → List StorageCall → Storage
run_calls s [] = s
run_calls s (c ∷ cs) = run_calls (after_call s c) cs
