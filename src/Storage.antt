-- ===== src/Storage.antt =====
-- src/sys/config_service.c: the configuration and the calibration slots in the flash.
-- A call that waits for the semaphore is told whether it gets it, and a call that programs the flash
-- what the flash makes of the block, which is the block itself where the flash works.
pub mod Blocks
pub mod Checksum
pub mod Calls
pub mod Sound
pub mod Recall
use nano_vna_x.Base.{
  ℕ, ◌+◌, ◌-◌, Bool, true, false, Option, none, some, List, [], ◌∷◌, ◌++◌, ltb, leb, ◌==◌, not,
  if◌then◌else◌,
}
use nano_vna_x.EventBus.{Topic, storage_updated, configuration_changed, topic_discrete, Message}
use mathlib.Core.Logic.{ite}
use Blocks.{Config, Properties, config_valid, properties_valid, seal_config, seal_properties}

-- SAVEAREA_MAX of the STM32F303, and NO_SAVE_SLOT.
abbrev pub savearea_max : ℕ
savearea_max = 7

abbrev pub no_save_slot : ℕ
no_save_slot = 65535

-- The flash, the static variables, and the globals that the service reads. `checksum_ok` are the
-- bits of the variable of this name, and `published` the topics that are published.
pub record Storage : Type 0 where
  pub flash_config : Config
  pub flash_slots : ℕ → Properties
  pub config : Config
  pub current_props : Properties
  pub checksum_ok : ℕ → Bool
  pub lastsaveid : ℕ
  pub semaphore : ℕ
  pub calibration_in_progress : Bool
  pub initialized : Bool
  pub has_bus : Bool
  pub published : List Topic

-- A map, changed at one key.
abbrev pub update {ℓ} : {A : Type ℓ} → (ℕ → A) → ℕ → A → ℕ → A
update f k a j = if j == k then a else f j

-- chSemWaitTimeout, and chSemSignal.
unfoldable pub sem_wait : Bool → Storage → Storage
sem_wait granted s = if granted then record s { semaphore = s.semaphore - 1 } else s

unfoldable pub sem_signal : Storage → Storage
sem_signal s = record s { semaphore = s.semaphore + 1 }

unfoldable pub publish_topic : Topic → Storage → Storage
publish_topic topic s = if s.has_bus then record s { published = s.published ++ topic ∷ [] } else s

-- A result of 0 is `ok`, -1 `failed` and 1 `missing`.
pub data Status : Type 0 where
  ok failed missing : Status

unfoldable pub config_save_impl : Bool → (Config → Config) → Storage → Status × Storage
config_save_impl granted flashed s =
    let held = sem_wait granted s in
    let sealed = seal_config s.config in
    let written = record held { config = sealed; flash_config = flashed sealed } in
    if granted then (ok, publish_topic storage_updated (sem_signal written)) else (failed, held)

unfoldable pub config_recall_impl : Storage → Status × Storage
config_recall_impl s =
    if config_valid s.flash_config then (ok, record s { config = s.flash_config }) else (failed, s)

unfoldable pub caldata_save_impl : Bool → (Properties → Properties) → ℕ → Storage → Status × Storage
caldata_save_impl granted flashed id s =
    let held = sem_wait granted s in
    let sealed = seal_properties s.current_props in
    let written = record held {
      current_props = sealed;
      flash_slots = update s.flash_slots id (flashed sealed);
      lastsaveid = id;
    } in
    if leb savearea_max id
    then (failed, s)
    else if s.calibration_in_progress
    then (failed, s)
    else if granted
    then (ok, sem_signal written)
    else (failed, held)

-- The slot, if it is valid; a slot that was found valid is not checked again.
unfoldable pub get_properties : ℕ → Storage → Option Properties × Storage
get_properties id s =
    let src = s.flash_slots id in
    if leb savearea_max id
    then (none, s)
    else if s.checksum_ok id
    then (some src, s)
    else if properties_valid src
    then (some src, record s { checksum_ok = update s.checksum_ok id true })
    else (none, s)

unfoldable pub caldata_recall_impl : Bool → ℕ → Storage → Status × Storage
caldata_recall_impl granted id s =
    let unset = record s { lastsaveid = no_save_slot } in
    let held = sem_wait granted unset in
    let (found, checked) = get_properties id held in
    if id == no_save_slot then (ok, unset) else if not granted then (failed, held) else elim found [
      | none ↦ (missing, sem_signal checked)
      | some src ↦ (ok, sem_signal (record checked { lastsaveid = id; current_props = src }))
    ]

-- `erased` is what the erased pages hold.
unfoldable pub clear_all_config_prop_data_impl : Bool → Config → Properties → Storage → Storage
clear_all_config_prop_data_impl granted erased_config erased s =
    let held = sem_wait granted s in
    let cleared = record held {
      lastsaveid = no_save_slot;
      checksum_ok = λ id. false;
      flash_config = erased_config;
      flash_slots = λ id. erased;
    } in
    if granted then publish_topic storage_updated (sem_signal cleared) else held

unfoldable pub config_service_init : Storage → Storage
config_service_init s = record s { semaphore = 1; initialized = true }

unfoldable pub config_service_notify_configuration_changed : Storage → Storage
config_service_notify_configuration_changed s = publish_topic configuration_changed s

-- The public calls, which fail before config_service_init.
unfoldable pub config_save : Bool → (Config → Config) → Storage → Status × Storage
config_save granted flashed s =
    if s.initialized then config_save_impl granted flashed s else (failed, s)

unfoldable pub config_recall : Storage → Status × Storage
config_recall s = if s.initialized then config_recall_impl s else (failed, s)

unfoldable pub caldata_save : Bool → (Properties → Properties) → ℕ → Storage → Status × Storage
caldata_save granted flashed id s =
    if s.initialized then caldata_save_impl granted flashed id s else (failed, s)

unfoldable pub caldata_recall : Bool → ℕ → Storage → Status × Storage
caldata_recall granted id s =
    if s.initialized then caldata_recall_impl granted id s else (failed, s)

unfoldable pub clear_all_config_prop_data : Bool → Config → Properties → Storage → Storage
clear_all_config_prop_data granted erased_config erased s =
    if s.initialized then clear_all_config_prop_data_impl granted erased_config erased s else s

-- The subscriber on the event bus.
unfoldable pub config_on_configuration_changed :
    Bool → (Config → Config) → Option Message → Storage → Storage
config_on_configuration_changed granted flashed none s = s
config_on_configuration_changed granted flashed (some message) s =
    ite (topic_discrete message.topic configuration_changed) (config_save granted flashed s).1 s
