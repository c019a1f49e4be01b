-- ===== src/Storage/Sound.antt =====
-- Invariants of the service over all calls.
use nano_vna_x.Base.{ℕ, ◌≡◌, sym, ◌∙◌, ap, Bool, true, List, [], ◌∷◌, Every, arith}
use nano_vna_x.Storage.Blocks.{Config, Properties, properties_valid, seal_properties}
use nano_vna_x.Storage.{
  Storage, publish_topic, sem_wait, sem_signal, config_save, config_recall, caldata_save,
  caldata_recall, get_properties, clear_all_config_prop_data, config_save_impl, config_recall_impl,
  caldata_save_impl, caldata_recall_impl, clear_all_config_prop_data_impl,
  config_service_notify_configuration_changed,
}
use nano_vna_x.Storage.Checksum.{seal_properties_valid}
use nano_vna_x.Storage.Calls.{
  StorageCall, saves_config, recalls_config, saves_slot, recalls_slot, looks_up, erases, notifies,
  edits_config, edits_properties, calibrates, after_call, run_calls,
}

-- A slot that counts as checked is valid.
abbrev pub IsSound : Storage → Type 0
IsSound s = (id : ℕ) → s.checksum_ok id ≡ true → properties_valid (s.flash_slots id) ≡ true

-- The flash holds what is programmed.
abbrev pub FlashWorks : StorageCall → Type 0
FlashWorks (saves_config granted flashed) = Unit
FlashWorks recalls_config = Unit
FlashWorks (saves_slot granted flashed id) = (p : Properties) → flashed p ≡ p
FlashWorks (recalls_slot granted id) = Unit
FlashWorks (looks_up id) = Unit
FlashWorks (erases granted ec e) = Unit
FlashWorks notifies = Unit
FlashWorks (edits_config c) = Unit
FlashWorks (edits_properties p) = Unit
FlashWorks (calibrates b) = Unit

same-IsSound :
    (s t : Storage)
    → (t.checksum_ok ≡ s.checksum_ok) × (t.flash_slots ≡ s.flash_slots)
    → IsSound s
    → IsSound t
same-IsSound s t (p, q) h j e = ap (λ f. properties_valid (f j)) q ∙ h j (ap (λ f. f j) (sym p) ∙ e)

config_save-slots :
    (granted : Bool) (flashed : Config → Config) (s : Storage)
    → ((config_save granted flashed s).1.checksum_ok ≡ s.checksum_ok)
      × ((config_save granted flashed s).1.flash_slots ≡ s.flash_slots)
unfolding config_save config_save_impl sem_wait sem_signal publish_topic
config_save-slots granted flashed s = (ground arith, ground arith)

get_properties-IsSound : (id : ℕ) (s : Storage) → IsSound s → IsSound (get_properties id s).1
unfolding get_properties
get_properties-IsSound id s h j e = ground (arith, h j)

after_call-IsSound :
    (c : StorageCall) (s : Storage) → FlashWorks c → IsSound s → IsSound (after_call s c)
unfolding config_recall config_recall_impl caldata_save caldata_save_impl caldata_recall
    caldata_recall_impl clear_all_config_prop_data clear_all_config_prop_data_impl sem_wait
    sem_signal publish_topic config_service_notify_configuration_changed get_properties
after_call-IsSound (saves_config granted flashed) s w h j e =
    same-IsSound s (config_save granted flashed s).1 (config_save-slots granted flashed s) h j e
after_call-IsSound recalls_config s w h j e = ground (arith, h j)
after_call-IsSound (saves_slot granted flashed id) s w h j e =
    ground (arith, h j, w (seal_properties s.current_props), seal_properties_valid s.current_props)
after_call-IsSound (recalls_slot granted id) s w h j e = ground (arith, h j)
after_call-IsSound (looks_up id) s w h j e = get_properties-IsSound id s h j e
after_call-IsSound (erases granted ec er) s w h j e = ground (arith, h j)
after_call-IsSound notifies s w h j e = ground (arith, h j)
after_call-IsSound (edits_config c) s w h j e = h j e
after_call-IsSound (edits_properties p) s w h j e = h j e
after_call-IsSound (calibrates b) s w h j e = h j e

-- Where the flash holds what is programmed, every sequence of calls keeps each slot that counts as
-- checked valid.
pub run_calls-IsSound :
    (calls : List StorageCall) (s : Storage)
    → Every FlashWorks calls
    → IsSound s
    → IsSound (run_calls s calls)
unfolding run_calls
run_calls-IsSound [] s works h = h
run_calls-IsSound (c ∷ calls) s works h =
    run_calls-IsSound calls (after_call s c) works.1 (after_call-IsSound c s works.0 h)

after_call-semaphore :
    (c : StorageCall) (s : Storage) → s.semaphore ≡ 1 → (after_call s c).semaphore ≡ 1
unfolding config_save config_save_impl config_recall config_recall_impl caldata_save
    caldata_save_impl caldata_recall caldata_recall_impl clear_all_config_prop_data
    clear_all_config_prop_data_impl sem_wait sem_signal publish_topic get_properties
    config_service_notify_configuration_changed
after_call-semaphore (saves_config granted flashed) s free = ground arith
after_call-semaphore recalls_config s free = ground arith
after_call-semaphore (saves_slot granted flashed id) s free = ground arith
after_call-semaphore (recalls_slot granted id) s free = ground arith
after_call-semaphore (looks_up id) s free = ground arith
after_call-semaphore (erases granted ec er) s free = ground arith
after_call-semaphore notifies s free = ground arith
after_call-semaphore (edits_config c) s free = free
after_call-semaphore (edits_properties p) s free = free
after_call-semaphore (calibrates b) s free = free

-- The semaphore of the flash is free after every sequence of calls if it was before, whichever of
-- them got it, failed or found nothing.
pub run_calls-semaphore :
    (calls : List StorageCall) (s : Storage) → s.semaphore ≡ 1 → (run_calls s calls).semaphore ≡ 1
unfolding run_calls
run_calls-semaphore [] s free = free
run_calls-semaphore (c ∷ calls) s free =
    run_calls-semaphore calls (after_call s c) (after_call-semaphore c s free)
