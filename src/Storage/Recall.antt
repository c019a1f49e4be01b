-- ===== src/Storage/Recall.antt =====
-- What is saved is recalled.
use nano_vna_x.Base.{ℕ, ◌<◌, ◌≡◌, ◌≢◌, refl, ◌∙◌, ap, true, false, List, [], ◌∷◌, Every, arith}
use nano_vna_x.Storage.Blocks.{Properties, properties_valid, seal_properties}
use nano_vna_x.Storage.{
  Storage, ok, missing, savearea_max, no_save_slot, publish_topic, sem_wait, sem_signal,
  config_save, config_recall, caldata_save, caldata_recall, get_properties,
  clear_all_config_prop_data, config_save_impl, config_recall_impl, caldata_save_impl,
  caldata_recall_impl, clear_all_config_prop_data_impl, config_service_notify_configuration_changed,
}
use nano_vna_x.Storage.Checksum.{seal_properties_valid}
use nano_vna_x.Storage.Calls.{
  StorageCall, saves_config, recalls_config, saves_slot, recalls_slot, looks_up, erases, notifies,
  edits_config, edits_properties, calibrates, after_call, run_calls,
}

-- A call that does not write to a slot.
abbrev pub KeepsSlot : ℕ → StorageCall → Type 0
KeepsSlot slot (saves_config granted flashed) = Unit
KeepsSlot slot recalls_config = Unit
KeepsSlot slot (saves_slot granted flashed id) = slot ≢ id
KeepsSlot slot (recalls_slot granted id) = Unit
KeepsSlot slot (looks_up id) = Unit
KeepsSlot slot (erases granted ec e) = ⊥
KeepsSlot slot notifies = Unit
KeepsSlot slot (edits_config c) = Unit
KeepsSlot slot (edits_properties p) = Unit
KeepsSlot slot (calibrates b) = Unit

after_call-slot :
    (slot : ℕ) (c : StorageCall) (s : Storage)
    → KeepsSlot slot c
    → ((after_call s c).flash_slots slot ≡ s.flash_slots slot)
      × ((after_call s c).initialized ≡ s.initialized)
unfolding config_save config_save_impl config_recall config_recall_impl caldata_save
    caldata_save_impl caldata_recall caldata_recall_impl clear_all_config_prop_data
    clear_all_config_prop_data_impl sem_wait sem_signal publish_topic get_properties
    config_service_notify_configuration_changed
after_call-slot slot (saves_config granted flashed) s keeps = (ground arith, ground arith)
after_call-slot slot recalls_config s keeps = (ground arith, ground arith)
after_call-slot slot (saves_slot granted flashed id) s keeps = (ground arith, ground arith)
after_call-slot slot (recalls_slot granted id) s keeps = (ground arith, ground arith)
after_call-slot slot (looks_up id) s keeps = (ground arith, ground arith)
after_call-slot slot (erases granted ec er) s keeps = absurd keeps
after_call-slot slot notifies s keeps = (ground arith, ground arith)
after_call-slot slot (edits_config c) s keeps = (refl, refl)
after_call-slot slot (edits_properties p) s keeps = (refl, refl)
after_call-slot slot (calibrates b) s keeps = (refl, refl)

run_calls-slot :
    (slot : ℕ) (calls : List StorageCall) (s : Storage)
    → Every (KeepsSlot slot) calls
    → ((run_calls s calls).flash_slots slot ≡ s.flash_slots slot)
      × ((run_calls s calls).initialized ≡ s.initialized)
unfolding run_calls
run_calls-slot slot [] s keep = (refl, refl)
run_calls-slot slot (c ∷ calls) s keep =
    let (p, q) = run_calls-slot slot calls (after_call s c) keep.1 in
    let (p', q') = after_call-slot slot c s keep.0 in (p ∙ p', q ∙ q')

-- A recall of a slot that holds a valid block.
pub recall-valid :
    (id : ℕ) (s : Storage)
    → s.initialized ≡ true
    → id < savearea_max
    → properties_valid (s.flash_slots id) ≡ true
    → ((caldata_recall true id s).0 ≡ ok)
      × ((caldata_recall true id s).1.current_props ≡ s.flash_slots id)
      × ((caldata_recall true id s).1.lastsaveid ≡ id)
unfolding caldata_recall caldata_recall_impl get_properties sem_wait sem_signal
recall-valid id s ready small valid = (ground arith, ground arith, ground arith)

saved-slot :
    (id : ℕ) (s : Storage) (flashed : Properties → Properties)
    → ((p : Properties) → flashed p ≡ p)
    → (caldata_save true flashed id s).0 ≡ ok
    → (s.initialized ≡ true)
      × (id < savearea_max)
      × ((caldata_save true flashed id s).1.initialized ≡ true)
      × ((caldata_save true flashed id s).1.flash_slots id ≡ seal_properties s.current_props)
unfolding caldata_save caldata_save_impl sem_wait sem_signal
saved-slot id s flashed works done = (
  ground arith,
  ground arith,
  ground arith,
  ground (arith, works (seal_properties s.current_props)),
)

-- A save of the current properties to a slot that succeeds, on a flash that works, then any calls
-- and edits that neither save to this slot nor erase the flash: a recall of the slot that gets the
-- semaphore succeeds, and the current properties are those that were saved, with magic word and
-- checksum set.
pub caldata_recall-caldata_save :
    (id : ℕ) (s : Storage) (flashed : Properties → Properties) (calls : List StorageCall)
    → ((p : Properties) → flashed p ≡ p)
    → (caldata_save true flashed id s).0 ≡ ok
    → Every (KeepsSlot id) calls
    → ((caldata_recall true id (run_calls (caldata_save true flashed id s).1 calls)).0 ≡ ok)
      × ((caldata_recall true id
            (run_calls (caldata_save true flashed id s).1 calls)).1.current_props
          ≡ seal_properties s.current_props)
      × ((caldata_recall true id (run_calls (caldata_save true flashed id s).1 calls)).1.lastsaveid
          ≡ id)
caldata_recall-caldata_save id s flashed calls works done keep =
    let t = (caldata_save true flashed id s).1 in
    let (_, small, ready, at) = saved-slot id s flashed works done in
    let (same, still) = run_calls-slot id calls t keep in
    let held : (run_calls t calls).flash_slots id ≡ seal_properties s.current_props = same ∙ at in
    let (status, props, slot) =
      recall-valid id (run_calls t calls) (still ∙ ready) small
        (ap properties_valid held ∙ seal_properties_valid s.current_props) in
    (status, props ∙ held, slot)

-- A slot that is neither valid nor counts as checked is not recalled: the current properties stay,
-- and no slot is active.
pub caldata_recall_missing :
    (id : ℕ) (s : Storage)
    → s.initialized ≡ true
    → id ≢ no_save_slot
    → s.checksum_ok id ≡ false
    → properties_valid (s.flash_slots id) ≡ false
    → ((caldata_recall true id s).0 ≡ missing)
      × ((caldata_recall true id s).1.current_props ≡ s.current_props)
      × ((caldata_recall true id s).1.lastsaveid ≡ no_save_slot)
unfolding caldata_recall caldata_recall_impl get_properties sem_wait sem_signal
caldata_recall_missing id s ready slot unchecked invalid =
    (ground arith, ground arith, ground arith)

-- A slot that counts as checked is saved again, and the flash damages the block: the save and the
-- recall that follows it succeed, and the damaged block becomes the current properties.
pub caldata_recall_damaged :
    (id : ℕ) (s : Storage) (flashed : Properties → Properties)
    → s.initialized ≡ true
    → s.calibration_in_progress ≡ false
    → id < savearea_max
    → s.checksum_ok id ≡ true
    → ((caldata_save true flashed id s).0 ≡ ok)
      × ((caldata_recall true id (caldata_save true flashed id s).1).0 ≡ ok)
      × ((caldata_recall true id (caldata_save true flashed id s).1).1.current_props
          ≡ flashed (seal_properties s.current_props))
unfolding caldata_save caldata_save_impl caldata_recall caldata_recall_impl get_properties sem_wait
    sem_signal
caldata_recall_damaged id s flashed ready quiet small checked =
    (ground arith, ground arith, ground arith)
