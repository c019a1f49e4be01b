-- ===== src/Board.antt =====
-- src/driver/board_events.c: counts of the events that the interrupts have seen, per topic. A
-- listener is known by its number; the calls that are made are returned in order.
use nano_vna_x.Base.{
  ℕ, zero, suc, ◌+◌, ◌-◌, ◌*◌, ◌^◌, Bool, true, false, Option, none, some, List, [], ◌∷◌, ◌++◌,
  replicate, ltb, leb, ◌==◌, ◌||◌, if◌then◌else◌,
}
pub mod Burst

-- What the arrays of `board_events_t` hold at the index of one topic; `none` is a NULL listener.
pub record Slot : Type 0 where
  pub listener : Option ℕ
  pub listener_data : ℕ
  pub pending_channel : ℕ
  pub pending_count : ℕ

pub record BoardEvent : Type 0 where
  pub topic : ℕ
  pub channel : ℕ

-- A listener that is called, with its arguments.
pub record ListenerCall : Type 0 where
  pub callee : ℕ
  pub event : BoardEvent
  pub argument : ℕ

-- BOARD_EVENT_BUTTON and BOARD_EVENT_TOUCH are 0 and 1.
abbrev pub board_event_count : ℕ
board_event_count = 2

pub board_events_init : List Slot
board_events_init =
    replicate board_event_count
      (record { listener = none; listener_data = 0; pending_channel = 0; pending_count = 0 })

-- The slot at an index, changed.
pub update : (Slot → Slot) → List Slot → ℕ → List Slot
update f [] i = []
update f (slot ∷ slots) zero = f slot ∷ slots
update f (slot ∷ slots) (suc i) = slot ∷ update f slots i

pub board_events_subscribe : List Slot → ℕ → Option ℕ → ℕ → Bool × List Slot
board_events_subscribe events topic none user_data = (false, events)
board_events_subscribe events topic (some f) user_data =
    if leb board_event_count topic then (false, events) else (
      true,
      update (λ slot. record slot { listener = some f; listener_data = user_data }) events topic,
    )

-- An 8-bit count that stops at UINT8_MAX.
pub counted : ℕ → Slot → Slot
counted channel slot = record slot {
  pending_channel = channel;
  pending_count = if ltb slot.pending_count 255 then slot.pending_count + 1 else slot.pending_count;
}

pub board_events_store_event : List Slot → BoardEvent → List Slot
unfolding counted
board_events_store_event events event =
    if leb board_event_count event.topic
    then events
    else update (counted event.channel) events event.topic

-- From a thread and from an interrupt, which differ in the lock that they take.
pub board_events_publish : List Slot → BoardEvent → Bool × List Slot
board_events_publish events event = (true, board_events_store_event events event)

pub board_events_publish_from_isr : List Slot → BoardEvent → Bool × List Slot
board_events_publish_from_isr events event = (true, board_events_store_event events event)

-- One event of the slot at an index is taken, and its listener is called.
pub dispatch_slot : ℕ → Slot → Slot × List ListenerCall
dispatch_slot i slot =
    let taken = record slot { pending_count = slot.pending_count - 1 } in
    if slot.pending_count == 0 then (slot, []) else elim slot.listener [
      | none ↦ (taken, [])
      | some f ↦ (
        taken,
        record {
          callee = f;
          event = record { topic = i; channel = slot.pending_channel };
          argument = slot.listener_data;
        }
            ∷ [],
      )
    ]

-- The loop over the slots from an index: the slots then, and the calls.
pub dispatch_from : ℕ → List Slot → List Slot × List ListenerCall
dispatch_from i [] = ([], [])
dispatch_from i (slot ∷ slots) =
    let (slot', calls) = dispatch_slot i slot in
    let (slots', later) = dispatch_from (i + 1) slots in (slot' ∷ slots', calls ++ later)

pub is_called : List ListenerCall → Bool
is_called [] = false
is_called (call ∷ calls) = true

-- The result is whether a listener was called.
pub board_events_dispatch : List Slot → Bool × List Slot × List ListenerCall
unfolding is_called
board_events_dispatch events =
    let (events', calls) = dispatch_from 0 events in (is_called calls, events', calls)

mask_from : ℕ → List Slot → ℕ
mask_from i [] = 0
mask_from i (slot ∷ slots) =
    let later = mask_from (i + 1) slots in if ltb 0 slot.pending_count then 2 ^ i + later else later

-- The bits differ, so the or of them is their sum.
pub board_events_pending_mask : List Slot → ℕ
unfolding mask_from
board_events_pending_mask events = mask_from 0 events

-- Events of one topic with these channels are published, from interrupts.
pub publish_all : ℕ → List ℕ → List Slot → List Slot
publish_all topic [] events = events
publish_all topic (c ∷ channels) events =
    publish_all topic channels
      (board_events_publish_from_isr events (record { topic = topic; channel = c })).1

-- The calls of as many dispatches.
pub dispatch_all : ℕ → List Slot → List ListenerCall
dispatch_all zero events = []
dispatch_all (suc n) events =
    let (called, events', calls) = board_events_dispatch events in calls ++ dispatch_all n events'
