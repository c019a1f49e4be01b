-- ===== src/Board/Burst.antt =====
-- A burst of events of one topic, and the dispatches that follow it.
use nano_vna_x.Base.{
  ℕ, zero, suc, ◌+◌, ◌-◌, ◌<◌, ◌≡◌, refl, ◌∙◌, ap, Bool, true, false, some, none, List, [], ◌∷◌,
  ◌++◌, replicate, length, min, ◌==◌, arith, if◌then◌else◌,
}
use nano_vna_x.Board.{
  Slot, ListenerCall, board_events_init, update, board_events_subscribe, counted,
  board_events_store_event, board_events_publish_from_isr, dispatch_slot, dispatch_from,
  board_events_dispatch, publish_all, dispatch_all, is_called,
}

replicate-same : (a b : ℕ) (x : ListenerCall) → a ≡ b → replicate a x ≡ replicate b x
replicate-same a b x e = ap (λ k. replicate k x) e

module _ (f d : ℕ) where
  abbrev pub slot_with : ℕ → ℕ → Slot
  slot_with channel n = record {
    listener = some f;
    listener_data = d;
    pending_channel = channel;
    pending_count = n;
  }

  abbrev pub call_of : ℕ → ℕ → ListenerCall
  call_of topic channel = record {
    callee = f;
    event = record { topic = topic; channel = channel };
    argument = d;
  }

  abbrev vacant : Slot
  vacant = record { listener = none; listener_data = 0; pending_channel = 0; pending_count = 0 }

  -- The slots of the two topics, the one of the topic being the given one.
  abbrev pub slots_with : Bool → Slot → List Slot
  slots_with touch slot = if touch then vacant ∷ slot ∷ [] else slot ∷ vacant ∷ []

  abbrev pub topic_of : Bool → ℕ
  topic_of touch = if touch then 1 else 0

  counted-min :
      (channel old n : ℕ)
      → n < 256
      → counted channel (slot_with old n) ≡ slot_with channel (min 255 (n + 1))
  unfolding counted
  counted-min channel old n small = ap (slot_with channel) (ground arith)

  publish_one :
      (touch : Bool) (channel old n : ℕ)
      → n < 256
      → (board_events_publish_from_isr
          (slots_with touch (slot_with old n))
          (record { topic = topic_of touch; channel = channel })).1
        ≡ slots_with touch (slot_with channel (min 255 (n + 1)))
  unfolding board_events_publish_from_isr board_events_store_event update
  publish_one true channel old n small = ap (λ s. vacant ∷ s ∷ []) (counted-min channel old n small)
  publish_one false channel old n small =
      ap (λ s. s ∷ vacant ∷ []) (counted-min channel old n small)

  publish_all-count :
      (touch : Bool) (channels : List ℕ) (last old n : ℕ)
      → n < 256
      → publish_all (topic_of touch) (channels ++ last ∷ []) (slots_with touch (slot_with old n))
        ≡ slots_with touch (slot_with last (min 255 (n + length channels + 1)))
  unfolding publish_all
  publish_all-count touch [] last old n small =
      publish_one touch last old n small
      ∙ ap (λ k. slots_with touch (slot_with last k)) (omega arith)
  publish_all-count touch (c ∷ channels) last old n small =
      ap (publish_all (topic_of touch) (channels ++ last ∷ [])) (publish_one touch c old n small)
      ∙ publish_all-count touch channels last c (min 255 (n + 1)) (omega arith)
      ∙ ap (λ k. slots_with touch (slot_with last k)) (omega arith)

  dispatch-suc :
      (touch : Bool) (channel n : ℕ)
      → board_events_dispatch (slots_with touch (slot_with channel (suc n)))
        ≡ (true, slots_with touch (slot_with channel n), call_of (topic_of touch) channel ∷ [])
  unfolding board_events_dispatch dispatch_from dispatch_slot is_called
  dispatch-suc true channel n =
      let more : (suc n == 0) ≡ false = ground arith in
      rw (more, dispatch_from)
        (ap (λ k. (true, vacant ∷ slot_with channel k ∷ [], call_of 1 channel ∷ [])) {x = suc n - 1}
          {y = n} (omega arith))
  dispatch-suc false channel n =
      let more : (suc n == 0) ≡ false = ground arith in
      rw (more, dispatch_from)
        (ap (λ k. (true, slot_with channel k ∷ vacant ∷ [], call_of 0 channel ∷ [])) {x = suc n - 1}
          {y = n} (omega arith))

  dispatch_all-vacant :
      (m : ℕ) (touch : Bool) (channel : ℕ)
      → dispatch_all m (slots_with touch (slot_with channel 0)) ≡ []
  unfolding dispatch_all board_events_dispatch dispatch_from dispatch_slot
  dispatch_all-vacant zero touch channel = refl
  dispatch_all-vacant (suc m) true channel = dispatch_all-vacant m true channel
  dispatch_all-vacant (suc m) false channel = dispatch_all-vacant m false channel

  dispatch_all-calls :
      (m : ℕ) (touch : Bool) (channel n : ℕ)
      → dispatch_all m (slots_with touch (slot_with channel n))
        ≡ replicate (min m n) (call_of (topic_of touch) channel)
  unfolding dispatch_all
  dispatch_all-calls zero touch channel n = replicate-same 0 (min 0 n) _ (omega arith)
  dispatch_all-calls (suc m) touch channel zero =
      dispatch_all-vacant (suc m) touch channel ∙ replicate-same 0 (min (suc m) 0) _ (omega arith)
  dispatch_all-calls (suc m) touch channel (suc n) =
      ap (λ r. r.2 ++ dispatch_all m r.1) (dispatch-suc touch channel n)
      ∙ ap (λ l. call_of (topic_of touch) channel ∷ l) (dispatch_all-calls m touch channel n)
      ∙ replicate-same (suc (min m n)) (min (suc m) (suc n)) _ (omega arith)

subscribe-slots :
    (touch : Bool) (f d : ℕ)
    → (board_events_subscribe board_events_init (topic_of f d touch) (some f) d).1
      ≡ slots_with f d touch (slot_with f d 0 0)
unfolding board_events_subscribe board_events_init update
subscribe-slots true f d = refl
subscribe-slots false f d = refl

-- After a listener has subscribed to a topic, the button (0) or the touch panel (1), and a burst of
-- events of this topic has been published from interrupts, m dispatches make as many calls as
-- there were events, but at most m and at most 255; all of them are calls of the listener with its
-- argument, the topic, and the channel of the last event of the burst.
pub dispatch_all-burst :
    (touch : Bool) (f d last m : ℕ) (channels : List ℕ)
    → dispatch_all m (
        publish_all
          (topic_of f d touch)
          (channels ++ last ∷ [])
          (board_events_subscribe board_events_init (topic_of f d touch) (some f) d).1)
      ≡ replicate (min m (min 255 (length channels + 1))) (call_of f d (topic_of f d touch) last)
dispatch_all-burst touch f d last m channels =
    ap (λ e. dispatch_all m (publish_all (topic_of f d touch) (channels ++ last ∷ []) e))
      (subscribe-slots touch f d)
    ∙ ap (dispatch_all m) (publish_all-count f d touch channels last 0 0 (omega arith))
    ∙ dispatch_all-calls f d m touch last _
    ∙ replicate-same (min m (min 255 (0 + length channels + 1)))
        (min m (min 255 (length channels + 1))) _ (omega arith)
