-- ===== src/EventBus/Queue.antt =====
-- What a client of the event bus sees: a queue of messages with a limit, delivered in order.
use nano_vna_x.Base.{
  ℕ, ◌≡◌, Bool-cases, inl, inr, Bool, true, false, List, [], ◌∷◌, ◌++◌, length, ltb, if◌then◌else◌,
}
use nano_vna_x.EventBus.{Message, Call}

pub data Op : Type 0 where
  -- from a thread or, if so marked, from an interrupt
  publish : Message → Bool → Op
  dispatch : ℕ → Op

abbrev pub Reply : Type 0
Reply = Bool × List Call

-- `size` messages at most are pending; `subscribers` are called for each that is dispatched.
module _ (size : ℕ) (subscribers : Message → List Call) where
  unfoldable pub run : List Message → List Op → List Reply
  run pending [] = []
  run pending (publish m isr ∷ ops) =
      if ltb (length pending) size
      then (true, []) ∷ run (pending ++ m ∷ []) ops
      else (false, []) ∷ run pending ops
  run [] (dispatch timeout ∷ ops) = (false, []) ∷ run [] ops
  run (m ∷ pending) (dispatch timeout ∷ ops) = (true, subscribers m) ∷ run pending ops

  -- Both cases of a publication at once.
  pub run-publish :
      (pending : List Message) (m : Message) (isr : Bool) (ops : List Op)
      → run pending (publish m isr ∷ ops)
        ≡ (ltb (length pending) size, [])
          ∷ run (if ltb (length pending) size then pending ++ m ∷ [] else pending) ops
  unfolding run
  run-publish pending m isr ops = elim (Bool-cases (ltb (length pending) size)) [
    | inl e ↦ rw e
    | inr e ↦ rw e
  ]
