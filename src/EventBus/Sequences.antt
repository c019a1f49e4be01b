-- ===== src/EventBus/Sequences.antt =====
-- Sequences of publications and dispatches on a bus, against the queue.
use nano_vna_x.Base.{
  ℕ, ◌≡◌, refl, ap, ap₂, sym, ◌∙◌, Bool, false, List, [], ◌∷◌, map, length, if◌then◌else◌,
}
use nano_vna_x.EventBus.Port.{Mailbox}
use nano_vna_x.EventBus.{
  Message, Call, Bus, publish_common, dispatch, deliver, dispatch_to_subscribers,
}
use nano_vna_x.EventBus.Refine.{IsTracked, pending, message_at, Published, publish_refines}
use nano_vna_x.EventBus.Order.{Dispatched, dispatch_idle, dispatch_first}
use nano_vna_x.EventBus.Queue.{Op, Reply}
use nano_vna_x.EventBus.Queue

module _ (mb : Mailbox) where
  open mb use {Box, view}

  -- A client's calls in order, with what each returns and the subscribers that it calls.
  pub run : Bus mb → List Op → List Reply
  run bus [] = []
  run bus (Op.publish m isr ∷ ops) =
      let (ok, bus', calls) = publish_common mb bus m isr in (ok, calls) ∷ run bus' ops
  run bus (Op.dispatch timeout ∷ ops) =
      let (ok, bus', calls) = dispatch mb bus timeout in (ok, calls) ∷ run bus' ops

  same_subscribers :
      (a b : Bus mb) → (a.slots ≡ b.slots) × (a.stored ≡ b.stored) → deliver mb a ≡ deliver mb b
  unfolding deliver
  same_subscribers a b (slots, stored) =
      λ i m. if stored i then dispatch_to_subscribers (slots i) m else []

  -- The claim for the calls that are left.
  abbrev Refines : List Op → Type 0
  Refines ops =
      (bus : Bus mb) (box : Box)
      → IsTracked mb bus box
      → run bus ops ≡ Queue.run (length bus.nodes) (deliver mb bus) (pending mb bus box) ops

  publish_step :
      (m : Message) (isr : Bool) (ops : List Op) → Refines ops → Refines (Op.publish m isr ∷ ops)
  unfolding run
  publish_step m isr ops ih bus box t =
      ap₂ ◌∷◌ (λ i. (p.result i, p.quiet i))
        (ih r.1 p.box' p.kept ∙ (λ i.
          Queue.run (p.size i) (same_subscribers r.1 bus p.subscriptions i) (p.queue i) ops))
      ∙ sym (Queue.run-publish (length bus.nodes) (deliver mb bus) (pending mb bus box) m isr ops)
    where
      r : Bool × Bus mb × List Call
      r = publish_common mb bus m isr

      p : Published mb bus box m r
      p = publish_refines mb bus box m isr t

  dispatch_step : (timeout : ℕ) (ops : List Op) → Refines ops → Refines (Op.dispatch timeout ∷ ops)
  unfolding run Queue.run pending
  dispatch_step timeout ops ih bus box t = go (view box) refl
    where
      r : Bool × Bus mb × List Call
      r = dispatch mb bus timeout

      spec : List ℕ → List Reply
      spec v =
          Queue.run (length bus.nodes) (deliver mb bus) (map (message_at bus.nodes) v)
            (Op.dispatch timeout ∷ ops)

      go : (v : List ℕ) → view box ≡ v → (r.0, r.2) ∷ run r.1 ops ≡ spec (view box)
      go [] e =
          ap (λ (d : Bool × Bus mb × List Call). (d.0, d.2) ∷ run d.1 ops)
            (dispatch_idle mb bus box timeout t e)
          ∙ ap (λ l. (false, []) ∷ l)
              (ih bus box t
                ∙ ap
                    (λ v.
                      Queue.run (length bus.nodes) (deliver mb bus) (map (message_at bus.nodes) v)
                        ops)
                    e)
          ∙ ap spec (sym e)
      go (x ∷ rest) e =
          ap₂ ◌∷◌ (λ i. (d.result i, d.delivered i))
            (ih r.1 d.box' d.kept ∙ (λ i.
              Queue.run (d.size i) (same_subscribers r.1 bus d.subscriptions i) (d.queue i) ops))
          ∙ ap spec (sym e)
        where
          d : Dispatched mb bus (message_at bus.nodes x) (map (message_at bus.nodes) rest) r
          d = dispatch_first mb bus box timeout t x rest e

  -- With room for all nodes in the mailbox, no sequence of calls tells the bus from a queue of as
  -- many messages as there are nodes: each message that is accepted is delivered once, in the
  -- order of publication, and one that finds all nodes taken is refused.
  pub run_refines :
      (ops : List Op) (bus : Bus mb) (box : Box)
      → IsTracked mb bus box
      → run bus ops ≡ Queue.run (length bus.nodes) (deliver mb bus) (pending mb bus box) ops
  unfolding run Queue.run
  run_refines [] bus box t = refl
  run_refines (Op.publish m isr ∷ ops) bus box t =
      publish_step m isr ops (run_refines ops) bus box t
  run_refines (Op.dispatch timeout ∷ ops) bus box t =
      dispatch_step timeout ops (run_refines ops) bus box t
