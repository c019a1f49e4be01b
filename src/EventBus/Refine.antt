-- ===== src/EventBus/Refine.antt =====
-- The bus with its mailbox and its nodes behaves as the queue of its pending messages.
use nano_vna_x.Base.{
  ℕ, ◌≤◌, ◌≡◌, ◌≢◌, inl, inr, refl, ap, sym, subst, ◌∙◌, Bool, true, false, none, some, List, [],
  ◌∷◌, ◌++◌, map, length, ltb, if◌then◌else◌, arith, length-map,
}
use mathlib.Core.List.{map-append}
use nano_vna_x.EventBus.Port.{Mailbox}
use nano_vna_x.EventBus.{
  Message, sweep_started, Node, Call, Bus, alloc_node, node_at, publish_common,
}
use nano_vna_x.EventBus.Nodes.{
  bit, used, count, Taken, alloc_node_cases, length-eq-used, count-snoc, map-agree,
}

abbrev pub nothing : Message
nothing = record { topic = sweep_started; payload = 0 }

unfoldable pub message_at : List Node → ℕ → Message
message_at nodes i = elim (node_at nodes i) [ none ↦ nothing | some node ↦ node.message ]

module _ (mb : Mailbox) where
  open mb use {
    Box, post, fetch, view, capacity, post_room, post_full, post_capacity, fetch_empty, fetch_first,
  }

  -- The mailbox holds exactly the nodes in use, each once, and has room for all nodes.
  pub record IsTracked (bus : Bus mb) (box : Box) : Type 0 where
    pub ready : bus.mailbox ≡ some box
    pub tracked : (i : ℕ) → count i (view box) ≡ bit bus.nodes i
    pub wide : length bus.nodes ≤ capacity box

  unfoldable pub pending : Bus mb → Box → List Message
  pending bus box = map (message_at bus.nodes) (view box)

  length-pending :
      (bus : Bus mb) (box : Box) → IsTracked bus box → length (pending bus box) ≡ used bus.nodes
  unfolding pending
  length-pending bus box t =
      length-map (view box) (message_at bus.nodes) ∙ length-eq-used (view box) bus.nodes t.tracked

  -- What a publication leaves: as the queue, and the subscriptions untouched.
  pub record Published (bus : Bus mb) (box : Box) (m : Message) (r : Bool × Bus mb × List Call)
      : Type 0 where
    pub box' : Box
    pub result : r.0 ≡ ltb (length (pending bus box)) (length bus.nodes)
    pub quiet : r.2 ≡ []
    pub queue : pending r.1 box' ≡ (
        if ltb (length (pending bus box)) (length bus.nodes)
        then pending bus box ++ m ∷ []
        else pending bus box)
    pub kept : IsTracked r.1 box'
    pub size : length r.1.nodes ≡ length bus.nodes
    pub subscriptions : (r.1.slots ≡ bus.slots) × (r.1.stored ≡ bus.stored)

  module _ (bus : Bus mb) (box : Box) (m : Message) (isr : Bool) (t : IsTracked bus box) where
    publish_full :
        alloc_node bus.nodes m ≡ none
        → used bus.nodes ≡ length bus.nodes
        → Published bus box m (publish_common mb bus m isr)
    unfolding publish_common pending
    publish_full e full = subst (Published bus box m) (sym unchanged) (record {
      box' = box;
      result = rw no_room;
      quiet = refl;
      queue = rw no_room;
      kept = t;
      size = refl;
      subscriptions = (refl, refl);
    })
      where
        unchanged : publish_common mb bus m isr ≡ (false, bus, [])
        unchanged = ground (arith, t.ready, e)

        no_room : ltb (length (pending bus box)) (length bus.nodes) ≡ false
        no_room = ground (arith, length-pending bus box t)

    publish_room :
        (k : ℕ) (nodes' : List Node)
        → alloc_node bus.nodes m ≡ some (k, nodes')
        → Taken m bus.nodes k nodes'
        → Published bus box m (publish_common mb bus m isr)
    unfolding publish_common pending message_at
    publish_room k nodes' e taken = subst (Published bus box m) (sym posted) (record {
      box' = (post k box).1;
      result = rw some_room;
      quiet = refl;
      queue = rw some_room queued;
      kept = record {
        ready = refl;
        tracked = tracked';
        wide = omega (arith, t.wide, taken.size, post_capacity k box);
      };
      size = taken.size;
      subscriptions = (refl, refl);
    })
      where
        sent : ((post k box).0 ≡ true) × (view (post k box).1 ≡ view box ++ k ∷ [])
        sent =
            post_room k box
              (omega (arith, length-eq-used (view box) bus.nodes t.tracked, taken.room, t.wide))

        posted :
            publish_common mb bus m isr
            ≡ (true, record bus { mailbox = some (post k box).1; nodes = nodes' }, [])
        posted = ground (arith, t.ready, e, sent.0)

        some_room : ltb (length (pending bus box)) (length bus.nodes) ≡ true
        some_room = ground (arith, length-pending bus box t, taken.room)

        tracked' : (i : ℕ) → count i (view (post k box).1) ≡ bit nodes' i
        tracked' i =
            rw (sent.1, count-snoc i k (view box), taken.bits i, t.tracked i)
              (ground (arith, taken.free))

        same : (i : ℕ) → count i (view box) ≢ 0 → message_at nodes' i ≡ message_at bus.nodes i
        same i ne =
            ap (λ n. elim n [ none ↦ nothing | some node ↦ node.message ])
              (taken.others i (λ p. ne (t.tracked i ∙ ap (bit bus.nodes) p ∙ taken.free)))

        queued :
            map (message_at nodes') (view (post k box).1)
            ≡ map (message_at bus.nodes) (view box) ++ m ∷ []
        queued =
            rw
              (
                sent.1,
                map-append,
                map-agree (message_at nodes') (message_at bus.nodes) (view box) same,
              )
              (ap
                (λ n.
                  map (message_at bus.nodes) (view box)
                  ++ (elim n [ none ↦ nothing | some node ↦ node.message ]) ∷ [])
                taken.taken)

    -- A publication puts the message behind those pending if fewer are pending than there are
    -- nodes, and is refused otherwise; no subscriber is called.
    pub publish_refines : Published bus box m (publish_common mb bus m isr)
    publish_refines = elim (alloc_node_cases bus.nodes m) [
      | inl (e, full) ↦ publish_full e full
      | inr (k, nodes', e, taken) ↦ publish_room k nodes' e taken
    ]
