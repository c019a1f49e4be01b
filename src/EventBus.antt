-- ===== src/EventBus.antt =====
-- src/sys/event_bus.c: topics, subscriptions, and a queue of message nodes in front of them.
-- A callback is known by its number; the calls that are made are returned in order.
pub mod Port
pub mod Nodes
pub mod Queue
pub mod Refine
pub mod Order
pub mod Sequences
pub mod Overflow
use nano_vna_x.Base.{
  ℕ, zero, suc, ◌+◌, Bool, true, false, Option, none, some, List, [], ◌∷◌, ◌++◌, map, length, ltb,
  leb, ◌==◌, not, ◌&&◌, ◌||◌, if◌then◌else◌, replicate,
}
use mathlib.Core.Logic.{ite}
use mathlib.Core.Option
use Port.{Mailbox}

pub data Topic : Type 0 where
  sweep_started sweep_completed touch_input storage_updated : Topic
  configuration_changed usb_command_pending sweep_progress : Topic

pub topic_discrete : Discrete Topic
topic_discrete = hlevel

-- A payload pointer is a number, 0 for NULL.
pub record Message : Type 0 where
  pub topic : Topic
  pub payload : ℕ

-- `none` is a NULL callback.
pub record Subscription : Type 0 where
  pub callback : Option ℕ
  pub user_data : ℕ
  pub topic : Topic

pub record Node : Type 0 where
  pub message : Message
  pub in_use : Bool

-- A callback that is called, with its arguments.
pub record Call : Type 0 where
  pub callback : ℕ
  pub message : Message
  pub user_data : ℕ

-- The calls for one slot, and for all slots in order.
pub calls_of : Message → Subscription → List Call
calls_of m slot = elim slot.callback [
  | none ↦ []
  | some f ↦
      ite (topic_discrete slot.topic m.topic)
        (record { callback = f; message = m; user_data = slot.user_data } ∷ []) []
]

pub dispatch_to_subscribers : List Subscription → Message → List Call
unfolding calls_of
dispatch_to_subscribers [] m = []
dispatch_to_subscribers (slot ∷ slots) m = calls_of m slot ++ dispatch_to_subscribers slots m

-- The first node that is not in use is taken: its index, and the nodes then.
unfoldable pub alloc_node : List Node → Message → Option (ℕ × List Node)
alloc_node [] m = none
alloc_node (node ∷ nodes) m =
    let later = Option.map (λ p. (suc p.0, node ∷ p.1)) (alloc_node nodes m) in
    if node.in_use then later else some (0, record { message = m; in_use = true } ∷ nodes)

-- nodes[i].in_use = false
unfoldable pub release_node : List Node → ℕ → List Node
release_node [] i = []
release_node (node ∷ nodes) zero = record node { in_use = false } ∷ nodes
release_node (node ∷ nodes) (suc i) = node ∷ release_node nodes i

unfoldable pub node_at : List Node → ℕ → Option Node
node_at [] i = none
node_at (node ∷ nodes) zero = some node
node_at (node ∷ nodes) (suc i) = node_at nodes i

module _ (mb : Mailbox) where
  open mb use {Box, create, post, fetch}

  -- The slots are the first `count` of the storage. Storage that is NULL is `stored = false`, and
  -- NULL nodes are no nodes; the mailbox is there exactly if `mailbox_ready`.
  pub record Bus : Type 0 where
    pub stored : Bool
    pub capacity : ℕ
    pub slots : List Subscription
    pub mailbox : Option Box
    pub nodes : List Node

  -- A queue storage that is not NULL is `some` of its length.
  pub init : Option ℕ → Option ℕ → List Node → Bus
  init storage queue nodes = record {
    stored = elim storage [ none ↦ false | some n ↦ true ];
    capacity = elim storage [ none ↦ 0 | some n ↦ n ];
    slots = [];
    mailbox = elim queue [ none ↦ none | some n ↦ if ltb 0 n then some (create n) else none ];
    nodes =
        map
          (λ n. record { message = record { topic = sweep_started; payload = 0 }; in_use = false })
          nodes;
  }

  -- The result is whether the slot was taken.
  pub subscribe : Bus → Topic → Option ℕ → ℕ → Bool × Bus
  subscribe bus topic none user_data = (false, bus)
  subscribe bus topic (some listener) user_data =
      if not bus.stored
      then (false, bus)
      else if leb bus.capacity (length bus.slots)
      then (false, bus)
      else (
        true,
        record bus {
          slots =
              bus.slots
              ++ record { callback = some listener; user_data = user_data; topic = topic } ∷ [];
        },
      )

  -- Post the node, or give it back where the mailbox refuses it.
  unfoldable pub enqueue : Bus → ℕ → Bool × Bus
  enqueue bus node = elim bus.mailbox [
    | none ↦ (false, bus)
    | some box ↦
        let (sent, box') = post node box in
        if sent
        then (true, record bus { mailbox = some box' })
        else (false, record bus { mailbox = some box'; nodes = release_node bus.nodes node })
  ]

  -- The calls that `event_bus_dispatch_to_subscribers` makes; NULL storage has none.
  unfoldable pub deliver : Bus → Message → List Call
  unfolding dispatch_to_subscribers
  deliver bus m = if bus.stored then dispatch_to_subscribers bus.slots m else []

  -- With no mailbox, and from a thread where the post fails, the message is delivered at once.
  unfoldable pub publish_common : Bus → Message → Bool → Bool × Bus × List Call
  unfolding alloc_node enqueue deliver
  publish_common bus m from_isr = elim bus.mailbox [
    | none ↦ (true, bus, deliver bus m)
    | some box ↦ elim (alloc_node bus.nodes m) [
      | none ↦ (false, bus, [])
      | some (node, nodes) ↦
          let (sent, bus') = enqueue (record bus { nodes = nodes }) node in
          if not sent && not from_isr then (true, bus', deliver bus' m) else (sent, bus', [])
    ]
  ]

  pub publish : Bus → Message → Bool × Bus × List Call
  unfolding publish_common
  publish bus m = publish_common bus m false

  pub publish_from_isr : Bus → Message → Bool × Bus × List Call
  unfolding publish_common
  publish_from_isr bus m = publish_common bus m true

  -- The message is copied from its node, delivered, and the node given back. A message that is no
  -- node is a fault, which ends the dispatch here.
  unfoldable pub dispatch : Bus → ℕ → Bool × Bus × List Call
  unfolding deliver node_at release_node
  dispatch bus timeout = elim bus.mailbox [
    | none ↦ (false, bus, [])
    | some box ↦ elim (fetch timeout box) [
      | none ↦ (false, bus, [])
      | some (raw, box') ↦ elim (node_at bus.nodes raw) [
        | none ↦ (false, bus, [])
        | some node ↦ (
          true,
          record bus { mailbox = some box'; nodes = release_node bus.nodes raw },
          deliver bus node.message,
        )
      ]
    ]
  ]
