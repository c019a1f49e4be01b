-- ===== src/EventBus/Overflow.antt =====
-- A publication that finds a free node and a full mailbox.
use nano_vna_x.Base.{ℕ, ◌≤◌, ◌≡◌, Bool, not, some, List, [], length, if◌then◌else◌, arith}
use nano_vna_x.EventBus.Port.{Mailbox}
use nano_vna_x.EventBus.{Message, Node, Bus, alloc_node, publish_common, deliver}
use nano_vna_x.EventBus.Nodes.{bit, Taken, alloc_node-Taken, bit-release_node}

module _ (mb : Mailbox) where
  open mb use {Box, post, view, capacity, post_full}

  -- From a thread the message is delivered at once, ahead of those in the mailbox, and the call
  -- succeeds; from an interrupt it is lost, and the call fails. Either way every node is in use
  -- after the call exactly if it was before.
  pub publish_overflow :
      (bus : Bus mb) (box : Box) (m : Message) (isr : Bool) (k : ℕ) (nodes' : List Node)
      → bus.mailbox ≡ some box
      → capacity box ≤ length (view box)
      → alloc_node bus.nodes m ≡ some (k, nodes')
      → ((publish_common mb bus m isr).0 ≡ not isr)
        × ((publish_common mb bus m isr).2 ≡ (if isr then [] else deliver mb bus m))
        × ((i : ℕ) → bit (publish_common mb bus m isr).1.nodes i ≡ bit bus.nodes i)
  unfolding publish_common
  publish_overflow bus box m isr k nodes' ready full e = (
    ground (arith, (post_full k box full).0),
    ground (arith, (post_full k box full).0),
    λ i.
        ground
          (arith, (post_full k box full).0, bit-release_node nodes' k i, taken.bits i, taken.free),
  )
    where
      taken : Taken m bus.nodes k nodes'
      taken = alloc_node-Taken bus.nodes m k nodes' e
