-- ===== src/EventBus/Order.antt =====
-- Dispatching, and sequences of publications and dispatches.

use nano_vna_x.Base.{
  ℕ, zero, suc, ◌≡◌, ◌≢◌, refl, ap, ap₂, sym, subst, Bool, true, false, none, some, List, [], ◌∷◌,
  map, length, arith,
}
use nano_vna_x.EventBus.Port.{Mailbox}
use nano_vna_x.EventBus.{Message, Node, Call, Bus, release_node, node_at, dispatch, deliver}
use nano_vna_x.EventBus.Nodes.{bit, count, bit-release_node, length-release_node, bit-le}
use nano_vna_x.EventBus.Refine.{IsTracked, pending, message_at, nothing}

message_at-release_node :
    (nodes : List Node) (k i : ℕ) → message_at (release_node nodes k) i ≡ message_at nodes i
unfolding message_at release_node node_at
message_at-release_node [] k i = refl
message_at-release_node (node ∷ nodes) zero zero = refl
message_at-release_node (node ∷ nodes) zero (suc i) = refl
message_at-release_node (node ∷ nodes) (suc k) zero = refl
message_at-release_node (node ∷ nodes) (suc k) (suc i) = message_at-release_node nodes k i

node_at-used :
    (nodes : List Node) (i : ℕ) → bit nodes i ≢ 0 → (node : Node) × (node_at nodes i ≡ some node)
unfolding node_at bit
node_at-used [] i h = absurd (h refl)
node_at-used (node ∷ nodes) zero h = (node, refl)
node_at-used (node ∷ nodes) (suc i) h = node_at-used nodes i h

map-ext : {A : Type 0} (f g : ℕ → A) (xs : List ℕ) → ((i : ℕ) → f i ≡ g i) → map f xs ≡ map g xs
map-ext f g [] h = refl
map-ext f g (x ∷ xs) h = ap₂ ◌∷◌ (h x) (map-ext f g xs h)

module _ (mb : Mailbox) where
  open mb use {Box, fetch, view, capacity, fetch_empty, fetch_first}

  -- What the dispatch of `m` leaves.
  pub record Dispatched (bus : Bus mb) (m : Message) (rest : List Message)
      (r : Bool × Bus mb × List Call) : Type 0 where
    pub box' : Box
    pub result : r.0 ≡ true
    pub delivered : r.2 ≡ deliver mb bus m
    pub queue : pending mb r.1 box' ≡ rest
    pub kept : IsTracked mb r.1 box'
    pub size : length r.1.nodes ≡ length bus.nodes
    pub subscriptions : (r.1.slots ≡ bus.slots) × (r.1.stored ≡ bus.stored)

  module _ (bus : Bus mb) (box : Box) (timeout : ℕ) (t : IsTracked mb bus box) where
    -- With nothing pending a dispatch fails and changes nothing.
    pub dispatch_idle : view box ≡ [] → dispatch mb bus timeout ≡ (false, bus, [])
    unfolding dispatch
    dispatch_idle e = ground (arith, t.ready, fetch_empty timeout box e)

    pub dispatch_first :
        (x : ℕ) (rest : List ℕ)
        → view box ≡ x ∷ rest
        → Dispatched bus
            (message_at bus.nodes x)
            (map (message_at bus.nodes) rest)
            (dispatch mb bus timeout)
    unfolding pending message_at count dispatch
    dispatch_first x rest e = subst (Dispatched bus _ _) (sym taken) (record {
      box' = first.0;
      result = refl;
      delivered = ap (deliver mb bus) (sym at);
      queue = rw (first.2) (map-ext _ _ rest (message_at-release_node bus.nodes x));
      kept = record {
        ready = refl;
        tracked = tracked';
        wide = omega (arith, first.3, t.wide, length-release_node bus.nodes x);
      };
      size = length-release_node bus.nodes x;
      subscriptions = (refl, refl);
    })
      where
        first :
            (b' : Box) × (fetch timeout box ≡ some (x, b'))
            × (view b' ≡ rest)
            × (capacity b' ≡ capacity box)
        first = fetch_first timeout x rest box e

        held : bit bus.nodes x ≡ suc (count x rest)
        held = ground (arith, t.tracked x, e)

        found : (node : Node) × (node_at bus.nodes x ≡ some node)
        found = node_at-used bus.nodes x (omega (arith, held))

        at : message_at bus.nodes x ≡ found.0.message
        at = ap (λ n. elim n [ none ↦ nothing | some node ↦ node.message ]) found.1

        taken : dispatch mb bus timeout ≡ (
          true,
          record bus { mailbox = some first.0; nodes = release_node bus.nodes x },
          deliver mb bus found.0.message,
        )
        taken = ground (arith, t.ready, first.1, found.1)

        tracked' : (i : ℕ) → count i (view first.0) ≡ bit (release_node bus.nodes x) i
        tracked' i =
            rw (first.2, bit-release_node bus.nodes x i)
              (ground (arith, t.tracked i, e, held, bit-le bus.nodes x))
