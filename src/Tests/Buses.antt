-- ===== src/Tests/Buses.antt =====
-- src/sys/event_bus.c at a concrete mailbox.
use nano_vna_x.Base.{
  ℕ, zero, suc, ◌<◌, ◌≤◌, ◌≡◌, refl, Bool, true, false, Option, none, some, List, [], ◌∷◌, ◌++◌,
  length, ltb, lt→ltb, if◌then◌else◌, arith,
}
use nano_vna_x.EventBus.Port.{Mailbox}
use nano_vna_x.EventBus.{Message, Node, Bus, sweep_started, publish_common, alloc_node, deliver}
use nano_vna_x.EventBus.Nodes.{bit, count}
use nano_vna_x.EventBus.Refine.{IsTracked, pending}
use nano_vna_x.EventBus.Queue.{Op}
use nano_vna_x.EventBus.Queue
use nano_vna_x.EventBus.Sequences.{run, run_refines}
use nano_vna_x.EventBus.Overflow.{publish_overflow}

-- A mailbox as a list with its limit.
abbrev ListBox : Type 0
ListBox = List ℕ × ℕ

abbrev post_list : ℕ → ListBox → Bool × ListBox
post_list m b = if ltb (length b.0) b.1 then (true, (b.0 ++ m ∷ [], b.1)) else (false, b)

abbrev fetch_list : ListBox → Option (ℕ × ListBox)
fetch_list ([], n) = none
fetch_list (m ∷ rest, n) = some (m, (rest, n))

post_list_room :
    (m : ℕ) (b : ListBox)
    → length b.0 < b.1
    → ((post_list m b).0 ≡ true) × ((post_list m b).1.0 ≡ b.0 ++ m ∷ [])
post_list_room m b h = rw (lt→ltb (length b.0) b.1 h) (refl, refl)

post_list_full :
    (m : ℕ) (b : ListBox)
    → b.1 ≤ length b.0
    → ((post_list m b).0 ≡ false) × ((post_list m b).1.0 ≡ b.0)
post_list_full m b h = rw (not_room) (refl, refl)
  where
    not_room : ltb (length b.0) b.1 ≡ false
    not_room = ground arith

post_list_capacity : (m : ℕ) (b : ListBox) → (post_list m b).1.1 ≡ b.1
post_list_capacity m b = ground arith

fetch_list_empty : (timeout : ℕ) (b : ListBox) → b.0 ≡ [] → fetch_list b ≡ none
fetch_list_empty timeout ([], n) e = refl
fetch_list_empty timeout (m ∷ rest, n) e = cc

fetch_list_first :
    (timeout m : ℕ) (rest : List ℕ) (b : ListBox)
    → b.0 ≡ m ∷ rest
    → (b' : ListBox) × (fetch_list b ≡ some (m, b')) × (b'.0 ≡ rest) × (b'.1 ≡ b.1)
fetch_list_first timeout m rest ([], n) e = cc
fetch_list_first timeout m rest (x ∷ q, n) e = ((rest, n), cc, refl, refl)

abbrev list_mailbox : Mailbox
list_mailbox = record {
  Box = ListBox;
  create = λ n. ([], n);
  post = post_list;
  fetch = λ timeout. fetch_list;
  view = λ b. b.0;
  capacity = λ b. b.1;
  create_empty = λ n. (refl, refl);
  post_room = post_list_room;
  post_full = post_list_full;
  post_capacity = post_list_capacity;
  fetch_empty = fetch_list_empty;
  fetch_first = fetch_list_first;
}

abbrev idle_node : Node
idle_node = record { message = record { topic = sweep_started; payload = 0 }; in_use = false }

abbrev bus : Bus list_mailbox
bus = record {
  stored = true;
  capacity = 6;
  slots = record { callback = some 9; user_data = 7; topic = sweep_started } ∷ [];
  mailbox = some ([], 2);
  nodes = idle_node ∷ idle_node ∷ [];
}

bus-IsTracked : IsTracked list_mailbox bus ([], 2)
unfolding bit count
bus-IsTracked = record { ready = refl; tracked = tracked; wide = omega arith }
  where
    tracked : (i : ℕ) → 0 ≡ bit bus.nodes i
    tracked zero = refl
    tracked (suc zero) = refl
    tracked (suc (suc i)) = refl

abbrev started : ℕ → Message
started n = record { topic = sweep_started; payload = n }

-- A third message finds no node; the first is delivered first.
abbrev script : List Op
script =
    Op.publish (started 1) false
    ∷ Op.publish (started 2) true
    ∷ Op.publish (started 3) false
    ∷ Op.dispatch 0
    ∷ Op.dispatch 0
    ∷ Op.dispatch 0
    ∷ []

run_refines_example :
    run list_mailbox bus script
    ≡ Queue.run 2 (deliver list_mailbox bus) (pending list_mailbox bus ([], 2)) script
run_refines_example = run_refines list_mailbox script bus ([], 2) bus-IsTracked

-- A mailbox for one message in front of two nodes.
abbrev narrow : Bus list_mailbox
narrow = record bus {
  mailbox = some (0 ∷ [], 1);
  nodes = record idle_node { in_use = true } ∷ idle_node ∷ [];
}

abbrev narrow_nodes : List Node
narrow_nodes =
    record idle_node { in_use = true } ∷ record { message = started 2; in_use = true } ∷ []

publish_overflow_example :
    ((publish_common list_mailbox narrow (started 2) false).0 ≡ true)
    × ((publish_common list_mailbox narrow (started 2) false).2
        ≡ deliver list_mailbox narrow (started 2))
    × ((i : ℕ)
        → bit (publish_common list_mailbox narrow (started 2) false).1.nodes i ≡ bit narrow.nodes i)
unfolding alloc_node
publish_overflow_example =
    publish_overflow list_mailbox narrow (0 ∷ [], 1) (started 2) false 1 narrow_nodes refl
      (omega arith) refl
