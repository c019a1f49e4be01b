-- ===== src/EventBus/Port.antt =====
-- What src/sys/event_bus.c uses of the mailboxes of ChibiOS: `chMBObjectInit`, `chMBPost` with
-- TIME_IMMEDIATE and `chMBPostI`, and `chMBFetch`. A message is the index of a node.
use nano_vna_x.Base.{
  ℕ, ◌<◌, ◌≤◌, ◌≡◌, Bool, true, false, Option, none, some, List, [], ◌∷◌, ◌++◌, length,
}

-- A bounded queue: a post is refused when the box is full, and a fetch takes the oldest message, or
-- times out on an empty box. The wait of a fetch is not modelled, only what it ends with.
pub record Mailbox : Type 1 where
  pub Box : Type 0
  pub create : ℕ → Box
  pub post : ℕ → Box → Bool × Box
  pub fetch : ℕ → Box → Option (ℕ × Box)
  pub view : Box → List ℕ
  pub capacity : Box → ℕ
  pub create_empty : (n : ℕ) → (view (create n) ≡ []) × (capacity (create n) ≡ n)
  pub post_room :
      (m : ℕ) (b : Box)
      → length (view b) < capacity b
      → ((post m b).0 ≡ true) × (view (post m b).1 ≡ view b ++ m ∷ [])
  pub post_full :
      (m : ℕ) (b : Box)
      → capacity b ≤ length (view b)
      → ((post m b).0 ≡ false) × (view (post m b).1 ≡ view b)
  pub post_capacity : (m : ℕ) (b : Box) → capacity (post m b).1 ≡ capacity b
  pub fetch_empty : (timeout : ℕ) (b : Box) → view b ≡ [] → fetch timeout b ≡ none
  pub fetch_first :
      (timeout m : ℕ) (rest : List ℕ) (b : Box)
      → view b ≡ m ∷ rest
      → (b' : Box) × (fetch timeout b ≡ some (m, b'))
        × (view b' ≡ rest)
        × (capacity b' ≡ capacity b)
