-- ===== src/EventBus/Nodes.antt =====
-- The pool of message nodes: which are in use, how many, and what they hold.
use mathlib.Core.Option.{some-injective}
use nano_vna_x.Base.{
  subst, sym, ◌∙◌, ℕ, zero, suc, ◌+◌, ◌≤◌, ◌<◌, ◌≡◌, ◌≢◌, ◌⊎◌, inl, inr, refl, ap, ap₂, true, false,
  none, some, List, [], ◌∷◌, ◌++◌, map, length, ◌==◌, if◌then◌else◌, arith, Bool-cases,
}
use nano_vna_x.EventBus.{Message, Node, alloc_node, release_node, node_at}

-- 1 at the index of a node in use, 0 elsewhere.
unfoldable pub bit : List Node → ℕ → ℕ
bit [] i = 0
bit (node ∷ nodes) zero = if node.in_use then 1 else 0
bit (node ∷ nodes) (suc i) = bit nodes i

pub used : List Node → ℕ
used [] = 0
used (node ∷ nodes) = (if node.in_use then 1 else 0) + used nodes

unfoldable pub count : ℕ → List ℕ → ℕ
count i [] = 0
count i (x ∷ xs) = (if i == x then 1 else 0) + count i xs

module _ (m : Message) where
  -- A node that is taken was free, and only it changes.
  pub record Taken (nodes : List Node) (k : ℕ) (nodes' : List Node) : Type 0 where
    pub free : bit nodes k ≡ 0
    pub taken : node_at nodes' k ≡ some (record { message = m; in_use = true })
    pub bits : (i : ℕ) → bit nodes' i ≡ (if i == k then 1 else bit nodes i)
    pub others : (i : ℕ) → i ≢ k → node_at nodes' i ≡ node_at nodes i
    pub size : length nodes' ≡ length nodes
    pub room : used nodes < length nodes

  alloc_step :
      (node : Node) (nodes : List Node) (k : ℕ) (nodes' : List Node)
      → node.in_use ≡ true
      → Taken nodes k nodes'
      → Taken (node ∷ nodes) (suc k) (node ∷ nodes')
  unfolding bit used node_at
  alloc_step node nodes k nodes' busy t = record {
    free = t.free;
    taken = t.taken;
    bits = bits;
    others = others;
    size = ap suc t.size;
    room = ground (arith, t.room);
  }
    where
      bits : (i : ℕ) → bit (node ∷ nodes') i ≡ (if i == suc k then 1 else bit (node ∷ nodes) i)
      bits zero = ground arith
      bits (suc i) = ground (arith, t.bits i)

      others : (i : ℕ) → i ≢ suc k → node_at (node ∷ nodes') i ≡ node_at (node ∷ nodes) i
      others zero ne = refl
      others (suc i) ne = t.others i (λ e. ne (ap suc e))

  alloc_first :
      (node : Node) (nodes : List Node)
      → node.in_use ≡ false
      → used nodes ≤ length nodes
      → Taken (node ∷ nodes) 0 (record { message = m; in_use = true } ∷ nodes)
  unfolding bit used node_at
  alloc_first node nodes idle le = record {
    free = rw idle;
    taken = refl;
    bits = bits;
    others = others;
    size = refl;
    room = ground arith;
  }
    where
      bits :
          (i : ℕ)
          → bit (record { message = m; in_use = true } ∷ nodes) i
            ≡ (if i == 0 then 1 else bit (node ∷ nodes) i)
      bits zero = refl
      bits (suc i) = ground arith

      others :
          (i : ℕ)
          → i ≢ 0
          → node_at (record { message = m; in_use = true } ∷ nodes) i ≡ node_at (node ∷ nodes) i
      others zero ne = absurd (ne refl)
      others (suc i) ne = refl

pub used-le : (nodes : List Node) → used nodes ≤ length nodes
unfolding used
used-le [] = omega arith
used-le (node ∷ nodes) = ground (arith, used-le nodes)

-- Either every node is in use, or one that is not is taken.
pub alloc_node_cases :
    (nodes : List Node) (m : Message)
    → ((alloc_node nodes m ≡ none) × (used nodes ≡ length nodes))
      ⊎ ((k : ℕ) × (nodes' : List Node) × (alloc_node nodes m ≡ some (k, nodes'))
          × Taken m nodes k nodes')
unfolding alloc_node used
alloc_node_cases [] m = inl (refl, refl)
alloc_node_cases (node ∷ nodes) m = elim (Bool-cases node.in_use) [
  | inr idle ↦ inr (
    0,
    record { message = m; in_use = true } ∷ nodes,
    rw idle,
    alloc_first m node nodes idle (used-le nodes),
  )
  | inl busy ↦ elim (alloc_node_cases nodes m) [
    | inl (e, full) ↦ inl (rw (busy, e), ground arith)
    | inr (k, nodes', e, t) ↦
        inr (suc k, node ∷ nodes', rw (busy, e), alloc_step m node nodes k nodes' busy t)
  ]
]

pub alloc_node-Taken :
    (nodes : List Node) (m : Message) (k : ℕ) (nodes' : List Node)
    → alloc_node nodes m ≡ some (k, nodes')
    → Taken m nodes k nodes'
alloc_node-Taken nodes m k nodes' e = elim (alloc_node_cases nodes m) [
  | inl (none_free, full) ↦ cc
  | inr (j, other, found, t) ↦
      subst (λ p. Taken m nodes p.0 p.1) (some-injective (j, other) (k, nodes') (sym found ∙ e)) t
]

-- A node that is given back is free, and nothing else changes.
pub bit-release_node :
    (nodes : List Node) (k i : ℕ)
    → bit (release_node nodes k) i ≡ (if i == k then 0 else bit nodes i)
unfolding bit release_node
bit-release_node [] k i = ground arith
bit-release_node (node ∷ nodes) zero zero = refl
bit-release_node (node ∷ nodes) zero (suc i) = ground arith
bit-release_node (node ∷ nodes) (suc k) zero = ground arith
bit-release_node (node ∷ nodes) (suc k) (suc i) = ground (arith, bit-release_node nodes k i)

pub length-release_node : (nodes : List Node) (k : ℕ) → length (release_node nodes k) ≡ length nodes
unfolding release_node
length-release_node [] k = refl
length-release_node (node ∷ nodes) zero = refl
length-release_node (node ∷ nodes) (suc k) = ap suc (length-release_node nodes k)

used-release_node :
    (nodes : List Node) (k : ℕ) → bit nodes k ≡ 1 → used nodes ≡ suc (used (release_node nodes k))
unfolding used bit release_node
used-release_node [] k h = absurd (omega arith)
used-release_node (node ∷ nodes) zero h = ground arith
used-release_node (node ∷ nodes) (suc k) h = ground (arith, used-release_node nodes k h)

used-zero : (nodes : List Node) → ((i : ℕ) → bit nodes i ≡ 0) → used nodes ≡ 0
unfolding used bit
used-zero [] h = refl
used-zero (node ∷ nodes) h = ground (arith, h 0, used-zero nodes (λ i. h (suc i)))

pub bit-le : (nodes : List Node) (i : ℕ) → bit nodes i ≤ 1
unfolding bit
bit-le [] i = omega arith
bit-le (node ∷ nodes) zero = ground arith
bit-le (node ∷ nodes) (suc i) = bit-le nodes i

-- If the queued indices are those of the nodes in use, once each, there are as many.
pub length-eq-used :
    (queue : List ℕ) (nodes : List Node)
    → ((i : ℕ) → count i queue ≡ bit nodes i)
    → length queue ≡ used nodes
unfolding count
length-eq-used [] nodes h = omega (arith, used-zero nodes (λ i. omega (arith, h i)))
length-eq-used (x ∷ queue) nodes h =
    omega (arith, used-release_node nodes x one, length-eq-used queue (release_node nodes x) rest)
  where
    one : bit nodes x ≡ 1
    one = ground (arith, h x, bit-le nodes x)

    rest : (i : ℕ) → count i queue ≡ bit (release_node nodes x) i
    rest i = ground (arith, h i, bit-le nodes i, bit-release_node nodes x i)

pub count-snoc :
    (i k : ℕ) (queue : List ℕ)
    → count i (queue ++ k ∷ []) ≡ count i queue + (if i == k then 1 else 0)
unfolding count
count-snoc i k [] = ground arith
count-snoc i k (x ∷ queue) = ground (arith, count-snoc i k queue)

pub map-agree {ℓ} :
    {B : Type ℓ} (f g : ℕ → B) (queue : List ℕ)
    → ((i : ℕ) → count i queue ≢ 0 → f i ≡ g i)
    → map f queue ≡ map g queue
unfolding count
map-agree f g [] h = refl
map-agree f g (x ∷ queue) h =
    ap₂ ◌∷◌ (h x (ground arith)) (map-agree f g queue (λ i ne. h i (λ e. ne (omega arith))))
