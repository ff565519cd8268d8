-- ===== src/Table/NameTree/Walk.antt =====
-- The walk over the whole tree by a list of nodes still to visit, as `GetAllEntries` of pet.go and of
-- rib.go, and `walk` of fib-strategy-tree.go have it: the children of a visited node go to the front,
-- one after another.
use ndn_bier.Prelude.{ℕ, zero, suc, ◌+◌, ◌≤◌, ◌≡◌, refl, sym, ◌∙◌, ap, List, [], ◌∷◌, ◌++◌, arith}
use mathlib.Core.List.{append-nil, append_assoc}
use ndn_bier.Table.NameTree.{Node, Children, node, leaf, child, children}

module _ {K P : Type 0} where
  -- `queue.PushFront(child)` for each child.
  unfoldable pub push_children : Children K P → List (Node K P) → List (Node K P)
  push_children leaf queue = queue
  push_children (child k n cs) queue = push_children cs (n ∷ queue)

  unfoldable pub walk_loop : ℕ → List (Node K P) → List (Node K P)
  unfolding push_children
  walk_loop zero queue = []
  walk_loop (suc fuel) [] = []
  walk_loop (suc fuel) (n ∷ queue) = n ∷ walk_loop fuel (push_children (children n) queue)

  -- The number of nodes, which is fuel enough.
  unfoldable mutual
    pub size : Node K P → ℕ
    size (node name p cs) = suc (sizes cs)

    pub sizes : Children K P → ℕ
    sizes leaf = 0
    sizes (child k n cs) = size n + sizes cs

  unfoldable pub walk : Node K P → List (Node K P)
  unfolding walk_loop size
  walk root = walk_loop (suc (size root)) (root ∷ [])

  -- The reference: a node, then what is below its children, the last child first.
  unfoldable mutual
    pub preorder : Node K P → List (Node K P)
    preorder (node name p cs) = node name p cs ∷ preorders cs

    pub preorders : Children K P → List (Node K P)
    preorders leaf = []
    preorders (child k n cs) = preorders cs ++ preorder n

  unfoldable pub total : List (Node K P) → ℕ
  unfolding size
  total [] = 0
  total (n ∷ queue) = size n + total queue

  unfoldable pub visits : List (Node K P) → List (Node K P)
  unfolding preorder
  visits [] = []
  visits (n ∷ queue) = preorder n ++ visits queue

  total-push_children :
      (cs : Children K P) (queue : List (Node K P))
      → total (push_children cs queue) ≡ sizes cs + total queue
  unfolding total push_children size
  total-push_children leaf queue = omega arith
  total-push_children (child k n cs) queue = omega (arith, total-push_children cs (n ∷ queue))

  visits-push_children :
      (cs : Children K P) (queue : List (Node K P))
      → visits (push_children cs queue) ≡ preorders cs ++ visits queue
  unfolding visits push_children preorder
  visits-push_children leaf queue = refl
  visits-push_children (child k n cs) queue =
      visits-push_children cs (n ∷ queue)
      ∙ sym (append_assoc (preorders cs) (preorder n) (visits queue))

  walk_loop-visits :
      (fuel : ℕ) (queue : List (Node K P))
      → total queue ≤ fuel
      → walk_loop (suc fuel) queue ≡ visits queue
  unfolding walk_loop total visits
  walk_loop-visits fuel [] h = refl
  walk_loop-visits zero (node name p cs ∷ queue) h = absurd (unfold size in omega arith)
  walk_loop-visits (suc fuel) (node name p cs ∷ queue) h =
      ap (λ ns. node name p cs ∷ ns)
        (walk_loop-visits fuel (push_children cs queue)
            (unfold size in omega (arith, total-push_children cs queue))
          ∙ visits-push_children cs queue)

  -- The walk visits every node of the tree, a node before those below it.
  pub walk-preorder : (root : Node K P) → walk root ≡ preorder root
  unfolding walk
  walk-preorder root =
      walk_loop-visits (size root) (root ∷ []) (unfold total in omega arith)
      ∙ (unfold visits in append-nil (preorder root))
