-- ===== src/Dlist/Chain.antt =====
-- What the links of src/util/dlist.c stand for: chains and circles of distinct nodes.
use unagi_os.Common.{◌≡◌, Bool, true, false, ◌||◌, List, [], ◌∷◌, ◌++◌, ◌==◌}
use unagi_os.Dlist.{Node, Links}

abbrev pub has : Node → List Node → Bool
has a [] = false
has a (x ∷ xs) = (a == x) || has a xs

abbrev pub Distinct : List Node → Type 0
Distinct [] = Unit
Distinct (x ∷ xs) = (has x xs ≡ false) × Distinct xs

abbrev pub Disjoint : List Node → List Node → Type 0
Disjoint xs ys = (a : Node) → has a xs ≡ true → has a ys ≡ false

-- `b` follows `a`, by both links
abbrev pub Linked : Links → Node → Node → Type 0
Linked m a b = (m.next a ≡ b) × (m.prev b ≡ a)

-- From `a` the links lead through `xs` to `b`, and back.
abbrev pub Chain : Links → Node → List Node → Node → Type 0
Chain m a [] b = Linked m a b
Chain m a (x ∷ xs) b = Linked m a x × Chain m x xs b

-- `a` and `xs` are the nodes of a circle, in order, each once.
abbrev pub Circle : Links → Node → List Node → Type 0
Circle m a xs = Chain m a xs a × Distinct (a ∷ xs)

-- the last node before the end of a chain, and the first behind its start
abbrev pub last_of : Node → List Node → Node
last_of a [] = a
last_of a (x ∷ xs) = last_of x xs

abbrev pub first_of_chain : List Node → Node → Node
first_of_chain [] b = b
first_of_chain (x ∷ xs) b = x

pub prev-Chain :
    (m : Links) (a : Node) (xs : List Node) (b : Node) → Chain m a xs b → m.prev b ≡ last_of a xs
prev-Chain m a [] b c = c.1
prev-Chain m a (x ∷ xs) b c = prev-Chain m x xs b c.1

pub next-Chain :
    (m : Links) (a : Node) (xs : List Node) (b : Node)
    → Chain m a xs b
    → m.next a ≡ first_of_chain xs b
next-Chain m a [] b c = c.0
next-Chain m a (x ∷ xs) b c = c.0.0

-- A chain through `b` is a chain to `b` and one from `b`.
pub Chain-append :
    (m : Links) (a : Node) (xs : List Node) (b : Node) (ys : List Node) (c : Node)
    → Chain m a xs b
    → Chain m b ys c
    → Chain m a (xs ++ b ∷ ys) c
Chain-append m a [] b ys c h k = (h, k)
Chain-append m a (x ∷ xs) b ys c h k = (h.0, Chain-append m x xs b ys c h.1 k)

pub Chain-split :
    (m : Links) (a : Node) (xs : List Node) (b : Node) (ys : List Node) (c : Node)
    → Chain m a (xs ++ b ∷ ys) c
    → Chain m a xs b × Chain m b ys c
Chain-split m a [] b ys c h = (h.0, h.1)
Chain-split m a (x ∷ xs) b ys c h = let (l, r) = Chain-split m x xs b ys c h.1 in ((h.0, l), r)
