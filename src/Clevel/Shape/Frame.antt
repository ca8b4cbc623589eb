-- ===== src/Clevel/Shape/Frame.antt =====
-- What a change elsewhere in the memory leaves of a tree, by the homes of the nodes; and the view of
-- such a tree as the map of its keys.
use combotree_new.Prelude.{ℕ, zero, suc, ◌≤◌, ◌<◌, ◌≡◌, arith, ap, ◌∙◌, Option}
use combotree_new.Word.{word_mod}
use combotree_new.SortBuffer.{sort_key}
use combotree_new.SortBuffer.AsMap.{sort_key-prefix}
use combotree_new.Clevel.{MemControl, Node, get_child}
use combotree_new.Clevel.Tree.{Holds, InPart}
use combotree_new.Clevel.Shape.{
  IsRange, IsRange-HasPrefix, IsIndex, IsTree, Home, low_at, high_at, keys_of, part-within,
  IsRange-part,
}

-- The nodes up to a height whose least key lies from `lo` up to `hi` are as they were.
pub record Keeps (mem : MemControl) (home : Home) (mem' : MemControl) (home' : Home)
    (height lo hi : ℕ) : Type 0 where
  pub grows : mem.cur_addr ≤ mem'.cur_addr
  pub nodes :
      (x : ℕ)
      → x < mem.cur_addr
      → (home x).0 ≤ height
      → lo ≤ (home x).1
      → (home x).1 < hi
      → mem'.nodes x ≡ mem.nodes x
  pub homes : (x : ℕ) → x < mem.cur_addr → home' x ≡ home x

Keeps-part :
    (mem mem' : MemControl) (home home' : Home) (height lo hi lo' hi' : ℕ)
    → lo ≤ lo'
    → hi' ≤ hi
    → Keeps mem home mem' home' (suc height) lo hi
    → Keeps mem home mem' home' height lo' hi'
Keeps-part mem mem' home home' height lo hi lo' hi' le le' k = record {
  grows = k.grows;
  nodes = λ x p q r t. k.nodes x p (omega arith) (omega arith) (omega arith);
  homes = k.homes;
}

module _ (s p : ℕ) where
  pub IsTree-Keeps :
      (mem mem' : MemControl) (home home' : Home) (height a lo hi : ℕ) (m : ℕ → Option ℕ)
      → p < word_mod
      → lo < hi
      → Keeps mem home mem' home' height lo hi
      → IsTree s p mem home height a lo hi m
      → IsTree s p mem' home' height a lo hi m
  unfolding IsTree
  IsTree-Keeps mem mem' home home' zero a lo hi m hp lt k (at, known, node, room) =
      rw
        (k.nodes a known (omega (arith, ap (λ h. h.0) at)) (omega (arith, ap (λ h. h.1) at))
          (omega (arith, ap (λ h. h.1) at)))
        (k.homes a known ∙ at, omega (arith, k.grows), node, room)
  IsTree-Keeps mem mem' home home' (suc height) a lo hi m hp lt k (at, known, node, room, parts) =
      rw
        (k.nodes a known (omega (arith, ap (λ h. h.0) at)) (omega (arith, ap (λ h. h.1) at))
          (omega (arith, ap (λ h. h.1) at)))
        (
          k.homes a known ∙ at,
          omega (arith, k.grows),
          node,
          room,
          λ i le.
              let keys = keys_of p (mem.nodes a).buf in
              let count : ℕ = (mem.nodes a).buf.entries in
              let (below, between, above) = part-within s p lo hi i (mem.nodes a) node hp lt le in
              IsTree-Keeps mem mem' home home' height (get_child (mem.nodes a) i) (low_at keys lo i)
                (high_at keys hi count i) m hp between
                (Keeps-part mem mem' home home' height lo hi (low_at keys lo i)
                  (high_at keys hi count i) below above k)
                (parts i le),
        )

  -- Only what the tree maps its own keys to matters.
  pub IsTree-ext :
      (mem : MemControl) (home : Home) (height a lo hi : ℕ) (m m' : ℕ → Option ℕ)
      → p < word_mod
      → lo < hi
      → ((key : ℕ) → lo ≤ key → key < hi → m key ≡ m' key)
      → IsTree s p mem home height a lo hi m
      → IsTree s p mem home height a lo hi m'
  unfolding IsTree
  IsTree-ext mem home zero a lo hi m m' hp lt same (at, known, node, room) = (
    at,
    known,
    record {
      kind = node.kind;
      node = node.node;
      bounds = node.bounds;
      maps = λ key le below. node.maps key le below ∙ same key le below;
    },
    room,
  )
  IsTree-ext mem home (suc height) a lo hi m m' hp lt same (at, known, node, room, parts) = (
    at,
    known,
    node,
    room,
    λ i le.
        let keys = keys_of p (mem.nodes a).buf in
        let count : ℕ = (mem.nodes a).buf.entries in
        let (below, between, above) = part-within s p lo hi i (mem.nodes a) node hp lt le in
        IsTree-ext mem home height (get_child (mem.nodes a) i) (low_at keys lo i)
          (high_at keys hi count i) m m' hp between
          (λ key q r. same key (omega arith) (omega arith)) (parts i le),
  )

pub Holds-restrict :
    (mem : MemControl) (p height a : ℕ) (In In' : ℕ → Type 0) (m : ℕ → Option ℕ)
    → ((key : ℕ) → In' key → In key)
    → Holds mem p height a In m
    → Holds mem p height a In' m
unfolding Holds
Holds-restrict mem p zero a In In' m sub (node, pre, maps) =
    (node, (λ key has. pre key (sub key has)), λ key has. maps key (sub key has))
Holds-restrict mem p (suc height) a In In' m sub (node, small, parts) = (
  node,
  (λ key has. small key (sub key has)),
  λ i le.
      Holds-restrict mem p height (get_child (mem.nodes a) i)
        (λ key. In key × InPart (mem.nodes a).buf i key)
        (λ key. In' key × InPart (mem.nodes a).buf i key) m (λ key has. (sub key has.0, has.1))
        (parts i le),
)

-- The keys of a child lie between its bounds.
pub InPart-between :
    (s p lo hi i key : ℕ) (n : Node)
    → IsRange s p lo hi
    → IsIndex s p n lo hi
    → i ≤ n.buf.entries
    → lo ≤ key
    → key < hi
    → InPart n.buf i key
    → (low_at (keys_of p n.buf) lo i ≤ key) × (key < high_at (keys_of p n.buf) hi n.buf.entries i)
InPart-between s p lo hi i key n range node le below above part = (from, to)
  where
    pre-same : (j : ℕ) → sort_key n.buf j key ≡ sort_key n.buf j p
    pre-same j =
        sort_key-prefix 6 n.buf j p key node.node.valid range.owner
          (rw (node.node.suffix) (IsRange-HasPrefix s p lo hi key range below above))

    from : low_at (keys_of p n.buf) lo i ≤ key
    from =
        elim i
            as (λ i.
              ((j : ℕ) → j < i → sort_key n.buf j key ≤ key)
              → low_at (keys_of p n.buf) lo i ≤ key) [
                | zero ↦ λ q. below
                | suc i ↦ λ q. omega (arith, q i (omega arith), pre-same i)
              ]
          part.0

    to : key < high_at (keys_of p n.buf) hi n.buf.entries i
    to = ground (arith, part.1 i, pre-same i)

-- A tree with bounds maps its keys as the plain predicate on trees says.
pub IsTree-Holds :
    (s p : ℕ) (mem : MemControl) (home : Home) (height a lo hi : ℕ) (m : ℕ → Option ℕ)
    → IsRange s p lo hi
    → IsTree s p mem home height a lo hi m
    → Holds mem p height a (λ key. (lo ≤ key) × (key < hi)) m
unfolding IsTree Holds
IsTree-Holds s p mem home zero a lo hi m range (at, known, node, room) = (
  (node.kind, node.node.valid, node.node.sorted),
  (λ key has. rw (node.node.suffix) (IsRange-HasPrefix s p lo hi key range has.0 has.1)),
  λ key has. node.maps key has.0 has.1,
)
IsTree-Holds s p mem home (suc height) a lo hi m range (at, known, node, room, parts) = (
  (node.kind, node.node.valid, node.node.sorted),
  (λ key has. omega (arith, range.to_word)),
  λ i le.
      let keys = keys_of p (mem.nodes a).buf in
      let low : ℕ = low_at keys lo i in
      let high : ℕ = high_at keys hi (mem.nodes a).buf.entries i in
      Holds-restrict mem p height (get_child (mem.nodes a) i) (λ key. (low ≤ key) × (key < high))
        (λ key. ((lo ≤ key) × (key < hi)) × InPart (mem.nodes a).buf i key) m
        (λ key has.
          InPart-between s p lo hi i key (mem.nodes a) range node le has.0.0 has.0.1 has.1)
        (IsTree-Holds s p mem home height (get_child (mem.nodes a) i) low high m
          (IsRange-part s p lo hi i (mem.nodes a) range node le) (parts i le)),
)

-- A tree stands in memory that is taken.
pub IsTree-known :
    (s p : ℕ) (mem : MemControl) (home : Home) (height a lo hi : ℕ) (m : ℕ → Option ℕ)
    → IsTree s p mem home height a lo hi m
    → (home a ≡ (height, lo)) × (a < mem.cur_addr)
unfolding IsTree
IsTree-known s p mem home zero a lo hi m (at, known, node, room) = (at, known)
IsTree-known s p mem home (suc height) a lo hi m (at, known, node, room, parts) = (at, known)
