-- ===== src/Clevel/Shape/SplitNode.antt =====
-- The two trees that the split of a full index node of src/clevel.cc leaves under a parent that has
-- room.
use native.Mathlib.Nat.{mod-eq_of_lt}
use combotree_new.Prelude.{
  ℕ, suc, ◌+◌, ◌-◌, ◌/◌, ◌%◌, ◌^◌, ◌≤◌, ◌<◌, ◌≡◌, ◌≢◌, ◌⊎◌, inl, inr, refl, arith, ap, ◌∙◌, sym,
  subst, false, Option, some, ne→==, ==-refl,
}
use combotree_new.SortBuffer.{sort_key, sort_value, find, delete_data, copy_data, fresh}
use combotree_new.SortBuffer.Fresh.{capacity-two}
use combotree_new.SortBuffer.AsMap.{HasPrefix, sort_key-prefix}
use combotree_new.Clevel.{MemControl, Node, index_node, split_index, get_child}
use combotree_new.Clevel.Shape.{
  IsRange, IsRange-HasPrefix, IsIndex, IsTree, Home, keys_of, low_at, high_at, part-within,
}
use combotree_new.Clevel.Shape.Frame.{Keeps, IsTree-Keeps, IsTree-known}
use combotree_new.Clevel.Shape.Indexes.{higher}
use combotree_new.SortBuffer.Header.{Turns, cut-Turns}
use combotree_new.Clevel.Shape.Split.{IsSplit}
use combotree_new.Clevel.Shape.SplitIndex.{split_index-IsSplit}
use combotree_new.Clevel.Shape.Outcome.{Splits, new_home}
use combotree_new.Clevel.Shape.Parts.{lower-IsTree, higher-IsTree}

module _ (s p : ℕ) (mem : MemControl) (home : Home) (height a lo hi : ℕ) (m : ℕ → Option ℕ)
    (range : IsRange s p lo hi) (node : IsIndex s p (mem.nodes a) lo hi)
    (full : (mem.nodes a).buf.entries ≡ (mem.nodes a).buf.max_entries)
    (parts : (i : ℕ)
      → i ≤ (mem.nodes a).buf.entries
      → IsTree s p mem home height
          (get_child (mem.nodes a) i)
          (low_at (keys_of p (mem.nodes a).buf) lo i)
          (high_at (keys_of p (mem.nodes a).buf) hi (mem.nodes a).buf.entries i)
          m)
    (memory : mem.cur_addr ≤ 2 ^ 48) where
  abbrev n : Node
  n = mem.nodes a

  abbrev half : ℕ
  half = (n.buf.entries + 1) / 2

  abbrev middle : ℕ
  middle = half - 1

  abbrev pub index_separator : ℕ
  index_separator = keys_of p n.buf middle

  inner : middle < n.buf.entries
  inner = omega (arith, capacity-two s range.long, node.node.capacity, full)

  more : middle + 1 < n.buf.entries
  more = omega (arith, capacity-two s range.long, node.node.capacity, full)

  middle-Turns : Turns middle (n.buf.entries - middle)
  middle-Turns =
      let valid = node.node.valid in
      cut-Turns n.buf.entries middle (omega (arith, valid.capacity, valid.count)) inner
        (omega arith)

  half-eq : half ≡ middle + 1
  half-eq = omega (arith, capacity-two s range.long, node.node.capacity, full)

  pub index_separator_read :
      (key : ℕ) → lo ≤ key → key < hi → sort_key n.buf middle key ≡ index_separator
  index_separator_read key low high =
      sort_key-prefix 6 n.buf middle p key node.node.valid range.owner (
        subst (λ q. HasPrefix q p key) (sym node.node.suffix)
          (IsRange-HasPrefix s p lo hi key range low high))

  pub index_separator-between : (lo < index_separator) × (index_separator < hi)
  index_separator-between = node.bounds middle inner

  abbrev pub lower_half : Node
  lower_half = record n { buf = delete_data n.buf middle }

  abbrev pub upper_half : Node
  upper_half = record {
    type = index_node;
    link = sort_value 6 n.buf middle % 2 ^ 48;
    buf = copy_data 6 n.buf (fresh (mem.nodes mem.cur_addr).buf.buf n.buf.suffix_bytes) half;
  }

  -- The child above the middle key is an address, so its six bytes hold it.
  upper_half-eq :
      upper_half ≡ higher s p lo hi n middle node range.owner inner (mem.nodes mem.cur_addr).buf.buf
  upper_half-eq =
      ap
        (λ (l : ℕ). record {
          type = index_node;
          link = l;
          buf = copy_data 6 n.buf (fresh (mem.nodes mem.cur_addr).buf.buf n.buf.suffix_bytes) half;
        })
        link_eq
      ∙ ap
          (λ (h : ℕ). record {
            type = index_node;
            link = get_child n (middle + 1);
            buf = copy_data 6 n.buf (fresh (mem.nodes mem.cur_addr).buf.buf n.buf.suffix_bytes) h;
          })
          half-eq
    where
      child_small : get_child n (suc middle) < 2 ^ 48
      child_small = omega (
        arith,
        memory,
        (IsTree-known s p mem home height (get_child n (suc middle))
            (low_at (keys_of p n.buf) lo (suc middle))
            (high_at (keys_of p n.buf) hi n.buf.entries (suc middle)) m
            (parts (suc middle) (omega (arith, inner)))).1,
      )

      stored : get_child n (suc middle) ≡ sort_value 6 n.buf middle
      stored = unfold get_child in refl

      link_eq : sort_value 6 n.buf middle % 2 ^ 48 ≡ get_child n (middle + 1)
      link_eq =
          mod-eq_of_lt (omega (arith, stored, child_small))
          ∙ sym stored
          ∙ ap (get_child n) {x = suc middle} {y = middle + 1} (omega arith)

  module _ (after : MemControl) (home' : Home)
      (keeps : Keeps mem home after home' height lo hi) where
    children :
        (i : ℕ)
        → i ≤ n.buf.entries
        → IsTree s p after home' height
            (get_child n i)
            (low_at (keys_of p n.buf) lo i)
            (high_at (keys_of p n.buf) hi n.buf.entries i)
            m
    children i le =
        let (below, mid, above) = part-within s p lo hi i n node range.owner range.some_key le in
        IsTree-Keeps s p mem after home home' height (get_child n i) (low_at (keys_of p n.buf) lo i)
          (high_at (keys_of p n.buf) hi n.buf.entries i) m range.owner mid
          (record {
            grows = keeps.grows;
            nodes = λ y t small under over.
                keeps.nodes y t small (omega (arith, below)) (omega (arith, above));
            homes = keeps.homes;
          })
          (parts i le)

    pub lower_index-IsTree :
        home' a ≡ (suc height, lo)
        → a < after.cur_addr
        → after.nodes a ≡ lower_half
        → IsTree s p after home' (suc height) a lo index_separator m
    lower_index-IsTree at known here =
        lower-IsTree s p after home' height lo hi m n middle node range.owner inner
          (omega (arith, full)) children middle-Turns a at known here

    pub upper_index-IsTree :
        home' mem.cur_addr ≡ (suc height, index_separator)
        → mem.cur_addr < after.cur_addr
        → after.nodes mem.cur_addr ≡ upper_half
        → IsTree s p after home' (suc height) mem.cur_addr index_separator hi m
    upper_index-IsTree at known here =
        higher-IsTree s p after home' height lo hi m n middle node range.owner inner
          (omega (arith, full)) children more (mem.nodes mem.cur_addr).buf.buf mem.cur_addr at known
          (here ∙ upper_half-eq)

module _ (s p : ℕ) (mem : MemControl) (home : Home) (height a par r lo hi : ℕ) (m : ℕ → Option ℕ)
    (key : ℕ) (range : IsRange s p lo hi) (at : home a ≡ (suc height, lo))
    (known : a < mem.cur_addr) (node : IsIndex s p (mem.nodes a) lo hi)
    (full : (mem.nodes a).buf.entries ≡ (mem.nodes a).buf.max_entries)
    (parts : (i : ℕ)
      → i ≤ (mem.nodes a).buf.entries
      → IsTree s p mem home height
          (get_child (mem.nodes a) i)
          (low_at (keys_of p (mem.nodes a).buf) lo i)
          (high_at (keys_of p (mem.nodes a).buf) hi (mem.nodes a).buf.entries i)
          m)
    (low : lo ≤ key) (high : key < hi) (known' : par < mem.cur_addr)
    (over : suc height < (home par).0)
    (place : (k : ℕ) → lo < k → k < hi → find (mem.nodes par).buf k ≡ some (r, false))
    (memory : mem.cur_addr ≤ 2 ^ 48) where
  abbrev separator : ℕ
  separator = index_separator s p mem home height a lo hi m range node full parts memory

  between : (lo < separator) × (separator < hi)
  between = index_separator-between s p mem home height a lo hi m range node full parts memory

  apart : a ≢ par
  apart e = absurd (omega (arith, ap (λ (q : ℕ). (home q).0) e, ap (λ q. q.0) at))

  abbrev home' : Home
  home' = new_home home mem.cur_addr (suc height) separator

  homes : (y : ℕ) → y < mem.cur_addr → home' y ≡ home y
  homes y lt = rw (ne→== y mem.cur_addr (λ e. absurd (omega arith))) refl

  inside :
      (y : ℕ) → y ≡ a → ((suc height < (home y).0) ⊎ (((home y).1 < lo) ⊎ (hi ≤ (home y).1))) → ⊥
  inside y e (inl q) = omega (arith, ap (λ (t : ℕ). (home t).0) e, ap (λ t. t.0) at)
  inside y e (inr (inl q)) = omega (arith, ap (λ (t : ℕ). (home t).1) e, ap (λ t. t.1) at)
  inside y e (inr (inr q)) =
      omega (arith, ap (λ (t : ℕ). (home t).1) e, ap (λ t. t.1) at, range.some_key)

  abbrev old_half : Node
  old_half = lower_half s p mem home height a lo hi m range node full parts memory

  abbrev new_half : Node
  new_half = upper_half s p mem home height a lo hi m range node full parts memory

  splits :
      (after : MemControl)
      → IsSplit mem a par r separator old_half new_half after
      → Splits s p mem home (suc height) a par r lo hi m after home' mem.cur_addr separator
  splits after h = record {
    within = record {
      grows = omega (arith, h.cur);
      few = omega (arith, h.cur);
      aligned = omega (arith, h.cur);
      homes = homes;
      kept = λ y lt dp out. h.other y (λ e. inside y e out) dp (λ e. absurd (omega arith));
    };
    above = between.0;
    below = between.1;
    lower =
        lower_index-IsTree s p mem home height a lo hi m range node full parts memory after home'
          keeps (homes a known ∙ at) (omega (arith, h.cur)) h.at_old;
    upper =
        upper_index-IsTree s p mem home height a lo hi m range node full parts memory after home'
          keeps (rw (==-refl mem.cur_addr) refl) (omega (arith, h.cur)) h.at_new;
    new = omega arith;
    parent = h.at_par;
  }
    where
      keeps : Keeps mem home after home' height lo hi
      keeps = record {
        grows = omega (arith, h.cur);
        nodes = λ y lt small under above.
            h.other y (λ e. absurd (omega (arith, ap (λ (t : ℕ). (home t).0) e, ap (λ t. t.0) at)))
              (λ e. absurd (omega (arith, ap (λ (t : ℕ). (home t).0) e)))
              (λ e. absurd (omega arith));
        homes = homes;
      }

  -- A full index node becomes two.
  pub split_index-Splits :
      (after : MemControl) × (split_index mem a key (some par) ≡ some (after, mem.cur_addr))
      × (after.cur_addr ≡ mem.cur_addr + 128)
      × Splits s p mem home (suc height) a par r lo hi m after home' mem.cur_addr separator
  split_index-Splits =
      let read =
        index_separator_read s p mem home height a lo hi m range node full parts memory key low
          high in
      let (after, e, h) =
        split_index-IsSplit mem a key known par r known' apart
          (ap (find (mem.nodes par).buf) read ∙ place separator between.0 between.1) in
      (
        after,
        e,
        h.cur,
        splits after (subst (λ q. IsSplit mem a par r q old_half new_half after) read h),
      )
