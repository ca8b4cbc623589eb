-- ===== src/Clevel/Shape/SplitIndex.antt =====
-- The memory after an index node of src/clevel.cc is split under a parent that has room.
use combotree_new.Prelude.{
  ℕ, ◌+◌, ◌-◌, ◌/◌, ◌%◌, ◌^◌, ◌<◌, ◌≡◌, ◌≢◌, refl, arith, ap, ◌∙◌, sym, false, some, ◌==◌, ne→==,
  ==-refl, ◌>>=◌,
}
use combotree_new.SortBuffer.{
  SortBuffer, sort_key, sort_value, delete_data, copy_data, fresh, find, put,
}
use combotree_new.Clevel.{
  MemControl, Node, index_node, set_node, set_buf, set_link, new_node, put_child, upper_index,
  lower_index, split_index,
}
use combotree_new.Clevel.Shape.Split.{
  IsSplit, set_buf-at, set_buf-apart, set_buf-cur, put_child-grows,
}

module _ (mem : MemControl) (a key : ℕ) (known : a < mem.cur_addr) where
  abbrev old_node : Node
  old_node = mem.nodes a

  abbrev half : ℕ
  half = (old_node.buf.entries + 1) / 2

  abbrev index_separator : ℕ
  index_separator = sort_key old_node.buf (half - 1) key

  -- The new node: the pairs from `half` on, and the value before them as the first child.
  abbrev upper_node : Node
  upper_node = record {
    type = index_node;
    link = sort_value 6 old_node.buf (half - 1) % 2 ^ 48;
    buf =
        copy_data 6 old_node.buf (fresh (mem.nodes mem.cur_addr).buf.buf old_node.buf.suffix_bytes)
          half;
  }

  distinct : (x y : ℕ) → x ≢ y → ((x == y) ≡ false) × ((y == x) ≡ false)
  distinct x y d = (ne→== x y d, ne→== y x (λ e. d (sym e)))

  pub upper_index-new : (upper_index mem a).0.nodes mem.cur_addr ≡ upper_node
  unfolding upper_index new_node set_buf set_link set_node
  upper_index-new = rw (==-refl mem.cur_addr) refl

  pub upper_index-other :
      (x : ℕ) → (x == mem.cur_addr) ≡ false → (upper_index mem a).0.nodes x ≡ mem.nodes x
  unfolding upper_index new_node set_buf set_link set_node
  upper_index-other x e = rw e refl

  pub upper_index-cur :
      ((upper_index mem a).0.cur_addr ≡ mem.cur_addr + 128) × ((upper_index mem a).1 ≡ mem.cur_addr)
  unfolding upper_index new_node set_buf set_link set_node
  upper_index-cur = (refl, refl)

  pub lower_index-at :
      (m : MemControl)
      → (lower_index m a).nodes a ≡ record (m.nodes a) {
        buf = delete_data (m.nodes a).buf (((m.nodes a).buf.entries + 1) / 2 - 1);
      }
  unfolding lower_index set_buf set_node
  lower_index-at m = rw (==-refl a) refl

  pub lower_index-apart :
      (m : MemControl) (y : ℕ) → (y == a) ≡ false → (lower_index m a).nodes y ≡ m.nodes y
  unfolding lower_index set_buf set_node
  lower_index-apart m y e = rw e refl

  pub lower_index-cur : (m : MemControl) → (lower_index m a).cur_addr ≡ m.cur_addr
  unfolding lower_index set_buf set_node
  lower_index-cur m = refl

  abbrev made : MemControl
  made = (upper_index mem a).0

  a-new : ((a == mem.cur_addr) ≡ false) × ((mem.cur_addr == a) ≡ false)
  a-new = distinct a mem.cur_addr (λ e. absurd (omega arith))

  module _ (par r : ℕ) (known' : par < mem.cur_addr) (apart : a ≢ par) where
    abbrev grown : SortBuffer
    grown = put 6 (mem.nodes par).buf r index_separator mem.cur_addr

    abbrev over : MemControl
    over = set_buf made par grown

    par-new : ((par == mem.cur_addr) ≡ false) × ((mem.cur_addr == par) ≡ false)
    par-new = distinct par mem.cur_addr (λ e. absurd (omega arith))

    a-par : ((a == par) ≡ false) × ((par == a) ≡ false)
    a-par = distinct a par apart

    split_index-after :
        find (mem.nodes par).buf index_separator ≡ some (r, false)
        → split_index mem a key (some par) ≡ some (lower_index over a, mem.cur_addr)
    unfolding split_index
    split_index-after found =
        ap
          (λ (b : SortBuffer).
            put_child made par (sort_key b ((b.entries + 1) / 2 - 1) key) (upper_index mem a).1
            >>= (λ o. some (lower_index o a, (upper_index mem a).1)))
          (ap (λ (n : Node). n.buf) (upper_index-other a a-new.0))
        ∙ ap (λ (u : ℕ). put_child made par index_separator u >>= (λ o. some (lower_index o a, u)))
            upper_index-cur.1
        ∙ ap (λ q. q >>= (λ o. some (lower_index o a, mem.cur_addr)))
            (put_child-grows mem made par r index_separator mem.cur_addr
              (upper_index-other par par-new.0) found)

    -- A full index node is split at its middle key, which goes up.
    pub split_index-IsSplit :
        find (mem.nodes par).buf index_separator ≡ some (r, false)
        → (after : MemControl) × (split_index mem a key (some par) ≡ some (after, mem.cur_addr))
          × IsSplit mem a par r index_separator
              (record old_node { buf = delete_data old_node.buf (half - 1) })
              upper_node
              after
    split_index-IsSplit found = (
      lower_index over a,
      split_index-after found,
      record {
        cur = lower_index-cur over ∙ set_buf-cur made par grown ∙ upper_index-cur.0;
        at_old =
            lower_index-at over
            ∙ ap lowered (set_buf-apart made par a grown a-par.0 ∙ upper_index-other a a-new.0);
        at_new =
            lower_index-apart over mem.cur_addr a-new.1
            ∙ set_buf-apart made par mem.cur_addr grown par-new.1
            ∙ upper_index-new;
        at_par =
            lower_index-apart over par a-par.1
            ∙ set_buf-at made par grown
            ∙ ap (λ (n : Node). record n { buf = grown }) (upper_index-other par par-new.0);
        other = λ x da dp dn.
            lower_index-apart over x (ne→== x a da)
            ∙ set_buf-apart made par x grown (ne→== x par dp)
            ∙ upper_index-other x (ne→== x mem.cur_addr dn);
      },
    )
      where
        lowered : Node → Node
        lowered n = record n { buf = delete_data n.buf ((n.buf.entries + 1) / 2 - 1) }
