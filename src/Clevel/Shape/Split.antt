-- ===== src/Clevel/Shape/Split.antt =====
-- The memory after a node of src/clevel.cc is split under a parent that has room.
use combotree_new.Prelude.{
  ℕ, ◌+◌, ◌/◌, ◌%◌, ◌^◌, ◌<◌, ◌≡◌, ◌≢◌, refl, arith, ap, ◌∙◌, sym, true, false, some, ◌==◌, ne→==,
  ==-refl, ◌>>=◌,
}
use combotree_new.SortBuffer.{SortBuffer, sort_key, delete_data, copy_data, fresh, find, put}
use combotree_new.Clevel.{
  MemControl, Node, leaf, set_node, set_buf, set_link, new_node, put_child, upper_leaf, lower_leaf,
  split_leaf,
}

-- The node at `a` becomes `old`, the new node after all others `new`, and the parent gets the new
-- node as the child after its child `r`, above `separator`.
pub record IsSplit (mem : MemControl) (a par r separator : ℕ) (old new : Node) (after : MemControl)
    : Type 0 where
  pub cur : after.cur_addr ≡ mem.cur_addr + 128
  pub at_old : after.nodes a ≡ old
  pub at_new : after.nodes mem.cur_addr ≡ new
  pub at_par : after.nodes par ≡ record {
    type = (mem.nodes par).type;
    link = (mem.nodes par).link;
    buf = put 6 (mem.nodes par).buf r separator mem.cur_addr;
  }
  pub other : (x : ℕ) → x ≢ a → x ≢ par → x ≢ mem.cur_addr → after.nodes x ≡ mem.nodes x

-- Writes of one node and reads of it and of others.
pub set_buf-at :
    (m : MemControl) (x : ℕ) (b : SortBuffer)
    → (set_buf m x b).nodes x ≡ record (m.nodes x) { buf = b }
unfolding set_buf set_node
set_buf-at m x b = rw (==-refl x) refl

pub set_buf-apart :
    (m : MemControl) (x y : ℕ) (b : SortBuffer)
    → (y == x) ≡ false
    → (set_buf m x b).nodes y ≡ m.nodes y
unfolding set_buf set_node
set_buf-apart m x y b e = rw e refl

pub set_buf-cur : (m : MemControl) (x : ℕ) (b : SortBuffer) → (set_buf m x b).cur_addr ≡ m.cur_addr
unfolding set_buf set_node
set_buf-cur m x b = refl

pub put_child-grows :
    (mem made : MemControl) (par r separator child : ℕ)
    → made.nodes par ≡ mem.nodes par
    → find (mem.nodes par).buf separator ≡ some (r, false)
    → put_child made par separator child
      ≡ some (set_buf made par (put 6 (mem.nodes par).buf r separator child))
unfolding put_child
put_child-grows mem made par r separator child same found = rw (put_child, same, found) refl

module _ (mem : MemControl) (a key : ℕ) (known : a < mem.cur_addr) where
  abbrev old_node : Node
  old_node = mem.nodes a

  abbrev half : ℕ
  half = old_node.buf.entries / 2

  abbrev upper_buf : SortBuffer
  upper_buf =
      copy_data 8 old_node.buf (fresh (mem.nodes mem.cur_addr).buf.buf old_node.buf.suffix_bytes)
        half

  a≢n : (a == mem.cur_addr) ≡ false
  a≢n = ne→== a mem.cur_addr (λ e. absurd (omega arith))

  n≢a : (mem.cur_addr == a) ≡ false
  n≢a = ne→== mem.cur_addr a (λ e. absurd (omega arith))

  same_n : (mem.cur_addr == mem.cur_addr) ≡ true
  same_n = ==-refl mem.cur_addr

  pub upper_leaf-new :
      (upper_leaf mem a).0.nodes mem.cur_addr
      ≡ record { type = leaf; link = old_node.link % 2 ^ 48; buf = upper_buf }
  unfolding upper_leaf new_node set_buf set_link set_node
  upper_leaf-new = rw (same_n) refl

  pub upper_leaf-other :
      (x : ℕ) → (x == mem.cur_addr) ≡ false → (upper_leaf mem a).0.nodes x ≡ mem.nodes x
  unfolding upper_leaf new_node set_buf set_link set_node
  upper_leaf-other x e = rw e refl

  pub upper_leaf-cur :
      ((upper_leaf mem a).0.cur_addr ≡ mem.cur_addr + 128) × ((upper_leaf mem a).1 ≡ mem.cur_addr)
  unfolding upper_leaf new_node set_buf set_link set_node
  upper_leaf-cur = (refl, refl)

  -- The separator as the source reads it, from the new leaf.
  abbrev leaf_separator : ℕ
  leaf_separator = sort_key upper_buf 0 key

  pub lower_leaf-at :
      (m : MemControl) (u : ℕ)
      → (lower_leaf m a u).nodes a ≡ record {
        type = (m.nodes a).type;
        link = u % 2 ^ 48;
        buf = delete_data (m.nodes a).buf ((m.nodes a).buf.entries / 2);
      }
  unfolding lower_leaf set_link set_buf set_node
  lower_leaf-at m u = rw (==-refl a) refl

  pub lower_leaf-apart :
      (m : MemControl) (u y : ℕ) → (y == a) ≡ false → (lower_leaf m a u).nodes y ≡ m.nodes y
  unfolding lower_leaf set_link set_buf set_node
  lower_leaf-apart m u y e = rw e refl

  pub lower_leaf-cur : (m : MemControl) (u : ℕ) → (lower_leaf m a u).cur_addr ≡ m.cur_addr
  unfolding lower_leaf set_link set_buf set_node
  lower_leaf-cur m u = refl

  module _ (par r : ℕ) (known' : par < mem.cur_addr) (apart : a ≢ par) where
    par≢n : (par == mem.cur_addr) ≡ false
    par≢n = ne→== par mem.cur_addr (λ e. absurd (omega arith))

    n≢par : (mem.cur_addr == par) ≡ false
    n≢par = ne→== mem.cur_addr par (λ e. absurd (omega arith))

    a≢par : (a == par) ≡ false
    a≢par = ne→== a par apart

    par≢a : (par == a) ≡ false
    par≢a = ne→== par a (λ e. apart (sym e))

    split_leaf-after :
        find (mem.nodes par).buf leaf_separator ≡ some (r, false)
        → split_leaf mem a key (some par)
          ≡ some (
            lower_leaf
                (set_buf
                  (upper_leaf mem a).0
                  par
                  (put 6 (mem.nodes par).buf r leaf_separator mem.cur_addr))
                a
                mem.cur_addr,
            mem.cur_addr,
          )
    unfolding split_leaf
    split_leaf-after found =
        let made : MemControl = (upper_leaf mem a).0 in
        let (cur, new) = upper_leaf-cur in
        let key_eq : sort_key (made.nodes mem.cur_addr).buf 0 key ≡ leaf_separator =
          ap (λ (n : Node). sort_key n.buf 0 key) upper_leaf-new in
        ap
          (λ (u : ℕ).
            put_child made par (sort_key (made.nodes u).buf 0 key) u
            >>= (λ over. some (lower_leaf over a u, u)))
          new
        ∙ ap
            (λ (k : ℕ).
              put_child made par k mem.cur_addr
              >>= (λ over. some (lower_leaf over a mem.cur_addr, mem.cur_addr)))
            key_eq
        ∙ ap (λ o. o >>= (λ over. some (lower_leaf over a mem.cur_addr, mem.cur_addr)))
            (put_child-grows mem made par r leaf_separator mem.cur_addr (upper_leaf-other par par≢n)
              found)

    -- Put on a full leaf splits it in the middle.
    pub split_leaf-IsSplit :
        find (mem.nodes par).buf leaf_separator ≡ some (r, false)
        → (after : MemControl) × (split_leaf mem a key (some par) ≡ some (after, mem.cur_addr))
          × IsSplit mem a par r leaf_separator
              (record {
                type = old_node.type;
                link = mem.cur_addr % 2 ^ 48;
                buf = delete_data old_node.buf half;
              })
              (record { type = leaf; link = old_node.link % 2 ^ 48; buf = upper_buf })
              after
    split_leaf-IsSplit found =
        let made : MemControl = (upper_leaf mem a).0 in
        let grown : SortBuffer = put 6 (mem.nodes par).buf r leaf_separator mem.cur_addr in
        let over : MemControl = set_buf made par grown in
        (
          lower_leaf over a mem.cur_addr,
          split_leaf-after found,
          record {
            cur = lower_leaf-cur over mem.cur_addr ∙ set_buf-cur made par grown ∙ upper_leaf-cur.0;
            at_old =
                lower_leaf-at over mem.cur_addr
                ∙ ap lowered (set_buf-apart made par a grown a≢par ∙ upper_leaf-other a a≢n);
            at_new =
                lower_leaf-apart over mem.cur_addr mem.cur_addr n≢a
                ∙ set_buf-apart made par mem.cur_addr grown n≢par
                ∙ upper_leaf-new;
            at_par =
                lower_leaf-apart over mem.cur_addr par par≢a
                ∙ set_buf-at made par grown
                ∙ ap (λ (n : Node). record n { buf = grown }) (upper_leaf-other par par≢n);
            other = λ x d d' d''.
                lower_leaf-apart over mem.cur_addr x (ne→== x a d)
                ∙ set_buf-apart made par x grown (ne→== x par d')
                ∙ upper_leaf-other x (ne→== x mem.cur_addr d'');
          },
        )
      where
        lowered : Node → Node
        lowered n = record {
          type = n.type;
          link = mem.cur_addr % 2 ^ 48;
          buf = delete_data n.buf (n.buf.entries / 2);
        }
