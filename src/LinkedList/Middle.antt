-- ===== src/LinkedList/Middle.antt =====
-- `linked_list_add` in front of a node that has a predecessor.
use now_os.Base.{
  ℕ, zero, suc, ◌+◌, ◌-◌, ◌^◌, ◌<◌, ◌≡◌, ◌≢◌, ap, true, false, arith, ◌==◌, length, pos, Returns,
  u32, [], ◌∷◌,
}
use now_os.LinkedList.{
  Nodes, write, set_next, set_prev, NodePool, LinkedList, get_from, seek, link, linked_list_add,
  linked_list_get,
}
use now_os.LinkedList.Chain.{
  Cells, has, Chain, Chain-frame, addr_at, content_at, seek_inside, IsList,
}
use now_os.LinkedList.Queue.{fresh_node}

addr_at-nonzero :
    (nodes : Nodes) (prev p last n : ℕ) (xs : Cells)
    → Chain nodes prev p xs last
    → n < length xs
    → addr_at xs n ≢ 0
addr_at-nonzero nodes prev p last n [] c h = elim h [ ]
addr_at-nonzero nodes prev p last zero ((a, d) ∷ xs) c h = c.1
addr_at-nonzero nodes prev p last (suc n) ((a, d) ∷ xs) c h =
    addr_at-nonzero nodes a (nodes a).next_ptr last n xs c.4 (omega arith)

has-addr_at : (n : ℕ) (xs : Cells) → n < length xs → has (addr_at xs n) xs ≡ true
has-addr_at n [] h = elim h [ ]
has-addr_at zero ((a, d) ∷ xs) h = ground arith
has-addr_at (suc n) ((a, d) ∷ xs) h = ground (arith, has-addr_at n xs)

-- A node that is not the first points back to the one before it.
prev_at :
    (nodes : Nodes) (prev p last n : ℕ) (xs : Cells)
    → Chain nodes prev p xs last
    → suc n < length xs
    → (nodes (addr_at xs (suc n))).prev_ptr ≡ addr_at xs n
prev_at nodes prev p last n [] c h = elim h [ ]
prev_at nodes prev p last n ((a, d) ∷ []) c h = absurd (omega arith)
prev_at nodes prev p last zero ((a, d) ∷ (b, e) ∷ xs) c h = c.4.2
prev_at nodes prev p last (suc n) ((a, d) ∷ (b, e) ∷ xs) c h =
    prev_at nodes a (nodes a).next_ptr last n ((b, e) ∷ xs) c.4 (omega arith)

-- `linked_list_get` reads successors and contents alone.
get_from-frame :
    (nodes nodes' : Nodes) (n prev p last old : ℕ) (xs : Cells)
    → Chain nodes prev p xs last
    → ((a : ℕ) → has a xs ≡ true → (nodes' a).next_ptr ≡ (nodes a).next_ptr)
    → ((a : ℕ) → has a xs ≡ true → (nodes' a).content ≡ (nodes a).content)
    → get_from (suc n) p old nodes' ≡ content_at xs n
unfolding get_from
get_from-frame nodes nodes' n prev p last old [] c f g = ground arith
get_from-frame nodes nodes' zero prev p last old ((a, d) ∷ xs) c f g = ground (arith, g a)
get_from-frame nodes nodes' (suc n) prev p last old ((a, d) ∷ xs) c f g = ground (
  arith,
  f a,
  get_from-frame nodes nodes' n a (nodes a).next_ptr last (nodes' a).content xs c.4
      (λ b h. f b (ground arith)) (λ b h. g b (ground arith)),
)

module _ {P : NodePool} where
  abbrev cleared : (content : ℕ) → LinkedList P → Nodes
  cleared content list =
      write list.nodes (P.get_next list.node_pool).0
        (record { next_ptr = 0; prev_ptr = 0; content = content })

  -- `linked_list_add` at an index before the last never makes the new node a successor. It reports
  -- the index behind the one asked for and counts the node, yet `linked_list_get` reads the contents of before.
  pub add-unreachable :
      (content index : ℕ) (list : LinkedList P) (xs : Cells)
      → IsList list xs
      → index + 1 < length xs
      → list.size < 2 ^ 32 - 1
      → (P.get_next list.node_pool).0 ≢ 0
      → Returns (linked_list_add content index list) (λ (r, list').
        (r ≡ pos (index + 1))
        × (list'.size ≡ suc (length xs))
        × ((i : ℕ) → i < 2 ^ 32 - 1 → linked_list_get i list' ≡ content_at xs i))
  unfolding linked_list_add linked_list_get
  add-unreachable content index list [] l inner small nz = elim inner [ ]
  add-unreachable content index list ((a, d) ∷ xs) l inner small nz =
      let new : ℕ = (P.get_next list.node_pool).0 in
      let ys : Cells = (a, d) ∷ xs in
      let before : Nodes = cleared content list in
      let out : has new ys ≡ false = fresh_node list ys l nz in
      let one : index + 1 ≡ suc index = omega arith in
      let c : Chain before 0 list.start_ptr ys list.end_ptr =
        Chain-frame list.nodes before 0 list.start_ptr list.end_ptr ys l.chain
          (λ b h. ground arith) in
      let t : (new == 0) ≡ false = ground arith in
      let s : (list.start_ptr == 0) ≡ false = ground (arith, l.chain) in
      let e : seek (index + 1) list.start_ptr 0 before ≡ (addr_at ys (suc index), 0 + suc index) =
        rw one
          (seek_inside before (suc index) 0 list.start_ptr list.end_ptr 0 ys c (omega arith)) in
      let z : (addr_at ys (suc index) == 0) ≡ false = ground (
        arith,
        addr_at-nonzero before 0 list.start_ptr list.end_ptr (suc index) ys c (omega arith),
      ) in
      let q : ((before (addr_at ys (suc index))).prev_ptr == 0) ≡ false = ground (
        arith,
        prev_at before 0 list.start_ptr list.end_ptr index ys c (omega arith),
        addr_at-nonzero before 0 list.start_ptr list.end_ptr index ys c (omega arith),
      ) in
      let there : has (addr_at ys (suc index)) ys ≡ true =
        has-addr_at (suc index) ys (omega arith) in
      let at : ℕ = addr_at ys (suc index) in
      let after : Nodes =
        set_prev at new (set_next new at (set_prev new (before at).prev_ptr before)) in
      rw (t, s, e, link, z, q)
        (
          ap pos (omega arith),
          omega (arith, l.sized),
          λ i h.
              let w : u32 (i + 1) ≡ suc i = omega arith in
              rw w (
                get_from-frame before after i 0 list.start_ptr list.end_ptr
                  (after list.start_ptr).content ys c (λ b k. ground arith) (λ b k. ground arith)),
        )
