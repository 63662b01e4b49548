-- ===== src/LinkedList/Queue.antt =====
-- The list as a queue: `linked_list_enqueue`, `linked_list_pop` and `linked_list_cycle`.
use now_os.Base.{
  ℕ, suc, ◌+◌, ◌-◌, ◌^◌, ◌<◌, ◌≡◌, ◌≢◌, ◌⊎◌, refl, ap, true, false, ◌||◌, [], ◌∷◌, ◌++◌, arith,
  ◌==◌, length, length-append, pos, Bool-cases, inl, inr, Returns, Returns-then, u32,
}
use mathlib.Core.Path.{subst, sym}
use now_os.LinkedList.{
  Nodes, write, set_next, set_prev, NodePool, LinkedList, seek, link, linked_list_add,
  linked_list_enqueue, linked_list_pop, linked_list_remove, linked_list_get, linked_list_cycle,
  rotate,
}
use now_os.LinkedList.Chain.{
  Cells, has, Distinct, Chain, Chain-frame, Chain-append, has-last, seek_end, get_from-content_at,
  content_at, IsList,
}

has-append : (a b d : ℕ) (xs : Cells) → has a (xs ++ ((b, d) ∷ [])) ≡ (has a xs || (a == b))
has-append a b d [] = ground arith
has-append a b d ((c, e) ∷ xs) = ground (arith, has-append a b d xs)

Distinct-append :
    (b d : ℕ) (xs : Cells) → Distinct xs → has b xs ≡ false → Distinct (xs ++ ((b, d) ∷ []))
Distinct-append b d [] u h = (refl, tt)
Distinct-append b d ((c, e) ∷ xs) u h =
    (ground (arith, has-append c b d xs, u.0), Distinct-append b d xs u.1 (ground arith))

module _ {P : NodePool} where
  -- A node that the pool has just given is not in a list that owns its nodes.
  pub fresh_node :
      (list : LinkedList P) (xs : Cells)
      → IsList list xs
      → (P.get_next list.node_pool).0 ≢ 0
      → has (P.get_next list.node_pool).0 xs ≡ false
  fresh_node list xs l nz = elim (Bool-cases (has (P.get_next list.node_pool).0 xs)) [
    | inl h ↦ cc (l.owned (P.get_next list.node_pool).0 h, P.get_next-fresh list.node_pool nz)
    | inr h ↦ h
  ]

  -- The list after an enqueue of `content`.
  abbrev cleared : (content : ℕ) → LinkedList P → Nodes
  cleared content list =
      write list.nodes (P.get_next list.node_pool).0
        (record { next_ptr = 0; prev_ptr = 0; content = content })

  enqueue_nil :
      (content : ℕ) (list : LinkedList P)
      → IsList list []
      → (P.get_next list.node_pool).0 ≢ 0
      → Returns
          (linked_list_enqueue content list)
          (λ (r, list'). (r ≡ pos 0) × IsList list' (((P.get_next list.node_pool).0, content) ∷ []))
  unfolding linked_list_enqueue linked_list_add
  enqueue_nil content list l nz =
      let new : ℕ = (P.get_next list.node_pool).0 in
      let t : (new == 0) ≡ false = ground arith in
      let s : (list.start_ptr == 0) ≡ true = ground (arith, l.chain) in
      let z : u32 (list.size + 1) ≡ 1 = ground (arith, l.sized) in
      rw (t, s)
        (
          refl,
          record {
            chain = (refl, nz, ground arith, ground arith, (ground arith, refl));
            distinct = (refl, tt);
            sized = z;
            owned = λ a h. ground (arith, P.taken-get_next list.node_pool a nz);
          },
        )

  -- The walk of `linked_list_add` past the end of the list, over the nodes with the new one.
  enqueue_seek :
      (content : ℕ) (list : LinkedList P) (xs : Cells)
      → IsList list xs
      → (P.get_next list.node_pool).0 ≢ 0
      → seek (list.size + 1) list.start_ptr 0 (cleared content list) ≡ (0, 0 + length xs)
  enqueue_seek content list xs l nz =
      seek_end (cleared content list) (list.size + 1) 0 list.start_ptr list.end_ptr 0 xs
        (Chain-frame list.nodes (cleared content list) 0 list.start_ptr list.end_ptr xs l.chain
          (λ a h. ground (arith, fresh_node list xs l nz)))
        (omega (arith, l.sized))

  enqueue_cons :
      (content : ℕ) (list : LinkedList P) (a d : ℕ) (xs : Cells)
      → IsList list ((a, d) ∷ xs)
      → list.size < 2 ^ 32 - 1
      → (P.get_next list.node_pool).0 ≢ 0
      → Returns (linked_list_enqueue content list) (λ (r, list').
        (r ≡ pos (length ((a, d) ∷ xs)))
        × IsList list' ((a, d) ∷ xs ++ (((P.get_next list.node_pool).0, content) ∷ [])))
  unfolding linked_list_enqueue linked_list_add
  enqueue_cons content list a d xs l small nz =
      let new : ℕ = (P.get_next list.node_pool).0 in
      let t : (new == 0) ≡ false = ground arith in
      let s : (list.start_ptr == 0) ≡ false = ground (arith, l.chain) in
      let out : has new ((a, d) ∷ xs) ≡ false = fresh_node list ((a, d) ∷ xs) l nz in
      let in_last : has list.end_ptr ((a, d) ∷ xs) ≡ true =
        has-last list.nodes 0 list.start_ptr list.end_ptr a d xs l.chain in
      let far : list.end_ptr ≢ new = λ z. ground arith in
      let nodes' : Nodes =
        set_prev new list.end_ptr (set_next list.end_ptr new (cleared content list)) in
      let grown : length ((a, d) ∷ xs ++ ((new, content) ∷ [])) ≡ suc (length ((a, d) ∷ xs)) =
        omega (arith, length-append ((a, d) ∷ xs) ((new, content) ∷ [])) in
      rw (t, s, enqueue_seek content list ((a, d) ∷ xs) l nz, link)
        (
          ap pos (omega arith),
          record {
            chain =
                Chain-append list.nodes nodes' 0 list.start_ptr list.end_ptr a d new content xs
                  l.chain l.distinct nz (λ b h k. ground arith) (ground arith) (ground arith);
            distinct = Distinct-append new content ((a, d) ∷ xs) l.distinct out;
            sized = omega (arith, l.sized, grown);
            owned = λ b h. ground (
              arith,
              P.taken-get_next list.node_pool b nz,
              l.owned b,
              has-append b new content ((a, d) ∷ xs),
            );
          },
        )

  -- `linked_list_enqueue` puts the content at the end, in the node that the pool gives, and returns
  -- its index.
  pub enqueue-IsList :
      (content : ℕ) (list : LinkedList P) (xs : Cells)
      → IsList list xs
      → list.size < 2 ^ 32 - 1
      → (P.get_next list.node_pool).0 ≢ 0
      → Returns (linked_list_enqueue content list) (λ (r, list').
        (r ≡ pos (length xs))
        × IsList list' (xs ++ (((P.get_next list.node_pool).0, content) ∷ [])))
  enqueue-IsList content list [] l small nz = enqueue_nil content list l nz
  enqueue-IsList content list ((a, d) ∷ xs) l small nz = enqueue_cons content list a d xs l small nz

  remove_only_node :
      (list : LinkedList P) (a d : ℕ)
      → IsList list ((a, d) ∷ [])
      → Returns
          (linked_list_remove 0 list)
          (λ (r, list'). (r ≡ pos 0) × IsList list' [] × ((P.get_next list'.node_pool).0 ≢ 0))
  unfolding linked_list_remove
  remove_only_node list a d l =
      let (pool, e, t, room) =
        P.free_entry-ok list.node_pool list.start_ptr (ground (arith, l.chain))
          (ground (arith, l.chain, l.owned list.start_ptr)) in
      let p0 : (list.nodes list.start_ptr).prev_ptr ≡ 0 = ground (arith, l.chain) in
      let n0 : (list.nodes list.start_ptr).next_ptr ≡ 0 = ground (arith, l.chain) in
      let z : u32 (list.size + 2 ^ 32 - 1) ≡ 0 = omega (arith, l.sized) in
      rw (p0, n0, e)
        (refl, record { chain = (refl, refl); distinct = tt; sized = z; owned = λ b h. cc }, room)

  remove_first_node :
      (list : LinkedList P) (a d b c : ℕ) (xs : Cells)
      → IsList list ((a, d) ∷ (b, c) ∷ xs)
      → list.size < 2 ^ 32
      → Returns (linked_list_remove 0 list) (λ (r, list').
        (r ≡ pos 0) × IsList list' ((b, c) ∷ xs) × ((P.get_next list'.node_pool).0 ≢ 0))
  unfolding linked_list_remove
  remove_first_node list a d b c xs l small =
      let (pool, e, t, room) =
        P.free_entry-ok list.node_pool list.start_ptr (ground (arith, l.chain))
          (ground (arith, l.chain, l.owned list.start_ptr)) in
      let at : list.start_ptr ≡ a = l.chain.0 in
      let p0 : (list.nodes list.start_ptr).prev_ptr ≡ 0 = rw at l.chain.2 in
      let n0 : (list.nodes list.start_ptr).next_ptr ≡ b = rw at l.chain.4.0 in
      let tb : (b == 0) ≡ false = ground (arith, l.chain.4.1) in
      let nodes' : Nodes = set_prev b 0 list.nodes in
      let k : nodes' b ≡ record (list.nodes b) { prev_ptr = 0 } = ground arith in
      let rest : Chain nodes' b (list.nodes b).next_ptr xs list.end_ptr =
        Chain-frame list.nodes nodes' b (list.nodes b).next_ptr list.end_ptr xs l.chain.4.4
          (λ q h. ground (arith, l.distinct.1.0)) in
      rw (p0, n0, tb, e)
        (
          refl,
          record {
            chain = (refl, l.chain.4.1, rw k refl, rw k l.chain.4.3, rw k rest);
            distinct = l.distinct.1;
            sized = omega (arith, l.sized);
            owned = λ q h. ground (arith, t q, l.owned q, l.distinct.0, at);
          },
          room,
        )

  remove_head :
      (list : LinkedList P) (a d : ℕ) (xs : Cells)
      → IsList list ((a, d) ∷ xs)
      → list.size < 2 ^ 32
      → Returns
          (linked_list_remove 0 list)
          (λ (r, list'). (r ≡ pos 0) × IsList list' xs × ((P.get_next list'.node_pool).0 ≢ 0))
  remove_head list a d [] l small = remove_only_node list a d l
  remove_head list a d ((b, c) ∷ xs) l small = remove_first_node list a d b c xs l small

  -- What a pop of the list `xs` makes of the result and the list.
  abbrev pub Popped : Cells → LinkedList P → ℕ × LinkedList P → Type 0
  Popped [] list (r, list') = (r ≡ 0) × (list' ≡ list)
  Popped ((a, d) ∷ xs) list (r, list') =
      (r ≡ d) × IsList list' xs × ((P.get_next list'.node_pool).0 ≢ 0)

  -- `linked_list_pop` takes the first content, which is not null, and its node off the list, so that
  -- the pool has a node to give; an empty list gives null and stays.
  pub pop-Popped :
      (list : LinkedList P) (xs : Cells)
      → IsList list xs
      → list.size < 2 ^ 32
      → (content_at xs 0 ≢ 0) ⊎ (xs ≡ [])
      → Returns (linked_list_pop list) (Popped xs list)
  unfolding linked_list_pop linked_list_get
  pop-Popped list [] l small h =
      rw
        (get_from-content_at list.nodes 0 0 list.start_ptr list.end_ptr
          (list.nodes list.start_ptr).content [] l.chain)
        (refl, refl)
  pop-Popped list ((a, d) ∷ xs) l small h =
      let nz : (d == 0) ≡ false = ground arith in
      rw
        (
          get_from-content_at list.nodes 0 0 list.start_ptr list.end_ptr
              (list.nodes list.start_ptr).content ((a, d) ∷ xs) l.chain,
          nz,
        )
        (Returns-then (linked_list_remove 0 list) _ _ (remove_head list a d xs l small)
          (λ (r, list') q. (refl, q.1, q.2)))

  rotate-IsList :
      (list : LinkedList P) (a d b c : ℕ) (xs : Cells)
      → IsList list ((a, d) ∷ (b, c) ∷ xs)
      → IsList (rotate P a list.end_ptr b list) ((b, c) ∷ xs ++ ((a, d) ∷ []))
  unfolding rotate
  rotate-IsList list a d b c xs l =
      let last : ℕ = list.end_ptr in
      let in_last : has last ((b, c) ∷ xs) ≡ true =
        has-last list.nodes a (list.nodes a).next_ptr last b c xs l.chain.4 in
      let ne : a ≢ last = λ z. ground (arith, l.distinct.0) in
      let ab : a ≢ b = λ z. ground (arith, l.distinct.0) in
      let front : Nodes = set_prev b 0 list.nodes in
      let k : front b ≡ record (list.nodes b) { prev_ptr = 0 } = ground arith in
      let tail : Chain front b (list.nodes b).next_ptr xs last =
        Chain-frame list.nodes front b (list.nodes b).next_ptr last xs l.chain.4.4
          (λ q h. ground (arith, l.distinct.1.0)) in
      let rest : Chain front 0 b ((b, c) ∷ xs) last =
        (refl, l.chain.4.1, rw k refl, rw k l.chain.4.3, rw k tail) in
      let nodes' : Nodes =
        set_prev b 0 (set_next last a (set_prev a last (set_next a 0 list.nodes))) in
      let at_new : nodes' a ≡ record { next_ptr = 0; prev_ptr = last; content = d } =
        ground (arith, l.chain.3) in
      let at_last : nodes' last ≡ record (front last) { next_ptr = a } = ground arith in
      record {
        chain =
            Chain-append front nodes' 0 b last b c a d xs rest l.distinct.1 l.chain.1
              (λ q h z. ground (arith, l.distinct.0)) at_last at_new;
        distinct = Distinct-append a d ((b, c) ∷ xs) l.distinct.1 l.distinct.0;
        sized = omega (arith, l.sized, length-append ((b, c) ∷ xs) ((a, d) ∷ []));
        owned = λ q h. ground (arith, l.owned q, has-append q a d ((b, c) ∷ xs));
      }

  -- `linked_list_cycle` takes the first node to the end.
  pub cycle-IsList :
      (list : LinkedList P) (a d : ℕ) (xs : Cells)
      → IsList list ((a, d) ∷ xs)
      → IsList (linked_list_cycle P list) (xs ++ ((a, d) ∷ []))
  unfolding linked_list_cycle
  cycle-IsList list a d [] l =
      let t : (list.start_ptr == list.end_ptr) ≡ true = ground (arith, l.chain) in rw t l
  cycle-IsList list a d ((b, c) ∷ xs) l =
      let at : list.start_ptr ≡ a = l.chain.0 in
      let in_last : has list.end_ptr ((b, c) ∷ xs) ≡ true =
        has-last list.nodes a (list.nodes a).next_ptr list.end_ptr b c xs l.chain.4 in
      let t : (list.start_ptr == list.end_ptr) ≡ false = ground (arith, l.distinct.0) in
      let n0 : (list.nodes list.start_ptr).next_ptr ≡ b = rw at l.chain.4.0 in
      rw (t, n0)
        (subst (λ f. IsList (rotate P f list.end_ptr b list) ((b, c) ∷ xs ++ ((a, d) ∷ [])))
          (sym at) (rotate-IsList list a d b c xs l))
