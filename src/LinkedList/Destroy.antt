-- ===== src/LinkedList/Destroy.antt =====
-- The walk of `linked_list_destroy`.
use now_os.Base.{
  ℕ, zero, suc, ◌<◌, ◌≡◌, true, false, not, ◌&&◌, arith, ◌==◌, length, Returns, Returns-weaken, [],
  ◌∷◌,
}
use now_os.LinkedList.{Nodes, NodePool, LinkedList, free_from, linked_list_destroy}
use now_os.LinkedList.Chain.{Cells, has, Distinct, Chain, IsList}

module _ (P : NodePool) where
  free_from-frees :
      (f node prev last : ℕ) (nodes : Nodes) (pool : P.State) (xs : Cells)
      → Chain nodes prev node xs last
      → Distinct xs
      → ((a : ℕ) → has a xs ≡ true → P.taken pool a ≡ true)
      → length xs < f
      → Returns
          (free_from P f node nodes pool)
          (λ pool'. (a : ℕ) → P.taken pool' a ≡ (P.taken pool a && not (has a xs)))
  unfolding free_from
  free_from-frees zero node prev last nodes pool xs c u o h = elim h [ ]
  free_from-frees (suc f) node prev last nodes pool [] c u o h =
      let t : (node == 0) ≡ true = ground (arith, c) in rw t (λ a. ground arith)
  free_from-frees (suc f) node prev last nodes pool ((a, d) ∷ xs) c u o h =
      let t : (node == 0) ≡ false = ground (arith, c) in
      let (pool', e, k, room) =
        P.free_entry-ok pool node (ground (arith, c)) (ground (arith, c, o node)) in
      let w : (b : ℕ) → has b xs ≡ true → P.taken pool' b ≡ true =
        λ b m. ground (arith, k b, o b, u.0, c.0) in
      rw (t, e)
        (Returns-weaken (free_from P f (nodes node).next_ptr nodes pool') _ _
          (free_from-frees f (nodes node).next_ptr a last nodes pool' xs (rw c.0 c.4) u.1 w
            (omega arith))
          (λ p q b. ground (arith, q b, k b, c.0)))

  -- `linked_list_destroy` ends within one round more than the list has nodes; it gives the list's
  -- nodes back to the pool and no other.
  pub destroy-frees :
      (list : LinkedList P) (xs : Cells) (fuel : ℕ)
      → IsList list xs
      → length xs < fuel
      → Returns
          (linked_list_destroy P fuel list)
          (λ pool. (a : ℕ) → P.taken pool a ≡ (P.taken list.node_pool a && not (has a xs)))
  unfolding linked_list_destroy
  destroy-frees list xs fuel l enough =
      free_from-frees fuel list.start_ptr 0 list.end_ptr list.nodes list.node_pool xs l.chain
        l.distinct l.owned enough
