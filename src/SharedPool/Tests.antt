-- ===== src/SharedPool/Tests.antt =====
-- A pool of three entries of sixteen bytes, alone and under a linked list.
use now_os.Base.{
  ℕ, ◌≡◌, ◌≢◌, refl, ap, sym, panic, out_of_fuel, true, arith, ◌==◌, if◌then◌else◌, pos, Run, ok,
  Returns, [], ◌∷◌,
}
use now_os.SharedPool.{
  SharedPool, set_next_index, scan_words, try_bits, try_bit, shared_pool_get_next,
  shared_pool_get_index, shared_pool_free_entry, shared_pool_free_index,
}
use now_os.SharedPool.Bitmap.{slot, give_back, IsPool}
use now_os.SharedPool.Entry.{address, Given, get_next-Given, get_index-address, free-give_back}
use now_os.SharedPool.Nodes.{get_next, shared_nodes, get_next-shared}
use now_os.LinkedList.{Nodes, LinkedList, empty_list, linked_list_enqueue}
use now_os.LinkedList.Chain.{IsList}
use now_os.LinkedList.Queue.{enqueue-IsList}

abbrev three : SharedPool
three = record { buf = 0x1000; free_list = λ i. 0; max_obj_num = 3; type_size = 16 }

abbrev one_taken : SharedPool
one_taken = record {
  buf = 0x1000;
  free_list = λ i. if i == 0 then 1 else 0;
  max_obj_num = 3;
  type_size = 16;
}

abbrev all_taken : SharedPool
all_taken = record {
  buf = 0x1000;
  free_list = λ i. if i == 0 then 7 else 0;
  max_obj_num = 3;
  type_size = 16;
}

three-IsPool : IsPool three
three-IsPool = record {
  not_null = omega arith;
  some_bytes = omega arith;
  in_memory = omega arith;
  few = omega arith;
  is_word = λ i. omega arith;
}

one_taken-IsPool : IsPool one_taken
one_taken-IsPool = record {
  not_null = omega arith;
  some_bytes = omega arith;
  in_memory = omega arith;
  few = omega arith;
  is_word = λ i. ground arith;
}

next_index : (set_next_index one_taken).0 ≡ 1
unfolding set_next_index scan_words try_bits try_bit
next_index = refl

next_entry :
    Returns (shared_pool_get_next one_taken) (λ (p, pool). (p ≡ 0x1010) × (pool.free_list 0 ≡ 3))
unfolding shared_pool_get_next set_next_index scan_words try_bits try_bit
next_entry = (refl, refl)

no_entry_left : Returns (shared_pool_get_next all_taken) (λ (p, pool). p ≡ 0)
unfolding shared_pool_get_next set_next_index scan_words try_bits try_bit
no_entry_left = refl

freed :
    Returns
      (shared_pool_free_index 1 all_taken)
      (λ (swapped, pool). (swapped ≡ true) × (pool.free_list 0 ≡ 5))
unfolding shared_pool_free_index shared_pool_free_entry shared_pool_get_index
freed = (refl, refl)

get_next-Given_example : Given one_taken (shared_pool_get_next one_taken)
get_next-Given_example = get_next-Given one_taken one_taken-IsPool

get_index-address_example : shared_pool_get_index (address one_taken 2) one_taken ≡ ok 2
get_index-address_example = get_index-address one_taken 2 one_taken-IsPool (omega arith)

free-give_back_example :
    (shared_pool_free_entry (address one_taken 0) one_taken ≡ ok (true, give_back 0 one_taken))
    × (shared_pool_free_index 0 one_taken ≡ ok (true, give_back 0 one_taken))
    × ((m : ℕ) → slot (give_back 0 one_taken) m ≡ (if m == 0 then 0 else slot one_taken m))
free-give_back_example = free-give_back one_taken 0 one_taken-IsPool (omega arith)

no_nodes : Nodes
no_nodes a = record { next_ptr = 0; prev_ptr = 0; content = 0 }

abbrev empty : LinkedList shared_nodes
empty = empty_list shared_nodes (three, three-IsPool) no_nodes

empty-IsList : IsList empty []
unfolding empty_list
empty-IsList = record { chain = (refl, refl); distinct = tt; sized = refl; owned = λ a h. cc }

-- The first node of a list over the pool.
first_node : (get_next (three, three-IsPool)).0 ≡ 0x1000
unfolding shared_pool_get_next set_next_index scan_words try_bits try_bit
first_node = ap first_of (sym (get_next-shared (three, three-IsPool)))
  where
    first_of : Run (ℕ × SharedPool) → ℕ
    first_of (ok r) = r.0
    first_of panic = 0
    first_of out_of_fuel = 0

enqueued :
    Returns
      (linked_list_enqueue 60 empty)
      (λ (r, list). (r ≡ pos 0) × IsList list ((0x1000, 60) ∷ []))
unfolding empty_list
enqueued =
    let found : (get_next (three, three-IsPool)).0 ≢ 0 = rw first_node (omega arith) in
    rw first_node at (enqueue-IsList 60 empty [] empty-IsList (omega arith) found)
