-- ===== src/LinkedList/Tests.antt =====
-- klib/linked_list.c over a pool of four entries, at addresses 1 to 4.
use now_os.Base.{
  ℕ, zero, suc, ◌-◌, ◌^◌, ◌<◌, ◌≡◌, ◌≢◌, inl, refl, Bool, true, false, not, ◌&&◌, arith, ◌==◌,
  if◌then◌else◌, pos, some, Run, ok, Returns, [], ◌∷◌,
}
use now_os.LinkedList.{
  Nodes, NodePool, LinkedList, linked_list_add, linked_list_enqueue, linked_list_pop,
  linked_list_get, linked_list_search, linked_list_cycle, linked_list_destroy,
}
use now_os.LinkedList.Chain.{Cells, has, content_at, IsList}
use now_os.LinkedList.Queue.{enqueue-IsList, pop-Popped, Popped, cycle-IsList}
use now_os.LinkedList.Access.{get-content_at, search-index_of}
use now_os.LinkedList.Middle.{add-unreachable}
use now_os.LinkedList.Destroy.{destroy-frees}

-- Which entries are taken.
data Four : Type 0 where
  four : (a b c d : Bool) → Four

abbrev taken : Four → ℕ → Bool
taken (four a b c d) q =
    if q == 1 then a else if q == 2 then b else if q == 3 then c else if q == 4 then d else false

abbrev get_next : Four → ℕ × Four
get_next (four false b c d) = (1, four true b c d)
get_next (four true false c d) = (2, four true true c d)
get_next (four true true false d) = (3, four true true true d)
get_next (four true true true false) = (4, four true true true true)
get_next (four true true true true) = (0, four true true true true)

abbrev free_entry : ℕ → Four → Run (Bool × Four)
free_entry p (four a b c d) =
    if p == 1
    then ok (true, four false b c d)
    else if p == 2
    then ok (true, four a false c d)
    else if p == 3
    then ok (true, four a b false d)
    else if p == 4
    then ok (true, four a b c false)
    else ok (false, four a b c d)

fresh : (s : Four) → (get_next s).0 ≢ 0 → taken s (get_next s).0 ≡ false
fresh (four false b c d) h = refl
fresh (four true false c d) h = refl
fresh (four true true false d) h = refl
fresh (four true true true false) h = refl
fresh (four true true true true) h = absurd (h refl)

next_taken :
    (s : Four) (q : ℕ)
    → (get_next s).0 ≢ 0
    → taken (get_next s).1 q ≡ (if q == (get_next s).0 then true else taken s q)
next_taken (four false b c d) q h = ground arith
next_taken (four true false c d) q h = ground arith
next_taken (four true true false d) q h = ground arith
next_taken (four true true true false) q h = ground arith
next_taken (four true true true true) q h = absurd (h refl)

second_free : (a c d : Bool) → (get_next (four a false c d)).0 ≢ 0
second_free false c d = omega arith
second_free true c d = omega arith

third_free : (a b d : Bool) → (get_next (four a b false d)).0 ≢ 0
third_free a false d = second_free a false d
third_free false true d = omega arith
third_free true true d = omega arith

fourth_free : (a b c : Bool) → (get_next (four a b c false)).0 ≢ 0
fourth_free a b false = third_free a b false
fourth_free a false true = second_free a true false
fourth_free false true true = omega arith
fourth_free true true true = omega arith

freed :
    (s : Four) (p : ℕ)
    → p ≢ 0
    → taken s p ≡ true
    → (s' : Four) × (free_entry p s ≡ ok (true, s'))
      × ((q : ℕ) → taken s' q ≡ (if q == p then false else taken s q))
      × ((get_next s').0 ≢ 0)
freed (four a b c d) (suc zero) h t = (four false b c d, refl, λ q. ground arith, omega arith)
freed (four a b c d) (suc (suc zero)) h t =
    (four a false c d, refl, λ q. ground arith, second_free a c d)
freed (four a b c d) (suc (suc (suc zero))) h t =
    (four a b false d, refl, λ q. ground arith, third_free a b d)
freed (four a b c d) (suc (suc (suc (suc zero)))) h t =
    (four a b c false, refl, λ q. ground arith, fourth_free a b c)
freed (four a b c d) zero h t = absurd (h refl)
freed (four a b c d) (suc (suc (suc (suc (suc p))))) h t = absurd (ground arith)

abbrev four_entries : NodePool
four_entries = record {
  State = Four;
  taken = taken;
  get_next = get_next;
  free_entry = free_entry;
  get_next-fresh = fresh;
  taken-get_next = next_taken;
  free_entry-ok = freed;
}

abbrev node_at : Nodes
node_at a =
    if a == 1
    then record { next_ptr = 2; prev_ptr = 0; content = 70 }
    else if a == 2
    then record { next_ptr = 3; prev_ptr = 1; content = 80 }
    else if a == 3
    then record { next_ptr = 0; prev_ptr = 2; content = 90 }
    else record { next_ptr = 0; prev_ptr = 0; content = 0 }

abbrev three : LinkedList four_entries
three = record {
  start_ptr = 1;
  end_ptr = 3;
  node_pool = four true true true false;
  size = 3;
  nodes = node_at;
}

abbrev cells : Cells
cells = (1, 70) ∷ (2, 80) ∷ (3, 90) ∷ []

one_or_two_or_three : (a : ℕ) → has a cells ≡ true → taken (four true true true false) a ≡ true
one_or_two_or_three a h = ground arith

three-IsList : IsList three cells
three-IsList = record {
  chain = (
    refl,
    omega arith,
    refl,
    refl,
    (refl, omega arith, refl, refl, (refl, omega arith, refl, refl, (refl, refl))),
  );
  distinct = (refl, (refl, (refl, tt)));
  sized = refl;
  owned = one_or_two_or_three;
}

enqueue-IsList_example :
    Returns
      (linked_list_enqueue 60 three)
      (λ (r, list). (r ≡ pos 3) × IsList list ((1, 70) ∷ (2, 80) ∷ (3, 90) ∷ (4, 60) ∷ []))
enqueue-IsList_example = enqueue-IsList 60 three cells three-IsList (omega arith) (omega arith)

pop-Popped_example : Returns (linked_list_pop three) (Popped cells three)
pop-Popped_example = pop-Popped three cells three-IsList (omega arith) (inl (omega arith))

cycle-IsList_example :
    IsList (linked_list_cycle four_entries three) ((2, 80) ∷ (3, 90) ∷ (1, 70) ∷ [])
cycle-IsList_example = cycle-IsList three 1 70 ((2, 80) ∷ (3, 90) ∷ []) three-IsList

get-content_at_example : linked_list_get 1 three ≡ 80
get-content_at_example = get-content_at three cells 1 three-IsList (omega arith)

search-index_of_example : linked_list_search 4 90 three ≡ some (pos 2)
search-index_of_example = search-index_of three cells 4 90 three-IsList (omega arith)

add-unreachable_example : Returns (linked_list_add 60 0 three) (λ (r, list).
    (r ≡ pos 1)
    × (list.size ≡ 4)
    × ((i : ℕ) → i < 2 ^ 32 - 1 → linked_list_get i list ≡ content_at cells i))
add-unreachable_example =
    add-unreachable 60 0 three cells three-IsList (omega arith) (omega arith) (omega arith)

destroy-frees_example :
    Returns
      (linked_list_destroy four_entries 4 three)
      (λ pool. (a : ℕ) → taken pool a ≡ (taken (four true true true false) a && not (has a cells)))
destroy-frees_example = destroy-frees four_entries three cells 4 three-IsList (omega arith)
