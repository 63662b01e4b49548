-- ===== src/LinkedList.antt =====
-- klib/linked_list.c: a doubly linked list whose nodes come from a pool. The nodes stand in memory as
-- a function from address to node, at 0 what a read through the null pointer finds. The list
-- pointer itself is not null: the tests for that return first. `linked_list_init` and
-- `linked_list_stat_init` are `empty_list` on a new pool. The release of the pool and of the list
-- itself at the end of `linked_list_destroy` is not here.
pub mod Chain
pub mod Queue
pub mod Access
pub mod Middle
pub mod Destroy
mod Tests
use now_os.Base.{
  ℕ, zero, suc, ◌+◌, ◌-◌, ◌^◌, ◌≡◌, ◌≢◌, Bool, true, false, not, ◌&&◌, Option, none, some, Run, ok,
  panic, out_of_fuel, ◌>>=◌, ◌>>◌, assert, u32, ltb, ◌==◌, if◌then◌else◌, ℤ, pos, negsuc,
}

pub record Node : Type 0 where
  pub next_ptr : ℕ
  pub prev_ptr : ℕ
  pub content : ℕ

abbrev pub Nodes : Type 0
Nodes = ℕ → Node

abbrev pub write : Nodes → ℕ → Node → Nodes
write nodes a n b = if b == a then n else nodes b

abbrev pub set_next : ℕ → ℕ → Nodes → Nodes
set_next a q nodes = write nodes a (record (nodes a) { next_ptr = q })

abbrev pub set_prev : ℕ → ℕ → Nodes → Nodes
set_prev a q nodes = write nodes a (record (nodes a) { prev_ptr = q })

-- What the list asks of klib/shared_pool.c: `shared_pool_get_next` gives 0 or an entry that was not
-- taken, and `shared_pool_free_entry` gives a taken entry back, so that there is one to get.
pub record NodePool : Type 1 where
  pub State : Type 0
  pub taken : State → ℕ → Bool
  pub get_next : State → ℕ × State
  pub free_entry : ℕ → State → Run (Bool × State)
  pub get_next-fresh : (s : State) → (get_next s).0 ≢ 0 → taken s (get_next s).0 ≡ false
  pub taken-get_next :
      (s : State) (q : ℕ)
      → (get_next s).0 ≢ 0
      → taken (get_next s).1 q ≡ (if q == (get_next s).0 then true else taken s q)
  pub free_entry-ok :
      (s : State) (p : ℕ)
      → p ≢ 0
      → taken s p ≡ true
      → (s' : State) × (free_entry p s ≡ ok (true, s'))
        × ((q : ℕ) → taken s' q ≡ (if q == p then false else taken s q))
        × ((get_next s').0 ≢ 0)

module _ (P : NodePool) where
  pub record LinkedList : Type 0 where
    pub start_ptr : ℕ
    pub end_ptr : ℕ
    pub node_pool : P.State
    pub size : ℕ
    pub nodes : Nodes

  unfoldable pub empty_list : P.State → Nodes → LinkedList
  empty_list pool nodes = record {
    start_ptr = 0;
    end_ptr = 0;
    node_pool = pool;
    size = 0;
    nodes = nodes;
  }

  -- The writes of `linked_list_cycle`, for the nodes that it has read.
  pub rotate : (first last second : ℕ) → LinkedList → LinkedList
  rotate first last second list =
      let nodes = set_next last first (set_prev first last (set_next first 0 list.nodes)) in
      record list { start_ptr = second; end_ptr = first; nodes = set_prev second 0 nodes }

  pub linked_list_cycle : LinkedList → LinkedList
  linked_list_cycle list =
      let first = list.start_ptr in
      let last = list.end_ptr in
      if first == last then list else rotate first last (list.nodes first).next_ptr list

  -- The loop of `linked_list_destroy` on fuel.
  pub free_from : (fuel node : ℕ) → Nodes → P.State → Run P.State
  free_from zero node nodes pool = out_of_fuel
  free_from (suc f) node nodes pool = if node == 0 then ok pool else (do
    (freed, pool') ← P.free_entry node pool
    free_from f (nodes node).next_ptr nodes pool')

  pub linked_list_destroy : (fuel : ℕ) → LinkedList → Run P.State
  unfolding free_from
  linked_list_destroy fuel list = free_from fuel list.start_ptr list.nodes list.node_pool

-- `for (i = 0; i < index + 1; i++)` of `linked_list_get`.
pub get_from : (rounds node content : ℕ) → Nodes → ℕ
get_from zero node content nodes = content
get_from (suc n) node content nodes =
    let rest = get_from n (nodes node).next_ptr (nodes node).content nodes in
    if node == 0 then 0 else rest

-- The loop of `linked_list_search` on fuel; `none` means that the fuel ran out.
pub search_from : (fuel node index content : ℕ) → Nodes → Option ℤ
search_from zero node index content nodes = none
search_from (suc f) node index content nodes =
    let rest = search_from f (nodes node).next_ptr (index + 1) content nodes in
    if node == 0
    then some (negsuc 0)
    else if (nodes node).content == content
    then some (pos index)
    else rest

-- `while (node != NULL && rounds left) { node = node->next_ptr; temp_index++; }`
pub seek : (rounds node temp_index : ℕ) → Nodes → ℕ × ℕ
seek zero node temp_index nodes = (node, temp_index)
seek (suc n) node temp_index nodes =
    let rest = seek n (nodes node).next_ptr (temp_index + 1) nodes in
    if node == 0 then (node, temp_index) else rest

module _ {P : NodePool} where
  pub linked_list_get : (index : ℕ) → LinkedList P → ℕ
  unfolding get_from
  linked_list_get index list =
      get_from (u32 (index + 1)) list.start_ptr (list.nodes list.start_ptr).content list.nodes

  pub linked_list_search : (fuel content : ℕ) → LinkedList P → Option ℤ
  unfolding search_from
  linked_list_search fuel content list = search_from fuel list.start_ptr 0 content list.nodes

  -- The end of `linked_list_add`, for the node found and the nodes with the new one cleared.
  pub link : (node temp_node temp_index : ℕ) → Nodes → LinkedList P → ℤ × LinkedList P
  link node temp_node temp_index nodes list =
      if temp_node == 0
      then (
        pos temp_index,
        record list {
          end_ptr = node;
          size = u32 (list.size + 1);
          nodes = set_prev node list.end_ptr (set_next list.end_ptr node nodes);
        },
      )
      else (
        pos temp_index,
        record list {
          start_ptr = if (nodes temp_node).prev_ptr == 0 then node else list.start_ptr;
          size = u32 (list.size + 1);
          nodes =
              set_prev temp_node node
                (set_next node temp_node (set_prev node (nodes temp_node).prev_ptr nodes));
        },
      )

  pub linked_list_add : (content index : ℕ) → LinkedList P → Run (ℤ × LinkedList P)
  unfolding seek link
  linked_list_add content index list = do
    let node = (P.get_next list.node_pool).0
    let pool = (P.get_next list.node_pool).1
    assert (not (node == 0))
    let nodes = write list.nodes node (record { next_ptr = 0; prev_ptr = 0; content = content })
    let found = seek (index + 1) list.start_ptr 0 nodes
    ok (
        if list.start_ptr == 0
        then (
          pos 0,
          record list {
            start_ptr = node;
            end_ptr = node;
            node_pool = pool;
            size = u32 (list.size + 1);
            nodes = nodes;
          },
        )
        else link node found.0 found.1 nodes (record list { node_pool = pool }))

  -- The end of `linked_list_remove`: what `shared_pool_free_entry` answers decides the result.
  pub release : (node : ℕ) → LinkedList P → Run (ℤ × LinkedList P)
  release node list = do
    (freed, pool) ← P.free_entry node list.node_pool
    ok (if freed then pos 0 else negsuc 0, record list { node_pool = pool })

  -- `remove_only` and `remove_linked` are the two ways to take a node out.
  pub remove_only : (node : ℕ) → LinkedList P → Run (ℤ × LinkedList P)
  remove_only node list = do
    (freed, pool) ← P.free_entry node list.node_pool
    ok (
      if freed then pos 0 else negsuc 0,
      record list {
        start_ptr = 0;
        end_ptr = 0;
        node_pool = pool;
        size = if freed then u32 (list.size + 2 ^ 32 - 1) else list.size;
      },
    )

  pub unlink : (prev_node next_node : ℕ) → LinkedList P → LinkedList P
  unlink prev_node next_node list =
      let nodes = if prev_node == 0 then list.nodes else set_next prev_node next_node list.nodes in
      record list {
        start_ptr = if prev_node == 0 then next_node else list.start_ptr;
        end_ptr = if next_node == 0 then prev_node else list.end_ptr;
        size = u32 (list.size + 2 ^ 32 - 1);
        nodes = if next_node == 0 then nodes else set_prev next_node prev_node nodes;
      }

  pub linked_list_remove : (index : ℕ) → LinkedList P → Run (ℤ × LinkedList P)
  unfolding seek release remove_only unlink
  linked_list_remove index list =
      let found = seek index list.start_ptr 0 list.nodes in
      let prev_node = (list.nodes found.0).prev_ptr in
      let next_node = (list.nodes found.0).next_ptr in
      if found.1 == index
      then (if prev_node == 0 && next_node == 0
          then remove_only found.0 list
          else release found.0 (unlink prev_node next_node list))
      else ok (negsuc 0, list)

  pub linked_list_enqueue : (content : ℕ) → LinkedList P → Run (ℤ × LinkedList P)
  linked_list_enqueue content list = linked_list_add content list.size list

  pub linked_list_push : (content : ℕ) → LinkedList P → Run (ℤ × LinkedList P)
  linked_list_push content list = linked_list_add content 0 list

  pub linked_list_pop : LinkedList P → Run (ℕ × LinkedList P)
  linked_list_pop list =
      let ret = linked_list_get 0 list in
      if ret == 0
      then ok (ret, list)
      else (do (r, list') ← linked_list_remove 0 list; ok (ret, list'))

  pub linked_list_dequeue : LinkedList P → Run (ℕ × LinkedList P)
  linked_list_dequeue list = do
    (r, list') ← linked_list_remove 0 list
    ok (linked_list_get 0 list, list')
