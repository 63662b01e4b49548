-- ===== src/LinkedList/Access.antt =====
-- Reading a list: `linked_list_get` and `linked_list_search`.
use now_os.Base.{ℕ, suc, ◌+◌, ◌-◌, ◌^◌, ◌<◌, ◌≡◌, some, arith, length, u32}
use now_os.LinkedList.{NodePool, LinkedList, linked_list_get, linked_list_search}
use now_os.LinkedList.Chain.{
  Cells, content_at, index_of, get_from-content_at, search_from-index_of, IsList,
}

module _ {P : NodePool} where
  -- `linked_list_get` gives the content at the index, and null for an index behind the end, for
  -- every index but the greatest, whose successor wraps to 0.
  pub get-content_at :
      (list : LinkedList P) (xs : Cells) (index : ℕ)
      → IsList list xs
      → index < 2 ^ 32 - 1
      → linked_list_get index list ≡ content_at xs index
  unfolding linked_list_get
  get-content_at list xs index l small =
      let z : u32 (index + 1) ≡ suc index = omega arith in
      rw z (
        get_from-content_at list.nodes index 0 list.start_ptr list.end_ptr
          (list.nodes list.start_ptr).content xs l.chain)

  -- `linked_list_search` ends within one round more than the list has nodes, with the index of the
  -- first node that has the content, and -1 when no node has it.
  pub search-index_of :
      (list : LinkedList P) (xs : Cells) (fuel content : ℕ)
      → IsList list xs
      → length xs < fuel
      → linked_list_search fuel content list ≡ some (index_of xs content 0)
  unfolding linked_list_search
  search-index_of list xs fuel content l enough =
      search_from-index_of list.nodes fuel 0 list.start_ptr list.end_ptr 0 content xs l.chain enough
