-- ===== src/LinkedList/Chain.antt =====
-- What a chain of nodes stands for, and how the loops walk it.
use now_os.Base.{
  ℕ, zero, suc, ◌+◌, ◌≤◌, ◌<◌, ◌≡◌, ◌≢◌, refl, Bool, true, false, ◌||◌, some, List, [], ◌∷◌, ◌++◌,
  arith, ◌==◌, if◌then◌else◌, length, ℤ, pos, negsuc,
}
use now_os.LinkedList.{Nodes, NodePool, LinkedList, get_from, search_from, seek}

-- Address and content of each node, in order.
abbrev pub Cells : Type 0
Cells = List (ℕ × ℕ)

abbrev pub has : ℕ → Cells → Bool
has a [] = false
has a ((b, d) ∷ xs) = (a == b) || has a xs

abbrev pub Distinct : Cells → Type 0
Distinct [] = Unit {0}
Distinct ((a, d) ∷ xs) = (has a xs ≡ false) × Distinct xs

-- From `p`, whose predecessor is `prev`, the nodes `xs` follow one another in both directions and
-- end at `last`.
abbrev pub Chain : Nodes → (prev p : ℕ) → Cells → (last : ℕ) → Type 0
Chain nodes prev p [] last = (p ≡ 0) × (last ≡ prev)
Chain nodes prev p ((a, d) ∷ xs) last =
    (p ≡ a)
    × (a ≢ 0)
    × ((nodes a).prev_ptr ≡ prev)
    × ((nodes a).content ≡ d)
    × Chain nodes a (nodes a).next_ptr xs last

pub Chain-frame :
    (nodes nodes' : Nodes) (prev p last : ℕ) (xs : Cells)
    → Chain nodes prev p xs last
    → ((a : ℕ) → has a xs ≡ true → nodes' a ≡ nodes a)
    → Chain nodes' prev p xs last
Chain-frame nodes nodes' prev p last [] c same = c
Chain-frame nodes nodes' prev p last ((a, d) ∷ xs) c same =
    let e : nodes' a ≡ nodes a = same a (ground arith) in
    (
      c.0,
      c.1,
      rw e c.2,
      rw e c.3,
      rw e (
          Chain-frame nodes nodes' a (nodes a).next_ptr last xs c.4 (λ b h. same b (ground arith))),
    )

-- The last node of a chain that is not empty is one of it.
pub has-last :
    (nodes : Nodes) (prev p last a d : ℕ) (xs : Cells)
    → Chain nodes prev p ((a, d) ∷ xs) last
    → has last ((a, d) ∷ xs) ≡ true
has-last nodes prev p last a d [] c = ground arith
has-last nodes prev p last a d ((b, e) ∷ xs) c =
    ground (arith, has-last nodes a (nodes a).next_ptr last b e xs c.4)

-- Linking a new node behind the last one.
pub Chain-append :
    (nodes nodes' : Nodes) (prev p last a d new content : ℕ) (xs : Cells)
    → Chain nodes prev p ((a, d) ∷ xs) last
    → Distinct ((a, d) ∷ xs)
    → new ≢ 0
    → ((b : ℕ) → has b ((a, d) ∷ xs) ≡ true → b ≢ last → nodes' b ≡ nodes b)
    → nodes' last ≡ record (nodes last) { next_ptr = new }
    → nodes' new ≡ record { next_ptr = 0; prev_ptr = last; content = content }
    → Chain nodes' prev p ((a, d) ∷ xs ++ ((new, content) ∷ [])) new
Chain-append nodes nodes' prev p last a d new content [] c u nz same at_last at_new =
    let z : last ≡ a = c.4.1 in
    let e : nodes' a ≡ record (nodes a) { next_ptr = new } = rw z at at_last in
    let k : nodes' new ≡ record { next_ptr = 0; prev_ptr = a; content = content } =
      rw z at at_new in
    (c.0, c.1, rw e c.2, rw e c.3, (rw e refl, nz, rw k refl, rw k refl, (rw k refl, refl)))
Chain-append nodes nodes' prev p last a d new content ((b, e) ∷ xs) c u nz same at_last at_new =
    let ne : a ≢ last =
      λ z. ground (arith, has-last nodes a (nodes a).next_ptr last b e xs c.4, u.0) in
    let same_a : nodes' a ≡ nodes a = same a (ground arith) ne in
    (
      c.0,
      c.1,
      rw same_a c.2,
      rw same_a c.3,
      rw same_a (
          Chain-append nodes nodes' a (nodes a).next_ptr last b e new content xs c.4 u.1 nz
            (λ q h k. same q (ground arith) k) at_last at_new),
    )

-- The address of the node at an index, 0 behind the end.
abbrev pub addr_at : Cells → ℕ → ℕ
addr_at [] i = 0
addr_at ((a, d) ∷ xs) zero = a
addr_at ((a, d) ∷ xs) (suc i) = addr_at xs i

abbrev pub content_at : Cells → ℕ → ℕ
content_at [] i = 0
content_at ((a, d) ∷ xs) zero = d
content_at ((a, d) ∷ xs) (suc i) = content_at xs i

abbrev pub index_of : Cells → ℕ → ℕ → ℤ
index_of [] d i = negsuc 0
index_of ((a, e) ∷ xs) d i = if e == d then pos i else index_of xs d (i + 1)

-- Walking past the end stops at the null pointer, with the number of nodes as index.
pub seek_end :
    (nodes : Nodes) (n prev p last i : ℕ) (xs : Cells)
    → Chain nodes prev p xs last
    → length xs < n
    → seek n p i nodes ≡ (0, i + length xs)
unfolding seek
seek_end nodes zero prev p last i xs c h = elim h [ ]
seek_end nodes (suc n) prev p last i [] c h = ground arith
seek_end nodes (suc n) prev p last i ((a, d) ∷ xs) c h =
    ground (arith, seek_end nodes n a (nodes a).next_ptr last (i + 1) xs c.4)

-- Walking `n` nodes of a chain of at least as many.
pub seek_inside :
    (nodes : Nodes) (n prev p last i : ℕ) (xs : Cells)
    → Chain nodes prev p xs last
    → n ≤ length xs
    → seek n p i nodes ≡ (addr_at xs n, i + n)
unfolding seek
seek_inside nodes zero prev p last i [] c h = ground arith
seek_inside nodes zero prev p last i ((a, d) ∷ xs) c h = ground arith
seek_inside nodes (suc n) prev p last i [] c h = elim h [ ]
seek_inside nodes (suc n) prev p last i ((a, d) ∷ xs) c h =
    ground (arith, seek_inside nodes n a (nodes a).next_ptr last (i + 1) xs c.4)

pub get_from-content_at :
    (nodes : Nodes) (n prev p last old : ℕ) (xs : Cells)
    → Chain nodes prev p xs last
    → get_from (suc n) p old nodes ≡ content_at xs n
unfolding get_from
get_from-content_at nodes n prev p last old [] c = ground arith
get_from-content_at nodes zero prev p last old ((a, d) ∷ xs) c = ground arith
get_from-content_at nodes (suc n) prev p last old ((a, d) ∷ xs) c =
    ground (arith, get_from-content_at nodes n a (nodes a).next_ptr last (nodes a).content xs c.4)

pub search_from-index_of :
    (nodes : Nodes) (f prev p last i d : ℕ) (xs : Cells)
    → Chain nodes prev p xs last
    → length xs < f
    → search_from f p i d nodes ≡ some (index_of xs d i)
unfolding search_from
search_from-index_of nodes zero prev p last i d xs c h = elim h [ ]
search_from-index_of nodes (suc f) prev p last i d [] c h = ground arith
search_from-index_of nodes (suc f) prev p last i d ((a, e) ∷ xs) c h =
    ground (arith, search_from-index_of nodes f a (nodes a).next_ptr last (i + 1) d xs c.4)

module _ {P : NodePool} where
  -- The list holds `xs`: both directions, the size, and nodes of its own that the pool has given.
  pub record IsList (list : LinkedList P) (xs : Cells) : Type 0 where
    pub chain : Chain list.nodes 0 list.start_ptr xs list.end_ptr
    pub distinct : Distinct xs
    pub sized : list.size ≡ length xs
    pub owned : (a : ℕ) → has a xs ≡ true → P.taken list.node_pool a ≡ true
