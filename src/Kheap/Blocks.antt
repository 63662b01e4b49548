-- ===== src/Kheap/Blocks.antt =====
-- What a heap in order is: a row of blocks that stand behind one another, each linked to its
-- neighbours, and a free list of exactly the free ones.
use now_os.Base.{
  ℕ, ◌+◌, ◌^◌, ◌≤◌, ◌<◌, ◌≡◌, ◌↔◌, ◌⊎◌, inl, inr, refl, sym, ap, ◌∙◌, ok, Bool, true, false, not,
  ◌&&◌, ◌||◌, Bool-cases, List, [], ◌∷◌, ◌++◌, arith, ◌==◌,
}
use now_os.SortedArrayList.Inv.{IsValid, Holds}
use now_os.Kheap.{Header, Kheap, magic_of, link_next, check_header}

pub data Block : Type 0 where
  used free : (size : ℕ) → Block

abbrev pub size_of : Block → ℕ
size_of (used n) = n
size_of (free n) = n

abbrev pub is_used : Block → Bool
is_used (used n) = true
is_used (free n) = false

-- The bytes that blocks take with their headers.
abbrev pub span : List Block → ℕ
span [] = 0
span (b ∷ bs) = 16 + size_of b + span bs

-- The pointer to the first of the blocks that stand at an address.
abbrev pub first_of : List Block → ℕ → ℕ
first_of [] a = 0
first_of (b ∷ bs) a = a

abbrev pub header_of : Block → (next prev : ℕ) → Header
header_of b next prev = record {
  magic = magic_of (is_used b);
  next_ptr = next;
  prev_ptr = prev;
  size = size_of b;
}

-- From `start` to `stop` stand the blocks, behind a block at `prev`, and the last one is at `last`.
abbrev pub Row : (ℕ → Header) → (prev start : ℕ) → List Block → (last stop : ℕ) → Type 0
Row header prev start [] last stop = (start ≡ stop) × (last ≡ prev)
Row header prev start (b ∷ bs) last stop =
    (header start ≡ header_of b (first_of bs (start + (16 + size_of b))) prev)
    × Row header start (start + (16 + size_of b)) bs last stop

-- Whether a free block stands at `x`.
abbrev pub free_at : (start : ℕ) → List Block → (x : ℕ) → Bool
free_at start [] x = false
free_at start (b ∷ bs) x =
    (not (is_used b) && x == start) || free_at (start + (16 + size_of b)) bs x

pub record IsHeap (bottom : ℕ) (h : Kheap) (bs : List Block) : Type 0 where
  pub row : Row h.header 0 bottom bs h.heap_list_end_ptr h.top_heap_ptr
  pub positive : 0 < bottom
  pub fits : h.top_heap_ptr < 2 ^ 32
  pub list : IsValid h.free_node_list
  pub listed : (x : ℕ) → Holds h.free_node_list x ↔ (free_at bottom bs x ≡ true)

pub first_of-append :
    (pre : List Block) (b : Block) (post : List Block) (a : ℕ) → first_of (pre ++ b ∷ post) a ≡ a
first_of-append [] b post a = refl
first_of-append (c ∷ pre) b post a = refl

pub span-append : (xs ys : List Block) → span (xs ++ ys) ≡ span xs + span ys
span-append [] ys = omega arith
span-append (b ∷ xs) ys = omega (arith, span-append xs ys)

pub Row-span :
    (header : ℕ → Header) (prev start last stop : ℕ) (bs : List Block)
    → Row header prev start bs last stop
    → stop ≡ start + span bs
Row-span header prev start last stop [] r = omega arith
Row-span header prev start last stop (b ∷ bs) r =
    omega (arith, Row-span header start (start + (16 + size_of b)) last stop bs r.1)

-- Headers below the row may change.
pub Row-frame :
    (header header' : ℕ → Header) (prev start last stop : ℕ) (bs : List Block)
    → Row header prev start bs last stop
    → ((a : ℕ) → start ≤ a → header' a ≡ header a)
    → Row header' prev start bs last stop
Row-frame header header' prev start last stop [] r same = r
Row-frame header header' prev start last stop (b ∷ bs) r same = (
  same start (omega arith) ∙ r.0,
  Row-frame header header' start (start + (16 + size_of b)) last stop bs r.1
      (λ a h. same a (omega arith)),
)

-- A row behind another predecessor, whose first header alone changes.
pub Row-behind :
    (header header' : ℕ → Header) (prev prev' start last stop : ℕ) (b : Block) (bs : List Block)
    → Row header prev start (b ∷ bs) last stop
    → header' start ≡ record (header start) { prev_ptr = prev' }
    → ((a : ℕ) → start < a → header' a ≡ header a)
    → Row header' prev' start (b ∷ bs) last stop
Row-behind header header' prev prev' start last stop b bs r e same = (
  rw r.0 at e,
  Row-frame header header' start (start + (16 + size_of b)) last stop bs r.1
      (λ a h. same a (omega arith)),
)

-- Where a free block stands.
pub record Split (start : ℕ) (bs : List Block) (x : ℕ) : Type 0 where
  pub pre : List Block
  pub size : ℕ
  pub post : List Block
  pub whole : bs ≡ pre ++ free size ∷ post
  pub place : x ≡ start + span pre

pub free_at-Split :
    (start : ℕ) (bs : List Block) (x : ℕ) → free_at start bs x ≡ true → Split start bs x
free_at-Split start [] x h = absurd (ground arith)
free_at-Split start (free n ∷ bs) x h = elim (Bool-cases (x == start)) [
  | inl e ↦ record { pre = []; size = n; post = bs; whole = refl; place = ground arith }
  | inr e ↦
      (let s : Split (start + (16 + n)) bs x =
          free_at-Split (start + (16 + n)) bs x (ground arith) in
        record {
          pre = free n ∷ s.pre;
          size = s.size;
          post = s.post;
          whole = ap (λ l. free n ∷ l) s.whole;
          place = omega (arith, s.place);
        })
]
free_at-Split start (used n ∷ bs) x h =
    let s : Split (start + (16 + n)) bs x = free_at-Split (start + (16 + n)) bs x h in
    record {
      pre = used n ∷ s.pre;
      size = s.size;
      post = s.post;
      whole = ap (λ l. used n ∷ l) s.whole;
      place = omega (arith, s.place);
    }

-- The predecessor of a row is null or links to it.
abbrev pub Linked : (ℕ → Header) → (before a : ℕ) → List Block → Type 0
Linked header before a bs =
    (before ≡ 0) ⊎ ((before < a) × ((header before).next_ptr ≡ first_of bs a))

-- The blocks at an address inside a row.
pub record At (header : ℕ → Header) (a last stop : ℕ) (bs : List Block) : Type 0 where
  pub before : ℕ
  pub here : Row header before a bs last stop
  pub linked : Linked header before a bs

pub Row-At :
    (header : ℕ → Header) (prev start last stop : ℕ) (pre bs : List Block)
    → Row header prev start (pre ++ bs) last stop
    → Linked header prev start (pre ++ bs)
    → (a : ℕ) → a ≡ start + span pre
    → At header a last stop bs
Row-At header prev start last stop [] bs r l a e =
    let z : start ≡ a = omega arith in
    record { before = prev; here = rw z at r; linked = rw z at l }
Row-At header prev start last stop (b ∷ pre) bs r l a e =
    Row-At header start (start + (16 + size_of b)) last stop pre bs r.1
      (inr (omega arith, ap Header.next_ptr r.0)) a (omega arith)

-- Blocks of a row are replaced where memory below them does not change.
pub Row-replace :
    (header header' : ℕ → Header) (prev start last last' stop : ℕ) (pre : List Block) (b : Block)
    (bs : List Block) (c : Block) (cs : List Block)
    → Row header prev start (pre ++ b ∷ bs) last stop
    → (a : ℕ) → a ≡ start + span pre
    → ((q : ℕ) → q < a → header' q ≡ header q)
    → ((p : ℕ) → Row header p a (b ∷ bs) last stop → Row header' p a (c ∷ cs) last' stop)
    → Row header' prev start (pre ++ c ∷ cs) last' stop
Row-replace header header' prev start last last' stop [] b bs c cs r a e same local =
    let z : a ≡ start = omega arith in rw z at (local prev (rw (sym z) at r))
Row-replace header header' prev start last last' stop (d ∷ pre) b bs c cs r a e same local = (
  same start (omega arith)
      ∙ r.0
      ∙ ap (λ n. header_of d n prev)
          (first_of-append pre b bs (start + (16 + size_of d))
            ∙ sym (first_of-append pre c cs (start + (16 + size_of d)))),
  Row-replace header header' start (start + (16 + size_of d)) last last' stop pre b bs c cs r.1 a
      (omega arith) same local,
)

-- Writing to the predecessor the link that it has.
pub link_next-same :
    (header : ℕ → Header) (before a : ℕ) (b : Block) (bs : List Block) (q : ℕ)
    → Linked header before a (b ∷ bs)
    → link_next before a header q ≡ header q
link_next-same header before a b bs q (inl e) = ground arith
link_next-same header before a b bs q (inr (lt, e)) = ground arith

pub free_at-append :
    (start : ℕ) (pre bs : List Block) (x : ℕ)
    → free_at start (pre ++ bs) x ≡ (free_at start pre x || free_at (start + span pre) bs x)
free_at-append start [] bs x = let z : start + 0 ≡ start = omega arith in rw z refl
free_at-append start (b ∷ pre) bs x =
    let z : start + (16 + size_of b) + span pre ≡ start + (16 + size_of b + span pre) =
      omega arith in
    ground (arith, free_at-append (start + (16 + size_of b)) pre bs x, z)

-- A free block stands inside its row.
pub free_at_bounds :
    (start : ℕ) (bs : List Block) (x : ℕ)
    → free_at start bs x ≡ true
    → (start ≤ x) × (x < start + span bs)
free_at_bounds start [] x h = absurd (ground arith)
free_at_bounds start (b ∷ bs) x h = ground (arith, free_at_bounds (start + (16 + size_of b)) bs x)

-- The header of a block passes the check.
pub good_header : (b : Block) (next prev : ℕ) → check_header (header_of b next prev) ≡ ok tt
unfolding check_header
good_header (used n) next prev = refl
good_header (free n) next prev = refl
