-- ===== src/SharedPool/Race/Owners.antt =====
-- No entry has two owners, however the threads take turns.
use mathlib.Core.Path.{subst}
use now_os.Base.{
  ℕ, ◌+◌, ◌*◌, ◌/◌, ◌<◌, ◌≡◌, ◌≢◌, ◌⊎◌, inl, inr, refl, sym, ◌∙◌, Bool, true, false, ◌&&◌, none,
  some, arith, leb, ◌==◌, if◌then◌else◌, Bool-cases,
}
use now_os.SharedPool.{SharedPool, Round, max_int, try_bit}
use now_os.SharedPool.Bitmap.{
  slot, claim, give_back, slot-claim, slot-give_back, claim-IsPool, give_back-IsPool, IsPool,
}
use now_os.SharedPool.Race.Tries.{Tried, ended, went_on, took, try_bit-Tried, write_same}
use now_os.SharedPool.Race.{
  Phase, idle, refused, reading, trying, holding, freeing, System, moved, read_word, after_round,
  search_step, free_step, Step, calls_get, searches, gives_up, calls_free, ends_free, Reachable,
  start, next,
}

-- Whether a thread has entry `k`, also while it gives it back.
abbrev pub owns : Phase → (k : ℕ) → Bool
owns idle k = false
owns refused k = false
owns (reading i found) k = false
owns (trying j i found mask) k = false
owns (holding index) k = index == k
owns (freeing index word) k = index == k

-- The loops' variables stay in their ranges.
abbrev in_range : (max : ℕ) → Phase → Bool
in_range max idle = true
in_range max refused = true
in_range max (reading i found) = leb (i * 32) (max + 32)
in_range max (trying j i found mask) = leb (i * 32) max && leb j 32
in_range max (holding index) = true
in_range max (freeing index word) = true

pub record Owned (s : System) : Type 0 where
  pub valid : IsPool s.pool
  pub range : (t : ℕ) → in_range s.pool.max_obj_num (s.phase t) ≡ true
  pub marked : (t k : ℕ) → owns (s.phase t) k ≡ true → slot s.pool k ≡ 1
  pub single : (t u k : ℕ) → owns (s.phase t) k ≡ true → owns (s.phase u) k ≡ true → t ≡ u

-- Who owns an entry after a thread has moved.
owner_after :
    (s : System) (t : ℕ) (p : Phase) (pool : SharedPool) (u k : ℕ)
    → owns ((moved t p pool s).phase u) k ≡ true
    → ((u ≡ t) × (owns p k ≡ true)) ⊎ ((u ≢ t) × (owns (s.phase u) k ≡ true))
owner_after s t p pool u k h = elim (Bool-cases (u == t)) [
  | inl e ↦ inl (ground (arith, e), rw e at h)
  | inr e ↦ inr (ground (arith, e), rw e at h)
]

-- A thread that comes to own nothing more, in the same pool.
keeps :
    (s : System) (t : ℕ) (p : Phase)
    → in_range s.pool.max_obj_num p ≡ true
    → ((k : ℕ) → owns p k ≡ true → owns (s.phase t) k ≡ true)
    → Owned s
    → Owned (moved t p s.pool s)
keeps s t p low less o = record {
  valid = o.valid;
  range = λ u. ground (arith, low, o.range u);
  marked = λ u k h. o.marked u k (before u k h);
  single = λ u w k h h'. o.single u w k (before u k h) (before w k h');
}
  where
    before : (u k : ℕ) → owns ((moved t p s.pool s).phase u) k ≡ true → owns (s.phase u) k ≡ true
    before u k h = elim (owner_after s t p s.pool u k h) [
      | inl (e, mine) ↦ subst (λ x. owns (s.phase x) k ≡ true) (sym e) (less k mine)
      | inr (e, theirs) ↦ theirs
    ]

claims :
    (s : System) (t k : ℕ)
    → slot s.pool k ≡ 0
    → Owned s
    → Owned (moved t (holding k) (claim k s.pool) s)
unfolding claim
claims s t k free o = record {
  valid = claim-IsPool s.pool k o.valid;
  range = λ u. ground (arith, o.range u);
  marked = λ u m h. elim (owner_after s t (holding k) (claim k s.pool) u m h) [
    | inl (e, mine) ↦ ground (arith, mine, slot-claim s.pool k m)
    | inr (e, theirs) ↦ ground (arith, o.marked u m theirs, slot-claim s.pool k m)
  ];
  single = λ u w m h h'. elim (owner_after s t (holding k) (claim k s.pool) u m h) [
    | inl (e, mine) ↦ elim (owner_after s t (holding k) (claim k s.pool) w m h') [
      | inl (e', mine') ↦ e ∙ sym e'
      | inr (e', theirs') ↦ absurd (taken_already w m mine theirs')
    ]
    | inr (e, theirs) ↦ elim (owner_after s t (holding k) (claim k s.pool) w m h') [
      | inl (e', mine') ↦ absurd (taken_already u m mine' theirs)
      | inr (e', theirs') ↦ o.single u w m theirs theirs'
    ]
  ];
}
  where
    taken_already : (u m : ℕ) → (k == m) ≡ true → owns (s.phase u) m ≡ true → ⊥
    taken_already u m e theirs =
        let w : k ≡ m = ground (arith, e) in
        let t : slot s.pool k ≡ 1 = subst (λ x. slot s.pool x ≡ 1) (sym w) (o.marked u m theirs) in
        absurd (omega arith)

frees :
    (s : System) (t k : ℕ)
    → owns (s.phase t) k ≡ true
    → Owned s
    → Owned (moved t idle (give_back k s.pool) s)
unfolding give_back
frees s t k mine o = record {
  valid = give_back-IsPool s.pool k o.valid;
  range = λ u. ground (arith, o.range u);
  marked = λ u m h. elim (owner_after s t idle (give_back k s.pool) u m h) [
    | inl (e, nothing) ↦ cc
    | inr (e, theirs) ↦ elim (Bool-cases (m == k)) [
      | inl d ↦
          (let w : m ≡ k = ground (arith, d) in
            absurd
              (e (o.single u t m theirs (subst (λ x. owns (s.phase t) x ≡ true) (sym w) mine))))
      | inr d ↦ ground (arith, d, o.marked u m theirs, slot-give_back s.pool k m)
    ]
  ];
  single = λ u w m h h'. elim (owner_after s t idle (give_back k s.pool) u m h) [
    | inl (e, nothing) ↦ cc
    | inr (e, theirs) ↦ elim (owner_after s t idle (give_back k s.pool) w m h') [
      | inl (e', nothing') ↦ cc
      | inr (e', theirs') ↦ o.single u w m theirs theirs'
    ]
  ];
}

-- The phases before and after a read.
abbrev after_read : (i found : ℕ) → SharedPool → Phase
after_read i found pool =
    if leb (pool.max_obj_num / 32 + 1) i then refused else read_word i found (pool.free_list i)

after_read-quiet :
    (pool : SharedPool) (i found : ℕ)
    → leb (i * 32) (pool.max_obj_num + 32) ≡ true
    → (in_range pool.max_obj_num (after_read i found pool) ≡ true)
      × ((k : ℕ) → owns (after_read i found pool) k ≡ false)
unfolding read_word
after_read-quiet pool i found low = elim (Bool-cases (leb (pool.max_obj_num / 32 + 1) i)) [
  | inl e ↦ rw e (refl, λ k. refl)
  | inr e ↦ elim (Bool-cases (pool.free_list i == max_int)) [
    | inl d ↦ rw (e, d) (ground (arith, e), λ k. refl)
    | inr d ↦ rw (e, d) (ground (arith, e), λ k. refl)
  ]
]

round-Owned :
    (s : System) (t j i : ℕ) (r : Round × SharedPool)
    → leb (i * 32) s.pool.max_obj_num ≡ true
    → j < 32
    → Tried s.pool (j + i * 32) r
    → Owned s
    → Owned (moved t (after_round j i r.0) r.1 s)
unfolding after_round
round-Owned s t j i r low small (ended e) o = rw e (keeps s t refused refl (λ k h. cc) o)
round-Owned s t j i r low small (went_on found mask e) o =
    rw e (keeps s t (trying (j + 1) i found mask) (ground arith) (λ k h. cc) o)
round-Owned s t j i r low small (took free e) o =
    let few = o.valid.few in
    let n : (j + i * 32 == max_int) ≡ false = ground arith in
    rw (e, n) (claims s t (j + i * 32) free o)

some_inj : {A : Type 0} {a b : A} → some a ≡ some b → a ≡ b
some_inj e = cc

search-Owned :
    (s s' : System) (t : ℕ) (p : Phase)
    → s.phase t ≡ p
    → search_step t s ≡ some s'
    → Owned s
    → Owned s'
unfolding search_step
search-Owned s s' t idle h e o = (let k : none ≡ some s' = rw (h, search_step) at e in cc)
search-Owned s s' t refused h e o = (let k : none ≡ some s' = rw (h, search_step) at e in cc)
search-Owned s s' t (reading i found) h e o =
    let low : in_range s.pool.max_obj_num (reading i found) ≡ true = rw h at (o.range t) in
    let (low', quiet) = after_read-quiet s.pool i found low in
    subst Owned (some_inj (rw (h, search_step) at e))
      (keeps s t (after_read i found s.pool) low' (λ k m. ground (arith, m, quiet k)) o)
search-Owned s s' t (trying j i found mask) h e o =
    let low : in_range s.pool.max_obj_num (trying j i found mask) ≡ true = rw h at (o.range t) in
    subst Owned (some_inj (rw (h, search_step) at e)) (elim (Bool-cases (j == 32)) [
      | inl d ↦ rw d (keeps s t (reading (i + 1) found) (ground (arith, low)) (λ k m. cc) o)
      | inr d ↦ rw d (
          round-Owned s t j i (try_bit j i found mask s.pool) (ground (arith, low))
            (ground (arith, low, d))
            (try_bit-Tried s.pool j i found mask o.valid (ground (arith, low, d))
              (ground (arith, low)))
            o)
    ])
search-Owned s s' t (holding k) h e o = (let k : none ≡ some s' = rw (h, search_step) at e in cc)
search-Owned s s' t (freeing k w) h e o = (let k : none ≡ some s' = rw (h, search_step) at e in cc)

free_step-Owned :
    (s : System) (t k word : ℕ)
    → s.phase t ≡ freeing k word
    → Owned s
    → Owned (free_step t k word s)
unfolding free_step give_back
free_step-Owned s t k word h o = elim (Bool-cases (s.pool.free_list (k / 32) == word)) [
  | inl e ↦
      (let w : word ≡ s.pool.free_list (k / 32) = ground (arith, e) in
        let e' : (s.pool.free_list (k / 32) == s.pool.free_list (k / 32)) ≡ true = ground arith in
        rw (free_step, w, e') (frees s t k (rw h (ground arith)) o))
  | inr e ↦
      rw (free_step, e, write_same s.pool (k / 32)) (keeps s t (holding k) refl (λ m n. rw h n) o)
]

step-Owned : (s s' : System) → Step s s' → Owned s → Owned s'
step-Owned s s' (calls_get t h) o = keeps s t (reading 0 0) (ground arith) (λ k m. cc) o
step-Owned s s' (searches t s'' e) o = search-Owned s s'' t (s.phase t) refl e o
step-Owned s s' (gives_up t h) o = keeps s t idle refl (λ k m. cc) o
step-Owned s s' (calls_free t k h) o =
    keeps s t (freeing k (s.pool.free_list (k / 32))) refl (λ m n. rw h n) o
step-Owned s s' (ends_free t k word h) o = free_step-Owned s t k word h o

pub reachable-Owned : (pool : SharedPool) (s : System) → IsPool pool → Reachable pool s → Owned s
reachable-Owned pool s v start = record {
  valid = v;
  range = λ t. refl;
  marked = λ t k h. cc;
  single = λ t u k h h'. cc;
}
reachable-Owned pool s v (next s0 s1 r step) = step-Owned s0 s1 step (reachable-Owned pool s0 v r)

-- However threads take turns in a pool that none of them used, two threads that have the same entry
-- are the same thread, and the bit of an entry that a thread has is set.
pub one_owner :
    (pool : SharedPool) (s : System) (t u k : ℕ)
    → IsPool pool
    → Reachable pool s
    → owns (s.phase t) k ≡ true
    → owns (s.phase u) k ≡ true
    → (t ≡ u) × (slot s.pool k ≡ 1)
one_owner pool s t u k v r h h' =
    let o = reachable-Owned pool s v r in (o.single t u k h h', o.marked t k h)
