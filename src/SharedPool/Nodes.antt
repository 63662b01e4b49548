-- ===== src/SharedPool/Nodes.antt =====
-- The shared pool is the pool that klib/linked_list.c asks for.
use now_os.Base.{
  ℕ, ◌+◌, ◌-◌, ◌*◌, ◌/◌, ◌<◌, ◌≡◌, ◌≢◌, inl, inr, refl, ◌∙◌, Bool, true, false, ◌&&◌, arith, ltb,
  ◌==◌, if◌then◌else◌, Bool-cases, Run, ok, ◌>>=◌,
}
use mathlib.Core.Path.{subst}
use native.Mathlib.Nat.{mul-div_cancel}
use now_os.LinkedList.{NodePool}
use now_os.SharedPool.{SharedPool, shared_pool_get_next, shared_pool_get_index}
use now_os.SharedPool.Bitmap.{
  slot, claim, give_back, slot-claim, slot-give_back, claim-IsPool, give_back-IsPool, IsPool,
}
use now_os.SharedPool.Entry.{
  address, Given, no_entry, next_entry, get_next-Given, get_index-address,
}

-- A pool in memory.
abbrev pub State : Type 0
State = (pool : SharedPool) × IsPool pool

-- The entry that an address lies in.
abbrev index_of : SharedPool → ℕ → ℕ
index_of pool q = (q - pool.buf) / pool.type_size

-- Whether an address is that of a taken entry.
abbrev pub taken : State → ℕ → Bool
taken s q =
    let k = index_of s.0 q in ltb k s.0.max_obj_num && (address s.0 k == q && slot s.0 k == 1)

abbrev pub next_of : (s : State) → Given s.0 (shared_pool_get_next s.0) → ℕ × State
next_of s (no_entry all e) = (0, s)
next_of s (next_entry k small free before e) =
    (address s.0 k, (claim k s.0, claim-IsPool s.0 k s.1))

abbrev pub get_next : State → ℕ × State
get_next s = next_of s (get_next-Given s.0 s.1)

-- These two are the functions of klib/shared_pool.c.
pub get_next-shared : (s : State) → shared_pool_get_next s.0 ≡ ok ((get_next s).0, (get_next s).1.0)
get_next-shared s = go s (get_next-Given s.0 s.1)
  where
    go :
        (s : State) (g : Given s.0 (shared_pool_get_next s.0))
        → shared_pool_get_next s.0 ≡ ok ((next_of s g).0, (next_of s g).1.0)
    go s (no_entry all e) = e
    go s (next_entry k small free before e) = e

abbrev pub free_entry : ℕ → State → Run (Bool × State)
free_entry p s = do
  k ← shared_pool_get_index p s.0
  ok (true, (give_back k s.0, give_back-IsPool s.0 k s.1))

index_of-address : (s : State) (k : ℕ) → index_of s.0 (address s.0 k) ≡ k
unfolding address
index_of-address s k =
    let d : s.0.buf + k * s.0.type_size - s.0.buf ≡ k * s.0.type_size = omega arith in
    rw d (mul-div_cancel k (s.1.some_bytes))

taken-address :
    (s : State) (k : ℕ) → k < s.0.max_obj_num → taken s (address s.0 k) ≡ (slot s.0 k == 1)
taken-address s k small = rw (index_of-address s k) (ground arith)

-- A pool that differs from another in entry `k` alone.
taken_change :
    (s s' : State) (k value q : ℕ)
    → s'.0.buf ≡ s.0.buf
    → s'.0.max_obj_num ≡ s.0.max_obj_num
    → s'.0.type_size ≡ s.0.type_size
    → k < s.0.max_obj_num
    → ((m : ℕ) → slot s'.0 m ≡ (if m == k then value else slot s.0 m))
    → taken s' q ≡ (if q == address s.0 k then value == 1 else taken s q)
unfolding address slot
taken_change s s' k value q b n t small change = elim (Bool-cases (q == address s.0 k)) [
  | inl e ↦
      (let w : q ≡ address s.0 k = ground (arith, e) in
        rw (e, b, n, t, w, index_of-address s k, change k) (ground arith))
  | inr e ↦
      rw (e, b, n, t, change (index_of s.0 q))
        (elim (Bool-cases (index_of s.0 q == k)) [
          | inl d ↦
              (let w : index_of s.0 q ≡ k = ground (arith, d) in
                let away : (address s.0 (index_of s.0 q) == q) ≡ false = rw w (ground (arith, e)) in
                rw (away) (ground arith))
          | inr d ↦ rw d refl
        ])
]

pub fresh_of :
    (s : State) (g : Given s.0 (shared_pool_get_next s.0))
    → (next_of s g).0 ≢ 0
    → taken s (next_of s g).0 ≡ false
fresh_of s (no_entry all e) h = absurd (h refl)
fresh_of s (next_entry k small free before e) h = taken-address s k small ∙ rw free refl

pub taken_of :
    (s : State) (g : Given s.0 (shared_pool_get_next s.0)) (q : ℕ)
    → (next_of s g).0 ≢ 0
    → taken (next_of s g).1 q ≡ (if q == (next_of s g).0 then true else taken s q)
unfolding claim
taken_of s (no_entry all e) q h = absurd (h refl)
taken_of s (next_entry k small free before e) q h =
    taken_change s (claim k s.0, claim-IsPool s.0 k s.1) k 1 q refl refl refl small
      (slot-claim s.0 k)

-- A pool with a free entry gives one.
next_of-found :
    (s : State) (k : ℕ)
    → k < s.0.max_obj_num
    → slot s.0 k ≡ 0
    → (g : Given s.0 (shared_pool_get_next s.0)) → (next_of s g).0 ≢ 0
unfolding address
next_of-found s k small free (no_entry all e) h = let taken = all k small in absurd (omega arith)
next_of-found s k small free (next_entry m small' free' before e) h =
    let nn = s.1.not_null in absurd (omega arith)

pub free_taken :
    (s : State) (p : ℕ)
    → p ≢ 0
    → taken s p ≡ true
    → (s' : State) × (free_entry p s ≡ ok (true, s'))
      × ((q : ℕ) → taken s' q ≡ (if q == p then false else taken s q))
      × ((get_next s').0 ≢ 0)
unfolding give_back
free_taken s p nz t =
    let k = index_of s.0 p in
    let s' : State = (give_back k s.0, give_back-IsPool s.0 k s.1) in
    let small : k < s.0.max_obj_num = ground (arith, t) in
    let at : address s.0 k ≡ p = ground (arith, t) in
    let i : shared_pool_get_index p s.0 ≡ ok k =
      subst (λ x. shared_pool_get_index x s.0 ≡ ok k) at (get_index-address s.0 k s.1 small) in
    (
      s',
      rw i refl,
      λ q.
          subst (λ x. taken s' q ≡ (if q == x then false else taken s q)) at
            (taken_change s s' k 0 q refl refl refl small (slot-give_back s.0 k)),
      next_of-found s' k small
          (slot-give_back s.0 k k ∙ (let r : (k == k) ≡ true = ground arith in rw r refl))
          (get_next-Given s'.0 s'.1),
    )

-- The shared pool does what the linked list asks of its pool.
abbrev pub shared_nodes : NodePool
shared_nodes = record {
  State = State;
  taken = taken;
  get_next = get_next;
  free_entry = free_entry;
  get_next-fresh = λ s. fresh_of s (get_next-Given s.0 s.1);
  taken-get_next = λ s. taken_of s (get_next-Given s.0 s.1);
  free_entry-ok = free_taken;
}
