-- ===== src/CircBuf/Refine.antt =====
-- A valid buffer with entries of at most one pointer is a bounded queue of those entries.
use now_os.Base.{
  ℕ, zero, suc, ◌+◌, ◌-◌, ◌*◌, ◌%◌, ◌≤◌, ◌<◌, ◌≡◌, ◌≢◌, ◌⊎◌, refl, sym, ap, ◌∙◌, true, false, some,
  List, [], ◌∷◌, ◌++◌, arith, ◌==◌, if◌then◌else◌, length, Returns,
}
use native.Mathlib.Nat.{mod-add-mod, mod-eq_of_lt, mod-eq-sub-mod, add-zero}
use native.Mathlib.Decide.{dec_lt, ℕ_discrete}
use mathlib.Core.Path.{ap₂}
use now_os.CString.{Mem, memcpy}
use now_os.CString.Copy.{memcpy-moved}
use now_os.CircBuf.{
  CircBuf, Status, ptr_size, success, failure, slot, push_index, push_circ_buf, pop_circ_buf,
}
use now_os.CircBuf.Inv.{
  IsValid, pushed, push_entry-eq, push_entry_full, pop_circ_buf-eq, pop_circ_buf_empty,
}

-- The `n` bytes at `a`.
abbrev pub bytes : Mem → ℕ → ℕ → List ℕ
bytes m a zero = []
bytes m a (suc n) = m a ∷ bytes m (a + 1) n

-- The `n` entries from slot `h` on, oldest first.
abbrev pub entries : (buf size type_size : ℕ) → Mem → (h n : ℕ) → List (List ℕ)
entries buf size type_size m h zero = []
entries buf size type_size m h (suc n) =
    bytes m (buf + ptr_size * h) type_size ∷ entries buf size type_size m ((h + 1) % size) n

abbrev pub window : CircBuf → Mem → (h n : ℕ) → List (List ℕ)
window c = entries c.buf c.size c.type_size

abbrev pub contents : CircBuf → Mem → List (List ℕ)
contents c m = window c m c.curr_index c.curr_size

-- The `n` bytes at `a` and the slots of `c`, four bytes each, have no byte in common. The slots of
-- entries smaller than that reach behind the storage that `init_circ_buf` asks for.
abbrev pub OutsideSlots : CircBuf → (a n : ℕ) → Type 0
OutsideSlots c a n = (a + n ≤ c.buf) ⊎ (c.buf + 4 * c.size ≤ a)

bytes-congr :
    (m m' : Mem) (a a' n : ℕ)
    → ((k : ℕ) → k < n → m (a + k) ≡ m' (a' + k))
    → bytes m a n ≡ bytes m' a' n
bytes-congr m m' a a' zero h = refl
bytes-congr m m' a a' (suc n) h = ap₂ ◌∷◌ first (bytes-congr m m' (a + 1) (a' + 1) n next)
  where
    first : m a ≡ m' a'
    first = simp add-zero at (h 0 (omega arith))

    next : (k : ℕ) → k < n → m (a + 1 + k) ≡ m' (a' + 1 + k)
    next k q =
        let p : a + 1 + k ≡ a + suc k = omega arith in
        let p' : a' + 1 + k ≡ a' + suc k = omega arith in rw (p, p') (h (suc k) (omega arith))

-- A copy carries its bytes over.
bytes-memcpy :
    (dst src n : ℕ) (m : Mem)
    → (dst + n ≤ src) ⊎ (src + n ≤ dst)
    → bytes (memcpy dst src n m) dst n ≡ bytes m src n
bytes-memcpy dst src n m h =
    bytes-congr (memcpy dst src n m) m dst src n
      λ k q. ground (arith, memcpy-moved dst src n m (dst + k))

-- A copy leaves the bytes that it does not write.
bytes-memcpy_apart :
    (dst src n a k : ℕ) (m : Mem)
    → (dst + n ≤ src) ⊎ (src + n ≤ dst)
    → (a + k ≤ dst) ⊎ (dst + n ≤ a)
    → bytes (memcpy dst src n m) a k ≡ bytes m a k
bytes-memcpy_apart dst src n a k m h far =
    bytes-congr (memcpy dst src n m) m a a k λ j q. ground (arith, memcpy-moved dst src n m (a + j))

-- Fewer than `size` steps round the ring do not come back to the start.
add-mod-ne : (size h k : ℕ) → h < size → suc k < size → (h + suc k) % size ≢ h
add-mod-ne size h k hh hk = elim (dec_lt (h + suc k) size) [
  | yes p ↦ omega (arith, mod-eq_of_lt p)
  | no p ↦ omega (
    arith,
    mod-eq-sub-mod {n = h + suc k} {m = size} (omega arith),
    mod-eq_of_lt {n = h + suc k - size} {m = size} (omega arith),
  )
]

-- Memory that agrees on the slots shows the same window.
window-congr :
    (c : CircBuf) (m m' : Mem) (h n : ℕ)
    → h < c.size
    → ((q : ℕ) → q < c.size → bytes m' (slot c q) c.type_size ≡ bytes m (slot c q) c.type_size)
    → window c m' h n ≡ window c m h n
window-congr c m m' h zero lt same = refl
window-congr c m m' h (suc n) lt same =
    ap₂ ◌∷◌ (same h lt) (window-congr c m m' ((h + 1) % c.size) n (omega arith) same)

-- A write to the slot just past a window extends the window by what it wrote.
window-append :
    (c : CircBuf) (m m' : Mem) (h n p : ℕ)
    → h < c.size
    → n < c.size
    → p ≡ (h + n) % c.size
    → ((q : ℕ)
        → q < c.size
        → q ≢ p
        → bytes m' (slot c q) c.type_size ≡ bytes m (slot c q) c.type_size)
    → window c m' h (suc n) ≡ window c m h n ++ (bytes m' (slot c p) c.type_size ∷ [])
window-append c m m' h zero p lt few e same =
    let z : p ≡ h = e ∙ rw add-zero (mod-eq_of_lt lt) in rw z
window-append c m m' h (suc n) p lt few e same =
    ap₂ ◌∷◌ (same h lt (λ z. add-mod-ne c.size h n lt few (sym e ∙ sym z)))
      (window-append c m m' ((h + 1) % c.size) n p (omega arith) (omega arith) (e ∙ shift) same)
  where
    shift : (h + suc n) % c.size ≡ ((h + 1) % c.size + n) % c.size
    shift = rw mod-add-mod (ap (λ k. k % c.size) (omega arith))

length-window : (c : CircBuf) (m : Mem) (h n : ℕ) → length (window c m h n) ≡ n
length-window c m h zero = refl
length-window c m h (suc n) = ap suc (length-window c m ((h + 1) % c.size) n)

-- The queue that the buffer stands for.
unfoldable pub enqueue : (cap : ℕ) → List (List ℕ) → List ℕ → Status × List (List ℕ)
enqueue cap q e = if length q == cap then (failure, q) else (success, q ++ (e ∷ []))

-- What a pop of the queue `q` makes of the status, the queue and the entry at the target.
abbrev pub Dequeued :
    (q : List (List ℕ)) → Status → (q' : List (List ℕ)) → (at_dst : List ℕ) → Type 0
Dequeued [] s q' d = (s ≡ failure) × (q' ≡ [])
Dequeued (e ∷ q) s q' d = (s ≡ success) × (q' ≡ q) × (d ≡ e)

Dequeued-nil : (q q' : List (List ℕ)) (d : List ℕ) → q ≡ [] → q' ≡ [] → Dequeued q failure q' d
Dequeued-nil [] q' d e e' = (refl, e')
Dequeued-nil (x ∷ q) q' d e e' = cc

Dequeued-cons :
    (q q' r : List (List ℕ)) (d x : List ℕ) → q ≡ x ∷ r → q' ≡ r → d ≡ x → Dequeued q success q' d
Dequeued-cons [] q' r d x e e' h = cc
Dequeued-cons (y ∷ q) q' r d x e e' h = (refl, cc, cc)

window_of_ne_zero :
    (c : CircBuf) (m : Mem) (h n : ℕ)
    → n ≢ 0
    → window c m h n ≡ bytes m (slot c h) c.type_size ∷ window c m ((h + 1) % c.size) (n - 1)
window_of_ne_zero c m h zero p = absurd (p refl)
window_of_ne_zero c m h (suc n) p =
    ap (λ k. bytes m (slot c h) c.type_size ∷ window c m ((h + 1) % c.size) k) (omega arith)

module _ (c : CircBuf) (m : Mem) (v : IsValid c) (fits : c.type_size ≤ 4) where
  slots_apart :
      (q p : ℕ) → q ≢ p → (slot c q + c.type_size ≤ slot c p) ⊎ (slot c p + c.type_size ≤ slot c q)
  slots_apart q p h = ground arith

  slot_outside :
      (a k q : ℕ)
      → q < c.size
      → OutsideSlots c a k
      → (slot c q + c.type_size ≤ a) ⊎ (a + k ≤ slot c q)
  slot_outside a k q lt far = ground arith

  push_index-lt : push_index c < c.size
  push_index-lt = omega arith

  -- What a copy to slot `p` leaves of the other slots.
  slot-memcpy :
      (src p q : ℕ)
      → p < c.size
      → q ≢ p
      → OutsideSlots c src c.type_size
      → bytes (memcpy (slot c p) src c.type_size m) (slot c q) c.type_size
        ≡ bytes m (slot c q) c.type_size
  slot-memcpy src p q lt ne far =
      bytes-memcpy_apart (slot c p) src c.type_size (slot c q) c.type_size m
        (slot_outside src c.type_size p lt far) (slots_apart q p ne)

  contents-push :
      (src : ℕ)
      → c.curr_size ≢ c.size
      → OutsideSlots c src c.type_size
      → contents (pushed src c m) (memcpy (slot c (push_index c)) src c.type_size m)
        ≡ contents c m ++ (bytes m src c.type_size ∷ [])
  contents-push src h far =
      let p = push_index c in
      let at : p ≡ (c.curr_index + c.curr_size) % c.size =
        ap (λ (k : ℕ). k % c.size) (omega arith) in
      let one : c.curr_size + 1 ≡ suc c.curr_size = omega arith in
      rw one (
        window-append c m (memcpy (slot c p) src c.type_size m) c.curr_index c.curr_size p
          v.index_in (omega arith) at (λ q lt ne. slot-memcpy src p q push_index-lt ne far)
        ∙ ap (λ e. contents c m ++ (e ∷ []))
            (bytes-memcpy (slot c p) src c.type_size m
              (slot_outside src c.type_size p push_index-lt far)))

  -- With entries of at most four bytes, and `src` outside the slots of a valid buffer: a push appends the
  -- entry at `src`, or reports that the queue is full and leaves it. It changes no byte outside the
  -- slots, which are four bytes for each entry, also where the entries are smaller.
  pub push-enqueue :
      (src : ℕ)
      → OutsideSlots c src c.type_size
      → Returns (push_circ_buf src (some c) m) (λ (s, o, m').
        (c' : CircBuf) × (o ≡ some c')
        × ((s, contents c' m') ≡ enqueue c.size (contents c m) (bytes m src c.type_size))
        × ((a : ℕ) → OutsideSlots c a 1 → m' a ≡ m a))
  unfolding push_circ_buf enqueue
  push-enqueue src far = elim (ℕ_discrete c.curr_size c.size) [
    | yes e ↦
        let full : (length (contents c m) == c.size) ≡ true =
          ground (arith, length-window c m c.curr_index c.curr_size) in
        rw (push_entry_full src c m e) (c, refl, rw full, λ a o. refl)
    | no h ↦
        let room : (length (contents c m) == c.size) ≡ false =
          ground (arith, length-window c m c.curr_index c.curr_size) in
        rw (push_entry-eq src c m v h) (
          pushed src c m,
          refl,
          rw (room, contents-push src h far) refl,
          λ a o. ground (
            arith,
            memcpy-moved (slot c (push_index c)) src c.type_size m a,
            push_index-lt,
            slot_outside src c.type_size (push_index c),
            slot_outside a 1 (push_index c),
          ),
        )
  ]

  -- With entries of at most four bytes, and `dst` outside the slots of a valid buffer: a pop copies the
  -- oldest entry to `dst` and leaves the rest, or reports an empty queue.
  pub pop-Dequeued :
      (dst : ℕ)
      → OutsideSlots c dst c.type_size
      → let (s, c', m') = pop_circ_buf dst c m in
        Dequeued (contents c m) s (contents c' m') (bytes m' dst c.type_size)
  pop-Dequeued dst far = elim (ℕ_discrete c.curr_size 0) [
    | yes e ↦
        let none_left : contents c m ≡ [] = ap (window c m c.curr_index) e in
        rw (pop_circ_buf_empty dst c m e) (Dequeued-nil _ _ _ none_left none_left)
    | no h ↦
        let apart : (dst + c.type_size ≤ slot c c.curr_index)
            ⊎ (slot c c.curr_index + c.type_size ≤ dst) =
          ground (arith, slot_outside dst c.type_size c.curr_index v.index_in far) in
        rw (pop_circ_buf-eq dst c m v h) (
          Dequeued-cons _ _ _ _ _ (window_of_ne_zero c m c.curr_index c.curr_size h)
            (window-congr c m (memcpy dst (slot c c.curr_index) c.type_size m)
              ((c.curr_index + 1) % c.size) (c.curr_size - 1) (omega arith)
              λ q lt.
                bytes-memcpy_apart dst (slot c c.curr_index) c.type_size (slot c q) c.type_size m
                  apart (slot_outside dst c.type_size q lt far))
            (bytes-memcpy dst (slot c c.curr_index) c.type_size m apart))
  ]
