-- ===== src/CString/Compare.antt =====
-- The comparisons of klib/string.c against the texts that the memory holds.
use now_os.Base.{
  ℕ, zero, suc, ◌+◌, ◌<◌, ◌≡◌, ◌≢◌, ◌↔◌, refl, ap, some, List, [], ◌∷◌, arith, ltb, if◌then◌else◌,
  ℤ, pos, negsuc, length, take,
}
use native.Mathlib.Nat.{add_assoc}
use now_os.CString.{Mem, compare_from, memcmp, length_from, strlen, strcmp, strncmp}

-- At `p` stand the bytes of `s` and a terminating zero.
abbrev pub IsText : Mem → ℕ → List ℕ → Type 0
IsText m p [] = m p ≡ 0
IsText m p (c ∷ s) = (m p ≡ c) × (c ≢ 0) × IsText m (p + 1) s

-- Dictionary order of two texts, as `strcmp` reports it.
unfoldable pub order : List ℕ → List ℕ → ℤ
order [] [] = pos 0
order [] (d ∷ t) = negsuc 0
order (c ∷ s) [] = pos 1
order (c ∷ s) (d ∷ t) = if ltb c d then negsuc 0 else if ltb d c then pos 1 else order s t

-- The `n` bytes from `i` on are the same at `a` and at `b`.
abbrev SameBytes : Mem → (a b i n : ℕ) → Type 0
SameBytes m a b i n = (k : ℕ) → k < n → m (a + (i + k)) ≡ m (b + (i + k))

SameBytes-suc :
    (m : Mem) (a b i n : ℕ)
    → m (a + i) ≡ m (b + i)
    → SameBytes m a b (i + 1) n
    → SameBytes m a b i (suc n)
SameBytes-suc m a b i n e h zero q = let z : i + 0 ≡ i = omega arith in rw z e
SameBytes-suc m a b i n e h (suc k) q =
    let z : i + suc k ≡ i + 1 + k = omega arith in rw z (h k (omega arith))

SameBytes-pred : (m : Mem) (a b i n : ℕ) → SameBytes m a b i (suc n) → SameBytes m a b (i + 1) n
SameBytes-pred m a b i n h k q =
    let z : i + 1 + k ≡ i + suc k = omega arith in rw z (h (suc k) (omega arith))

SameBytes-head : (m : Mem) (a b i n : ℕ) → SameBytes m a b i (suc n) → m (a + i) ≡ m (b + i)
SameBytes-head m a b i n h = let z : i + 0 ≡ i = omega arith in rw z at (h 0 (omega arith))

SameBytes-compare_from :
    (n i a b : ℕ) (m : Mem) → compare_from n i a b m ≡ pos 0 → SameBytes m a b i n
unfolding compare_from
SameBytes-compare_from zero i a b m e = λ k h. elim h [ ]
SameBytes-compare_from (suc n) i a b m e =
    SameBytes-suc m a b i n (ground arith) (SameBytes-compare_from n (i + 1) a b m (ground arith))

compare_from-SameBytes :
    (n i a b : ℕ) (m : Mem) → SameBytes m a b i n → compare_from n i a b m ≡ pos 0
unfolding compare_from
compare_from-SameBytes zero i a b m h = refl
compare_from-SameBytes (suc n) i a b m h = ground (
  arith,
  SameBytes-head m a b i n h,
  compare_from-SameBytes n (i + 1) a b m (SameBytes-pred m a b i n h),
)

-- `memcmp` is zero exactly when the two areas hold the same bytes.
pub memcmp-eq-zero_iff :
    (a b size : ℕ) (m : Mem)
    → (memcmp a b size m ≡ pos 0) ↔ ((k : ℕ) → k < size → m (a + (0 + k)) ≡ m (b + (0 + k)))
unfolding memcmp
memcmp-eq-zero_iff a b size m =
    (SameBytes-compare_from size 0 a b m, compare_from-SameBytes size 0 a b m)

length_from_lem :
    (s : List ℕ) (fuel len p : ℕ) (m : Mem)
    → IsText m (p + len) s
    → length s < fuel
    → length_from fuel len p m ≡ some (len + length s)
unfolding length_from
length_from_lem s zero len p m h f = elim f [ ]
length_from_lem [] (suc fuel) len p m h f = ground arith
length_from_lem (c ∷ s) (suc fuel) len p m h f =
    ground (arith, length_from_lem s fuel (len + 1) p m (rw (← add_assoc) h.2) (omega arith))

-- `strlen` is the number of bytes before the terminator, given more rounds than that.
pub strlen-length :
    (s : List ℕ) (fuel p : ℕ) (m : Mem)
    → IsText m p s
    → length s < fuel
    → strlen fuel p m ≡ some (length s)
unfolding strlen
strlen-length s fuel p m h f =
    let z : p + 0 ≡ p = omega arith in ground (arith, length_from_lem s fuel 0 p m (rw z h) f)

-- The rounds are written as `strcmp` computes them.
compare_from-order :
    (s t : List ℕ) (n i a b : ℕ) (m : Mem)
    → IsText m (a + i) s
    → IsText m (b + i) t
    → n ≡ (if ltb (length s) (length t) then length s else length t) + 1
    → compare_from n i a b m ≡ order s t
unfolding compare_from order
compare_from-order s t zero i a b m h k e = absurd (ground arith)
compare_from-order [] [] (suc n) i a b m h k e = ground arith
compare_from-order [] (d ∷ t) (suc n) i a b m h k e = ground arith
compare_from-order (c ∷ s) [] (suc n) i a b m h k e = ground arith
compare_from-order (c ∷ s) (d ∷ t) (suc n) i a b m h k e = ground (
  arith,
  compare_from-order s t n (i + 1) a b m (rw (← add_assoc) h.2) (rw (← add_assoc) k.2)
      (ground arith),
)

-- `strcmp` reports the dictionary order of the two texts, given rounds to find their ends.
pub strcmp-order :
    (s t : List ℕ) (fuel a b : ℕ) (m : Mem)
    → IsText m a s
    → IsText m b t
    → length s < fuel
    → length t < fuel
    → strcmp fuel a b m ≡ some (order s t)
unfolding strcmp memcmp
strcmp-order s t fuel a b m h k f g =
    let p : a + 0 ≡ a = omega arith in
    let q : b + 0 ≡ b = omega arith in
    rw (strlen-length s fuel a m h f, strlen-length t fuel b m k g)
      (ap some (compare_from-order s t _ 0 a b m (rw p h) (rw q k) refl))

-- `strncmp` is zero exactly when the texts agree in their first `n` bytes.
strncmp-take :
    (n : ℕ) (s t : List ℕ) (a b : ℕ) (m : Mem)
    → IsText m a s
    → IsText m b t
    → strncmp n a b m ≡ pos 0
    → take n s ≡ take n t
unfolding strncmp
strncmp-take zero s t a b m h k e = refl
strncmp-take (suc n) [] [] a b m h k e = refl
strncmp-take (suc n) [] (d ∷ t) a b m h k e = ground arith
strncmp-take (suc n) (c ∷ s) [] a b m h k e = ground arith
strncmp-take (suc n) (c ∷ s) (d ∷ t) a b m h k e =
    ground (arith, strncmp-take n s t (a + 1) (b + 1) m h.2 k.2)

take-strncmp :
    (n : ℕ) (s t : List ℕ) (a b : ℕ) (m : Mem)
    → IsText m a s
    → IsText m b t
    → take n s ≡ take n t
    → strncmp n a b m ≡ pos 0
unfolding strncmp
take-strncmp zero s t a b m h k e = refl
take-strncmp (suc n) [] [] a b m h k e = ground arith
take-strncmp (suc n) [] (d ∷ t) a b m h k e = cc
take-strncmp (suc n) (c ∷ s) [] a b m h k e = cc
take-strncmp (suc n) (c ∷ s) (d ∷ t) a b m h k e =
    ground (arith, take-strncmp n s t (a + 1) (b + 1) m h.2 k.2)

-- `strncmp` is zero exactly when the two texts have the same first `n` bytes.
pub strncmp-eq-zero_iff :
    (n : ℕ) (s t : List ℕ) (a b : ℕ) (m : Mem)
    → IsText m a s
    → IsText m b t
    → (strncmp n a b m ≡ pos 0) ↔ (take n s ≡ take n t)
strncmp-eq-zero_iff n s t a b m h k = (strncmp-take n s t a b m h k, take-strncmp n s t a b m h k)
