-- ===== src/CString/Tests.antt =====
-- klib/string.c at concrete texts.
use now_os.Base.{
  ℕ, ◌+◌, ◌<◌, ◌≡◌, ◌↔◌, refl, List, [], ◌∷◌, some, inl, arith, pos, negsuc, get_or, take,
}
use now_os.CString.{
  Mem, memcpy, memmove, memset, memcmp, strlen, strcmp, strncmp, copy_down, length_from,
  compare_from,
}
use now_os.CString.Copy.{memmove-moved, memcpy-moved, memset_lem}
use now_os.CString.Compare.{
  IsText, order, memcmp-eq-zero_iff, strlen-length, strcmp-order, strncmp-eq-zero_iff,
}

-- "abc" at 0 and "abd" at 4.
abbrev texts : Mem
texts a = get_or (97 ∷ 98 ∷ 99 ∷ 0 ∷ 97 ∷ 98 ∷ 100 ∷ 0 ∷ []) a 0

abbrev abc : List ℕ
abc = 97 ∷ 98 ∷ 99 ∷ []

abbrev abd : List ℕ
abd = 97 ∷ 98 ∷ 100 ∷ []

abc-IsText : IsText texts 0 abc
abc-IsText = omega arith

abd-IsText : IsText texts 4 abd
abd-IsText = omega arith

overlapping : memmove 1 0 3 texts 3 ≡ 99
unfolding memmove copy_down
overlapping = refl

less : strcmp 9 0 4 texts ≡ some (negsuc 0)
unfolding strcmp strlen memcmp length_from compare_from
less = refl

difference : strncmp 3 0 4 texts ≡ negsuc 0
unfolding strncmp
difference = refl

memmove-moved_example : memmove 1 0 3 texts 3 ≡ 99
memmove-moved_example = memmove-moved 1 0 3 texts 3

memcpy-moved_example : memcpy 0 1 3 texts 2 ≡ 0
memcpy-moved_example = memcpy-moved 0 1 3 texts 2 (inl (omega arith))

memset_lem_example : memset 1 258 2 texts 2 ≡ 2
memset_lem_example = memset_lem 1 258 2 texts 2

memcmp-eq-zero_iff_example :
    (memcmp 0 4 2 texts ≡ pos 0) ↔ ((k : ℕ) → k < 2 → texts (0 + (0 + k)) ≡ texts (4 + (0 + k)))
memcmp-eq-zero_iff_example = memcmp-eq-zero_iff 0 4 2 texts

strlen-length_example : strlen 4 0 texts ≡ some 3
strlen-length_example = strlen-length abc 4 0 texts abc-IsText (omega arith)

strcmp-order_example : strcmp 4 0 4 texts ≡ some (negsuc 0)
unfolding order
strcmp-order_example =
    strcmp-order abc abd 4 0 4 texts abc-IsText abd-IsText (omega arith) (omega arith)

strncmp-eq-zero_iff_example : (strncmp 2 0 4 texts ≡ pos 0) ↔ (take 2 abc ≡ take 2 abd)
strncmp-eq-zero_iff_example = strncmp-eq-zero_iff 2 abc abd 0 4 texts abc-IsText abd-IsText
