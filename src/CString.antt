-- ===== src/CString.antt =====
-- klib/string.c: the byte loops over memory, an address to a byte.
-- A `size_t` counter runs below `size`, so it does not wrap.
mod Tests
pub mod Compare
pub mod Copy
use now_os.Base.{
  ℕ, zero, suc, ◌+◌, ◌-◌, ◌%◌, Option, none, some, ltb, leb, ◌==◌, if◌then◌else◌, ℤ, pos, negsuc,
}

abbrev pub Mem : Type 0
Mem = ℕ → ℕ

abbrev pub write_byte : Mem → ℕ → ℕ → Mem
write_byte m a v b = if b == a then v else m b

-- `for (i = i; n rounds; i++) dst[i] = src[i];`
copy_up : (n i dst src : ℕ) → Mem → Mem
copy_up zero i dst src m = m
copy_up (suc n) i dst src m = copy_up n (i + 1) dst src (write_byte m (dst + i) (m (src + i)))

-- `for (i = n; i != 0; i--) dst[i - 1] = src[i - 1];`
copy_down : (n dst src : ℕ) → Mem → Mem
copy_down zero dst src m = m
copy_down (suc n) dst src m = copy_down n dst src (write_byte m (dst + n) (m (src + n)))

pub memcpy : (dst src size : ℕ) → Mem → Mem
memcpy dst src size m = copy_up size 0 dst src m

pub memmove : (dst src size : ℕ) → Mem → Mem
memmove dst src size m = if ltb dst src then copy_up size 0 dst src m else copy_down size dst src m

fill : (n i buf value : ℕ) → Mem → Mem
fill zero i buf value m = m
fill (suc n) i buf value m = fill n (i + 1) buf value (write_byte m (buf + i) (value % 256))

pub memset : (buf value size : ℕ) → Mem → Mem
memset buf value size m = fill size 0 buf value m

compare_from : (n i a b : ℕ) → Mem → ℤ
compare_from zero i a b m = pos 0
compare_from (suc n) i a b m =
    let rest = compare_from n (i + 1) a b m in
    if ltb (m (a + i)) (m (b + i))
    then negsuc 0
    else if ltb (m (b + i)) (m (a + i))
    then pos 1
    else rest

pub memcmp : (a b size : ℕ) → Mem → ℤ
memcmp a b size m = compare_from size 0 a b m

-- `while (str[len]) len++;` on fuel; `none` means that the fuel ran out.
length_from : (fuel len str : ℕ) → Mem → Option ℕ
length_from zero len str m = none
length_from (suc f) len str m =
    let rest = length_from f (len + 1) str m in if m (str + len) == 0 then some len else rest

pub strlen : (fuel str : ℕ) → Mem → Option ℕ
strlen fuel str m = length_from fuel 0 str m

-- What `do` needs for a chain that may run out of fuel.
infixl 5 ◌>>=◌
abbrev pub ◌>>=◌ : {A B : Type 0} → Option A → (A → Option B) → Option B
none >>= f = none
some a >>= f = f a

pub strcmp : (fuel str1 str2 : ℕ) → Mem → Option ℤ
strcmp fuel str1 str2 m = do
  len1 ← strlen fuel str1 m
  len2 ← strlen fuel str2 m
  let cmp_len = if ltb len1 len2 then len1 else len2
  some (memcmp str1 str2 (cmp_len + 1) m)

-- The difference of two `unsigned char` as an `int`.
abbrev pub sub_char : ℕ → ℕ → ℤ
sub_char u1 u2 = if leb u2 u1 then pos (u1 - u2) else negsuc (u2 - u1 - 1)

pub strncmp : (n str1 str2 : ℕ) → Mem → ℤ
strncmp zero str1 str2 m = pos 0
strncmp (suc n) str1 str2 m =
    let rest = strncmp n (str1 + 1) (str2 + 1) m in
    if m str1 == m str2 then (if m str1 == 0 then pos 0 else rest) else sub_char (m str1) (m str2)
