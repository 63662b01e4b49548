-- ===== src/Ioapic/Masks.antt =====
-- Masking the entries of the I/O APIC.
use Prim.Native.Nat.{bit_and, bit_or}
use now_os.Base.{
  ℕ, zero, suc, ◌+◌, ◌-◌, ◌*◌, ◌^◌, ◌≤◌, ◌<◌, ◌≡◌, refl, ap, ◌∷◌, ◌==◌, inl, inr, if◌then◌else◌,
  Bool-cases, arith, bit, bit-set, bit-clear, bit-lt, test_clear, bit_or-lt, bit_and-le, ltb,
}
use now_os.Ioapic.{
  Writes, Ioapic, ioapic_win, ioapic_redir, u8, ioapic_out, ioapic_in,
  ioapic_mask_redirection_entry, ioapic_unmask_redirection_entry, each_entry, ioapic_mask_all,
  ioapic_unmask_all, select,
}

-- What a register reads as.
abbrev pub register : Ioapic → Writes → (reg : ℕ) → ℕ
register io w reg = io.read (select io reg w) (io.io_addr + ioapic_win)

-- The mask bit of an entry.
abbrev pub masked : Ioapic → Writes → (index : ℕ) → ℕ
masked io w index = bit (register io w (index * 2 + ioapic_redir)) 16

-- The I/O APIC keeps the mask bit that is written to the first word of an entry, whatever it does with
-- the status bits; a select changes nothing, and neither does a write to another register.
pub record IsReady (io : Ioapic) : Type 0 where
  pub word : (w : Writes) (a : ℕ) → io.read w a < 2 ^ 32
  pub chosen : (w : Writes) (r s : ℕ) → register io (select io r w) s ≡ register io w s
  pub kept :
      (w : Writes) (r index v : ℕ)
      → v < 2 ^ 32
      → ioapic_redir ≤ r
      → r < 2 ^ 8
      → index < 120
      → masked io ((io.io_addr + ioapic_win, v) ∷ select io r w) index
        ≡ (if r == index * 2 + ioapic_redir then bit v 16 else masked io w index)

module _ (io : Ioapic) (ready : IsReady io) where
  -- A write to a register in which the entry with number `i` begins.
  write-masked :
      (w : Writes) (i j v : ℕ)
      → i < 120
      → j < 120
      → v < 2 ^ 32
      → masked io (ioapic_out io (i * 2 + ioapic_redir) v w) j
        ≡ (if j == i then bit v 16 else masked io w j)
  unfolding ioapic_out
  write-masked w i j v p q small =
      let r : u8 (i * 2 + ioapic_redir) ≡ i * 2 + ioapic_redir = omega arith in
      rw r (
        ground (arith, ready.kept w (i * 2 + ioapic_redir) j v small (omega arith) (omega arith) q))

  -- A read changes no mask.
  read-masked : (w : Writes) (r j : ℕ) → masked io (ioapic_in io r w).1 j ≡ masked io w j
  unfolding ioapic_in
  read-masked w r j = ap (λ e. bit e 16) (ready.chosen w (u8 r) (j * 2 + ioapic_redir))

  read_entry :
      (w : Writes) (i : ℕ)
      → i < 120
      → bit (ioapic_in io (i * 2 + ioapic_redir) w).0 16 ≡ masked io w i
  unfolding ioapic_in
  read_entry w i p =
      let r : u8 (i * 2 + ioapic_redir) ≡ i * 2 + ioapic_redir = omega arith in rw r refl

  pub mask-masked :
      (w : Writes) (i j : ℕ)
      → i < 120
      → j < 120
      → masked io (ioapic_mask_redirection_entry io i w) j ≡ (if j == i then 1 else masked io w j)
  unfolding ioapic_mask_redirection_entry ioapic_in
  mask-masked w i j p q =
      let entry = (ioapic_in io (i * 2 + ioapic_redir) w).0 in
      let w' = (ioapic_in io (i * 2 + ioapic_redir) w).1 in
      let small : entry < 2 ^ 32 = ready.word w' (io.io_addr + ioapic_win) in
      let kept : masked io w' j ≡ masked io w j = read-masked w (i * 2 + ioapic_redir) j in
      let here : bit entry 16 ≡ masked io w i = read_entry w i p in
      elim (Bool-cases (bit_and entry (2 ^ 16) == 0)) [
        | inl e ↦ rw e (
            ground (
              arith,
              write-masked w' i j (bit_or entry (2 ^ 16)) p q
                  (bit_or-lt 32 entry (2 ^ 16) small (omega arith)),
              bit-set entry 16 16,
              kept,
            ))
        | inr e ↦
            (let set : masked io w i ≡ 1 =
                ground (arith, e, test_clear entry 16, here, bit-lt entry 16) in
              rw e (elim (Bool-cases (j == i)) [
                | inl d ↦ (let at : j ≡ i = ground (arith, d) in rw (d, kept, at) set)
                | inr d ↦ rw d kept
              ]))
      ]

  pub unmask-masked :
      (w : Writes) (i j : ℕ)
      → i < 120
      → j < 120
      → masked io (ioapic_unmask_redirection_entry io i w) j ≡ (if j == i then 0 else masked io w j)
  unfolding ioapic_unmask_redirection_entry ioapic_in
  unmask-masked w i j p q =
      let entry = (ioapic_in io (i * 2 + ioapic_redir) w).0 in
      let w' = (ioapic_in io (i * 2 + ioapic_redir) w).1 in
      let small : entry < 2 ^ 32 = ready.word w' (io.io_addr + ioapic_win) in
      let kept : masked io w' j ≡ masked io w j = read-masked w (i * 2 + ioapic_redir) j in
      let here : bit entry 16 ≡ masked io w i = read_entry w i p in
      elim (Bool-cases (bit_and entry (2 ^ 16) == 0)) [
        | inr e ↦ rw e (
            ground (
              arith,
              write-masked w' i j (bit_and entry (2 ^ 32 - 1 - 2 ^ 16)) p q (
                  omega (arith, small, bit_and-le entry entry (2 ^ 32 - 1 - 2 ^ 16) (omega arith))),
              bit-clear entry 16 16 (omega arith) (omega arith),
              kept,
            ))
        | inl e ↦
            (let set : masked io w i ≡ 0 =
                ground (arith, e, test_clear entry 16, here, bit-lt entry 16) in
              rw e (elim (Bool-cases (j == i)) [
                | inl d ↦ (let at : j ≡ i = ground (arith, d) in rw (d, kept, at) set)
                | inr d ↦ rw d kept
              ]))
      ]

  -- A loop whose body sets the mask of its entry to `value` and keeps the others.
  each-masked :
      (n i j value : ℕ) (body : ℕ → Writes → Writes) (w : Writes)
      → n + i ≤ 120
      → j < 120
      → ((v : Writes) (a b : ℕ)
          → a < 120
          → b < 120
          → masked io (body a v) b ≡ (if b == a then value else masked io v b))
      → masked io (each_entry io n i body w) j
        ≡ (if ltb j i then masked io w j else if ltb j (n + i) then value else masked io w j)
  unfolding each_entry
  each-masked zero i j value body w room q h = ground arith
  each-masked (suc n) i j value body w room q h = ground (
    arith,
    each-masked n (i + 1) j value body (body i w) (omega arith) q h,
    h w i j (omega arith) q,
  )

  -- `ioapic_mask_all` masks the entries below the count and no other, and `ioapic_unmask_all` unmasks
  -- them; the mask bits of all other entries stay.
  pub mask_all-masked :
      (count j : ℕ) (w : Writes)
      → count ≤ 120
      → j < 120
      → (masked io (ioapic_mask_all io count w) j ≡ (if ltb j count then 1 else masked io w j))
        × (masked io (ioapic_unmask_all io count w) j ≡ (if ltb j count then 0 else masked io w j))
  unfolding ioapic_mask_all ioapic_unmask_all
  mask_all-masked count j w room q = (
    ground (
      arith,
      each-masked count 0 j 1 (ioapic_mask_redirection_entry io) w (omega arith) q mask-masked,
    ),
    ground (
      arith,
      each-masked count 0 j 0 (ioapic_unmask_redirection_entry io) w (omega arith) q unmask-masked,
    ),
  )
