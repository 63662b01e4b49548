-- ===== src/CircBuf/Tests.antt =====
-- klib/circ_buf.c on a buffer of three slots that goes round its end.
use now_os.Base.{ℕ, ◌+◌, ◌≤◌, ◌<◌, ◌≡◌, refl, List, [], ◌∷◌, some, inl, arith, Returns}
use now_os.CString.{Mem}
use now_os.CircBuf.{
  CircBuf, Status, success, slot, push_circ_buf, pop_circ_buf, init_circ_buf, storage_size,
}
use now_os.CircBuf.Inv.{IsValid, init-IsValid, entry_bounds, push-IsValid, pop-IsValid}
use now_os.CircBuf.Refine.{bytes, contents, OutsideSlots, enqueue, push-enqueue, pop-Dequeued}
use now_os.CircBuf.Overlap.{push-overwrites, last_slot_escapes}

-- Two entries of four bytes, in slots 2 and 0 of three.
abbrev wrapped : CircBuf
wrapped = record { curr_size = 2; curr_index = 2; size = 3; type_size = 4; buf = 100; lock = 0 }

-- One entry of eight bytes, in slot 0 of three.
abbrev wide : CircBuf
wide = record { curr_size = 1; curr_index = 0; size = 3; type_size = 8; buf = 100; lock = 0 }

-- Four slots for entries of one byte.
abbrev narrow : CircBuf
narrow = init_circ_buf 4 1 100

abbrev bytes_by_address : Mem
bytes_by_address a = a

wrapped-IsValid : IsValid wrapped
wrapped-IsValid = omega arith

wide-IsValid : IsValid wide
wide-IsValid = omega arith

contents-wrapped :
    contents wrapped bytes_by_address
    ≡ (108 ∷ 109 ∷ 110 ∷ 111 ∷ []) ∷ (100 ∷ 101 ∷ 102 ∷ 103 ∷ []) ∷ []
contents-wrapped = refl

init-IsValid_example : IsValid (init_circ_buf 3 4 100)
init-IsValid_example = init-IsValid 3 4 100 (omega arith) (omega arith)

entry_bounds_example :
    (12 ≡ storage_size wrapped)
    × (108 ≤ 100 + storage_size wrapped)
    × (112 ≤ 100 + storage_size wrapped)
entry_bounds_example = entry_bounds wrapped wrapped-IsValid refl

push-IsValid_example :
    Returns
      (push_circ_buf 40 (some wrapped) bytes_by_address)
      (λ (s, o, m'). (c' : CircBuf) × (o ≡ some c') × IsValid c')
push-IsValid_example = push-IsValid 40 wrapped bytes_by_address wrapped-IsValid

pop-IsValid_example : IsValid (pop_circ_buf 40 wrapped bytes_by_address).1
pop-IsValid_example = pop-IsValid 40 wrapped bytes_by_address wrapped-IsValid

push-enqueue_example : Returns (push_circ_buf 40 (some wrapped) bytes_by_address) (λ (s, o, m').
    (c' : CircBuf) × (o ≡ some c')
    × (◌≡◌ {A = Status × List (List ℕ)}
        (s, contents c' m')
        (
          success,
          (108 ∷ 109 ∷ 110 ∷ 111 ∷ [])
              ∷ (100 ∷ 101 ∷ 102 ∷ 103 ∷ [])
              ∷ (40 ∷ 41 ∷ 42 ∷ 43 ∷ [])
              ∷ [],
        ))
    × ((a : ℕ) → OutsideSlots wrapped a 1 → m' a ≡ a))
unfolding enqueue
push-enqueue_example =
    push-enqueue wrapped bytes_by_address wrapped-IsValid (omega arith) 40 (inl (omega arith))

pop-Dequeued_example :
    let (s, c', m') = pop_circ_buf 40 wrapped bytes_by_address in
    (s ≡ success)
    × (contents c' m' ≡ (100 ∷ 101 ∷ 102 ∷ 103 ∷ []) ∷ [])
    × (bytes m' 40 4 ≡ 108 ∷ 109 ∷ 110 ∷ 111 ∷ [])
pop-Dequeued_example =
    pop-Dequeued wrapped bytes_by_address wrapped-IsValid (omega arith) 40 (inl (omega arith))

push-overwrites_example :
    Returns
      (push_circ_buf 40 (some wide) bytes_by_address)
      (λ (s, o, m'). (k : ℕ) → 4 + k < 8 → m' (100 + (4 + k)) ≡ 40 + k)
push-overwrites_example =
    push-overwrites 40 wide bytes_by_address wide-IsValid (omega arith) (omega arith)
      (inl (omega arith))

narrow-IsValid : IsValid narrow
unfolding init_circ_buf
narrow-IsValid = omega arith

last_slot_escapes_example : 100 + storage_size narrow ≤ slot narrow 3
unfolding init_circ_buf
last_slot_escapes_example = last_slot_escapes narrow narrow-IsValid (omega arith) (omega arith)
