-- ===== src/Jvm/Instr.antt =====
-- java-virtual-machine/jvm.c: the instructions. Each function of the source becomes one that takes
-- the machine and returns the machine that it leaves behind.
use computer_systems.Prelude.{
  ℕ, ◌+◌, ◌-◌, ◌%◌, ◌^◌, Bool, not, ◌&&◌, ◌||◌, ◌∷◌, replicate, leb, ◌==◌, if◌then◌else◌,
}
use computer_systems.Jvm.Outcome.{Result, ok, err, ◌>>=◌, get, put, undefined, assertion}
use computer_systems.Jvm.Opcode.{
  i_iconst_0, i_ineg, i_iload_0, i_istore_0, i_aload_0, i_astore_0, i_ifeq, i_ifne, i_iflt, i_ifge,
  i_ifgt, i_ifle, i_if_icmpeq, i_if_icmpne, i_if_icmplt, i_if_icmpge, i_if_icmpgt, i_if_icmple,
}
use computer_systems.Jvm.Int32.{
  neg32, add32, binary, sign_extend16, sign_extend8_32, sign_extend16_32, is_negative, signed32,
}
use computer_systems.Prelude.Int.{ltb_ℤ}
use computer_systems.Jvm.Machine.{
  Code, Machine, heap_add, heap_get, peek, poke, poke_above, set_locals, set_heap, print_int, push,
  drop_slots, skip, byte_at, word_at,
}

unfoldable pub add_to_xor : ℕ → Machine → Result Machine
add_to_xor cur m = if cur == i_ineg then (do a ← peek 1 m; poke 1 (neg32 a) m) else do
  a ← peek 2 m
  b ← peek 1 m
  result ← binary cur a b
  m₁ ← poke 2 result m
  m₂ ← poke 1 0 m₁
  ok (drop_slots 1 m₂)

unfoldable pub bi_push : Code → Machine → Result Machine
bi_push c m = do b ← byte_at c 1 m; m₁ ← push (sign_extend8_32 b) m; ok (skip 1 m₁)

-- The write reaches one slot above the value that is printed.
unfoldable pub invoke_virtual : Machine → Result Machine
invoke_virtual m = do
  m₁ ← poke_above 0 m
  v ← peek 1 m₁
  ok (skip 2 (print_int v (drop_slots 1 m₁)))

unfoldable pub get_static : Machine → Result Machine
get_static m = ok (skip 2 m)

unfoldable pub i_const : Code → Machine → Result Machine
i_const c m = do b ← byte_at c 0 m; push ((b + 2 ^ 32 - i_iconst_0) % 2 ^ 32) m

unfoldable pub si_push : Code → Machine → Result Machine
si_push c m = do w ← word_at c m; m₁ ← push (sign_extend16_32 w) m; ok (skip 2 m₁)

-- `locals[i]` to the top of the stack; the top of the stack to `locals[i]`.
unfoldable pub load_local : ℕ → Machine → Result Machine
load_local i m = do v ← get m.locals i; push v m

unfoldable pub store_local : ℕ → Machine → Result Machine
store_local i m = do
  a ← peek 1 m
  locals ← put m.locals i a
  m₁ ← poke 1 0 (set_locals locals m)
  ok (drop_slots 1 m₁)

unfoldable pub i_load : Code → Machine → Result Machine
i_load c m = do i ← byte_at c 1 m; m₁ ← load_local i m; ok (skip 1 m₁)

unfoldable pub i_store : Code → Machine → Result Machine
i_store c m = do i ← byte_at c 1 m; m₁ ← store_local i m; ok (skip 1 m₁)

unfoldable pub i_inc : Code → Machine → Result Machine
i_inc c m = do
  i ← byte_at c 1 m
  b ← byte_at c 2 m
  v ← get m.locals i
  locals ← put m.locals i (add32 v (sign_extend8_32 b))
  ok (skip 2 (set_locals locals m))

unfoldable pub i_iload_nums : Code → Machine → Result Machine
i_iload_nums c m = do b ← byte_at c 0 m; load_local (b - i_iload_0) m

unfoldable pub i_istore_nums : Code → Machine → Result Machine
i_istore_nums c m = do b ← byte_at c 0 m; store_local (b - i_istore_0) m

unfoldable pub aload : Code → Machine → Result Machine
aload c m = do i ← byte_at c 1 m; m₁ ← load_local i m; ok (skip 1 m₁)

unfoldable pub astore : Code → Machine → Result Machine
astore c m = do i ← byte_at c 1 m; m₁ ← store_local i m; ok (skip 1 m₁)

unfoldable pub aload_nums : Code → Machine → Result Machine
aload_nums c m = do b ← byte_at c 0 m; load_local (b - i_aload_0) m

unfoldable pub astore_nums : Code → Machine → Result Machine
astore_nums c m = do b ← byte_at c 0 m; store_local (b - i_astore_0) m

-- The switch of `jump`: a comparison of one operand with 0, or of two operands.
unfoldable pub taken : ℕ → ℕ → ℕ → Result Bool
taken cur a b =
    if cur == i_ifeq
    then ok (a == 0)
    else if cur == i_ifne
    then ok (not (a == 0))
    else if cur == i_iflt
    then ok (is_negative a)
    else if cur == i_ifge
    then ok (not (is_negative a))
    else if cur == i_ifgt
    then ok (not (is_negative a) && not (a == 0))
    else if cur == i_ifle
    then ok (not (not (is_negative a) && not (a == 0)))
    else if cur == i_if_icmpeq
    then ok (a == b)
    else if cur == i_if_icmpne
    then ok (not (a == b))
    else if cur == i_if_icmplt
    then ok (ltb_ℤ (signed32 a) (signed32 b))
    else if cur == i_if_icmpge
    then ok (not (ltb_ℤ (signed32 a) (signed32 b)))
    else if cur == i_if_icmpgt
    then ok (ltb_ℤ (signed32 b) (signed32 a))
    else if cur == i_if_icmple
    then ok (not (ltb_ℤ (signed32 b) (signed32 a)))
    else err assertion

-- `pc += offset - 1`, where the offset is a 16-bit pattern
unfoldable pub displace : ℕ → Machine → Machine
displace w m = record m { pc = (m.pc + sign_extend16 w + 2 ^ 64 - 1) % 2 ^ 64 }

unfoldable pub jump : ℕ → Code → Machine → Result Machine
jump cur c m =
    if leb i_if_icmpeq cur
    then (do
      w ← word_at c m
      a ← peek 2 m
      b ← peek 1 m
      m₁ ← poke 2 0 m
      m₂ ← poke 1 0 m₁
      add_offset ← taken cur a b
      ok (if add_offset then displace w (drop_slots 2 m₂) else skip 2 (drop_slots 2 m₂)))
    else (do
      w ← word_at c m
      a ← peek 1 m
      m₁ ← poke 1 0 m
      add_offset ← taken cur a 0
      ok (if add_offset then displace w (drop_slots 1 m₁) else skip 2 (drop_slots 1 m₁)))

unfoldable pub go_to : Code → Machine → Result Machine
go_to c m = do w ← word_at c m; ok (displace w m)

unfoldable pub dup : Machine → Result Machine
dup m = do v ← peek 1 m; push v m

-- The first slot of an array is its length; `slots` is the int that the code computes. malloc has the memory. Where the
-- sum is 0 there is no first slot, and where it is negative or has overflowed it asks malloc for more than there is.
unfoldable pub newarray : Machine → Result Machine
newarray m = do
  n ← peek 1 m
  let slots = add32 n 1
  arr ←
      (if (slots == 0) || is_negative slots
        then err undefined
        else ok (n ∷ replicate (slots - 1) 0))
  let (ref, heap) = heap_add m.heap arr
  m₁ ← poke 1 ref (set_heap heap m)
  ok (skip 1 m₁)

unfoldable pub arraylength : Machine → Result Machine
arraylength m = do ref ← peek 1 m; arr ← heap_get m.heap ref; count ← get arr 0; poke 1 count m

-- The slot of element `i`, `i + 1`: it is no index of the array where `i` is negative, but for -1,
-- which is the slot of the length.
abbrev pub slot_of : ℕ → ℕ
slot_of i = add32 i 1

unfoldable pub iastore : Machine → Result Machine
iastore m = do
  ref ← peek 3 m
  arr ← heap_get m.heap ref
  i ← peek 2 m
  v ← peek 1 m
  arr' ← put arr (slot_of i) v
  heap ← put m.heap ref arr'
  m₁ ← poke 1 0 (set_heap heap m)
  m₂ ← poke 2 0 m₁
  m₃ ← poke 3 0 m₂
  ok (drop_slots 3 m₃)

unfoldable pub iaload : Machine → Result Machine
iaload m = do
  ref ← peek 2 m
  arr ← heap_get m.heap ref
  i ← peek 1 m
  value ← get arr (slot_of i)
  m₁ ← poke 1 0 m
  m₂ ← poke 2 0 m₁
  push value (drop_slots 2 m₂)
