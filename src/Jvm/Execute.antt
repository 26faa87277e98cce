-- ===== src/Jvm/Execute.antt =====
-- java-virtual-machine/jvm.c: `execute`, the loop over the bytecode, and `main`.
use computer_systems.Prelude.{
  ℕ, zero, suc, ◌+◌, Bool, true, false, ◌&&◌, ◌||◌, List, [], ◌∷◌, Option, none, some, length,
  replicate, ltb, leb, ◌==◌, if◌then◌else◌,
}
use computer_systems.Jvm.Outcome.{
  Result, ok, err, ◌>>=◌, put, require, assertion, unhandled, out_of_fuel,
}
use computer_systems.Jvm.Opcode.{
  i_nop, i_iconst_m1, i_iconst_5, i_bipush, i_sipush, i_ldc, i_iload, i_aload, i_iload_0, i_iload_3,
  i_aload_0, i_aload_3, i_iaload, i_istore, i_astore, i_istore_0, i_istore_3, i_astore_0,
  i_astore_3, i_iastore, i_dup, i_iadd, i_ixor, i_iinc, i_ifeq, i_if_icmple, i_goto, i_ireturn,
  i_areturn, i_return, i_getstatic, i_invokevirtual, i_invokestatic, i_newarray, i_arraylength,
}
use computer_systems.Jvm.Machine.{
  Code, Heap, Machine, heap_init, peek, poke, push, drop_slots, skip, byte_at, word_at,
}
use computer_systems.Jvm.Class.{
  Class, find_method, find_method_from_index, get_number_of_parameters, ldc,
}
use computer_systems.Jvm.Instr.{
  add_to_xor, bi_push, invoke_virtual, get_static, i_const, si_push, i_load, i_store, i_inc,
  i_iload_nums, i_istore_nums, aload, astore, aload_nums, astore_nums, jump, go_to, dup, newarray,
  arraylength, iastore, iaload,
}

-- What a run of a method gives: an optional_value_t, and the machine as it was left.
abbrev pub Returned : Type 0
Returned = Option ℕ × Machine

pub data Control : Type 0 where
  continue : Machine → Control
  returned : Option ℕ → Machine → Control

abbrev pub continues : Result Machine → Result Control
continues r = r >>= λ m. ok (continue m)

-- The state in which `execute` starts: a zeroed stack, none of it in use.
unfoldable pub fresh : Code → List ℕ → Heap → List ℕ → Machine
fresh c locals heap out = record {
  stack = replicate c.max_stack 0;
  stack_p = 0;
  locals = locals;
  pc = 0;
  heap = heap;
  out = out;
}

-- The loop of `invokestatic` that moves the arguments: `k` are left, and the next goes to `idx`.
unfoldable pub move_args : ℕ → ℕ → List ℕ → Machine → Result (List ℕ × Machine)
move_args zero idx locals m = ok (locals, m)
move_args (suc k) idx locals m = do
  v ← peek (suc k) m
  locals' ← put locals idx v
  m' ← poke (suc k) 0 m
  move_args k (idx + 1) locals' m'

abbrev pub push_result : Option ℕ → Machine → Result Machine
push_result none m = ok m
push_result (some v) m = push v m

-- The heap and the output are the same objects in the caller and the callee.
unfoldable pub resume : (callee caller : Machine) → Machine
resume callee caller = record caller { heap = callee.heap; out = callee.out }

-- The case of `invokestatic`; `call` is the recursive `execute`.
unfoldable pub invoke_static :
    (Code → Machine → Result Returned) → Class → Code → Machine → Result Machine
invoke_static call cls c m = do
  index ← word_at c m
  found ← find_method_from_index index cls
  new_method ← require found assertion
  num_params ← get_number_of_parameters new_method
  (new_locals, m₁) ← move_args num_params 0 (replicate new_method.code.max_locals 0) m
  let m₂ = drop_slots num_params m₁
  (value, callee) ← call new_method.code (fresh new_method.code new_locals m₂.heap m₂.out)
  m₃ ← push_result value (resume callee m₂)
  ok (skip 2 m₃)

abbrev pub between : ℕ → ℕ → ℕ → Bool
between lo x hi = leb lo x && leb x hi

-- The switch of `execute` on the opcode `cur`.
unfoldable pub dispatch :
    (Code → Machine → Result Returned) → Class → Code → ℕ → Machine → Result Control
dispatch call cls c cur m =
    if between i_iadd cur i_ixor
    then continues (add_to_xor cur m)
    else if cur == i_bipush
    then continues (bi_push c m)
    else if cur == i_getstatic
    then continues (get_static m)
    else if cur == i_invokevirtual
    then continues (invoke_virtual m)
    else if between i_iconst_m1 cur i_iconst_5
    then continues (i_const c m)
    else if cur == i_sipush
    then continues (si_push c m)
    else if cur == i_iload
    then continues (i_load c m)
    else if cur == i_istore
    then continues (i_store c m)
    else if cur == i_iinc
    then continues (i_inc c m)
    else if between i_iload_0 cur i_iload_3
    then continues (i_iload_nums c m)
    else if between i_istore_0 cur i_istore_3
    then continues (i_istore_nums c m)
    else if cur == i_ldc
    then continues (ldc c cls m)
    else if between i_ifeq cur i_if_icmple
    then continues (jump cur c m)
    else if cur == i_goto
    then continues (go_to c m)
    else if cur == i_invokestatic
    then continues (invoke_static call cls c m)
    else if cur == i_nop
    then ok (continue m)
    else if cur == i_dup
    then continues (dup m)
    else if cur == i_newarray
    then continues (newarray m)
    else if cur == i_arraylength
    then continues (arraylength m)
    else if cur == i_iastore
    then continues (iastore m)
    else if cur == i_iaload
    then continues (iaload m)
    else if cur == i_aload
    then continues (aload c m)
    else if cur == i_astore
    then continues (astore c m)
    else if between i_aload_0 cur i_aload_3
    then continues (aload_nums c m)
    else if between i_astore_0 cur i_astore_3
    then continues (astore_nums c m)
    else if (cur == i_areturn) || (cur == i_ireturn)
    then (do v ← peek 1 m; ok (returned (some v) m))
    else if cur == i_return
    then ok (returned none m)
    else err (unhandled cur)

-- The loop of `execute`: each round and each call takes one unit of fuel.
unfoldable pub execute_loop : ℕ → Class → Code → Machine → Result Returned
execute_loop zero cls c m = err out_of_fuel
execute_loop (suc fuel) cls c m = elim (ltb m.pc (length c.code)) [
  | false ↦ ok (none, m)
  | true ↦ byte_at c 0 m >>= λ cur. dispatch (execute_loop fuel cls) cls c cur m >>= λ control.
      elim control [
        | continue m' ↦ execute_loop fuel cls c (skip 1 m')
        | returned v m' ↦ ok (v, m')
      ]
]

abbrev pub main_method : List ℕ
main_method = b'm' ∷ b'a' ∷ b'i' ∷ b'n' ∷ []

-- "([Ljava/lang/String;)V"
abbrev pub main_descriptor : List ℕ
main_descriptor =
    b'(' ∷ b'[' ∷ b'L' ∷ b'j' ∷ b'a' ∷ b'v' ∷ b'a' ∷ b'/' ∷ b'l' ∷ b'a' ∷ b'n' ∷ b'g' ∷ b'/' ∷ b'S'
    ∷ b't' ∷ b'r' ∷ b'i' ∷ b'n' ∷ b'g' ∷ b';' ∷ b')' ∷ b'V' ∷ []

abbrev pub has_value : Option ℕ → Bool
has_value none = false
has_value (some _) = true

-- `main` behind the reading of the class file: what the program prints.
unfoldable pub main : ℕ → Class → Result (List ℕ)
main fuel cls = do
  main_method ← require (find_method main_method main_descriptor cls.methods) assertion
  let locals = replicate main_method.code.max_locals 0
  (result, m) ← execute_loop fuel cls main_method.code (fresh main_method.code locals heap_init [])
  if has_value result then err assertion else ok m.out
