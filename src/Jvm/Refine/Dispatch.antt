-- ===== src/Jvm/Refine/Dispatch.antt =====
-- Which function the switch of `execute` calls for the groups of opcodes that it takes as ranges.
use computer_systems.Prelude.{ℕ, ◌+◌, ◌≤◌, ◌<◌, ◌≡◌, ◌⊎◌, inl, inr, arith}
use computer_systems.Jvm.Opcode.{
  i_iconst_m1, i_iconst_5, i_iload_0, i_aload_0, i_istore_0, i_astore_0, i_iadd, i_ixor, i_ifeq,
  i_if_icmple, i_iload, i_aload, i_istore, i_astore,
}
use computer_systems.Jvm.Outcome.{Result}
use computer_systems.Jvm.Machine.{Code, Machine}
use computer_systems.Jvm.Class.{Class}
use computer_systems.Jvm.Instr.{
  add_to_xor, i_const, i_iload_nums, i_istore_nums, aload_nums, astore_nums, jump, i_load, i_store,
  aload, astore,
}
use computer_systems.Jvm.Execute.{Returned, continues, dispatch}

module _ (call : Code → Machine → Result Returned) (cls : Class) (c : Code) (m : Machine) where
  pub dispatch-add_to_xor :
      (op : ℕ) → i_iadd ≤ op → op ≤ i_ixor → dispatch call cls c op m ≡ continues (add_to_xor op m)
  unfolding dispatch
  dispatch-add_to_xor op lo hi = ground arith

  pub dispatch-i_const :
      (op : ℕ)
      → i_iconst_m1 ≤ op
      → op ≤ i_iconst_5
      → dispatch call cls c op m ≡ continues (i_const c m)
  unfolding dispatch
  dispatch-i_const op lo hi = ground arith

  pub dispatch-jump :
      (op : ℕ) → i_ifeq ≤ op → op ≤ i_if_icmple → dispatch call cls c op m ≡ continues (jump op c m)
  unfolding dispatch
  dispatch-jump op lo hi = ground arith

  pub dispatch-i_iload_nums :
      (i : ℕ) → i < 4 → dispatch call cls c (i_iload_0 + i) m ≡ continues (i_iload_nums c m)
  unfolding dispatch
  dispatch-i_iload_nums i h = ground arith

  pub dispatch-aload_nums :
      (i : ℕ) → i < 4 → dispatch call cls c (i_aload_0 + i) m ≡ continues (aload_nums c m)
  unfolding dispatch
  dispatch-aload_nums i h = ground arith

  pub dispatch-i_istore_nums :
      (i : ℕ) → i < 4 → dispatch call cls c (i_istore_0 + i) m ≡ continues (i_istore_nums c m)
  unfolding dispatch
  dispatch-i_istore_nums i h = ground arith

  pub dispatch-astore_nums :
      (i : ℕ) → i < 4 → dispatch call cls c (i_astore_0 + i) m ≡ continues (astore_nums c m)
  unfolding dispatch
  dispatch-astore_nums i h = ground arith

  -- `iload` and `aload` are one instruction on the int slots, and so are their short forms.
  pub dispatch-load :
      (op : ℕ) → (op ≡ i_iload) ⊎ (op ≡ i_aload) → dispatch call cls c op m ≡ continues (i_load c m)
  unfolding dispatch i_load aload
  dispatch-load op (inl e) = rw e
  dispatch-load op (inr e) = rw e

  pub dispatch-store :
      (op : ℕ)
      → (op ≡ i_istore) ⊎ (op ≡ i_astore)
      → dispatch call cls c op m ≡ continues (i_store c m)
  unfolding dispatch i_store astore
  dispatch-store op (inl e) = rw e
  dispatch-store op (inr e) = rw e
