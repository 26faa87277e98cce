-- ===== src/Jvm/Runs.antt =====
-- Whole runs of a method by the rules of `Semantics`, method calls and returns included: the
-- big-step side of java-virtual-machine/jvm.c's `execute`.
use computer_systems.Prelude.{
  ℕ, suc, ◌+◌, ◌-◌, ◌^◌, ◌≤◌, ◌<◌, ◌≡◌, ◌⊎◌, List, [], ◌∷◌, ◌++◌, Option, none, some, length,
  replicate, reverse_aux,
}
use computer_systems.Jvm.Opcode.{i_ireturn, i_areturn, i_return, i_invokestatic}
use computer_systems.Jvm.Outcome.{ok}
use computer_systems.Jvm.Machine.{Code, Heap}
use computer_systems.Jvm.Class.{Class, Method, find_method_from_index, get_number_of_parameters}
use computer_systems.Jvm.Semantics.{Frame, frame, Byte, Word, Step}

-- The frame in which a method starts: its arguments in the first locals, 0 in the others.
abbrev pub entry : Code → List ℕ → Heap → List ℕ → Frame
entry c args heap out =
    frame [] c.max_stack (args ++ replicate (c.max_locals - length args) 0) 0 heap out

-- The instruction at `pc` calls the method `m` on the arguments `args`.
pub record Calls (cls : Class) (c : Code) (pc : ℕ) (m : Method) (args : List ℕ) : Type 0 where
  pub index : ℕ
  pub fetch : Byte c pc 0 i_invokestatic
  pub word : Word c pc index
  pub found : find_method_from_index index cls ≡ ok (some m)
  pub arity : get_number_of_parameters m ≡ ok (length args)
  pub fits : length args ≤ m.code.max_locals
  pub small : length m.code.code < 2 ^ 32

-- From the frame the method returns the value, and leaves the heap and the output.
pub data Runs (cls : Class) : Code → Frame → Option ℕ → Heap → List ℕ → Type 0 where
  step :
      {c : Code} {s s' : Frame} {r : Option ℕ} {h : Heap} {o : List ℕ}
      → Step cls c s s'
      → Runs cls c s' r h o
      → Runs cls c s r h o
  -- The arguments are the topmost operands, the last one on top.
  call_void :
      {c : Code} {t l : List ℕ} {n pc : ℕ} {h h' h'' : Heap} {o o' o'' : List ℕ} {r : Option ℕ}
      (m : Method) (args : List ℕ)
      → Calls cls c pc m args
      → Runs cls m.code (entry m.code args h o) none h' o'
      → Runs cls c (frame t (length args + n) l (pc + 3) h' o') r h'' o''
      → Runs cls c (frame (reverse_aux args t) n l pc h o) r h'' o''
  call_value :
      {c : Code} {t l : List ℕ} {n n' pc v : ℕ} {h h' h'' : Heap} {o o' o'' : List ℕ} {r : Option ℕ}
      (m : Method) (args : List ℕ)
      → Calls cls c pc m args
      → suc n' ≡ length args + n
      → Runs cls m.code (entry m.code args h o) (some v) h' o'
      → Runs cls c (frame (v ∷ t) n' l (pc + 3) h' o') r h'' o''
      → Runs cls c (frame (reverse_aux args t) n l pc h o) r h'' o''
  return_void :
      {c : Code} {ops l : List ℕ} {n pc : ℕ} {h : Heap} {o : List ℕ}
      → Byte c pc 0 i_return
      → Runs cls c (frame ops n l pc h o) none h o
  return_value :
      {c : Code} {t l : List ℕ} {n pc v : ℕ} {h : Heap} {o : List ℕ}
      → Byte c pc 0 i_ireturn ⊎ Byte c pc 0 i_areturn
      → Runs cls c (frame (v ∷ t) n l pc h o) (some v) h o
  -- Past the last byte the loop ends, and the method returns nothing.
  run_off :
      {c : Code} {ops l : List ℕ} {n pc : ℕ} {h : Heap} {o : List ℕ}
      → length c.code ≤ pc
      → Runs cls c (frame ops n l pc h o) none h o
