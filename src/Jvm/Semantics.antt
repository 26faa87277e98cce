-- ===== src/Jvm/Semantics.antt =====
-- The operational semantics that java-virtual-machine/jvm.c is to implement, as rules over frames:
-- operands are a list with the topmost first, `free` operands are still allowed, and `pc` is the
-- address of the next instruction. It says nothing of arrays, stack pointers or fuel.
use computer_systems.Prelude.{
  ℕ, suc, ◌+◌, ◌-◌, ◌*◌, ◌%◌, ◌^◌, ◌≤◌, ◌<◌, ◌≡◌, ◌≢◌, ◌⊎◌, Bool, List, [], ◌∷◌, ◌++◌, length,
  replicate, if◌then◌else◌,
}
use computer_systems.Jvm.Opcode.{
  i_nop, i_iconst_m1, i_iconst_5, i_bipush, i_sipush, i_ldc, i_iload, i_aload, i_iload_0, i_aload_0,
  i_iaload, i_istore, i_astore, i_istore_0, i_astore_0, i_iastore, i_dup, i_iadd, i_ineg, i_ixor,
  i_iinc, i_ifeq, i_ifle, i_if_icmpeq, i_if_icmple, i_goto, i_getstatic, i_invokevirtual,
  i_newarray, i_arraylength,
}
use computer_systems.Jvm.Outcome.{ok, get, put}
use computer_systems.Jvm.Int32.{add32, neg32, binary, sign_extend8_32, sign_extend16_32}
use computer_systems.Jvm.Machine.{Code, Heap, Machine}
use computer_systems.Jvm.Frame.{conc}
use computer_systems.Jvm.Class.{Class, integer}
use computer_systems.Jvm.Instr.{taken}

pub record Frame : Type 0 where
  pub operands : List ℕ
  pub free : ℕ
  pub locals : List ℕ
  pub pc : ℕ
  pub heap : Heap
  pub out : List ℕ

abbrev pub frame : List ℕ → ℕ → List ℕ → ℕ → Heap → List ℕ → Frame
frame ops free locals pc heap out = record {
  operands = ops;
  free = free;
  locals = locals;
  pc = pc;
  heap = heap;
  out = out;
}

-- The byte `k` behind the address `pc`.
abbrev pub Byte : Code → ℕ → ℕ → ℕ → Type 0
Byte c pc k b = get c.code (pc + k) ≡ ok b

-- The two bytes behind the opcode, as an unsigned number.
abbrev pub Word : Code → ℕ → ℕ → Type 0
Word c pc w =
    (b1 : ℕ) × (b2 : ℕ) × Byte c pc 1 b1 × Byte c pc 2 b2 × (w ≡ b1 * 256 + b2) × (w < 65536)

-- An offset from the address of the jump itself, in two's complement over 16 bits.
abbrev pub Target : ℕ → ℕ → ℕ → Type 0
Target pc w target =
    ((w < 2 ^ 15) × (target ≡ pc + w)) ⊎ ((2 ^ 15 ≤ w) × (target + 2 ^ 16 ≡ pc + w))

module _ (cls : Class) (c : Code) where
  pub data Step : Frame → Frame → Type 0 where
    no_op :
        {ops l o : List ℕ} {n pc : ℕ} {h : Heap}
        → Byte c pc 0 i_nop
        → Step (frame ops n l pc h o) (frame ops n l (pc + 1) h o)
    negate :
        {t l o : List ℕ} {n pc a : ℕ} {h : Heap}
        → Byte c pc 0 i_ineg
        → Step (frame (a ∷ t) n l pc h o) (frame (neg32 a ∷ t) n l (pc + 1) h o)
    arithmetic :
        {t l o : List ℕ} {n pc a b r : ℕ} {h : Heap} (op : ℕ)
        → i_iadd ≤ op
        → op ≤ i_ixor
        → op ≢ i_ineg
        → Byte c pc 0 op
        → binary op a b ≡ ok r
        → Step (frame (b ∷ a ∷ t) n l pc h o) (frame (r ∷ t) (suc n) l (pc + 1) h o)
    push_constant :
        {ops l o : List ℕ} {n pc : ℕ} {h : Heap} (op : ℕ)
        → i_iconst_m1 ≤ op
        → op ≤ i_iconst_5
        → Byte c pc 0 op
        → Step
            (frame ops (suc n) l pc h o)
            (frame (((op + 2 ^ 32 - 3) % 2 ^ 32) ∷ ops) n l (pc + 1) h o)
    push_byte :
        {ops l o : List ℕ} {n pc : ℕ} {h : Heap} (b : ℕ)
        → Byte c pc 0 i_bipush
        → Byte c pc 1 b
        → Step (frame ops (suc n) l pc h o) (frame (sign_extend8_32 b ∷ ops) n l (pc + 2) h o)
    push_short :
        {ops l o : List ℕ} {n pc : ℕ} {h : Heap} (w : ℕ)
        → Byte c pc 0 i_sipush
        → Word c pc w
        → Step (frame ops (suc n) l pc h o) (frame (sign_extend16_32 w ∷ ops) n l (pc + 3) h o)
    push_pool :
        {ops l o : List ℕ} {n pc : ℕ} {h : Heap} (i v : ℕ)
        → Byte c pc 0 i_ldc
        → Byte c pc 1 (suc i)
        → get cls.constant_pool i ≡ ok (integer v)
        → Step (frame ops (suc n) l pc h o) (frame (v ∷ ops) n l (pc + 2) h o)
    -- `iload` and `aload` name the local in the byte behind them, their short forms in the opcode.
    load :
        {ops l o : List ℕ} {n pc v : ℕ} {h : Heap} (op i : ℕ)
        → (op ≡ i_iload) ⊎ (op ≡ i_aload)
        → Byte c pc 0 op
        → Byte c pc 1 i
        → get l i ≡ ok v
        → Step (frame ops (suc n) l pc h o) (frame (v ∷ ops) n l (pc + 2) h o)
    load_short :
        {ops l o : List ℕ} {n pc v : ℕ} {h : Heap} (i : ℕ)
        → i < 4
        → Byte c pc 0 (i_iload_0 + i) ⊎ Byte c pc 0 (i_aload_0 + i)
        → get l i ≡ ok v
        → Step (frame ops (suc n) l pc h o) (frame (v ∷ ops) n l (pc + 1) h o)
    store :
        {t l l' o : List ℕ} {n pc v : ℕ} {h : Heap} (op i : ℕ)
        → (op ≡ i_istore) ⊎ (op ≡ i_astore)
        → Byte c pc 0 op
        → Byte c pc 1 i
        → put l i v ≡ ok l'
        → Step (frame (v ∷ t) n l pc h o) (frame t (suc n) l' (pc + 2) h o)
    store_short :
        {t l l' o : List ℕ} {n pc v : ℕ} {h : Heap} (i : ℕ)
        → i < 4
        → Byte c pc 0 (i_istore_0 + i) ⊎ Byte c pc 0 (i_astore_0 + i)
        → put l i v ≡ ok l'
        → Step (frame (v ∷ t) n l pc h o) (frame t (suc n) l' (pc + 1) h o)
    increment :
        {ops l l' o : List ℕ} {n pc v : ℕ} {h : Heap} (i b : ℕ)
        → Byte c pc 0 i_iinc
        → Byte c pc 1 i
        → Byte c pc 2 b
        → get l i ≡ ok v
        → put l i (add32 v (sign_extend8_32 b)) ≡ ok l'
        → Step (frame ops n l pc h o) (frame ops n l' (pc + 3) h o)
    -- A branch compares one operand with 0, or two operands.
    branch_zero :
        {t l o : List ℕ} {n pc a : ℕ} {h : Heap} (op w target : ℕ) (jumps : Bool)
        → i_ifeq ≤ op
        → op ≤ i_ifle
        → Byte c pc 0 op
        → Word c pc w
        → taken op a 0 ≡ ok jumps
        → Target pc w target
        → Step (frame (a ∷ t) n l pc h o) (frame t (suc n) l (if jumps then target else pc + 3) h o)
    branch_compare :
        {t l o : List ℕ} {n pc a b : ℕ} {h : Heap} (op w target : ℕ) (jumps : Bool)
        → i_if_icmpeq ≤ op
        → op ≤ i_if_icmple
        → Byte c pc 0 op
        → Word c pc w
        → taken op a b ≡ ok jumps
        → Target pc w target
        → Step
            (frame (b ∷ a ∷ t) n l pc h o)
            (frame t (suc (suc n)) l (if jumps then target else pc + 3) h o)
    go :
        {ops l o : List ℕ} {n pc : ℕ} {h : Heap} (w target : ℕ)
        → Byte c pc 0 i_goto
        → Word c pc w
        → Target pc w target
        → Step (frame ops n l pc h o) (frame ops n l target h o)
    duplicate :
        {t l o : List ℕ} {n pc a : ℕ} {h : Heap}
        → Byte c pc 0 i_dup
        → Step (frame (a ∷ t) (suc n) l pc h o) (frame (a ∷ a ∷ t) n l (pc + 1) h o)
    -- An array is its length and its elements, whose slots an int counts; a reference is the number of the
    -- array.
    new_array :
        {t l o : List ℕ} {n pc k : ℕ} {h : Heap}
        → Byte c pc 0 i_newarray
        → k < 2 ^ 31 - 1
        → Step
            (frame (k ∷ t) n l pc h o)
            (frame (length h ∷ t) n l (pc + 2) (h ++ ((k ∷ replicate k 0) ∷ [])) o)
    array_length :
        {t l o arr : List ℕ} {n pc k ref : ℕ} {h : Heap}
        → Byte c pc 0 i_arraylength
        → get h ref ≡ ok (k ∷ arr)
        → Step (frame (ref ∷ t) n l pc h o) (frame (k ∷ t) n l (pc + 1) h o)
    array_store :
        {t l o arr arr' : List ℕ} {n pc k ref i v : ℕ} {h h' : Heap}
        → Byte c pc 0 i_iastore
        → get h ref ≡ ok (k ∷ arr)
        → i < 2 ^ 31
        → put arr i v ≡ ok arr'
        → put h ref (k ∷ arr') ≡ ok h'
        → Step (frame (v ∷ i ∷ ref ∷ t) n l pc h o) (frame t (suc (suc (suc n))) l (pc + 1) h' o)
    array_load :
        {t l o arr : List ℕ} {n pc k ref i v : ℕ} {h : Heap}
        → Byte c pc 0 i_iaload
        → get h ref ≡ ok (k ∷ arr)
        → i < 2 ^ 31
        → get arr i ≡ ok v
        → Step (frame (i ∷ ref ∷ t) n l pc h o) (frame (v ∷ t) (suc n) l (pc + 1) h o)
    -- The object that is printed to is not put on the stack; its slot is the free one.
    static_field :
        {ops l o : List ℕ} {n pc : ℕ} {h : Heap}
        → Byte c pc 0 i_getstatic
        → Step (frame ops n l pc h o) (frame ops n l (pc + 3) h o)
    print :
        {t l o : List ℕ} {n pc v : ℕ} {h : Heap}
        → Byte c pc 0 i_invokevirtual
        → Step (frame (v ∷ t) (suc n) l pc h o) (frame t (suc (suc n)) l (pc + 3) h (o ++ (v ∷ [])))

-- The arrays of the source that hold a frame, with `rest` in the free slots.
abbrev pub layout : Frame → List ℕ → Machine
layout s rest = conc s.operands rest s.locals s.pc s.heap s.out
