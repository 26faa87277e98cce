-- ===== src/Jvm/Refine/Operands.antt =====
-- What the instructions on operands and locals do to a frame.
use computer_systems.Prelude.{
  ℕ, suc, ◌+◌, ◌-◌, ◌%◌, ◌^◌, ◌≡◌, ◌≢◌, false, List, [], ◌∷◌, ◌++◌, arith, ◌==◌,
}
use computer_systems.Jvm.Opcode.{i_ineg}
use computer_systems.Jvm.Outcome.{ok, ◌>>=◌, get, put}
use computer_systems.Jvm.Int32.{neg32, add32, binary, sign_extend8_32, sign_extend16_32}
use computer_systems.Jvm.Machine.{Code, Heap, add_size, word_at, byte_at}
use computer_systems.Jvm.Class.{Class, integer, ldc}
use computer_systems.Jvm.Instr.{
  add_to_xor, bi_push, invoke_virtual, get_static, i_const, si_push, load_local, store_local,
  i_load, i_store, i_inc, dup,
}
use computer_systems.Jvm.Frame.{conc, frame_laws}
use computer_systems.Jvm.Semantics.{Byte, Word}

module _ (c : Code) (t rest l : List ℕ) (pc : ℕ) (h : Heap) (o : List ℕ) where
  pub add_to_xor-ineg :
      (a : ℕ)
      → add_to_xor i_ineg (conc (a ∷ t) rest l pc h o) ≡ ok (conc (neg32 a ∷ t) rest l pc h o)
  unfolding add_to_xor
  add_to_xor-ineg a = simp frame_laws

  pub add_to_xor-binary :
      (op a b r : ℕ)
      → op ≢ i_ineg
      → binary op a b ≡ ok r
      → add_to_xor op (conc (b ∷ a ∷ t) rest l pc h o) ≡ ok (conc (r ∷ t) (0 ∷ rest) l pc h o)
  unfolding add_to_xor
  add_to_xor-binary op a b r ne e =
      let test : (op == i_ineg) ≡ false = ground arith in rw test (simp (frame_laws, e))

  pub i_const-conc :
      (op x : ℕ)
      → Byte c pc 0 op
      → i_const c (conc t (x ∷ rest) l pc h o)
        ≡ ok (conc (((op + 2 ^ 32 - 3) % 2 ^ 32) ∷ t) rest l pc h o)
  unfolding i_const
  i_const-conc op x fetch = simp (frame_laws, fetch)

  pub bi_push-conc :
      (b x : ℕ)
      → Byte c pc 1 b
      → bi_push c (conc t (x ∷ rest) l pc h o)
        ≡ ok (conc (sign_extend8_32 b ∷ t) rest l (add_size pc 1) h o)
  unfolding bi_push
  bi_push-conc b x fetch = simp (frame_laws, fetch)

  pub word_at-conc : (w : ℕ) → Word c pc w → word_at c (conc t rest l pc h o) ≡ ok w
  unfolding word_at
  word_at-conc w (b1, b2, f1, f2, e, _) = simp (frame_laws, f1, f2, e)

module _ (c : Code) (t rest l : List ℕ) (pc : ℕ) (h : Heap) (o : List ℕ) where
  pub si_push-conc :
      (w x : ℕ)
      → Word c pc w
      → si_push c (conc t (x ∷ rest) l pc h o)
        ≡ ok (conc (sign_extend16_32 w ∷ t) rest l (add_size pc 2) h o)
  unfolding si_push
  si_push-conc w x fetch = simp (frame_laws, word_at-conc c t (x ∷ rest) l pc h o w fetch)

  pub ldc-conc :
      (cls : Class) (i v x : ℕ)
      → Byte c pc 1 (suc i)
      → get cls.constant_pool i ≡ ok (integer v)
      → ldc c cls (conc t (x ∷ rest) l pc h o) ≡ ok (conc (v ∷ t) rest l (add_size pc 1) h o)
  unfolding ldc
  ldc-conc cls i v x fetch e =
      let test : (suc i == 0) ≡ false = ground arith in
      let index : suc i - 1 ≡ i = omega arith in simp (frame_laws, fetch, test, index, e)

  pub load_local-conc :
      (i v x : ℕ)
      → get l i ≡ ok v
      → load_local i (conc t (x ∷ rest) l pc h o) ≡ ok (conc (v ∷ t) rest l pc h o)
  unfolding load_local
  load_local-conc i v x e = simp (frame_laws, e)

  pub store_local-conc :
      (i v : ℕ) {l' : List ℕ}
      → put l i v ≡ ok l'
      → store_local i (conc (v ∷ t) rest l pc h o) ≡ ok (conc t (0 ∷ rest) l' pc h o)
  unfolding store_local
  store_local-conc i v e = simp (frame_laws, e)

  pub i_inc-conc :
      (i b v : ℕ) {l' : List ℕ}
      → Byte c pc 1 i
      → Byte c pc 2 b
      → get l i ≡ ok v
      → put l i (add32 v (sign_extend8_32 b)) ≡ ok l'
      → i_inc c (conc t rest l pc h o) ≡ ok (conc t rest l' (add_size pc 2) h o)
  unfolding i_inc
  i_inc-conc i b v f1 f2 e e' = simp (frame_laws, f1, f2, e, e')

  pub dup-conc :
      (a x : ℕ) → dup (conc (a ∷ t) (x ∷ rest) l pc h o) ≡ ok (conc (a ∷ a ∷ t) rest l pc h o)
  unfolding dup
  dup-conc a x = simp frame_laws

  pub invoke_virtual-conc :
      (v x : ℕ)
      → invoke_virtual (conc (v ∷ t) (x ∷ rest) l pc h o)
        ≡ ok (conc t (v ∷ 0 ∷ rest) l (add_size pc 2) h (o ++ (v ∷ [])))
  unfolding invoke_virtual
  invoke_virtual-conc v x = simp frame_laws

  pub get_static-conc : get_static (conc t rest l pc h o) ≡ ok (conc t rest l (add_size pc 2) h o)
  unfolding get_static
  get_static-conc = simp frame_laws

  -- The short forms name the local in the opcode, counted from `base`.
  pub short_load :
      (base i x : ℕ) {v : ℕ}
      → Byte c pc 0 (base + i)
      → get l i ≡ ok v
      → (byte_at c 0 (conc t (x ∷ rest) l pc h o) >>= λ b.
          load_local (b - base) (conc t (x ∷ rest) l pc h o))
        ≡ ok (conc (v ∷ t) rest l pc h o)
  short_load base i x {v} fetch g =
      let index : base + i - base ≡ i = omega arith in
      simp (frame_laws, fetch, index, load_local-conc i v x g)

  pub short_store :
      (base i v : ℕ) {l' : List ℕ}
      → Byte c pc 0 (base + i)
      → put l i v ≡ ok l'
      → (byte_at c 0 (conc (v ∷ t) rest l pc h o) >>= λ b.
          store_local (b - base) (conc (v ∷ t) rest l pc h o))
        ≡ ok (conc t (0 ∷ rest) l' pc h o)
  short_store base i v fetch g =
      let index : base + i - base ≡ i = omega arith in
      simp (frame_laws, fetch, index, store_local-conc i v g)

  -- The long forms name it in the byte behind the opcode.
  pub i_load-conc :
      (i v x : ℕ)
      → Byte c pc 1 i
      → get l i ≡ ok v
      → i_load c (conc t (x ∷ rest) l pc h o) ≡ ok (conc (v ∷ t) rest l (add_size pc 1) h o)
  unfolding i_load
  i_load-conc i v x f g = simp (frame_laws, f, load_local-conc i v x g)

  pub i_store-conc :
      (i v : ℕ) {l' : List ℕ}
      → Byte c pc 1 i
      → put l i v ≡ ok l'
      → i_store c (conc (v ∷ t) rest l pc h o) ≡ ok (conc t (0 ∷ rest) l' (add_size pc 1) h o)
  unfolding i_store
  i_store-conc i v f g = simp (frame_laws, f, store_local-conc i v g)
