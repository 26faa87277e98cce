-- ===== src/Jvm/Refine/Step.antt =====
-- A step of the semantics is one round of the loop of `execute`.
use computer_systems.Prelude.{
  ℕ, suc, ◌+◌, ◌^◌, ◌<◌, ◌≡◌, refl, ap, ◌∙◌, inl, inr, Bool, true, false, List, [], ◌∷◌, length,
  arith, if◌then◌else◌,
}
use computer_systems.Jvm.Opcode.{i_iload_0, i_aload_0, i_istore_0, i_astore_0}
use computer_systems.Jvm.Outcome.{Result, ok, get-lt}
use computer_systems.Jvm.Machine.{Code, Heap, Machine, add_size}
use computer_systems.Jvm.Class.{Class}
use computer_systems.Jvm.Instr.{i_iload_nums, aload_nums, i_istore_nums, astore_nums}
use computer_systems.Jvm.Frame.{conc}
use computer_systems.Jvm.Semantics.{
  Frame, Byte, Word, Target, Step, layout, no_op, negate, arithmetic, push_constant, push_byte,
  push_short, push_pool, load, load_short, store, store_short, increment, branch_zero,
  branch_compare, go, duplicate, new_array, array_length, array_store, array_load, static_field,
  print,
}
use computer_systems.Jvm.Execute.{Returned, continue, continues, dispatch, execute_loop}
use computer_systems.Jvm.Refine.Dispatch.{
  dispatch-add_to_xor, dispatch-i_const, dispatch-jump, dispatch-i_iload_nums, dispatch-aload_nums,
  dispatch-i_istore_nums, dispatch-astore_nums, dispatch-load, dispatch-store,
}
use computer_systems.Jvm.Refine.Round.{round-conc}
use computer_systems.Jvm.Refine.Operands.{
  add_to_xor-ineg, add_to_xor-binary, i_const-conc, bi_push-conc, si_push-conc, ldc-conc,
  i_load-conc, i_store-conc, i_inc-conc, dup-conc, invoke_virtual-conc, get_static-conc, short_load,
  short_store,
}
use computer_systems.Jvm.Refine.Jumps.{
  displaced-Target, jumped, jump-zero, jump-compare, go_to-conc,
}
use computer_systems.Jvm.Refine.Arrays.{newarray-conc, arraylength-conc, iastore-conc, iaload-conc}

module _ (cls : Class) (c : Code) where
  -- One round of the loop takes the machine `m` to a layout of `s'`.
  abbrev pub Simulated : Machine → Frame → Type 0
  Simulated m s' =
      (rest' : List ℕ) × (length rest' ≡ s'.free)
      × ((fuel : ℕ) → execute_loop (suc fuel) cls c m ≡ execute_loop fuel cls c (layout s' rest'))

module _ (cls : Class) (c : Code) (small : length c.code < 2 ^ 32) where
  pc_small : (pc b : ℕ) → Byte c pc 0 b → pc < 2 ^ 32
  pc_small pc b fetch = omega (arith, get-lt c.code (pc + 0) fetch)

  -- The instruction at `cur` takes the frame `s` to `s'`, but for the `pc++` of the loop.
  pub by :
      (ops l : List ℕ) (pc : ℕ) (h : Heap) (o : List ℕ) (s' : Frame) (rest rest' : List ℕ)
      (cur p : ℕ)
      → Byte c pc 0 cur
      → length rest' ≡ s'.free
      → ((call : Code → Machine → Result Returned)
          → dispatch call cls c cur (conc ops rest l pc h o)
            ≡ ok (continue (conc s'.operands rest' s'.locals p s'.heap s'.out)))
      → add_size p 1 ≡ s'.pc
      → Simulated cls c (conc ops rest l pc h o) s'
  by ops l pc h o s' rest rest' cur p fetch len d e = (
    rest',
    len,
    λ fuel. round-conc cls c fuel _ _ _ _ _ _ _ _ _ _ _ _ _ _ fetch (d (execute_loop fuel cls)) e,
  )

  -- Where a jump goes on.
  landing :
      (jumps : Bool) (pc w target : ℕ)
      → pc < 2 ^ 32
      → Word c pc w
      → Target pc w target
      → add_size (jumped jumps pc w) 1 ≡ (if jumps then target else pc + 3)
  landing true pc w target lt word t = displaced-Target pc w target lt word.5 t
  landing false pc w target lt word t = omega arith

  -- Every step of the semantics of a frame is one round of the loop of `execute`: from the arrays that
  -- lay out the first frame, with any contents of the free slots, the switch goes on with arrays that
  -- lay out the second one. The method's code is shorter than 2 ^ 32 bytes.
  pub Step-Simulated :
      {s s' : Frame}
      → Step cls c s s'
      → (rest : List ℕ) → length rest ≡ s.free
      → Simulated cls c (layout s rest) s'
  unfolding dispatch i_iload_nums aload_nums i_istore_nums astore_nums
  Step-Simulated (no_op {pc} fetch) rest e =
      by _ _ _ _ _ _ _ rest _ _ fetch e (λ call. refl) (omega (arith, pc_small pc _ fetch))
  Step-Simulated (negate {t} {l} {o} {pc} {a} {h} fetch) rest e =
      by _ _ _ _ _ _ _ rest _ _ fetch e (λ call. ap continues (add_to_xor-ineg c t rest l pc h o a))
        (omega (arith, pc_small pc _ fetch))
  Step-Simulated (arithmetic {t} {l} {o} {pc} {a} {b} {r} {h} op lo hi ne fetch v) rest e =
      by _ _ _ _ _ _ _ (0 ∷ rest) _ _ fetch (omega arith)
        (λ call.
          dispatch-add_to_xor call cls c _ op lo hi
          ∙ ap continues (add_to_xor-binary c t rest l pc h o op a b r ne v))
        (omega (arith, pc_small pc _ fetch))
  Step-Simulated (push_constant {ops} {l} {o} {n} {pc} {h} op lo hi fetch) [] e =
      absurd (omega arith)
  Step-Simulated (push_constant {ops} {l} {o} {n} {pc} {h} op lo hi fetch) (x ∷ rest) e =
      by _ _ _ _ _ _ _ rest _ _ fetch (omega arith)
        (λ call.
          dispatch-i_const call cls c _ op lo hi
          ∙ ap continues (i_const-conc c ops rest l pc h o op x fetch))
        (omega (arith, pc_small pc _ fetch))
  Step-Simulated (push_byte {ops} {l} {o} {n} {pc} {h} b fetch f) [] e = absurd (omega arith)
  Step-Simulated (push_byte {ops} {l} {o} {n} {pc} {h} b fetch f) (x ∷ rest) e =
      by _ _ _ _ _ _ _ rest _ _ fetch (omega arith)
        (λ call. ap continues (bi_push-conc c ops rest l pc h o b x f))
        (omega (arith, pc_small pc _ fetch))
  Step-Simulated (push_short {ops} {l} {o} {n} {pc} {h} w fetch f) [] e = absurd (omega arith)
  Step-Simulated (push_short {ops} {l} {o} {n} {pc} {h} w fetch f) (x ∷ rest) e =
      by _ _ _ _ _ _ _ rest _ _ fetch (omega arith)
        (λ call. ap continues (si_push-conc c ops rest l pc h o w x f))
        (omega (arith, pc_small pc _ fetch))
  Step-Simulated (push_pool {ops} {l} {o} {n} {pc} {h} i v fetch f k) [] e = absurd (omega arith)
  Step-Simulated (push_pool {ops} {l} {o} {n} {pc} {h} i v fetch f k) (x ∷ rest) e =
      by _ _ _ _ _ _ _ rest _ _ fetch (omega arith)
        (λ call. ap continues (ldc-conc c ops rest l pc h o cls i v x f k))
        (omega (arith, pc_small pc _ fetch))
  Step-Simulated (load {ops} {l} {o} {n} {pc} {h} op i which fetch f g) [] e = absurd (omega arith)
  Step-Simulated (load {ops} {l} {o} {n} {pc} {h} op i which fetch f g) (x ∷ rest) e =
      by _ _ _ _ _ _ _ rest _ _ fetch (omega arith)
        (λ call.
          dispatch-load call cls c _ op which
          ∙ ap continues (i_load-conc c ops rest l pc h o i _ x f g))
        (omega (arith, pc_small pc _ fetch))
  Step-Simulated (load_short {ops} {l} {o} {n} {pc} {h} i lt (inl fetch) g) [] e =
      absurd (omega arith)
  Step-Simulated (load_short {ops} {l} {o} {n} {pc} {h} i lt (inl fetch) g) (x ∷ rest) e =
      by _ _ _ _ _ _ _ rest _ _ fetch (omega arith)
        (λ call.
          dispatch-i_iload_nums call cls c _ i lt
          ∙ ap continues (short_load c ops rest l pc h o i_iload_0 i x fetch g))
        (omega (arith, pc_small pc _ fetch))
  Step-Simulated (load_short {ops} {l} {o} {n} {pc} {h} i lt (inr fetch) g) [] e =
      absurd (omega arith)
  Step-Simulated (load_short {ops} {l} {o} {n} {pc} {h} i lt (inr fetch) g) (x ∷ rest) e =
      by _ _ _ _ _ _ _ rest _ _ fetch (omega arith)
        (λ call.
          dispatch-aload_nums call cls c _ i lt
          ∙ ap continues (short_load c ops rest l pc h o i_aload_0 i x fetch g))
        (omega (arith, pc_small pc _ fetch))
  Step-Simulated (store {t} {l} {o} {pc} {v} {h} op i which fetch f g) rest e =
      by _ _ _ _ _ _ _ (0 ∷ rest) _ _ fetch (omega arith)
        (λ call.
          dispatch-store call cls c _ op which
          ∙ ap continues (i_store-conc c t rest l pc h o i v f g))
        (omega (arith, pc_small pc _ fetch))
  Step-Simulated (store_short {t} {l} {o} {pc} {v} {h} i lt (inl fetch) g) rest e =
      by _ _ _ _ _ _ _ (0 ∷ rest) _ _ fetch (omega arith)
        (λ call.
          dispatch-i_istore_nums call cls c _ i lt
          ∙ ap continues (short_store c t rest l pc h o i_istore_0 i v fetch g))
        (omega (arith, pc_small pc _ fetch))
  Step-Simulated (store_short {t} {l} {o} {pc} {v} {h} i lt (inr fetch) g) rest e =
      by _ _ _ _ _ _ _ (0 ∷ rest) _ _ fetch (omega arith)
        (λ call.
          dispatch-astore_nums call cls c _ i lt
          ∙ ap continues (short_store c t rest l pc h o i_astore_0 i v fetch g))
        (omega (arith, pc_small pc _ fetch))
  Step-Simulated (increment {ops} {l} {o} {pc} {v} {h} i b fetch f1 f2 g g') rest e =
      by _ _ _ _ _ _ _ rest _ _ fetch (omega arith)
        (λ call. ap continues (i_inc-conc c ops rest l pc h o i b v f1 f2 g g'))
        (omega (arith, pc_small pc _ fetch))
  Step-Simulated (branch_zero {t} {l} {o} {pc} {a} {h} op w target jumps lo hi fetch word v goal)
        rest e =
      by _ _ _ _ _ _ _ (0 ∷ rest) _ _ fetch (omega arith)
        (λ call.
          dispatch-jump call cls c _ op lo (omega arith)
          ∙ ap continues (jump-zero c t rest l pc h o op w a jumps hi word v))
        (landing jumps pc w target (pc_small pc _ fetch) word goal)
  Step-Simulated
        (branch_compare {t} {l} {o} {pc} {a} {b} {h} op w target jumps lo hi fetch word v goal) rest
        e =
      by _ _ _ _ _ _ _ (0 ∷ 0 ∷ rest) _ _ fetch (omega arith)
        (λ call.
          dispatch-jump call cls c _ op (omega arith) hi
          ∙ ap continues (jump-compare c t rest l pc h o op w a b jumps lo word v))
        (landing jumps pc w target (pc_small pc _ fetch) word goal)
  Step-Simulated (go {ops} {l} {o} {pc} {h} w target fetch word goal) rest e =
      by _ _ _ _ _ _ _ rest _ _ fetch (omega arith)
        (λ call. ap continues (go_to-conc c ops rest l pc h o w word))
        (landing true pc w target (pc_small pc _ fetch) word goal)
  Step-Simulated (duplicate {t} {l} {o} {n} {pc} {a} {h} fetch) [] e = absurd (omega arith)
  Step-Simulated (duplicate {t} {l} {o} {n} {pc} {a} {h} fetch) (x ∷ rest) e =
      by _ _ _ _ _ _ _ rest _ _ fetch (omega arith)
        (λ call. ap continues (dup-conc c t rest l pc h o a x)) (omega (arith, pc_small pc _ fetch))
  Step-Simulated (new_array {t} {l} {o} {pc} {k} {h} fetch lt) rest e =
      by _ _ _ _ _ _ _ rest _ _ fetch (omega arith)
        (λ call. ap continues (newarray-conc t rest l pc h o k lt))
        (omega (arith, pc_small pc _ fetch))
  Step-Simulated (array_length {t} {l} {o} {pc} {k} {ref} {h} fetch g) rest e =
      by _ _ _ _ _ _ _ rest _ _ fetch (omega arith)
        (λ call. ap continues (arraylength-conc t rest l pc h o ref k g))
        (omega (arith, pc_small pc _ fetch))
  Step-Simulated (array_store {t} {l} {o} {pc} {k} {ref} {i} {v} {h} fetch g lt p q) rest e =
      by _ _ _ _ _ _ _ (0 ∷ 0 ∷ 0 ∷ rest) _ _ fetch (omega arith)
        (λ call. ap continues (iastore-conc t rest l pc h o ref i v k g lt p q))
        (omega (arith, pc_small pc _ fetch))
  Step-Simulated (array_load {t} {l} {o} {pc} {k} {ref} {i} {v} {h} fetch g lt p) rest e =
      by _ _ _ _ _ _ _ (0 ∷ rest) _ _ fetch (omega arith)
        (λ call. ap continues (iaload-conc t rest l pc h o ref i v k g lt p))
        (omega (arith, pc_small pc _ fetch))
  Step-Simulated (static_field {ops} {l} {o} {pc} {h} fetch) rest e =
      by _ _ _ _ _ _ _ rest _ _ fetch (omega arith)
        (λ call. ap continues (get_static-conc c ops rest l pc h o))
        (omega (arith, pc_small pc _ fetch))
  Step-Simulated (print {t} {l} {o} {n} {pc} {v} {h} fetch) [] e = absurd (omega arith)
  Step-Simulated (print {t} {l} {o} {n} {pc} {v} {h} fetch) (x ∷ rest) e =
      by _ _ _ _ _ _ _ (v ∷ 0 ∷ rest) _ _ fetch (omega arith)
        (λ call. ap continues (invoke_virtual-conc c t rest l pc h o v x))
        (omega (arith, pc_small pc _ fetch))
