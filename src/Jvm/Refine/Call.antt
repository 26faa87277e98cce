-- ===== src/Jvm/Refine/Call.antt =====
-- `invokestatic`: the arguments move from the operands to the locals of the callee.
use mathlib.Core.List.{append_assoc}
use computer_systems.Prelude.{
  ℕ, zero, suc, ◌+◌, ◌-◌, ◌≤◌, ◌≡◌, refl, sym, List, [], ◌∷◌, ◌++◌, length, replicate, Option, none,
  some, reverse_aux, arith, length-append, length-replicate, length-reverse_aux,
}
use computer_systems.Jvm.Outcome.{Result, ok, ◌>>=◌, put, below}
use computer_systems.Jvm.Machine.{Code, Heap, Machine, add_size, skip, peek, poke, drop_slots}
use computer_systems.Jvm.Class.{Class, Method}
use computer_systems.Jvm.Semantics.{layout}
use computer_systems.Jvm.Runs.{Calls, entry}
use computer_systems.Jvm.Refine.Operands.{word_at-conc}
use computer_systems.Jvm.Frame.{conc, heap-conc, out-conc, frame_laws, get-slot, put-slot}
use computer_systems.Jvm.Execute.{Returned, push_result, resume, fresh, move_args, invoke_static}

put-append :
    (front : List ℕ) (a v : ℕ) (back : List ℕ)
    → put (front ++ (a ∷ back)) (length front) v ≡ ok (front ++ (v ∷ back))
unfolding put
put-append [] a v back = ground arith
put-append (x ∷ front) a v back = ground (arith, put-append front a v back)

reverse_aux-reverse_aux :
    (as' t rest : List ℕ) → reverse_aux (reverse_aux as' t) rest ≡ reverse_aux t (as' ++ rest)
reverse_aux-reverse_aux [] t rest = refl
reverse_aux-reverse_aux (a ∷ as') t rest = reverse_aux-reverse_aux as' (a ∷ t) rest

below-length :
    (as' t : List ℕ) (a : ℕ)
    → below (suc (length as')) (length (reverse_aux as' (a ∷ t))) ≡ ok (length t)
unfolding below
below-length as' t a = ground (arith, length-reverse_aux as' (a ∷ t))

module _ (t rest l : List ℕ) (pc : ℕ) (h : Heap) (o : List ℕ) where
  -- The argument below `as'` is read, and cleared.
  peek-arg :
      (a : ℕ) (as' : List ℕ)
      → peek (suc (length as')) (conc (reverse_aux as' (a ∷ t)) rest l pc h o) ≡ ok a
  unfolding peek conc
  peek-arg a as' = rw (below-length, reverse_aux-reverse_aux) (get-slot a t (as' ++ rest))

  poke-arg :
      (a : ℕ) (as' : List ℕ)
      → poke (suc (length as')) 0 (conc (reverse_aux as' (a ∷ t)) rest l pc h o)
        ≡ ok (conc (reverse_aux as' (0 ∷ t)) rest l pc h o)
  unfolding poke conc
  poke-arg a as' = rw below-length (simp (reverse_aux-reverse_aux, put-slot, length-reverse_aux))

-- `move_args` empties the arguments' slots, and writes the arguments behind the locals `front`.
pub move_args-conc :
    (args t rest l : List ℕ) (pc : ℕ) (h : Heap) (o : List ℕ) (front : List ℕ) (spare : ℕ)
    → length args ≤ spare
    → (k : ℕ) → k ≡ length args
    → move_args k
        (length front)
        (front ++ replicate spare 0)
        (conc (reverse_aux args t) rest l pc h o)
      ≡ ok (
        front ++ (args ++ replicate (spare - length args) 0),
        conc (reverse_aux (replicate (length args) 0) t) rest l pc h o,
      )
unfolding move_args
move_args-conc [] t rest l pc h o front spare fits zero e =
    let none_left : spare - 0 ≡ spare = omega arith in rw none_left
move_args-conc [] t rest l pc h o front spare fits (suc k) e = absurd (omega arith)
move_args-conc (a ∷ args) t rest l pc h o front spare fits zero e = absurd (omega arith)
move_args-conc (a ∷ args) t rest l pc h o front zero fits (suc k) e = absurd (omega arith)
move_args-conc (a ∷ args) t rest l pc h o front (suc spare) fits (suc k) e =
    let e' : k ≡ length args = omega arith in
    let ih =
      move_args-conc args (0 ∷ t) rest l pc h o (front ++ (a ∷ [])) spare (omega arith) k e' in
    let count : length (front ++ (a ∷ [])) ≡ length front + 1 =
      omega (arith, length-append front (a ∷ [])) in
    let left : suc spare - suc (length args) ≡ spare - length args = omega arith in
    rw (e', peek-arg t rest l pc h o a args, put-append, poke-arg t rest l pc h o a args, left)
      (simp (append_assoc, count) at (rw e' at ih))

-- The cleared slots of the arguments are free again.
drop_slots-conc :
    (zs t rest l : List ℕ) (pc : ℕ) (h : Heap) (o : List ℕ) (k : ℕ)
    → k ≡ length zs
    → drop_slots k (conc (reverse_aux zs t) rest l pc h o) ≡ conc t (zs ++ rest) l pc h o
unfolding drop_slots conc
drop_slots-conc zs t rest l pc h o k e =
    let left : length (reverse_aux zs t) - k ≡ length t = omega (arith, length-reverse_aux zs t) in
    simp (reverse_aux-reverse_aux, left)

module _ (call : Code → Machine → Result Returned) (cls : Class) (c : Code) (m : Method)
    (args t rest l : List ℕ) (pc : ℕ) (h : Heap) (o : List ℕ) (calls : Calls cls c pc m args)
    (callee : Machine) where
  abbrev pub freed : List ℕ
  freed = replicate (length args) 0 ++ rest

  moved :
      move_args
        (length args)
        0
        (replicate m.code.max_locals 0)
        (conc (reverse_aux args t) rest l pc h o)
      ≡ ok (
        args ++ replicate (m.code.max_locals - length args) 0,
        conc (reverse_aux (replicate (length args) 0) t) rest l pc h o,
      )
  moved = move_args-conc args t rest l pc h o [] m.code.max_locals calls.fits (length args) refl

  abbrev pub entered : Machine
  entered = layout (entry m.code args h o) (replicate m.code.max_stack 0)

  fresh-entered :
      (locals : List ℕ)
      → fresh m.code locals h o ≡ conc [] (replicate m.code.max_stack 0) locals 0 h o
  unfolding fresh conc
  fresh-entered locals = refl

  resume-conc : resume callee (conc t freed l pc h o) ≡ conc t freed l pc callee.heap callee.out
  unfolding resume conc
  resume-conc = refl

  all_dropped :
      drop_slots (length args) (conc (reverse_aux (replicate (length args) 0) t) rest l pc h o)
      ≡ conc t freed l pc h o
  all_dropped =
      drop_slots-conc (replicate (length args) 0) t rest l pc h o (length args)
        (sym (length-replicate (length args) 0))

  -- Up to the callee's return, and what is done with the value that it returns.
  invoke_static-returned :
      (value : Option ℕ)
      → call m.code entered ≡ ok (value, callee)
      → invoke_static call cls c (conc (reverse_aux args t) rest l pc h o)
        ≡ (push_result value (conc t freed l pc callee.heap callee.out) >>= λ s. ok (skip 2 s))
  unfolding invoke_static
  invoke_static-returned value e =
      let operands = reverse_aux args t in
      simp (
        word_at-conc c operands rest l pc h o calls.index calls.word,
        calls.found,
        calls.arity,
        moved,
        all_dropped,
        heap-conc,
        out-conc,
        fresh-entered,
        e,
        resume-conc,
      )

  pub invoke_static-void :
      call m.code entered ≡ ok (none, callee)
      → invoke_static call cls c (conc (reverse_aux args t) rest l pc h o)
        ≡ ok (conc t freed l (add_size pc 2) callee.heap callee.out)
  invoke_static-void e = rw (invoke_static-returned none e) (simp frame_laws)

  pub invoke_static-value :
      (v x : ℕ) (rest' : List ℕ)
      → freed ≡ x ∷ rest'
      → call m.code entered ≡ ok (some v, callee)
      → invoke_static call cls c (conc (reverse_aux args t) rest l pc h o)
        ≡ ok (conc (v ∷ t) rest' l (add_size pc 2) callee.heap callee.out)
  invoke_static-value v x rest' room e =
      rw (invoke_static-returned (some v) e, room) (simp frame_laws)
