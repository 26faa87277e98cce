-- ===== src/Jvm/Refine/Arrays.antt =====
-- What the instructions on arrays do to a frame.
use computer_systems.Prelude.{
  ℕ, suc, ◌+◌, ◌-◌, ◌%◌, ◌^◌, ◌<◌, ◌==◌, ◌≡◌, refl, false, List, [], ◌∷◌, ◌++◌, length, replicate,
  arith, leb,
}
use computer_systems.Jvm.Outcome.{ok, get, put}
use computer_systems.Jvm.Int32.{add32}
use computer_systems.Jvm.Machine.{Heap, heap_add, heap_get, add_size}
use computer_systems.Jvm.Instr.{newarray, arraylength, iastore, iaload, slot_of}
use computer_systems.Jvm.Frame.{conc, frame_laws}

pub slot_of_lem : (i : ℕ) → i < 2 ^ 31 → slot_of i ≡ suc i
unfolding add32
slot_of_lem i h = omega arith

-- Slot 0 holds the length, so element `i` is slot `i + 1`.
pub get-cons : (k i : ℕ) (arr : List ℕ) → get (k ∷ arr) (suc i) ≡ get arr i
unfolding get
get-cons k i arr = refl

pub put-cons :
    (k i v : ℕ) (arr : List ℕ) {arr' : List ℕ}
    → put arr i v ≡ ok arr'
    → put (k ∷ arr) (suc i) v ≡ ok (k ∷ arr')
unfolding put
put-cons k i v arr e = ground arith

module _ (t rest l : List ℕ) (pc : ℕ) (h : Heap) (o : List ℕ) where
  pub newarray-conc :
      (k : ℕ)
      → k < 2 ^ 31 - 1
      → newarray (conc (k ∷ t) rest l pc h o)
        ≡ ok (conc (length h ∷ t) rest l (add_size pc 1) (h ++ ((k ∷ replicate k 0) ∷ [])) o)
  unfolding newarray heap_add add32
  newarray-conc k small =
      let sum : (k + 1) % 2 ^ 32 ≡ suc k = omega arith in
      let some_slot : (suc k == 0) ≡ false = ground arith in
      let positive : leb (2 ^ 31) (suc k) ≡ false = ground arith in
      let elements : suc k - 1 ≡ k = omega arith in
      simp (frame_laws, sum, some_slot, positive, elements)

  pub arraylength-conc :
      (ref k : ℕ) {arr : List ℕ}
      → get h ref ≡ ok (k ∷ arr)
      → arraylength (conc (ref ∷ t) rest l pc h o) ≡ ok (conc (k ∷ t) rest l pc h o)
  unfolding arraylength heap_get get
  arraylength-conc ref k e = simp (frame_laws, e)

  pub iastore-conc :
      (ref i v k : ℕ) {arr arr' : List ℕ} {h' : Heap}
      → get h ref ≡ ok (k ∷ arr)
      → i < 2 ^ 31
      → put arr i v ≡ ok arr'
      → put h ref (k ∷ arr') ≡ ok h'
      → iastore (conc (v ∷ i ∷ ref ∷ t) rest l pc h o) ≡ ok (conc t (0 ∷ 0 ∷ 0 ∷ rest) l pc h' o)
  unfolding iastore heap_get
  iastore-conc ref i v k {arr} e small e' e'' =
      simp (frame_laws, e, slot_of_lem i small, put-cons k i v arr e', e'')

  pub iaload-conc :
      (ref i v k : ℕ) {arr : List ℕ}
      → get h ref ≡ ok (k ∷ arr)
      → i < 2 ^ 31
      → get arr i ≡ ok v
      → iaload (conc (i ∷ ref ∷ t) rest l pc h o) ≡ ok (conc (v ∷ t) (0 ∷ rest) l pc h o)
  unfolding iaload heap_get
  iaload-conc ref i v k e small e' = simp (frame_laws, e, slot_of_lem i small, get-cons, e')
