-- ===== src/Jvm/Refine/Jumps.antt =====
-- What the jumps do to a frame, and where they land.
use computer_systems.Prelude.{
  ℕ, ◌+◌, ◌-◌, ◌%◌, ◌^◌, ◌≤◌, ◌<◌, ◌≡◌, refl, inl, inr, Bool, true, false, List, ◌∷◌, arith, leb,
  if◌then◌else◌,
}
use computer_systems.Jvm.Opcode.{i_ifle, i_if_icmpeq}
use computer_systems.Jvm.Outcome.{ok}
use computer_systems.Jvm.Int32.{sign_extend16}
use computer_systems.Jvm.Machine.{Code, Heap, add_size}
use computer_systems.Jvm.Instr.{taken, jump, go_to}
use computer_systems.Jvm.Frame.{conc, frame_laws}
use computer_systems.Jvm.Semantics.{Word, Target}
use computer_systems.Jvm.Refine.Operands.{word_at-conc}

-- `pc += offset - 1`, in size_t arithmetic.
abbrev pub displaced : ℕ → ℕ → ℕ
displaced pc w = (pc + sign_extend16 w + 2 ^ 64 - 1) % 2 ^ 64

-- With the `pc++` of the loop the jump lands on its target.
pub displaced-Target :
    (pc w target : ℕ)
    → pc < 2 ^ 32
    → w < 65536
    → Target pc w target
    → add_size (displaced pc w) 1 ≡ target
unfolding sign_extend16
displaced-Target pc w target small word (inl (lo, e)) = ground arith
displaced-Target pc w target small word (inr (hi, e)) = ground arith

abbrev pub jumped : Bool → ℕ → ℕ → ℕ
jumped jumps pc w = if jumps then displaced pc w else add_size pc 2

module _ (c : Code) (t rest l : List ℕ) (pc : ℕ) (h : Heap) (o : List ℕ) where
  pub jump-zero :
      (op w a : ℕ) (jumps : Bool)
      → op ≤ i_ifle
      → Word c pc w
      → taken op a 0 ≡ ok jumps
      → jump op c (conc (a ∷ t) rest l pc h o) ≡ ok (conc t (0 ∷ rest) l (jumped jumps pc w) h o)
  unfolding jump
  jump-zero op w a jumps hi word e =
      let test : leb i_if_icmpeq op ≡ false = ground arith in
      rw test (simp (frame_laws, word_at-conc c (a ∷ t) rest l pc h o w word, e) (landed jumps))
    where
      landed :
          (jumps : Bool)
          → ok (
              if jumps
              then conc t (0 ∷ rest) l (displaced pc w) h o
              else conc t (0 ∷ rest) l (add_size pc 2) h o)
            ≡ ok (conc t (0 ∷ rest) l (jumped jumps pc w) h o)
      landed true = refl
      landed false = refl

  pub jump-compare :
      (op w a b : ℕ) (jumps : Bool)
      → i_if_icmpeq ≤ op
      → Word c pc w
      → taken op a b ≡ ok jumps
      → jump op c (conc (b ∷ a ∷ t) rest l pc h o)
        ≡ ok (conc t (0 ∷ 0 ∷ rest) l (jumped jumps pc w) h o)
  unfolding jump
  jump-compare op w a b jumps lo word e =
      let test : leb i_if_icmpeq op ≡ true = ground arith in
      rw test (simp (frame_laws, word_at-conc c (b ∷ a ∷ t) rest l pc h o w word, e) (landed jumps))
    where
      landed :
          (jumps : Bool)
          → ok (
              if jumps
              then conc t (0 ∷ 0 ∷ rest) l (displaced pc w) h o
              else conc t (0 ∷ 0 ∷ rest) l (add_size pc 2) h o)
            ≡ ok (conc t (0 ∷ 0 ∷ rest) l (jumped jumps pc w) h o)
      landed true = refl
      landed false = refl

  pub go_to-conc :
      (w : ℕ)
      → Word c pc w
      → go_to c (conc t rest l pc h o) ≡ ok (conc t rest l (displaced pc w) h o)
  unfolding go_to
  go_to-conc w word = simp (frame_laws, word_at-conc c t rest l pc h o w word)
