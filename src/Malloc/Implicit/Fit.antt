-- ===== src/Malloc/Implicit/Fit.antt =====
-- malloc/src/mm-implicit.c: `find_fit`, and the block that it finds as it is taken.
use computer_systems.Prelude.{
  ℕ, zero, suc, ◌+◌, ◌<◌, ◌≡◌, refl, ◌∙◌, Bool, true, false, not, ◌&&◌, List, [], ◌∷◌, Option, some,
  none, length, leb, arith, if◌then◌else◌, Bool-cases, inl, inr,
}
use computer_systems.Malloc.Implicit.{Heap, get_size, is_allocated, in_list, fit_loop}
use computer_systems.Malloc.Implicit.Blocks.{
  Block, AreBlocks, last_from, last_from-ge, Holds, Holds-tail, read-size, read-used,
}

abbrev pub fits : ℕ → Block → Bool
fits size b = not b.used && leb size b.size

-- The address of the first block that fits.
unfoldable pub fit_at : ℕ → ℕ → List Block → Option ℕ
fit_at size a [] = none
fit_at size a (b ∷ bs) =
    let later = fit_at size (a + b.size) bs in if fits size b then some a else later

module _ (size a end : ℕ) (p : Block) (bs : List Block) (h : Heap) (z : 0 < a)
    (k : Holds a end p bs h) where
  here : in_list a h ≡ true
  here = ground (arith, k.last, last_from-ge a p bs)

  tests : (not (is_allocated a h) && leb size (get_size a h)) ≡ fits size p
  tests = rw (read-used a end p bs h.words k.blocks, read-size a end p bs h.words k.blocks) refl

  fit_loop-here : (n : ℕ) → fits size p ≡ true → fit_loop (suc n) a size h ≡ some (some a)
  unfolding fit_loop
  fit_loop-here n f = rw (here, tests, f) refl

  fit_loop-next :
      (n : ℕ) → fits size p ≡ false → fit_loop (suc n) a size h ≡ fit_loop n (a + p.size) size h
  unfolding fit_loop
  fit_loop-next n f = rw (here, tests, f, read-size a end p bs h.words k.blocks) refl

fit_loop-outside :
    (n curr size : ℕ) (h : Heap) → in_list curr h ≡ false → fit_loop (suc n) curr size h ≡ some none
unfolding fit_loop
fit_loop-outside n curr size h out = rw out refl

pub fit_loop-first :
    (n size a end : ℕ) (p : Block) (bs : List Block) (h : Heap)
    → length bs + 1 < n
    → 0 < a
    → Holds a end p bs h
    → fit_loop n a size h ≡ some (fit_at size a (p ∷ bs))
unfolding fit_at AreBlocks last_from
fit_loop-first zero size a end p bs h l z k = absurd (omega arith)
fit_loop-first (suc zero) size a end p bs h l z k = absurd (omega arith)
fit_loop-first (suc (suc n)) size a end p [] h l z k = elim (Bool-cases (fits size p)) [
  | inl f ↦ fit_loop-here size a end p [] h z k (suc n) f ∙ rw f refl
  | inr f ↦
      let (w, pos, even, rest) = k.blocks in
      let out : in_list (a + p.size) h ≡ false = ground (arith, k.last) in
      fit_loop-next size a end p [] h z k (suc n) f
      ∙ fit_loop-outside n (a + p.size) size h out
      ∙ rw f refl
]
fit_loop-first (suc (suc n)) size a end p (c ∷ cs) h l z k = elim (Bool-cases (fits size p)) [
  | inl f ↦ fit_loop-here size a end p (c ∷ cs) h z k (suc n) f ∙ rw f refl
  | inr f ↦
      fit_loop-next size a end p (c ∷ cs) h z k (suc n) f
      ∙ fit_loop-first (suc n) size (a + p.size) end c cs h (omega arith) (omega arith)
          (Holds-tail a end p c cs h k)
      ∙ rw f refl
]
