-- ===== src/Malloc/Implicit/Live.antt =====
-- malloc/src/mm-implicit.c: the blocks that are in use, as a map from their payloads to their sizes.
use mathlib.Core.Path.{subst}
use computer_systems.Prelude.{
  ℕ, ◌+◌, ◌-◌, ◌≤◌, ◌<◌, ◌≡◌, refl, sym, ap, ◌∙◌, true, false, not, ◌&&◌, List, [], ◌∷◌, ◌++◌,
  Option, some, none, ltb, arith, ◌==◌, if◌then◌else◌, Bool-cases, inl, inr,
}
use computer_systems.Malloc.Implicit.Blocks.{Block, AreBlocks, AreBlocks-le, unused_block}
use computer_systems.Malloc.Implicit.Coalesce.{merged}
use computer_systems.Malloc.Implicit.Fit.{fits, fit_at}
use computer_systems.Malloc.Implicit.Place.{used_block, split_at_fit}
use computer_systems.Malloc.Implicit.Free.{freed}

-- The size of the block in use at an address.
unfoldable pub live : ℕ → ℕ → List Block → Option ℕ
live x a [] = none
live x a (b ∷ bs) =
    let later = live x (a + b.size) bs in if b.used && (a == x) then some b.size else later

pub live-merged :
    (x a : ℕ) (p : Block) (bs : List Block)
    → live x a ((merged p bs).0 ∷ (merged p bs).1) ≡ live x a (p ∷ bs)
unfolding live merged
live-merged x a p [] = refl
live-merged x a p (c ∷ cs) = elim (Bool-cases (not p.used && not c.used)) [
  | inl both ↦
      let free_p : p.used ≡ false = ground arith in
      let free_c : c.used ≡ false = ground arith in
      let joined = live-merged x a (unused_block (p.size + c.size)) cs in
      let assoc : a + (p.size + c.size) ≡ a + p.size + c.size = omega arith in
      rw (both, free_p, free_c) (joined ∙ ap (λ b. live x b cs) assoc)
  | inr other ↦
      rw other
        (ap (λ m. if p.used && (a == x) then some p.size else m) (live-merged x (a + p.size) c cs))
]

fit_at-ge : (size a block : ℕ) (bs : List Block) → fit_at size a bs ≡ some block → a ≤ block
unfolding fit_at
fit_at-ge size a block [] f = absurd (cc f)
fit_at-ge size a block (b ∷ bs) f = elim (Bool-cases (fits size b)) [
  | inl fit ↦ ground arith
  | inr misfit ↦
      let later = fit_at-ge size (a + b.size) block bs (rw misfit at f) in omega (arith, later)
]

-- No block starts in front of the first one, or at the end.
live-before : (x a : ℕ) (bs : List Block) → x < a → live x a bs ≡ none
unfolding live
live-before x a [] l = refl
live-before x a (b ∷ bs) l =
    let other : (b.used && (a == x)) ≡ false = ground arith in
    rw other (live-before x (a + b.size) bs (omega arith))

pub live-snoc :
    (words : ℕ → ℕ) (x a end size : ℕ) (bs : List Block)
    → AreBlocks words a end bs
    → live x a (bs ++ used_block size ∷ []) ≡ (if end == x then some size else live x a bs)
unfolding live AreBlocks
live-snoc words x a end size [] h = ap (λ e. if e == x then some size else none) h
live-snoc words x a end size (b ∷ bs) (w, nonzero, even, rest) =
    let below = AreBlocks-le words (a + b.size) end bs rest in
    let later = live-snoc words x (a + b.size) end size bs rest in
    elim (Bool-cases (b.used && (a == x))) [
      | inl here ↦ let other : (end == x) ≡ false = ground arith in rw (here, other) refl
      | inr elsewhere ↦ rw elsewhere later
    ]

split_at_fit-first :
    (size : ℕ) (p : Block) (bs : List Block)
    → fits size p ≡ true
    → split_at_fit size p bs ≡ (
        if ltb size p.size
        then (used_block size, unused_block (p.size - size) ∷ bs)
        else (used_block p.size, bs))
unfolding split_at_fit
split_at_fit-first size p [] f = rw f refl
split_at_fit-first size p (c ∷ cs) f = rw f refl

-- A block has come into use.
pub record Added (size block a : ℕ) (p : Block) (bs : List Block) (q : Block × List Block)
    : Type 0 where
  pub given : ℕ
  pub large : size ≤ given
  pub map : (x : ℕ) → live x a (q.0 ∷ q.1) ≡ (if block == x then some given else live x a (p ∷ bs))

live-first :
    (size a : ℕ) (p : Block) (bs : List Block)
    → fits size p ≡ true
    → Added size a a p bs (split_at_fit size p bs)
unfolding live
live-first size a p bs f =
    let free_p : p.used ≡ false = ground arith in
    subst (Added size a a p bs) (sym (split_at_fit-first size p bs f))
      (elim (Bool-cases (ltb size p.size)) [
        | inl less ↦ rw less (record {
          given = size;
          large = omega arith;
          map = λ x.
              let assoc : a + size + (p.size - size) ≡ a + p.size = ground arith in
              rw (free_p, assoc) refl;
        })
        | inr whole ↦
            rw whole (record { given = p.size; large = ground arith; map = λ x. rw free_p refl })
      ])

Added-later :
    (size block a : ℕ) (p c : Block) (cs : List Block)
    → fits size p ≡ false
    → a + p.size ≤ block
    → 0 < p.size
    → Added size block (a + p.size) c cs (split_at_fit size c cs)
    → Added size block a p (c ∷ cs) (split_at_fit size p (c ∷ cs))
unfolding live split_at_fit
Added-later size block a p c cs misfit behind nonzero later =
    let m : split_at_fit size p (c ∷ cs)
        ≡ (p, (split_at_fit size c cs).0 ∷ (split_at_fit size c cs).1) =
      rw misfit refl in
    subst (Added size block a p (c ∷ cs)) (sym m) (record {
      given = later.given;
      large = later.large;
      map = λ x. elim (Bool-cases (p.used && (a == x))) [
        | inl here ↦ let other : (block == x) ≡ false = ground arith in rw (here, other) refl
        | inr elsewhere ↦ rw elsewhere (later.map x)
      ];
    })

pub live-split_at_fit :
    (words : ℕ → ℕ) (size a end block : ℕ) (p : Block) (bs : List Block)
    → AreBlocks words a end (p ∷ bs)
    → fit_at size a (p ∷ bs) ≡ some block
    → Added size block a p bs (split_at_fit size p bs)
unfolding fit_at AreBlocks
live-split_at_fit words size a end block p [] h f = elim (Bool-cases (fits size p)) [
  | inl fit ↦
      let same : a ≡ block = ground arith in
      subst (λ b. Added size b a p [] (split_at_fit size p [])) same (live-first size a p [] fit)
  | inr misfit ↦ absurd (ground arith)
]
live-split_at_fit words size a end block p (c ∷ cs) (w, nonzero, even, rest) f =
    elim (Bool-cases (fits size p)) [
      | inl fit ↦
          let same : a ≡ block = ground arith in
          subst (λ b. Added size b a p (c ∷ cs) (split_at_fit size p (c ∷ cs))) same
            (live-first size a p (c ∷ cs) fit)
      | inr misfit ↦
          let found : fit_at size (a + p.size) (c ∷ cs) ≡ some block = rw misfit at f in
          Added-later size block a p c cs misfit (fit_at-ge size (a + p.size) block (c ∷ cs) found)
            nonzero (live-split_at_fit words size (a + p.size) end block c cs rest found)
    ]

pub live-freed :
    (words : ℕ → ℕ) (x ptr a end : ℕ) (p : Block) (bs : List Block)
    → AreBlocks words a end (p ∷ bs)
    → live x a ((freed ptr a p bs).0 ∷ (freed ptr a p bs).1)
      ≡ (if x + 8 == ptr then none else live x a (p ∷ bs))
unfolding live freed AreBlocks
live-freed words x ptr a end p [] h = ground arith
live-freed words x ptr a end p (c ∷ cs) (w, nonzero, even, rest) =
    elim (Bool-cases (a + 8 == ptr)) [
      | inl here ↦ elim (Bool-cases (a == x)) [
        | inl same ↦
            let hit : (x + 8 == ptr) ≡ true = ground arith in
            rw (here, hit) (live-before x (a + p.size) (c ∷ cs) (ground arith))
        | inr apart ↦
            let miss : (x + 8 == ptr) ≡ false = ground arith in
            let skip : (p.used && (a == x)) ≡ false = ground arith in rw (here, miss, skip) refl
      ]
      | inr other ↦
          let later = live-freed words x ptr (a + p.size) end c cs rest in
          elim (Bool-cases (p.used && (a == x))) [
            | inl here ↦
                let miss : (x + 8 == ptr) ≡ false = ground arith in rw (other, here, miss) refl
            | inr skip ↦ rw (other, skip) later
          ]
    ]
