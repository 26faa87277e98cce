-- ===== src/TeenyBasic/Machine/At.antt =====
-- assembly-compiler/src/compile.c: pieces of code at their place in a program.
use mathlib.Core.List.{append_assoc}
use computer_systems.Prelude.{
  ℕ, zero, suc, ◌+◌, ◌≤◌, ◌≡◌, refl, sym, ap, ◌∙◌, true, List, [], ◌∷◌, ◌++◌, some, length,
  get_elem?, drop, arith, Bool-cases, inl, inr, if◌then◌else◌, length-append, drop-append,
  drop-drop,
}
use computer_systems.TeenyBasic.Asm.{Label, Instr, label}
use computer_systems.TeenyBasic.Machine.{label_eq, is_label, find_label}

-- How often a label stands in the code.
unfoldable pub count : Label → List Instr → ℕ
count l [] = 0
count l (i ∷ code) = (if is_label l i then 1 else 0) + count l code

pub count-append : (l : Label) (xs ys : List Instr) → count l (xs ++ ys) ≡ count l xs + count l ys
unfolding count
count-append l [] ys = omega arith
count-append l (i ∷ xs) ys = omega (arith, count-append l xs ys)

-- The code stands in the program from one line on up to another one.
pub record At (program : List Instr) (pc : ℕ) (code : List Instr) (end : ℕ) : Type 0 where
  pub rest : List Instr
  pub here : drop pc program ≡ code ++ rest
  pub stop : end ≡ pc + length code

get_elem?-drop {ℓ} :
    {A : Type ℓ} (n : ℕ) (xs : List A) {x : A} {ys : List A}
    → drop n xs ≡ x ∷ ys
    → get_elem? xs n ≡ some x
get_elem?-drop zero [] h = absurd (cc h)
get_elem?-drop zero (y ∷ xs) h = cc h
get_elem?-drop (suc n) [] h = absurd (cc h)
get_elem?-drop (suc n) (y ∷ xs) h = get_elem?-drop n xs h

module _ {program : List Instr} {pc end : ℕ} where
  pub At-nil : At program pc [] end → end ≡ pc
  At-nil a = omega (arith, a.stop)

  pub At-head :
      {i : Instr} {code : List Instr} → At program pc (i ∷ code) end → get_elem? program pc ≡ some i
  At-head a = get_elem?-drop pc program a.here

  pub At-tail :
      {i : Instr} {code : List Instr} → At program pc (i ∷ code) end → At program (suc pc) code end
  At-tail {code} a = record {
    rest = a.rest;
    here =
        ap (λ n. drop n program) {x = suc pc} {y = pc + 1} (omega arith)
        ∙ sym (drop-drop pc 1 program)
        ∙ ap (drop 1) a.here;
    stop = omega (arith, a.stop);
  }

  pub At-append :
      (xs ys : List Instr)
      → At program pc (xs ++ ys) end
      → (mid : ℕ) × At program pc xs mid × At program mid ys end
  At-append xs ys a = (
    pc + length xs,
    record { rest = ys ++ a.rest; here = a.here ∙ append_assoc xs ys a.rest; stop = refl },
    record {
      rest = a.rest;
      here =
          sym (drop-drop pc (length xs) program)
          ∙ ap (drop (length xs)) (a.here ∙ append_assoc xs ys a.rest)
          ∙ drop-append xs (ys ++ a.rest);
      stop = omega (arith, a.stop, length-append {0} xs ys);
    },
  )

label_eq_refl : (l : Label) → label_eq l l ≡ true
label_eq_refl l = ground arith

-- A label that stands once is found where it stands.
count-some :
    (l : Label) (code : List Instr) (pc : ℕ) → get_elem? code pc ≡ some (label l) → 1 ≤ count l code
unfolding count
count-some l [] pc h = absurd (cc h)
count-some l (i ∷ code) zero h = let e : i ≡ label l = cc h in rw (e, label_eq_refl l) (omega arith)
count-some l (i ∷ code) (suc pc) h = omega (arith, count-some l code pc h)

pub find_label-once :
    (l : Label) (code : List Instr) (pc : ℕ)
    → get_elem? code pc ≡ some (label l)
    → count l code ≤ 1
    → find_label l code ≡ some pc
unfolding find_label count
find_label-once l [] pc h once = absurd (cc h)
find_label-once l (i ∷ code) zero h once =
    let e : i ≡ label l = cc h in rw (e, label_eq_refl l) refl
find_label-once l (i ∷ code) (suc pc) h once = elim (Bool-cases (is_label l i)) [
  | inl same ↦
      let twice : count l (i ∷ code) ≡ 1 + count l code = rw same refl in
      absurd (omega (arith, twice, count-some l code pc h))
  | inr other ↦
      let fewer : count l (i ∷ code) ≡ count l code = rw other (omega arith) in
      rw (other, find_label-once l code pc h (omega (arith, fewer))) refl
]
