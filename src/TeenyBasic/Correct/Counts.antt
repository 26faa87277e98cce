-- ===== src/TeenyBasic/Correct/Counts.antt =====
-- assembly-compiler/src/compile.c: how often each label stands in the code of an if or while
-- statement.
use computer_systems.Prelude.{
  ℕ, ◌+◌, ◌≤◌, ◌≡◌, Bool, ◌&&◌, List, ◌++◌, ltb, leb, arith, Bool-cases, inl, inr, ◌==◌,
  if◌then◌else◌,
}
use computer_systems.TeenyBasic.Asm.{
  Label, if_label, else_label, end_if, start_while, while_label, while_end, Instr,
}
use computer_systems.TeenyBasic.Statements.{Counters, branch, if_code, while_code}
use computer_systems.TeenyBasic.Machine.{kind, number, label_eq}
use computer_systems.TeenyBasic.Machine.At.{count, count-append}

-- 1 for the numbers behind the first one up to the second one, 0 for the others.
pub between : ℕ → ℕ → ℕ → ℕ
between lo hi n = if ltb lo n && leb n hi then 1 else 0

between-add :
    (lo mid hi n : ℕ) → lo ≤ mid → mid ≤ hi → between lo mid n + between mid hi n ≤ between lo hi n
unfolding between
between-add lo mid hi n h k = ground arith

-- The first number and the ones behind it.
between-first :
    (lo hi n : ℕ)
    → lo + 1 ≤ hi
    → (if n == lo + 1 then 1 else 0) + between (lo + 1) hi n ≤ between lo hi n
unfolding between
between-first lo hi n h = ground arith

-- The labels whose numbers the counters have run through.
abbrev pub room : Counters → Counters → Label → ℕ
room k k' l =
    if ltb (kind l) 3
    then between k.if_local k'.if_local (number l)
    else between k.while_local k'.while_local (number l)

-- The counters only grow, and each label stands at most once.
pub record Counted (k : Counters) (code : List Instr) (k' : Counters) : Type 0 where
  pub ifs : k.if_local ≤ k'.if_local
  pub whiles : k.while_local ≤ k'.while_local
  pub once : (l : Label) → count l code ≤ room k k' l

pub Counted-plain :
    (k : Counters) (code : List Instr) → ((l : Label) → count l code ≡ 0) → Counted k code k
Counted-plain k code h = record {
  ifs = omega arith;
  whiles = omega arith;
  once = λ l. omega (arith, h l);
}

room-add :
    (k k₁ k₂ : Counters) (l : Label)
    → k.if_local ≤ k₁.if_local
    → k₁.if_local ≤ k₂.if_local
    → k.while_local ≤ k₁.while_local
    → k₁.while_local ≤ k₂.while_local
    → room k k₁ l + room k₁ k₂ l ≤ room k k₂ l
room-add k k₁ k₂ l a b c d = elim (Bool-cases (ltb (kind l) 3)) [
  | inl ifs ↦ rw ifs (between-add k.if_local k₁.if_local k₂.if_local (number l) a b)
  | inr whiles ↦ rw whiles (between-add k.while_local k₁.while_local k₂.while_local (number l) c d)
]

pub Counted-append :
    (k k₁ k₂ : Counters) (xs ys : List Instr)
    → Counted k xs k₁
    → Counted k₁ ys k₂
    → Counted k (xs ++ ys) k₂
Counted-append k k₁ k₂ xs ys a b = record {
  ifs = omega (arith, a.ifs, b.ifs);
  whiles = omega (arith, a.whiles, b.whiles);
  once = λ l. omega (
    arith,
    count-append l xs ys,
    a.once l,
    b.once l,
    room-add k k₁ k₂ l a.ifs b.ifs a.whiles b.whiles,
  );
}

count-branch : (l yes_label no_label : Label) (op : ℕ) → count l (branch op yes_label no_label) ≡ 0
unfolding count branch
count-branch l yes_label no_label op = ground arith

module _ (log2 : ℕ → ℕ) (l : Label) (n op : ℕ) where
  count-if_code :
      (with_else : Bool) (condition then_code else_code : List Instr)
      → count l condition ≡ 0
      → count l (if_code log2 n op with_else condition then_code else_code)
        ≡ (if label_eq l (if_label n) then 1 else 0)
          + (count l then_code
              + ((if label_eq l (else_label n) then 1 else 0)
                  + (count l else_code + (if label_eq l (end_if n) then 1 else 0))))
  unfolding count if_code
  count-if_code with_else condition then_code else_code h =
      simp (count-append, h, count-branch) (omega arith)

  count-while_code :
      (condition body : List Instr)
      → count l condition ≡ 0
      → count l (while_code log2 n op condition body)
        ≡ (if label_eq l (start_while n) then 1 else 0)
          + ((if label_eq l (while_label n) then 1 else 0)
              + (count l body + (if label_eq l (while_end n) then 1 else 0)))
  unfolding count while_code
  count-while_code condition body h = simp (count-append, h, count-branch) (omega arith)

module _ (k k₁ k₂ : Counters) (log2 : ℕ → ℕ) (op : ℕ) where
  once-if :
      (with_else : Bool) (condition then_code else_code : List Instr)
      → ((l : Label) → count l condition ≡ 0)
      → Counted (record k { if_local = k.if_local + 1 }) then_code k₁
      → Counted k₁ else_code k₂
      → (l : Label)
      → count l (if_code log2 (k.if_local + 1) op with_else condition then_code else_code)
        ≤ room k k₂ l
  once-if with_else condition then_code else_code h a b l = ground (
    arith,
    count-if_code log2 l (k.if_local + 1) op with_else condition then_code else_code (h l),
    a.once l,
    b.once l,
    a.ifs,
    b.ifs,
    a.whiles,
    b.whiles,
    between-add (k.if_local + 1) k₁.if_local k₂.if_local (number l),
    between-first k.if_local k₂.if_local (number l),
    between-add k.while_local k₁.while_local k₂.while_local (number l),
  )

  pub Counted-if :
      (with_else : Bool) (condition then_code else_code : List Instr)
      → ((l : Label) → count l condition ≡ 0)
      → Counted (record k { if_local = k.if_local + 1 }) then_code k₁
      → Counted k₁ else_code k₂
      → Counted k (if_code log2 (k.if_local + 1) op with_else condition then_code else_code) k₂
  Counted-if with_else condition then_code else_code h a b = record {
    ifs = omega (arith, a.ifs, b.ifs);
    whiles = omega (arith, a.whiles, b.whiles);
    once = λ l. once-if with_else condition then_code else_code h a b l;
  }

  once-while :
      (condition body : List Instr)
      → ((l : Label) → count l condition ≡ 0)
      → Counted (record k { while_local = k.while_local + 1 }) body k₁
      → (l : Label) → count l (while_code log2 (k.while_local + 1) op condition body) ≤ room k k₁ l
  once-while condition body h a l = ground (
    arith,
    count-while_code log2 l (k.while_local + 1) op condition body (h l),
    a.once l,
    a.ifs,
    a.whiles,
    between-first k.while_local k₁.while_local (number l),
  )

  pub Counted-while :
      (condition body : List Instr)
      → ((l : Label) → count l condition ≡ 0)
      → Counted (record k { while_local = k.while_local + 1 }) body k₁
      → Counted k (while_code log2 (k.while_local + 1) op condition body) k₁
  Counted-while condition body h a = record {
    ifs = omega (arith, a.ifs);
    whiles = omega (arith, a.whiles);
    once = λ l. once-while condition body h a l;
  }

pub room-le : (k k' : Counters) (l : Label) → room k k' l ≤ 1
unfolding between
room-le k k' l = ground arith
