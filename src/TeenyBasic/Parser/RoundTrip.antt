-- ===== src/TeenyBasic/Parser/RoundTrip.antt =====
-- assembly-compiler/src/parser.c: `expression` reads back the text of an expression.
use computer_systems.Prelude.{
  ℕ, ◌+◌, ◌<◌, ◌^◌, ◌≡◌, refl, ap, ◌∙◌, true, false, ◌||◌, ◌∷◌, ◌++◌, Option, some, ◌==◌, arith,
  Bool-cases, inl, inr,
}
use computer_systems.TeenyBasic.Ast.{Expr, init_binary_node, init_var_node}
use computer_systems.TeenyBasic.Ast
use computer_systems.TeenyBasic.Lexer.{
  Bytes, advance, isspace, is_operator, is_open_paren, is_close_paren, is_factor_op, is_term_op,
  is_variable_name,
}
use computer_systems.TeenyBasic.Lexer.Words.{
  is_boundary, drop_separator, skip_spaces, skip_spaces-drop_separator, skip_spaces-skip_spaces,
  first, is_clean, try_advance-taken, try_advance-left,
}
use computer_systems.TeenyBasic.Number.Signed.{show_num, show_num-Number, num-show_num}
use computer_systems.TeenyBasic.Parser.{
  close_paren, variable_or_num, factor, term, term_loop, expression, expression_loop,
}
use computer_systems.TeenyBasic.Parser.Print.{show, IsSource}
use computer_systems.TeenyBasic.Parser.Loops.{
  Gives, term_loop-same, expression_loop-same, term_loop-ends, expression_loop-ends, term_loop-op,
  expression_loop-op, Gives-from, first-byte, clean-byte,
}

-- What the descent makes of the text of an expression at each level, in front of a text that ends a
-- word: `factor` reads it, and `term` and `expression` go on with their loops behind it.
ReadsFactor : Expr → Type 0
ReadsFactor e =
    (rest : Bytes)
    → is_boundary rest ≡ true
    → (after : Bytes) × (skip_spaces after ≡ skip_spaces rest)
      × Gives (λ n. factor n (show 2 e rest)) (some e, after)

ReadsTerm : Expr → Type 0
ReadsTerm e =
    (rest : Bytes) (result : Option Expr × Bytes)
    → is_boundary rest ≡ true
    → Gives (λ n. term_loop n (some e) rest) result
    → Gives (λ n. term n (show 1 e rest)) result

ReadsExpression : Expr → Type 0
ReadsExpression e =
    (rest : Bytes) (result : Option Expr × Bytes)
    → is_boundary rest ≡ true
    → is_factor_op (first rest) ≡ false
    → is_clean rest ≡ true
    → Gives (λ n. expression_loop n (some e) rest) result
    → Gives (λ n. expression n (show 0 e rest)) result

ReadsTerm-of_factor :
    (e : Expr) → ((rest : Bytes) → show 1 e rest ≡ show 2 e rest) → ReadsFactor e → ReadsTerm e
unfolding ReadsTerm ReadsFactor term
ReadsTerm-of_factor e same reads rest result b g =
    let (after, spaces, f) = reads rest b in
    Gives-from (λ n. term n (show 1 e rest)) result (f.enough + g.enough)
      λ n le.
        rw (same rest, f.gives n (omega arith), term)
          (term_loop-same n (some e) after rest spaces ∙ g.gives n (omega arith))

-- `term` on a text behind which no operator of a term follows.
term-Gives :
    (e : Expr) (rest : Bytes)
    → ReadsTerm e
    → is_boundary rest ≡ true
    → is_factor_op (first rest) ≡ false
    → is_clean rest ≡ true
    → Gives (λ n. term n (show 1 e rest)) (some e, skip_spaces rest)
unfolding ReadsTerm
term-Gives e rest reads b f c =
    reads rest (some e, skip_spaces rest) b
      (Gives-from (λ n. term_loop n (some e) rest) (some e, skip_spaces rest) 0
        λ n le. term_loop-ends n (some e) rest f c)

ReadsExpression-of_term :
    (e : Expr) → ((rest : Bytes) → show 0 e rest ≡ show 1 e rest) → ReadsTerm e → ReadsExpression e
unfolding ReadsExpression expression
ReadsExpression-of_term e same reads rest result b f c g =
    let t = term-Gives e rest reads b f c in
    Gives-from (λ n. expression n (show 0 e rest)) result (t.enough + g.enough)
      λ n le.
        rw (same rest, t.gives n (omega arith), expression)
          (expression_loop-same n (some e) (skip_spaces rest) rest (skip_spaces-skip_spaces rest)
            ∙ g.gives n (omega arith))

close_paren-close : (e : Option Expr) (rest : Bytes) → close_paren e (b')' ∷ rest) ≡ (e, rest)
unfolding close_paren
close_paren-close e rest = rw (try_advance-taken is_close_paren b')' rest refl refl) refl

ReadsFactor-of_expression :
    (e : Expr)
    → ((rest : Bytes) → show 2 e rest ≡ b'(' ∷ show 0 e (b')' ∷ rest))
    → ReadsExpression e
    → ReadsFactor e
unfolding ReadsFactor ReadsExpression factor skip_spaces is_clean advance
ReadsFactor-of_expression e same reads rest b =
    let inner = b')' ∷ rest in
    let ends : Gives (λ n. expression_loop n (some e) inner) (some e, inner) =
      Gives-from _ (some e, inner) 0 (λ n le. expression_loop-ends n (some e) inner refl refl) in
    let g = reads inner (some e, inner) refl refl refl ends in
    (
      rest,
      refl,
      Gives-from (λ n. factor n (show 2 e rest)) (some e, rest) g.enough
          λ n le.
            rw
              (
                same rest,
                try_advance-taken is_open_paren b'(' (show 0 e inner) refl refl,
                g.gives n le,
                factor,
              )
              (ap some (close_paren-close (some e) rest)),
    )

-- The levels of an expression whose operator is one of a term.
record Reads (e : Expr) : Type 0 where
  factors : ReadsFactor e
  terms : ReadsTerm e
  expressions : ReadsExpression e

module _ (op : ℕ) (l r : Expr) (left : Reads l) (right : Reads r) where
  terms-binary : is_factor_op op ≡ true → ReadsTerm (Ast.binary op l r)
  unfolding ReadsTerm ReadsFactor show init_binary_node
  terms-binary h rest result b g =
      let (after, spaces, f) = right.factors rest b in
      let next : is_operator op ≡ true = ground arith in
      let loop =
        Gives-from (λ n. term_loop n (some l) (op ∷ show 2 r rest)) result (f.enough + g.enough)
          λ n le.
            term_loop-op n op (some l) (some r) (show 2 r rest) after h (f.gives n (omega arith))
            ∙ term_loop-same n (some (Ast.binary op l r)) after rest spaces
            ∙ g.gives n (omega arith) in
      rw (h, show) (left.terms (op ∷ show 2 r rest) result (ground arith) loop)

  expressions-binary :
      is_factor_op op ≡ false → is_term_op op ≡ true → ReadsExpression (Ast.binary op l r)
  unfolding ReadsExpression show init_binary_node
  expressions-binary factors h rest result b f c g =
      let t = term-Gives r rest right.terms b f c in
      let solid : isspace op ≡ false = ground arith in
      let read : first (op ∷ show 1 r rest) ≡ op = first-byte op (show 1 r rest) solid in
      let loop =
        Gives-from (λ n. expression_loop n (some l) (op ∷ show 1 r rest)) result
          (t.enough + g.enough)
          λ n le.
            expression_loop-op n op (some l) (some r) (show 1 r rest) (skip_spaces rest) h
              (t.gives n (omega arith))
            ∙ expression_loop-same n (some (Ast.binary op l r)) (skip_spaces rest) rest
                (skip_spaces-skip_spaces rest)
            ∙ g.gives n (omega arith) in
      rw (factors, show)
        (left.expressions (op ∷ show 1 r rest) result (ground arith)
          (ap is_factor_op read ∙ factors) (clean-byte op (show 1 r rest) solid (ground arith))
          loop)

  Reads-binary : ((is_factor_op op || is_term_op op) ≡ true) → Reads (Ast.binary op l r)
  unfolding show
  Reads-binary h = elim (Bool-cases (is_factor_op op)) [
    | inl factors ↦
        let t = terms-binary factors in
        let e = ReadsExpression-of_term (Ast.binary op l r) (λ rest. rw factors refl) t in
        record {
          factors = ReadsFactor-of_expression (Ast.binary op l r) (λ rest. rw factors refl) e;
          terms = t;
          expressions = e;
        }
    | inr terms ↦
        let e = expressions-binary terms (ground arith) in
        let f = ReadsFactor-of_expression (Ast.binary op l r) (λ rest. rw terms refl) e in
        record {
          factors = f;
          terms = ReadsTerm-of_factor (Ast.binary op l r) (λ rest. rw terms refl) f;
          expressions = e;
        }
  ]

-- A leaf is read as a factor.
Reads-leaf :
    (e : Expr)
    → ((rest : Bytes) → show 1 e rest ≡ show 2 e rest)
    → ((rest : Bytes) → show 0 e rest ≡ show 1 e rest)
    → ReadsFactor e
    → Reads e
Reads-leaf e same same' f =
    let t = ReadsTerm-of_factor e same f in
    record { factors = f; terms = t; expressions = ReadsExpression-of_term e same' t }

factors-num : (v : ℕ) → v < 2 ^ 64 → ReadsFactor (Ast.num v)
unfolding ReadsFactor show factor variable_or_num
factors-num v h rest b =
    let n = show_num-Number v h in
    let (paren, name) = n.other in
    let whole_text = n.head ∷ (n.others ++ rest) in
    let e = rw n.shape at (num-show_num v rest h b) in
    (
      drop_separator rest,
      skip_spaces-drop_separator rest b,
      Gives-from (λ n. factor n (show_num v ++ rest)) (some (Ast.num v), drop_separator rest) 0
          λ m le.
            rw
              (
                n.shape,
                try_advance-left is_open_paren n.head (n.others ++ rest) n.solid paren n.nonzero,
                try_advance-left is_variable_name n.head (n.others ++ rest) n.solid name n.nonzero,
                factor,
                variable_or_num,
              )
              (ap some e),
    )

factors-var : (x : ℕ) → is_variable_name x ≡ true → ReadsFactor (Ast.var x)
unfolding ReadsFactor show factor variable_or_num init_var_node
factors-var x h rest b =
    let solid : isspace x ≡ false = ground arith in
    let nonzero : (x == 0) ≡ false = ground arith in
    let paren : is_open_paren x ≡ false = ground arith in
    (
      rest,
      refl,
      Gives-from (λ n. factor n (x ∷ rest)) (some (Ast.var x), rest) 0
          λ m le.
            rw
              (
                try_advance-left is_open_paren x rest solid paren nonzero,
                try_advance-taken is_variable_name x rest solid h,
                nonzero,
                factor,
                variable_or_num,
              )
              refl,
    )

show-Reads : (e : Expr) → IsSource e → Reads e
unfolding IsSource show
show-Reads (Ast.num v) h = Reads-leaf (Ast.num v) (λ rest. refl) (λ rest. refl) (factors-num v h)
show-Reads (Ast.var x) h = Reads-leaf (Ast.var x) (λ rest. refl) (λ rest. refl) (factors-var x h)
show-Reads (Ast.binary op l r) (h, hl, hr) =
    Reads-binary op l r (show-Reads l hl) (show-Reads r hr) h

-- `expression` reads back the text of an expression, in front of a text that ends a word and begins,
-- behind its white space, with no operator of an expression. Precedence and grouping are those of the
-- tree.
pub expression-show :
    (e : Expr) (rest : Bytes)
    → IsSource e
    → is_boundary rest ≡ true
    → is_factor_op (first rest) ≡ false
    → is_term_op (first rest) ≡ false
    → is_clean rest ≡ true
    → Gives (λ n. expression n (show 0 e rest)) (some e, skip_spaces rest)
unfolding ReadsExpression
expression-show e rest h b f t c =
    let r = show-Reads e h in
    r.expressions rest (some e, skip_spaces rest) b f c
      (Gives-from (λ n. expression_loop n (some e) rest) (some e, skip_spaces rest) 0
        λ n le. expression_loop-ends n (some e) rest t c)
