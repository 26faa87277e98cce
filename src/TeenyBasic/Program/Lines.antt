-- ===== src/TeenyBasic/Program/Lines.antt =====
-- assembly-compiler/src/parser.c: the lines of a program, read one by one.
use computer_systems.Prelude.{
  ℕ, zero, suc, ◌+◌, ◌≤◌, ◌<◌, ◌≡◌, refl, ap, ◌∙◌, true, false, ◌||◌, [], ◌∷◌, ◌++◌, Option, none,
  some, ◌==◌, length, arith,
}
use computer_systems.Prelude.Text.{str_eq}
use computer_systems.TeenyBasic.Ast.{
  Condition, Expr, Statement, print, let_node, init_print_node, init_let_node, init_condition,
}
use computer_systems.TeenyBasic.Lexer.{
  Bytes, advance, try_advance, advance_until_separator, read_word, isspace, isupper,
  is_comment_start, is_factor_op, is_term_op, is_comparison_op, is_variable_name,
}
use computer_systems.TeenyBasic.Lexer.Words.{
  all_plain, drop_separator, skip_spaces, first, is_clean, skip_spaces-byte, advance-byte,
  try_advance-taken, try_advance-left, advance_until_separator-word,
}
use computer_systems.TeenyBasic.Parser.{Parse, expression, comparison}
use computer_systems.TeenyBasic.Parser.Print.{show, IsSource}
use computer_systems.TeenyBasic.Parser.Loops.{Gives, first-byte, clean-byte}
use computer_systems.TeenyBasic.Parser.RoundTrip.{expression-show}
use computer_systems.TeenyBasic.Program.{
  else_word, end_word, if_word, while_word, skip_comments, print_statement, let_statement,
  end_statement, statement_with, statement,
}
use computer_systems.TeenyBasic.Program.Pieces.{statement-word}
use computer_systems.TeenyBasic.Program.Print.{end_line, show_condition, IsCondition, is_start}

-- Behind the end of a line a text that begins with a capital letter has nothing that an expression
-- could go on with.
record Line (s : Bytes) : Type 0 where
  no_factor : is_factor_op (first (b'\n' ∷ s)) ≡ false
  no_term : is_term_op (first (b'\n' ∷ s)) ≡ false
  clean : is_clean (b'\n' ∷ s) ≡ true
  spaces : skip_spaces (b'\n' ∷ s) ≡ s

is_start-Line : (s : Bytes) → is_start s ≡ true → Line s
unfolding is_start advance is_clean skip_spaces
is_start-Line [] h = record { no_factor = refl; no_term = refl; clean = refl; spaces = refl }
is_start-Line (c ∷ s) h = record {
  no_factor = ground arith;
  no_term = ground arith;
  clean = ground arith;
  spaces = ground arith;
}

pub expression_line :
    (e : Expr) (rest : Bytes)
    → IsSource e
    → is_start rest ≡ true
    → Gives (λ n. expression n (show 0 e (b'\n' ∷ rest))) (some e, rest)
expression_line e rest h s =
    let l = is_start-Line rest s in
    let g = expression-show e (b'\n' ∷ rest) h refl l.no_factor l.no_term l.clean in
    record { enough = g.enough; gives = λ n le. g.gives n le ∙ ap (λ t. some (some e, t)) l.spaces }

pub comparison_line :
    (c : Condition Expr) (rest : Bytes)
    → IsCondition c
    → is_start rest ≡ true
    → Gives (λ n. comparison n (show_condition c rest)) (some c, rest)
unfolding comparison init_condition
comparison_line c rest (op, hl, hr) s =
    let solid : isspace c.op ≡ false = ground arith in
    let nonzero : (c.op == 0) ≡ false = ground arith in
    let right_text = show 0 c.right (b'\n' ∷ rest) in
    let read = first-byte c.op right_text solid in
    let l =
      expression-show c.left (c.op ∷ right_text) hl (ground arith)
        (ap is_factor_op read ∙ ground arith) (ap is_term_op read ∙ ground arith)
        (clean-byte c.op right_text solid nonzero) in
    let r = expression_line c.right rest hr s in
    record {
      enough = l.enough + r.enough;
      gives = λ n le.
          rw
            (
              l.gives n (omega arith),
              skip_spaces-byte c.op right_text solid,
              try_advance-taken is_comparison_op c.op right_text solid op,
              r.gives n (omega arith),
              comparison,
            )
            refl;
    }

-- No comment stands in front of a capital letter.
skip_comments-start : (n : ℕ) (s : Bytes) → is_start s ≡ true → skip_comments (suc n) s ≡ some s
unfolding is_start skip_comments try_advance advance
skip_comments-start n [] h = refl
skip_comments-start n (c ∷ s) h =
    let solid : isspace c ≡ false = ground arith in
    rw (try_advance-left is_comment_start c s solid (ground arith) (ground arith), skip_comments)
      refl

-- A statement begins with a word and white space.
pub statement_keyword :
    (seq : Bytes → Parse (Option Statement)) (n c sep : ℕ) (w rest : Bytes)
    → isupper c ≡ true
    → all_plain w ≡ true
    → length w < 100
    → isspace sep ≡ true
    → statement seq (suc n) (c ∷ (w ++ (sep ∷ rest)))
      ≡ statement_with seq (suc n) (c ∷ (w ++ (sep ∷ rest))) (c ∷ w) rest
unfolding is_start
statement_keyword seq n c sep w rest h plain short space =
    let solid : isspace c ≡ false = ground arith in
    let start = c ∷ (w ++ (sep ∷ rest)) in
    let word =
      advance_until_separator-word c w (sep ∷ rest) solid (ground arith) plain short
        (ground arith) in
    let behind : drop_separator (sep ∷ rest) ≡ rest = ground arith in
    statement-word seq (suc n) start start (skip_comments-start n start h) (some (c ∷ w))
      (ap (λ (p : Option Bytes × Bytes). p.0) word)
    ∙ ap (λ (p : Option Bytes × Bytes). statement_with seq (suc n) start (c ∷ w) p.1) word
    ∙ ap (statement_with seq (suc n) start (c ∷ w)) behind

-- PRINT and LET.
pub print_statement-line :
    (e : Expr) (rest : Bytes)
    → IsSource e
    → is_start rest ≡ true
    → Gives (λ n. print_statement n (show 0 e (b'\n' ∷ rest))) (some (print e), rest)
unfolding print_statement init_print_node
print_statement-line e rest h s =
    let g = expression_line e rest h s in
    record { enough = g.enough; gives = λ n le. rw (g.gives n le, print_statement) refl }

pub let_statement-line :
    (x : ℕ) (e : Expr) (rest : Bytes)
    → is_variable_name x ≡ true
    → IsSource e
    → is_start rest ≡ true
    → Gives (λ n. let_statement n (x ∷ b'=' ∷ show 0 e (b'\n' ∷ rest))) (some (let_node x e), rest)
unfolding let_statement init_let_node
let_statement-line x e rest v h s =
    let g = expression_line e rest h s in
    let solid : isspace x ≡ false = ground arith in
    let nonzero : (x == 0) ≡ false = ground arith in
    let text = show 0 e (b'\n' ∷ rest) in
    record {
      enough = g.enough;
      gives = λ n le.
          rw
            (
              advance-byte x (b'=' ∷ text) solid,
              v,
              advance-byte b'=' text refl,
              g.gives n le,
              nonzero,
              let_statement,
            )
            refl;
    }

-- A text that ends a sequence, and is put back.
pub record EndsSequence (rest : Bytes) : Type 0 where
  pub starts : is_start rest ≡ true
  pub ends :
      (seq : Bytes → Parse (Option Statement)) (n : ℕ)
      → statement seq (suc n) rest ≡ some ((true, none), rest)

pub ends_at :
    (rest : Bytes)
    → EndsSequence rest
    → (seq : Bytes → Parse (Option Statement)) (n : ℕ) → 1 ≤ n
    → statement seq n rest ≡ some ((true, none), rest)
ends_at rest e seq zero le = absurd (omega arith)
ends_at rest e seq (suc n) le = e.ends seq n

pub empty-EndsSequence : EndsSequence []
unfolding is_start statement skip_comments try_advance advance advance_until_separator read_word
empty-EndsSequence = record { starts = refl; ends = λ seq n. refl }

pub else-EndsSequence : (s : Bytes) → EndsSequence (else_word ++ (b'\n' ∷ s))
unfolding is_start statement_with str_eq all_plain
else-EndsSequence s = record {
  starts = refl;
  ends = λ seq n.
      statement_keyword seq n b'E' b'\n' (b'L' ∷ b'S' ∷ b'E' ∷ []) s refl refl (omega arith) refl;
}

pub word-line :
    (c : ℕ) (w s : Bytes)
    → isupper c ≡ true
    → all_plain w ≡ true
    → length w < 100
    → advance_until_separator (c ∷ (w ++ (b'\n' ∷ s))) ≡ (some (c ∷ w), s)
word-line c w s h plain short =
    advance_until_separator-word c w (b'\n' ∷ s) (ground arith) (ground arith) plain short refl

pub end_line-EndsSequence :
    (c : ℕ) (w s : Bytes)
    → isupper c ≡ true
    → all_plain w ≡ true
    → length w < 100
    → (str_eq (c ∷ w) if_word || str_eq (c ∷ w) while_word) ≡ true
    → EndsSequence (end_line (c ∷ w) s)
unfolding is_start statement_with str_eq all_plain end_statement
end_line-EndsSequence c w s h plain short closes = record {
  starts = refl;
  ends = λ seq n.
      statement_keyword seq n b'E' b' ' (b'N' ∷ b'D' ∷ []) (c ∷ (w ++ (b'\n' ∷ s))) refl refl
        (omega arith) refl
      ∙ rw (word-line c w s h plain short, closes) refl;
}

-- END, as the word in front of the last one.
pub end-line :
    (c : ℕ) (w s : Bytes)
    → advance_until_separator (end_line (c ∷ w) s) ≡ (some end_word, c ∷ (w ++ (b'\n' ∷ s)))
unfolding all_plain
end-line c w s =
    advance_until_separator-word b'E' (b'N' ∷ b'D' ∷ []) (b' ' ∷ c ∷ (w ++ (b'\n' ∷ s))) refl refl
      refl (omega arith) refl
