-- ===== src/TeenyBasic/Program/Moves.antt =====
-- assembly-compiler/src/parser.c: a statement ends where the sequences in it do.
use computer_systems.Prelude.{
  ℕ, ◌+◌, ◌*◌, ◌≤◌, ◌<◌, ◌≡◌, refl, true, false, Option, none, some, if◌then◌else◌, length, arith,
  Bool-cases, inl, inr,
}
use computer_systems.Prelude.Text.{str_eq}
use computer_systems.TeenyBasic.Ast.{Statement, Else, no_else, init_if_node, init_while_node}
use computer_systems.TeenyBasic.Lexer.{Bytes, advance_until_separator}
use computer_systems.TeenyBasic.Lexer.Short.{
  advance_until_separator-short, advance_until_separator-shorter,
}
use computer_systems.TeenyBasic.Parser.{Parse}
use computer_systems.TeenyBasic.Parser.Total.{Ends, comparison-Ends}
use computer_systems.TeenyBasic.Program.{
  else_word, end_word, if_word, while_word, print_word, let_word, is_word, skip_comments,
  close_block, to_else, else_part, if_statement, while_statement, statement_with, statement,
}
use computer_systems.TeenyBasic.Program.Pieces.{
  skip_comments-some, close_block-short, print_statement-Ends, let_statement-Ends, Moves,
  Ends-Moves, end_statement-Moves, statement-word,
}

module _ (seq : Bytes → Parse (Option Statement)) (n k : ℕ)
    (ends : (s : Bytes) → length s < k → Ends (seq s) (length s)) (enough : 4 * k + 1 ≤ n) where
  else_part-some :
      (next : Option Bytes) (s : Bytes)
      → length s < k
      → (e : Else) × (last : Option Bytes) × (rest : Bytes) × (else_part seq next s
          ≡ some (e, last, rest))
        × (length rest ≤ length s)
  unfolding else_part
  else_part-some next s h = elim (Bool-cases (is_word next else_word)) [
    | inr other ↦ (no_else, next, s, rw (other, else_part) refl, omega arith)
    | inl branch ↦
        let e = ends s h in
        let le = advance_until_separator-short e.rest in
        (
          to_else e.result,
          (advance_until_separator e.rest).0,
          (advance_until_separator e.rest).1,
          rw (branch, e.ends, else_part) refl,
          omega (arith, e.short),
        )
  ]

  if_statement-Ends : (s : Bytes) → length s < k → Ends (if_statement seq n s) (length s)
  unfolding if_statement
  if_statement-Ends s h =
      let c = comparison-Ends n s (omega arith) in
      let t = ends c.rest (omega (arith, c.short)) in
      let next = advance_until_separator t.rest in
      let le = advance_until_separator-short t.rest in
      let (otherwise, last, s₄, e, le') =
        else_part-some next.0 next.1 (omega (arith, c.short, t.short)) in
      let closed = close_block if_word last s₄ in
      let le'' = close_block-short if_word last s₄ in
      record {
        result = if closed.0 then init_if_node c.result t.result otherwise else none;
        rest = closed.1;
        ends = rw (c.ends, t.ends, e, if_statement) refl;
        short = omega (arith, c.short, t.short);
      }

  while_statement-Ends : (s : Bytes) → length s < k → Ends (while_statement seq n s) (length s)
  unfolding while_statement
  while_statement-Ends s h =
      let c = comparison-Ends n s (omega arith) in
      let t = ends c.rest (omega (arith, c.short)) in
      let next = advance_until_separator t.rest in
      let le = advance_until_separator-short t.rest in
      let closed = close_block while_word next.0 next.1 in
      let le' = close_block-short while_word next.0 next.1 in
      record {
        result = if closed.0 then init_while_node c.result t.result else none;
        rest = closed.1;
        ends = rw (c.ends, t.ends, while_statement) refl;
        short = omega (arith, c.short, t.short);
      }

  statement_with-Moves :
      (start word s : Bytes) (bound : ℕ)
      → length start ≤ bound
      → length s < k
      → length s < bound
      → Moves (statement_with seq n start word s) bound
  unfolding statement_with
  statement_with-Moves start word s bound at le lt = elim (Bool-cases (str_eq word else_word)) [
    | inl e ↦ record {
      end = true;
      node = none;
      rest = start;
      moves = rw (e, statement_with) refl;
      short = at;
      taken = inl refl;
    }
    | inr e ↦ elim (Bool-cases (str_eq word end_word)) [
      | inl e₁ ↦ rw (e, e₁, statement_with) (end_statement-Moves start s bound at lt)
      | inr e₁ ↦ elim (Bool-cases (str_eq word print_word)) [
        | inl e₂ ↦
            rw (e, e₁, e₂, statement_with)
              (Ends-Moves _ (length s) bound lt (print_statement-Ends n s (omega arith)))
        | inr e₂ ↦ elim (Bool-cases (str_eq word let_word)) [
          | inl e₃ ↦
              rw (e, e₁, e₂, e₃, statement_with)
                (Ends-Moves _ (length s) bound lt (let_statement-Ends n s (omega arith)))
          | inr e₃ ↦ elim (Bool-cases (str_eq word if_word)) [
            | inl e₄ ↦
                rw (e, e₁, e₂, e₃, e₄, statement_with)
                  (Ends-Moves _ (length s) bound lt (if_statement-Ends s le))
            | inr e₄ ↦ elim (Bool-cases (str_eq word while_word)) [
              | inl e₅ ↦
                  rw (e, e₁, e₂, e₃, e₄, e₅, statement_with)
                    (Ends-Moves _ (length s) bound lt (while_statement-Ends s le))
              | inr e₅ ↦ record {
                end = false;
                node = none;
                rest = s;
                moves = rw (e, e₁, e₂, e₃, e₄, e₅, statement_with) refl;
                short = omega arith;
                taken = inr lt;
              }
            ]
          ]
        ]
      ]
    ]
  ]

  pub statement-Moves : (s : Bytes) → length s ≤ k → Moves (statement seq n s) (length s)
  unfolding statement
  statement-Moves s h =
      let (start, e, le) = skip_comments-some n s (omega arith) in
      go start e le (advance_until_separator start).0 refl
    where
      go :
          (start : Bytes)
          → skip_comments n s ≡ some start
          → length start ≤ length s
          → (next : Option Bytes) → (advance_until_separator start).0 ≡ next
          → Moves (statement seq n s) (length s)
      go start e le none f = record {
        end = true;
        node = none;
        rest = (advance_until_separator start).1;
        moves = statement-word seq n s start e none f;
        short = omega (arith, advance_until_separator-short start);
        taken = inl refl;
      }
      go start e le (some word) f =
          let lt = advance_until_separator-shorter start word f in
          rw (statement-word seq n s start e (some word) f) (
            statement_with-Moves start word (advance_until_separator start).1 (length s) le
              (omega arith) (omega arith))
