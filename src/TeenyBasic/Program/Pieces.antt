-- ===== src/TeenyBasic/Program/Pieces.antt =====
-- assembly-compiler/src/parser.c: the parts of a statement that hold no statements end.
use computer_systems.Prelude.{
  ℕ, zero, suc, ◌+◌, ◌*◌, ◌≤◌, ◌<◌, ◌≡◌, refl, ap, Bool, true, false, ◌||◌, Option, none, some,
  ◌==◌, length, arith, Bool-cases, inl, inr, ◌⊎◌,
}
use computer_systems.TeenyBasic.Ast.{Statement, init_print_node, init_let_node}
use computer_systems.TeenyBasic.Lexer.{
  Bytes, advance, try_advance, advance_until_separator, skip_line, is_comment_start,
  is_variable_name,
}
use computer_systems.TeenyBasic.Lexer.Short.{
  advance-short, try_advance-short, try_advance-shorter, advance_until_separator-short,
  skip_line-short,
}
use computer_systems.TeenyBasic.Parser.{Parse}
use computer_systems.TeenyBasic.Parser.Total.{Ends, expression-Ends}
use computer_systems.TeenyBasic.Program.{
  if_word, while_word, is_word, skip_comments, close_block, print_statement, let_statement, ended,
  parsed, end_statement, statement_with, statement,
}

pub skip_comments-some :
    (n : ℕ) (s : Bytes)
    → length s + 1 ≤ n
    → (start : Bytes) × (skip_comments n s ≡ some start) × (length start ≤ length s)
unfolding skip_comments
skip_comments-some zero s h = absurd (omega arith)
skip_comments-some (suc n) s h =
    let rest = (try_advance is_comment_start s).1 in
    let le = try_advance-short is_comment_start s in
    elim (Bool-cases ((try_advance is_comment_start s).0 == 0)) [
      | inl done ↦ (rest, rw (done, skip_comments) refl, le)
      | inr more ↦
          let lt = try_advance-shorter is_comment_start s more in
          let line = skip_line-short rest in
          let (start, e, short) = skip_comments-some n (skip_line rest) (omega arith) in
          (start, rw (more, skip_comments) e, omega arith)
    ]

pub close_block-short :
    (word : Bytes) (next : Option Bytes) (s : Bytes) → length (close_block word next s).1 ≤ length s
unfolding close_block
close_block-short word next s = ground (arith, advance_until_separator-short s)

pub print_statement-Ends :
    (n : ℕ) (s : Bytes) → 4 * length s + 3 ≤ n → Ends (print_statement n s) (length s)
unfolding print_statement
print_statement-Ends n s h =
    let e = expression-Ends n s h in
    record {
      result = init_print_node e.result;
      rest = e.rest;
      ends = rw (e.ends, print_statement) refl;
      short = e.short;
    }

pub let_statement-Ends :
    (n : ℕ) (s : Bytes) → 4 * length s + 3 ≤ n → Ends (let_statement n s) (length s)
unfolding let_statement
let_statement-Ends n s h =
    let s₁ = (advance s).1 in
    let le = advance-short s in
    let s₂ = (advance s₁).1 in
    let le' = advance-short s₁ in
    elim (Bool-cases (is_variable_name (advance s).0)) [
      | inr bad ↦ record {
        result = none;
        rest = s₁;
        ends = rw (bad, let_statement) refl;
        short = le;
      }
      | inl variable ↦ elim (Bool-cases ((advance s₁).0 == b'=')) [
        | inr bad ↦ record {
          result = none;
          rest = s₂;
          ends = rw (variable, bad, let_statement) refl;
          short = omega arith;
        }
        | inl equal ↦
            let e = expression-Ends n s₂ (omega arith) in
            record {
              result = init_let_node (advance s).0 e.result;
              rest = e.rest;
              ends = rw (variable, equal, e.ends, let_statement) refl;
              short = omega (arith, e.short);
            }
      ]
    ]

-- A statement has a result. It takes a byte unless it ends the sequence.
pub record Moves (call : Parse (Bool × Option Statement)) (bound : ℕ) : Type 0 where
  pub end : Bool
  pub node : Option Statement
  pub rest : Bytes
  pub moves : call ≡ some ((end, node), rest)
  pub short : length rest ≤ bound
  pub taken : (end ≡ true) ⊎ (length rest < bound)

pub Ends-Moves :
    (call : Parse (Option Statement)) (j bound : ℕ)
    → j < bound
    → Ends call j
    → Moves (parsed call) bound
Ends-Moves call j bound lt e = record {
  end = false;
  node = e.result;
  rest = e.rest;
  moves = rw e.ends refl;
  short = omega (arith, e.short);
  taken = inr (omega (arith, e.short));
}

pub end_statement-Moves :
    (start s : Bytes) (bound : ℕ)
    → length start ≤ bound
    → length s < bound
    → Moves (end_statement start s) bound
unfolding end_statement
end_statement-Moves start s bound at lt =
    let next = (advance_until_separator s).0 in
    let le = advance_until_separator-short s in
    elim (Bool-cases (is_word next if_word || is_word next while_word)) [
      | inl closes ↦ record {
        end = true;
        node = none;
        rest = start;
        moves = rw (closes, end_statement) refl;
        short = at;
        taken = inl refl;
      }
      | inr other ↦ record {
        end = false;
        node = none;
        rest = (advance_until_separator s).1;
        moves = rw (other, end_statement) refl;
        short = omega arith;
        taken = inr (omega arith);
      }
    ]

pub statement-word :
    (seq : Bytes → Parse (Option Statement)) (n : ℕ) (s start : Bytes)
    → skip_comments n s ≡ some start
    → (next : Option Bytes) → (advance_until_separator start).0 ≡ next
    → statement seq n s ≡ elim next [
      | none ↦ ended (advance_until_separator start).1
      | some word ↦ statement_with seq n start word (advance_until_separator start).1
    ]
unfolding statement
statement-word seq n s start e next f =
    rw (e, statement)
      (ap
        (λ (o : Option Bytes). elim o as (λ _. Parse (Bool × Option Statement)) [
          | none ↦ ended (advance_until_separator start).1
          | some word ↦ statement_with seq n start word (advance_until_separator start).1
        ])
        f)
