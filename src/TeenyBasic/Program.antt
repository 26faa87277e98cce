-- ===== src/TeenyBasic/Program.antt =====
-- assembly-compiler/src/parser.c: the recursive descent over statements.
pub mod Pieces
pub mod Moves
pub mod Total
pub mod Print
pub mod Lines
pub mod Rows
pub mod Blocks
pub mod RoundTrip
pub mod Dropped
mod Tests
use computer_systems.Prelude.{
  ℕ, zero, suc, ◌+◌, Bool, true, false, not, ◌&&◌, ◌||◌, List, [], ◌∷◌, ◌++◌, Option, none, some,
  ◌==◌, if◌then◌else◌,
}
use computer_systems.Prelude.Options.{◌>>=◌}
use computer_systems.Prelude.Text.{str_eq}
use computer_systems.TeenyBasic.Ast.{
  Condition, Expr, Statement, Statements, Else, sequence, nil, cons, no_else, else_branch,
  init_print_node, init_let_node, init_if_node, init_while_node,
}
use computer_systems.TeenyBasic.Lexer.{
  Bytes, is_variable_name, is_comment_start, advance, try_advance, advance_until_separator, at_end,
  skip_line,
}
use computer_systems.TeenyBasic.Parser.{Parse, expression, comparison}

abbrev pub else_word : Bytes
else_word = b'E' ∷ b'L' ∷ b'S' ∷ b'E' ∷ []

abbrev pub end_word : Bytes
end_word = b'E' ∷ b'N' ∷ b'D' ∷ []

abbrev pub if_word : Bytes
if_word = b'I' ∷ b'F' ∷ []

abbrev pub while_word : Bytes
while_word = b'W' ∷ b'H' ∷ b'I' ∷ b'L' ∷ b'E' ∷ []

abbrev pub print_word : Bytes
print_word = b'P' ∷ b'R' ∷ b'I' ∷ b'N' ∷ b'T' ∷ []

abbrev pub let_word : Bytes
let_word = b'L' ∷ b'E' ∷ b'T' ∷ []

-- `next != NULL && strcmp(next, word) == 0`
abbrev pub is_word : Option Bytes → Bytes → Bool
is_word none word = false
is_word (some next) word = str_eq next word

-- The loop of `statement` over comments.
unfoldable pub skip_comments : ℕ → Bytes → Option Bytes
skip_comments zero s = none
skip_comments (suc n) s =
    let (c, rest) = try_advance is_comment_start s in
    let more = skip_comments n (skip_line rest) in if c == 0 then some rest else more

-- What follows the branches of IF or the body of WHILE: END and the word again, behind the word `next`.
-- The result is whether both are there.
unfoldable pub close_block : Bytes → Option Bytes → Bytes → Bool × Bytes
close_block word next s =
    if is_word next end_word
    then (let (last, rest) = advance_until_separator s in (is_word last word, rest))
    else (false, s)

unfoldable pub print_statement : ℕ → Bytes → Parse (Option Statement)
print_statement n s = expression n s >>= λ (e, rest). some (init_print_node e, rest)

unfoldable pub let_statement : ℕ → Bytes → Parse (Option Statement)
let_statement n s =
    let (var, s₁) = advance s in
    let (equal, s₂) = advance s₁ in
    let value = expression n s₂ >>= λ (e, rest). some (init_let_node var e, rest) in
    if is_variable_name var
    then (if equal == b'=' then value else some (none, s₂))
    else some (none, s₁)

abbrev pub to_else : Option Statement → Else
to_else none = no_else
to_else (some s) = else_branch s

-- The ELSE branch, where `next` begins one, with the word behind it.
unfoldable pub else_part :
    (Bytes → Parse (Option Statement)) → Option Bytes → Bytes → Option (Else × Option Bytes × Bytes)
else_part seq next s =
    let branch = seq s >>= λ (e, s₁).
    let (last, s₂) = advance_until_separator s₁ in some (to_else e, last, s₂) in
    if is_word next else_word then branch else some (no_else, next, s)

unfoldable pub if_statement :
    (Bytes → Parse (Option Statement)) → ℕ → Bytes → Parse (Option Statement)
if_statement seq n s = comparison n s >>= λ (condition, s₁). seq s₁ >>= λ (if_branch, s₂).
    let (next, s₃) = advance_until_separator s₂ in
    else_part seq next s₃ >>= λ (otherwise, last, s₄).
    let (closed, s₅) = close_block if_word last s₄ in
    some (if closed then init_if_node condition if_branch otherwise else none, s₅)

unfoldable pub while_statement :
    (Bytes → Parse (Option Statement)) → ℕ → Bytes → Parse (Option Statement)
while_statement seq n s = comparison n s >>= λ (condition, s₁). seq s₁ >>= λ (body, s₂).
    let (next, s₃) = advance_until_separator s₂ in
    let (closed, s₄) = close_block while_word next s₃ in
    some (if closed then init_while_node condition body else none, s₄)

-- The result of `statement`: whether the sequence has ended, and the node.
abbrev pub ended : Bytes → Parse (Bool × Option Statement)
ended s = some ((true, none), s)

abbrev pub parsed : Parse (Option Statement) → Parse (Bool × Option Statement)
parsed result = result >>= λ (node, rest). some ((false, node), rest)

-- END before IF or WHILE ends the sequence, and is put back.
unfoldable pub end_statement : Bytes → Bytes → Parse (Bool × Option Statement)
end_statement start s =
    let (next, rest) = advance_until_separator s in
    if is_word next if_word || is_word next while_word
    then ended start
    else some ((false, none), rest)

-- `statement` behind its first word; `start` is the position in front of the word.
unfoldable pub statement_with :
    (Bytes → Parse (Option Statement)) → ℕ → Bytes → Bytes → Bytes → Parse (Bool × Option Statement)
statement_with seq n start word s =
    if str_eq word else_word
    then ended start
    else if str_eq word end_word
    then end_statement start s
    else if str_eq word print_word
    then parsed (print_statement n s)
    else if str_eq word let_word
    then parsed (let_statement n s)
    else if str_eq word if_word
    then parsed (if_statement seq n s)
    else if str_eq word while_word
    then parsed (while_statement seq n s)
    else some ((false, none), s)

unfoldable pub statement :
    (Bytes → Parse (Option Statement)) → ℕ → Bytes → Parse (Bool × Option Statement)
statement seq n s = skip_comments n s >>= λ start.
    let (next, rest) = advance_until_separator start in
    elim next [ none ↦ ended rest | some word ↦ statement_with seq n start word rest ]

unfoldable pub snoc : Statements → Statement → Statements
snoc nil s = cons s nil
snoc (cons t ss) s = cons t (snoc ss s)

-- A single statement is not wrapped.
unfoldable pub finish_sequence : Statements → Statement
finish_sequence nil = sequence nil
finish_sequence (cons s nil) = s
finish_sequence (cons s (cons t ss)) = sequence (cons s (cons t ss))

unfoldable mutual
  pub sequence_from : ℕ → Bytes → Parse (Option Statement)
  sequence_from zero s = none
  sequence_from (suc n) s = sequence_loop n nil s

  -- The statements so far are `ss`.
  pub sequence_loop : ℕ → Statements → Bytes → Parse (Option Statement)
  sequence_loop zero ss s = none
  sequence_loop (suc n) ss s = statement (sequence_from n) n s >>= λ ((end, node), rest).
      let failed_or_more : Parse (Option Statement) = elim node [
        | none ↦ some (none, rest)
        | some next ↦ sequence_loop n (snoc ss next) rest
      ] in
      if end then some (some (finish_sequence ss), rest) else failed_or_more

unfoldable pub parse : ℕ → Bytes → Option (Option Statement)
parse n s = sequence_from n s >>= λ (ast, rest).
    let (done, after) = at_end rest in some (if done then ast else none)
