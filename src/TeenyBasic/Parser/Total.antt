-- ===== src/TeenyBasic/Parser/Total.antt =====
-- assembly-compiler/src/parser.c: with four units of fuel for each byte and three more, the descent over
-- an expression ends.
use computer_systems.Prelude.{
  ℕ, zero, suc, ◌+◌, ◌*◌, ◌≤◌, ◌≡◌, refl, Option, some, ◌==◌, length, arith, Bool-cases, inl, inr,
}
use computer_systems.TeenyBasic.Ast.{Expr, init_binary_node, init_condition}
use computer_systems.TeenyBasic.Lexer.{
  Bytes, try_advance, is_open_paren, is_close_paren, is_factor_op, is_term_op, is_comparison_op,
  is_variable_name,
}
use computer_systems.TeenyBasic.Lexer.Short.{
  try_advance-short, try_advance-shorter, advance_until_separator-short,
}
use computer_systems.TeenyBasic.Number.{num}
use computer_systems.TeenyBasic.Parser.{
  Parse, close_paren, variable_or_num, factor, term, term_loop, expression, expression_loop,
  comparison,
}

-- The call has a result, and leaves `bound` bytes at most.
pub record Ends {A : Type 0} (call : Parse A) (bound : ℕ) : Type 0 where
  pub result : A
  pub rest : Bytes
  pub ends : call ≡ some (result, rest)
  pub short : length rest ≤ bound

num-short : (s : Bytes) → length (num s).1 ≤ length s
unfolding num
num-short s = ground (arith, advance_until_separator-short s)

variable_or_num-short : (s : Bytes) → length (variable_or_num s).1 ≤ length s
unfolding variable_or_num
variable_or_num-short s =
    ground
      (arith, try_advance-short is_variable_name s, num-short (try_advance is_variable_name s).1)

close_paren-short : (left : Option Expr) (s : Bytes) → length (close_paren left s).1 ≤ length s
unfolding close_paren
close_paren-short left s = ground (arith, try_advance-short is_close_paren s)

mutual
  unfolding factor term term_loop expression expression_loop

  pub factor-Ends : (n : ℕ) (s : Bytes) → 4 * length s + 1 ≤ n → Ends (factor n s) (length s)
  factor-Ends zero s h = absurd (omega arith)
  factor-Ends (suc n) s h =
      let rest = (try_advance is_open_paren s).1 in
      let le = try_advance-short is_open_paren s in
      elim (Bool-cases ((try_advance is_open_paren s).0 == 0)) [
        | inl closed ↦ record {
          result = (variable_or_num rest).0;
          rest = (variable_or_num rest).1;
          ends = rw (closed, factor) refl;
          short = omega (arith, variable_or_num-short rest);
        }
        | inr open_paren ↦
            let lt = try_advance-shorter is_open_paren s open_paren in
            let e = expression-Ends n rest (omega arith) in
            record {
              result = (close_paren e.result e.rest).0;
              rest = (close_paren e.result e.rest).1;
              ends = rw (open_paren, e.ends, factor) refl;
              short = omega (arith, e.short, close_paren-short e.result e.rest);
            }
      ]

  pub term-Ends : (n : ℕ) (s : Bytes) → 4 * length s + 2 ≤ n → Ends (term n s) (length s)
  term-Ends zero s h = absurd (omega arith)
  term-Ends (suc n) s h =
      let f = factor-Ends n s (omega arith) in
      let l = term_loop-Ends n f.result f.rest (omega (arith, f.short)) in
      record {
        result = l.result;
        rest = l.rest;
        ends = rw (f.ends, term) l.ends;
        short = omega (arith, f.short, l.short);
      }

  pub term_loop-Ends :
      (n : ℕ) (left : Option Expr) (s : Bytes)
      → 4 * length s + 1 ≤ n
      → Ends (term_loop n left s) (length s)
  term_loop-Ends zero left s h = absurd (omega arith)
  term_loop-Ends (suc n) left s h =
      let op = (try_advance is_factor_op s).0 in
      let rest = (try_advance is_factor_op s).1 in
      elim (Bool-cases (op == 0)) [
        | inl done ↦ record {
          result = left;
          rest = rest;
          ends = rw (done, term_loop) refl;
          short = try_advance-short is_factor_op s;
        }
        | inr more ↦
            let lt = try_advance-shorter is_factor_op s more in
            let f = factor-Ends n rest (omega arith) in
            let l =
              term_loop-Ends n (init_binary_node op left f.result) f.rest
                (omega (arith, f.short)) in
            record {
              result = l.result;
              rest = l.rest;
              ends = rw (more, f.ends, term_loop) l.ends;
              short = omega (arith, f.short, l.short);
            }
      ]

  pub expression-Ends :
      (n : ℕ) (s : Bytes) → 4 * length s + 3 ≤ n → Ends (expression n s) (length s)
  expression-Ends zero s h = absurd (omega arith)
  expression-Ends (suc n) s h =
      let f = term-Ends n s (omega arith) in
      let l = expression_loop-Ends n f.result f.rest (omega (arith, f.short)) in
      record {
        result = l.result;
        rest = l.rest;
        ends = rw (f.ends, expression) l.ends;
        short = omega (arith, f.short, l.short);
      }

  pub expression_loop-Ends :
      (n : ℕ) (left : Option Expr) (s : Bytes)
      → 4 * length s + 1 ≤ n
      → Ends (expression_loop n left s) (length s)
  expression_loop-Ends zero left s h = absurd (omega arith)
  expression_loop-Ends (suc n) left s h =
      let op = (try_advance is_term_op s).0 in
      let rest = (try_advance is_term_op s).1 in
      elim (Bool-cases (op == 0)) [
        | inl done ↦ record {
          result = left;
          rest = rest;
          ends = rw (done, expression_loop) refl;
          short = try_advance-short is_term_op s;
        }
        | inr more ↦
            let lt = try_advance-shorter is_term_op s more in
            let f = term-Ends n rest (omega arith) in
            let l =
              expression_loop-Ends n (init_binary_node op left f.result) f.rest
                (omega (arith, f.short)) in
            record {
              result = l.result;
              rest = l.rest;
              ends = rw (more, f.ends, expression_loop) l.ends;
              short = omega (arith, f.short, l.short);
            }
      ]

pub comparison-Ends : (n : ℕ) (s : Bytes) → 4 * length s + 3 ≤ n → Ends (comparison n s) (length s)
unfolding comparison
comparison-Ends n s h =
    let l = expression-Ends n s h in
    let op = (try_advance is_comparison_op l.rest).0 in
    let rest = (try_advance is_comparison_op l.rest).1 in
    let le = try_advance-short is_comparison_op l.rest in
    let r = expression-Ends n rest (omega (arith, l.short)) in
    record {
      result = init_condition op l.result r.result;
      rest = r.rest;
      ends = rw (l.ends, r.ends, comparison) refl;
      short = omega (arith, l.short, r.short);
    }
