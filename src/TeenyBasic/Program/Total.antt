-- ===== src/TeenyBasic/Program/Total.antt =====
-- assembly-compiler/src/parser.c: with four units of fuel for each byte and nine more, `parse` ends on every
-- input.
use computer_systems.Prelude.{
  ℕ, zero, suc, ◌+◌, ◌*◌, ◌≤◌, ◌<◌, ◌≡◌, refl, ◌∙◌, Bool, true, false, Option, none, some,
  if◌then◌else◌, length, arith, inl, inr, ◌⊎◌,
}
use computer_systems.TeenyBasic.Ast.{Statement, Statements, nil}
use computer_systems.TeenyBasic.Lexer.{Bytes, at_end}
use computer_systems.TeenyBasic.Parser.Total.{Ends}
use computer_systems.TeenyBasic.Program.{
  statement, snoc, finish_sequence, sequence_from, sequence_loop, parse,
}
use computer_systems.TeenyBasic.Program.Moves.{statement-Moves}

-- What a round of the loop makes of a statement.
module _ (n : ℕ) (ss : Statements) (s rest : Bytes) where
  pub sequence_loop-end :
      (left : Option Statement)
      → statement (sequence_from n) n s ≡ some ((true, left), rest)
      → sequence_loop (suc n) ss s ≡ some (some (finish_sequence ss), rest)
  unfolding sequence_loop
  sequence_loop-end left e = rw (e, sequence_loop) refl

  pub sequence_loop-failed :
      statement (sequence_from n) n s ≡ some ((false, none), rest)
      → sequence_loop (suc n) ss s ≡ some (none, rest)
  unfolding sequence_loop
  sequence_loop-failed e = rw (e, sequence_loop) refl

  pub sequence_loop-next :
      (next : Statement)
      → statement (sequence_from n) n s ≡ some ((false, some next), rest)
      → sequence_loop (suc n) ss s ≡ sequence_loop n (snoc ss next) rest
  unfolding sequence_loop
  sequence_loop-next next e = rw (e, sequence_loop) refl

mutual
  unfolding sequence_from sequence_loop

  sequence_from-Ends :
      (n : ℕ) (s : Bytes) → 4 * length s + 9 ≤ n → Ends (sequence_from n s) (length s)
  sequence_from-Ends zero s h = absurd (omega arith)
  sequence_from-Ends (suc n) s h = sequence_loop-Ends n nil s (omega arith)

  sequence_loop-Ends :
      (n : ℕ) (ss : Statements) (s : Bytes)
      → 4 * length s + 8 ≤ n
      → Ends (sequence_loop n ss s) (length s)
  sequence_loop-Ends zero ss s h = absurd (omega arith)
  sequence_loop-Ends (suc n) ss s h =
      let k = length s in
      let m =
        statement-Moves (sequence_from n) n k (λ s' lt. sequence_from-Ends n s' (omega arith))
          (omega arith) s (omega arith) in
      go m.end m.node m.moves m.short m.taken
        (λ ss' lt. sequence_loop-Ends n ss' m.rest (omega arith))
    where
      go :
          {rest : Bytes} (end : Bool) (left : Option Statement)
          → statement (sequence_from n) n s ≡ some ((end, left), rest)
          → length rest ≤ length s
          → (end ≡ true) ⊎ (length rest < length s)
          → ((ss' : Statements)
              → length rest < length s
              → Ends (sequence_loop n ss' rest) (length rest))
          → Ends (sequence_loop (suc n) ss s) (length s)
      go {rest} true left e le taken more = record {
        result = some (finish_sequence ss);
        rest = rest;
        ends = sequence_loop-end n ss s rest left e;
        short = le;
      }
      go {rest} false none e le taken more = record {
        result = none;
        rest = rest;
        ends = sequence_loop-failed n ss s rest e;
        short = le;
      }
      go {rest} false (some next) e le taken more =
          let lt : length rest < length s = elim taken [ inl h ↦ absurd (cc h) | inr h ↦ h ] in
          let l = more (snoc ss next) lt in
          record {
            result = l.result;
            rest = l.rest;
            ends = sequence_loop-next n ss s rest next e ∙ l.ends;
            short = omega (arith, l.short);
          }

-- On every input `parse` ends, with a tree or without one, from an amount of fuel on that grows with the
-- length of the input.
pub parse-ends :
    (n : ℕ) (s : Bytes) → 4 * length s + 9 ≤ n → (ast : Option Statement) × (parse n s ≡ some ast)
unfolding parse
parse-ends n s h =
    let e = sequence_from-Ends n s h in
    (if (at_end e.rest).0 then e.result else none, rw (e.ends, parse) refl)
