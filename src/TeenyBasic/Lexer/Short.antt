-- ===== src/TeenyBasic/Lexer/Short.antt =====
-- assembly-compiler/src/parser.c: what the reading of a byte or a word leaves is no longer than before.
use computer_systems.Prelude.{
  ℕ, ◌+◌, ◌≤◌, ◌<◌, ◌≡◌, refl, Bool, false, [], ◌∷◌, ◌++◌, Option, none, some, ◌==◌, length, arith,
}
use computer_systems.TeenyBasic.Lexer.{
  Bytes, advance, try_advance, read_word, cut_string, advance_until_separator, skip_line,
}

pub advance-short : (s : Bytes) → length (advance s).1 ≤ length s
unfolding advance
advance-short [] = omega arith
advance-short (c ∷ s) = ground (arith, advance-short s)

-- A byte that is not '\0' has been taken from the stream.
pub advance-shorter : (s : Bytes) → ((advance s).0 == 0) ≡ false → length (advance s).1 < length s
unfolding advance
advance-shorter [] h = absurd (ground arith)
advance-shorter (c ∷ s) h = ground (arith, advance-shorter s)

pub try_advance-short : (p : ℕ → Bool) (s : Bytes) → length (try_advance p s).1 ≤ length s
unfolding try_advance
try_advance-short p s = ground (arith, advance-short s, advance-shorter s)

pub try_advance-shorter :
    (p : ℕ → Bool) (s : Bytes)
    → ((try_advance p s).0 == 0) ≡ false
    → length (try_advance p s).1 < length s
unfolding try_advance
try_advance-shorter p s h = ground (arith, advance-shorter s)

read_word-short :
    (s : Bytes) (index : ℕ) (result : Bytes) → length (read_word index result s).1 ≤ length s
unfolding read_word
read_word-short [] index result = ground arith
read_word-short (c ∷ s) index result =
    ground
      (arith, read_word-short s index result, read_word-short s (index + 1) (result ++ (c ∷ [])))

read_word-shorter :
    (s : Bytes) (result w : Bytes)
    → (read_word 0 result s).0 ≡ some w
    → length (read_word 0 result s).1 < length s
unfolding read_word
read_word-shorter [] result w h = absurd (ground arith)
read_word-shorter (c ∷ s) result w h =
    ground (arith, read_word-shorter s result w, read_word-short s 1 (result ++ (c ∷ [])))

pub advance_until_separator-short : (s : Bytes) → length (advance_until_separator s).1 ≤ length s
unfolding advance_until_separator
advance_until_separator-short s = read_word-short s 0 []

-- A word takes at least a byte from the stream.
pub advance_until_separator-shorter :
    (s w : Bytes)
    → (advance_until_separator s).0 ≡ some w
    → length (advance_until_separator s).1 < length s
unfolding advance_until_separator
advance_until_separator-shorter s w h = go (read_word 0 [] s).0 refl h
  where
    go :
        (o : Option Bytes)
        → (read_word 0 [] s).0 ≡ o
        → ◌≡◌ {A = Option Bytes} (elim o [ none ↦ none | some v ↦ some (cut_string v) ]) (some w)
        → length (read_word 0 [] s).1 < length s
    go none e h = absurd (ground arith)
    go (some v) e h = read_word-shorter s [] v e

pub skip_line-short : (s : Bytes) → length (skip_line s) ≤ length s
unfolding skip_line
skip_line-short [] = omega arith
skip_line-short (c ∷ s) = ground (arith, skip_line-short s)
