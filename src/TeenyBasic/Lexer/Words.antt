-- ===== src/TeenyBasic/Lexer/Words.antt =====
-- assembly-compiler/src/parser.c: what the lexer reads from a text that begins with a known byte or word.
use mathlib.Core.List.{append_assoc, append-nil}
use computer_systems.Prelude.{
  ℕ, ◌+◌, ◌≤◌, ◌<◌, ◌≡◌, refl, sym, ap, ◌∙◌, Bool, true, false, not, ◌&&◌, ◌||◌, [], ◌∷◌, ◌++◌,
  some, ◌==◌, if◌then◌else◌, length, arith,
}
use computer_systems.TeenyBasic.Lexer.{
  Bytes, advance, try_advance, read_word, cut_string, advance_until_separator, isspace, is_operator,
  max_keyword_length,
}

-- A byte that can stand in a word.
abbrev pub is_plain : ℕ → Bool
is_plain c = not (isspace c) && (not (is_operator c) && not (c == 0))

unfoldable pub all_plain : Bytes → Bool
all_plain [] = true
all_plain (c ∷ s) = is_plain c && all_plain s

-- The text without the white space in front.
unfoldable pub skip_spaces : Bytes → Bytes
skip_spaces [] = []
skip_spaces (c ∷ s) = if isspace c then skip_spaces s else c ∷ s

-- A text before which a word ends, and what the lexer leaves of it.
abbrev pub is_boundary : Bytes → Bool
is_boundary [] = true
is_boundary (c ∷ s) = isspace c || is_operator c

abbrev pub drop_separator : Bytes → Bytes
drop_separator [] = []
drop_separator (c ∷ s) = if is_operator c then c ∷ s else s

pub skip_spaces-drop_separator :
    (s : Bytes) → is_boundary s ≡ true → skip_spaces (drop_separator s) ≡ skip_spaces s
unfolding skip_spaces
skip_spaces-drop_separator [] h = refl
skip_spaces-drop_separator (c ∷ s) h = ground arith

pub skip_spaces-skip_spaces : (s : Bytes) → skip_spaces (skip_spaces s) ≡ skip_spaces s
unfolding skip_spaces
skip_spaces-skip_spaces [] = refl
skip_spaces-skip_spaces (c ∷ s) = ground (arith, skip_spaces-skip_spaces s)

pub skip_spaces-byte : (c : ℕ) (s : Bytes) → isspace c ≡ false → skip_spaces (c ∷ s) ≡ c ∷ s
unfolding skip_spaces
skip_spaces-byte c s h = rw (h, skip_spaces) refl

advance-skip_spaces : (s : Bytes) → advance (skip_spaces s) ≡ advance s
unfolding advance skip_spaces
advance-skip_spaces [] = refl
advance-skip_spaces (c ∷ s) = ground (arith, advance-skip_spaces s)

pub try_advance-skip_spaces :
    (p : ℕ → Bool) (s : Bytes) → try_advance p (skip_spaces s) ≡ try_advance p s
unfolding try_advance
try_advance-skip_spaces p s = rw (advance-skip_spaces s) refl

-- The lexer sees no difference between texts that are equal behind their white space.
pub try_advance-same :
    (p : ℕ → Bool) (s t : Bytes) → skip_spaces s ≡ skip_spaces t → try_advance p s ≡ try_advance p t
try_advance-same p s t e =
    sym (try_advance-skip_spaces p s) ∙ ap (try_advance p) e ∙ try_advance-skip_spaces p t

pub advance-byte : (c : ℕ) (s : Bytes) → isspace c ≡ false → advance (c ∷ s) ≡ (c, s)
unfolding advance
advance-byte c s h = rw (h, advance) refl

pub try_advance-taken :
    (p : ℕ → Bool) (c : ℕ) (s : Bytes)
    → isspace c ≡ false
    → p c ≡ true
    → try_advance p (c ∷ s) ≡ (c, s)
unfolding try_advance
try_advance-taken p c s h t = ground (arith, advance-byte c s)

pub try_advance-left :
    (p : ℕ → Bool) (c : ℕ) (s : Bytes)
    → isspace c ≡ false
    → p c ≡ false
    → (c == 0) ≡ false
    → try_advance p (c ∷ s) ≡ (0, c ∷ s)
unfolding try_advance
try_advance-left p c s h t z = ground (arith, advance-byte c s)

-- The first byte behind the white space, or '\0'.
abbrev pub first : Bytes → ℕ
first s = (advance s).0

-- Behind the white space there is no '\0'.
unfoldable pub is_clean : Bytes → Bool
is_clean [] = true
is_clean (c ∷ s) = if isspace c then is_clean s else not (c == 0)

-- Where the first byte does not fit, the white space is gone and no byte more.
pub try_advance-none :
    (p : ℕ → Bool) (s : Bytes)
    → p (first s) ≡ false
    → is_clean s ≡ true
    → try_advance p s ≡ (0, skip_spaces s)
unfolding try_advance advance skip_spaces is_clean
try_advance-none p [] h z = refl
try_advance-none p (c ∷ s) h z = ground (arith, try_advance-none p s)

read_word-plain :
    (w rest result : Bytes) (index : ℕ)
    → all_plain w ≡ true
    → is_boundary rest ≡ true
    → 0 < index
    → index + length w ≤ max_keyword_length
    → read_word index result (w ++ rest) ≡ (some (result ++ w), drop_separator rest)
unfolding read_word all_plain
read_word-plain [] [] result index h b p le = rw append-nil (ground arith)
read_word-plain [] (c ∷ rest) result index h b p le = rw append-nil (ground arith)
read_word-plain (c ∷ w) rest result index h b p le =
    let ih =
      read_word-plain w rest (result ++ (c ∷ [])) (index + 1) (ground arith) b (omega arith)
        (omega arith) in
    ground (arith, ih, append_assoc result (c ∷ []) w)

cut_string-plain : (w : Bytes) → all_plain w ≡ true → cut_string w ≡ w
unfolding cut_string all_plain
cut_string-plain [] h = refl
cut_string-plain (c ∷ w) h = ground (arith, cut_string-plain w)

-- A word is read up to the white space or the operator behind it. Its first byte may be an operator.
pub advance_until_separator-word :
    (c : ℕ) (w rest : Bytes)
    → isspace c ≡ false
    → (c == 0) ≡ false
    → all_plain w ≡ true
    → length w < max_keyword_length
    → is_boundary rest ≡ true
    → advance_until_separator (c ∷ (w ++ rest)) ≡ (some (c ∷ w), drop_separator rest)
unfolding advance_until_separator read_word cut_string
advance_until_separator-word c w rest sp z h le b =
    let e = read_word-plain w rest (c ∷ []) 1 h b (omega arith) (omega arith) in
    ground (arith, e, cut_string-plain w)
