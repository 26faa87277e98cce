-- ===== src/TeenyBasic/Lexer.antt =====
-- assembly-compiler/src/parser.c: the characters and words of a program. The stream is the list of the
-- bytes that are left; to rewind by one puts the byte that was read back in front. The character
-- '\0' stands for the end of the file, and a byte of that value does too.
pub mod Short
pub mod Words
use computer_systems.Prelude.{
  ℕ, zero, suc, ◌+◌, Bool, true, false, not, ◌&&◌, ◌||◌, List, [], ◌∷◌, ◌++◌, Option, none, some,
  ltb, leb, ◌==◌, if◌then◌else◌,
}

abbrev pub Bytes : Type 0
Bytes = List ℕ

-- isspace and isupper of the C locale
abbrev pub isspace : ℕ → Bool
isspace c = (c == b' ') || (leb 9 c && leb c 13)

abbrev pub isupper : ℕ → Bool
isupper c = leb b'A' c && leb c b'Z'

abbrev pub is_variable_name : ℕ → Bool
is_variable_name = isupper

abbrev pub is_open_paren : ℕ → Bool
is_open_paren c = c == b'('

abbrev pub is_close_paren : ℕ → Bool
is_close_paren c = c == b')'

abbrev pub is_factor_op : ℕ → Bool
is_factor_op c = (c == b'*') || (c == b'/')

abbrev pub is_term_op : ℕ → Bool
is_term_op c = (c == b'+') || (c == b'-')

abbrev pub is_comparison_op : ℕ → Bool
is_comparison_op c = (c == b'<') || ((c == b'=') || (c == b'>'))

abbrev pub is_operator : ℕ → Bool
is_operator c =
    is_open_paren c
    || (is_close_paren c || (is_factor_op c || (is_term_op c || is_comparison_op c)))

abbrev pub is_comment_start : ℕ → Bool
is_comment_start c = c == b'#'

unfoldable pub advance : Bytes → ℕ × Bytes
advance [] = (0, [])
advance (c ∷ s) = if isspace c then advance s else (c, s)

-- The byte is put back unless it fits or is '\0'.
unfoldable pub try_advance : (ℕ → Bool) → Bytes → ℕ × Bytes
try_advance p s =
    let (next, rest) = advance s in
    if not (next == 0) && not (p next) then (0, next ∷ rest) else (next, rest)

abbrev pub max_keyword_length : ℕ
max_keyword_length = 100

-- The loop of advance_until_separator, with `index` bytes read into `result`.
unfoldable pub read_word : ℕ → Bytes → Bytes → Option Bytes × Bytes
read_word index result [] =
    if ltb max_keyword_length index
    then (none, [])
    else if ltb 0 index
    then (some result, [])
    else (none, [])
read_word index result (c ∷ s) =
    let skipped = read_word index result s in
    let longer = read_word (index + 1) (result ++ (c ∷ [])) s in
    if ltb max_keyword_length index
    then (none, c ∷ s)
    else if is_operator c && ltb 0 index
    then (some result, c ∷ s)
    else if isspace c
    then (if ltb 0 index then (some result, s) else skipped)
    else longer

-- The bytes of a C string end at the first '\0'.
unfoldable pub cut_string : Bytes → Bytes
cut_string [] = []
cut_string (c ∷ s) = if c == 0 then [] else c ∷ cut_string s

unfoldable pub advance_until_separator : Bytes → Option Bytes × Bytes
advance_until_separator s =
    let (word, rest) = read_word 0 [] s in
    (elim word [ none ↦ none | some w ↦ some (cut_string w) ], rest)

unfoldable pub at_end : Bytes → Bool × Bytes
at_end s = let (next, rest) = advance s in if next == 0 then (true, rest) else (false, next ∷ rest)

unfoldable pub skip_line : Bytes → Bytes
skip_line [] = []
skip_line (c ∷ s) = if c == b'\n' then s else skip_line s
