-- ===== src/Jvm/Reader.antt =====
-- java-virtual-machine/read_class.c: reads from the bytes of a file at a position. An assertion that
-- fails stops the program.
pub mod Reads
use computer_systems.Prelude.{
  ℕ, zero, suc, ◌+◌, ◌*◌, ◌^◌, Bool, List, [], ◌∷◌, length, take, drop, ◌==◌, if◌then◌else◌,
}
use computer_systems.Jvm.Outcome.{Result, ok, err, assertion}

-- What is read, with the position behind it.
abbrev pub Reader : Type 0 → Type 0
Reader A = List ℕ → ℕ → Result (A × ℕ)

-- What follows a read.
abbrev pub continue : {A B : Type 0} → Result (A × ℕ) → (A → Reader B) → List ℕ → Result (B × ℕ)
continue (ok (a, behind)) next file = next a file behind
continue (err e) next file = err e

infixl 4 ◌>>=◌
abbrev pub ◌>>=◌ : {A B : Type 0} → Reader A → (A → Reader B) → Reader B
(read >>= next) file pos = continue (read file pos) next file

abbrev pub return : {A : Type 0} → A → Reader A
return a file pos = ok (a, pos)

-- A result that needs no bytes, as of a lookup.
abbrev pub lift : {A : Type 0} → Result A → Reader A
lift result file pos = elim result [ ok a ↦ ok (a, pos) | err e ↦ err e ]

abbrev pub assert : Bool → Reader Unit
assert condition file pos = if condition then ok (tt, pos) else err assertion

abbrev pub ftell : Reader ℕ
ftell file pos = ok (pos, pos)

-- A position beyond the end of the file is no error.
abbrev pub fseek : ℕ → Reader Unit
fseek target file pos = ok (tt, target)

-- The byte in front of what is left, which may be nothing.
abbrev pub fgetc : List ℕ → ℕ → Result (ℕ × ℕ)
fgetc [] pos = err assertion
fgetc (b ∷ bs) pos = ok (b, pos + 1)

unfoldable pub read_u1 : Reader ℕ
read_u1 file pos = fgetc (drop pos file) pos

-- The bits of the two operands of `|` are apart, so it is a sum. The left operand is read first.
unfoldable pub read_u2 : Reader ℕ
read_u2 file pos = (read_u1 >>= λ high. read_u1 >>= λ low. return (high * 2 ^ 8 + low)) file pos

unfoldable pub read_u4 : Reader ℕ
read_u4 file pos = (read_u2 >>= λ high. read_u2 >>= λ low. return (high * 2 ^ 16 + low)) file pos

-- `fread(buffer, 1, n, class_file)` and the assertion that it reads `n` bytes.
unfoldable pub fread : ℕ → Reader (List ℕ)
fread n file pos =
    let bytes = take n (drop pos file) in
    if length bytes == n then ok (bytes, pos + n) else err assertion
