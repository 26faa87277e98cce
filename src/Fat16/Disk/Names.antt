-- ===== src/Fat16/Disk/Names.antt =====
-- file-directory-tree/src/fat16.c: get_file_name on names that are padded with spaces.
use mathlib.Core.List.{append-nil}
use computer_systems.Prelude.{
  ℕ, zero, suc, ◌-◌, ◌≡◌, refl, sym, ap, ◌∙◌, Bool, true, false, not, ◌&&◌, [], ◌∷◌, ◌++◌, length,
  replicate, ◌==◌, arith,
}
use computer_systems.Prelude.Text.{c_string}
use computer_systems.Fat16.Tree.{Bytes}
use computer_systems.Fat16.Disk.{
  DirectoryEntry, deleted, byte_at, copy_filename, copy_extension, get_file_name,
}

-- No space, no mark of a deleted file and no terminator.
abbrev pub is_plain_name : Bytes → Bool
is_plain_name [] = true
is_plain_name (c ∷ cs) =
    (not (c == b' ') && (not (c == deleted) && not (c == 0))) && is_plain_name cs

abbrev pub pad : ℕ → Bytes → Bytes
pad n bs = bs ++ replicate (n - length bs) b' '

copy_filename-spaces : (k : ℕ) → copy_filename (replicate k b' ') ≡ []
unfolding copy_filename
copy_filename-spaces zero = refl
copy_filename-spaces (suc k) = refl

copy_extension-spaces : (k : ℕ) → copy_extension (replicate k b' ') ≡ []
unfolding copy_extension
copy_extension-spaces zero = refl
copy_extension-spaces (suc k) = refl

copy_filename-plain :
    (bs : Bytes) (k : ℕ) → is_plain_name bs ≡ true → copy_filename (bs ++ replicate k b' ') ≡ bs
unfolding copy_filename
copy_filename-plain [] k h = copy_filename-spaces k
copy_filename-plain (c ∷ bs) k h = ground (arith, copy_filename-plain bs k)

copy_extension-plain :
    (bs : Bytes) (k : ℕ) → is_plain_name bs ≡ true → copy_extension (bs ++ replicate k b' ') ≡ bs
unfolding copy_extension
copy_extension-plain [] k h = copy_extension-spaces k
copy_extension-plain (c ∷ bs) k h = ground (arith, copy_extension-plain bs k)

c_string-plain :
    (bs rest : Bytes) → is_plain_name bs ≡ true → c_string (bs ++ rest) ≡ bs ++ c_string rest
unfolding c_string
c_string-plain [] rest h = refl
c_string-plain (c ∷ bs) rest h = ground (arith, c_string-plain bs rest)

c_string-end : c_string [] ≡ []
unfolding c_string
c_string-end = refl

c_string-dot : (bs : Bytes) → is_plain_name bs ≡ true → c_string (b'.' ∷ bs) ≡ b'.' ∷ bs
unfolding c_string
c_string-dot bs h =
    ap (◌∷◌ b'.') (ap c_string (sym (append-nil bs)) ∙ c_string-plain bs [] h ∙ append-nil bs)

-- `base.extension`, and `base` alone where there is no extension.
abbrev pub dotted : Bytes → Bytes → Bytes
dotted base [] = base
dotted base (c ∷ extension) = base ++ b'.' ∷ c ∷ extension

-- The name of an entry is that which was stored in it with padding, with a dot in front of the extension
-- where there is one, provided that neither part holds a space, a zero or the mark of a deleted file.
pub get_file_name-padded :
    (base extension : Bytes) (entry : DirectoryEntry)
    → is_plain_name base ≡ true
    → is_plain_name extension ≡ true
    → entry.filename ≡ pad 8 base
    → entry.extension ≡ pad 3 extension
    → get_file_name entry ≡ dotted base extension
unfolding get_file_name
get_file_name-padded base [] entry p q f e = rw f (
    rw e (
      rw (copy_filename-plain base _ p)
        (c_string-plain base [] p ∙ ap (◌++◌ base) c_string-end ∙ append-nil base)))
get_file_name-padded base (c ∷ extension) entry p q f e =
    let first : (byte_at (pad 3 (c ∷ extension)) 0 == b' ') ≡ false = ground (arith, q) in
    rw f (
      rw e (
        rw first (
          rw (copy_filename-plain base _ p) (
            rw (copy_extension-plain (c ∷ extension) _ q)
              (c_string-plain base _ p ∙ ap (◌++◌ base) (c_string-dot (c ∷ extension) q))))))
