-- ===== src/Jvm/Reader/Reads.antt =====
-- java-virtual-machine/read_class.c: the reads give back what was written.
use computer_systems.Prelude.{
  ℕ, ◌+◌, ◌*◌, ◌/◌, ◌%◌, ◌^◌, ◌≡◌, refl, sym, ap, ◌∙◌, true, List, ◌∷◌, ◌++◌, length, drop, ◌==◌,
  arith, take-append, drop-append, drop-drop,
}
use computer_systems.Jvm.Outcome.{Result, ok}
use computer_systems.Jvm.Reader.{read_u1, read_u2, read_u4, fread}

-- Big-endian numbers in front of more bytes.
abbrev pub write_u2 : ℕ → List ℕ → List ℕ
write_u2 n rest = n / 2 ^ 8 ∷ n % 2 ^ 8 ∷ rest

abbrev pub write_u4 : ℕ → List ℕ → List ℕ
write_u4 n rest = write_u2 (n / 2 ^ 16) (write_u2 (n % 2 ^ 16) rest)

-- The read ends with a value at a position behind which the file is `rest`.
pub record Reads {A : Type 0} (file : List ℕ) (result : Result (A × ℕ)) (a : A) (rest : List ℕ)
    : Type 0 where
  pub next : ℕ
  pub reads : result ≡ ok (a, next)
  pub left : drop next file ≡ rest

module _ (file : List ℕ) (pos : ℕ) {rest : List ℕ} where
  pub read_u1-Reads : {b : ℕ} → drop pos file ≡ b ∷ rest → Reads file (read_u1 file pos) b rest
  unfolding read_u1
  read_u1-Reads h = record {
    next = pos + 1;
    reads = rw h refl;
    left = sym (drop-drop pos 1 file) ∙ ap (drop 1) h;
  }

  pub fread-Reads :
      (bs : List ℕ) → drop pos file ≡ bs ++ rest → Reads file (fread (length bs) file pos) bs rest
  unfolding fread
  fread-Reads bs h =
      let same : (length bs == length bs) ≡ true = ground arith in
      record {
        next = pos + length bs;
        reads = rw h (rw (take-append bs rest) (rw same refl));
        left = sym (drop-drop pos (length bs) file) ∙ ap (drop (length bs)) h ∙ drop-append bs rest;
      }

pub read_u2-Reads :
    (file : List ℕ) (pos n : ℕ) {rest : List ℕ}
    → drop pos file ≡ write_u2 n rest
    → Reads file (read_u2 file pos) n rest
unfolding read_u2
read_u2-Reads file pos n h =
    let high = read_u1-Reads file pos h in
    let low = read_u1-Reads file high.next high.left in
    let whole : n / 2 ^ 8 * 2 ^ 8 + n % 2 ^ 8 ≡ n = omega arith in
    record { next = low.next; reads = rw (high.reads, low.reads, whole) refl; left = low.left }

pub read_u4-Reads :
    (file : List ℕ) (pos n : ℕ) {rest : List ℕ}
    → drop pos file ≡ write_u4 n rest
    → Reads file (read_u4 file pos) n rest
unfolding read_u4
read_u4-Reads file pos n h =
    let high = read_u2-Reads file pos (n / 2 ^ 16) h in
    let low = read_u2-Reads file high.next (n % 2 ^ 16) high.left in
    let whole : n / 2 ^ 16 * 2 ^ 16 + n % 2 ^ 16 ≡ n = omega arith in
    record { next = low.next; reads = rw (high.reads, low.reads, whole) refl; left = low.left }
