-- ===== src/Jvm/ReadClass/Constants.antt =====
-- java-virtual-machine/read_class.c: get_constant_pool reads back the constants.
use computer_systems.Prelude.{
  ℕ, ◌+◌, ◌-◌, ◌%◌, ◌^◌, ◌<◌, ◌≡◌, refl, ◌∙◌, List, [], ◌∷◌, length, drop, arith,
}
use computer_systems.Jvm.Class.{
  Constant, utf8, integer, class_name, fieldref, methodref, name_and_type,
}
use computer_systems.Jvm.Reader.Reads.{
  Reads, write_u2, read_u1-Reads, read_u2-Reads, read_u4-Reads, fread-Reads,
}
use computer_systems.Jvm.ReadClass.{read_info, get_constants, get_constant_pool}
use computer_systems.Jvm.ReadClass.Print.{write_constant, write_constants, IsText, AreText}

abbrev tag_of : Constant → ℕ
tag_of (utf8 s) = 1
tag_of (integer v) = 3
tag_of (class_name i) = 7
tag_of (fieldref c nt) = 9
tag_of (methodref c nt) = 10
tag_of (name_and_type n d) = 12

-- What is written behind the tag.
abbrev info_of : Constant → List ℕ → List ℕ
info_of c rest = drop 1 (write_constant c rest)

module _ (file : List ℕ) where
  read_info-Reads :
      (c : Constant) (pos : ℕ) {rest : List ℕ}
      → IsText c
      → drop pos file ≡ info_of c rest
      → Reads file (read_info (tag_of c) file pos) c rest
  unfolding read_info write_constant
  read_info-Reads (utf8 s) pos t h =
      let n = read_u2-Reads file pos (length s) h in
      let bytes = fread-Reads file n.next s n.left in
      record { next = bytes.next; reads = rw (n.reads, bytes.reads, t) refl; left = bytes.left }
  read_info-Reads (integer v) pos t h =
      let n = read_u4-Reads file pos v h in
      record { next = n.next; reads = rw n.reads refl; left = n.left }
  read_info-Reads (class_name i) pos t h =
      let n = read_u2-Reads file pos i h in
      record { next = n.next; reads = rw n.reads refl; left = n.left }
  read_info-Reads (fieldref c nt) pos t h =
      let a = read_u2-Reads file pos c h in
      let b = read_u2-Reads file a.next nt a.left in
      record { next = b.next; reads = rw (a.reads, b.reads) refl; left = b.left }
  read_info-Reads (methodref c nt) pos t h =
      let a = read_u2-Reads file pos c h in
      let b = read_u2-Reads file a.next nt a.left in
      record { next = b.next; reads = rw (a.reads, b.reads) refl; left = b.left }
  read_info-Reads (name_and_type n d) pos t h =
      let a = read_u2-Reads file pos n h in
      let b = read_u2-Reads file a.next d a.left in
      record { next = b.next; reads = rw (a.reads, b.reads) refl; left = b.left }

  tag_first : (c : Constant) (rest : List ℕ) → write_constant c rest ≡ tag_of c ∷ info_of c rest
  unfolding write_constant
  tag_first (utf8 s) rest = refl
  tag_first (integer v) rest = refl
  tag_first (class_name i) rest = refl
  tag_first (fieldref c nt) rest = refl
  tag_first (methodref c nt) rest = refl
  tag_first (name_and_type n d) rest = refl

  get_constants-Reads :
      (cs : List Constant) (pos : ℕ) {rest : List ℕ}
      → AreText cs
      → drop pos file ≡ write_constants cs rest
      → Reads file (get_constants (length cs) file pos) cs rest
  unfolding get_constants write_constants
  get_constants-Reads [] pos t h = record { next = pos; reads = refl; left = h }
  get_constants-Reads (c ∷ cs) pos (t, ts) h =
      let tag = read_u1-Reads file pos (h ∙ tag_first c _) in
      let info = read_info-Reads c tag.next t tag.left in
      let more = get_constants-Reads cs info.next ts info.left in
      record {
        next = more.next;
        reads = rw (tag.reads, info.reads, more.reads) refl;
        left = more.left;
      }

  -- A pool of fewer than 2^16 - 1 constants.
  pub get_constant_pool-Reads :
      (cs : List Constant) (pos : ℕ) {rest : List ℕ}
      → AreText cs
      → length cs + 1 < 2 ^ 16
      → drop pos file ≡ write_u2 (length cs + 1) (write_constants cs rest)
      → Reads file (get_constant_pool file pos) cs rest
  unfolding get_constant_pool
  get_constant_pool-Reads cs pos t small h =
      let count = read_u2-Reads file pos (length cs + 1) h in
      let all = get_constants-Reads cs count.next t count.left in
      let same : (length cs + 1 + 2 ^ 16 - 1) % 2 ^ 16 ≡ length cs = omega arith in
      record { next = all.next; reads = rw (count.reads, same, all.reads) refl; left = all.left }
