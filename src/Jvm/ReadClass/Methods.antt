-- ===== src/Jvm/ReadClass/Methods.antt =====
-- java-virtual-machine/read_class.c: get_methods reads back the methods.
use mathlib.Core.List.{append_assoc}
use computer_systems.Prelude.{
  ℕ, ◌+◌, ◌≡◌, refl, sym, ap, ◌∙◌, List, [], ◌∷◌, ◌++◌, length, drop, drop-append, drop-drop,
  Option, none, some, true,
}
use computer_systems.Jvm.Machine.{Code}
use computer_systems.Jvm.Class.{Constant, Method}
use computer_systems.Jvm.Reader.Reads.{Reads, write_u2, read_u2-Reads, read_u4-Reads, fread-Reads}
use computer_systems.Jvm.ReadClass.{
  read_code, read_method_attributes, get_method, get_methods_from, get_methods, code_name,
}
use computer_systems.Jvm.ReadClass.Print.{
  Attribute, code_attribute, other_attribute, payload, write_attributes, MethodSource, write_method,
  write_methods, HasCode, IsMethod, AreMethods,
}
use computer_systems.Prelude.Text.{str_eq}

str_eq_code : str_eq code_name code_name ≡ true
unfolding str_eq
str_eq_code = refl

module _ (file : List ℕ) where
  read_code-Reads :
      (i : ℕ) (c : Code) (trailing : List ℕ) (pos : ℕ) (rest : List ℕ)
      → drop pos file ≡ payload (code_attribute i c trailing) ++ rest
      → Reads file (read_code none file pos) (some c) (trailing ++ rest)
  unfolding read_code
  read_code-Reads i c trailing pos rest h =
      let stack = read_u2-Reads file pos c.max_stack h in
      let locals = read_u2-Reads file stack.next c.max_locals stack.left in
      let size = read_u4-Reads file locals.next (length c.code) locals.left in
      let code =
        fread-Reads file size.next c.code (size.left ∙ append_assoc c.code trailing rest) in
      record {
        next = code.next;
        reads = rw (stack.reads, locals.reads, size.reads, code.reads) refl;
        left = code.left;
      }

  -- The position behind an attribute, whatever of it has been read.
  behind :
      (bs : List ℕ) (pos : ℕ) (rest : List ℕ)
      → drop pos file ≡ bs ++ rest
      → drop (pos + length bs) file ≡ rest
  behind bs pos rest h =
      sym (drop-drop pos (length bs) file) ∙ ap (drop (length bs)) h ∙ drop-append bs rest

  read_method_attributes-Reads :
      (pool : List Constant) {found : Option Code} (as' : List Attribute) {c : Code} (pos : ℕ)
      {rest : List ℕ}
      → HasCode pool found as' c
      → drop pos file ≡ write_attributes as' rest
      → Reads file (read_method_attributes pool (length as') found file pos) c rest
  unfolding read_method_attributes write_attributes
  read_method_attributes-Reads pool [] pos HasCode.done h = record {
    next = pos;
    reads = refl;
    left = h;
  }
  read_method_attributes-Reads pool (other_attribute i bytes ∷ as') pos {rest}
        (HasCode.skipped _ _ type named other k) h =
      let index = read_u2-Reads file pos i h in
      let size = read_u4-Reads file index.next (length bytes) index.left in
      let more =
        read_method_attributes-Reads pool as' (size.next + length bytes) k
          (behind bytes size.next (write_attributes as' rest) size.left) in
      record {
        next = more.next;
        reads = rw (index.reads, size.reads, named, other, more.reads) refl;
        left = more.left;
      }
  read_method_attributes-Reads pool (code_attribute i c trailing ∷ as') pos {rest}
        (HasCode.taken _ _ named k) h =
      let a = code_attribute i c trailing in
      let index = read_u2-Reads file pos i h in
      let size = read_u4-Reads file index.next (length (payload a)) index.left in
      let code = read_code-Reads i c trailing size.next (write_attributes as' rest) size.left in
      let more =
        read_method_attributes-Reads pool as' (size.next + length (payload a)) k
          (behind (payload a) size.next (write_attributes as' rest) size.left) in
      record {
        next = more.next;
        reads = rw (index.reads, size.reads, named, str_eq_code, code.reads, more.reads) refl;
        left = more.left;
      }

  get_method-Reads :
      (pool : List Constant) (s : MethodSource) (m : Method) (pos : ℕ) {rest : List ℕ}
      → IsMethod pool s m
      → drop pos file ≡ write_method s rest
      → Reads file (get_method pool file pos) m rest
  unfolding get_method write_method
  get_method-Reads pool s m pos is h =
      let flags = read_u2-Reads file pos s.access_flags h in
      let name = read_u2-Reads file flags.next s.name_index flags.left in
      let descriptor = read_u2-Reads file name.next s.descriptor_index name.left in
      let count = read_u2-Reads file descriptor.next (length s.attributes) descriptor.left in
      let code = read_method_attributes-Reads pool s.attributes count.next is.coded count.left in
      record {
        next = code.next;
        reads =
            rw
              (
                flags.reads, name.reads, descriptor.reads, count.reads, is.named, is.described,
                is.static, code.reads,
              )
              refl;
        left = code.left;
      }

  get_methods_from-Reads :
      (pool : List Constant) (ss : List MethodSource) (ms : List Method) (pos : ℕ) {rest : List ℕ}
      → AreMethods pool ss ms
      → drop pos file ≡ write_methods ss rest
      → Reads file (get_methods_from pool (length ss) file pos) ms rest
  unfolding get_methods_from write_methods
  get_methods_from-Reads pool [] [] pos is h = record { next = pos; reads = refl; left = h }
  get_methods_from-Reads pool [] (m ∷ ms) pos is h = elim is [ ]
  get_methods_from-Reads pool (s ∷ ss) [] pos is h = elim is [ ]
  get_methods_from-Reads pool (s ∷ ss) (m ∷ ms) pos (is, more) h =
      let first = get_method-Reads pool s m pos is h in
      let others = get_methods_from-Reads pool ss ms first.next more first.left in
      record { next = others.next; reads = rw (first.reads, others.reads) refl; left = others.left }

  pub get_methods-Reads :
      (pool : List Constant) (ss : List MethodSource) (ms : List Method) (pos : ℕ) {rest : List ℕ}
      → AreMethods pool ss ms
      → drop pos file ≡ write_u2 (length ss) (write_methods ss rest)
      → Reads file (get_methods pool file pos) ms rest
  unfolding get_methods
  get_methods-Reads pool ss ms pos is h =
      let count = read_u2-Reads file pos (length ss) h in
      let all = get_methods_from-Reads pool ss ms count.next is count.left in
      record { next = all.next; reads = rw (count.reads, all.reads) refl; left = all.left }
