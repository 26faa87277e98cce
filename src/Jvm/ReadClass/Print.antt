-- ===== src/Jvm/ReadClass/Print.antt =====
-- java-virtual-machine/class_file.h: the bytes of a class file, written out.
use computer_systems.Prelude.{
  ℕ, ◌+◌, ◌≡◌, ◌||◌, not, true, false, List, [], ◌∷◌, ◌++◌, Option, none, some, length, ◌==◌,
}
use Prim.Native.Nat.{bit_and}
use computer_systems.Prelude.Text.{str_eq, c_string}
use computer_systems.Jvm.Outcome.{ok}
use computer_systems.Jvm.Machine.{Code}
use computer_systems.Jvm.Class.{
  Constant, utf8, integer, class_name, fieldref, methodref, name_and_type, Method, get_constant,
}
use computer_systems.Jvm.Reader.Reads.{write_u2, write_u4}
use computer_systems.Jvm.ReadClass.{class_magic, is_static, code_name, init_name}

unfoldable pub write_constant : Constant → List ℕ → List ℕ
write_constant (utf8 s) rest = 1 ∷ write_u2 (length s) (s ++ rest)
write_constant (integer v) rest = 3 ∷ write_u4 v rest
write_constant (class_name i) rest = 7 ∷ write_u2 i rest
write_constant (fieldref c nt) rest = 9 ∷ write_u2 c (write_u2 nt rest)
write_constant (methodref c nt) rest = 10 ∷ write_u2 c (write_u2 nt rest)
write_constant (name_and_type n d) rest = 12 ∷ write_u2 n (write_u2 d rest)

unfoldable pub write_constants : List Constant → List ℕ → List ℕ
write_constants [] rest = rest
write_constants (c ∷ cs) rest = write_constant c (write_constants cs rest)

-- The attribute Code, with what stands behind the code, and any other one.
pub data Attribute : Type 0 where
  code_attribute : ℕ → Code → List ℕ → Attribute
  other_attribute : ℕ → List ℕ → Attribute

abbrev pub attribute_index : Attribute → ℕ
attribute_index (code_attribute i c trailing) = i
attribute_index (other_attribute i payload) = i

abbrev pub payload : Attribute → List ℕ
payload (code_attribute i c trailing) =
    write_u2 c.max_stack (write_u2 c.max_locals (write_u4 (length c.code) (c.code ++ trailing)))
payload (other_attribute i bytes) = bytes

unfoldable pub write_attributes : List Attribute → List ℕ → List ℕ
write_attributes [] rest = rest
write_attributes (a ∷ as') rest =
    write_u2 (attribute_index a)
      (write_u4 (length (payload a)) (payload a ++ write_attributes as' rest))

pub record MethodSource : Type 0 where
  pub access_flags : ℕ
  pub name_index : ℕ
  pub descriptor_index : ℕ
  pub attributes : List Attribute

unfoldable pub write_method : MethodSource → List ℕ → List ℕ
write_method m rest = write_u2 m.access_flags (
    write_u2 m.name_index (
      write_u2 m.descriptor_index
        (write_u2 (length m.attributes) (write_attributes m.attributes rest))))

unfoldable pub write_methods : List MethodSource → List ℕ → List ℕ
write_methods [] rest = rest
write_methods (m ∷ ms) rest = write_method m (write_methods ms rest)

pub record ClassSource : Type 0 where
  pub versions : ℕ × ℕ
  pub pool : List Constant
  pub info : ℕ × ℕ × ℕ
  pub sources : List MethodSource

-- No interfaces and no fields.
unfoldable pub write_class : ClassSource → List ℕ → List ℕ
write_class c rest =
    let (minor, major) = c.versions in
    let (access_flags, this_class, super_class) = c.info in
    write_u4 class_magic (
      write_u2 minor (
        write_u2 major (
          write_u2 (length c.pool + 1) (
            write_constants c.pool (
              write_u2 access_flags (
                write_u2 this_class (
                  write_u2 super_class (
                    write_u2 0 (
                      write_u2 0
                        (write_u2 (length c.sources) (write_methods c.sources rest)))))))))))

-- Text has no zero byte.
abbrev pub IsText : Constant → Type 0
IsText (utf8 s) = c_string s ≡ s
IsText _ = Unit

abbrev pub AreText : List Constant → Type 0
AreText [] = Unit
AreText (c ∷ cs) = IsText c × AreText cs

-- One of the attributes is the code; `found` is that of those in front.
pub data HasCode (pool : List Constant) : Option Code → List Attribute → Code → Type 0 where
  done : {c : Code} → HasCode pool (some c) [] c
  skipped :
      {found : Option Code} {c : Code} {as' : List Attribute} (i : ℕ) (bytes type : List ℕ)
      → get_constant pool i ≡ ok (utf8 type)
      → str_eq type code_name ≡ false
      → HasCode pool found as' c
      → HasCode pool found (other_attribute i bytes ∷ as') c
  taken :
      {c : Code} {d : Code} {as' : List Attribute} (i : ℕ) (trailing : List ℕ)
      → get_constant pool i ≡ ok (utf8 code_name)
      → HasCode pool (some c) as' d
      → HasCode pool none (code_attribute i c trailing ∷ as') d

-- The source is one of the method: its indices are those of the name and the descriptor, it is
-- static or the constructor, and it has one code.
pub record IsMethod (pool : List Constant) (s : MethodSource) (m : Method) : Type 0 where
  pub named : get_constant pool s.name_index ≡ ok (utf8 m.name)
  pub described : get_constant pool s.descriptor_index ≡ ok (utf8 m.descriptor)
  pub static : (str_eq m.name init_name || not (bit_and s.access_flags is_static == 0)) ≡ true
  pub coded : HasCode pool none s.attributes m.code

abbrev pub AreMethods : List Constant → List MethodSource → List Method → Type 0
AreMethods pool [] [] = Unit
AreMethods pool (s ∷ ss) (m ∷ ms) = IsMethod pool s m × AreMethods pool ss ms
AreMethods pool _ _ = ⊥
