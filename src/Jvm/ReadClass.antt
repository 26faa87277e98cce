-- ===== src/Jvm/ReadClass.antt =====
-- java-virtual-machine/read_class.c: the reading of a class file.
pub mod Print
pub mod Constants
pub mod Methods
pub mod RoundTrip
mod Tests
use computer_systems.Prelude.{
  ℕ, zero, suc, ◌+◌, ◌-◌, ◌%◌, ◌^◌, not, ◌||◌, Bool, true, false, List, [], ◌∷◌, Option, none, some,
  ◌==◌, if◌then◌else◌,
}
use Prim.Native.Nat.{bit_and}
use computer_systems.Prelude.Text.{str_eq, c_string}
use computer_systems.Jvm.Outcome.{Result, ok, err, assertion}
use computer_systems.Jvm.Machine.{Code}
use computer_systems.Jvm.Class.{
  Constant, utf8, integer, class_name, fieldref, methodref, name_and_type, Method, Class,
  get_constant, expect_utf8,
}
use computer_systems.Jvm.Execute.{main}
use computer_systems.Jvm.Reader.{
  Reader, ◌>>=◌, return, lift, assert, ftell, fseek, read_u1, read_u2, read_u4, fread,
}

abbrev pub class_magic : ℕ
class_magic = 0xCAFEBABE

abbrev pub is_static : ℕ
is_static = 0x0008

unfoldable pub get_class_header : Reader Unit
get_class_header = do
  magic ← read_u4
  _ ← assert (magic == class_magic)
  major_version ← read_u2
  minor_version ← read_u2
  return tt

-- The cases of the switch over the tag.
unfoldable pub read_info : ℕ → Reader Constant
read_info tag =
    if tag == 1
    then (do length ← read_u2; info ← fread length; return (utf8 (c_string info)))
    else if tag == 3
    then (do bytes ← read_u4; return (integer bytes))
    else if tag == 7
    then (do string_index ← read_u2; return (class_name string_index))
    else if tag == 10
    then (do class_index ← read_u2; nt ← read_u2; return (methodref class_index nt))
    else if tag == 9
    then (do class_index ← read_u2; nt ← read_u2; return (fieldref class_index nt))
    else if tag == 12
    then (do name ← read_u2; descriptor ← read_u2; return (name_and_type name descriptor))
    else lift (err assertion)

unfoldable pub get_constants : ℕ → Reader (List Constant)
get_constants zero = return []
get_constants (suc n) = do
  tag ← read_u1
  constant ← read_info tag
  constants ← get_constants n
  return (constant ∷ constants)

-- The count includes the unused constant 0. A count of 0 wraps around.
unfoldable pub get_constant_pool : Reader (List Constant)
get_constant_pool = do count ← read_u2; get_constants ((count + 2 ^ 16 - 1) % 2 ^ 16)

unfoldable pub get_class_info : Reader Unit
get_class_info = do
  access_flags ← read_u2
  this_class ← read_u2
  super_class ← read_u2
  interfaces_count ← read_u2
  _ ← assert (interfaces_count == 0)
  fields_count ← read_u2
  assert (fields_count == 0)

abbrev pub code_name : List ℕ
code_name = b'C' ∷ b'o' ∷ b'd' ∷ b'e' ∷ []

abbrev pub init_name : List ℕ
init_name = b'<' ∷ b'i' ∷ b'n' ∷ b'i' ∷ b't' ∷ b'>' ∷ []

abbrev pub is_found : Option Code → Bool
is_found none = false
is_found (some c) = true

-- The attribute Code, which comes once.
unfoldable pub read_code : Option Code → Reader (Option Code)
read_code found = do
  _ ← assert (not (is_found found))
  max_stack ← read_u2
  max_locals ← read_u2
  code_length ← read_u4
  code ← fread code_length
  return (some (record { code = code; max_stack = max_stack; max_locals = max_locals }))

-- The loop, with the code found so far. What an attribute holds behind the code is skipped.
unfoldable pub read_method_attributes : List Constant → ℕ → Option Code → Reader Code
read_method_attributes pool zero none = lift (err assertion)
read_method_attributes pool zero (some code) = return code
read_method_attributes pool (suc n) found = do
  attribute_name_index ← read_u2
  attribute_length ← read_u4
  start ← ftell
  constant ← lift (get_constant pool attribute_name_index)
  type ← lift (expect_utf8 constant)
  now ← (if str_eq type code_name then read_code found else return found)
  _ ← fseek (start + attribute_length)
  read_method_attributes pool n now

unfoldable pub get_method : List Constant → Reader Method
get_method pool = do
  access_flags ← read_u2
  name_index ← read_u2
  descriptor_index ← read_u2
  attributes_count ← read_u2
  name_constant ← lift (get_constant pool name_index)
  name ← lift (expect_utf8 name_constant)
  descriptor_constant ← lift (get_constant pool descriptor_index)
  descriptor ← lift (expect_utf8 descriptor_constant)
  _ ← assert (str_eq name init_name || not (bit_and access_flags is_static == 0))
  code ← read_method_attributes pool attributes_count none
  return (record { name = name; descriptor = descriptor; code = code })

unfoldable pub get_methods_from : List Constant → ℕ → Reader (List Method)
get_methods_from pool zero = return []
get_methods_from pool (suc n) = do
  method ← get_method pool
  methods ← get_methods_from pool n
  return (method ∷ methods)

unfoldable pub get_methods : List Constant → Reader (List Method)
get_methods pool = do count ← read_u2; get_methods_from pool count

unfoldable pub get_class : Reader Class
get_class = do
  _ ← get_class_header
  constant_pool ← get_constant_pool
  _ ← get_class_info
  methods ← get_methods constant_pool
  return (record { constant_pool = constant_pool; methods = methods })

-- `main` with the class file that it opens.
unfoldable pub main_file : ℕ → List ℕ → Result (List ℕ)
main_file fuel file = elim (get_class file 0) [ ok (cls, end) ↦ main fuel cls | err e ↦ err e ]
