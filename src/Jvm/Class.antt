-- ===== src/Jvm/Class.antt =====
-- java-virtual-machine/read_class.c and class_file.h: a class file in memory, and the lookups that
-- the machine makes in it. Text is a list of bytes; the terminator of an array is its list's end.
use computer_systems.Prelude.{
  ℕ, zero, suc, ◌+◌, ◌-◌, ◌%◌, ◌^◌, Bool, false, not, ◌&&◌, List, [], ◌∷◌, Option, none, some,
  length, ltb, leb, ◌==◌, if◌then◌else◌,
}
use computer_systems.Prelude.Text.{str_eq}
use computer_systems.Jvm.Outcome.{Result, ok, err, ◌>>=◌, get, undefined, assertion}
use computer_systems.Jvm.Machine.{Code, Machine, push, skip, byte_at}

-- cp_info, with the fields of the record that its tag says `info` points to
pub data Constant : Type 0 where
  utf8 : List ℕ → Constant
  integer : ℕ → Constant
  class_name : ℕ → Constant
  fieldref : ℕ → ℕ → Constant
  methodref : ℕ → ℕ → Constant
  name_and_type : ℕ → ℕ → Constant

pub record Method : Type 0 where
  pub name : List ℕ
  pub descriptor : List ℕ
  pub code : Code

pub record Class : Type 0 where
  pub constant_pool : List Constant
  pub methods : List Method

-- Constants are numbered from 1.
unfoldable pub get_constant : List Constant → ℕ → Result Constant
get_constant pool index =
    if ltb 0 index && leb index (length pool) then get pool (index - 1) else err assertion

abbrev pub expect_utf8 : Constant → Result (List ℕ)
expect_utf8 (utf8 s) = ok s
expect_utf8 _ = err assertion

abbrev pub expect_name_and_type : Constant → Result (ℕ × ℕ)
expect_name_and_type (name_and_type n d) = ok (n, d)
expect_name_and_type _ = err assertion

abbrev pub expect_methodref : Constant → Result ℕ
expect_methodref (methodref _ nt) = ok nt
expect_methodref _ = err assertion

unfoldable pub get_method_name_and_type : List Constant → ℕ → Result (ℕ × ℕ)
get_method_name_and_type pool index = do
  method_constant ← get_constant pool index
  nt ← expect_methodref method_constant
  name_and_type_constant ← get_constant pool nt
  expect_name_and_type name_and_type_constant

unfoldable pub find_method : List ℕ → List ℕ → List Method → Option Method
find_method name descriptor [] = none
find_method name descriptor (m ∷ ms) =
    if str_eq m.name name && str_eq m.descriptor descriptor
    then some m
    else find_method name descriptor ms

unfoldable pub find_method_from_index : ℕ → Class → Result (Option Method)
find_method_from_index index cls = do
  (name_index, descriptor_index) ← get_method_name_and_type cls.constant_pool index
  c₁ ← get_constant cls.constant_pool name_index
  name ← expect_utf8 c₁
  c₂ ← get_constant cls.constant_pool descriptor_index
  descriptor ← expect_utf8 c₂
  ok (find_method name descriptor cls.methods)

-- `strchr`: the bytes behind the first `c`, and how many stand before it.
unfoldable pub strchr : ℕ → List ℕ → Option (ℕ × List ℕ)
strchr c [] = none
strchr c (x ∷ xs) =
    let later = strchr c xs in
    if x == c then some (0, xs) else elim later [ none ↦ none | some (i, r) ↦ some (i + 1, r) ]

-- The loop from `start` on, where `left` bytes are left up to `end`. A byte `[` is counted, and the
-- byte behind it is skipped; `params` is a u2.
unfoldable pub count_params : (skipping : Bool) → List ℕ → ℕ → ℕ → ℕ
count_params skipping [] left params = params
count_params skipping (c ∷ cs) zero params = params
count_params skipping (c ∷ cs) (suc left) params =
    count_params (not skipping && (c == b'[')) cs left
      (if skipping then params else (params + 1) % 2 ^ 16)

-- With no `)` the pointer `end` is null and the loop makes no round; with `)` and no `(` it starts
-- at a null pointer.
unfoldable pub params_between : Option (ℕ × List ℕ) → Option (ℕ × List ℕ) → Result ℕ
params_between none start = ok 0
params_between (some end) none = err undefined
params_between (some (end, _)) (some (start, rest)) =
    ok (count_params false rest (end - (start + 1)) 0)

unfoldable pub get_number_of_parameters : Method → Result ℕ
get_number_of_parameters m = params_between (strchr b')' m.descriptor) (strchr b'(' m.descriptor)

-- An entry of another kind than an integer read as one is no int.
abbrev pub expect_integer : Constant → Result ℕ
expect_integer (integer v) = ok v
expect_integer _ = err undefined

unfoldable pub ldc : Code → Class → Machine → Result Machine
ldc c cls m = do
  i ← byte_at c 1 m
  constant ← (if i == 0 then err undefined else get cls.constant_pool (i - 1))
  v ← expect_integer constant
  m₁ ← push v m
  ok (skip 1 m₁)
