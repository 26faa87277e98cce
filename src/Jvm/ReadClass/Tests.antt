-- ===== src/Jvm/ReadClass/Tests.antt =====
-- java-virtual-machine/read_class.c: the theorems on the bytes of a small class.
use computer_systems.Prelude.{ℕ, ◌≤◌, ◌≡◌, refl, [], ◌∷◌, none, drop, arith}
use computer_systems.Prelude.Text.{str_eq, c_string}
use computer_systems.Jvm.Outcome.{ok, get}
use computer_systems.Jvm.Class.{Class, Method, utf8, get_constant, find_method}
use computer_systems.Jvm.Semantics.{push_constant, print}
use computer_systems.Jvm.Runs.{Runs, entry, step, return_void}
use computer_systems.Jvm.Execute.{main_method, main_descriptor}
use computer_systems.Jvm.ReadClass.{code_name, get_class, main_file}
use computer_systems.Jvm.ReadClass.Print.{
  ClassSource, AreText, AreMethods, HasCode, code_attribute, other_attribute, write_class,
}
use computer_systems.Jvm.ReadClass.RoundTrip.{get_class-write_class, main_file-Runs}

-- System.out.println(5);
abbrev print_five : Method
print_five = record {
  name = main_method;
  descriptor = main_descriptor;
  code = record { max_stack = 2; max_locals = 1; code = 0x08 ∷ 0xb6 ∷ 0 ∷ 0 ∷ 0xb1 ∷ [] };
}

-- A class of that method, whose code stands behind another attribute and has a tail.
abbrev source : ClassSource
source = record {
  versions = (0, 52);
  pool = utf8 main_method ∷ utf8 main_descriptor ∷ utf8 code_name ∷ utf8 (b'X' ∷ []) ∷ [];
  info = (1, 1, 1);
  sources =
      record {
        access_flags = 9;
        name_index = 1;
        descriptor_index = 2;
        attributes =
            other_attribute 4 (7 ∷ 7 ∷ [])
            ∷ code_attribute 3 print_five.code (0 ∷ 0 ∷ 0 ∷ 0 ∷ [])
            ∷ [];
      }
      ∷ [];
}

abbrev five_class : Class
five_class = record { constant_pool = source.pool; methods = print_five ∷ [] }

source-AreText : AreText source.pool
unfolding c_string
source-AreText = (refl, (refl, (refl, (refl, tt))))

source-AreMethods : AreMethods source.pool source.sources (print_five ∷ [])
unfolding get_constant get str_eq
source-AreMethods = (
  record {
    named = refl;
    described = refl;
    static = refl;
    coded =
        HasCode.skipped 4 (7 ∷ 7 ∷ []) (b'X' ∷ []) refl refl
          (HasCode.taken 3 (0 ∷ 0 ∷ 0 ∷ 0 ∷ []) refl HasCode.done);
  },
  tt,
)

get_class-write_class_example :
    (end : ℕ) × (get_class (write_class source (1 ∷ 2 ∷ [])) 0 ≡ ok (five_class, end))
    × (drop end (write_class source (1 ∷ 2 ∷ [])) ≡ 1 ∷ 2 ∷ [])
get_class-write_class_example =
    get_class-write_class source (print_five ∷ []) (1 ∷ 2 ∷ []) source-AreText (omega arith)
      source-AreMethods

print_five-Runs : Runs five_class print_five.code (entry print_five.code [] [] []) none [] (5 ∷ [])
unfolding get
print_five-Runs =
    step (push_constant 8 (omega arith) (omega arith) refl) (step (print refl) (return_void refl))

main_file-Runs_example :
    (enough : ℕ) × ((fuel : ℕ)
      → enough ≤ fuel
      → main_file fuel (write_class source []) ≡ ok (5 ∷ []))
unfolding find_method str_eq
main_file-Runs_example =
    main_file-Runs source (print_five ∷ []) print_five source-AreText (omega arith)
      source-AreMethods refl (omega arith) print_five-Runs
