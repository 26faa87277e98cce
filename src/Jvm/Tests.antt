-- ===== src/Jvm/Tests.antt =====
-- Runs of small classes, and the theorems about the machine at concrete inputs.
use computer_systems.Prelude.{ℕ, ◌-◌, ◌^◌, ◌≤◌, ◌≡◌, refl, inl, List, [], ◌∷◌, none, some, arith}
use computer_systems.Prelude.Int.{pos, ◌+ℤ◌, ◌-ℤ◌}
use computer_systems.Jvm.Outcome.{Result, ok, err, out_of_fuel, get, put, below}
use computer_systems.Jvm.Opcode.{i_iadd, i_isub, i_idiv, i_irem}
use computer_systems.Jvm.Int32.{
  signed32, binary, add32, sub32, mul32, neg32, div32, rem32, shl32, sar32, shr32, sign_extend16,
  sign_extend16_32, sign_extend8_32,
}
use computer_systems.Jvm.Machine.{
  heap_init, heap_add, heap_get, peek, poke, poke_above, push, drop_slots, skip, set_locals,
  set_heap, print_int, byte_at, word_at,
}
use computer_systems.Prelude.Text.{str_eq}
use computer_systems.Jvm.Class.{
  Class, Method, utf8, methodref, name_and_type, get_constant, get_method_name_and_type,
  find_method, find_method_from_index, strchr, count_params, params_between,
  get_number_of_parameters, ldc,
}
use computer_systems.Jvm.Semantics.{frame, layout, load_short, push_constant, arithmetic, print}
use computer_systems.Jvm.Runs.{Runs, Calls, entry, step, call_value, return_value, return_void}
use computer_systems.Jvm.Instr.{
  add_to_xor, bi_push, invoke_virtual, get_static, i_const, si_push, load_local, store_local,
  i_load, i_store, i_inc, i_iload_nums, i_istore_nums, aload, astore, aload_nums, astore_nums,
  taken, displace, jump, go_to, dup, newarray, arraylength, iastore, iaload,
}
use computer_systems.Jvm.Execute.{
  main_method, main_descriptor, fresh, move_args, resume, invoke_static, dispatch, execute_loop,
  main,
}
use computer_systems.Jvm.Refine.Step.{Simulated, Step-Simulated}
use computer_systems.Jvm.Refine.Runs.{Returns, Runs-Returns}
use computer_systems.Jvm.Main.{main-Runs}
use computer_systems.Jvm.Lookup.{
  int, int_array, print_descriptor, Found, find_method-Found,
  get_number_of_parameters-print_descriptor,
}
use computer_systems.Jvm.Arith.{IsDivision, to32, binary-add, binary-IsDivision}

abbrev double_name : List ℕ
double_name = b'd' ∷ []

abbrev double_descriptor : List ℕ
double_descriptor = b'(' ∷ b'I' ∷ b')' ∷ b'I' ∷ []

-- static int d(int x) { return x + x; }
abbrev double : Method
double = record {
  name = double_name;
  descriptor = double_descriptor;
  code = record { max_stack = 2; max_locals = 1; code = 0x1a ∷ 0x1a ∷ 0x60 ∷ 0xac ∷ [] };
}

-- System.out.println(d(5));
abbrev main_code : Method
main_code = record {
  name = main_method;
  descriptor = main_descriptor;
  code = record {
    max_stack = 2;
    max_locals = 1;
    code = 0x08 ∷ 0xb8 ∷ 0 ∷ 1 ∷ 0xb6 ∷ 0 ∷ 0 ∷ 0xb1 ∷ [];
  };
}

abbrev sample : Class
sample = record {
  constant_pool =
      methodref 0 2 ∷ name_and_type 3 4 ∷ utf8 double_name ∷ utf8 double_descriptor ∷ [];
  methods = double ∷ main_code ∷ [];
}

-- `main`, open all the way down.
run : ℕ → Class → Result (List ℕ)
unfolding get put below binary add32 sub32 mul32 neg32 div32 rem32 shl32 sar32 shr32 sign_extend16
    sign_extend16_32 sign_extend8_32 heap_init heap_add heap_get peek poke poke_above push
    drop_slots skip set_locals set_heap print_int byte_at word_at str_eq get_constant
    get_method_name_and_type find_method find_method_from_index strchr count_params params_between
    get_number_of_parameters ldc add_to_xor bi_push invoke_virtual get_static i_const si_push
    load_local store_local i_load i_store i_inc i_iload_nums i_istore_nums aload astore aload_nums
    astore_nums taken displace jump go_to dup newarray arraylength iastore iaload fresh move_args
    resume invoke_static dispatch execute_loop main
run fuel cls = main fuel cls

run-sample : run 20 sample ≡ ok (10 ∷ [])
unfolding run
run-sample = refl

-- With one unit of fuel for each instruction but the last there is no result.
run-sample_short : run 5 sample ≡ err out_of_fuel
unfolding run
run-sample_short = refl

-- Division by zero gives 0, and a remainder by zero the negated dividend.
zero_divisor : (binary i_idiv 7 0 ≡ ok 0) × (binary i_irem 7 0 ≡ ok (2 ^ 32 - 7))
unfolding binary neg32
zero_divisor = (refl, refl)

double-Runs : Runs sample double.code (entry double.code (5 ∷ []) [] []) (some 10) [] []
unfolding get binary add32
double-Runs = step (load_short 0 (omega arith) (inl refl) refl) (
    step (load_short 0 (omega arith) (inl refl) refl) (
      step (arithmetic i_iadd (omega arith) (omega arith) (omega arith) refl refl)
        (return_value (inl refl))))

double-Calls : Calls sample main_code.code 1 double (5 ∷ [])
unfolding run
double-Calls = record {
  index = 1;
  fetch = refl;
  word = (0, 1, refl, refl, refl, omega arith);
  found = refl;
  arity = refl;
  fits = omega arith;
  small = omega arith;
}

main_code-Runs : Runs sample main_code.code (entry main_code.code [] [] []) none [] (10 ∷ [])
unfolding get
main_code-Runs = step (push_constant 8 (omega arith) (omega arith) refl) (
    call_value {n' = 1} double (5 ∷ []) double-Calls refl double-Runs
      (step (print refl) (return_void refl)))

main-Runs_example : (enough : ℕ) × ((fuel : ℕ) → enough ≤ fuel → main fuel sample ≡ ok (10 ∷ []))
unfolding find_method str_eq
main-Runs_example = main-Runs sample main_code refl (omega arith) main_code-Runs

Runs-Returns_example :
    Returns sample double.code
      (layout (entry double.code (5 ∷ []) [] []) (7 ∷ 8 ∷ []))
      (some 10)
      []
      []
Runs-Returns_example = Runs-Returns sample double-Runs (omega arith) (7 ∷ 8 ∷ []) refl

Step-Simulated_example :
    Simulated sample double.code
      (layout (frame (3 ∷ 4 ∷ []) 0 (9 ∷ []) 2 [] []) [])
      (frame (7 ∷ []) 1 (9 ∷ []) 3 [] [])
unfolding get binary add32
Step-Simulated_example =
    Step-Simulated sample double.code (omega arith)
      (arithmetic i_iadd (omega arith) (omega arith) (omega arith) refl refl) [] refl

find_method-Found_example :
    Found double_name double_descriptor sample.methods
      (find_method double_name double_descriptor sample.methods)
find_method-Found_example = find_method-Found double_name double_descriptor sample.methods

get_number_of_parameters-print_descriptor_example :
    get_number_of_parameters
      (record double { descriptor = print_descriptor (int_array ∷ int ∷ []) (b'V' ∷ []) })
    ≡ ok 2
get_number_of_parameters-print_descriptor_example =
    get_number_of_parameters-print_descriptor
      (record double { descriptor = print_descriptor (int_array ∷ int ∷ []) (b'V' ∷ []) })
      (int_array ∷ int ∷ []) (b'V' ∷ []) refl (omega arith)

binary-add_example :
    (binary i_iadd 5 (2 ^ 32 - 2) ≡ ok (to32 (signed32 5 +ℤ signed32 (2 ^ 32 - 2))))
    × (binary i_isub 5 (2 ^ 32 - 2) ≡ ok (to32 (signed32 5 -ℤ signed32 (2 ^ 32 - 2))))
    × (neg32 5 ≡ to32 (pos 0 -ℤ signed32 5))
binary-add_example = binary-add 5 (2 ^ 32 - 2) (omega arith) (omega arith)

binary-IsDivision_example :
    (q : ℕ) × (r : ℕ) × (binary i_idiv (2 ^ 32 - 7) 2 ≡ ok q)
    × (binary i_irem (2 ^ 32 - 7) 2 ≡ ok r)
    × IsDivision (2 ^ 32 - 7) 2 q r
binary-IsDivision_example =
    binary-IsDivision (2 ^ 32 - 7) 2 (omega arith) (omega arith) (omega arith) (inl (omega arith))
