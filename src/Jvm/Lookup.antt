-- ===== src/Jvm/Lookup.antt =====
-- The lookups of java-virtual-machine/read_class.c find what they are asked for.
use computer_systems.Prelude.{
  ℕ, ◌+◌, ◌%◌, ◌^◌, ◌<◌, ◌≡◌, ◌≢◌, refl, ◌⊎◌, inl, inr, Bool, true, false, List, [], ◌∷◌, ◌++◌,
  Option, none, some, length, arith, ◌&&◌, Bool-cases,
}
use mathlib.Core.Path.{subst}
use computer_systems.Jvm.Outcome.{ok}
use computer_systems.Prelude.Text.{str_eq, str_eq_iff}
use computer_systems.Jvm.Class.{
  Method, find_method, strchr, count_params, params_between, get_number_of_parameters,
}

-- `m` is the first method of the list with the name and the descriptor.
pub data IsFirst (name descriptor : List ℕ) (m : Method) : List Method → Type 0 where
  here :
      {ms : List Method}
      → m.name ≡ name
      → m.descriptor ≡ descriptor
      → IsFirst name descriptor m (m ∷ ms)
  there :
      {n : Method} {ms : List Method}
      → (n.name ≢ name) ⊎ (n.descriptor ≢ descriptor)
      → IsFirst name descriptor m ms
      → IsFirst name descriptor m (n ∷ ms)

-- No method of the list has the name and the descriptor.
abbrev pub NoneHas : List ℕ → List ℕ → List Method → Type 0
NoneHas name descriptor [] = Unit
NoneHas name descriptor (n ∷ ms) =
    ((n.name ≢ name) ⊎ (n.descriptor ≢ descriptor)) × NoneHas name descriptor ms

module _ (name descriptor : List ℕ) where
  matches : Method → Bool
  matches n = str_eq n.name name && str_eq n.descriptor descriptor

  matches-true : (n : Method) → matches n ≡ true → (n.name ≡ name) × (n.descriptor ≡ descriptor)
  unfolding matches
  matches-true n h = ground (arith, str_eq_iff n.name name, str_eq_iff n.descriptor descriptor)

  matches-false : (n : Method) → matches n ≡ false → (n.name ≢ name) ⊎ (n.descriptor ≢ descriptor)
  unfolding matches
  matches-false n h = ground (arith, str_eq_iff n.name name, str_eq_iff n.descriptor descriptor)

  find_method-IsFirst :
      (ms : List Method) {m : Method}
      → find_method name descriptor ms ≡ some m
      → IsFirst name descriptor m ms
  unfolding find_method matches
  find_method-IsFirst [] h = cc
  find_method-IsFirst (n ∷ ms) {m} h = elim (Bool-cases (matches n)) [
    | inl hit ↦
        let found : some n ≡ some m = rw hit at h in
        let same : n ≡ m = cc found in
        let (e₁, e₂) = matches-true n hit in
        subst (λ k. IsFirst name descriptor k (n ∷ ms)) same (here e₁ e₂)
    | inr miss ↦ there (matches-false n miss) (find_method-IsFirst ms (rw miss at h))
  ]

  find_method-NoneHas :
      (ms : List Method) → find_method name descriptor ms ≡ none → NoneHas name descriptor ms
  unfolding find_method matches
  find_method-NoneHas [] h = tt
  find_method-NoneHas (n ∷ ms) h = elim (Bool-cases (matches n)) [
    | inl hit ↦ absurd (cc (rw hit at h))
    | inr miss ↦ (matches-false n miss, find_method-NoneHas ms (rw miss at h))
  ]

-- The types of a descriptor that the machine knows: ints and arrays of ints.
pub data ParamType : Type 0 where
  int int_array : ParamType

unfoldable pub print_params : List ParamType → List ℕ
print_params [] = []
print_params (int ∷ ps) = b'I' ∷ print_params ps
print_params (int_array ∷ ps) = b'[' ∷ b'I' ∷ print_params ps

-- "(" parameters ")" and the return type
unfoldable pub print_descriptor : List ParamType → List ℕ → List ℕ
print_descriptor ps result = b'(' ∷ (print_params ps ++ (b')' ∷ result))

strchr-print_params :
    (ps : List ParamType) (result : List ℕ)
    → strchr b')' (print_params ps ++ (b')' ∷ result)) ≡ some (length (print_params ps), result)
unfolding strchr print_params
strchr-print_params [] result = refl
strchr-print_params (int ∷ ps) result = rw (strchr-print_params ps result) (ground arith)
strchr-print_params (int_array ∷ ps) result = rw (strchr-print_params ps result) (ground arith)

count_params-print_params :
    (ps : List ParamType) (after : List ℕ) (n : ℕ)
    → n < 2 ^ 16
    → count_params false (print_params ps ++ after) (length (print_params ps)) n
      ≡ (n + length ps) % 2 ^ 16
unfolding count_params print_params
count_params-print_params [] [] n lt = omega arith
count_params-print_params [] (x ∷ after) n lt = omega arith
count_params-print_params (int ∷ ps) after n lt =
    omega (arith, count_params-print_params ps after ((n + 1) % 2 ^ 16) (omega arith))
count_params-print_params (int_array ∷ ps) after n lt =
    omega (arith, count_params-print_params ps after ((n + 1) % 2 ^ 16) (omega arith))

-- The number of parameters of a method whose descriptor lists ints and arrays of ints, up to 65535.
pub get_number_of_parameters-print_descriptor :
    (m : Method) (ps : List ParamType) (result : List ℕ)
    → m.descriptor ≡ print_descriptor ps result
    → length ps < 2 ^ 16
    → get_number_of_parameters m ≡ ok (length ps)
unfolding get_number_of_parameters params_between print_descriptor strchr
get_number_of_parameters-print_descriptor m ps result e lt =
    let close = strchr-print_params ps result in
    let count = count_params-print_params ps (b')' ∷ result) 0 (omega arith) in
    rw (e, close) (ground (arith, count))

abbrev pub Found : List ℕ → List ℕ → List Method → Option Method → Type 0
Found name descriptor ms none = NoneHas name descriptor ms
Found name descriptor ms (some m) = IsFirst name descriptor m ms

-- `find_method` returns the first method with the name and the descriptor, and the null pointer
-- only if no method has both.
pub find_method-Found :
    (name descriptor : List ℕ) (ms : List Method)
    → Found name descriptor ms (find_method name descriptor ms)
find_method-Found name descriptor ms = go (find_method name descriptor ms) refl
  where
    go : (r : Option Method) → find_method name descriptor ms ≡ r → Found name descriptor ms r
    go none e = find_method-NoneHas name descriptor ms e
    go (some m) e = find_method-IsFirst name descriptor ms e
