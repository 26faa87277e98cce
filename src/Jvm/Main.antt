-- ===== src/Jvm/Main.antt =====
-- `main` of java-virtual-machine/jvm.c prints what the semantics of its class says.
use computer_systems.Prelude.{
  ℕ, ◌-◌, ◌^◌, ◌≤◌, ◌<◌, ◌≡◌, List, [], none, some, length, replicate, arith, length-replicate,
}
use computer_systems.Jvm.Outcome.{ok}
use computer_systems.Jvm.Machine.{Code, Heap, heap_init}
use computer_systems.Jvm.Class.{Class, Method, find_method}
use computer_systems.Jvm.Frame.{conc}
use computer_systems.Jvm.Semantics.{layout}
use computer_systems.Jvm.Runs.{Runs, entry}
use computer_systems.Jvm.Execute.{fresh, main, main_method, main_descriptor}
use computer_systems.Jvm.Refine.Runs.{Runs-Returns}

fresh-layout :
    (c : Code)
    → fresh c (replicate c.max_locals 0) heap_init []
      ≡ layout (entry c [] [] []) (replicate c.max_stack 0)
unfolding fresh conc heap_init
fresh-layout c = let all : c.max_locals - 0 ≡ c.max_locals = omega arith in rw all

-- If the rules derive a run of the method `main([Ljava/lang/String;)V` of the class that starts with
-- no operands, locals of 0 and an empty heap, returns nothing and prints `out`, then with any fuel
-- from some amount on the program stops without a fault and has printed `out`.
pub main-Runs :
    (cls : Class) (m : Method) {h : Heap} {out : List ℕ}
    → find_method main_method main_descriptor cls.methods ≡ some m
    → length m.code.code < 2 ^ 32
    → Runs cls m.code (entry m.code [] [] []) none h out
    → (enough : ℕ) × ((fuel : ℕ) → enough ≤ fuel → main fuel cls ≡ ok out)
unfolding main
main-Runs cls m found small run =
    let r =
      Runs-Returns cls run small (replicate m.code.max_stack 0)
        (length-replicate m.code.max_stack 0) in
    (r.enough, λ fuel lt. rw (found, fresh-layout m.code, r.returns fuel lt, r.out))
