-- ===== src/Jvm/ReadClass/RoundTrip.antt =====
-- java-virtual-machine/read_class.c: get_class reads back a class file.
use computer_systems.Prelude.{ℕ, ◌+◌, ◌≤◌, ◌^◌, ◌<◌, ◌≡◌, refl, List, [], none, some, length, drop}
use computer_systems.Jvm.Outcome.{ok}
use computer_systems.Jvm.Machine.{Heap}
use computer_systems.Jvm.Class.{Method, find_method}
use computer_systems.Jvm.Runs.{Runs, entry}
use computer_systems.Jvm.Execute.{main_method, main_descriptor}
use computer_systems.Jvm.Main.{main-Runs}
use computer_systems.Jvm.Reader.Reads.{Reads, write_u2, write_u4, read_u2-Reads, read_u4-Reads}
use computer_systems.Jvm.ReadClass.{
  class_magic, get_class_header, get_class_info, get_class, main_file,
}
use computer_systems.Jvm.ReadClass.Print.{ClassSource, write_class, AreText, AreMethods}
use computer_systems.Jvm.ReadClass.Constants.{get_constant_pool-Reads}
use computer_systems.Jvm.ReadClass.Methods.{get_methods-Reads}

module _ (file : List ℕ) where
  get_class_header-Reads :
      (pos minor major : ℕ) {rest : List ℕ}
      → drop pos file ≡ write_u4 class_magic (write_u2 minor (write_u2 major rest))
      → Reads file (get_class_header file pos) tt rest
  unfolding get_class_header
  get_class_header-Reads pos minor major h =
      let magic = read_u4-Reads file pos class_magic h in
      let a = read_u2-Reads file magic.next minor magic.left in
      let b = read_u2-Reads file a.next major a.left in
      record { next = b.next; reads = rw (magic.reads, a.reads, b.reads) refl; left = b.left }

  get_class_info-Reads :
      (pos flags this super : ℕ) {rest : List ℕ}
      → drop pos file
        ≡ write_u2 flags (write_u2 this (write_u2 super (write_u2 0 (write_u2 0 rest))))
      → Reads file (get_class_info file pos) tt rest
  unfolding get_class_info
  get_class_info-Reads pos flags this super h =
      let a = read_u2-Reads file pos flags h in
      let b = read_u2-Reads file a.next this a.left in
      let c = read_u2-Reads file b.next super b.left in
      let interfaces = read_u2-Reads file c.next 0 c.left in
      let fields = read_u2-Reads file interfaces.next 0 interfaces.left in
      record {
        next = fields.next;
        reads = rw (a.reads, b.reads, c.reads, interfaces.reads, fields.reads) refl;
        left = fields.left;
      }

-- get_class reads the bytes of a class file back: the constants in their order, and the methods with
-- the names, the descriptors and the code that their indices and attributes stand for. The class
-- has fewer than 2^16 - 1 constants, whose text holds no zero byte, no interfaces and no fields; each
-- method has one attribute Code, with any others around it, and is static or the constructor.
pub get_class-write_class :
    (source : ClassSource) (methods : List Method) (rest : List ℕ)
    → AreText source.pool
    → length source.pool + 1 < 2 ^ 16
    → AreMethods source.pool source.sources methods
    → (end : ℕ) × (get_class (write_class source rest) 0
        ≡ ok (record { constant_pool = source.pool; methods = methods }, end))
      × (drop end (write_class source rest) ≡ rest)
unfolding get_class write_class
get_class-write_class source methods rest text small is =
    let file = write_class source rest in
    let (minor, major) = source.versions in
    let (flags, this, super) = source.info in
    let header = get_class_header-Reads file 0 minor major refl in
    let pool = get_constant_pool-Reads file source.pool header.next text small header.left in
    let info = get_class_info-Reads file pool.next flags this super pool.left in
    let all = get_methods-Reads file source.pool source.sources methods info.next is info.left in
    (all.next, rw (header.reads, pool.reads, info.reads, all.reads) refl, all.left)

-- What main-Runs says of a class in memory holds for the bytes of its class file: the program reads
-- the class, runs its main method as the rules say, and has printed `out`, with any fuel from some
-- amount on.
pub main_file-Runs :
    (source : ClassSource) (methods : List Method) (m : Method) {h : Heap} {out : List ℕ}
    → AreText source.pool
    → length source.pool + 1 < 2 ^ 16
    → AreMethods source.pool source.sources methods
    → find_method main_method main_descriptor methods ≡ some m
    → length m.code.code < 2 ^ 32
    → Runs
        (record { constant_pool = source.pool; methods = methods })
        m.code
        (entry m.code [] [] [])
        none
        h
        out
    → (enough : ℕ) × ((fuel : ℕ) → enough ≤ fuel → main_file fuel (write_class source []) ≡ ok out)
unfolding main_file
main_file-Runs source methods m text small is found short run =
    let (end, read, _) = get_class-write_class source methods [] text small is in
    let (enough, returns) = main-Runs _ m found short run in
    (enough, λ fuel lt. rw (read, main_file) (returns fuel lt))
