-- ===== src/Lib.antt =====
-- A verification library for the C programs of this repository.
--
-- java-virtual-machine (jvm.c, jvm.h, heap.c, read_class.c, class_file.h): `Jvm`. `Jvm.Machine` has the
-- arrays that the interpreter works on, `Jvm.Instr` a function for each function of jvm.c under its
-- name, `Jvm.Int32` the int arithmetic, `Jvm.Execute` the switch and the loop of `execute` with method
-- calls, and `main`. `Jvm.Class` has the class file in memory and its lookups. An access outside an
-- array, and any other undefined behaviour of C, is an error value; malloc has the memory that it is asked for. `Jvm.Semantics` and `Jvm.Runs` state
-- what a method is to do as rules on operand lists, independently of the arrays; `Jvm.Refine` shows
-- that the loop follows them. The loop takes fuel, one unit for a round and for a call; every run that the
-- rules derive has an amount from which on the result is the same, so no bound is chosen. Calls
-- of print are the output list. `Jvm.Reader` has the reads of big-endian numbers from the bytes of a file, and
-- `Jvm.ReadClass` get_class, which fills the class; `Jvm.ReadClass.Print` writes class files, the texts that it
-- is to read back.
--
-- assembly-compiler (ast.h, ast.c, parser.c, compile.c, compiler.c): `TeenyBasic`. `TeenyBasic.Ast` has the syntax tree and
-- its constructors, `TeenyBasic.Fold` is compute_folds with its write in place, `TeenyBasic.Compile` and
-- `TeenyBasic.Statements` are compile_ast, with the printed lines as instructions, and `TeenyBasic.Asm`
-- is what these do in the x86-64 machine. log2 of the C library is a parameter that is exact on powers
-- of two. The proofs are in `TeenyBasic.CompileExpr` and `TeenyBasic.Folding`.
-- The parser is in `TeenyBasic.Lexer`, `TeenyBasic.Number`, `TeenyBasic.Parser` (expressions) and
-- `TeenyBasic.Program` (statements): functions on the bytes that are left, with fuel of one unit for a call or
-- a round, of which four for each byte and nine more are enough. The texts that it reads back are those of
-- `TeenyBasic.Parser.Print` and `TeenyBasic.Program.Print`.
-- The numbers in labels, an int each in compile.c, do not wrap: a program has fewer than 2^31 statements.
-- `TeenyBasic.Driver` is main of compiler.c, with fopen as a parameter, and `TeenyBasic.PrintAst` the tree that it
-- shows. `TeenyBasic.Machine` runs the printed lines as one program, with jumps to the first line that has the label
-- and fuel of one unit for a line; `TeenyBasic.Semantics` is an interpreter of the tree, whose fuel bounds its depth.
-- `TeenyBasic.Correct` compares the two: some fuel of the machine is enough for each run of the interpreter. It is
-- about the programs that folding leaves as they are meant, which `is_compilable` decides. The values of the variables
-- at the start are arbitrary. The assembly runtime is not modelled: print_int adds a number to the output.
--
-- threadpool (queue.h, queue.c, thread_pool.c): `Threadpool`. `Threadpool.Memory` is the heap of nodes, where an access
-- of an address that is not allocated is an error; `Threadpool.Queue` has the four functions, with the
-- node that malloc returns as an argument. The mutex makes a call one step: `Threadpool.History` has the
-- sequences of calls. `Threadpool.Linked` and `Threadpool.Fifo` hold the invariant of the list.
-- `Threadpool.Pool` has the workers and clients of thread_pool.c as steps on the values of the queue, with the waits
-- and signals of its condition variable: a worker is awake in queue_dequeue, sleeps, is in a call or has ended.
-- `Threadpool.Fair` is the invariant of the pool, and `Threadpool.Steps` has the steps of the workers.
-- That malloc fails is not modelled here.
--
-- signal-handler (myasan.c): `Asan`. `Asan.Heap` has malloc, free and the handler on the page headers and
-- on which pages have access; `Asan.Block` is about a block from malloc to free and `Asan.Leaks` about
-- the leak check, whose fuel is one unit for each block and one more. A report is an outcome.
--
-- file-directory-tree (directory_tree.c, fat16.c, recover.c): `Fat16`. `Fat16.Tree` has the nodes, the sorting of
-- children, printing, and creation as a list of calls; `Fat16.Disk` the records of an image and the
-- names of entries; `Fat16.Recover` the descent and `main`. The image is the list of its bytes, read with
-- fread and fseek of the C library; an assertion that fails is no result. The descent takes fuel,
-- one unit for an entry and for a directory, since clusters may form a cycle. `Fat16.Tree.Listing` describes the
-- files and directories of a tree apart from the calls. free_directory_tree is left out.
--
-- malloc (memlib.c, mm-implicit.c, mm-explicit.c): `Malloc`. `Malloc.Memlib` is the simulated sbrk, with the address from
-- mmap as an argument and addresses as numbers that do not wrap; `Malloc.Sizes` has the sizes of blocks, in which
-- size_t wraps. `Malloc.Implicit` is mm-implicit.c, with the headers as words at their addresses and the rounds of a
-- loop as fuel, of which one for each block and two more are enough. Its children hold the list of the blocks:
-- `Malloc.Implicit.Coalesce`, `Malloc.Implicit.Fit`, `Malloc.Implicit.Place`, `Malloc.Implicit.Requests` and
-- `Malloc.Implicit.Free` follow the functions, and `Malloc.Implicit.Live` and
-- `Malloc.Implicit.Served` see the blocks in use as a map. The payloads,
-- and so mm_realloc and mm_calloc, which copy or fill them, are not modelled, nor is the free list of mm-explicit.c.
--
-- Not modelled: the driver of malloc, mini-operating-system, meltdown, and of
-- threadpool the password cracker. They share no code with the parts above.
pub mod Prelude
pub mod Jvm
pub mod TeenyBasic
pub mod Fat16
pub mod Threadpool
pub mod Asan
pub mod Malloc
