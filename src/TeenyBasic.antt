-- ===== src/TeenyBasic.antt =====
-- assembly-compiler: the compiler of TeenyBASIC to x86-64.
pub mod Ast
pub mod Word64
pub mod Fold
pub mod Asm
pub mod Compile
pub mod Statements
pub mod Expressions
pub mod Powers
pub mod CompileExpr
pub mod Folding
pub mod Machine
pub mod Semantics
pub mod Correct
pub mod Lexer
pub mod Number
pub mod Parser
pub mod Program
pub mod PrintAst
pub mod Driver
mod Tests
