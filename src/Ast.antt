-- ===== src/Ast.antt =====
-- The syntax tree of include/ast.h. A null pointer to an expression is the constructor `null`, an
-- array of expressions is `Exprs`, a linked list of statements is `Stmts`. A token that is a name
-- is its text; an operator keeps its type and its text. A double is its 64 bits. Left out are the
-- inline caches, the parameters of types, the types of results and fields, the fields of variants,
-- pragmas and the positions of tokens.
use sage_tree.Base.{ℕ, Bool, List, Option, Bytes}
use sage_tree.Base.Int.{ℤ}
use sage_tree.Lexer.Token.{TokenType}

-- The token `op` of a `BinaryExpr`.
pub record Operator : Type 0 where
  pub type : TokenType
  pub text : Bytes

-- `enum BlockAnnotation`
pub data BlockAnnotation : Type 0 where
  annot_none manual gc trusted unsafe owned : BlockAnnotation

mutual
  -- `Expr`
  pub data Expr : Type 0 where
    null : Expr
    number : ℕ → Expr
    int_val : ℤ → Expr
    string : Bytes → Expr
    boolean : Bool → Expr
    nil : Expr
    binary : Operator → Expr → Expr → Expr
    variable : Bytes → Expr
    call : Expr → Exprs → Expr
    array : Exprs → Expr
    index : Expr → Expr → Expr
    dict : List Bytes → Exprs → Expr
    tuple : Exprs → Expr
    slice : Expr → Expr → Expr → Expr
    get : Expr → Bytes → Expr
    set : Expr → Bytes → Expr → Expr
    index_set : Expr → Expr → Expr → Expr
    await : Expr → Expr
    super_expr : Bytes → Expr
    comptime : Expr → Expr
    force_unwrap : Expr → Expr
    propagate : Expr → Expr
    nullcoal : Expr → Expr → Expr
    optchain : Expr → Bytes → Expr
    range : Expr → Expr → Bool → Expr
    interp : Bytes → Expr

  pub data Exprs : Type 0 where
    no_exprs : Exprs
    exprs : Expr → Exprs → Exprs

-- `TypeAnnotation`, without the parameters of the type.
pub record TypeAnnotation : Type 0 where
  pub name : Bytes
  pub is_optional : Bool

-- What `LetStmt` has beside its name and initializer.
pub record LetInfo : Type 0 where
  pub type_ann : Option TypeAnnotation
  pub is_mutable : Bool

-- What `ProcStmt` has beside its name, its defaults and its body.
pub record Params : Type 0 where
  pub names : List Bytes
  pub param_types : List (Option TypeAnnotation)
  pub required_count : ℕ
  pub doc : Bytes
  pub type_params : List Bytes

-- `ImportStmt`
pub record Import : Type 0 where
  pub module_name : Bytes
  pub items : List Bytes
  pub item_aliases : List Bytes
  pub alias : Bytes
  pub import_all : Bool

mutual
  -- `Stmt`
  pub data Stmt : Type 0 where
    print : Expr → Stmt
    expression : Expr → Stmt
    let_stmt : Bytes → Expr → LetInfo → Stmt
    if_stmt : Expr → Stmts → Stmts → Stmt
    block : Stmts → Stmt
    while_stmt : Expr → Stmts → Stmt
    proc : Bytes → Params → Exprs → Stmts → Stmt
    for_stmt : Bytes → Expr → Stmts → Stmt
    ret : Expr → Stmt
    break continue : Stmt
    class_stmt : Bytes → List Bytes → Stmts → Stmt
    match_stmt : Expr → Cases → Stmts → Stmt
    defer : Stmt → Stmt
    try_stmt : Stmts → Catches → Stmts → Stmt
    raise : Expr → Stmt
    yield_stmt : Expr → Stmt
    import_stmt : Import → Stmt
    async_proc : Bytes → Params → Exprs → Stmts → Stmt
    struct_stmt : Bytes → List Bytes → List Bytes → Stmt
    enum_stmt : Bytes → List Bytes → Stmt
    trait_stmt : Bytes → Stmts → Stmt
    impl_stmt : Bytes → Stmts → Stmt
    comptime_stmt : Stmts → Stmt
    macro_def : Bytes → List Bytes → Stmts → Stmt
    annotated_block : BlockAnnotation → Bytes → Stmts → Stmt
    extern_proc : Bytes → List Bytes → Bytes → Stmt
    spawn_stmt : Stmts → Stmt

  pub data Stmts : Type 0 where
    no_stmts : Stmts
    stmts : Stmt → Stmts → Stmts

  -- `CaseClause`: pattern, guard, body.
  pub data Cases : Type 0 where
    no_cases : Cases
    cases : Expr → Expr → Stmts → Cases → Cases

  -- `CatchClause`: variable, body.
  pub data Catches : Type 0 where
    no_catches : Catches
    catches : Bytes → Stmts → Catches → Catches
