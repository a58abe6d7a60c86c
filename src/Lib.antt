-- ===== src/Lib.antt =====
-- Verification of SageTree, an interpreter and compiler in C for the language Sage.
--
-- Parts of the program that are modelled, and how they interact. The lexer cuts a source file into
-- tokens; the passes of the optimiser rewrite the syntax tree that is made of them, first the one
-- that folds constants, then the one that removes dead code. A Sage program runs in a chain of
-- scopes; a scope keeps its variables in a list, and, when it has many, in a hash map as well.
-- Native functions of the program ask the sandbox of their thread before they touch files, the
-- network, processes or foreign code.
--
-- - Base: tests, lists, bytes of C strings, bits of words and signed integers that the parts share.
--   `Bytes` is a C string without its final null byte.
-- - EnvMap: the Robin Hood hash map of src/gc/env_hashmap.c and include/env_hashmap.h. `EnvMap` is
--   the struct, a slot is `none` for a null key. `envmap_get`, `envmap_set`, `envmap_init` and
--   `next_pow2` have the names of the C functions; `probe_get` and `probe_set` are the loops over
--   slots, `set_within` is `envmap_set` with the growth (`envmap_grow`) that it may call, and
--   `reinsert` is the loop of the growth. EnvMap/Table.antt has the definitions, EnvMap/Size.antt
--   what `next_pow2` and `envmap_init` return, the other files the proofs. EnvMap/AsIndex.antt fills the interface `Index` of Env/Index.antt with this map.
-- - Env: the scopes of src/env.c and include/env.h. `Store` holds the scopes, named by their
--   position, and `EnvNode` is a variable. Env/Scope.antt has what happens in one scope,
--   Env/Walk.antt the functions on the store (`env_create`, `env_define`, `env_define_const`) and
--   the walks up the parents (`env_get`, `env_get_node`, `env_assign`), Env/Sweep.antt
--   `env_sweep_unmarked`, `env_clear_marks` and `env_cleanup_all`. Env/Sync.antt says when the map
--   of a scope agrees with its list, Env/Define.antt what a definition does to a scope, and
--   Env/Laws what the operations do to what every scope reads.
-- - LilyBox: the sandbox of src/lilybox/lilybox.c and lilybox.h, and its module for
--   programs, src/sandbox_module.c. LilyBox/Capability.antt has the flags and the structs,
--   LilyBox/Manifest.antt `lilyknight_create`, LilyBox/Checks.antt the functions `lk_check_...`
--   and LilyBox/Session.antt the decisions of `sandbox.create_restricted` and `sandbox.check`;
--   LilyBox/Handles.antt has the handles and the current sandbox of a thread, with
--   `sandbox.enter`, `sandbox.exit` and `sandbox.destroy`. Handles that a program copies, changes or
--   builds itself, which `get_box` accepts, are left out, and so is a second thread.
-- - Firefly: the edit distance `edist` of src/firefly.c, with which the diagnostics look for a name
--   to suggest. Firefly/Distance.antt has the loops over the row, Firefly/Rows.antt the distance by
--   recursion, `distance`, and what a row holds. Firefly/Suggest.antt is the search of
--   `firefly_undefined_var` over the scopes of Env.
-- - Lexer: src/lexer.c with include/lexer.h and include/token.h. Lexer/Token.antt has the tokens,
--   Lexer/State.antt the state and the functions that move over the source, Lexer/Keyword.antt
--   `identifier_type`, Lexer/Literal.antt names, numbers and strings, Lexer/Symbol.antt operators
--   and brackets, Lexer/Scan.antt `scan_token`. Positions are offsets in the source. `scan_all` of
--   Lexer/Program.antt is the loop of a caller, which asks for tokens until the end.
--   Lexer/Spelling.antt has the texts of the keywords, one by one, beside the source's switches.
-- - Ast: the syntax tree of include/ast.h.
-- - ConstFold: src/constfold.c. ConstFold/Fold.antt has `fold_binary` and `fold_expr`,
--   ConstFold/Statements.antt `fold_stmt` and `pass_constfold`, ConstFold/Value.antt what
--   `eval_binary` of src/interpreter.c computes on the values of literals. ConstFold/Same.antt
--   and ConstFold/Program.antt say when two trees mean the same.
-- - Dce: src/dce.c. Dce/Names.antt has the set of names, Dce/Used.antt the functions
--   `collect_used_names_...`, Dce/Remove.antt `dce_stmt_list` and `pass_dce`; its loop and
--   `remove_unreachable` are one recursion, which Dce/Clean.antt compares with the two.
--   Dce/Reads.antt says which names the pass sees, Dce/Mentions.antt which names a program has.
-- - Safety: the analysis of ownership of src/safety.c and include/safety.h, which goes over the
--   tree before the passes that rewrite it. Safety/State.antt has the context and its scopes,
--   Safety/Checks.antt the functions `safety_check_...`, Safety/Walk.antt `analyze_expr`,
--   `analyze_stmt` and `safety_analyze`. Safety/Goes.antt says what every operation keeps,
--   with Safety/Reports.antt for the errors and Safety/Exclusive.antt for the borrows;
--   Safety/Borrowing.antt has the calls of a client as steps.
--
-- Bounds and fuel. A word of w bits is a natural number with `% 2 ^ w` where the code computes
-- modulo. A walk up the parents has one round for each scope of the store and one more, enough
-- because a parent is older than its child; a probe has one round for each slot and one more,
-- enough because a slot is free; a growth of a map calls `envmap_set` without a further growth,
-- since the new table is at most half full. The `int` of `next_pow2` overflows past INT_MAX, where
-- the result is `none`; its fuel is one more than the size asked for, since each round adds at least
-- one. The products of an `int` that `envmap_set` compares are exact below 2 ^ 30 slots. A call of `scan_token` has one round for
-- each byte of the source and one more, since a round that goes on reads a byte. The outer `none`
-- of a function of the map is a run out of fuel; a walk that runs out of it finds nothing.
--
-- Parameters. The operations on doubles are functions on their bits. `fnmatch` of libc is a
-- function that the path checks take, and the clock of `lk_check_net_send` is a number handed in.
-- `atoi` is read for numbers that fit an `int`.
--
-- Not modelled. Of the parts above: memory that is freed or never allocated (`envmap_free`,
-- `lilyknight_destroy`, failures of malloc), the locks, the write barrier and reference counts of
-- the collector, the pool of nodes, the name of the source file in tokens, and text written to
-- standard error. Of the program: the parser, the interpreter beyond operators on literals, the
-- collector, inlining, the type checker, the virtual machine, the code generators, the rest of the
-- diagnostics, and the glue to sockets, threads and foreign code.
pub mod Base
pub mod Env
pub mod EnvMap
pub mod LilyBox
pub mod Firefly
pub mod Lexer
pub mod Ast
pub mod ConstFold
pub mod Dce
pub mod Safety
