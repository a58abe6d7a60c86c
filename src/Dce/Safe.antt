-- ===== src/Dce/Safe.antt =====
-- What the pass of src/dce.c keeps: it adds no reader of a name, and a name that is read keeps what
-- binds it.
use sage_tree.Base.{
  ◌≡◌, refl, ◌∙◌, inl, inr, Bool, true, false, ◌||◌, List, [], Bytes, bytes_eq, bytes_eq_iff,
  Bool-cases, if◌then◌else◌,
}
use sage_tree.Ast.{
  Stmt, Stmts, Cases, Catches, let_stmt, if_stmt, block, while_stmt, proc, for_stmt, ret,
  class_stmt, match_stmt, try_stmt, no_stmts, stmts, no_cases, cases, no_catches, catches,
}
use sage_tree.Dce.Names.{nameset_has}
use sage_tree.Dce.Used.{collect_used_names_list}
use sage_tree.Dce.Remove.{
  has_side_effects, is_terminator, keep, dce_stmt_body, dce_stmt_list, dce_cases, dce_catches,
  pass_dce,
}
use sage_tree.Dce.Reads.{reads_stmt, reads_list, reads_cases, reads_catches}
use sage_tree.Dce.Collected.{collect-reads}

pub or_mono :
    (a b a' b' : Bool)
    → (a' ≡ true → a ≡ true)
    → (b' ≡ true → b ≡ true)
    → (a' || b') ≡ true
    → (a || b) ≡ true
or_mono true b a' b' h k m = refl
or_mono false b true b' h k m = let e : false ≡ true = h refl in cc
or_mono false b false b' h k m = k m

or_right : (a b : Bool) → b ≡ true → (a || b) ≡ true
or_right true b h = refl
or_right false b h = h

module _ (used : List Bytes) (n : Bytes) where
  next-reads :
      (t : Bool) (rest : Stmts)
      → reads_list n (if t then no_stmts else rest) ≡ true
      → reads_list n rest ≡ true
  unfolding reads_list
  next-reads true rest h = cc
  next-reads false rest h = h

  item-reads :
      (k : Bool) (s : Stmt) (next : Stmts)
      → reads_list n (if k then stmts s next else next) ≡ true
      → (reads_stmt n s || reads_list n next) ≡ true
  unfolding reads_list
  item-reads true s next h = h
  item-reads false s next h = or_right (reads_stmt n s) (reads_list n next) h

  mutual
    unfolding dce_stmt_body reads_stmt

    body-reads : (s : Stmt) → reads_stmt n (dce_stmt_body used s) ≡ true → reads_stmt n s ≡ true
    body-reads (if_stmt c t e) h =
        or_mono _ _ _ _ (λ k. k) (or_mono _ _ _ _ (list-reads t) (list-reads e)) h
    body-reads (block body) h = list-reads body h
    body-reads (while_stmt c body) h = or_mono _ _ _ _ (λ k. k) (list-reads body) h
    body-reads (proc name ps ds body) h = list-reads body h
    body-reads (for_stmt v e body) h = or_mono _ _ _ _ (λ k. k) (list-reads body) h
    body-reads (class_stmt name parent methods) h = list-reads methods h
    body-reads (try_stmt body cs finally) h =
        or_mono _ _ _ _ (list-reads body) (or_mono _ _ _ _ (catches-reads cs) (list-reads finally))
          h
    body-reads (match_stmt e cs default) h =
        or_mono _ _ _ _ (λ k. k) (or_mono _ _ _ _ (cases-reads cs) (list-reads default)) h
    body-reads s h = h

    pub list-reads :
        (l : Stmts) → reads_list n (dce_stmt_list used l) ≡ true → reads_list n l ≡ true
    list-reads no_stmts h = h
    list-reads (stmts s rest) h =
        or_mono (reads_stmt n s) (reads_list n rest) (reads_stmt n (dce_stmt_body used s))
          (reads_list n (if is_terminator s then no_stmts else dce_stmt_list used rest))
          (body-reads s)
          (λ k. list-reads rest (next-reads (is_terminator s) (dce_stmt_list used rest) k))
          (item-reads (keep used s) (dce_stmt_body used s)
            (if is_terminator s then no_stmts else dce_stmt_list used rest) h)

    cases-reads : (cs : Cases) → reads_cases n (dce_cases used cs) ≡ true → reads_cases n cs ≡ true
    cases-reads no_cases h = h
    cases-reads (cases pattern guard body rest) h =
        or_mono _ _ _ _ (λ k. k) (or_mono _ _ _ _ (list-reads body) (cases-reads rest)) h

    catches-reads :
        (cs : Catches) → reads_catches n (dce_catches used cs) ≡ true → reads_catches n cs ≡ true
    catches-reads no_catches h = h
    catches-reads (catches v body rest) h = or_mono _ _ _ _ (list-reads body) (catches-reads rest) h

-- What a statement binds for those behind it: the name of a `let` or a `proc`.
unfoldable pub binds_stmt : Bytes → Stmt → Bool
binds_stmt n (let_stmt name e info) = bytes_eq name n
binds_stmt n (proc name ps ds body) = bytes_eq name n
binds_stmt n s = false

-- A statement of the list that can be reached binds the name.
unfoldable pub binds : Bytes → Stmts → Bool
binds n no_stmts = false
binds n (stmts s rest) =
    let later = binds n rest in binds_stmt n s || (if is_terminator s then false else later)

module _ (used : List Bytes) where
  pub body-is_terminator : (s : Stmt) → is_terminator (dce_stmt_body used s) ≡ is_terminator s
  unfolding is_terminator dce_stmt_body
  body-is_terminator (ret e) = refl
  body-is_terminator s = refl

  module _ (n : Bytes) (is_used : nameset_has used n ≡ true) where
    body-binds : (s : Stmt) → binds_stmt n (dce_stmt_body used s) ≡ binds_stmt n s
    unfolding binds_stmt dce_stmt_body
    body-binds (let_stmt name e info) = refl
    body-binds s = refl

    unused-differs : (name : Bytes) → nameset_has used name ≡ false → bytes_eq name n ≡ false
    unused-differs name h = elim (Bool-cases (bytes_eq name n)) [
      | inl e ↦
          let same : nameset_has used n ≡ false = rw (← (bytes_eq_iff name n).0 e) h in
          absurd (cc (same, is_used))
      | inr e ↦ e
    ]

    or-false_left : (a b : Bool) → (a || b) ≡ false → a ≡ false
    or-false_left true b h = h
    or-false_left false b h = refl

    dropped :
        (s : Stmt) → keep used s ≡ false → (binds_stmt n s ≡ false) × (is_terminator s ≡ false)
    unfolding keep binds_stmt is_terminator
    dropped (let_stmt name e info) h =
        (unused-differs name (or-false_left (nameset_has used name) (has_side_effects e) h), refl)
    dropped (proc name ps ds body) h = (unused-differs name h, refl)
    dropped s h = cc

    next-binds :
        (t : Bool) (l : Stmts)
        → (if t then false else binds n (if t then no_stmts else l))
          ≡ (if t then false else binds n l)
    next-binds true l = refl
    next-binds false l = refl

    list-binds : (l : Stmts) → binds n (dce_stmt_list used l) ≡ binds n l
    unfolding binds dce_stmt_list
    list-binds no_stmts = refl
    list-binds (stmts s rest) =
        let ih = list-binds rest in
        elim (Bool-cases (keep used s)) [
          | inl k ↦
              rw
                (
                  k,
                  binds,
                  body-binds s,
                  body-is_terminator s,
                  next-binds (is_terminator s) (dce_stmt_list used rest),
                  ih,
                )
                refl
          | inr k ↦ rw (k, (dropped s k).1, (dropped s k).0) ih
        ]

-- When the program that the pass returns still reads a name, every list of statements that the
-- pass goes through binds it, by a `let` or `proc` that can be reached, if and only if it did
-- before.
pub pass_dce-binds :
    (program : Stmts) (n : Bytes)
    → reads_list n (pass_dce program) ≡ true
    → (l : Stmts) → binds n (dce_stmt_list (collect_used_names_list [] program) l) ≡ binds n l
unfolding pass_dce
pass_dce-binds program n h l =
    let used = collect_used_names_list [] program in
    list-binds used n (collect-reads n program ∙ list-reads used n program h) l
