-- ===== src/LilyBox/Tests.antt =====
-- Runs of the sandbox on a small manifest.
use sage_tree.Base.{
  ◌++◌, ℕ, ◌+◌, ◌≤◌, Bool, true, false, Option, none, some, List, [], ◌∷◌, ◌++◌, Bytes, bytes,
  bytes_eq, ◌≡◌, refl, ◌↔◌, arith,
}
use sage_tree.Base.Bits.{bit}
use sage_tree.Base.Int.{negsuc}
use sage_tree.LilyBox.Capability.{
  perm_none, perm_fs, perm_env_read, LilyBox, ok, deny_net, deny_fs, deny_path, deny_proc, deny_env,
  create_with_flags,
}
use sage_tree.LilyBox.Checks.{
  check_perm, check_fs_exec, check_fs_read, check_fs_write, check_proc_fork, check_env, check_alloc,
  path_allowed, log_violation,
}
use sage_tree.LilyBox.Manifest.{
  create, parse_line, parse_string_list, atoi, apply_lines, skip_while, trim_end, split_at,
  string_items, digits, apply_entry,
}
use sage_tree.LilyBox.Session.{
  parse_perm_string, restricted_flags, sandbox_create_restricted, sandbox_check,
}
use sage_tree.LilyBox.Flags.{Covers, Grants, check_perm_iff, sandbox_check_iff}
use sage_tree.LilyBox.Filter.{quoted, parse_string_list-quoted}
use sage_tree.LilyBox.Limits.{sum, after_allocs, check_alloc-after_allocs}
use sage_tree.LilyBox.Granted.{create-denies}
use sage_tree.LilyBox.Handles.{
  Session, no_session, sandbox_create, create_restricted, sandbox_enter, sandbox_exit, is_sandboxed,
  check, last_violation, sandbox_destroy,
}
use sage_tree.LilyBox.Reach.{
  Reachable, start, by_create, by_restricted, by_enter, by_destroy, IsSound, Reachable-IsSound,
  sandbox_destroy-refused,
}

abbrev newline : Bytes
newline = 10 ∷ []

-- `fs.read = ["./data"]`
abbrev read_line : Bytes
read_line = bytes "fs.read = [" ++ (34 ∷ (bytes "./data" ++ (34 ∷ (bytes "]" ++ newline))))

abbrev manifest : List Bytes
manifest =
    (bytes "# limits" ++ newline)
    ∷ ((bytes "  max_memory_mb = 2 " ++ newline) ∷ (read_line ∷ (bytes "exec = true" ∷ [])))

abbrev box : LilyBox
box = (create 1 (some (bytes "m")) (some manifest)).0

abbrev exact : Bytes → Bytes → Bool → Bool
exact pattern_text text path_name = bytes_eq pattern_text text

run : Unit {0}
unfolding create apply_lines parse_line skip_while trim_end split_at string_items digits atoi
    apply_entry create_with_flags check_perm check_fs_read check_fs_write path_allowed
    parse_perm_string restricted_flags sandbox_create_restricted sandbox_check check_alloc
    log_violation
run = tt

-- The flags of `fs.read` and `exec`.
manifest_flags : box.capability.perm_flags ≡ 0x2100
unfolding run
manifest_flags = refl

manifest_memory : box.capability.limits.max_memory_bytes ≡ 2097152
unfolding run
manifest_memory = refl

manifest_read : box.capability.fs_read ≡ bytes "./data" ∷ []
unfolding run
manifest_read = refl

read_inside : check_fs_read exact (some box) (bytes "./data/x") ≡ ok
unfolding run
read_inside = refl

read_outside : check_fs_read exact (some box) (bytes "/etc/passwd") ≡ deny_path
unfolding run
read_outside = refl

-- A prefix of bytes is enough, so a directory beside the allowed one is allowed too.
read_beside : check_fs_read exact (some box) (bytes "./database") ≡ ok
unfolding run
read_beside = refl

write_denied : check_fs_write exact (some box) (bytes "./data/x") ≡ deny_fs
unfolding run
write_denied = refl

-- A set of flags of the environment alone is refused as a network access.
env_as_net : check_perm (some box) perm_env_read ≡ deny_net
unfolding run
env_as_net = refl

-- A permission string that is none of the known ones needs no flag.
unknown_string : sandbox_check (some box) (some (bytes "fs.delete")) ≡ true
unfolding run
unknown_string = refl

negative_number : atoi (bytes " -12x") ≡ negsuc 11
unfolding run
negative_number = refl

abbrev perms : List (Option Bytes)
perms = some (bytes "net") ∷ (none ∷ (some (bytes "ffi") ∷ []))

restricted :
    sandbox_check (some (sandbox_create_restricted 1 perms).0) (some (bytes "net.recv")) ≡ true
unfolding run
restricted = refl

check_perm_iff_example :
    (check_perm (some box) perm_fs ≡ ok) ↔ Covers box.capability.perm_flags perm_fs
check_perm_iff_example = check_perm_iff box perm_fs

sandbox_check_iff_example :
    (sandbox_check (some (sandbox_create_restricted 1 perms).0) (some (bytes "net.recv")) ≡ true)
    ↔ ((k : ℕ) → bit (parse_perm_string (bytes "net.recv")) k ≡ 1 → Grants k perms)
sandbox_check_iff_example = sandbox_check_iff 1 perms (bytes "net.recv")

create-denies_example :
    ((target : Bytes) → check_fs_exec (some box) target ≡ deny_fs)
    × (check_proc_fork (some box) ≡ deny_proc)
    × ((variable : Bytes) → check_env (some box) variable true ≡ deny_env)
create-denies_example = create-denies 1 (some (bytes "m")) (some manifest)

-- The value `["./data", "/tmp"]`.
abbrev paths : List (Bytes × Bytes)
paths = (bytes "[", bytes "./data") ∷ ((bytes ", ", bytes "/tmp") ∷ [])

parse_string_list-quoted_example :
    parse_string_list (quoted paths (bytes "]")) ≡ bytes "./data" ∷ (bytes "/tmp" ∷ [])
parse_string_list-quoted_example =
    parse_string_list-quoted paths (bytes "]") (ground arith) (ground arith)

abbrev small : LilyBox
small = (create_with_flags 1 perm_none).0

check_alloc-after_allocs_example :
    ((check_alloc (after_allocs (some small) (100 ∷ (268435456 ∷ []))) 1).0 ≡ ok) ↔ (
      small.bytes_allocated + sum (100 ∷ (268435456 ∷ [])) + 1
      ≤ small.capability.limits.max_memory_bytes)
unfolding create_with_flags
check_alloc-after_allocs_example =
    check_alloc-after_allocs (100 ∷ (268435456 ∷ [])) small 1 (omega arith) (omega arith)

-- Two sandboxes; the first is entered and destroyed.
abbrev two : Session
two = create_restricted (sandbox_create no_session (some (bytes "m")) (some manifest)) perms

abbrev entered_first : Session
entered_first = (sandbox_enter two (some 0)).0

abbrev destroyed_first : Session
destroyed_first = sandbox_destroy entered_first (some 0)

abbrev calls : Reachable destroyed_first
calls =
    by_destroy (some 0)
      (by_enter (some 0) (by_restricted perms (by_create (some (bytes "m")) (some manifest) start)))

sandboxed : is_sandboxed entered_first ≡ true
unfolding run sandbox_create create_restricted sandbox_enter is_sandboxed
sandboxed = refl

leaves_destroyed : is_sandboxed destroyed_first ≡ false
unfolding run sandbox_create create_restricted sandbox_enter sandbox_destroy is_sandboxed
leaves_destroyed = refl

nothing_violated : last_violation (sandbox_exit entered_first) ≡ none
unfolding run sandbox_create create_restricted sandbox_enter sandbox_exit last_violation
nothing_violated = refl

Reachable-IsSound_example : IsSound destroyed_first
Reachable-IsSound_example = Reachable-IsSound destroyed_first calls

sandbox_destroy-refused_example :
    ((sandbox_enter (sandbox_destroy entered_first (some 0)) (some 0)).1 ≡ false)
    × (check (sandbox_destroy entered_first (some 0)) (some 0) (some (bytes "net")) ≡ false)
sandbox_destroy-refused_example = sandbox_destroy-refused entered_first 0 (some (bytes "net"))
