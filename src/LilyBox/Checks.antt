-- ===== src/LilyBox/Checks.antt =====
-- The permission checks of src/lilybox/lilybox.c. A sandbox that is NULL is `none`. A check that
-- changes the accounting returns the sandbox after it. `fnmatch` is libc's: pattern, text, and
-- whether the flag FNM_PATHNAME is given; the answer is whether it returns 0.
use sage_tree.Base.{
  ℕ, ◌+◌, ◌%◌, ◌^◌, bit_and, Bool, true, false, ◌&&◌, ◌||◌, List, [], ◌∷◌, ◌++◌, Option, none, some,
  Bytes, bytes, take, any, has_prefix, ltb, leb, ◌==◌, if◌then◌else◌,
}
use sage_tree.Base.Int.{is_positive, le_int}
use sage_tree.LilyBox.Capability.{
  perm_net_send, perm_net_recv, perm_net_bind, perm_net_connect, perm_net, perm_fs_read,
  perm_fs_write, perm_fs_exec, perm_fs, perm_proc_fork, perm_proc_exec, perm_proc, perm_ffi,
  perm_env_read, perm_env_write, LilyBox, Violation, ok, deny_net, deny_host, deny_fs, deny_path,
  deny_proc, deny_ffi, deny_env, limit_mem, limit_cpu, limit_files, limit_syscall, has_flag,
}

-- `lk_violation_str`
unfoldable pub violation_str : Violation → Bytes
violation_str ok = bytes "OK"
violation_str deny_net = bytes "SandboxError: network access denied"
violation_str deny_host = bytes "SandboxError: host not in allowed list"
violation_str deny_fs = bytes "SandboxError: filesystem access denied"
violation_str deny_path = bytes "SandboxError: path not in allowed list"
violation_str deny_proc = bytes "SandboxError: process operation denied"
violation_str deny_ffi = bytes "SandboxError: FFI/native library access denied"
violation_str deny_env = bytes "SandboxError: environment variable access denied"
violation_str limit_mem = bytes "SandboxError: memory limit exceeded"
violation_str limit_cpu = bytes "SandboxError: CPU time limit exceeded"
violation_str limit_files = bytes "SandboxError: open file limit exceeded"
violation_str limit_syscall = bytes "SandboxError: syscall limit exceeded"

-- `lk_log_violation`: the text is cut to the 256 bytes of its buffer. A detail that is NULL counts as
-- an empty one.
unfoldable pub log_violation : Option LilyBox → Violation → Bytes → Option LilyBox
log_violation none v detail = none
log_violation (some box) v detail = some (record box {
  violation_count = box.violation_count + 1;
  last_violation =
      take 255
        (bytes "[LilyKnight] " ++ (violation_str v ++ (bytes " (" ++ (detail ++ bytes ")"))));
})

-- A check of one flag with its own refusal.
abbrev pub check_flag : Option LilyBox → ℕ → Violation → Violation
check_flag none mask v = ok
check_flag (some box) mask v = if has_flag box.capability.perm_flags mask then ok else v

unfoldable pub check_net_recv : Option LilyBox → ℕ → Violation
check_net_recv box count = check_flag box perm_net_recv deny_net

unfoldable pub check_net_bind : Option LilyBox → ℕ → Violation
check_net_bind box port = check_flag box perm_net_bind deny_net

unfoldable pub check_fs_exec : Option LilyBox → Bytes → Violation
check_fs_exec box path = check_flag box perm_fs_exec deny_fs

unfoldable pub check_proc_exec : Option LilyBox → Bytes → Violation
check_proc_exec box path = check_flag box perm_proc_exec deny_proc

unfoldable pub check_ffi : Option LilyBox → Bytes → Violation
check_ffi box lib_name = check_flag box perm_ffi deny_ffi

unfoldable pub check_env : Option LilyBox → Bytes → Bool → Violation
check_env box var_name write =
    if write then check_flag box perm_env_write deny_env else check_flag box perm_env_read deny_env

unfoldable pub check_proc_fork : Option LilyBox → Violation
check_proc_fork none = ok
check_proc_fork (some box) =
    let limit = box.capability.limits.max_threads in
    if has_flag box.capability.perm_flags perm_proc_fork
    then if is_positive limit && le_int limit box.threads_spawned then limit_syscall else ok
    else deny_proc

-- The window of `lk_check_net_send`: a new one opens after a second.
abbrev pub roll_window : LilyBox → ℕ → LilyBox
roll_window box now_ms =
    if ltb (box.net_window_start_ms + 1000) now_ms
    then record box { net_bytes_this_sec = 0; net_window_start_ms = now_ms }
    else box

-- `lk_check_net_send` under a limit: the bytes are charged before they are judged.
abbrev pub charge_send : LilyBox → ℕ → Violation × Option LilyBox
charge_send window count =
    let total = (window.net_bytes_this_sec + count) % 2 ^ 64 in
    (
      if ltb window.capability.limits.max_net_bytes_sec total then limit_syscall else ok,
      some (record window { net_bytes_this_sec = total }),
    )

-- `lk_check_net_send`; `now_ms` is what the clock says.
unfoldable pub check_net_send : Option LilyBox → ℕ → ℕ → Violation × Option LilyBox
check_net_send none now_ms count = (ok, none)
check_net_send (some box) now_ms count =
    if has_flag box.capability.perm_flags perm_net_send
    then if ltb 0 box.capability.limits.max_net_bytes_sec
      then charge_send (roll_window box now_ms) count
      else (ok, some box)
    else (deny_net, some box)

-- `lk_check_alloc`: the request is charged before it is judged.
unfoldable pub check_alloc : Option LilyBox → ℕ → Violation × Option LilyBox
check_alloc none count = (ok, none)
check_alloc (some box) count =
    let limit = box.capability.limits.max_memory_bytes in
    if limit == 0
    then (ok, some box)
    else let total = (box.bytes_allocated + count) % 2 ^ 64 in
      (if leb total limit then ok else limit_mem, some (record box { bytes_allocated = total }))

-- `lk_check_perm`, the fast check of a set of flags.
unfoldable pub check_perm : Option LilyBox → ℕ → Violation
check_perm none needed = ok
check_perm (some box) needed =
    if bit_and box.capability.perm_flags needed == needed
    then ok
    else if has_flag needed perm_net
    then deny_net
    else if has_flag needed perm_fs
    then deny_fs
    else if has_flag needed perm_proc
    then deny_proc
    else if has_flag needed perm_ffi
    then deny_ffi
    else deny_net

module _ (fnmatch : Bytes → Bytes → Bool → Bool) where
  -- The test of `path_allowed` on one entry of the filter.
  abbrev pub allows : Bytes → Bytes → Bool
  allows path pattern_text = has_prefix path pattern_text || fnmatch pattern_text path true

  unfoldable pub path_allowed : List Bytes → Bytes → Bool
  path_allowed [] path = true
  path_allowed (first ∷ rest) path = any (allows path) (first ∷ rest)

  unfoldable pub check_fs_read : Option LilyBox → Bytes → Violation
  check_fs_read none path = ok
  check_fs_read (some box) path =
      if has_flag box.capability.perm_flags perm_fs_read
      then if path_allowed box.capability.fs_read path then ok else deny_path
      else deny_fs

  unfoldable pub check_fs_write : Option LilyBox → Bytes → Violation
  check_fs_write none path = ok
  check_fs_write (some box) path =
      if has_flag box.capability.perm_flags perm_fs_write
      then if path_allowed box.capability.fs_write path then ok else deny_path
      else deny_fs

  abbrev pub host_allowed : List Bytes → Bytes → Bool
  host_allowed [] host = true
  host_allowed (first ∷ rest) host = any (λ h. fnmatch h host false) (first ∷ rest)

  unfoldable pub check_net_connect : Option LilyBox → Bytes → ℕ → Violation
  check_net_connect none host port = ok
  check_net_connect (some box) host port =
      if has_flag box.capability.perm_flags perm_net_connect
      then if host_allowed box.capability.net host then ok else deny_host
      else deny_net
