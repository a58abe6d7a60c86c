-- ===== src/LilyBox/Session.antt =====
-- The functions of src/sandbox_module.c that decide: permission strings, `sandbox.create_restricted`
-- and `sandbox.check`. An argument of a native function that is no string is `none`, and so is a
-- handle that names no sandbox.
use sage_tree.Base.{
  ℕ, bit_and, bit_or, Bool, false, List, [], ◌∷◌, Option, none, some, Bytes, bytes, bytes_eq, ◌==◌,
  if◌then◌else◌,
}
use sage_tree.LilyBox.Capability.{
  perm_none, perm_net_send, perm_net_recv, perm_net_bind, perm_net_connect, perm_net, perm_fs_read,
  perm_fs_write, perm_fs_exec, perm_fs, perm_proc, perm_ipc, perm_ffi, perm_env_read,
  perm_env_write, perm_all, LilyBox, create_with_flags,
}

unfoldable pub parse_perm_string : Bytes → ℕ
parse_perm_string s =
    if bytes_eq s (bytes "net")
    then perm_net
    else if bytes_eq s (bytes "net.send")
    then perm_net_send
    else if bytes_eq s (bytes "net.recv")
    then perm_net_recv
    else if bytes_eq s (bytes "net.bind")
    then perm_net_bind
    else if bytes_eq s (bytes "net.connect")
    then perm_net_connect
    else if bytes_eq s (bytes "fs")
    then perm_fs
    else if bytes_eq s (bytes "fs.read")
    then perm_fs_read
    else if bytes_eq s (bytes "fs.write")
    then perm_fs_write
    else if bytes_eq s (bytes "fs.exec")
    then perm_fs_exec
    else if bytes_eq s (bytes "proc")
    then perm_proc
    else if bytes_eq s (bytes "ffi")
    then perm_ffi
    else if bytes_eq s (bytes "env")
    then bit_or perm_env_read perm_env_write
    else if bytes_eq s (bytes "ipc")
    then perm_ipc
    else if bytes_eq s (bytes "all")
    then perm_all
    else 0

-- The flags that the arguments of `sandbox.create_restricted` add to those so far.
unfoldable pub restricted_flags : ℕ → List (Option Bytes) → ℕ
restricted_flags flags [] = flags
restricted_flags flags (none ∷ args) = restricted_flags flags args
restricted_flags flags (some s ∷ args) = restricted_flags (bit_or flags (parse_perm_string s)) args

unfoldable pub sandbox_create_restricted : ℕ → List (Option Bytes) → LilyBox × ℕ
sandbox_create_restricted next_id args = create_with_flags next_id (restricted_flags perm_none args)

unfoldable pub sandbox_check : Option LilyBox → Option Bytes → Bool
sandbox_check none perm = false
sandbox_check (some box) none = false
sandbox_check (some box) (some s) =
    let perm = parse_perm_string s in bit_and box.capability.perm_flags perm == perm
