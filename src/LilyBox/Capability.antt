-- ===== src/LilyBox/Capability.antt =====
-- Permission flags, the capability of a sandbox and its creation. A `uint32_t` of flags is a
-- number; a filter is the list of its strings, whose length is `count`.
-- The ports of a host filter, the heap, the lock and the counters that no code reads are left out.
use sage_tree.Base.{ℕ, ◌+◌, ◌*◌, ◌%◌, ◌^◌, bit_and, Bool, not, List, [], Option, none, Bytes, ◌==◌}
use sage_tree.Base.Int.{ℤ, pos}

abbrev pub perm_none : ℕ
perm_none = 0

abbrev pub perm_net_send : ℕ
perm_net_send = 0x1

abbrev pub perm_net_recv : ℕ
perm_net_recv = 0x2

abbrev pub perm_net_bind : ℕ
perm_net_bind = 0x4

abbrev pub perm_net_connect : ℕ
perm_net_connect = 0x8

-- The five flags of the network, with `LK_PERM_NET_DNS`.
abbrev pub perm_net : ℕ
perm_net = 0x1f

abbrev pub perm_fs_read : ℕ
perm_fs_read = 0x100

abbrev pub perm_fs_write : ℕ
perm_fs_write = 0x200

abbrev pub perm_fs_exec : ℕ
perm_fs_exec = 0x400

abbrev pub perm_fs : ℕ
perm_fs = 0x700

abbrev pub perm_proc_fork : ℕ
perm_proc_fork = 0x1000

abbrev pub perm_proc_exec : ℕ
perm_proc_exec = 0x2000

-- With `LK_PERM_PROC_SIGNAL`.
abbrev pub perm_proc : ℕ
perm_proc = 0x7000

abbrev pub perm_ipc : ℕ
perm_ipc = 0x10000

abbrev pub perm_ffi : ℕ
perm_ffi = 0x40000

abbrev pub perm_env_read : ℕ
perm_env_read = 0x80000

abbrev pub perm_env_write : ℕ
perm_env_write = 0x100000

abbrev pub perm_all : ℕ
perm_all = 0xffffffff

-- `LKLimits`
pub record Limits : Type 0 where
  pub max_memory_bytes : ℕ
  pub max_cpu_ms : ℤ
  pub max_syscalls : ℤ
  pub max_open_files : ℤ
  pub max_threads : ℤ
  pub max_net_bytes_sec : ℕ

-- `LKCapability`
pub record Capability : Type 0 where
  pub perm_flags : ℕ
  pub fs_read : List Bytes
  pub fs_write : List Bytes
  pub net : List Bytes
  pub limits : Limits

-- `LilyBox`; `clock` never goes back, so the start of the window is a natural number.
pub record LilyBox : Type 0 where
  pub capability : Capability
  pub id : ℕ
  pub name : Option Bytes
  pub bytes_allocated : ℕ
  pub threads_spawned : ℤ
  pub net_bytes_this_sec : ℕ
  pub net_window_start_ms : ℕ
  pub last_violation : Bytes
  pub violation_count : ℕ

-- `LKViolation`
pub data Violation : Type 0 where
  ok deny_net deny_host deny_fs deny_path deny_proc deny_ffi deny_env : Violation
  limit_mem limit_cpu limit_files limit_syscall : Violation

abbrev pub default_limits : Limits
default_limits = record {
  max_memory_bytes = 256 * 1024 * 1024;
  max_cpu_ms = pos 30000;
  max_syscalls = pos 1000000;
  max_open_files = pos 100;
  max_threads = pos 8;
  max_net_bytes_sec = 0;
}

-- `lilyknight_create_with_flags`, with `_lk_next_id` handed in and handed on.
unfoldable pub create_with_flags : ℕ → ℕ → LilyBox × ℕ
create_with_flags next_id flags = (
  record {
    capability = record {
      perm_flags = flags;
      fs_read = [];
      fs_write = [];
      net = [];
      limits = default_limits;
    };
    id = next_id;
    name = none;
    bytes_allocated = 0;
    threads_spawned = pos 0;
    net_bytes_this_sec = 0;
    net_window_start_ms = 0;
    last_violation = [];
    violation_count = 0;
  },
  (next_id + 1) % 2 ^ 64,
)

unfoldable pub create_unrestricted : ℕ → LilyBox × ℕ
create_unrestricted next_id = create_with_flags next_id perm_all

-- `flags & mask` as a condition.
abbrev pub has_flag : ℕ → ℕ → Bool
has_flag flags mask = not (bit_and flags mask == 0)
