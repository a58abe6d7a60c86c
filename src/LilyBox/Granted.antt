-- ===== src/LilyBox/Granted.antt =====
-- The flags that `lilyknight_create` can grant from a manifest.
use sage_tree.Base.{
  ℕ, ◌*◌, ◌^◌, ◌≤◌, bit_and, bit_or, max, Bool, true, false, ◌&&◌, Option, none, some, List, [],
  ◌∷◌, Bytes, bytes, bytes_eq, ◌≡◌, refl, ap, ◌∙◌, if◌then◌else◌, arith,
}
use sage_tree.Base.Bits.{bit, bit-bit_or, bit-zero, bit_and-pow}
use sage_tree.LilyBox.Capability.{
  perm_none, perm_net, perm_fs_read, perm_fs_write, perm_proc_exec, perm_ffi, perm_ipc,
  perm_env_read, Capability, deny_fs, deny_proc, deny_env, has_flag, create_with_flags,
}
use sage_tree.LilyBox.Checks.{check_fs_exec, check_proc_fork, check_env}
use sage_tree.LilyBox.Manifest.{
  parse_string_list, atoi, allow_hosts, allow_read, allow_write, limit_memory, limit_cpu,
  limit_files, limit_threads, apply_entry, apply_parsed, apply_line, apply_lines, parse_line,
  says_true, grant, create,
}

-- All the flags that some line of a manifest can grant.
abbrev grantable : ℕ
grantable = 0xd231f

-- After a step flag `k` stays, and it comes only if a manifest can grant it.
Extends : ℕ → ℕ → Capability → Type 0
Extends k before capability =
    (before ≤ bit capability.perm_flags k)
    × (bit capability.perm_flags k ≤ max before (bit grantable k))

-- Setting a flag of `grantable`.
adds :
    (k flags mask : ℕ)
    → bit_or grantable mask ≡ grantable
    → (bit flags k ≤ bit (bit_or flags mask) k)
      × (bit (bit_or flags mask) k ≤ max (bit flags k) (bit grantable k))
adds k flags mask h = (
  omega (arith, bit-bit_or k flags mask),
  omega (arith, bit-bit_or k flags mask, bit-bit_or k grantable mask, ap (λ n. bit n k) h),
)

module _ (P : ℕ → Type 0) where
  -- A property of the flags along a chain of tests.
  choose :
      (test : Bool) (a b : Capability)
      → P a.perm_flags
      → P b.perm_flags
      → P (if test then a else b).perm_flags
  choose true a b ha hb = ha
  choose false a b ha hb = hb

  flags_chain :
      (key val : Bytes) (c : Capability)
      → P c.perm_flags
      → ((mask : ℕ) → bit_or grantable mask ≡ grantable → P (bit_or c.perm_flags mask))
      → P (apply_entry key val c).perm_flags
  unfolding apply_entry
  flags_chain key val c stays adds_flag =
      let items = parse_string_list val in
      let n = atoi val in
      choose (bytes_eq key (bytes "net")) (if says_true val then grant perm_net c else c) _
        (choose (says_true val) (grant perm_net c) c (adds_flag perm_net refl) stays)
        (choose (bytes_eq key (bytes "net.allowed_hosts")) (allow_hosts items c) _ stays (
          choose (bytes_eq key (bytes "fs.read")) (allow_read items c) _
            (adds_flag perm_fs_read refl)
            (choose (bytes_eq key (bytes "fs.write")) (allow_write items c) _
              (adds_flag perm_fs_write refl)
              (choose (bytes_eq key (bytes "exec") && says_true val) (grant perm_proc_exec c) _
                (adds_flag perm_proc_exec refl)
                (choose (bytes_eq key (bytes "ffi") && says_true val) (grant perm_ffi c) _
                  (adds_flag perm_ffi refl)
                  (choose (bytes_eq key (bytes "max_memory_mb")) (limit_memory n c) _ stays (
                    choose (bytes_eq key (bytes "max_cpu_ms")) (limit_cpu n c) _ stays (
                      choose (bytes_eq key (bytes "max_open_files")) (limit_files n c) _ stays (
                        choose (bytes_eq key (bytes "threads") && says_true val) (grant perm_ipc c)
                          _ (adds_flag perm_ipc refl)
                          (choose (bytes_eq key (bytes "max_threads")) (limit_threads n c) _ stays (
                            choose (bytes_eq key (bytes "env") && says_true val)
                              (grant perm_env_read c) c (adds_flag perm_env_read refl)
                              stays)))))))))))

apply_entry-Extends :
    (k : ℕ) (key val : Bytes) (c : Capability)
    → Extends k (bit c.perm_flags k) (apply_entry key val c)
unfolding Extends
apply_entry-Extends k key val c =
    flags_chain
      (λ n. (bit c.perm_flags k ≤ bit n k) × (bit n k ≤ max (bit c.perm_flags k) (bit grantable k)))
      key val c (omega arith, omega arith) (λ mask h. adds k c.perm_flags mask h)

apply_parsed-Extends :
    (k : ℕ) (parsed : Option (Bytes × Bytes)) (c : Capability)
    → Extends k (bit c.perm_flags k) (apply_parsed parsed c)
unfolding Extends
apply_parsed-Extends k none c = (omega arith, omega arith)
apply_parsed-Extends k (some (key, val)) c = apply_entry-Extends k key val c

apply_lines-Extends :
    (k : ℕ) (lines : List Bytes) (c : Capability)
    → Extends k (bit c.perm_flags k) (apply_lines lines c)
unfolding Extends apply_lines
apply_lines-Extends k [] c = (omega arith, omega arith)
apply_lines-Extends k (line ∷ lines) c =
    let step = apply_parsed-Extends k (parse_line line) c in
    let rest = apply_lines-Extends k lines (apply_line line c) in
    (omega (arith, step, rest), omega (arith, step, rest))

-- A flag that no line can grant stays off.
create-off :
    (k next_id : ℕ) (path : Option Bytes) (file : Option (List Bytes))
    → bit grantable k ≡ 0
    → bit (create next_id path file).0.capability.perm_flags k ≡ 0
unfolding create create_with_flags Extends
create-off k next_id none file h = bit-zero k
create-off k next_id (some path) none h = bit-zero k
create-off k next_id (some path) (some lines) h = omega (
  arith,
  h,
  bit-zero k,
  apply_lines-Extends k lines (create_with_flags next_id perm_none).0.capability,
)

has_flag-off : (flags k : ℕ) → bit flags k ≡ 0 → has_flag flags (2 ^ k) ≡ false
has_flag-off flags k h =
    let none_set : bit_and flags (2 ^ k) ≡ 0 =
      bit_and-pow k flags ∙ (ap (λ b. b * 2 ^ k) h ∙ omega arith) in
    rw none_set refl

-- Whatever path and manifest a sandbox is made from, `lk_check_fs_exec` refuses every file,
-- `lk_check_proc_fork` refuses, and `lk_check_env` refuses every write.
pub create-denies :
    (next_id : ℕ) (path : Option Bytes) (file : Option (List Bytes))
    → let box = some (create next_id path file).0 in
      ((target : Bytes) → check_fs_exec box target ≡ deny_fs)
      × (check_proc_fork box ≡ deny_proc)
      × ((variable : Bytes) → check_env box variable true ≡ deny_env)
unfolding check_fs_exec check_proc_fork check_env bit
create-denies next_id path file =
    let flags = (create next_id path file).0.capability.perm_flags in
    (
      (λ target. rw (has_flag-off flags 10 (create-off 10 next_id path file refl)) refl),
      rw (has_flag-off flags 12 (create-off 12 next_id path file refl)) refl,
      (λ variable. rw (has_flag-off flags 20 (create-off 20 next_id path file refl)) refl),
    )
