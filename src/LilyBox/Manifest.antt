-- ===== src/LilyBox/Manifest.antt =====
-- `lilyknight_create` of src/lilybox/lilybox.c: the manifest as the list of what `fgets` yields.
-- `atoi` reads a number that fits an `int`; beyond that C leaves its result open.
use sage_tree.Base.{
  ℕ, ◌+◌, ◌*◌, ◌-◌, ◌%◌, ◌^◌, bit_or, Bool, ◌&&◌, ◌||◌, List, [], ◌∷◌, ◌++◌, Option, none, some,
  Bytes, bytes, bytes_eq, has_prefix, length, take, ltb, leb, ◌==◌, if◌then◌else◌,
}
use sage_tree.Base.Int.{ℤ, pos, negate, to_size}
use sage_tree.LilyBox.Capability.{
  perm_none, perm_net, perm_fs_read, perm_fs_write, perm_proc_exec, perm_ffi, perm_ipc,
  perm_env_read, Capability, LilyBox, create_with_flags,
}

-- `*p == ' ' || *p == '\t'`
abbrev pub is_blank : ℕ → Bool
is_blank c = (c == 32) || (c == 9)

-- `*p == '#' || *p == '\n' || *p == '\r' || *p == '['`
abbrev pub is_skipped : ℕ → Bool
is_skipped c = (c == 35) || ((c == 10) || ((c == 13) || (c == 91)))

-- A newline, a carriage return or a space.
abbrev pub is_line_end : ℕ → Bool
is_line_end c = (c == 10) || ((c == 13) || (c == 32))

unfoldable pub skip_while : (ℕ → Bool) → Bytes → Bytes
skip_while test [] = []
skip_while test (c ∷ s) = let rest = skip_while test s in if test c then rest else c ∷ s

-- Bytes of the end that pass the test are cut off.
unfoldable pub trim_end : (ℕ → Bool) → Bytes → Bytes
trim_end test [] = []
trim_end test (c ∷ s) = keep (trim_end test s)
  where
    keep : Bytes → Bytes
    keep [] = if test c then [] else c ∷ []
    keep (d ∷ rest) = c ∷ d ∷ rest

-- `strchr`: the bytes before the first one that is `c`, and those after it.
unfoldable pub split_at : ℕ → Bytes → Option (Bytes × Bytes)
split_at c [] = none
split_at c (x ∷ s) =
    let found = split_at c s in
    if x == c
    then some ([], s)
    else elim found [ none ↦ none | some (before, after) ↦ some (x ∷ before, after) ]

-- `parse_string_list`: what stands between quotes; `none` is outside of them, `some item` is inside
-- with `item` read so far.
unfoldable pub string_items : Option Bytes → Bytes → List Bytes
string_items none [] = []
string_items (some item) [] = item ∷ []
string_items none (c ∷ s) =
    let inside = string_items (some []) s in
    let outside = string_items none s in if c == 34 then inside else outside
string_items (some item) (c ∷ s) =
    let closed = string_items none s in
    let longer = string_items (some (item ++ (c ∷ []))) s in
    if c == 34 then item ∷ closed else longer

abbrev pub parse_string_list : Bytes → List Bytes
parse_string_list text = string_items none text

unfoldable pub digits : ℕ → Bytes → ℕ
digits n [] = n
digits n (c ∷ s) =
    let rest = digits (n * 10 + (c - 48)) s in if leb 48 c && leb c 57 then rest else n

abbrev pub is_space : ℕ → Bool
is_space c = (c == 32) || (leb 9 c && leb c 13)

abbrev signed : Bytes → ℤ
signed [] = pos 0
signed (c ∷ s) =
    if c == 45
    then negate (digits 0 s)
    else if c == 43
    then pos (digits 0 s)
    else pos (digits 0 (c ∷ s))

unfoldable pub atoi : Bytes → ℤ
atoi text = signed (skip_while is_space text)

-- `|=` on the flags of the capability.
abbrev pub grant : ℕ → Capability → Capability
grant mask capability = record capability { perm_flags = bit_or capability.perm_flags mask }

abbrev pub allow_hosts : List Bytes → Capability → Capability
allow_hosts hosts capability = record capability { net = capability.net ++ hosts }

abbrev pub allow_read : List Bytes → Capability → Capability
allow_read paths capability = record (grant perm_fs_read capability) {
  fs_read = capability.fs_read ++ paths;
}

abbrev pub allow_write : List Bytes → Capability → Capability
allow_write paths capability = record (grant perm_fs_write capability) {
  fs_write = capability.fs_write ++ paths;
}

abbrev pub limit_memory : ℤ → Capability → Capability
limit_memory mb capability = record capability {
  limits = record (capability.limits) { max_memory_bytes = to_size mb * 1024 * 1024 % 2 ^ 64 };
}

abbrev pub limit_cpu : ℤ → Capability → Capability
limit_cpu n capability = record capability {
  limits = record (capability.limits) { max_cpu_ms = n };
}

abbrev pub limit_files : ℤ → Capability → Capability
limit_files n capability = record capability {
  limits = record (capability.limits) { max_open_files = n };
}

abbrev pub limit_threads : ℤ → Capability → Capability
limit_threads n capability = record capability {
  limits = record (capability.limits) { max_threads = n };
}

-- `strncmp(val, "true", 4) == 0`
abbrev pub says_true : Bytes → Bool
says_true text = has_prefix text (bytes "true")

-- The chain of tests on the key of a `key = value` line, with the flag a key grants and the filter
-- or the limit it sets.
unfoldable pub apply_entry : Bytes → Bytes → Capability → Capability
apply_entry key val c =
    if bytes_eq key (bytes "net")
    then if says_true val then grant perm_net c else c
    else if bytes_eq key (bytes "net.allowed_hosts")
    then allow_hosts (parse_string_list val) c
    else if bytes_eq key (bytes "fs.read")
    then allow_read (parse_string_list val) c
    else if bytes_eq key (bytes "fs.write")
    then allow_write (parse_string_list val) c
    else if bytes_eq key (bytes "exec") && says_true val
    then grant perm_proc_exec c
    else if bytes_eq key (bytes "ffi") && says_true val
    then grant perm_ffi c
    else if bytes_eq key (bytes "max_memory_mb")
    then limit_memory (atoi val) c
    else if bytes_eq key (bytes "max_cpu_ms")
    then limit_cpu (atoi val) c
    else if bytes_eq key (bytes "max_open_files")
    then limit_files (atoi val) c
    else if bytes_eq key (bytes "threads") && says_true val
    then grant perm_ipc c
    else if bytes_eq key (bytes "max_threads")
    then limit_threads (atoi val) c
    else if bytes_eq key (bytes "env") && says_true val
    then grant perm_env_read c
    else c

-- What stands on both sides of the `=` goes into buffers of 128 and 384 bytes.
abbrev pub entry_of : Bytes × Bytes → Option (Bytes × Bytes)
entry_of (before, after) =
    if ltb 127 (length before)
    then none
    else some
        (trim_end is_blank before, trim_end is_line_end (take 383 (skip_while is_blank after)))

-- The key and the value of a line, when it is one that is not skipped.
unfoldable pub parse_line : Bytes → Option (Bytes × Bytes)
parse_line line = after_blanks (skip_while is_blank line)
  where
    after_blanks : Bytes → Option (Bytes × Bytes)
    after_blanks [] = none
    after_blanks (c ∷ s) =
        if is_skipped c
        then none
        else elim (split_at 61 (c ∷ s)) [ none ↦ none | some halves ↦ entry_of halves ]

abbrev pub apply_parsed : Option (Bytes × Bytes) → Capability → Capability
apply_parsed none capability = capability
apply_parsed (some (key, val)) capability = apply_entry key val capability

abbrev pub apply_line : Bytes → Capability → Capability
apply_line line capability = apply_parsed (parse_line line) capability

unfoldable pub apply_lines : List Bytes → Capability → Capability
apply_lines [] capability = capability
apply_lines (line ∷ lines) capability = apply_lines lines (apply_line line capability)

-- `lilyknight_create`: the path, and what the file of it yields when it can be opened.
unfoldable pub create : ℕ → Option Bytes → Option (List Bytes) → LilyBox × ℕ
create next_id none file =
    let (box, next) = create_with_flags next_id perm_none in
    (record box { name = some (bytes "<no manifest>") }, next)
create next_id (some path) none =
    let (box, next) = create_with_flags next_id perm_none in (record box { name = some path }, next)
create next_id (some path) (some lines) =
    let (box, next) = create_with_flags next_id perm_none in
    (record box { name = some path; capability = apply_lines lines box.capability }, next)
