-- ===== src/Files.antt =====
-- transport/native/transport/file.c: the flags with which a file is opened.
pub mod Modes
mod Tests
use feng_shui.Prelude.{ℕ, Bool, bit_or, ◌==◌, if◌then◌else◌}

-- TRANSPORT_READ_ONLY and the other modes.
abbrev pub read_only : ℕ
read_only = 1

abbrev pub write_only : ℕ
write_only = 2

abbrev pub read_write : ℕ
read_write = 4

abbrev pub write_only_append : ℕ
write_only_append = 8

abbrev pub read_write_append : ℕ
read_write_append = 16

-- The flags of open, as Linux has them.
abbrev pub o_rdonly : ℕ
o_rdonly = 0

abbrev pub o_wronly : ℕ
o_wronly = 1

abbrev pub o_rdwr : ℕ
o_rdwr = 2

abbrev pub o_creat : ℕ
o_creat = 64

abbrev pub o_trunc : ℕ
o_trunc = 512

abbrev pub o_append : ℕ
o_append = 1024

abbrev pub with_option : (options : ℕ) → Bool → (flag : ℕ) → ℕ
with_option options wanted flag = if wanted then bit_or options flag else options

-- The options that `transport_file_open` passes to open, with the permissions 0666.
unfoldable pub open_options : (mode : ℕ) → (truncate create : Bool) → ℕ
open_options mode truncate create =
    let a = with_option 0 (mode == read_only) o_rdonly in
    let b = with_option a (mode == write_only) o_wronly in
    let c = with_option b (mode == read_write) o_rdwr in
    let d = with_option c (mode == write_only_append) (bit_or o_wronly o_append) in
    let e = with_option d (mode == read_write_append) (bit_or o_rdwr o_append) in
    with_option (with_option e truncate o_trunc) create o_creat
