-- ===== src/Files/Modes.antt =====
-- What the options of a file say, apart from the bits.
use feng_shui.Prelude.{ℕ, ◌+◌, ◌≡◌, refl, Bool, true, false, if◌then◌else◌}
use feng_shui.Files.{
  read_only, write_only, read_write, write_only_append, read_write_append, open_options, o_rdonly,
  o_wronly, o_rdwr, o_creat, o_trunc, o_append,
}

pub data Mode : Type 0 where
  reading : Mode
  writing : Mode
  both : Mode
  appending : Mode
  both_appending : Mode

abbrev pub code : Mode → ℕ
code reading = read_only
code writing = write_only
code both = read_write
code appending = write_only_append
code both_appending = read_write_append

abbrev pub access : Mode → ℕ
access reading = o_rdonly
access writing = o_wronly
access both = o_rdwr
access appending = o_wronly
access both_appending = o_rdwr

abbrev pub appends : Mode → Bool
appends reading = false
appends writing = false
appends both = false
appends appending = true
appends both_appending = true

abbrev pub part : Bool → ℕ → ℕ
part wanted flag = if wanted then flag else 0

-- In each of the five modes, the options are the sum of the access mode, of O_APPEND in the two
-- modes that append, and of O_TRUNC and O_CREAT where they are asked for.
pub open_options_lem :
    (mode : Mode) (truncate create : Bool)
    → open_options (code mode) truncate create
      ≡ access mode + part (appends mode) o_append + part truncate o_trunc + part create o_creat
unfolding open_options
open_options_lem reading true true = refl
open_options_lem reading true false = refl
open_options_lem reading false true = refl
open_options_lem reading false false = refl
open_options_lem writing true true = refl
open_options_lem writing true false = refl
open_options_lem writing false true = refl
open_options_lem writing false false = refl
open_options_lem both true true = refl
open_options_lem both true false = refl
open_options_lem both false true = refl
open_options_lem both false false = refl
open_options_lem appending true true = refl
open_options_lem appending true false = refl
open_options_lem appending false true = refl
open_options_lem appending false false = refl
open_options_lem both_appending true true = refl
open_options_lem both_appending true false = refl
open_options_lem both_appending false true = refl
open_options_lem both_appending false false = refl
