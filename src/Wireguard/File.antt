-- ===== src/Wireguard/File.antt =====
-- `_write_atomic` of app/services/wireguard.py, on the directory of the configuration file.
use mikrotik_cpe_cloud.Base.{[], ℕ, ◌%◌, ◌^◌, Option, none, some}
use mikrotik_cpe_cloud.Base.Text.{Text}
use mikrotik_cpe_cloud.Base.Result.{Result, ok, err, os_error}

-- The configuration file and its mode, and the temporary file where there is one.
pub record Dir : Type 0 where
  pub conf : Option Text
  pub mode : ℕ
  pub temp : Option Text

-- The first system call that fails. A `chown` that is refused (PermissionError) is passed over.
pub data Fault : Type 0 where
  at_mkstemp at_write at_chmod at_chown_permission at_chown at_replace : Fault

-- `os.replace(tmp_path, path)`
abbrev replaced : Text → ℕ → Result (Unit {0}) × Dir
replaced content mode = (ok tt, record { conf = some content; mode = mode; temp = none })

-- `except BaseException`: the temporary file is removed, and the error goes on.
abbrev cleaned_up : Dir → Result (Unit {0}) × Dir
cleaned_up dir = (err os_error, record dir { temp = none })

-- From `mkstemp` on, `stat` having given the mode of the file.
abbrev write_temp : Option Fault → Text → Dir → Result (Unit {0}) × Dir
write_temp (some at_mkstemp) content dir = (err os_error, dir)
write_temp (some at_write) content dir = cleaned_up (record dir { temp = some [] })
write_temp (some at_chmod) content dir = cleaned_up (record dir { temp = some content })
write_temp (some at_chown) content dir = cleaned_up (record dir { temp = some content })
write_temp (some at_replace) content dir = cleaned_up (record dir { temp = some content })
write_temp (some at_chown_permission) content dir = replaced content (dir.mode % 2 ^ 12)
write_temp none content dir = replaced content (dir.mode % 2 ^ 12)

-- `path.stat()` of a missing file raises.
abbrev stat_first : Option Text → Option Fault → Text → Dir → Result (Unit {0}) × Dir
stat_first none fault content dir = (err os_error, dir)
stat_first (some old) fault content dir = write_temp fault content dir

unfoldable pub write_atomic : Option Fault → Text → Dir → Result (Unit {0}) × Dir
write_atomic fault content dir = stat_first dir.conf fault content dir
