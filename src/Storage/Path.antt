-- ===== src/Storage/Path.antt =====
-- internal/storage/pvc.go (`parsePath`, `ValidateURL`): the file that a URL stands for.
use projectbeskar_virtrigaud.Common.{ℕ, suc, String, has_part, if◌then◌else◌, Option, none, some}
use Prim.Native.String.{len, slice}
use text.Mathlib.Text
use projectbeskar_virtrigaud.Storage.Types.{StorageError, invalid_config, Os}

-- Either an error or the path.
pub data Parsed : Type 0 where
  invalid : StorageError → Parsed
  path : String → Parsed

-- `strings.TrimPrefix`.
pub trim_prefix : String → String → String
trim_prefix s t = if Text.starts_with s t then slice s (len t) (len s) else s

-- The part of `strings.SplitN(url, "/", 2)` behind the first slash.
after_slash : String → Option ℕ → Option String
after_slash s none = none
after_slash s (some i) = some (slice s (suc i) (len s))

config_error : String → Parsed
config_error message = invalid (record { kind = invalid_config; message = message; cause = none })

module _ {W : Type 0} (os : Os W) where
  joined : String → Option String → Parsed
  unfolding config_error
  joined mount none = config_error "invalid PVC URL format: expected pvc://<pvc-name>/<file-path>"
  joined mount (some file) = path (os.join mount file)

  stripped : String → String
  unfolding trim_prefix
  stripped url = trim_prefix (os.trim_space url) "pvc://"

  pub parse_path : String → String → Parsed
  unfolding joined stripped after_slash
  parse_path mount url =
      if has_part (stripped url) ".."
      then config_error "invalid path: contains '..'"
      else joined mount (after_slash (stripped url) (Text.find? (stripped url) "/"))
