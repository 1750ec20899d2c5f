-- ===== src/Storage/Types.antt =====
-- internal/storage/storage.go: requests, answers and errors of the storage client, and what
-- internal/storage/pvc.go asks of the operating system. Bytes are numbers. Fields that no code sets or
-- reads are left out.
use projectbeskar_virtrigaud.Common.{ℕ, ℤ, String, ◌<>◌, Bool, Option, none, some, List}
use projectbeskar_virtrigaud.Controller.{Fault, Reply, Proc, stop}

pub data ErrorType : Type 0 where
  not_found permission_denied network_error checksum_mismatch : ErrorType
  invalid_config operation_failed : ErrorType

-- `kind` is the field `Type`.
pub record StorageError : Type 0 where
  pub kind : ErrorType
  pub message : String
  pub cause : Option Fault

pub error_text : StorageError → String
error_text e = elim e.cause [ none ↦ e.message | some c ↦ e.message <> (": " <> c.text) ]

-- The answers of a reader, up to the first error: `done` is `io.EOF`, which may come with bytes.
pub data Reads : Type 0 where
  more : List ℕ → Reads → Reads
  done : List ℕ → Reads
  broken : List ℕ → Fault → Reads

-- `Write`: the count that it returns, and its error.
abbrev pub Writer : Type 0 → Type 0
Writer W = List ℕ → W → (ℤ × Option Fault) × W

pub record UploadRequest : Type 0 where
  pub source_path : String
  pub destination_url : String
  pub reader : Option Reads
  pub content_length : ℤ
  pub checksum : String
  pub has_callback : Bool

pub record UploadResponse : Type 0 where
  pub url : String
  pub checksum : String
  pub bytes_transferred : ℕ

pub record DownloadRequest (W : Type 0) : Type 0 where
  pub source_url : String
  pub destination_path : String
  pub writer : Option (Writer W)
  pub verify_checksum : Bool
  pub expected_checksum : String
  pub has_callback : Bool

pub record DownloadResponse : Type 0 where
  pub bytes_transferred : ℕ
  pub checksum : String
  pub content_length : ℤ

pub record FileMetadata : Type 0 where
  pub url : String
  pub size : ℤ
  pub checksum : String
  pub last_modified : String

-- `modified` is the time in RFC 3339.
pub record FileInfo : Type 0 where
  pub is_dir : Bool
  pub size : ℤ
  pub modified : String

-- An open file: what `Stat` answers, and what reading it gives.
pub record Source : Type 0 where
  pub info : Reply FileInfo
  pub reads : Reads

pub record StorageConfig : Type 0 where
  pub kind : String
  pub pvc_name : String
  pub pvc_namespace : String
  pub mount_path : String

-- Changes outside, and the progress that is reported.
pub data Call : Type 0 where
  directory_made file_created file_removed : String → Call
  progress : ℕ → ℤ → Call

-- The operating system, the path and text functions of the standard library, and SHA-256 in hexadecimal
-- digits. A `Fault` is `os.IsNotExist` where it is `not_found`.
pub record Os (W : Type 0) : Type 0 where
  pub stat : String → W → Reply FileInfo × W
  pub mkdir_all : String → W → Reply Unit × W
  pub open_file : String → W → Reply Source × W
  pub create : String → W → Reply Unit × W
  pub write : String → Writer W
  pub sync : String → W → Reply Unit × W
  pub remove : String → W → Reply Unit × W
  pub trim_space : String → String
  pub clean : String → String
  pub join : String → String → String
  pub dir : String → String
  pub sha256 : List ℕ → String

-- Code that ends early with a storage error. The object in memory is what the SHA-256 hasher was given.
abbrev pub Run : Type 0 → Type 0 → Type 0
Run W A = Proc (List ℕ) Call W StorageError A

abbrev pub fail : {W A : Type 0} → ErrorType → String → Option Fault → Run W A
fail kind message cause = stop (record { kind = kind; message = message; cause = cause })
