-- ===== src/Storage/Pvc.antt =====
-- internal/storage/pvc.go and `NewStorage` of storage.go: the operations on a mounted claim. `mount` is
-- `mountPath`, which `new_storage` returns.
pub mod Checksums
mod Tests
use projectbeskar_virtrigaud.Common.{
  ℕ, ℤ, pos, exceeds, String, ◌<>◌, ◌=t◌, Bool, true, false, not, ◌&&◌, ◌||◌, if◌then◌else◌, Option,
  none, some, List, [], ◌∷◌, ◌++◌,
}
use projectbeskar_virtrigaud.Controller.{
  Fault, Reply, ok, fault, ◌>>=◌, ◌>>◌, pure, stop, query, perform, the_object, modify, ◌on_error◌,
  settle,
}
use projectbeskar_virtrigaud.Storage.Types.{
  StorageError, not_found, checksum_mismatch, invalid_config, operation_failed, Reads, Writer,
  UploadRequest, UploadResponse, DownloadRequest, DownloadResponse, FileMetadata, FileInfo, Source,
  StorageConfig, directory_made, file_created, file_removed, Os, Run, fail,
}
use projectbeskar_virtrigaud.Storage.Copy.{Sink, single, multi, copy}
use projectbeskar_virtrigaud.Storage.Path.{Parsed, invalid, path, parse_path}

mount_path : String → String
mount_path s = if s =t "" then "/mnt/migration-storage" else s

-- Whether a checksum was asked for that is not the one computed.
pub differs : String → String → Bool
differs expected actual = not (expected =t "") && not (expected =t actual)

mismatch : String → String → String
mismatch expected actual = "checksum mismatch: expected=" <> (expected <> (" actual=" <> actual))

-- The total to report against: an upload without a length reports nothing.
upload_report : Bool → ℤ → Option ℤ
upload_report callback total = if callback && exceeds total 0 then some total else none

download_report : Bool → ℤ → Option ℤ
download_report callback total = if callback then some total else none

-- `sha256.New()`.
new_hasher : {W : Type 0} → Run W (Unit {0})
new_hasher = modify (λ hashed. [])

module _ {W : Type 0} (os : Os W) where
  verify_mount : String → Run W (Unit {0})
  verify_mount mount = do
    info ← query (os.stat mount) on_error λ e.
        if e.not_found
        then fail not_found
            ("PVC mount path does not exist: " <> (mount <> " (PVC may not be mounted to pod)"))
            (some e)
        else fail operation_failed ("failed to stat PVC mount path: " <> mount) (some e)
    if info.is_dir
        then pure tt
        else fail invalid_config ("PVC mount path is not a directory: " <> mount) none

  new_pvc_storage : StorageConfig → Run W String
  unfolding verify_mount mount_path
  new_pvc_storage config = do
    verify_mount (os.clean (mount_path config.mount_path))
    pure (os.clean (mount_path config.mount_path))

  pub new_storage : StorageConfig → Run W String
  unfolding new_pvc_storage
  new_storage config =
      if config.kind =t "pvc" || config.kind =t ""
      then new_pvc_storage config
      else fail invalid_config
          ("unsupported storage type (only 'pvc' is supported): " <> config.kind) none

  parsed : Parsed → Run W String
  parsed (invalid e) = stop e
  parsed (path p) = pure p

  pub validate_url : String → String → Run W String
  unfolding parsed
  validate_url mount url = parsed (parse_path os mount url)

  make_directory : String → Run W Unit
  make_directory d = perform (directory_made d) (os.mkdir_all d) on_error λ e.
      fail operation_failed ("failed to create destination directory: " <> d) (some e)

  create_file : String → Run W Unit
  create_file p = perform (file_created p) (os.create p) on_error λ e.
      fail operation_failed ("failed to create destination file: " <> p) (some e)

  size_of : Reply FileInfo → Run W ℤ
  size_of (ok info) = pure info.size
  size_of (fault e) = fail operation_failed "failed to stat source file" (some e)

  reader_given : UploadRequest → Option Reads → Run W (ℤ × Reads)
  reader_given req none = fail invalid_config "either SourcePath or Reader must be provided" none
  reader_given req (some r) = pure (req.content_length, r)

  -- The length and the reader of an upload.
  upload_source : UploadRequest → Run W (ℤ × Reads)
  unfolding size_of reader_given
  upload_source req = if req.source_path =t "" then reader_given req req.reader else (do
    file ← query (os.open_file req.source_path) on_error λ e.
        fail not_found ("failed to open source file: " <> req.source_path) (some e)
    size ← size_of file.info
    pure (size, file.reads))

  -- The file of a mismatch is removed, and an error of the removal ignored.
  check_upload : String → String → String → Run W (Unit {0})
  unfolding differs mismatch
  check_upload dest expected actual =
      if differs expected actual
      then (do
        removed ← settle (perform (file_removed dest) (os.remove dest))
        fail checksum_mismatch (mismatch expected actual) none)
      else pure tt

  pub upload_reads : UploadRequest → String → ℤ → Reads → Run W UploadResponse
  unfolding check_upload upload_report new_hasher
  upload_reads req dest total reads = do
    new_hasher
    count ← copy (multi (os.write dest)) (upload_report req.has_callback total) reads 0
    synced ← query (os.sync dest) on_error λ e.
        fail operation_failed "failed to sync file to disk" (some e)
    hashed ← the_object
    check_upload dest req.checksum (os.sha256 hashed)
    pure (record {
      url = req.destination_url;
      checksum = os.sha256 hashed;
      bytes_transferred = count;
    })

  pub upload : String → UploadRequest → Run W UploadResponse
  unfolding validate_url make_directory upload_source create_file upload_reads
  upload mount req = do
    dest ← validate_url mount req.destination_url
    made ← make_directory (os.dir dest)
    source ← upload_source req
    created ← create_file dest
    upload_reads req dest source.0 source.1

  writer_given : Option (Writer W) → Run W (Writer W)
  writer_given none = fail invalid_config "either DestinationPath or Writer must be provided" none
  writer_given (some w) = pure w

  download_writer : DownloadRequest W → Run W (Writer W)
  unfolding make_directory create_file writer_given
  download_writer req = if req.destination_path =t "" then writer_given req.writer else (do
    made ← make_directory (os.dir req.destination_path)
    created ← create_file req.destination_path
    pure (os.write req.destination_path))

  -- The checksum of a download, "" where none is verified.
  check_download : Bool → String → Run W String
  unfolding differs mismatch
  check_download false expected = pure ""
  check_download true expected = do
    hashed ← the_object
    if differs expected (os.sha256 hashed)
        then fail checksum_mismatch (mismatch expected (os.sha256 hashed)) none
        else pure (os.sha256 hashed)

  -- The writer of a download: with a hasher behind it where the checksum is verified.
  sink_of : Bool → Writer W → Run W (Sink W)
  unfolding new_hasher
  sink_of false writer = pure (single writer)
  sink_of true writer = do new_hasher; pure (multi writer)

  pub download_reads : DownloadRequest W → Writer W → ℤ → Reads → Run W DownloadResponse
  unfolding check_download download_report sink_of
  download_reads req writer total reads = do
    sink ← sink_of req.verify_checksum writer
    count ← copy sink (download_report req.has_callback total) reads 0
    checksum ← check_download req.verify_checksum req.expected_checksum
    pure (record { bytes_transferred = count; checksum = checksum; content_length = total })

  open_source : String → Run W Source
  open_source src = query (os.open_file src) on_error λ e.
      if e.not_found
      then fail not_found ("source file not found: " <> src) (some e)
      else fail operation_failed ("failed to open source file: " <> src) (some e)

  pub download : String → DownloadRequest W → Run W DownloadResponse
  unfolding validate_url open_source size_of download_writer download_reads
  download mount req = do
    src ← validate_url mount req.source_url
    file ← open_source src
    total ← size_of file.info
    writer ← download_writer req
    download_reads req writer total file.reads

  is_gone : Reply FileInfo → Bool
  is_gone (ok info) = false
  is_gone (fault e) = e.not_found

  -- Only a file that does not exist is taken for deleted already.
  pub delete : String → String → Run W (Unit {0})
  unfolding validate_url is_gone
  delete mount url = do
    file ← validate_url mount url
    info ← settle (query (os.stat file))
    if is_gone info then pure tt else (do
      removed ← perform (file_removed file) (os.remove file) on_error λ e.
          fail operation_failed ("failed to delete file: " <> file) (some e)
      pure tt)

  hash_all : Reads → Run W (List ℕ)
  hash_all (Reads.broken chunk e) = fail operation_failed "failed to calculate checksum" (some e)
  hash_all (Reads.done chunk) = pure chunk
  hash_all (Reads.more chunk rest) = do bytes ← hash_all rest; pure (chunk ++ bytes)

  pub get_metadata : String → String → Run W FileMetadata
  unfolding validate_url hash_all
  get_metadata mount url = do
    file ← validate_url mount url
    info ← query (os.stat file) on_error λ e.
        if e.not_found
        then fail not_found ("file not found: " <> file) (some e)
        else fail operation_failed ("failed to stat file: " <> file) (some e)
    source ← query (os.open_file file) on_error λ e.
        fail operation_failed "failed to open file for checksum" (some e)
    bytes ← hash_all source.reads
    pure (record {
      url = url;
      size = info.size;
      checksum = os.sha256 bytes;
      last_modified = info.modified;
    })
