-- ===== src/Storage/Pvc/Tests.antt =====
-- An upload of three bytes and a download of them.
use projectbeskar_virtrigaud.Common.{ℕ, List, pos, none, true, false, [], ◌∷◌, length, ◌≡◌, refl}
use projectbeskar_virtrigaud.Controller.{State, ok, next}
use projectbeskar_virtrigaud.Controller.Runs.{Ends}
use projectbeskar_virtrigaud.Storage.Types.{
  Reads, more, done, Writer, Call, Os, UploadRequest, UploadResponse, DownloadRequest,
}
use projectbeskar_virtrigaud.Storage.Copy.Laws.{IsFailure, bytes_of}
use projectbeskar_virtrigaud.Storage.Pvc.{upload_reads, download_reads}
use projectbeskar_virtrigaud.Storage.Copy.{copy}
use projectbeskar_virtrigaud.Storage.Pvc.Checksums.{IsOf, download_reads-upload_reads}

abbrev start : State (List ℕ) Call Unit
start = record { object = []; world = tt; calls = [] }

abbrev take_all : Writer Unit
take_all chunk w = ((pos (length chunk), none), w)

abbrev os : Os Unit
os = record {
  stat = λ p w. (ok (record { is_dir = false; size = pos 3; modified = "" }), w);
  mkdir_all = λ p w. (ok tt, w);
  open_file = λ p w. (
    ok (record {
      info = ok (record { is_dir = false; size = pos 3; modified = "" });
      reads = done [];
    }),
    w,
  );
  create = λ p w. (ok tt, w);
  write = λ p. take_all;
  sync = λ p w. (ok tt, w);
  remove = λ p w. (ok tt, w);
  trim_space = λ s. s;
  clean = λ s. s;
  join = λ s t. s;
  dir = λ s. s;
  sha256 = λ bytes. "digest";
}

abbrev put : UploadRequest
put = record {
  source_path = "";
  destination_url = "pvc://claim/disk";
  reader = none;
  content_length = pos 3;
  checksum = "";
  has_callback = true;
}

abbrev get : DownloadRequest Unit
get = record {
  source_url = "pvc://claim/disk";
  destination_path = "disk";
  writer = none;
  verify_checksum = false;
  expected_checksum = "";
  has_callback = false;
}

abbrev answer : UploadResponse
answer = record { url = "pvc://claim/disk"; checksum = "digest"; bytes_transferred = 3 }

abbrev in_two : Reads
in_two = more (1 ∷ 2 ∷ []) (done (3 ∷ []))

abbrev at_once : Reads
at_once = done (1 ∷ 2 ∷ 3 ∷ [])

uploads : (upload_reads os put "disk" (pos 3) in_two start).0 ≡ next answer
unfolding upload_reads copy projectbeskar_virtrigaud.Controller.◌>>=◌
uploads = refl

same_bytes : bytes_of at_once ≡ bytes_of in_two
unfolding bytes_of
same_bytes = refl

download_reads-upload_reads_example :
    IsOf os in_two 3 "digest"
    × Ends IsFailure
        (λ hashed d. (d.checksum ≡ "digest") × (d.bytes_transferred ≡ 3))
        (download_reads os
          (record get { verify_checksum = true; expected_checksum = "digest" })
          take_all
          (pos 3)
          at_once
          start)
download_reads-upload_reads_example =
    download_reads-upload_reads os put "disk" (pos 3) in_two start answer uploads get take_all
      (pos 3) at_once start same_bytes
