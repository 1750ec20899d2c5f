-- ===== src/Storage/Pvc/Checksums.antt =====
-- internal/storage/pvc.go: the checksums that `Upload` returns and that `Download` verifies.
use projectbeskar_virtrigaud.Common.{
  ℕ, ℤ, String, =t_refl, true, false, Option, List, [], length, ◌≡◌, refl, ap, sym, ◌∙◌, subst,
  arith,
}
use projectbeskar_virtrigaud.Controller.{State, Flow, next}
use projectbeskar_virtrigaud.Controller.Runs.{
  Ends, Runs, Runs-any, Runs-pure, Runs-stop, Runs-the_object, Runs-modify, Runs-bind,
  Runs-on_error, Runs-query, Runs-if, Runs-forget, Runs-weaken,
}
use projectbeskar_virtrigaud.Storage.Types.{
  Reads, Writer, StorageError, Call, Os, UploadRequest, UploadResponse, DownloadRequest,
}
use projectbeskar_virtrigaud.Storage.Copy.{multi, copy}
use projectbeskar_virtrigaud.Storage.Copy.Laws.{bytes_of, hashed_by, IsFailure, IsCopied, Runs-copy}
use projectbeskar_virtrigaud.Storage.Pvc.{
  differs, new_hasher, upload_reads, check_download, download_report, sink_of, download_reads,
}

-- A response that carries the number and the checksum of the bytes of a reader.
pub record IsOf {W : Type 0} (os : Os W) (reads : Reads) (count : ℕ) (checksum : String)
    : Type 0 where
  pub counted : count ≡ length (bytes_of reads)
  pub hashed : checksum ≡ os.sha256 (bytes_of reads)

differs_refl : (s : String) → differs s s ≡ false
unfolding differs
differs_refl s = ground (arith, =t_refl s)

module _ {W : Type 0} (os : Os W) where
  -- A copy through a new hasher.
  IsOf-IsCopied :
      (writer : Writer W) (reads : Reads) (after : List ℕ) (m : ℕ)
      → IsCopied (multi writer) reads [] 0 after m
      → IsOf os reads m (os.sha256 after)
  unfolding hashed_by
  IsOf-IsCopied writer reads after m h = record {
    counted = omega (arith, h.counted);
    hashed = ap os.sha256 h.hashed;
  }

  Runs-new_hasher :
      {R : StorageError → Type 0} (o : List ℕ) → Runs {W = W} R o (λ o' _. o' ≡ []) new_hasher
  unfolding new_hasher
  Runs-new_hasher o = Runs-modify (λ hashed. [])

  -- A copy behind a new hasher, from whatever the old one was given.
  Runs-copy_anew :
      (writer : Writer W) (report : Option ℤ) (reads : Reads) (o : List ℕ)
      → o ≡ []
      → Runs IsFailure o
          (λ o' m. IsOf os reads m (os.sha256 o'))
          (copy (multi writer) report reads 0)
  Runs-copy_anew writer report reads o e =
      Runs-weaken
        (subst
          (λ x.
            Runs IsFailure o (IsCopied (multi writer) reads x 0)
              (copy (multi writer) report reads 0))
          e (Runs-copy (multi writer) report reads o 0))
        (IsOf-IsCopied writer reads)

  Runs-upload_reads :
      (req : UploadRequest) (dest : String) (total : ℤ) (reads : Reads) (o : List ℕ)
      → Runs
          (λ _. Unit)
          o
          (λ o' r. IsOf os reads r.bytes_transferred r.checksum)
          (upload_reads os req dest total reads)
  unfolding upload_reads
  Runs-upload_reads req dest total reads o = Runs-bind (Runs-new_hasher o) λ o₁ u e.
      Runs-bind (Runs-forget (Runs-copy_anew _ _ reads o₁ e)) λ o₂ count h.
        Runs-bind (Runs-on_error (Runs-query _) (λ o' e. Runs-stop _ tt)) λ o₃ synced e₃.
          Runs-bind Runs-the_object λ o₄ hashed e₄. Runs-bind (Runs-any _) λ o₅ checked u.
            Runs-pure _ (subst (λ x. IsOf os reads count (os.sha256 x)) (sym (e₄.1 ∙ e₃)) h)

  Runs-check_download :
      (expected : String) (o : List ℕ)
      → expected ≡ os.sha256 o
      → Runs IsFailure o (λ o' c. c ≡ os.sha256 o) (check_download os true expected)
  unfolding check_download
  Runs-check_download expected o e = Runs-bind Runs-the_object λ o' hashed h.
      Runs-if (differs expected (os.sha256 hashed)) _ _
        (λ d. ground (
          arith,
          sym d
              ∙ ap (λ x. differs x (os.sha256 hashed)) (e ∙ ap os.sha256 (sym h.1))
              ∙ differs_refl (os.sha256 hashed),
        ))
        (λ d. Runs-pure _ (ap os.sha256 h.1))

  Runs-sink_of :
      (writer : Writer W) (o : List ℕ)
      → Runs {W = W} IsFailure o
          (λ o' sink. (o' ≡ []) × (sink ≡ multi writer))
          (sink_of os true writer)
  unfolding sink_of
  Runs-sink_of writer o = Runs-bind (Runs-new_hasher o) λ o' u e. Runs-pure _ (e, refl)

  Runs-download_reads :
      (req : DownloadRequest W) (writer : Writer W) (total : ℤ) (reads : Reads) (checksum : String)
      (o : List ℕ)
      → checksum ≡ os.sha256 (bytes_of reads)
      → Runs IsFailure o
          (λ o' d. IsOf os reads d.bytes_transferred d.checksum)
          (download_reads os
            (record req { verify_checksum = true; expected_checksum = checksum })
            writer
            total
            reads)
  unfolding download_reads
  Runs-download_reads req writer total reads checksum o e =
      Runs-bind (Runs-sink_of writer o) λ o₁ sink s.
        Runs-bind
          (subst
            (λ x.
              Runs IsFailure o₁ (λ o' m. IsOf os reads m (os.sha256 o'))
                (copy x (download_report req.has_callback total) reads 0))
            (sym s.1) (Runs-copy_anew writer _ reads o₁ s.0))
          λ o₂ count h.
            Runs-bind (Runs-check_download checksum o₂ (e ∙ sym h.hashed))
              λ o₃ c ec. Runs-pure _ (record { counted = h.counted; hashed = ec ∙ h.hashed })

  uploaded :
      (reads : Reads) (r : Flow StorageError UploadResponse × State (List ℕ) Call W)
      (resp : UploadResponse)
      → r.0 ≡ next resp
      → Ends (λ _. Unit) (λ o r. IsOf os reads r.bytes_transferred r.checksum) r
      → IsOf os reads resp.bytes_transferred resp.checksum
  uploaded reads (r, s) resp e h =
      subst (λ x. Ends (λ _. Unit) (λ o r. IsOf os reads r.bytes_transferred r.checksum) (x, s)) e h

-- What a successful upload returns is the number of the bytes of its reader and their SHA-256, and it fits
-- every download of the same bytes: the download that verifies against the returned checksum never fails by a
-- mismatch, only by the error OperationFailed of its own copying, and
-- where it succeeds it returns the same checksum and the same number of bytes as the upload.
pub download_reads-upload_reads :
    {W : Type 0} (os : Os W) (up : UploadRequest) (dest : String) (size : ℤ) (reads : Reads)
    (s : State (List ℕ) Call W) (resp : UploadResponse)
    → (upload_reads os up dest size reads s).0 ≡ next resp
    → (req : DownloadRequest W) (writer : Writer W) (total : ℤ) (stored : Reads)
      (s' : State (List ℕ) Call W)
    → bytes_of stored ≡ bytes_of reads
    → IsOf os reads resp.bytes_transferred resp.checksum
      × Ends IsFailure
          (λ hashed d.
            (d.checksum ≡ resp.checksum) × (d.bytes_transferred ≡ resp.bytes_transferred))
          (download_reads os
            (record req { verify_checksum = true; expected_checksum = resp.checksum })
            writer
            total
            stored
            s')
download_reads-upload_reads os up dest size reads s resp e req writer total stored s' same =
    let of_upload =
      uploaded os reads _ resp e ((Runs-upload_reads os up dest size reads s.object).at s refl) in
    (
      of_upload,
      (Runs-weaken
            (Runs-download_reads os req writer total stored resp.checksum s'.object
              (of_upload.hashed ∙ ap os.sha256 (sym same)))
            λ o d h. (
              h.hashed ∙ ap os.sha256 same ∙ sym of_upload.hashed,
              h.counted ∙ ap length same ∙ sym of_upload.counted,
            )).at
          s' refl,
    )
