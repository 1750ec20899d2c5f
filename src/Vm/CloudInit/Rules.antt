-- ===== src/Vm/CloudInit/Rules.antt =====
-- internal/controller/cloudinit.go: its code only reads, and what it returns is the text of the specification
-- with that of the secret.
use projectbeskar_virtrigaud.Common.{String, Option, none, some, List, [], ◌∷◌, ◌++◌, ◌≡◌, refl}
use projectbeskar_virtrigaud.Controller.{Fault}
use projectbeskar_virtrigaud.Controller.Yields.{
  Answered, Yields, Yields-pure, Yields-stop, Yields-query, Yields-on_error, Yields-bind,
}
use projectbeskar_virtrigaud.Vm.Cluster.{Api, Call}
use projectbeskar_virtrigaud.Vm.Types.{VirtualMachine, CloudInit}
use projectbeskar_virtrigaud.Vm.CloudInit.{
  user_data_keys, meta_data_keys, extract, inline_part, combine_user_data, combine_meta_data,
  extracted, secret_part, resolve_cloud_init_user_data, resolve_cloud_init_meta_data,
}

module _ {W : Type 0} (api : Api W) (namespace : String) where
  -- The part of a secret: nothing without a reference, and otherwise the value of the first of the keys in
  -- what the API server answered for it.
  unfoldable IsSecretPart : List String → Option String → List String → Type 0
  IsSecretPart keys none part = part ≡ []
  IsSecretPart keys (some name) part =
      (entries : List (String × String)) × Answered (api.get_secret namespace name) entries
      × (content : String) × (extract keys entries ≡ some content)
      × (part ≡ content ∷ [])

  -- The text in the specification, if any, with the part of its secret.
  pub IsUserDataAt : CloudInit → String → Type 0
  IsUserDataAt ci text =
      (part : List String) × IsSecretPart user_data_keys ci.secret_ref part
      × (text ≡ combine_user_data (inline_part ci.inline ++ part))

  pub IsMetaDataAt : CloudInit → String → Type 0
  IsMetaDataAt ci text =
      (part : List String) × IsSecretPart meta_data_keys ci.secret_ref part
      × (text ≡ combine_meta_data (inline_part ci.inline ++ part))

module _ {J : VirtualMachine → List Call → Type 0} {W : Type 0} (api : Api W) where
  Yields-extracted :
      {P : List String → Type 0} (e : Fault) (o : Option String)
      → ((content : String) → o ≡ some content → P (content ∷ []))
      → Yields J P (extracted api e o)
  unfolding extracted
  Yields-extracted e none k = Yields-stop e
  Yields-extracted e (some content) k = Yields-pure _ (k content refl)

  Yields-secret_part :
      (what : String) (keys : List String) (missing : String → Fault) (namespace : String)
      (o : Option String)
      → Yields J (IsSecretPart api namespace keys o) (secret_part api what keys missing namespace o)
  unfolding secret_part IsSecretPart
  Yields-secret_part what keys missing namespace none = Yields-pure _ refl
  Yields-secret_part what keys missing namespace (some name) =
      Yields-bind (Yields-on_error (Yields-query _) (λ e. Yields-stop _))
        λ entries a. Yields-extracted _ _ λ content e. (entries, a, content, e, refl)

  pub Yields-user_data :
      (namespace : String) (ci : CloudInit)
      → Yields J (IsUserDataAt api namespace ci) (resolve_cloud_init_user_data api namespace ci)
  unfolding resolve_cloud_init_user_data IsUserDataAt
  Yields-user_data namespace ci =
      Yields-bind (Yields-secret_part _ _ _ _ _) λ part p. Yields-pure _ (part, p, refl)

  pub Yields-meta_data :
      (namespace : String) (ci : CloudInit)
      → Yields J (IsMetaDataAt api namespace ci) (resolve_cloud_init_meta_data api namespace ci)
  unfolding resolve_cloud_init_meta_data IsMetaDataAt
  Yields-meta_data namespace ci =
      Yields-bind (Yields-secret_part _ _ _ _ _) λ part p. Yields-pure _ (part, p, refl)
