-- ===== src/Vm/CloudInit.antt =====
-- internal/controller/cloudinit.go: the user data and the metadata of a virtual machine, from the
-- text in its specification, from a secret, or from both.
pub mod Rules
use projectbeskar_virtrigaud.Common.{
  String, ◌<>◌, ◌=t◌, quote, join, if◌then◌else◌, Option, none, some, List, [], ◌∷◌, ◌++◌,
}
use projectbeskar_virtrigaud.Controller.{Fault, plain, wrap, ◌>>=◌, pure, stop, query, ◌on_error◌}
use projectbeskar_virtrigaud.Migration.Cluster.{annotation}
use projectbeskar_virtrigaud.Vm.Types.{CloudInit}
use projectbeskar_virtrigaud.Vm.Cluster.{Api, Run}

abbrev pub cloud_init_boundary : String
cloud_init_boundary = "VIRTRIGAUD_CLOUD_INIT_BOUNDARY"

abbrev pub user_data_keys : List String
user_data_keys = "userdata" ∷ "user-data" ∷ "cloud-init" ∷ "cloud-config" ∷ []

abbrev pub meta_data_keys : List String
meta_data_keys = "metadata" ∷ "meta-data" ∷ "meta_data" ∷ []

or_else : Option String → Option String → Option String
or_else (some v) o = some v
or_else none o = o

-- The value of the first accepted key that the secret has.
pub extract : List String → List (String × String) → Option String
unfolding or_else
extract [] entries = none
extract (k ∷ ks) entries = or_else (annotation k entries) (extract ks entries)

mime_parts : List String → String
mime_parts [] = ""
mime_parts (part ∷ parts) =
    "\n--"
    <> (cloud_init_boundary
        <> ("\nContent-Type: text/cloud-config; charset=\"utf-8\"\n\n"
            <> (part <> ("\n" <> mime_parts parts))))

pub merge_cloud_config_parts : List String → String
unfolding mime_parts
merge_cloud_config_parts parts =
    "Content-Type: multipart/mixed; boundary=\""
    <> (cloud_init_boundary
        <> ("\"\nMIME-Version: 1.0\n"
            <> (mime_parts parts <> ("\n--" <> (cloud_init_boundary <> "--\n")))))

inline_part : String → List String
inline_part s = if s =t "" then [] else s ∷ []

pub combine_user_data : List String → String
combine_user_data [] = ""
combine_user_data (part ∷ []) = part
combine_user_data (p ∷ q ∷ parts) = merge_cloud_config_parts (p ∷ q ∷ parts)

pub combine_meta_data : List String → String
combine_meta_data parts = join "\n" parts

-- The errors of the two extractions.
abbrev pub no_user_data_key : String → Fault
no_user_data_key secret = plain (
    "secret "
    <> (quote secret
        <> " contains no recognised cloud-init key; accepted keys: [userdata user-data cloud-init cloud-config]"))

abbrev pub no_meta_data_key : String → Fault
no_meta_data_key secret = plain (
    "secret "
    <> (quote secret
        <> " contains no recognised metadata key; accepted keys: [metadata meta-data meta_data]"))

module _ {W : Type 0} (api : Api W) where
  extracted : Fault → Option String → Run W Fault (List String)
  extracted missing none = stop missing
  extracted missing (some content) = pure (content ∷ [])

  -- The part that the secret gives: `what` names it in the error of a failed fetch.
  secret_part :
      String → List String → (String → Fault) → String → Option String → Run W Fault (List String)
  unfolding extracted
  secret_part what keys missing namespace none = pure []
  secret_part what keys missing namespace (some name) = do
    entries ← query (api.get_secret namespace name) on_error λ e.
        stop (wrap ("fetching " <> (what <> (" secret " <> (quote name <> ": ")))) e)
    extracted (missing name) (extract keys entries)

  pub resolve_cloud_init_user_data : String → CloudInit → Run W Fault String
  unfolding secret_part inline_part
  resolve_cloud_init_user_data namespace ci = do
    part ← secret_part "cloud-init" user_data_keys no_user_data_key namespace ci.secret_ref
    pure (combine_user_data (inline_part ci.inline ++ part))

  pub resolve_cloud_init_meta_data : String → CloudInit → Run W Fault String
  unfolding secret_part inline_part
  resolve_cloud_init_meta_data namespace meta = do
    part ← secret_part "metadata" meta_data_keys no_meta_data_key namespace meta.secret_ref
    pure (combine_meta_data (inline_part meta.inline ++ part))
