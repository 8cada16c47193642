-- ===== src/Tests/Address.antt =====
-- The server of a user id.
use Prim.Native.String.{len}
use libcmatrix.Base.{String, Option, false, none, some, if◌then◌else◌}
use libcmatrix.Base.Text.{str_eq}
use libcmatrix.Address.{AddressEnv, Uri}

abbrev parse_sample : String → Option Uri
parse_sample s =
    if str_eq s "https://example.org"
    then some (record { scheme = some "https"; host = some "example.org"; path = some "" })
    else none

abbrev sample_env : AddressEnv
sample_env = record {
  uri_parse = parse_sample;
  is_user_id = λ s. str_eq s "@a:example.org";
  contains = λ s t. str_eq s "https://example.org";
  has_suffix = λ s t. false;
  after_colon = λ s. "example.org";
  strlen = len;
}
