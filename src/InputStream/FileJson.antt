-- ===== src/InputStream/FileJson.antt =====
-- What is sent of an encrypted file (cm_input_stream_get_file_json of src/cm-input-stream.c), and how it
-- is read (cm_enc_get_json_file_enc_info of src/cm-enc.c).
use Prim.Native.Char.{code}
use libcmatrix.Base.{
  ℕ, String, ◌≡◌, ap, ◌∙◌, Bool, true, false, not, ◌||◌, ◌&&◌, ◌==◌, Option, none, some, List,
  if◌then◌else◌,
}
use libcmatrix.Event.{is_some}
use libcmatrix.Json.{
  JsonNode, null, boolean, string, array, object, nil, element, JsonObject, end, get_member,
  set_member,
}
use libcmatrix.Json.Glib.{JsonGlib}
use libcmatrix.Json.Access.{
  find_member, holds_value, object_get_string, object_get_bool, object_get_object,
}
use libcmatrix.InputStream.{Gcrypt, Base64Codec, CmInputStream, get_sha256}

-- g_str_has_prefix
unfoldable pub has_prefix : String → String → Bool
has_prefix s String.[] = true
has_prefix String.[] (String.◌∷◌ d prefix) = false
has_prefix (String.◌∷◌ c s) (String.◌∷◌ d prefix) =
    let rest = has_prefix s prefix in if code c == code d then rest else false

unfoldable pub string_node : Option String → JsonNode
string_node none = null
string_node (some text) = string text

-- json_object_set_string_member, which sets a null for a NULL
unfoldable pub set_string : JsonObject → String → Option String → JsonObject
unfolding string_node
set_string o name text = set_member o name (string_node text)

-- `text` is the C text of a run of bytes.
module _ (text : List ℕ → String) where
  unfoldable pub text_of : Option (List ℕ) → Option String
  text_of none = none
  text_of (some bytes) = some (text bytes)

  unfoldable pub file_json :
      String → Option (List ℕ) → Option (List ℕ) → Option (List ℕ) → JsonObject
  unfolding set_string set_member text_of
  file_json url iv sha256 key =
      let head =
        set_string (set_string (set_string end "v" (some "v2")) "url" (some url)) "iv"
          (text_of iv) in
      let hashes = set_string end "sha256" (text_of sha256) in
      let ops = element (string "encrypt") (element (string "decrypt") nil) in
      let kind = set_string (set_member end "key_ops" (array ops)) "alg" (some "A256CTR") in
      let keyed = set_string (set_string kind "kty" (some "oct")) "k" (text_of key) in
      set_member (set_member head "hashes" (object hashes)) "key"
        (object (set_member keyed "ext" (boolean true)))

  unfoldable pub json_of_uri :
      Option String → Option (List ℕ) → Option (List ℕ) → Option (List ℕ) → Option JsonObject
  unfolding file_json
  json_of_uri none iv sha256 key = none
  json_of_uri (some url) iv sha256 key = some (file_json url iv sha256 key)

  -- cm_input_stream_get_file_json; `uri` is the data that is attached to the stream
  unfoldable pub get_file_json :
      {H : Type 0} → Gcrypt H → Base64Codec → Option String → CmInputStream H → Option JsonObject
  unfolding json_of_uri is_some
  get_file_json lib b uri self =
      if not self.encrypt || (not self.checksum_complete || not (is_some self.cipher_hd))
      then none
      else json_of_uri uri self.aes_iv_base64 (get_sha256 lib b self) self.aes_key_base64

-- CmEncFileInfo with the members that are read from JSON
pub record JsonFileInfo : Type 0 where
  pub mxc_uri : Option String
  pub version : Option String
  pub aes_iv_base64 : Option String
  pub sha256_base64 : Option String
  pub algorithm : Option String
  pub extractable : Bool
  pub kty : Option String
  pub aes_key_base64 : Option String

module _ (g : JsonGlib) where
  unfoldable pub info_of : JsonObject → JsonFileInfo
  info_of root =
      let hashes = object_get_object (some root) (some "hashes") in
      let key = object_get_object (some root) (some "key") in
      record {
        mxc_uri = object_get_string g (some root) (some "url");
        version = object_get_string g (some root) (some "v");
        aes_iv_base64 = object_get_string g (some root) (some "iv");
        sha256_base64 = object_get_string g hashes (some "sha256");
        algorithm = object_get_string g key (some "alg");
        extractable = object_get_bool g key (some "ext");
        kty = object_get_string g key (some "kty");
        aes_key_base64 = object_get_string g key (some "k");
      }

  unfoldable pub is_mxc : Option String → Bool
  unfolding has_prefix
  is_mxc none = false
  is_mxc (some uri) = has_prefix uri "mxc://"

  -- cm_enc_get_json_file_enc_info
  unfoldable pub get_json_file_enc_info : Option JsonObject → Option JsonFileInfo
  unfolding info_of is_mxc is_some
  get_json_file_enc_info none = none
  get_json_file_enc_info (some root) =
      let file = info_of root in
      if is_mxc file.mxc_uri && is_some file.aes_key_base64 then some file else none

  -- what a file is sent with
  abbrev pub sent_info : String → Option String → Option String → Option String → JsonFileInfo
  sent_info url iv sha256 key = record {
    mxc_uri = some url;
    version = some "v2";
    aes_iv_base64 = iv;
    sha256_base64 = sha256;
    algorithm = some "A256CTR";
    extractable = true;
    kty = some "oct";
    aes_key_base64 = key;
  }

  module _ (text : List ℕ → String) where
    info_of-file_json :
        (url : String) (iv sha256 key : List ℕ)
        → info_of (file_json text url (some iv) (some sha256) (some key))
          ≡ sent_info url (some (text iv)) (some (text sha256)) (some (text key))
    unfolding info_of file_json set_string set_member text_of object_get_string object_get_bool
        object_get_object find_member get_member holds_value
    info_of-file_json url iv sha256 key i = record {
      mxc_uri = g.get_string-string url i;
      version = g.get_string-string "v2" i;
      aes_iv_base64 = g.get_string-string (text iv) i;
      sha256_base64 = g.get_string-string (text sha256) i;
      algorithm = g.get_string-string "A256CTR" i;
      extractable = g.get_boolean-boolean true i;
      kty = g.get_string-string "oct" i;
      aes_key_base64 = g.get_string-string (text key) i;
    }

    json_of_stream :
        {H : Type 0} (lib : Gcrypt H) (b : Base64Codec) (uri : String) (self : CmInputStream H)
        (iv sha256 key : List ℕ)
        → self.encrypt ≡ true
        → self.checksum_complete ≡ true
        → is_some self.cipher_hd ≡ true
        → self.aes_iv_base64 ≡ some iv
        → get_sha256 lib b self ≡ some sha256
        → self.aes_key_base64 ≡ some key
        → get_file_json text lib b (some uri) self
          ≡ some (file_json text uri (some iv) (some sha256) (some key))
    unfolding get_file_json json_of_uri
    json_of_stream lib b uri self iv sha256 key mode whole opened iv_set summed key_set =
        let made =
          json_of_uri text (some uri) self.aes_iv_base64 (get_sha256 lib b self)
            self.aes_key_base64 in
        ap
          (λ (e : Bool).
            if not e || (not self.checksum_complete || not (is_some self.cipher_hd))
            then none
            else made)
          mode
        ∙ ap (λ (c : Bool). if not c || not (is_some self.cipher_hd) then none else made) whole
        ∙ ap (λ (h : Bool). if not h then none else made) opened
        ∙ ap
            (λ (t : Option (List ℕ)).
              some (file_json text uri t (get_sha256 lib b self) self.aes_key_base64))
            iv_set
        ∙ ap (λ (t : Option (List ℕ)). some (file_json text uri (some iv) t self.aes_key_base64))
            summed
        ∙ ap (λ (t : Option (List ℕ)). some (file_json text uri (some iv) (some sha256) t)) key_set

    -- What is sent of an encrypted file is read back: for a stream that encrypts, was read to its end and has
    -- its key, its counter and its checksum, and a URI of the scheme mxc, reading the JSON of
    -- the file gives the URI and the three texts.
    pub get_json_file_enc_info-get_file_json :
        {H : Type 0} (lib : Gcrypt H) (b : Base64Codec) (uri : String) (self : CmInputStream H)
        (iv sha256 key : List ℕ)
        → has_prefix uri "mxc://" ≡ true
        → self.encrypt ≡ true
        → self.checksum_complete ≡ true
        → is_some self.cipher_hd ≡ true
        → self.aes_iv_base64 ≡ some iv
        → get_sha256 lib b self ≡ some sha256
        → self.aes_key_base64 ≡ some key
        → get_json_file_enc_info (get_file_json text lib b (some uri) self)
          ≡ some (sent_info uri (some (text iv)) (some (text sha256)) (some (text key)))
    unfolding get_json_file_enc_info is_mxc is_some
    get_json_file_enc_info-get_file_json lib b uri self iv sha256 key mxc mode whole opened iv_set
          summed key_set =
        let info = sent_info uri (some (text iv)) (some (text sha256)) (some (text key)) in
        ap get_json_file_enc_info
          (json_of_stream lib b uri self iv sha256 key mode whole opened iv_set summed key_set)
        ∙ ap
            (λ (file : JsonFileInfo).
              if is_mxc file.mxc_uri && is_some file.aes_key_base64 then some file else none)
            (info_of-file_json uri iv sha256 key)
        ∙ ap (λ (p : Bool). if p && true then some info else none) mxc
