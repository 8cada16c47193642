-- ===== src/InputStream.antt =====
-- A stream that encrypts or decrypts the file that is read through it: src/cm-input-stream.c.
pub mod Base64
pub mod Chunks
pub mod RoundTrip
pub mod FileJson
use libcmatrix.Base.{
  ℕ, zero, suc, length, ◌==◌, ◌%◌, ◌-◌, String, Bool, true, false, not, ◌||◌, Option, none, some,
  List, [], ◌∷◌, ◌++◌, if◌then◌else◌,
}
use libcmatrix.Event.{is_some}

-- Cipher handles of libgcrypt in the CTR mode of AES-256, where an error is `none`: a key is set, a
-- counter is set, and a call returns the bytes and the handle that it leaves. The rest is GLib's:
-- the digest of SHA-256.
pub record Gcrypt (H : Type 0) : Type 0 where
  pub cipher_open : Option H
  pub setkey : H → List ℕ → Option H
  pub setctr : H → List ℕ → Option H
  pub cipher_encrypt : H → List ℕ → Option (List ℕ × H)
  pub cipher_decrypt : H → List ℕ → Option (List ℕ × H)
  pub sha256 : List ℕ → List ℕ

-- g_base64_encode and g_base64_decode; texts are lists of bytes
pub record Base64Codec : Type 0 where
  pub encode : List ℕ → List ℕ
  pub decode : List ℕ → List ℕ

-- `g_strdelimit (text, "=", '\0')`: the text ends before the first "="
unfoldable pub cut_padding : List ℕ → List ℕ
cut_padding [] = []
cut_padding (c ∷ cs) = let rest = cut_padding cs in if c == 61 then [] else c ∷ rest

-- g_strdelimit of one character by another
unfoldable pub delimit : ℕ → ℕ → List ℕ → List ℕ
delimit old new [] = []
delimit old new (c ∷ cs) = (if c == old then new else c) ∷ delimit old new cs

unfoldable pub padding : ℕ → List ℕ
padding zero = []
padding (suc n) = 61 ∷ padding n

-- "/" is 47, "_" 95, "+" 43 and "-" 45
unfoldable pub value_to_unpadded_base64 : Base64Codec → List ℕ → Bool → List ℕ
unfolding cut_padding delimit
value_to_unpadded_base64 b bytes url_safe =
    let text = cut_padding (b.encode bytes) in
    if url_safe then delimit 43 45 (delimit 47 95 text) else text

-- `padded_len - len`
unfoldable pub padding_of : ℕ → ℕ
padding_of len = if len % 4 == 0 then 0 else 4 - len % 4

unfoldable pub parse_base64_value : Base64Codec → List ℕ → List ℕ
unfolding padding padding_of
parse_base64_value b text = b.decode (text ++ padding (padding_of (length text)))

-- a key, which is in the alphabet that is safe in URLs
unfoldable pub parse_key : Base64Codec → List ℕ → List ℕ
unfolding parse_base64_value delimit
parse_key b text = parse_base64_value b (delimit 45 43 (delimit 95 47 text))

-- g_checksum_update of a checksum that is made when it is missing
unfoldable pub summed : Option (List ℕ) → List ℕ → Option (List ℕ)
summed none bytes = some bytes
summed (some sum) bytes = some (sum ++ bytes)

-- `checksum` holds the bytes that g_checksum_update was given, and `gcr_error` tells of an error.
pub record CmInputStream (H : Type 0) : Type 0 where
  pub cipher_hd : Option H
  pub aes_key_base64 : Option (List ℕ)
  pub aes_iv_base64 : Option (List ℕ)
  pub checksum : Option (List ℕ)
  pub checksum_complete : Bool
  pub encrypt : Bool
  pub gcr_error : Bool

-- the fields of CmEncFileInfo that are read here, of a file that has its counter
pub record CmEncFileInfo : Type 0 where
  pub mxc_uri : Option String
  pub aes_key_base64 : Option (List ℕ)
  pub aes_iv_base64 : List ℕ

module _ {H : Type 0} where
  abbrev pub stream_new : Bool → CmInputStream H
  stream_new encrypt = record {
    cipher_hd = none;
    aes_key_base64 = none;
    aes_iv_base64 = none;
    checksum = none;
    checksum_complete = false;
    encrypt = encrypt;
    gcr_error = false;
  }

  -- after libgcrypt: what was read is replaced, or the error is kept
  unfoldable pub replace_buffer :
      CmInputStream H → Option (List ℕ × H) → Option (List ℕ) × CmInputStream H
  replace_buffer self none = (none, record self { gcr_error = true })
  replace_buffer self (some (out, h)) = (some out, record self { cipher_hd = some h })

  -- the checksum of what was encrypted
  unfoldable pub sum_encrypted : Option (List ℕ × H) → Option (List ℕ) → Option (List ℕ)
  unfolding summed
  sum_encrypted none sum = summed sum []
  sum_encrypted (some (out, h)) sum = summed sum out

  module _ (lib : Gcrypt H) where
    -- what cm_input_stream_read_fn does with bytes that were read
    unfoldable pub read_bytes :
        CmInputStream H → List ℕ → Option H → Option (List ℕ) × CmInputStream H
    unfolding replace_buffer sum_encrypted
    read_bytes self bytes none = (some bytes, self)
    read_bytes self bytes (some h) =
        let result = lib.cipher_encrypt h bytes in
        if self.encrypt
        then replace_buffer (record self { checksum = sum_encrypted result self.checksum }) result
        else replace_buffer (record self { checksum = summed self.checksum bytes })
            (lib.cipher_decrypt h bytes)

    -- by what the parent's read_fn returned: -1, 0 at the end of the file, or bytes
    unfoldable pub read_result :
        CmInputStream H → Option (List ℕ) → Option (List ℕ) × CmInputStream H
    unfolding read_bytes is_some
    read_result self none = (none, self)
    read_result self (some []) =
        (some [], if is_some self.cipher_hd then record self { checksum_complete = true } else self)
    read_result self (some (byte ∷ bytes)) = read_bytes self (byte ∷ bytes) self.cipher_hd

    -- cm_input_stream_read_fn; -1 is `none`
    unfoldable pub read_fn : CmInputStream H → Option (List ℕ) → Option (List ℕ) × CmInputStream H
    unfolding read_result
    read_fn self read = if self.gcr_error then (none, self) else read_result self read

  module _ (lib : Gcrypt H) (b : Base64Codec) where
    unfoldable pub sha256_of : Option (List ℕ) → Bool → Option (List ℕ)
    unfolding value_to_unpadded_base64
    sha256_of none complete = none
    sha256_of (some sum) false = none
    sha256_of (some sum) true = some (value_to_unpadded_base64 b (lib.sha256 sum) false)

    -- cm_input_stream_get_sha256
    unfoldable pub get_sha256 : CmInputStream H → Option (List ℕ)
    unfolding sha256_of
    get_sha256 self = sha256_of self.checksum self.checksum_complete

    -- gcry_cipher_setctr of the handle with its key
    unfoldable pub set_counter : CmInputStream H → H → Option H → CmInputStream H
    set_counter self keyed none = record self { cipher_hd = some keyed; gcr_error = true }
    set_counter self keyed (some h) = record self { cipher_hd = some h }

    -- from gcry_cipher_setkey on, for a file that was sent
    unfoldable pub set_file_key : CmInputStream H → H → List ℕ → Option H → CmInputStream H
    unfolding set_counter parse_base64_value
    set_file_key self opened iv none = record self { cipher_hd = some opened; gcr_error = true }
    set_file_key self opened iv (some keyed) =
        set_counter self keyed (lib.setctr keyed (parse_base64_value b iv))

    unfoldable pub open_file : CmInputStream H → List ℕ → List ℕ → Option H → CmInputStream H
    unfolding set_file_key parse_key
    open_file self key iv none = record self { gcr_error = true }
    open_file self key iv (some opened) =
        set_file_key self opened iv (lib.setkey opened (parse_key b key))

    unfoldable pub set_file : CmInputStream H → CmEncFileInfo → Option (List ℕ) → CmInputStream H
    unfolding open_file is_some
    set_file self file none = self
    set_file self file (some key) =
        if not (is_some file.mxc_uri) || is_some self.cipher_hd
        then self
        else open_file self key file.aes_iv_base64 lib.cipher_open

    -- cm_input_stream_set_file_enc
    unfoldable pub set_file_enc : CmInputStream H → CmEncFileInfo → CmInputStream H
    unfolding set_file
    set_file_enc self file = set_file self file file.aes_key_base64

    -- from gcry_cipher_setkey on, for a file to send
    unfoldable pub set_new_key : CmInputStream H → H → List ℕ → Option H → CmInputStream H
    unfolding set_counter value_to_unpadded_base64
    set_new_key self opened iv none = record self { cipher_hd = some opened; gcr_error = true }
    set_new_key self opened iv (some keyed) =
        set_counter (record self { aes_iv_base64 = some (value_to_unpadded_base64 b iv false) })
          keyed (lib.setctr keyed iv)

    unfoldable pub open_new : CmInputStream H → List ℕ → List ℕ → Option H → CmInputStream H
    unfolding set_new_key value_to_unpadded_base64
    open_new self key iv none = record self { gcr_error = true }
    open_new self key iv (some opened) =
        set_new_key (record self { aes_key_base64 = some (value_to_unpadded_base64 b key true) })
          opened iv (lib.setkey opened key)

    -- cm_input_stream_set_encrypt with the random key and the random half of the counter
    unfoldable pub set_encrypt : CmInputStream H → List ℕ → List ℕ → CmInputStream H
    unfolding open_new is_some
    set_encrypt self key random =
        if is_some self.cipher_hd
        then self
        else open_new self key (random ++ (0 ∷ 0 ∷ 0 ∷ 0 ∷ 0 ∷ 0 ∷ 0 ∷ 0 ∷ [])) lib.cipher_open
