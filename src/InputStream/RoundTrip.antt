-- ===== src/InputStream/RoundTrip.antt =====
-- A file that is encrypted while it is sent, and read by who gets its keys (src/cm-input-stream.c).
use mathlib.Core.Path.{subst}
use libcmatrix.Base.{
  ℕ, ◌≡◌, refl, sym, ap, ◌∙◌, String, Bool, true, false, Option, none, some, List, [], ◌∷◌, ◌++◌,
}
use libcmatrix.Event.{is_some}
use libcmatrix.InputStream.{
  Gcrypt, Base64Codec, CmInputStream, CmEncFileInfo, stream_new, value_to_unpadded_base64,
  set_counter, set_file_key, open_file, set_file, set_file_enc, set_new_key, open_new, set_encrypt,
  sha256_of, get_sha256,
}
use libcmatrix.InputStream.Base64.{IsBase64, parse-value_to_unpadded_base64}
use libcmatrix.InputStream.Chunks.{
  Chunk, concat, IsCtr, read_all, IsRead, IsRead-file_encrypted, IsRead-file_decrypted,
}

abbrev or_empty : Option (List ℕ) → List ℕ
or_empty none = []
or_empty (some text) = text

-- the random half of a counter and its zeros
abbrev counter : List ℕ → List ℕ
counter random = random ++ (0 ∷ 0 ∷ 0 ∷ 0 ∷ 0 ∷ 0 ∷ 0 ∷ 0 ∷ [])

module _ {H : Type 0} where
  -- the keys of a stream that was made ready to send, with the address of what was sent
  abbrev pub file_of : String → CmInputStream H → CmEncFileInfo
  file_of uri self = record {
    mxc_uri = some uri;
    aes_key_base64 = self.aes_key_base64;
    aes_iv_base64 = or_empty self.aes_iv_base64;
  }

  -- a handle that has its key and its counter
  abbrev pub IsKeyed : Gcrypt H → List ℕ → List ℕ → H → Type 0
  IsKeyed lib key iv h =
      (h0 : H) × (h1 : H) × (lib.cipher_open ≡ some h0)
      × (lib.setkey h0 key ≡ some h1)
      × (lib.setctr h1 iv ≡ some h)

  abbrev ready : Bool → H → Option (List ℕ) → Option (List ℕ) → CmInputStream H
  ready encrypt h key iv = record (stream_new encrypt) {
    cipher_hd = some h;
    aes_key_base64 = key;
    aes_iv_base64 = iv;
  }

  module _ (lib : Gcrypt H) (b : Base64Codec) (key random : List ℕ) (h : H) where
    abbrev key_text : List ℕ
    key_text = value_to_unpadded_base64 b key true

    abbrev iv_text : List ℕ
    iv_text = value_to_unpadded_base64 b (counter random) false

    sent_ready :
        IsKeyed lib key (counter random) h
        → set_encrypt lib b (stream_new true) key random
          ≡ ready true h (some key_text) (some iv_text)
    unfolding set_encrypt open_new set_new_key set_counter is_some
    sent_ready (h0, h1, opened, keyed, counted) =
        let self : CmInputStream H = record (stream_new true) { aes_key_base64 = some key_text } in
        ap (open_new lib b (stream_new true) key (counter random)) opened
        ∙ ap (set_new_key lib b self h0 (counter random)) keyed
        ∙ ap (set_counter lib b (record self { aes_iv_base64 = some iv_text }) h1) counted

    got_ready :
        (uri : String)
        → IsBase64 b
        → IsKeyed lib key (counter random) h
        → set_file_enc lib b
            (stream_new false)
            (file_of uri (ready true h (some key_text) (some iv_text)))
          ≡ ready false h none none
    unfolding set_file_enc set_file open_file set_file_key set_counter is_some
    got_ready uri laws (h0, h1, opened, keyed, counted) =
        let key_back = (parse-value_to_unpadded_base64 b key laws).1 in
        let iv_back = (parse-value_to_unpadded_base64 b (counter random) laws).0 in
        ap (open_file lib b (stream_new false) key_text iv_text) opened
        ∙ ap (set_file_key lib b (stream_new false) h0 iv_text)
            (ap (lib.setkey h0) key_back ∙ keyed)
        ∙ ap (set_counter lib b (stream_new false) h1) (ap (lib.setctr h1) iv_back ∙ counted)

  sha256_read :
      (lib : Gcrypt H) (b : Base64Codec) (cs : List Chunk) (self : CmInputStream H)
      (out sum : List ℕ)
      → IsRead lib cs self out (some sum)
      → get_sha256 lib b (read_all lib cs self).1
        ≡ some (value_to_unpadded_base64 b (lib.sha256 sum) false)
  unfolding get_sha256 sha256_of
  sha256_read lib b cs self out sum (all, same, whole) =
      let end = (read_all lib cs self).1 in
      ap (λ (s : Option (List ℕ)). sha256_of lib b s end.checksum_complete) same
      ∙ ap (sha256_of lib b (some sum)) whole

  -- A file with some bytes is read in any pieces through a stream that encrypts it, where libgcrypt
  -- takes the key and the counter and encrypts the bytes. What comes out is the file encrypted. Who reads
  -- that in any pieces, with the texts of the key and the counter of the first stream, gets the
  -- file, and both streams have the checksum of the encrypted bytes.
  pub read_all-sent :
      (lib : Gcrypt H) (b : Base64Codec) (uri : String) (key random : List ℕ) (h h2 : H) (x : Chunk)
      (cs : List Chunk) (y : Chunk) (ds : List Chunk)
      → IsCtr lib
      → IsBase64 b
      → IsKeyed lib key (counter random) h
      → lib.cipher_encrypt h (concat (x ∷ cs)) ≡ some (concat (y ∷ ds), h2)
      → let up = set_encrypt lib b (stream_new true) key random in
        let down = set_file_enc lib b (stream_new false) (file_of uri up) in
        let (sent, sender) = read_all lib (x ∷ cs) up in
        let (got, receiver) = read_all lib (y ∷ ds) down in
        (sent ≡ some (concat (y ∷ ds)))
        × (got ≡ some (concat (x ∷ cs)))
        × (get_sha256 lib b sender
            ≡ some (value_to_unpadded_base64 b (lib.sha256 (concat (y ∷ ds))) false))
        × (get_sha256 lib b receiver ≡ get_sha256 lib b sender)
  read_all-sent lib b uri key random h h2 x cs y ds ctr laws keyed run =
      let up_path = sent_ready lib b key random h keyed in
      let down_path =
        ap (λ (s : CmInputStream H). set_file_enc lib b (stream_new false) (file_of uri s)) up_path
        ∙ got_ready lib b key random h uri laws keyed in
      let sent =
        subst
          (λ (s : CmInputStream H).
            IsRead lib (x ∷ cs) s (concat (y ∷ ds)) (some (concat (y ∷ ds))))
          (sym up_path)
          (IsRead-file_encrypted lib ctr x cs h h2 (concat (y ∷ ds)) _ (refl, refl, refl, refl)
            run) in
      let got =
        subst
          (λ (s : CmInputStream H).
            IsRead lib (y ∷ ds) s (concat (x ∷ cs)) (some (concat (y ∷ ds))))
          (sym down_path)
          (IsRead-file_decrypted lib ctr y ds h h2 (concat (x ∷ cs)) _ (refl, refl, refl, refl)
            (ctr.decrypt-encrypt h h2 (concat (x ∷ cs)) (concat (y ∷ ds)) run)) in
      let sum = sha256_read lib b (x ∷ cs) _ (concat (y ∷ ds)) (concat (y ∷ ds)) sent in
      (
        sent.0,
        got.0,
        sum,
        sha256_read lib b (y ∷ ds) _ (concat (x ∷ cs)) (concat (y ∷ ds)) got ∙ sym sum,
      )
