-- ===== src/Tests/Streams.antt =====
-- A cipher that adds its key to each byte, and a base64 of four equal characters for a byte.
use mathlib.Core.Option.{some-injective}
use libcmatrix.Base.{
  ℕ, String, ◌≡◌, ◌+◌, ◌-◌, ◌%◌, ==_iff, refl, sym, ap, ◌∙◌, true, false, Option, some, List, [],
  ◌∷◌, ◌++◌, All, length, arith,
}
use libcmatrix.Event.{is_some}
use libcmatrix.Json.Sample.{sample}
use libcmatrix.InputStream.FileJson.{
  has_prefix, get_file_json, get_json_file_enc_info, sent_info,
  get_json_file_enc_info-get_file_json,
}
use libcmatrix.InputStream.{
  Gcrypt, Base64Codec, CmInputStream, stream_new, value_to_unpadded_base64, padding, set_encrypt,
  set_file_enc, get_sha256, sha256_of,
}
use libcmatrix.InputStream.Base64.{IsPlain, IsBase64}
use libcmatrix.InputStream.Chunks.{IsCtr, read_all}
use libcmatrix.InputStream.RoundTrip.{file_of, IsKeyed, read_all-sent}

unfoldable codes : List ℕ → List ℕ
codes [] = []
codes (n ∷ ns) = (100 + n) ∷ (100 + n) ∷ (100 + n) ∷ (100 + n) ∷ codes ns

unfoldable decodes : List ℕ → List ℕ
decodes (a ∷ b ∷ c ∷ d ∷ rest) = (a - 100) ∷ decodes rest
decodes (a ∷ b ∷ c ∷ []) = []
decodes (a ∷ b ∷ []) = []
decodes (a ∷ []) = []
decodes [] = []

abbrev fourfold : Base64Codec
fourfold = record { encode = codes; decode = decodes }

IsPlain-code : (n : ℕ) → IsPlain (100 + n)
IsPlain-code n = (
  ground (arith, ==_iff (100 + n) 61),
  ground (arith, ==_iff (100 + n) 45),
  ground (arith, ==_iff (100 + n) 95),
)

codes-IsPlain : (ns : List ℕ) → All IsPlain (codes ns)
unfolding codes
codes-IsPlain [] = tt
codes-IsPlain (n ∷ ns) =
    let plain = IsPlain-code n in (plain, (plain, (plain, (plain, codes-IsPlain ns))))

length-codes : (ns : List ℕ) → (length (codes ns) + 0) % 4 ≡ 0
unfolding codes
length-codes [] = refl
length-codes (n ∷ ns) = let rest : (length (codes ns) + 0) % 4 ≡ 0 = length-codes ns in omega arith

append_nothing : (ns : List ℕ) → ns ≡ ns ++ padding 0
unfolding padding
append_nothing [] = refl
append_nothing (n ∷ ns) = ap (λ (r : List ℕ). n ∷ r) (append_nothing ns)

decodes-codes : (ns : List ℕ) → decodes (codes ns) ≡ ns
unfolding codes decodes
decodes-codes [] = refl
decodes-codes (n ∷ ns) =
    ap (λ (r : List ℕ). (100 + n - 100) ∷ r) (decodes-codes ns)
    ∙ ap (λ (k : ℕ). k ∷ ns) (omega arith)

fourfold-IsBase64 : IsBase64 fourfold
fourfold-IsBase64 = record {
  shape = λ ns.
      (codes ns, 0, append_nothing (codes ns), codes-IsPlain ns, omega arith, length-codes ns);
  decode-encode = decodes-codes;
}

added : ℕ → List ℕ → List ℕ
added key [] = []
added key (byte ∷ bytes) = (byte + key) ∷ added key bytes

taken : ℕ → List ℕ → List ℕ
taken key [] = []
taken key (byte ∷ bytes) = (byte - key) ∷ taken key bytes

added-append : (key : ℕ) (p q : List ℕ) → added key (p ++ q) ≡ added key p ++ added key q
unfolding added
added-append key [] q = refl
added-append key (byte ∷ p) q = ap (λ (r : List ℕ). (byte + key) ∷ r) (added-append key p q)

taken-append : (key : ℕ) (p q : List ℕ) → taken key (p ++ q) ≡ taken key p ++ taken key q
unfolding taken
taken-append key [] q = refl
taken-append key (byte ∷ p) q = ap (λ (r : List ℕ). (byte - key) ∷ r) (taken-append key p q)

taken-added : (key : ℕ) (p : List ℕ) → taken key (added key p) ≡ p
unfolding added taken
taken-added key [] = refl
taken-added key (byte ∷ p) =
    ap (λ (r : List ℕ). (byte + key - key) ∷ r) (taken-added key p)
    ∙ ap (λ (k : ℕ). k ∷ p) (omega arith)

first_byte : List ℕ → ℕ
first_byte [] = 0
first_byte (byte ∷ bytes) = byte

-- a handle is the first byte of its key
abbrev shift : Gcrypt ℕ
shift = record {
  cipher_open = some 0;
  setkey = λ h key. some (first_byte key);
  setctr = λ h counter. some h;
  cipher_encrypt = λ h bytes. some (added h bytes, h);
  cipher_decrypt = λ h bytes. some (taken h bytes, h);
  sha256 = λ bytes. bytes;
}

abbrev out_of :
    (c d : List ℕ) (h k : ℕ) → ◌≡◌ {A = Option (List ℕ × ℕ)} (some (c, h)) (some (d, k)) → d ≡ c
out_of c d h k same = sym (ap (λ (r : List ℕ × ℕ). r.0) (some-injective (c, h) (d, k) same))

abbrev left_by :
    (c d : List ℕ) (h k : ℕ) → ◌≡◌ {A = Option (List ℕ × ℕ)} (some (c, h)) (some (d, k)) → h ≡ k
left_by c d h k same = ap (λ (r : List ℕ × ℕ). r.1) (some-injective (c, h) (d, k) same)

shift-IsCtr : IsCtr shift
unfolding added taken
shift-IsCtr = record {
  encrypt_split = λ h h2 p q c run. (
    h,
    added h p,
    added h q,
    refl,
    ap (λ (k : ℕ). some (added h q, k)) (left_by (added h (p ++ q)) c h h2 run),
    out_of (added h (p ++ q)) c h h2 run ∙ added-append h p q,
  );
  decrypt_split = λ h h2 p q c run. (
    h,
    taken h p,
    taken h q,
    refl,
    ap (λ (k : ℕ). some (taken h q, k)) (left_by (taken h (p ++ q)) c h h2 run),
    out_of (taken h (p ++ q)) c h h2 run ∙ taken-append h p q,
  );
  encrypt_nil = λ h h2 c run. out_of [] c h h2 run;
  decrypt_nil = λ h h2 c run. out_of [] c h h2 run;
  decrypt-encrypt = λ h h2 p c run.
      ap (λ (d : List ℕ). some (taken h d, h)) (out_of (added h p) c h h2 run)
      ∙ ap (λ (d : List ℕ). some (d, h)) (taken-added h p)
      ∙ ap (λ (k : ℕ). some (p, k)) (left_by (added h p) c h h2 run);
}

up : CmInputStream ℕ
up = set_encrypt shift fourfold (stream_new true) (5 ∷ 6 ∷ []) (1 ∷ 2 ∷ [])

keyed : IsKeyed shift (5 ∷ 6 ∷ []) (1 ∷ 2 ∷ 0 ∷ 0 ∷ 0 ∷ 0 ∷ 0 ∷ 0 ∷ 0 ∷ 0 ∷ []) 5
unfolding first_byte
keyed = (0, 5, refl, refl, refl)

run_of : shift.cipher_encrypt 5 (10 ∷ 20 ∷ 30 ∷ []) ≡ some (15 ∷ 25 ∷ 35 ∷ [], 5)
unfolding added
run_of = refl

read_all-sent_example :
    let down = set_file_enc shift fourfold (stream_new false) (file_of "mxc://a/b" up) in
    let (sent, sender) = read_all shift ((10, []) ∷ (20, 30 ∷ []) ∷ []) up in
    let (got, receiver) = read_all shift ((15, 25 ∷ []) ∷ (35, []) ∷ []) down in
    (sent ≡ some (15 ∷ 25 ∷ 35 ∷ []))
    × (got ≡ some (10 ∷ 20 ∷ 30 ∷ []))
    × (get_sha256 shift fourfold sender
        ≡ some (value_to_unpadded_base64 fourfold (15 ∷ 25 ∷ 35 ∷ []) false))
    × (get_sha256 shift fourfold receiver ≡ get_sha256 shift fourfold sender)
unfolding up
read_all-sent_example =
    read_all-sent shift fourfold "mxc://a/b" (5 ∷ 6 ∷ []) (1 ∷ 2 ∷ []) 5 5 (10, [])
      ((20, 30 ∷ []) ∷ []) (15, 25 ∷ []) ((35, []) ∷ []) shift-IsCtr fourfold-IsBase64 keyed run_of

read : CmInputStream ℕ
read = record (stream_new true) {
  cipher_hd = some 5;
  aes_key_base64 = some (65 ∷ []);
  aes_iv_base64 = some (66 ∷ []);
  checksum = some (1 ∷ []);
  checksum_complete = true;
}

letters : List ℕ → String
letters bytes = "AAAA"

get_json_file_enc_info-get_file_json_example :
    get_json_file_enc_info sample (get_file_json letters shift fourfold (some "mxc://a/b") read)
    ≡ some (
        sent_info sample "mxc://a/b"
          (some (letters (66 ∷ [])))
          (some (letters (value_to_unpadded_base64 fourfold (1 ∷ []) false)))
          (some (letters (65 ∷ []))))
unfolding read get_sha256 sha256_of has_prefix is_some
get_json_file_enc_info-get_file_json_example =
    get_json_file_enc_info-get_file_json sample letters shift fourfold "mxc://a/b" read (66 ∷ [])
      (value_to_unpadded_base64 fourfold (1 ∷ []) false) (65 ∷ []) refl refl refl refl refl refl
      refl
