-- ===== src/InputStream/Base64.antt =====
-- The texts of keys and counters (src/cm-input-stream.c).
use libcmatrix.Base.{
  ℕ, zero, suc, ◌≡◌, ◌<◌, ◌+◌, ◌%◌, refl, sym, ap, ◌∙◌, true, false, List, [], ◌∷◌, ◌++◌, All,
  length, ◌==◌, ==_iff, arith,
}
use libcmatrix.InputStream.{
  Base64Codec, cut_padding, delimit, padding, padding_of, value_to_unpadded_base64,
  parse_base64_value, parse_key,
}

-- a character of the alphabet of base64: not "=", "-" or "_"
abbrev pub IsPlain : ℕ → Type 0
IsPlain c = ((c == 61) ≡ false) × ((c == 45) ≡ false) × ((c == 95) ≡ false)

-- What GLib documents of base64: a text is characters of the alphabet, filled up by less than four "=" to a
-- multiple of four, and decoding it gives the bytes.
pub record IsBase64 (b : Base64Codec) : Type 0 where
  pub shape :
      (bytes : List ℕ)
      → (body : List ℕ) × (n : ℕ) × (b.encode bytes ≡ body ++ padding n)
        × All IsPlain body
        × (n < 4)
        × ((length body + n) % 4 ≡ 0)
  pub decode-encode : (bytes : List ℕ) → b.decode (b.encode bytes) ≡ bytes

cut_padding_body :
    (body : List ℕ) (n : ℕ) → All IsPlain body → cut_padding (body ++ padding n) ≡ body
unfolding cut_padding padding
cut_padding_body [] zero h = refl
cut_padding_body [] (suc n) h = refl
cut_padding_body (c ∷ body) n h = ground (arith, h.0, cut_padding_body body n h.1)

delimit_url :
    (body : List ℕ)
    → All IsPlain body
    → delimit 45 43 (delimit 95 47 (delimit 43 45 (delimit 47 95 body))) ≡ body
unfolding delimit
delimit_url [] h = refl
delimit_url (c ∷ body) h =
    ground (arith, h.0, ==_iff c 47, ==_iff c 43, ==_iff c 45, ==_iff c 95, delimit_url body h.1)

padding_of_lem : (len n : ℕ) → n < 4 → (len + n) % 4 ≡ 0 → padding_of len ≡ n
unfolding padding_of
padding_of_lem len n small whole = ground arith

-- A key or a counter is read back from the text that is made of it, in either alphabet.
pub parse-value_to_unpadded_base64 :
    (b : Base64Codec) (bytes : List ℕ)
    → IsBase64 b
    → (parse_base64_value b (value_to_unpadded_base64 b bytes false) ≡ bytes)
      × (parse_key b (value_to_unpadded_base64 b bytes true) ≡ bytes)
unfolding parse_key parse_base64_value value_to_unpadded_base64
parse-value_to_unpadded_base64 b bytes laws =
    let (body, n, shape, plain, small, whole) = laws.shape bytes in
    let cut : cut_padding (b.encode bytes) ≡ body =
      ap cut_padding shape ∙ cut_padding_body body n plain in
    let filled : body ++ padding (padding_of (length body)) ≡ b.encode bytes =
      ap (λ (k : ℕ). body ++ padding k) (padding_of_lem (length body) n small whole) ∙ sym shape in
    let back : b.decode (body ++ padding (padding_of (length body))) ≡ bytes =
      ap b.decode filled ∙ laws.decode-encode bytes in
    (
      ap (λ (t : List ℕ). b.decode (t ++ padding (padding_of (length t)))) cut ∙ back,
      ap (λ (t : List ℕ). b.decode (t ++ padding (padding_of (length t))))
            (ap (λ (t : List ℕ). delimit 45 43 (delimit 95 47 (delimit 43 45 (delimit 47 95 t))))
                cut
              ∙ delimit_url body plain)
          ∙ back,
    )
