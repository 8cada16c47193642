-- ===== src/InputStream/Chunks.antt =====
-- A file that is read in pieces (cm_input_stream_read_fn of src/cm-input-stream.c).
use mathlib.Core.Path.{subst}
use mathlib.Core.List.{append_assoc, append-nil}
use libcmatrix.Base.{
  ℕ, ◌≡◌, refl, sym, ap, ◌∙◌, Bool, true, false, Option, none, some, List, [], ◌∷◌, ◌++◌,
  if◌then◌else◌,
}
use libcmatrix.Event.{is_some}
use libcmatrix.InputStream.{
  Gcrypt, CmInputStream, summed, sum_encrypted, replace_buffer, read_bytes, read_result, read_fn,
}

-- the bytes of one read, which are some
abbrev pub Chunk : Type 0
Chunk = ℕ × List ℕ

abbrev pub bytes_of : Chunk → List ℕ
bytes_of (byte, bytes) = byte ∷ bytes

abbrev pub concat : List Chunk → List ℕ
concat [] = []
concat (c ∷ cs) = bytes_of c ++ concat cs

abbrev join : Option (List ℕ) → Option (List ℕ) → Option (List ℕ)
join none r = none
join (some out) none = none
join (some out) (some rest) = some (out ++ rest)

-- What libgcrypt documents of a stream cipher: bytes may be given in one call or in several, and
-- decrypting with the handle that encrypted gives the bytes back.
pub record IsCtr {H : Type 0} (lib : Gcrypt H) : Type 0 where
  pub encrypt_split :
      (h h2 : H) (p q c : List ℕ)
      → lib.cipher_encrypt h (p ++ q) ≡ some (c, h2)
      → (h1 : H) × (c1 : List ℕ) × (c2 : List ℕ) × (lib.cipher_encrypt h p ≡ some (c1, h1))
        × (lib.cipher_encrypt h1 q ≡ some (c2, h2))
        × (c ≡ c1 ++ c2)
  pub decrypt_split :
      (h h2 : H) (p q c : List ℕ)
      → lib.cipher_decrypt h (p ++ q) ≡ some (c, h2)
      → (h1 : H) × (c1 : List ℕ) × (c2 : List ℕ) × (lib.cipher_decrypt h p ≡ some (c1, h1))
        × (lib.cipher_decrypt h1 q ≡ some (c2, h2))
        × (c ≡ c1 ++ c2)
  pub encrypt_nil : (h h2 : H) (c : List ℕ) → lib.cipher_encrypt h [] ≡ some (c, h2) → c ≡ []
  pub decrypt_nil : (h h2 : H) (c : List ℕ) → lib.cipher_decrypt h [] ≡ some (c, h2) → c ≡ []
  pub decrypt-encrypt :
      (h h2 : H) (p c : List ℕ)
      → lib.cipher_encrypt h p ≡ some (c, h2)
      → lib.cipher_decrypt h c ≡ some (p, h2)

module _ {H : Type 0} (lib : Gcrypt H) where
  -- reads of the pieces and then of the end of the file
  abbrev pub read_all : List Chunk → CmInputStream H → Option (List ℕ) × CmInputStream H
  read_all [] self = read_fn lib self (some [])
  read_all (c ∷ cs) self =
      let (out, next) = read_fn lib self (some (bytes_of c)) in
      let (rest, end) = read_all cs next in (join out rest, end)

  -- a stream that is ready, with what its checksum was given
  abbrev pub IsReady : Bool → H → Option (List ℕ) → CmInputStream H → Type 0
  IsReady encrypt h sum self =
      (self.cipher_hd ≡ some h)
      × (self.gcr_error ≡ false)
      × (self.encrypt ≡ encrypt)
      × (self.checksum ≡ sum)

  -- all was read: the bytes that came out, and those of the checksum
  abbrev pub IsRead : List Chunk → CmInputStream H → List ℕ → Option (List ℕ) → Type 0
  IsRead cs self out sum =
      ((read_all cs self).0 ≡ some out)
      × ((read_all cs self).1.checksum ≡ sum)
      × ((read_all cs self).1.checksum_complete ≡ true)

  IsRead-end :
      (encrypt : Bool) (h : H) (sum : Option (List ℕ)) (self : CmInputStream H)
      → IsReady encrypt h sum self
      → IsRead [] self [] sum
  unfolding read_fn read_result is_some
  IsRead-end encrypt h sum self (hd, fine, mode, same) =
      let path =
        ap (λ (g : Bool). if g then (none, self) else read_result lib self (some [])) fine
        ∙ ap
            (λ (o : Option H).
              (some [], if is_some o then record self { checksum_complete = true } else self))
            hd in
      subst
        (λ (r : Option (List ℕ) × CmInputStream H).
          (r.0 ≡ some []) × (r.1.checksum ≡ sum) × (r.1.checksum_complete ≡ true))
        (sym path) (refl, same, refl)

  read_encrypted :
      (h h1 : H) (sum : Option (List ℕ)) (self : CmInputStream H) (c : Chunk) (out : List ℕ)
      → IsReady true h sum self
      → lib.cipher_encrypt h (bytes_of c) ≡ some (out, h1)
      → let (r, next) = read_fn lib self (some (bytes_of c)) in
        (r ≡ some out) × IsReady true h1 (summed sum out) next
  unfolding read_fn read_result read_bytes replace_buffer sum_encrypted
  read_encrypted h h1 sum self c out (hd, fine, mode, same) run =
      let path =
        ap (λ (g : Bool). if g then (none, self) else read_result lib self (some (bytes_of c))) fine
        ∙ ap (read_bytes lib self (bytes_of c)) hd
        ∙ ap
            (λ (m : Bool).
              if m
              then replace_buffer
                  (record self {
                    checksum = sum_encrypted (lib.cipher_encrypt h (bytes_of c)) self.checksum;
                  })
                  (lib.cipher_encrypt h (bytes_of c))
              else replace_buffer (record self { checksum = summed self.checksum (bytes_of c) })
                  (lib.cipher_decrypt h (bytes_of c)))
            mode
        ∙ ap
            (λ (r : Option (List ℕ × H)).
              replace_buffer (record self { checksum = sum_encrypted r self.checksum }) r)
            run in
      subst
        (λ (r : Option (List ℕ) × CmInputStream H).
          (r.0 ≡ some out) × IsReady true h1 (summed sum out) r.1)
        (sym path) (refl, (refl, fine, mode, ap (λ (s : Option (List ℕ)). summed s out) same))

  read_decrypted :
      (h h1 : H) (sum : Option (List ℕ)) (self : CmInputStream H) (c : Chunk) (out : List ℕ)
      → IsReady false h sum self
      → lib.cipher_decrypt h (bytes_of c) ≡ some (out, h1)
      → let (r, next) = read_fn lib self (some (bytes_of c)) in
        (r ≡ some out) × IsReady false h1 (summed sum (bytes_of c)) next
  unfolding read_fn read_result read_bytes replace_buffer
  read_decrypted h h1 sum self c out (hd, fine, mode, same) run =
      let path =
        ap (λ (g : Bool). if g then (none, self) else read_result lib self (some (bytes_of c))) fine
        ∙ ap (read_bytes lib self (bytes_of c)) hd
        ∙ ap
            (λ (m : Bool).
              if m
              then replace_buffer
                  (record self {
                    checksum = sum_encrypted (lib.cipher_encrypt h (bytes_of c)) self.checksum;
                  })
                  (lib.cipher_encrypt h (bytes_of c))
              else replace_buffer (record self { checksum = summed self.checksum (bytes_of c) })
                  (lib.cipher_decrypt h (bytes_of c)))
            mode
        ∙ ap (replace_buffer (record self { checksum = summed self.checksum (bytes_of c) })) run in
      subst
        (λ (r : Option (List ℕ) × CmInputStream H).
          (r.0 ≡ some out) × IsReady false h1 (summed sum (bytes_of c)) r.1)
        (sym path)
        (refl, (refl, fine, mode, ap (λ (s : Option (List ℕ)). summed s (bytes_of c)) same))

  IsRead-more :
      (c : Chunk) (cs : List Chunk) (self : CmInputStream H) (out rest : List ℕ)
      (sum : Option (List ℕ))
      → (read_fn lib self (some (bytes_of c))).0 ≡ some out
      → IsRead cs (read_fn lib self (some (bytes_of c))).1 rest sum
      → IsRead (c ∷ cs) self (out ++ rest) sum
  IsRead-more c cs self out rest sum first (all, same, whole) = (
    ap (λ (r : Option (List ℕ)). join r (read_all cs (read_fn lib self (some (bytes_of c))).1).0)
          first
        ∙ ap (join (some out)) all,
    same,
    whole,
  )

  module _ (ctr : IsCtr lib) where
    IsRead-all_encrypted :
        (cs : List Chunk) (h h2 : H) (s c : List ℕ) (self : CmInputStream H)
        → IsReady true h (some s) self
        → lib.cipher_encrypt h (concat cs) ≡ some (c, h2)
        → IsRead cs self c (some (s ++ c))
    unfolding summed
    IsRead-all_encrypted [] h h2 s c self ready run =
        subst (λ (d : List ℕ). IsRead [] self d (some (s ++ d))) (sym (ctr.encrypt_nil h h2 c run))
          (subst (λ (d : List ℕ). IsRead [] self [] (some d)) (sym (append-nil s))
            (IsRead-end true h (some s) self ready))
    IsRead-all_encrypted (x ∷ cs) h h2 s c self ready run =
        let (h1, c1, c2, one, two, whole) = ctr.encrypt_split h h2 (bytes_of x) (concat cs) c run in
        let (first, next) = read_encrypted h h1 (some s) self x c1 ready one in
        subst (λ (d : List ℕ). IsRead (x ∷ cs) self d (some (s ++ d))) (sym whole)
          (IsRead-more x cs self c1 c2 (some (s ++ (c1 ++ c2))) first (
            subst (λ (d : List ℕ). IsRead cs (read_fn lib self (some (bytes_of x))).1 c2 (some d))
              (append_assoc s c1 c2) (IsRead-all_encrypted cs h1 h2 (s ++ c1) c2 _ next two)))

    IsRead-all_decrypted :
        (cs : List Chunk) (h h2 : H) (s p : List ℕ) (self : CmInputStream H)
        → IsReady false h (some s) self
        → lib.cipher_decrypt h (concat cs) ≡ some (p, h2)
        → IsRead cs self p (some (s ++ concat cs))
    unfolding summed
    IsRead-all_decrypted [] h h2 s p self ready run =
        subst (λ (d : List ℕ). IsRead [] self d (some (s ++ []))) (sym (ctr.decrypt_nil h h2 p run))
          (subst (λ (d : List ℕ). IsRead [] self [] (some d)) (sym (append-nil s))
            (IsRead-end false h (some s) self ready))
    IsRead-all_decrypted (x ∷ cs) h h2 s p self ready run =
        let (h1, p1, p2, one, two, whole) = ctr.decrypt_split h h2 (bytes_of x) (concat cs) p run in
        let (first, next) = read_decrypted h h1 (some s) self x p1 ready one in
        subst (λ (d : List ℕ). IsRead (x ∷ cs) self d (some (s ++ (bytes_of x ++ concat cs))))
          (sym whole)
          (IsRead-more x cs self p1 p2 (some (s ++ (bytes_of x ++ concat cs))) first (
            subst (λ (d : List ℕ). IsRead cs (read_fn lib self (some (bytes_of x))).1 p2 (some d))
              (append_assoc s (bytes_of x) (concat cs))
              (IsRead-all_decrypted cs h1 h2 (s ++ bytes_of x) p2 _ next two)))

    -- a file with some bytes, from the first read on
    pub IsRead-file_encrypted :
        (x : Chunk) (cs : List Chunk) (h h2 : H) (c : List ℕ) (self : CmInputStream H)
        → IsReady true h none self
        → lib.cipher_encrypt h (concat (x ∷ cs)) ≡ some (c, h2)
        → IsRead (x ∷ cs) self c (some c)
    unfolding summed
    IsRead-file_encrypted x cs h h2 c self ready run =
        let (h1, c1, c2, one, two, whole) = ctr.encrypt_split h h2 (bytes_of x) (concat cs) c run in
        let (first, next) = read_encrypted h h1 none self x c1 ready one in
        subst (λ (d : List ℕ). IsRead (x ∷ cs) self d (some d)) (sym whole)
          (IsRead-more x cs self c1 c2 (some (c1 ++ c2)) first
            (IsRead-all_encrypted cs h1 h2 c1 c2 _ next two))

    pub IsRead-file_decrypted :
        (x : Chunk) (cs : List Chunk) (h h2 : H) (p : List ℕ) (self : CmInputStream H)
        → IsReady false h none self
        → lib.cipher_decrypt h (concat (x ∷ cs)) ≡ some (p, h2)
        → IsRead (x ∷ cs) self p (some (concat (x ∷ cs)))
    unfolding summed
    IsRead-file_decrypted x cs h h2 p self ready run =
        let (h1, p1, p2, one, two, whole) = ctr.decrypt_split h h2 (bytes_of x) (concat cs) p run in
        let (first, next) = read_decrypted h h1 none self x p1 ready one in
        subst (λ (d : List ℕ). IsRead (x ∷ cs) self d (some (concat (x ∷ cs)))) (sym whole)
          (IsRead-more x cs self p1 p2 (some (concat (x ∷ cs))) first
            (IsRead-all_decrypted cs h1 h2 (bytes_of x) p2 _ next two))
