-- ===== src/Enc/Signed.antt =====
-- What the signature of a JSON object covers (cm_enc_verify of src/cm-enc.c).
use libcmatrix.Base.{
  String, ◌≡◌, refl, sym, ◌∙◌, ap, not, ◌||◌, true, false, Option, none, some, arith, eq_iff,
  if◌then◌else◌, Bool-cases, Option-cases, inl, inr,
}
use mathlib.Core.Bool.{false≢true}
use Prim.Native.String.{◌++◌}
use mathlib.Core.Option
use mathlib.Core.Option.{some-injective, none-ne-some}
use libcmatrix.Base.Text.{str_eq}
use libcmatrix.Json.{JsonNode, JsonObject, get_member, set_member, IsUnique}
use libcmatrix.Json.Members.{get_member-set_member}
use libcmatrix.Json.Access.{find_member, object_get_object, object_get_string, as_object}
use libcmatrix.Json.Canonical.{
  strip, put_back, json_get_canonical, visited_object, visited_node, is_unsigned,
}
use libcmatrix.Json.Canonical.Determined.{get_member-strip, strip-IsUnique, canonical_determined}
use libcmatrix.Json.Canonical.Visited.{get_member-visited_object}
use libcmatrix.Enc.{EncEnv, starts_with_at, signature_of, reverted, enc_verify_text, enc_verify}

-- signature_of, by the member that holds the signatures
abbrev signature_in : EncEnv → String → String → Option JsonNode → Option String
signature_in env m d node =
    object_get_string env.glib
      (object_get_object (elim node [ none ↦ none | some n ↦ as_object n ]) (some m))
      (some ("ed25519:" ++ d))

module _ (env : EncEnv) (o p : JsonObject) where
  signature_of-congr :
      (m d : String)
      → get_member o "signatures" ≡ get_member p "signatures"
      → signature_of env o m d ≡ signature_of env p m d
  unfolding signature_of object_get_object find_member
  signature_of-congr m d h = ap (signature_in env m d) h

  strip-agree :
      IsUnique o
      → IsUnique p
      → ((k : String) → is_unsigned k ≡ false → get_member o k ≡ get_member p k)
      → (k : String) → is_unsigned k ≡ false
      → get_member (strip o) k ≡ get_member (strip p) k
  strip-agree ho hp same k e = rw (get_member-strip o k ho, get_member-strip p k hp, e) (same k e)

  enc_verify_text-congr :
      (ed_key : String) (signature : Option String)
      → json_get_canonical env.glib (strip o) "" ≡ json_get_canonical env.glib (strip p) ""
      → (enc_verify_text env o ed_key signature).0 ≡ (enc_verify_text env p ed_key signature).0
  unfolding enc_verify_text
  enc_verify_text-congr ed_key none h = refl
  enc_verify_text-congr ed_key (some s) h = ap (λ (t : String). env.ed25519_verify ed_key t s) h

  enc_verify-congr :
      (matrix_id device_id ed_key : Option String)
      → get_member o "signatures" ≡ get_member p "signatures"
      → json_get_canonical env.glib (strip o) "" ≡ json_get_canonical env.glib (strip p) ""
      → (enc_verify env (some o) matrix_id device_id ed_key).0
        ≡ (enc_verify env (some p) matrix_id device_id ed_key).0
  unfolding enc_verify
  enc_verify-congr none d k h t = refl
  enc_verify-congr (some m) none k h t = refl
  enc_verify-congr (some m) (some d) none h t = refl
  enc_verify-congr (some m) (some d) (some k) h t =
      ground (arith, signature_of-congr m d h, enc_verify_text-congr k (signature_of env p m d) t)

signed_of : (k : String) → is_unsigned k ≡ false → str_eq "unsigned" k ≡ false
signed_of k h = ground (arith, eq_iff "unsigned" k, eq_iff k "unsigned")

-- Two objects with the same signatures that agree on every member but "unsigned" are both accepted or
-- both refused, whatever the key and the order of their members.
pub enc_verify_determined :
    (env : EncEnv) (o p : JsonObject) (matrix_id device_id ed_key : Option String)
    → IsUnique o
    → IsUnique p
    → ((k : String) → str_eq "unsigned" k ≡ false → get_member o k ≡ get_member p k)
    → (enc_verify env (some o) matrix_id device_id ed_key).0
      ≡ (enc_verify env (some p) matrix_id device_id ed_key).0
unfolding enc_verify
enc_verify_determined env o p m d k ho hp same =
    enc_verify-congr env o p m d k (same "signatures" refl) (
      canonical_determined env.glib (strip o) (strip p) "" (strip-IsUnique o ho)
        (strip-IsUnique p hp) (strip-agree env o p ho hp (λ j e. same j (signed_of j e))))

-- the member of an object whose two members were written again by `node`, if it is there
get_member-put_back_both :
    (o : JsonObject) (k : String) (node : JsonNode)
    → get_member (put_back (put_back o "signatures" (some node)) "unsigned" (some node)) k
      ≡ (if is_unsigned k then some node else get_member o k)
unfolding put_back
get_member-put_back_both o k node = ground (
  arith,
  get_member-set_member (set_member o "signatures" node) "unsigned" k node,
  get_member-set_member o "signatures" k node,
  eq_iff "unsigned" k,
  eq_iff k "unsigned",
  eq_iff "signatures" k,
  eq_iff k "signatures",
)

get_member-reverted :
    (env : EncEnv) (o : JsonObject) (k : String) (node : JsonNode)
    → IsUnique o
    → get_member o "signatures" ≡ some node
    → get_member (reverted env o) k
      ≡ (if is_unsigned k then some node else Option.map visited_node (get_member o k))
unfolding reverted
get_member-reverted env o k node h e =
    rw (e, get_member-put_back_both (visited_object (strip o)) k node)
      (ground
        (arith, get_member-visited_object (strip o) k (strip-IsUnique o h), get_member-strip o k h))

signature_of-some :
    (env : EncEnv) (o : JsonObject) (m d s : String)
    → signature_of env o m d ≡ some s
    → (node : JsonNode) × (get_member o "signatures" ≡ some node)
unfolding signature_of object_get_object find_member object_get_string
signature_of-some env o m d s h = elim (Option-cases (get_member o "signatures")) [
  | inl e ↦ absurd (none-ne-some _ (ap (signature_in env m d) (sym e) ∙ h))
  | inr found ↦ found
]

enc_verify_text-accepted :
    (env : EncEnv) (o p : JsonObject) (k : String) (signature : Option String)
    → enc_verify_text env o k signature ≡ (true, some p)
    → (s : String) × (signature ≡ some s)
      × (env.ed25519_verify k (json_get_canonical env.glib (strip o) "") s ≡ true)
      × (p ≡ reverted env o)
unfolding enc_verify_text
enc_verify_text-accepted env o p k none h = absurd (false≢true (ap (λ r. r.0) h))
enc_verify_text-accepted env o p k (some s) h =
    (s, refl, ap (λ r. r.0) h, sym (some-injective _ _ (ap (λ r. r.1) h)))

-- An object that cm_enc_verify accepts carries a signature of the device under its user, which the
-- key verifies for the canonical text.
pub enc_verify-accepted :
    (env : EncEnv) (o p : JsonObject) (m d k : Option String)
    → enc_verify env (some o) m d k ≡ (true, some p)
    → (m' : String) × (d' : String) × (k' : String) × (s : String) × ((m ≡ some m')
        × (d ≡ some d')
        × (k ≡ some k'))
      × (signature_of env o m' d' ≡ some s)
      × (env.ed25519_verify k' (json_get_canonical env.glib (strip o) "") s ≡ true)
      × (p ≡ reverted env o)
unfolding enc_verify
enc_verify-accepted env o p none d k h = absurd (false≢true (ap (λ r. r.0) h))
enc_verify-accepted env o p (some m) none k h = absurd (false≢true (ap (λ r. r.0) h))
enc_verify-accepted env o p (some m) (some d) none h = absurd (false≢true (ap (λ r. r.0) h))
enc_verify-accepted env o p (some m) (some d) (some k) h =
    elim (Bool-cases (not (starts_with_at m) || (str_eq d "" || str_eq k ""))) [
      | inl e ↦ absurd (false≢true (ap (λ r. r.0) (rw e at h)))
      | inr e ↦
          let (s, found, good, left) =
            enc_verify_text-accepted env o p k (signature_of env o m d) (rw e at h) in
          (m, d, k, s, (refl, refl, refl), found, good, left)
    ]

-- What an accepted object is after cm_enc_verify: "signatures" and "unsigned" both hold what
-- "signatures" held, and any other member is the node that making the canonical text leaves.
pub enc_verify_left :
    (env : EncEnv) (o p : JsonObject) (m d k : Option String) (name : String)
    → IsUnique o
    → enc_verify env (some o) m d k ≡ (true, some p)
    → get_member p name ≡ (
        if is_unsigned name
        then get_member o "signatures"
        else Option.map visited_node (get_member o name))
enc_verify_left env o p m d k name h run =
    let (m', d', k', s, same, found, good, left) = enc_verify-accepted env o p m d k run in
    let (node, e) = signature_of-some env o m' d' s found in
    rw (left, e) (get_member-reverted env o name node h e)
