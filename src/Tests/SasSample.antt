-- ===== src/Tests/SasSample.antt =====
-- Two sides of a verification, with a MAC that keeps its input.
use Prim.Native.String.{◌++◌ as ◌⧺◌, len, slice}
use text.Mathlib.TextPositions.{len-append, slice-append_left}
use libcmatrix.Base.{ℕ, ◌-◌, String, ◌≡◌, none, some, List, [], ◌∷◌, Option, arith, if◌then◌else◌}
use libcmatrix.Base.Text.{str_eq}
use libcmatrix.Json.{JsonObject, end, member, object}
use libcmatrix.Json.Sample.{sample}
use libcmatrix.EventType.{
  CmEventType, key_verification_key, key_verification_mac, key_verification_request,
}
use libcmatrix.Event.{CmEvent, empty_event}
use libcmatrix.Sas.Bytes.{SasBytes}
use libcmatrix.Sas.State.{
  CmDevice, CmVerificationEvent, SasEnv, CmOlmSas, sas_new, nothing_attached,
}
use libcmatrix.Sas.Mac.{mac_content}

-- without its last `n` characters
abbrev cut : ℕ → String → String
cut n s = slice s 0 (len s - n)

pub cut-append : (s t : String) → cut (len t) (s ⧺ t) ≡ s
cut-append s t =
    let same : len (s ⧺ t) - len t ≡ len s = omega (arith, len-append s t) in
    rw same (slice-append_left s t)

abbrev split_sample : String → List String
split_sample s =
    if str_eq s "ed25519:A"
    then "ed25519" ∷ "A" ∷ []
    else if str_eq s "ed25519:B"
    then "ed25519" ∷ "B" ∷ []
    else s ∷ []

abbrev pub sample_bytes : SasBytes
sample_bytes = record { byte0 = 16; byte1 = 131; byte2 = 16; byte3 = 81; byte4 = 135; byte5 = 32 }

abbrev env_of : String → String → SasEnv
env_of user device = record {
  glib = sample;
  user_id = user;
  device_id = device;
  ed25519_key = "key of " ⧺ device;
  pubkey = "public " ⧺ device;
  sha256 = λ s. s;
  olm_calculate_mac = λ k input info. input ⧺ ("/" ⧺ info);
  olm_generate_bytes = λ k info. sample_bytes;
  olm_set_their_key = λ key. some key;
  split = split_sample;
  strlen = len;
  truncate_by = cut;
  truncate_by-append = cut-append;
}

abbrev pub alice : SasEnv
alice = env_of "@alice" "A"

abbrev pub bob : SasEnv
bob = env_of "@bob" "B"

abbrev pub event_of : CmEventType → Option JsonObject → CmEvent
event_of type json = record empty_event { event_type = type; json = json }

-- an event of the transaction "t"
abbrev pub step : ℕ → CmEventType → Option String → Option JsonObject → CmVerificationEvent
step ref type key json = record {
  ref = ref;
  event = event_of type json;
  transaction_id = some "t";
  verification_key = key;
}

abbrev pub first : CmVerificationEvent
first = step 1 key_verification_request none none

abbrev pub key_step : CmVerificationEvent
key_step = step 2 key_verification_key (some "public") none

abbrev pub begun : String → String → CmOlmSas
begun user device = record sas_new {
  key_verification = some first;
  their_user_id = some user;
  their_device_id = some device;
  their_pub_key = some "public";
  olm_their_key = some "public";
  attached = record nothing_attached { key = some key_step };
}

-- Alice's state, and Bob's
abbrev pub of_alice : CmOlmSas
of_alice = begun "@bob" "B"

abbrev pub of_bob : CmOlmSas
of_bob = begun "@alice" "A"

abbrev pub device_of_alice : CmDevice
device_of_alice = record { device_id = some "A"; ed_key = some "key of A" }

abbrev pub sent : JsonObject
unfolding mac_content
sent = mac_content alice of_alice end

abbrev pub mac_step : CmVerificationEvent
mac_step = step 3 key_verification_mac none (some (member "content" (object sent) end))
