-- ===== src/Tests/Olm.antt =====
-- Sessions of a library that encrypts nothing.
use mathlib.Core.Option.{some-injective}
use libcmatrix.Base.{ℕ, suc, ◌≡◌, refl, sym, Option, none, some, ◌||◌, ◌+◌, ◌*◌, leb, if◌then◌else◌}
use libcmatrix.Base.Int.{pos}
use libcmatrix.Olm.{
  Libolm, Later, IsDocumented, CmOlm, CmOlmState, usable, rotated, invalidated, set_state,
  same_state, state_value, update_validity, in_group_new, in_group_new_from_out, out_group_made,
  out_group_from, out_group_new, encrypt, encrypt_with, encrypt_group, decrypt,
}
use libcmatrix.Olm.State.{Sends, no_message, message, update_validity-state}
use libcmatrix.Olm.Shared.{key_of, get_session_key}

-- an outbound group session is the number of its messages, and a message is sent as it is
abbrev pub plain : Libolm Unit Unit ℕ
plain = record {
  olm_decrypt = λ s type c. (some c, s);
  olm_encrypt = λ s t. (some t, s);
  olm_session_id = λ s. "id";
  group_decrypt = λ i c. (some c, i);
  inbound_id = λ i. "id";
  init_inbound = λ key. some tt;
  group_encrypt = λ o t. (some t, suc o);
  init_outbound = λ random. some 0;
  message_index = λ o. o;
  outbound_id = λ o. "id";
  outbound_key = λ o. some "key";
}

pub plain-IsDocumented : IsDocumented plain
plain-IsDocumented = record {
  index-new = λ random o h. sym (some-injective 0 o h);
  index-encrypt = λ o text cipher h. refl;
  key_accepted = λ o key h. (tt, refl);
  reads = λ o p key text cipher i later own ok h. sym h;
}

abbrev or_new : Option (CmOlm Unit Unit ℕ) → CmOlm Unit Unit ℕ
or_new none = libcmatrix.Olm.inbound_object "" none none tt
or_new (some self) = self

first : CmOlm Unit Unit ℕ
first = or_new (out_group_new plain "" 100 none)

first_made : out_group_new plain "" 100 none ≡ some first
unfolding first out_group_new out_group_from out_group_made
first_made = refl

second : CmOlm Unit Unit ℕ
second = (encrypt plain first (some "hello")).1

sent_one : Sends plain first 1 second
unfolding second encrypt encrypt_with encrypt_group first out_group_new out_group_from
    out_group_made
sent_one = message "hello" "hello" no_message refl

update_validity-state_example :
    (update_validity plain second 1 (pos (suc 600)) 100).state
    ≡ (if leb 1 1 || leb (100 * 1000 + suc 600) (100 * 1000) then rotated else usable)
update_validity-state_example =
    update_validity-state plain plain-IsDocumented "" 100 1 1 600 100 none first second first_made
      sent_one refl

old : CmOlm Unit Unit ℕ
old = set_state second rotated

next : CmOlm Unit Unit ℕ
next = (encrypt plain second (some "again")).1

next_sent :
    encrypt plain next (some "third") ≡ (some "third", (encrypt plain next (some "third")).1)
unfolding next second encrypt encrypt_with encrypt_group first out_group_new out_group_from
    out_group_made
next_sent = refl

one_more : Sends plain second 1 next
unfolding next second encrypt encrypt_with encrypt_group first out_group_new out_group_from
    out_group_made
one_more = message "again" "again" no_message refl

key_now : get_session_key plain second ≡ some "key"
unfolding get_session_key key_of second encrypt encrypt_with encrypt_group first out_group_new
    out_group_from out_group_made
key_now = refl
