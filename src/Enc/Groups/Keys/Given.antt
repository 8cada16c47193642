-- ===== src/Enc/Groups/Keys/Given.antt =====
-- A device that was given the key of a room's group session reads what is sent from then on
-- (src/cm-enc.c).
use mathlib.Core.Path.{subst}
use libcmatrix.Base.{
  ℕ, String, ◌≡◌, refl, sym, ap, ◌∙◌, Bool, true, false, ◌&&◌, Option, none, some, ◌==◌, if_both,
  if_true, if_false, arith, eq_iff,
}
use libcmatrix.Base.Text.{strcmp0_eq, str_eq, is_empty}
use libcmatrix.Base.Table.{lookup, lookup-insert}
use libcmatrix.Event.{is_some}
use libcmatrix.Json.{JsonObject, get_member, set_member}
use libcmatrix.Json.Glib.{JsonGlib}
use libcmatrix.Json.Access.{object_get_string, object_get_object, find_member, holds_value}
use libcmatrix.InputStream.FileJson.{string_node, set_string}
use libcmatrix.Olm.{
  Libolm, Later, IsDocumented, CmOlm, in_group_new, in_group_made, inbound_object,
  set_sender_details, set_account_details, set_key, set_db,
}
use libcmatrix.Olm.Group.{Reads, decrypt-Reads}
use libcmatrix.Enc.Groups.{ChatEnv, ChatRoom, CmEnc, put_at, chat_json, encrypt_for_chat}
use libcmatrix.Enc.Groups.Received.{decrypt_by, handle_join_room_encrypted}
use libcmatrix.Enc.Groups.Paired.{IsPaired, cipher_of, encrypt_for_chat_path, handle_sent}
use libcmatrix.Enc.Groups.Keys.{
  key_content, key_body, keep_group_session, keep_key, handle_m_room_key, is_for_device, take_body,
}

same_texts : (text : String) → strcmp0_eq (some text) (some text) ≡ true
unfolding strcmp0_eq
same_texts text = (eq_iff text text).1 refl

module _ {S I O : Type 0} (lib : Libolm S I O) (device : CmEnc S I O) (id : String)
    (room_id : Option String) (i : I) (session : CmOlm S I O) (reads : Reads lib i session) where
  -- the session that is kept reads as it was made
  kept-Reads :
      let next = keep_group_session device id room_id (some session) in
      (lookup next.in_group_sessions id ≡ some device.next)
      × Reads lib i (next.sessions device.next)
  unfolding keep_group_session put_at set_sender_details set_account_details set_key set_db
  kept-Reads =
      let from = set_sender_details session room_id device.user_id in
      let mine = set_account_details from device.user_id device.device_id in
      let keyed = set_key mine device.pickle_key in
      let last = set_db keyed device.cm_db in
      let from_reads : Reads lib i from = if_both (Reads lib i) _ reads reads in
      let mine_reads : Reads lib i mine = if_both (Reads lib i) _ from_reads from_reads in
      let keyed_reads : Reads lib i keyed = if_both (Reads lib i) _ mine_reads mine_reads in
      let last_reads : Reads lib i last = if_both (Reads lib i) _ keyed_reads keyed_reads in
      (
        lookup-insert device.in_group_sessions id id device.next
            ∙ if_true (str_eq id id) _ _ ((eq_iff id id).1 refl),
        subst (Reads lib i) (sym (if_true (device.next == device.next) _ _ (ground arith)))
            last_reads,
      )

module _ {S I O : Type 0} (lib : Libolm S I O) (glib : JsonGlib) (self device : CmEnc S I O)
    (ed_key : Option String) (room : ChatRoom) (sender recipient device_key id key : String)
    (index : ℕ) where
  abbrev pub body : JsonObject
  body =
      key_body self ed_key (key_content room (some id) (some key) index) (some recipient)
        (some device_key)

  member_sender :
      self.user_id ≡ some sender → object_get_string glib (some body) (some "sender") ≡ some sender
  unfolding key_body set_string set_member string_node object_get_string find_member get_member
      holds_value
  member_sender sends =
      ap
        (λ (user : Option String).
          object_get_string glib
            (some (
              key_body (record self { user_id = user }) ed_key
                (key_content room (some id) (some key) index) (some recipient) (some device_key)))
            (some "sender"))
        sends
      ∙ glib.get_string-string sender

  members_of :
      (object_get_string glib (some body) (some "type") ≡ some "m.room_key")
      × (object_get_string glib (some body) (some "recipient") ≡ some recipient)
      × (object_get_string glib
            (object_get_object (some body) (some "recipient_keys"))
            (some "ed25519")
          ≡ some device_key)
  unfolding key_body set_string set_member string_node object_get_string object_get_object
      find_member get_member holds_value
  members_of = (
    glib.get_string-string "m.room_key",
    glib.get_string-string recipient,
    glib.get_string-string device_key,
  )

  content_of :
      let content = object_get_object (some body) (some "content") in
      (object_get_string glib content (some "session_id") ≡ some id)
      × (object_get_string glib content (some "session_key") ≡ some key)
  unfolding key_body key_content set_string set_member string_node object_get_string
      object_get_object find_member get_member holds_value
  content_of = (glib.get_string-string id, glib.get_string-string key)

  body_fits :
      self.user_id ≡ some sender
      → device.user_id ≡ some recipient
      → is_for_device glib lib device (some device_key) (some sender) body ≡ true
  unfolding is_for_device
  body_fits sends owner =
      let (kind, to, own) = members_of in
      let from = strcmp0_eq (some sender) (object_get_string glib (some body) (some "sender")) in
      let mine =
        strcmp0_eq device.user_id (object_get_string glib (some body) (some "recipient")) in
      let keys =
        object_get_string glib (object_get_object (some body) (some "recipient_keys"))
          (some "ed25519") in
      let from_true : from ≡ true =
        ap (strcmp0_eq (some sender)) (member_sender sends) ∙ same_texts sender in
      let mine_true : mine ≡ true =
        ap
          (λ (user : Option String).
            strcmp0_eq user (object_get_string glib (some body) (some "recipient")))
          owner
        ∙ ap (strcmp0_eq (some recipient)) to
        ∙ same_texts recipient in
      let keys_true : strcmp0_eq (some device_key) keys ≡ true =
        ap (strcmp0_eq (some device_key)) own ∙ same_texts device_key in
      ap (λ (b : Bool). b && (mine && strcmp0_eq (some device_key) keys)) from_true
      ∙ ap (λ (b : Bool). b && strcmp0_eq (some device_key) keys) mine_true
      ∙ keys_true

  -- the device keeps an inbound session of the key
  taken_body :
      (sender_key : Option String) (i : I)
      → self.user_id ≡ some sender
      → device.user_id ≡ some recipient
      → lookup device.in_group_sessions id ≡ none
      → lib.init_inbound key ≡ some i
      → take_body glib lib device (some device_key) (some sender) sender_key body
        ≡ some (
            keep_group_session device id
              (object_get_string glib
                (object_get_object (some body) (some "content"))
                (some "room_id"))
              (some (inbound_object key sender_key (some id) i)))
  unfolding take_body handle_m_room_key keep_key in_group_new in_group_made is_some
  taken_body sender_key i sends owner new made =
      let (kind, to, own) = members_of in
      let (has_id, has_key) = content_of in
      let room_id =
        object_get_string glib (object_get_object (some body) (some "content")) (some "room_id") in
      let named =
        strcmp0_eq (object_get_string glib (some body) (some "type")) (some "m.room_key") in
      let named_true : named ≡ true =
        ap (λ (t : Option String). strcmp0_eq t (some "m.room_key")) kind
        ∙ same_texts "m.room_key" in
      if_true (is_for_device glib lib device (some device_key) (some sender) body && named) _ _
        (ap (λ (b : Bool). b && named) (body_fits sends owner) ∙ named_true)
      ∙ ap
          (λ (t : Option String). keep_key glib lib device sender_key room_id t (
            object_get_string glib (object_get_object (some body) (some "content"))
              (some "session_key")))
          has_id
      ∙ ap (keep_key glib lib device sender_key room_id (some id)) has_key
      ∙ if_false (is_some (lookup device.in_group_sessions id)) _ _ (ap is_some new)
      ∙ ap
          (λ (s : Option I).
            some
              (keep_group_session device id room_id (in_group_made lib key sender_key (some id) s)))
          made

-- A room's group session gave its key `key` when it was `base`, and has sent any messages since. A device of the
-- recipient takes the key's object, decrypted, from the sender, and has no session under the id. It then
-- decrypts, without the database, the object of the next text that the room encrypts to the text.
pub handle-take_body :
    {S I O : Type 0} (lib : Libolm S I O) (laws : IsDocumented lib) (env : ChatEnv)
    (self device : CmEnc S I O) (room : ChatRoom) (p : IsPaired lib self room.ref) (base : O)
    (key sender recipient device_key message cipher : String) (ed_key sender_key : Option String)
    (index : ℕ) (found : Option (CmOlm S I O))
    → lib.outbound_key base ≡ some key
    → Later lib base p.session
    → self.user_id ≡ some sender
    → device.user_id ≡ some recipient
    → lookup device.in_group_sessions p.id ≡ none
    → is_empty (some message) ≡ false
    → (lib.group_encrypt p.session message).0 ≡ some cipher
    → (next : CmEnc S I O) × (take_body env.glib lib device
          (some device_key)
          (some sender)
          sender_key
          (key_body self ed_key
            (key_content room (some p.id) (some key) index)
            (some recipient)
            (some device_key))
        ≡ some next)
      × (object : JsonObject) × ((encrypt_for_chat lib env self room (some message)).0
          ≡ some object)
      × (last : CmEnc S I O) × (handle_join_room_encrypted env lib next (some object) found
          ≡ some (some message, last))
unfolding decrypt_by
handle-take_body {S = S} {I = I} {O = O} lib laws env self device room p base key sender recipient
      device_key message cipher ed_key sender_key index found own later sends owner new some_text
      e =
    let (i, made) = laws.key_accepted base key own in
    let inbound = inbound_object key sender_key (some p.id) i in
    let given =
      body lib env.glib self device ed_key room sender recipient device_key p.id key index in
    let room_id =
      object_get_string env.glib (object_get_object (some given) (some "content"))
        (some "room_id") in
    let next = keep_group_session device p.id room_id (some inbound) in
    let (held, reads) = kept-Reads lib device p.id room_id i inbound (refl, refl) in
    let read : (decrypt_by env lib next cipher (some device.next)).0 ≡ some message =
      decrypt-Reads lib i (next.sessions device.next) 0 cipher reads
      ∙ laws.reads base p.session key message cipher i later own made e in
    (
      next,
      taken_body lib env.glib self device ed_key room sender recipient device_key p.id key index
          sender_key i sends owner new made,
      chat_json lib self (cipher_of lib env self room p message some_text) (some p.id),
      ap (λ (r : Option JsonObject × CmEnc S I O). r.0)
          (encrypt_for_chat_path lib env self room p message some_text),
      (decrypt_by env lib next cipher (some device.next)).1,
      handle_sent lib env self room p message some_text next device.next cipher found held e
          ∙ ap
              (λ (t : Option String).
                some (t, (decrypt_by env lib next cipher (some device.next)).1))
              read,
    )
