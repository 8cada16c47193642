-- ===== src/Olm/State.antt =====
-- How long a session is used (cm_olm_set_state and cm_olm_update_validity of src/cm-olm.c).
use mathlib.Core.Path.{subst}
use mathlib.Core.Option.{some-injective, none-ne-some}
use libcmatrix.Base.{
  ℕ, zero, suc, ◌≡◌, refl, sym, ap, ◌∙◌, ◌+◌, ◌*◌, Bool, true, false, Option, none, some, List, [],
  ◌∷◌, String, leb, if_both, if◌then◌else◌, ◌==◌, ◌||◌,
}
use libcmatrix.Base.Int.{ℤ, pos, negsuc}
use libcmatrix.Olm.{
  Later, Libolm, IsDocumented, CmOlm, CmOlmState, usable, rotated, same_state, state_value,
  set_state, message_index_of, get_message_index, is_outdated, update_validity, out_group_made,
  out_group_from, out_group_new, encrypt, encrypt_with, encrypt_group,
}

-- what changes the state of a session
pub data Change : Type 0 where
  sets : CmOlmState → Change
  updates : ℕ → ℤ → ℕ → Change

module _ {S I O : Type 0} (lib : Libolm S I O) where
  abbrev pub change : Change → CmOlm S I O → CmOlm S I O
  change (sets state) self = set_state self state
  change (updates count duration now) self = update_validity lib self count duration now

  abbrev pub changes : List Change → CmOlm S I O → CmOlm S I O
  changes [] self = self
  changes (c ∷ cs) self = changes cs (change c self)

  set_state_unusable :
      (self : CmOlm S I O) (state : CmOlmState)
      → same_state self.state usable ≡ false
      → set_state self state ≡ self
  unfolding set_state
  set_state_unusable self state h =
      if_both (λ (u : CmOlm S I O). u ≡ self) (same_state state self.state) refl
        (ap (λ (b : Bool). if b then record self { state = state } else self) h)

  change_unusable :
      (c : Change) (self : CmOlm S I O)
      → same_state self.state usable ≡ false
      → change c self ≡ self
  unfolding update_validity
  change_unusable (sets state) self h = set_state_unusable self state h
  change_unusable (updates count (pos (suc d)) now) self h =
      if_both (λ (u : CmOlm S I O). u ≡ self) (count == 0) refl
        (if_both (λ (u : CmOlm S I O). u ≡ self) (is_outdated lib self count (suc d) now)
          (set_state_unusable self rotated h) refl)
  change_unusable (updates count (pos zero) now) self h = refl
  change_unusable (updates count (negsuc n) now) self h = refl

  -- Once a session is not usable, no change of its state has an effect: a rotated or invalidated
  -- session stays what it is.
  pub changes_unusable :
      (cs : List Change) (self : CmOlm S I O)
      → same_state self.state usable ≡ false
      → changes cs self ≡ self
  changes_unusable [] self h = refl
  changes_unusable (c ∷ cs) self h =
      ap (changes cs) (change_unusable c self h) ∙ changes_unusable cs self h

-- `n` messages are encrypted, one after the other
pub data Sends {S I O : Type 0} (lib : Libolm S I O) (self : CmOlm S I O)
    : ℕ → CmOlm S I O → Type 0 where
  no_message : Sends lib self 0 self
  message :
      {n : ℕ} {t u : CmOlm S I O} (text cipher : String)
      → Sends lib self n t
      → encrypt lib t (some text) ≡ (some cipher, u)
      → Sends lib self (suc n) u

module _ {S I O : Type 0} (lib : Libolm S I O) (laws : IsDocumented lib) where
  -- A group session of a time that has sent `n` messages, and whose key is that of the session it
  -- began with.
  abbrev pub HasSent : ℕ → ℕ → CmOlm S I O → Type 0
  HasSent created n self =
      (session : O) × (first : O) × (key : String) × (self.out_gp_session ≡ some session)
      × (self.olm_session ≡ none)
      × (self.session_key ≡ some key)
      × (lib.outbound_key first ≡ some key)
      × Later lib first session
      × (lib.message_index session ≡ n)
      × (self.state ≡ usable)
      × (self.created_time ≡ created)

  out_group_made-HasSent :
      (now : ℕ) (curve_key : Option String) (session : O) (key : Option String) (self : CmOlm S I O)
      → lib.message_index session ≡ 0
      → lib.outbound_key session ≡ key
      → out_group_made lib now curve_key session key ≡ some self
      → HasSent (now * 1000) 0 self
  unfolding out_group_made
  out_group_made-HasSent now curve_key session none self index e h = absurd (none-ne-some self h)
  out_group_made-HasSent now curve_key session (some key) self index e h =
      subst (HasSent (now * 1000) 0) (some-injective _ self h)
        (session, session, key, refl, refl, refl, e, Later.same, index, refl, refl)

  out_group_from-HasSent :
      (random : String) (now : ℕ) (curve_key : Option String) (session : Option O)
      (self : CmOlm S I O)
      → lib.init_outbound random ≡ session
      → out_group_from lib now curve_key session ≡ some self
      → HasSent (now * 1000) 0 self
  unfolding out_group_from
  out_group_from-HasSent random now curve_key none self e h = absurd (none-ne-some self h)
  out_group_from-HasSent random now curve_key (some session) self e h =
      out_group_made-HasSent now curve_key session (lib.outbound_key session) self
        (laws.index-new random session e) refl h

  -- a message that is encrypted
  encrypt-HasSent :
      (created n : ℕ) (t u : CmOlm S I O) (text cipher : String)
      → HasSent created n t
      → encrypt lib t (some text) ≡ (some cipher, u)
      → HasSent created (suc n) u
  unfolding encrypt encrypt_with encrypt_group
  encrypt-HasSent created n t u text cipher
        (session, first, key, out, no_olm, keyed, own, later, index, state, time) h =
      let path = ap (encrypt_with lib t text) no_olm ∙ ap (encrypt_group lib t text) out in
      let made = sym path ∙ h in
      subst (HasSent created (suc n)) (ap (λ r. r.1) made) (
        (lib.group_encrypt session text).1,
        first,
        key,
        refl,
        no_olm,
        keyed,
        own,
        Later.encrypted text later,
        laws.index-encrypt session text cipher (ap (λ r. r.0) made) ∙ ap suc index,
        state,
        time,
      )

  pub Sends-HasSent :
      (random : String) (now : ℕ) (curve_key : Option String) (self : CmOlm S I O) (n : ℕ)
      (u : CmOlm S I O)
      → out_group_new lib random now curve_key ≡ some self
      → Sends lib self n u
      → HasSent (now * 1000) n u
  unfolding out_group_new
  Sends-HasSent random now curve_key self _ _ made no_message =
      out_group_from-HasSent random now curve_key (lib.init_outbound random) self refl made
  Sends-HasSent random now curve_key self _ u made (message {n = n} {t = t} text cipher sent h) =
      encrypt-HasSent (now * 1000) n t u text cipher
        (Sends-HasSent random now curve_key self n t made sent) h

  outdated_at :
      (u : CmOlm S I O) (session : O) (made_at n count duration now : ℕ)
      → u.out_gp_session ≡ some session
      → lib.message_index session ≡ n
      → u.created_time ≡ made_at * 1000
      → is_outdated lib u count (suc duration) now
        ≡ (leb count n || leb (made_at * 1000 + suc duration) (now * 1000))
  unfolding is_outdated get_message_index message_index_of
  outdated_at u session made_at n count duration now out index time =
      ap (λ (i : ℕ). leb count i || leb (u.created_time + suc duration) (now * 1000))
        (ap (message_index_of lib) out ∙ index)
      ∙ ap (λ (t : ℕ). leb count n || leb (t + suc duration) (now * 1000)) time

  set_rotated : (u : CmOlm S I O) → u.state ≡ usable → (set_state u rotated).state ≡ rotated
  unfolding set_state same_state state_value
  set_rotated u h = ap rotated_from h
    where
      rotated_from : CmOlmState → CmOlmState
      rotated_from s =
          (if same_state rotated s
            then u
            else if same_state s usable
            then record u { state = rotated }
            else u).state

  if_state :
      (b : Bool) (x y : CmOlm S I O)
      → x.state ≡ rotated
      → y.state ≡ usable
      → (if b then x else y).state ≡ (if b then rotated else usable)
  if_state true x y h k = h
  if_state false x y h k = k

  -- After a group session has sent `n` messages, cm_olm_update_validity with a count that is not 0 and a
  -- duration that is positive rotates it exactly where `n` has reached the count or the duration has
  -- passed since the session was made.
  pub update_validity-state :
      (random : String) (made_at n count duration now : ℕ) (curve_key : Option String)
      (self u : CmOlm S I O)
      → out_group_new lib random made_at curve_key ≡ some self
      → Sends lib self n u
      → (count == 0) ≡ false
      → (update_validity lib u count (pos (suc duration)) now).state ≡ (
          if leb count n || leb (made_at * 1000 + suc duration) (now * 1000)
          then rotated
          else usable)
  unfolding update_validity
  update_validity-state random made_at n count duration now curve_key self u made sent some_count =
      let (session, _, _, out, _, _, _, _, index, state, time) =
        Sends-HasSent random made_at curve_key self n u made sent in
      let outdated : is_outdated lib u count (suc duration) now
          ≡ (leb count n || leb (made_at * 1000 + suc duration) (now * 1000)) =
        outdated_at u session made_at n count duration now out index time in
      ap
        (λ (b : Bool).
          (if b
            then u
            else if is_outdated lib u count (suc duration) now
            then set_state u rotated
            else u).state)
        some_count
      ∙ if_state (is_outdated lib u count (suc duration) now) (set_state u rotated) u
          (set_rotated u state) state
      ∙ ap (λ (b : Bool). if b then rotated else usable) outdated
