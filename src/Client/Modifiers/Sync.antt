-- ===== src/Client/Modifiers/Sync.antt =====
-- What syncModifiers leaves in the key states.
use deskflow_harmonyos.Base.{
  ℕ, ◌≡◌, ◌≢◌, refl, ap, ◌∙◌, Bool, true, false, Option, none, some, List, [], ◌∷◌, arith, ◌==◌,
  if◌then◌else◌, All,
}
use deskflow_harmonyos.Keys.{KeyCode, keysym_to_keycode}
use deskflow_harmonyos.Keys.Codes.{
  key_none, key_shift_l, key_control_l, key_alt_l, key_meta_l, key_super_l, key_alt_r,
}
use deskflow_harmonyos.Client.{
  Client, InputEvent, key, Reply, no_event, returned, inject, inject_with,
}
use deskflow_harmonyos.Client.Input.{inject_code, inject_key_event}
use deskflow_harmonyos.Client.Modifiers.{
  mod_bits, mask_modifier_keysym, has_bit, set_key, change_key, sync_key, sync_bits, sync_modifiers,
}

inject_with-keys_down :
    (rs : List Reply) (ev : InputEvent) (c : Client)
    → (inject_with rs ev c).1.keys_down ≡ c.keys_down
unfolding inject
inject_with-keys_down [] ev c = refl
inject_with-keys_down (no_event ∷ rs) ev c = refl
inject_with-keys_down (returned code ∷ rs) ev c = refl

inject_code-keys_down :
    (code : Option KeyCode) (down : Bool) (c : Client)
    → (inject_code code down c).1.keys_down ≡ c.keys_down
unfolding inject_code inject
inject_code-keys_down none down c = refl
inject_code-keys_down (some k) down c = inject_with-keys_down c.replies (key down k) c

pub inject_key_event-keys_down :
    (k : ℕ) (down : Bool) (c : Client) → (inject_key_event k down c).1.keys_down ≡ c.keys_down
unfolding inject_key_event
inject_key_event-keys_down k down c = inject_code-keys_down (keysym_to_keycode k) down c

-- Whatever becomes of the injection, the key's state is the one asked for.
pub change_key-keys_down :
    (k : ℕ) (down : Bool) (c : Client) (j : ℕ)
    → (change_key k down c).keys_down j ≡ set_key k down c.keys_down j
unfolding change_key
change_key-keys_down k down c j =
    ap (λ keys. set_key k down keys j) (inject_key_event-keys_down k down c)

sync_key-keys_down :
    (want : Bool) (k : ℕ) (c : Client) (j : ℕ)
    → k ≢ key_none
    → (sync_key want k c).keys_down j ≡ set_key k want c.keys_down j
unfolding sync_key
sync_key-keys_down want k c j h =
    ground (arith, change_key-keys_down k true c j, change_key-keys_down k false c j)

-- The state of key `j` after the loop over `bits`.
abbrev assigned : List ℕ → ℕ → Bool → ℕ → Bool
assigned [] mask old j = old
assigned (bit ∷ bits) mask old j =
    assigned bits mask (if j == mask_modifier_keysym bit then has_bit mask bit else old) j

sync_bits-assigned :
    (bits : List ℕ) (mask : ℕ) (c : Client) (j : ℕ)
    → All (λ bit. mask_modifier_keysym bit ≢ key_none) bits
    → (sync_bits bits mask c).keys_down j ≡ assigned bits mask (c.keys_down j) j
unfolding sync_bits
sync_bits-assigned [] mask c j h = refl
sync_bits-assigned (bit ∷ bits) mask c j (h, t) =
    sync_bits-assigned bits mask _ j t
    ∙ ap (λ old. assigned bits mask old j) (sync_key-keys_down (has_bit mask bit) _ c j h)

mod_bits-ne-none : All (λ bit. mask_modifier_keysym bit ≢ key_none) mod_bits
unfolding mask_modifier_keysym
mod_bits-ne-none = omega arith

-- The state that a mask asks of a key: the mask's bit for the six modifier keys, and for any other
-- key the state that it had.
abbrev pub wanted : ℕ → (ℕ → Bool) → ℕ → Bool
wanted mask keys j =
    if j == key_shift_l
    then has_bit mask 0x01
    else (if j == key_control_l
        then has_bit mask 0x02
        else (if j == key_alt_l
            then has_bit mask 0x04
            else (if j == key_meta_l
                then has_bit mask 0x08
                else (if j == key_super_l
                    then has_bit mask 0x10
                    else (if j == key_alt_r then has_bit mask 0x20 else keys j)))))

assigned-wanted :
    (mask : ℕ) (keys : ℕ → Bool) (j : ℕ) → assigned mod_bits mask (keys j) j ≡ wanted mask keys j
unfolding mask_modifier_keysym
assigned-wanted mask keys j = ground arith

-- After syncModifiers each of the six modifier keys is down exactly if its bit of the mask is set,
-- and every other key is as it was, whatever the platform answers to the injections.
pub sync_modifiers-wanted :
    (mask : ℕ) (c : Client) (j : ℕ)
    → (sync_modifiers mask c).keys_down j ≡ wanted mask c.keys_down j
unfolding sync_modifiers
sync_modifiers-wanted mask c j =
    sync_bits-assigned mod_bits mask c j mod_bits-ne-none ∙ assigned-wanted mask c.keys_down j

sync_key_settled : (want : Bool) (k : ℕ) (c : Client) → c.keys_down k ≡ want → sync_key want k c ≡ c
unfolding sync_key
sync_key_settled true k c h = rw h (ground arith)
sync_key_settled false k c h = rw h (ground arith)

sync_bits_settled :
    (bits : List ℕ) (mask : ℕ) (c : Client)
    → All (λ bit. c.keys_down (mask_modifier_keysym bit) ≡ has_bit mask bit) bits
    → sync_bits bits mask c ≡ c
unfolding sync_bits
sync_bits_settled [] mask c h = refl
sync_bits_settled (bit ∷ bits) mask c (h, t) =
    ap (sync_bits bits mask) (sync_key_settled _ _ c h) ∙ sync_bits_settled bits mask c t

-- Nothing is to be done where the six modifier keys are as the mask asks.
pub sync_modifiers_settled :
    (mask : ℕ) (c : Client)
    → All (λ bit. c.keys_down (mask_modifier_keysym bit) ≡ has_bit mask bit) mod_bits
    → sync_modifiers mask c ≡ c
unfolding sync_modifiers
sync_modifiers_settled mask c h = sync_bits_settled mod_bits mask c h

-- A second syncModifiers with the same mask does nothing at all: no event, no change of state.
pub sync_modifiers_twice :
    (mask : ℕ) (c : Client) → sync_modifiers mask (sync_modifiers mask c) ≡ sync_modifiers mask c
unfolding mask_modifier_keysym
sync_modifiers_twice mask c =
    let w = sync_modifiers-wanted mask c in
    sync_modifiers_settled mask (sync_modifiers mask c) (
      w key_shift_l,
      (w key_control_l, (w key_alt_l, (w key_meta_l, (w key_super_l, (w key_alt_r, tt))))),
    )
