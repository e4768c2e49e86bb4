-- ===== src/Client/Messages/KeyStates.antt =====
-- DKDN, DKRP, DKDL and DKUP of handleMessage: what they leave in the key states.
use deskflow_harmonyos.Base.{
  ℕ, ◌≡◌, ◌≢◌, ◌<◌, ◌^◌, ap, ◌∙◌, true, false, All, arith, if◌then◌else◌, ℤ, if_true, ◌⊎◌,
}
use deskflow_harmonyos.Base.Word.{to_i16, to_u32}
use deskflow_harmonyos.Client.{Client}
use deskflow_harmonyos.Client.Modifiers.{
  mod_bits, mask_modifier_keysym, has_bit, set_key, change_key, sync_modifiers,
}
use deskflow_harmonyos.Client.Modifiers.Sync.{
  change_key-keys_down, wanted, sync_modifiers-wanted, sync_modifiers_settled,
}
use deskflow_harmonyos.Client.Messages.{on_key_down, on_key_up}

-- After a key-down message the key it names is down; every other key is as the message's modifier
-- mask asks of it: a modifier key by its bit, any other key as before.
pub on_key_down-wanted :
    (id mask : ℤ) (c : Client) (j : ℕ)
    → (on_key_down id mask c).keys_down j
      ≡ set_key (to_u32 id) true (wanted (to_u32 mask) c.keys_down) j
unfolding on_key_down
on_key_down-wanted id mask c j =
    let synced = sync_modifiers (to_u32 mask) c in
    ground (
      arith,
      change_key-keys_down (to_u32 id) true synced j,
      sync_modifiers-wanted (to_u32 mask) c j,
      sync_modifiers-wanted (to_u32 mask) c (to_u32 id),
    )

-- After a key-up message the key it names is up; every other key is as the message's modifier mask
-- asks of it.
pub on_key_up-wanted :
    (id mask : ℤ) (c : Client) (j : ℕ)
    → (on_key_up id mask c).keys_down j
      ≡ set_key (to_u32 id) false (wanted (to_u32 mask) c.keys_down) j
unfolding on_key_up
on_key_up-wanted id mask c j =
    let synced = sync_modifiers (to_u32 mask) c in
    ground (
      arith,
      change_key-keys_down (to_u32 id) false synced j,
      sync_modifiers-wanted (to_u32 mask) c j,
      sync_modifiers-wanted (to_u32 mask) c (to_u32 id),
    )

-- The key that a 16-bit wire identifier is stored under.
abbrev pub stored_key : ℕ → ℕ
stored_key w = to_u32 (to_i16 w)

-- No wire identifier is stored under one of the six keys that syncModifiers looks at: those lie
-- from 0x8000 on, where the identifier's sign is extended.
pub stored_key-modifier :
    (w bit : ℕ)
    → w < 2 ^ 16
    → (mask_modifier_keysym bit ≢ stored_key w) ⊎ (mask_modifier_keysym bit ≡ 0)
unfolding mask_modifier_keysym
stored_key-modifier w bit h = ground arith

-- A key-down message from the wire leaves the state of all six modifier keys to the message's mask, also
-- when the message itself names a modifier key.
pub on_key_down-modifier :
    (w : ℕ) (mask : ℤ) (c : Client) (bit : ℕ)
    → w < 2 ^ 16
    → mask_modifier_keysym bit ≢ 0
    → (on_key_down (to_i16 w) mask c).keys_down (mask_modifier_keysym bit)
      ≡ wanted (to_u32 mask) c.keys_down (mask_modifier_keysym bit)
on_key_down-modifier w mask c bit h k = ground (
  arith,
  on_key_down-wanted (to_i16 w) mask c (mask_modifier_keysym bit),
  stored_key-modifier w bit h,
)

on_key_down_settled :
    (w : ℕ) (mask : ℤ) (c : Client)
    → All (λ bit. c.keys_down (mask_modifier_keysym bit) ≡ has_bit (to_u32 mask) bit) mod_bits
    → c.keys_down (stored_key w) ≡ true
    → on_key_down (to_i16 w) mask c ≡ c
unfolding on_key_down
on_key_down_settled w mask c bits held =
    ap (λ c'. if c'.keys_down (stored_key w) then c' else change_key (stored_key w) true c')
      (sync_modifiers_settled (to_u32 mask) c bits)
    ∙ if_true (c.keys_down (stored_key w)) c _ held

bits_settled :
    (w : ℕ) (mask : ℤ) (c : Client)
    → w < 2 ^ 16
    → All
        (λ bit.
          (on_key_down (to_i16 w) mask c).keys_down (mask_modifier_keysym bit)
          ≡ has_bit (to_u32 mask) bit)
        mod_bits
unfolding mask_modifier_keysym
bits_settled w mask c h =
    let m = λ (bit : ℕ) (k : mask_modifier_keysym bit ≢ 0). on_key_down-modifier w mask c bit h k in
    (
      m 0x01 (omega arith),
      (
        m 0x02 (omega arith),
        (
          m 0x04 (omega arith),
          (m 0x08 (omega arith), (m 0x10 (omega arith), (m 0x20 (omega arith), tt))),
        ),
      ),
    )

-- A key-down message that comes again, as it does while the key is held, does nothing more: no
-- event, no change of state.
pub on_key_down_twice :
    (w : ℕ) (mask : ℤ) (c : Client)
    → w < 2 ^ 16
    → on_key_down (to_i16 w) mask (on_key_down (to_i16 w) mask c) ≡ on_key_down (to_i16 w) mask c
on_key_down_twice w mask c h =
    let c' = on_key_down (to_i16 w) mask c in
    let held = on_key_down-wanted (to_i16 w) mask c (stored_key w) in
    on_key_down_settled w mask c' (bits_settled w mask c h) (held ∙ ground arith)
