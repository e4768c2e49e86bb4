-- ===== src/Client/Modifiers.antt =====
-- maskModifierKeysym and syncModifiers of entry/src/main/cpp/protocol/deskflow_client.cpp.
pub mod Sync
use deskflow_harmonyos.Base.{
  ℕ, ◌/◌, ◌%◌, Bool, true, false, ◌&&◌, not, List, [], ◌∷◌, ◌==◌, if◌then◌else◌,
}
use deskflow_harmonyos.Keys.Codes.{
  key_none, key_shift_l, key_control_l, key_alt_l, key_meta_l, key_super_l, key_alt_r,
}
use deskflow_harmonyos.Client.{Client}
use deskflow_harmonyos.Client.Input.{inject_key_event}

-- kKeyModifierShift, Control, Alt, Meta, Super and AltGr.
abbrev pub mod_bits : List ℕ
mod_bits = 0x01 ∷ 0x02 ∷ 0x04 ∷ 0x08 ∷ 0x10 ∷ 0x20 ∷ []

unfoldable pub mask_modifier_keysym : ℕ → ℕ
mask_modifier_keysym bit =
    if bit == 0x01
    then key_shift_l
    else (if bit == 0x02
        then key_control_l
        else (if bit == 0x04
            then key_alt_l
            else (if bit == 0x08
                then key_meta_l
                else (if bit == 0x10
                    then key_super_l
                    else (if bit == 0x20 then key_alt_r else key_none)))))

-- `(mask & bit) != 0`, for a bit that is a power of two.
abbrev pub has_bit : ℕ → ℕ → Bool
has_bit mask bit = mask / bit % 2 == 1

-- m_keyStates[k] = down
abbrev pub set_key : ℕ → Bool → (ℕ → Bool) → ℕ → Bool
set_key k down keys j = if j == k then down else keys j

-- injectKeyEvent(k, down), then m_keyStates[k] = down; the result of the injection is not used.
unfoldable pub change_key : ℕ → Bool → Client → Client
change_key k down c =
    let c' = (inject_key_event k down c).1 in record c' { keys_down = set_key k down c'.keys_down }

-- The loop's body for one modifier key.
unfoldable pub sync_key : Bool → ℕ → Client → Client
unfolding change_key
sync_key want k c =
    if k == key_none
    then c
    else (if want && not (c.keys_down k)
        then change_key k true c
        else (if not want && c.keys_down k then change_key k false c else c))

unfoldable pub sync_bits : List ℕ → ℕ → Client → Client
sync_bits [] mask c = c
sync_bits (bit ∷ bits) mask c =
    sync_bits bits mask (sync_key (has_bit mask bit) (mask_modifier_keysym bit) c)

unfoldable pub sync_modifiers : ℕ → Client → Client
unfolding sync_bits
sync_modifiers mask c = sync_bits mod_bits mask c
