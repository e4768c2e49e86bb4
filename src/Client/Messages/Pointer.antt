-- ===== src/Client/Messages/Pointer.antt =====
-- DMRM of handleMessage (entry/src/main/cpp/protocol/deskflow_client.cpp): where the pointer goes.
use deskflow_harmonyos.Base.{
  ◌≡◌, refl, sym, List, [], ◌∷◌, arith, ℤ, pos, negsuc, ◌+ℤ◌, ◌-ℤ◌, ◌≤ℤ◌, -ℤ_parts,
}
use mathlib.Core.Path.{subst}
use deskflow_harmonyos.Client.{InputEvent, Client, Reply, no_event, returned, inject, inject_with}
use deskflow_harmonyos.Client.Input.{inject_mouse_move}
use deskflow_harmonyos.Client.Messages.{move_pointer, clamp_to_screen, on_rel_move}

inject_with-pointer :
    (rs : List Reply) (ev : InputEvent) (c : Client)
    → ((inject_with rs ev c).1.pointer_x ≡ c.pointer_x)
      × ((inject_with rs ev c).1.pointer_y ≡ c.pointer_y)
unfolding inject
inject_with-pointer [] ev c = (refl, refl)
inject_with-pointer (no_event ∷ rs) ev c = (refl, refl)
inject_with-pointer (returned code ∷ rs) ev c = (refl, refl)

move_pointer-pointer :
    (x y : ℤ) (c : Client)
    → ((move_pointer x y c).pointer_x ≡ x) × ((move_pointer x y c).pointer_y ≡ y)
unfolding move_pointer inject_mouse_move inject
move_pointer-pointer x y c =
    inject_with-pointer c.replies _ (record c { pointer_x = x; pointer_y = y })

-- A coordinate in [0, extent - 1].
abbrev pub Inside : ℤ → ℤ → Type 0
Inside extent x = (pos 0 ≤ℤ x) × (x ≤ℤ extent -ℤ pos 1)

-- A coordinate after a relative move: on the screen, and exactly the sum where that is on the
-- screen; past an edge, at the edge.
pub record Moved (extent old delta new : ℤ) : Type 0 where
  pub inside : Inside extent new
  pub exact : Inside extent (old +ℤ delta) → new ≡ old +ℤ delta
  pub low : (old +ℤ delta) ≤ℤ negsuc 0 → new ≡ pos 0
  pub high : extent ≤ℤ (old +ℤ delta) → new ≡ extent -ℤ pos 1

clamp_to_screen-Moved :
    (extent old delta : ℤ)
    → pos 1 ≤ℤ extent
    → Moved extent old delta (clamp_to_screen extent (old +ℤ delta))
clamp_to_screen-Moved extent old delta h = record {
  inside = ground (arith, -ℤ_parts extent (pos 1));
  exact = λ k. ground (arith, -ℤ_parts extent (pos 1), k);
  low = λ k. ground (arith, k);
  high = λ k. ground (arith, k);
}

-- On a screen of at least 1 x 1 pixels DMRM moves each coordinate of the pointer by the delta where
-- the sum is on the screen, and otherwise to the edge that the sum is past: to 0 below it, to the
-- extent less one from the extent on. So the pointer stays on the screen.
pub on_rel_move-Moved :
    (dx dy : ℤ) (c : Client)
    → pos 1 ≤ℤ c.screen_w
    → pos 1 ≤ℤ c.screen_h
    → Moved c.screen_w c.pointer_x dx (on_rel_move dx dy c).pointer_x
      × Moved c.screen_h c.pointer_y dy (on_rel_move dx dy c).pointer_y
unfolding on_rel_move
on_rel_move-Moved dx dy c w h =
    let (px, py) = move_pointer-pointer _ _ c in
    (
      subst (Moved c.screen_w c.pointer_x dx) (sym px)
          (clamp_to_screen-Moved c.screen_w c.pointer_x dx w),
      subst (Moved c.screen_h c.pointer_y dy) (sym py)
          (clamp_to_screen-Moved c.screen_h c.pointer_y dy h),
    )
