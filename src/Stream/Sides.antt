-- ===== src/Stream/Sides.antt =====
-- Writing leaves the reading side of a stream as it is.
use deskflow_harmonyos.Base.{
  ℕ, ◌≡◌, refl, sym, ◌∙◌, Bool, true, false, List, if_both, ltb, is_empty, length,
}
use deskflow_harmonyos.Base.Word.{put_u32}
use mathlib.Core.Path.{subst}
use deskflow_harmonyos.Stream.Write.{write_frame_calls}
use deskflow_harmonyos.Stream.{RecvEvent, Stream, send_loop, write_all, write_frame, max_frame}

-- All that reading depends on, and the stop request.
abbrev pub reading_side : Stream → Bool × List ℕ × ℕ × List RecvEvent × Bool
reading_side s = (s.connected, s.buffer, s.buffer_pos, s.incoming, s.stop_requested)

record Reads (side : Bool × List ℕ × ℕ × List RecvEvent × Bool) (r : Bool × Stream) : Type 0 where
  same : reading_side r.1 ≡ side

write_all-Reads : (bytes : List ℕ) (s : Stream) → Reads (reading_side s) (write_all bytes s)
unfolding write_all
write_all-Reads bytes s =
    let R = Reads (reading_side s) in
    let r = send_loop s.outgoing bytes s.sent in
    let went : Bool × Stream = (r.complete, record s { outgoing = r.left; sent = r.taken }) in
    if_both R (is_empty bytes) {x = (true, s)} (record { same = refl })
      (if_both R s.connected {x = went} {y = (false, s)} (record { same = refl })
        (record { same = refl }))

write_frame-Reads : (bytes : List ℕ) (s : Stream) → Reads (reading_side s) (write_frame bytes s)
write_frame-Reads bytes s =
    let R = Reads (reading_side s) in
    let field = write_all-Reads (put_u32 (length bytes)) s in
    let s1 = (write_all (put_u32 (length bytes)) s).1 in
    subst R (sym (write_frame_calls bytes s)) (
      if_both R (ltb max_frame (length bytes)) {x = (false, s)} (record { same = refl })
        (if_both R (write_all (put_u32 (length bytes)) s).0 {y = (false, s1)}
          (if_both R (is_empty bytes) {x = (true, s1)} (record { same = field.same })
            (record { same = (write_all-Reads bytes s1).same ∙ field.same }))
          (record { same = field.same })))

pub write_frame-reading_side :
    (bytes : List ℕ) (s : Stream) → reading_side (write_frame bytes s).1 ≡ reading_side s
write_frame-reading_side bytes s = (write_frame-Reads bytes s).same
