-- ===== src/Stream/Tests.antt =====
-- Concrete streams through reads, writes and frames.
use deskflow_harmonyos.Base.{◌≡◌, refl, true, false, some, [], ◌∷◌, ◌++◌, arith, take, drop, codes}
use deskflow_harmonyos.Base.Word.{put_u32}
use deskflow_harmonyos.Stream.{
  Stream, arrived, interrupted, ended, accepts, send_interrupted, read_exact, read_frame, write_all,
  write_frame, write_step, has_written, send_loop,
}
use deskflow_harmonyos.Stream.Read.{pending, Reads, read_exact-Reads}
use deskflow_harmonyos.Stream.Write.{frame}
use deskflow_harmonyos.Stream.Frame.{read_frame-write_frame}
use deskflow_harmonyos.Stream.Torn.{take_turn, take_turns, tearing, calling, read_frame-torn}

-- One byte in the buffer behind one that is used up, then two pieces from the socket.
abbrev reading : Stream
reading = record {
  connected = true;
  buffer = 9 ∷ 0 ∷ [];
  buffer_pos = 1;
  incoming = arrived 0 (0 ∷ []) ∷ interrupted ∷ arrived 2 (7 ∷ 8 ∷ 5 ∷ []) ∷ ended ∷ [];
  outgoing = [];
  sent = [];
  stop_requested = false;
}

-- A socket that takes three bytes, is interrupted, then takes the rest.
abbrev writing : Stream
writing = record {
  connected = true;
  buffer = [];
  buffer_pos = 0;
  incoming = [];
  outgoing = accepts 3 ∷ send_interrupted ∷ [];
  sent = [];
  stop_requested = false;
}

read_exact-Reads_example : Reads 4 reading (read_exact 4 reading)
read_exact-Reads_example = read_exact-Reads 4 reading refl (omega arith)

read_frame-write_frame_example :
    ((read_frame reading).0 ≡ some (7 ∷ 8 ∷ [])) × (pending (read_frame reading).1 ≡ 5 ∷ [])
unfolding put_u32 write_frame write_all send_loop
read_frame-write_frame_example =
    read_frame-write_frame (7 ∷ 8 ∷ []) (5 ∷ []) writing reading refl refl refl

-- A CNOP of the worker, cut by a frame of two bytes of the script's thread.
abbrev sending : Stream
sending = record writing { outgoing = [] }

abbrev other_end : Stream
other_end = record reading {
  buffer = [];
  buffer_pos = 0;
  incoming = arrived 0 (0 ∷ 0 ∷ 4 ∷ 0 ∷ 0 ∷ 0 ∷ 2 ∷ 1 ∷ 2 ∷ codes "CNOP") ∷ [];
}

read_frame-torn_example :
    (has_written (take_turns tearing (calling (codes "CNOP") (1 ∷ 2 ∷ []) sending)).worker ≡ true)
    × (has_written (take_turns tearing (calling (codes "CNOP") (1 ∷ 2 ∷ []) sending)).script ≡ true)
    × ((read_frame other_end).0 ≡ some (take 4 (frame (1 ∷ 2 ∷ []))))
    × (pending (read_frame other_end).1 ≡ drop 4 (frame (1 ∷ 2 ∷ [])) ++ (codes "CNOP" ++ []))
unfolding put_u32 take_turns take_turn write_step write_all send_loop
read_frame-torn_example =
    read_frame-torn (codes "CNOP") (1 ∷ 2 ∷ []) [] sending other_end refl refl (omega arith)
      (omega arith) (omega arith) refl refl
