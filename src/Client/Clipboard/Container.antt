-- ===== src/Client/Clipboard/Container.antt =====
-- marshalText and unmarshalText of entry/src/main/cpp/protocol/deskflow_client.cpp.
use deskflow_harmonyos.Base.{
  ℕ, zero, suc, ◌+◌, ◌%◌, ◌^◌, List, [], ◌++◌, ltb, ◌==◌, if◌then◌else◌, length, take, drop,
}
use deskflow_harmonyos.Base.Word.{put_u32, be32_of}

-- One format (Text, 0), its size as a uint32_t, and the text.
unfoldable pub marshal_text : List ℕ → List ℕ
marshal_text text = put_u32 1 ++ (put_u32 0 ++ (put_u32 (length text % 2 ^ 32) ++ text))

-- The lambda `rd`: the big-endian number at an offset, 0 past the end.
unfoldable pub read_at : List ℕ → ℕ → ℕ
read_at container off =
    if ltb (length container) (off + 4) then 0 else be32_of (take 4 (drop off container))

-- The loop with `left` formats to look at from `off` on. Offsets are size_t and sizes uint32_t, so
-- the sums do not wrap.
unfoldable pub find_text : List ℕ → ℕ → ℕ → List ℕ
find_text container zero off = []
find_text container (suc left) off =
    let format = read_at container off in
    let size = read_at container (off + 4) in
    let start = off + 8 in
    let rest = find_text container left (start + size) in
    if ltb (length container) (off + 8)
    then []
    else (if ltb (length container) (start + size)
        then []
        else (if format == 0 then take size (drop start container) else rest))

-- unmarshalText: the payload of the first entry of format 0, or the empty string.
unfoldable pub unmarshal_text : List ℕ → List ℕ
unmarshal_text container =
    if ltb (length container) 4 then [] else find_text container (read_at container 0) 4
