-- ===== src/Bridge/Frame.antt =====
-- The WebSocket frames of bridge.c: the loop of forward_client_to_target, and the frame that
-- forward_target_to_client builds. The received bytes from `buf + processed` on are a list.
pub mod Client
pub mod Stream
pub mod Bounds
use caligo_engine.Base.{
  ℕ, zero, suc, ◌+◌, ◌-◌, ◌*◌, ◌/◌, ◌%◌, ◌^◌, bit_xor, Bool, true, false, List, [], ◌∷◌, ◌++◌,
  length, get_or, take, drop, ltb, leb, ◌==◌, if◌then◌else◌,
}

-- A payload may end behind the buffer although the size test has passed. `overrun` is one with a mask:
-- C then reads and writes out of bounds. `overread` is one without, of which send is given bytes
-- behind the buffer, with its size, cut to 64 bits. `whole` is a frame with its payload, unmasked, and
-- its size.
pub data Parsed : Type 0 where
  incomplete overrun : Parsed
  overread : ℕ → Parsed
  whole : List ℕ → ℕ → Parsed

unfoldable pub header_len : ℕ → ℕ
header_len payload_len = if payload_len == 126 then 4 else (if payload_len == 127 then 10 else 2)

-- (full_payload_len << 8) | frame[2 + k], in 64 bits; the low byte of the shifted value is 0
unfoldable pub shift_in : ℕ → ℕ → ℕ
shift_in full byte = full * 2 ^ 8 % 2 ^ 64 + byte

unfoldable pub shift_all : ℕ → List ℕ → ℕ
shift_all full [] = full
shift_all full (byte ∷ rest) = shift_all (shift_in full byte) rest

unfoldable pub full_payload_len : ℕ → List ℕ → ℕ
full_payload_len payload_len frame =
    if payload_len == 126
    then get_or frame 2 0 * 2 ^ 8 + get_or frame 3 0
    else (if payload_len == 127 then shift_all 0 (take 8 (drop 2 frame)) else payload_len)

-- for (i...) payload[i] ^= masks[i % 4]
unfoldable pub unmask : List ℕ → ℕ → List ℕ → List ℕ
unmask masks i [] = []
unmask masks i (x ∷ payload) = bit_xor x (get_or masks (i % 4) 0) ∷ unmask masks (suc i) payload

-- The payload, with the header and the mask in front of it skipped.
unfoldable pub payload_of : ℕ → ℕ → ℕ → List ℕ → List ℕ
payload_of hl mask_len full frame =
    let payload = take full (drop (hl + mask_len) frame) in
    if mask_len == 0 then payload else unmask (take 4 (drop hl frame)) 0 payload

-- The size test, on a sum that size_t cuts to 64 bits.
unfoldable pub sized : ℕ → ℕ → ℕ → List ℕ → Parsed
sized hl mask_len full frame =
    let total_frame_size = (hl + mask_len + full) % 2 ^ 64 in
    if ltb (length frame) total_frame_size
    then incomplete
    else if ltb (length frame) (hl + mask_len + full)
    then (if mask_len == 0 then overread total_frame_size else overrun)
    else whole (payload_of hl mask_len full frame) total_frame_size

-- One round of the loop, at the bytes that remain. `frame[1] & 0x7F` is the remainder by 128, and
-- `frame[1] & 0x80` is set from 128 on.
unfoldable pub parse_frame : List ℕ → Parsed
parse_frame frame =
    let second = get_or frame 1 0 in
    let payload_len = second % 128 in
    let mask_len = if leb 128 second then 4 else 0 in
    if ltb (length frame) 2
    then incomplete
    else if ltb (length frame) (header_len payload_len)
    then incomplete
    else sized (header_len payload_len) mask_len (full_payload_len payload_len frame) frame

-- How the loop ended, and what it sent to the target, in order.
pub data Stop : Type 0 where
  finished overran out_of_fuel : Stop

pub record Forwarded : Type 0 where
  pub sent : List (List ℕ)
  pub stop : Stop

abbrev pub and_send : List ℕ → Forwarded → Forwarded
and_send payload r = record { sent = payload ∷ r.sent; stop = r.stop }

-- while (processed < n): with nothing left the test `remaining < 2` ends the loop too. What send makes
-- of bytes behind the buffer is left out; with a size cut to 0 the loop stays where it is.
unfoldable pub forward_loop : ℕ → List ℕ → Forwarded
forward_loop zero frame = record { sent = []; stop = out_of_fuel }
forward_loop (suc fuel) frame = elim (parse_frame frame) [
  | incomplete ↦ record { sent = []; stop = finished }
  | overrun ↦ record { sent = []; stop = overran }
  | overread size ↦ forward_loop fuel (drop size frame)
  | whole payload size ↦ and_send payload (forward_loop fuel (drop size frame))
]

-- A round that takes no byte never ends, and any other takes one at least, so a round for each byte is
-- enough.
unfoldable pub forward_frames : List ℕ → Forwarded
forward_frames buf = forward_loop (suc (length buf)) buf

-- The frame of forward_target_to_client. Its last branch leaves the length bytes as they stand on
-- the stack; `recv` returns at most 8182 bytes, so it is not reached.
unfoldable pub server_frame : List ℕ → List ℕ → List ℕ
server_frame stack buf =
    let n = length buf in
    if leb n 125
    then 0x81 ∷ n ∷ buf
    else if leb n 65535
    then 0x81 ∷ 126 ∷ n / 2 ^ 8 % 256 ∷ n % 256 ∷ buf
    else 0x81 ∷ 127 ∷ take 8 stack ++ buf
