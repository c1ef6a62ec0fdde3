-- ===== src/Examples/Radio.antt =====
-- Concrete inputs for the radio server.
use caligo_engine.Base.{ℕ, ◌≡◌, true, some, List, [], ◌∷◌, ◌++◌, arith}
use caligo_engine.Base.Hex.{hex, hex_loop, hex_char}
use caligo_engine.Radio.{took, chunk_header, send_chunk}
use caligo_engine.Radio.Chunks.{unframe, unframe-send_chunk}
use caligo_engine.Radio.{RingBuffer}
use caligo_engine.Radio.Main.{
  Station, start, accept_client, accept_loop, unwatch, request, ended, on_client,
}
use caligo_engine.Radio.Main.Count.{one_if, count}
use caligo_engine.Radio.Main.Kept.{held, accepted_in, Reaches, starts, accepts, hears, Reaches-held}

abbrev song : List ℕ
song = 255 ∷ 251 ∷ 144 ∷ []

unframe-send_chunk_example :
    unframe ((send_chunk (took 9, took 3, took 2) (chunk_header 3) song).0 ++ 49 ∷ [])
    ≡ some (song, 49 ∷ [])
unframe-send_chunk_example =
    unframe-send_chunk 9 3 2 song (49 ∷ [])
      (unfold chunk_header hex hex_loop hex_char in omega arith) (omega arith) (omega arith)
      (omega arith)

-- Two clients are accepted, the first asks for the stream, and the second hangs up.
abbrev silence : RingBuffer
silence = record { buffers = []; sizes = []; write_index = 0 }

abbrev two : Station
two = accept_loop ((7, true) ∷ (8, true) ∷ []) (start silence)

abbrev one_listens : Station
one_listens = on_client request true true 7 two

abbrev one_left : Station
one_left = on_client ended true true 8 one_listens

one_left-Reaches : Reaches (8 ∷ 7 ∷ []) one_left
unfolding accept_loop accept_client accepted_in on_client unwatch count one_if
one_left-Reaches = hears ended true true 8 (omega arith) (
    hears request true true 7 (omega arith) (accepts ((7, true) ∷ (8, true) ∷ []) (starts silence)))

Reaches-held_example : held 7 one_left ≡ count 7 (8 ∷ 7 ∷ [])
Reaches-held_example = Reaches-held (8 ∷ 7 ∷ []) one_left 7 one_left-Reaches
