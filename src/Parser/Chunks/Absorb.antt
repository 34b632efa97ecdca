-- ===== src/Parser/Chunks/Absorb.antt =====
-- The bytes of a payload, several at a time.
use mathlib.Core.List.{append-nil, append_assoc}
use nats_deno.Base.{◌+◌, ◌≤◌, ◌≡◌, [], ◌∷◌, ◌++◌, Bytes, length, length-append, arith}
use nats_deno.Parser.Args.{msg_payload}
use nats_deno.Parser.Stream.{Stream, feed, run, wanted}

abbrev pub filled : Stream → Bytes → Stream
filled s acc = record s { state = msg_payload; acc = acc }

pub run-filled :
    (s : Stream) (acc xs rest : Bytes)
    → length acc + length xs ≤ wanted s.ma
    → run (filled s acc) (xs ++ rest) ≡ run (filled s (acc ++ xs)) rest
unfolding run feed
run-filled s acc [] rest h = rw append-nil
run-filled s acc (x ∷ xs) rest h = ground (
  arith,
  run-filled s (acc ++ x ∷ []) xs rest,
  length-append acc (x ∷ []),
  append_assoc acc (x ∷ []) xs,
)
