-- ===== src/Parser/Tests.antt =====
-- The parser on concrete chunks, and the theorems at inputs that meet their hypotheses.
use nats_deno.Base.{◌≡◌, refl, none, some, List, [], ◌∷◌, Bytes, codes, arith}
use nats_deno.Parser.Args.{
  new_parser, process_msg_args, process_header_msg_args, assign_msg_args, assign_header_args,
  split_args, proto_parse_int,
}
use nats_deno.Parser.Machine.{parse}
use nats_deno.Parser.Stream.{run, feed, new_stream, take_args}
use nats_deno.Parser.Chunks.Refine.{
  parse_all, parse_all-cut, SameResult, Agrees, parse_all-Agrees, joined,
}
use nats_deno.Parser.Frames.{Frame, ping, err, msg, hmsg, event_of}
use nats_deno.Parser.Frames.RoundTrip.{wires, AreFrames, Delivers, parse_all-wires}
use mathlib.Core.List.{map}
use nats_deno.Parser.Events.{AllSound, pushed_by, parse_all-AllSound}

abbrev items : List Frame
items =
    ping
    ∷ msg (codes "a.b") (codes "7") (some (codes "r")) (codes "3") (codes "x\r\n")
    ∷ err (codes "'no'")
    ∷ hmsg (codes "h") (codes "12") none (codes "2") (codes "4") (codes "HHab")
    ∷ []

abbrev whole : List Bytes
whole = wires items ∷ []

-- Cut inside an operation's name, inside arguments, inside a payload and behind a carriage return.
abbrev pieces : List Bytes
pieces =
    codes "PI"
    ∷ codes "NG\r"
    ∷ codes "\nMSG a."
    ∷ codes "b 7 r 3\r"
    ∷ codes "\nx"
    ∷ codes "\r"
    ∷ codes "\n\r\n-ERR 'n"
    ∷ codes "o'\r\nHMSG h 12 2 4\r\nHHab\r\n"
    ∷ []

machine : Unit {0}
unfolding parse_all parse process_msg_args process_header_msg_args assign_msg_args
    assign_header_args split_args proto_parse_int
machine = tt

reader : Unit {0}
unfolding run feed take_args process_msg_args process_header_msg_args assign_msg_args
    assign_header_args split_args proto_parse_int
reader = tt

whole_events : pushed_by (parse_all whole new_parser) ≡ map event_of items
unfolding machine
whole_events = refl

pieces_events : pushed_by (parse_all pieces new_parser) ≡ map event_of items
unfolding machine
pieces_events = refl

parse_all-cut_example : SameResult (parse_all whole new_parser) (parse_all pieces new_parser)
parse_all-cut_example = parse_all-cut whole pieces refl (unfold reader in λ e. cc)

items-AreFrames : AreFrames items
unfolding proto_parse_int
items-AreFrames = (
  tt,
  (
    (7, ground arith, (ground arith, refl), ground arith, (ground arith, refl)),
    (
      ground arith,
      (
        (
          12,
          2,
          ground arith,
          (ground arith, refl),
          tt,
          (ground arith, refl),
          (ground arith, refl),
          omega arith,
        ),
        tt,
      ),
    ),
  ),
)

parse_all-wires_example : Delivers (map event_of items) (parse_all pieces new_parser)
parse_all-wires_example = parse_all-wires items pieces items-AreFrames refl

abbrev broken : List Bytes
broken = codes "MSG a 1 2\r\nhi\r\nMSG a 1\r\n" ∷ []

parse_all-AllSound_example : AllSound (pushed_by (parse_all broken new_parser))
parse_all-AllSound_example = parse_all-AllSound broken

parse_all-Agrees_example : Agrees (run new_stream (joined pieces)) (parse_all pieces new_parser)
parse_all-Agrees_example = parse_all-Agrees pieces
