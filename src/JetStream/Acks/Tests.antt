-- ===== src/JetStream/Acks/Tests.antt =====
-- Runs of acknowledgements and replies.
use nats_deno.Base.{
  ◌≡◌, refl, List, true, false, none, some, [], ◌∷◌, codes, bytes_eq, if◌then◌else◌,
}
use nats_deno.JetStream.Tokens.{has_dot}
use nats_deno.JetStream.Acks.{
  to_js_msg, Call, ack, nak, working, ack_ack, plain, next, calls, parse_info,
}
use nats_deno.JetStream.Acks.Read.{Reply, old_form, new_form, read_reply, parse_info-forms}

sent_once :
    (calls (λ n. []) (λ a. []) (working ∷ nak none ∷ ack ∷ working ∷ []) (to_js_msg true)).sent
    ≡ plain (codes "+WPI") ∷ plain (codes "-NAK") ∷ []
unfolding calls
sent_once = refl

abbrev reply : Reply
reply = record {
  stream = codes "s";
  consumer = codes "c";
  count = codes "2";
  stream_sequence = codes "10";
  delivery_sequence = codes "7";
  time = codes "99";
  pending = codes "0";
}

parse_info-forms_example :
    (parse_info (old_form reply) ≡ some (read_reply [] [] reply))
    × (parse_info (new_form (codes "_") (codes "h") reply (codes "r") [])
        ≡ some (
            read_reply
              (if bytes_eq (codes "_") (codes "_") then [] else codes "_")
              (codes "h")
              reply))
unfolding has_dot
parse_info-forms_example =
    parse_info-forms (codes "_") (codes "h") reply (codes "r") []
      (refl, (refl, (refl, (refl, (refl, (refl, (refl, (refl, (refl, (refl, tt))))))))))

abbrev some_calls : List Call
some_calls = working ∷ nak (some 5) ∷ next (codes "in") none false none ∷ ack_ack ∷ working ∷ []
