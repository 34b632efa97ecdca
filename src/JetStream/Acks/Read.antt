-- ===== src/JetStream/Acks/Read.antt =====
-- The reply subjects of both forms are read.
use nats_deno.Base.{
  ◌≡◌, refl, ap, ◌∙◌, false, none, some, List, [], ◌∷◌, Bytes, codes, bytes_eq, ltb, if◌then◌else◌,
  arith,
}
use nats_deno.JetStream.Tokens.{join_dots, AreTokens, has_dot, split_dots-join_dots}
use nats_deno.JetStream.Acks.{DeliveryInfo, parse_int, widen, read_tokens, parse_info}

-- What the server writes behind `$JS.ACK`: the stream, the consumer and the five numbers, in decimal.
pub record Reply : Type 0 where
  pub stream : Bytes
  pub consumer : Bytes
  pub count : Bytes
  pub stream_sequence : Bytes
  pub delivery_sequence : Bytes
  pub time : Bytes
  pub pending : Bytes

abbrev pub tail : Reply → List Bytes → List Bytes
tail r more =
    r.stream ∷ r.consumer ∷ r.count ∷ r.stream_sequence ∷ r.delivery_sequence ∷ r.time ∷ r.pending
    ∷ more

-- The old form, and the new one with a domain, an account hash and more tokens at the end.
abbrev pub old_form : Reply → Bytes
old_form r = join_dots (codes "$JS" ∷ codes "ACK" ∷ tail r [])

abbrev pub new_form : Bytes → Bytes → Reply → Bytes → List Bytes → Bytes
new_form domain account r random more =
    join_dots (codes "$JS" ∷ codes "ACK" ∷ domain ∷ account ∷ tail r (random ∷ more))

abbrev pub read_reply : Bytes → Bytes → Reply → DeliveryInfo
read_reply domain account r = record {
  domain = domain;
  account_hash = account;
  stream = r.stream;
  consumer = r.consumer;
  delivery_count = parse_int r.count;
  redelivery_count = parse_int r.count;
  redelivered = elim (parse_int r.count) [ none ↦ false | some n ↦ ltb 1 n ];
  stream_sequence = parse_int r.stream_sequence;
  delivery_sequence = parse_int r.delivery_sequence;
  timestamp_nanos = parse_int r.time;
  pending = parse_int r.pending;
}

-- For tokens without a dot: a reply of the old form reads as its fields with no domain and no account, one
-- of the new form with its own, where the domain `_` is none; what stands behind the fields is not read.
pub parse_info-forms :
    (domain account : Bytes) (r : Reply) (random : Bytes) (more : List Bytes)
    → AreTokens (domain ∷ account ∷ tail r (random ∷ more))
    → (parse_info (old_form r) ≡ some (read_reply [] [] r))
      × (parse_info (new_form domain account r random more)
          ≡ some (read_reply (if bytes_eq domain (codes "_") then [] else domain) account r))
unfolding parse_info widen read_tokens bytes_eq
parse_info-forms domain account r random more
      (hd, (ha, (h1, (h2, (h3, (h4, (h5, (h6, (h7, hs))))))))) =
    (
      ap (λ (ts : List Bytes). read_tokens (widen ts))
          (split_dots-join_dots (codes "$JS") (codes "ACK" ∷ tail r [])
            (unfold has_dot in (refl, (refl, (h1, (h2, (h3, (h4, (h5, (h6, (h7, tt))))))))))),
      ap (λ (ts : List Bytes). read_tokens (widen ts))
            (split_dots-join_dots (codes "$JS")
              (codes "ACK" ∷ domain ∷ account ∷ tail r (random ∷ more))
              (unfold has_dot in
                (refl, (refl, (hd, (ha, (h1, (h2, (h3, (h4, (h5, (h6, (h7, hs)))))))))))))
          ∙ ground arith,
    )
