-- ===== src/JetStream/Keys/Codec.antt =====
-- A key comes back from the subject it is stored under.
use nats_deno.Base.{
  suc, ◌<◌, ◌≡◌, refl, ap, ◌∙◌, Bool, false, ◌||◌, List, [], ◌∷◌, ◌++◌, Bytes, length, drop,
  if◌then◌else◌, arith, if-elim, Bool-cases, inl, inr,
}
use nats_deno.JetStream.Tokens.{
  split_dots, join_dots, has_dot, AreTokens, split_dots-join_dots, join_dots-split_dots,
  split-AreTokens, split-some,
}
use nats_deno.JetStream.Keys.{
  Prefixes, subject_for_key, key_part, KeyCodec, by_token, encode_key, decode_key, is_full, is_star,
}

abbrev pub is_wild : Bytes → Bool
is_wild t = is_full t || is_star t

module _ (codec : KeyCodec) (decodes : (t : Bytes) → codec.decode (codec.encode t) ≡ t)
    (plain : (t : Bytes) → has_dot t ≡ false → has_dot (codec.encode t) ≡ false)
    (tame : (t : Bytes) → is_wild t ≡ false → is_wild (codec.encode t) ≡ false) where
  by_token-by_token :
      (ts : List Bytes) → by_token codec codec.decode (by_token codec codec.encode ts) ≡ ts
  by_token-by_token [] = refl
  by_token-by_token (t ∷ ts) = elim (Bool-cases (is_wild t)) [
    | inl wild ↦ ground (arith, wild, by_token-by_token ts)
    | inr not_wild ↦ ground (arith, not_wild, by_token-by_token ts, decodes t, tame t not_wild)
  ]

  by_token-AreTokens : (ts : List Bytes) → AreTokens ts → AreTokens (by_token codec codec.encode ts)
  by_token-AreTokens [] a = a
  by_token-AreTokens (t ∷ ts) (h, a) = (
    if-elim (λ (x : Bytes). has_dot x ≡ false) (is_wild t) t (codec.encode t) (λ _. h)
        (λ _. plain t h),
    by_token-AreTokens ts a,
  )

  -- For a codec that reads what it writes, writes no dot for a token, and no wildcard for a token that is
  -- none: `decodeKey` gives back every key that `encodeKey` wrote.
  pub decode_key-encode_key : (k : Bytes) → decode_key codec (encode_key codec k) ≡ k
  unfolding decode_key encode_key
  decode_key-encode_key k =
      ap (λ (ts : List Bytes). join_dots (by_token codec codec.decode ts))
        (again (split_dots k) (split-some k) (split-AreTokens k))
      ∙ ap join_dots (by_token-by_token (split_dots k))
      ∙ join_dots-split_dots k
    where
      again :
          (ts : List Bytes)
          → 0 < length ts
          → AreTokens ts
          → split_dots (join_dots (by_token codec codec.encode ts)) ≡ by_token codec codec.encode ts
      again [] l a = absurd (omega arith)
      again (t ∷ ts) l a =
          split_dots-join_dots (if is_wild t then t else codec.encode t)
            (by_token codec codec.encode ts) (by_token-AreTokens (t ∷ ts) a)

  key_part-subject :
      (api : Bytes) (p : Prefixes) (k : Bytes)
      → 0 < length p.prefix
      → key_part p (subject_for_key api p k false) ≡ k
  unfolding subject_for_key join_dots
  key_part-subject api p k l =
      ap (λ (x : Bytes). drop (suc (length p.prefix)) x) (ground (arith, l)) ∙ skip p.prefix k
    where
      skip : (q s : Bytes) → drop (suc (length q)) (q ++ (b'.' ∷ s)) ≡ s
      skip [] s = refl
      skip (c ∷ q) s = skip q s

  -- For such a codec, a key read from the subject that a watch or a history delivers, under a prefix that
  -- is not empty, is the key that it was stored with.
  pub decode_key-subject :
      (api : Bytes) (p : Prefixes) (k : Bytes)
      → 0 < length p.prefix
      → decode_key codec (key_part p (subject_for_key api p (encode_key codec k) false)) ≡ k
  decode_key-subject api p k l =
      ap (decode_key codec) (key_part-subject api p (encode_key codec k) l)
      ∙ decode_key-encode_key k
