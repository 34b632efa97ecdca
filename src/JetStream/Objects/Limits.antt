-- ===== src/JetStream/Objects/Limits.antt =====
-- How large the chunks of a put are.
use nats_deno.Base.{
  ℕ, ◌*◌, ◌≤◌, ◌≡◌, sym, ap, subst, ◌∙◌, Option, List, [], ◌∷◌, Bytes, length, arith,
}
use mathlib.Core.List.{append-nil}
use nats_deno.DataBuffer.Laws.{joined}
use nats_deno.JetStream.Digest.{Base64}
use nats_deno.JetStream.Objects.Server.{Info, Meta, Stream, Sha, resolved}
use nats_deno.JetStream.Objects.Upload.{Read, or_default, max_chunk, put}
use nats_deno.JetStream.Objects.Sent.{given, AreChunks}
use nats_deno.JetStream.Objects.RoundTrip.{IsFresh, put-HasPut, HasPut-kept}

AreChunks-le : (m n : ℕ) (cs : List Bytes) → m ≤ n → AreChunks m cs → AreChunks n cs
AreChunks-le m n [] h a = tt
AreChunks-le m n (c ∷ cs) h (p, q, a) = (p, omega (arith, h, q), AreChunks-le m n cs h a)

max_chunk_le :
    (wanted payload : Option ℕ)
    → (max_chunk wanted payload ≤ or_default payload 1024)
      × (max_chunk wanted payload ≤ or_default wanted (128 * 1024))
unfolding max_chunk
max_chunk_le wanted payload = ground arith

module _ (b : Stream) (h : Sha) (base : Base64) where
  open b use {State, chunks}

  -- What a put that resolved, under an id that is new, has stored: chunks that are never empty, and no
  -- longer than the server's limit on payloads (1024 if it gave none) nor than the size that was asked
  -- for (128 KiB if none was), which make up what the reader gave; and the entry says how many bytes and
  -- how many chunks they are.
  pub put-bounds :
      (id : Bytes) (payload previous : Option ℕ) (meta : Meta) (reads : List Read) (s : State)
      (i : Info)
      → IsFresh b id meta.name s
      → (put b h base id payload previous meta reads s).0 ≡ resolved i
      → AreChunks
          (or_default payload 1024)
          (chunks id (put b h base id payload previous meta reads s).1)
        × AreChunks
            (or_default meta.max_chunk_size (128 * 1024))
            (chunks id (put b h base id payload previous meta reads s).1)
        × (joined (chunks id (put b h base id payload previous meta reads s).1) ≡ given reads)
        × (i.size ≡ length (given reads))
        × (i.chunks ≡ length (chunks id (put b h base id payload previous meta reads s).1))
  put-bounds id payload previous meta reads s i fresh e =
      let max = max_chunk meta.max_chunk_size payload in
      let after = (put b h base id payload previous meta reads s).1 in
      let p = put-HasPut b h base id payload previous meta reads s i fresh.0 e in
      let (_, same) = HasPut-kept b h base id max meta reads s after i fresh p in
      let (small, wanted) = max_chunk_le meta.max_chunk_size payload in
      let bounded : AreChunks max (chunks id after) =
        subst (AreChunks max) (sym same) p.sent.bounded in
      let whole : joined (chunks id p.sending.state) ≡ given reads =
        sym (append-nil (joined (chunks id p.sending.state))) ∙ p.sent.whole in
      (
        AreChunks-le max (or_default payload 1024) (chunks id after) small bounded,
        AreChunks-le max (or_default meta.max_chunk_size (128 * 1024)) (chunks id after) wanted
            bounded,
        ap joined same ∙ whole,
        ap (λ (x : Info). x.size) p.info ∙ p.sent.sized ∙ ap length whole,
        ap (λ (x : Info). x.chunks) p.info ∙ p.sent.counted ∙ ap length (sym same),
      )
