-- ===== src/JetStream/Objects/Kept.antt =====
-- What `_put` leaves alone in the stream while it sends: other objects' chunks, and every entry.
use nats_deno.Base.{
  ℕ, zero, suc, ◌≡◌, ◌∙◌, Bool, true, false, none, some, List, [], ◌∷◌, Bytes, length, ltb,
  bytes_eq, if-elim,
}
use nats_deno.DataBuffer.{DataBuffer, fill, drain}
use nats_deno.JetStream.Objects.Server.{Stream, Sha}
use nats_deno.JetStream.Objects.Upload.{Read, piece, broken, Sending, send, cut, feed, flush}

module _ (b : Stream) (h : Sha) (max : ℕ) (id : Bytes) (before : b.State) where
  open b use {State, chunks, entry, chunk_others, chunk_entries}

  abbrev pub Kept : State → Type 0
  Kept s =
      ((j : Bytes) → bytes_eq id j ≡ false → chunks j s ≡ chunks j before)
      × ((n : Bytes) → entry n s ≡ entry n before)

  send-Kept :
      (n : ℕ) (payload : Bytes) (u : Sending State h.State)
      → Kept u.state
      → Kept (send b h id n payload u).state
  unfolding send
  send-Kept n payload u (c, e) = (
    λ (j : Bytes). λ (d : bytes_eq id j ≡ false). chunk_others id payload j u.state d ∙ c j d,
    λ (m : Bytes). chunk_entries id payload m u.state ∙ e m,
  )

  cut-Kept :
      (fuel : ℕ) (db : DataBuffer) (u : Sending State h.State)
      → Kept u.state
      → Kept (cut b h fuel max id db u).1.state
  unfolding cut
  cut-Kept zero db u k = k
  cut-Kept (suc fuel) db u k =
      elim (ltb max db.byte_length)
        as (λ (x : Bool).
          Kept
            (elim x as (λ _. DataBuffer × Sending State h.State) [
              | false ↦ (db, u)
              | true ↦
                  cut b h fuel max id (drain (some max) db).1
                    (send b h id max (drain (some max) db).0 u)
            ]).1.state) [
              | false ↦ k
              | true ↦
                  cut-Kept fuel (drain (some max) db).1 (send b h id max (drain (some max) db).0 u)
                    (send-Kept max (drain (some max) db).0 u k)
            ]

  pub feed-Kept :
      (reads : List Read) (db : DataBuffer) (u : Sending State h.State)
      → Kept u.state
      → Kept (feed b h max id reads db u).1.1.state
  unfolding feed
  feed-Kept [] db u k = k
  feed-Kept (broken ∷ reads) db u k = k
  feed-Kept (piece p ∷ reads) db u k =
      let next = cut b h (fill p [] db).byte_length max id (fill p [] db) u in
      feed-Kept reads next.0 next.1 (cut-Kept (fill p [] db).byte_length (fill p [] db) u k)

  pub flush-Kept :
      (db : DataBuffer) (u : Sending State h.State) → Kept u.state → Kept (flush b h id db u).state
  unfolding flush
  flush-Kept db u k =
      if-elim (λ (v : Sending State h.State). Kept v.state) (ltb 0 db.byte_length)
        (send b h id (length (drain none db).0) (drain none db).0 u) u
        (λ _. send-Kept (length (drain none db).0) (drain none db).0 u k) (λ _. k)
