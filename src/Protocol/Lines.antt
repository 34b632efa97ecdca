-- ===== src/Protocol/Lines.antt =====
-- The lines of the NATS protocol that a client writes, field by field.
use mathlib.Core.List.{append_assoc}
use nats_deno.Base.{
  ℕ, ◌+◌, ◌≡◌, refl, ap, ◌∙◌, Option, none, some, List, [], ◌∷◌, ◌++◌, Bytes, codes, length,
  if◌then◌else◌, ◌==◌, inl, inr, Bool-cases, arith,
}
use nats_deno.Protocol.{
  Sub, sub_command, unsub_command, pub_command, header_bytes, crlf, spaced, word,
}

-- `SUB <subject> [queue group] <sid>`
abbrev pub sub_line : Bytes → Option Bytes → Bytes → Bytes
sub_line subject none sid = codes "SUB " ++ (subject ++ (codes " " ++ (sid ++ codes "\r\n")))
sub_line subject (some []) sid = codes "SUB " ++ (subject ++ (codes " " ++ (sid ++ codes "\r\n")))
sub_line subject (some (c ∷ group)) sid =
    codes "SUB "
    ++ (subject ++ (codes " " ++ ((c ∷ group) ++ (codes " " ++ (sid ++ codes "\r\n")))))

-- `UNSUB <sid> [max]`
abbrev pub unsub_line : Bytes → Option Bytes → Bytes
unsub_line sid none = codes "UNSUB " ++ (sid ++ codes "\r\n")
unsub_line sid (some max) = codes "UNSUB " ++ (sid ++ (codes " " ++ (max ++ codes "\r\n")))

-- `PUB <subject> [reply] <size>` and `HPUB <subject> [reply] <header size> <total size>`; the last argument
-- is what stands behind the subject and the reply.
abbrev pub pub_line : Bytes → Bytes → Option Bytes → Bytes → Bytes
pub_line verb subject none sizes = verb ++ (subject ++ (codes " " ++ (sizes ++ codes "\r\n")))
pub_line verb subject (some []) sizes = verb ++ (subject ++ (codes " " ++ (sizes ++ codes "\r\n")))
pub_line verb subject (some (c ∷ reply)) sizes =
    verb ++ (subject ++ (codes " " ++ ((c ∷ reply) ++ (codes " " ++ (sizes ++ codes "\r\n")))))

-- What is published: a body, and the encoded headers if there are any.
abbrev pub publication : (ℕ → Bytes) → Bytes → Option Bytes → Option Bytes → Bytes → Bytes
publication show subject reply none body =
    pub_line (codes "PUB ") subject reply (show (length body)) ++ (body ++ codes "\r\n")
publication show subject reply (some headers) body =
    pub_line (codes "HPUB ") subject reply
      (show (length headers) ++ (codes " " ++ show (length headers + length body)))
    ++ (headers ++ (body ++ codes "\r\n"))

sub_words :
    (subject : Bytes) (queue : Option Bytes) (sid : Bytes)
    → spaced (codes "SUB" ∷ subject ∷ word queue ++ sid ∷ []) ++ crlf ≡ sub_line subject queue sid
sub_words subject none sid =
    ap (λ (x : Bytes). codes "SUB " ++ x) (append_assoc subject (codes " " ++ sid) crlf)
sub_words subject (some []) sid =
    ap (λ (x : Bytes). codes "SUB " ++ x) (append_assoc subject (codes " " ++ sid) crlf)
sub_words subject (some (c ∷ group)) sid =
    ap (λ (x : Bytes). codes "SUB " ++ x)
      (append_assoc subject (codes " " ++ ((c ∷ group) ++ (codes " " ++ sid))) crlf
        ∙ ap (λ (x : Bytes). subject ++ (codes " " ++ x))
            (append_assoc (c ∷ group) (codes " " ++ sid) crlf))

pub_words :
    (subject : Bytes) (reply : Option Bytes) (size : Bytes)
    → spaced (codes "PUB" ∷ subject ∷ word reply ++ size ∷ []) ++ crlf
      ≡ pub_line (codes "PUB ") subject reply size
pub_words subject none size =
    ap (λ (x : Bytes). codes "PUB " ++ x) (append_assoc subject (codes " " ++ size) crlf)
pub_words subject (some []) size =
    ap (λ (x : Bytes). codes "PUB " ++ x) (append_assoc subject (codes " " ++ size) crlf)
pub_words subject (some (c ∷ reply)) size =
    ap (λ (x : Bytes). codes "PUB " ++ x)
      (append_assoc subject (codes " " ++ ((c ∷ reply) ++ (codes " " ++ size))) crlf
        ∙ ap (λ (x : Bytes). subject ++ (codes " " ++ x))
            (append_assoc (c ∷ reply) (codes " " ++ size) crlf))

hpub_words :
    (subject : Bytes) (reply : Option Bytes) (headers total : Bytes)
    → spaced (codes "HPUB" ∷ subject ∷ word reply ++ headers ∷ total ∷ []) ++ crlf
      ≡ pub_line (codes "HPUB ") subject reply (headers ++ (codes " " ++ total))
hpub_words subject none headers total =
    ap (λ (x : Bytes). codes "HPUB " ++ x)
      (append_assoc subject (codes " " ++ (headers ++ (codes " " ++ total))) crlf)
hpub_words subject (some []) headers total =
    ap (λ (x : Bytes). codes "HPUB " ++ x)
      (append_assoc subject (codes " " ++ (headers ++ (codes " " ++ total))) crlf)
hpub_words subject (some (c ∷ reply)) headers total =
    ap (λ (x : Bytes). codes "HPUB " ++ x)
      (append_assoc subject
          (codes " " ++ ((c ∷ reply) ++ (codes " " ++ (headers ++ (codes " " ++ total))))) crlf
        ∙ ap (λ (x : Bytes). subject ++ (codes " " ++ x))
            (append_assoc (c ∷ reply) (codes " " ++ (headers ++ (codes " " ++ total))) crlf))

module _ (show : ℕ → Bytes) where
  pub sub_command-sub_line :
      (s : Sub) → sub_command show s ≡ sub_line s.subject s.queue (show s.sid)
  sub_command-sub_line s = sub_words s.subject s.queue (show s.sid)

  -- The limit of an `UNSUB`: none and 0 are not written.
  abbrev pub limit_of : Option ℕ → Option Bytes
  limit_of none = none
  limit_of (some n) = if n == 0 then none else some (show n)

  pub unsub_command-unsub_line :
      (sid : ℕ) (max : Option ℕ) → unsub_command show sid max ≡ unsub_line (show sid) (limit_of max)
  unsub_command-unsub_line sid none = refl
  unsub_command-unsub_line sid (some n) = elim (Bool-cases (n == 0)) [
    | inl zero ↦ rw zero refl
    | inr positive ↦ rw positive (
        ap (λ (x : Bytes). codes "UNSUB " ++ x)
          (append_assoc (show sid) (codes " " ++ show n) crlf))
  ]

  pub pub_command-publication :
      (subject body : Bytes) (reply headers : Option Bytes)
      → pub_command show subject reply headers (length body + length (header_bytes headers))
          ++ (header_bytes headers ++ (body ++ crlf))
        ≡ publication show subject reply headers body
  pub_command-publication subject body reply none =
      ap (λ (x : Bytes). x ++ (body ++ crlf))
        (pub_words subject reply (show (length body + 0))
          ∙ ap (λ (n : ℕ). pub_line (codes "PUB ") subject reply (show n)) (omega arith))
  pub_command-publication subject body reply (some headers) =
      ap (λ (x : Bytes). x ++ (headers ++ (body ++ crlf)))
        (hpub_words subject reply (show (length headers)) (show (length body + length headers))
          ∙ ap
              (λ (n : ℕ).
                pub_line (codes "HPUB ") subject reply
                  (show (length headers) ++ (codes " " ++ show n)))
              (omega arith))

  -- The lines of several subscriptions, in order.
  abbrev pub sub_lines : List Sub → Bytes
  sub_lines [] = []
  sub_lines (s ∷ subs) = sub_line s.subject s.queue (show s.sid) ++ sub_lines subs
