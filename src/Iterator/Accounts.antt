-- ===== src/Iterator/Accounts.antt =====
-- What was pushed into the iterator, and where it is.
use mathlib.Core.List.{append_assoc}
use nats_deno.Base.{◌≡◌, refl, sym, Bool, List, [], ◌∷◌, ◌++◌, length, if◌then◌else◌, arith}
use nats_deno.Iterator.{Item, value, call, Phase, fresh, waiting, batch, yielded, ended, Run}

module _ {ℓ} {A : Type ℓ} (pass : A → Bool) where
  abbrev pub passed : List A → List A
  passed [] = []
  passed (a ∷ xs) = if pass a then a ∷ passed xs else passed xs

  -- The values that are queued and will be shown.
  abbrev pub kept : List (Item A) → List A
  kept [] = []
  kept (value a ∷ items) = if pass a then a ∷ kept items else kept items
  kept (call f ∷ items) = kept items

  abbrev pub to_come : Phase A → List (Item A)
  to_come (batch rest) = rest
  to_come (yielded rest) = rest
  to_come _ = []

  -- While the loop runs, what was shown and what still waits is what was taken and passes, in order; at
  -- its end, what was shown is a front part of it.
  abbrev pub Accounts : Phase A → Run A → Type ℓ
  Accounts (ended e) r = (lost : List A) × (r.out ++ lost ≡ passed r.accepted)
  Accounts phase r = r.out ++ (kept (to_come phase) ++ kept r.it.yields) ≡ passed r.accepted

  abbrev pub IsOrdered : Run A → Type ℓ
  IsOrdered r = Accounts r.phase r × (r.it.processed ≡ length r.out)

  pub passed-append : (xs : List A) (a : A) → passed (xs ++ a ∷ []) ≡ passed xs ++ passed (a ∷ [])
  passed-append [] a = refl
  passed-append (x ∷ xs) a = ground (arith, passed-append xs a)

  pub kept-append :
      (xs : List (Item A)) (i : Item A) → kept (xs ++ i ∷ []) ≡ kept xs ++ kept (i ∷ [])
  kept-append [] i = refl
  kept-append (value x ∷ xs) i = ground (arith, kept-append xs i)
  kept-append (call f ∷ xs) i = kept-append xs i

  -- One more value at the end of what waits and of what was taken.
  pub one_more :
      (rest : List (Item A)) (a : A) (r s : Run A)
      → r.out ++ (kept rest ++ kept r.it.yields) ≡ passed r.accepted
      → s.out ≡ r.out
      → s.it.yields ≡ r.it.yields ++ value a ∷ []
      → s.accepted ≡ r.accepted ++ a ∷ []
      → s.out ++ (kept rest ++ kept s.it.yields) ≡ passed s.accepted
  one_more rest a r s o u y c =
      rw
        (
          u,
          y,
          c,
          passed-append r.accepted a,
          kept-append r.it.yields (value a),
          ← o,
          append_assoc r.out (kept rest ++ kept r.it.yields) (passed (a ∷ [])),
          append_assoc (kept rest) (kept r.it.yields) (passed (a ∷ [])),
        )
        refl

  pub Accounts-value :
      (phase : Phase A) (a : A) (r s : Run A)
      → Accounts phase r
      → s.out ≡ r.out
      → s.it.yields ≡ r.it.yields ++ value a ∷ []
      → s.accepted ≡ r.accepted ++ a ∷ []
      → Accounts phase s
  Accounts-value (ended e) a r s (lost, o) u y c = (
    lost ++ passed (a ∷ []),
    rw (u, c, passed-append r.accepted a, ← o) (sym (append_assoc r.out lost (passed (a ∷ [])))),
  )
  Accounts-value fresh a r s o u y c = one_more [] a r s o u y c
  Accounts-value waiting a r s o u y c = one_more [] a r s o u y c
  Accounts-value (batch x) a r s o u y c = one_more x a r s o u y c
  Accounts-value (yielded x) a r s o u y c = one_more x a r s o u y c

  pub Accounts-same :
      (phase : Phase A) (r s : Run A)
      → Accounts phase r
      → s.out ≡ r.out
      → kept s.it.yields ≡ kept r.it.yields
      → s.accepted ≡ r.accepted
      → Accounts phase s
  Accounts-same (ended e) r s (lost, o) u y c = (lost, rw (u, c) o)
  Accounts-same fresh r s o u y c = rw (u, y, c) o
  Accounts-same waiting r s o u y c = rw (u, y, c) o
  Accounts-same (batch x) r s o u y c = rw (u, y, c) o
  Accounts-same (yielded x) r s o u y c = rw (u, y, c) o

  -- At the end, what waits is lost.
  pub Accounts-lost :
      (phase : Phase A) (r : Run A)
      → Accounts phase r
      → (lost : List A) × (r.out ++ lost ≡ passed r.accepted)
  Accounts-lost (ended e) r o = o
  Accounts-lost fresh r o = (_, o)
  Accounts-lost waiting r o = (_, o)
  Accounts-lost (batch x) r o = (_, o)
  Accounts-lost (yielded x) r o = (_, o)
