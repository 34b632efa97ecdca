-- ===== src/Buffer/Tests.antt =====
-- The buffer on concrete bytes, and the theorems at inputs that meet their hypotheses.
use nats_deno.Base.{◌≡◌, refl, none, some, [], ◌∷◌, ◌++◌, codes, arith}
use nats_deno.Buffer.{DenoBuffer, write}
use nats_deno.Buffer.Laws.{IsValid}

abbrev half_read : DenoBuffer
half_read = record { store = codes "abcd"; len = 3; off = 1 }

half_read-IsValid : IsValid 64 half_read
half_read-IsValid = omega arith

fits_in_place :
    write 64 (codes "x") half_read ≡ some (record { store = codes "abcx"; len = 4; off = 1 }, 1)
unfolding write
fits_in_place = refl

cannot_grow : write 5 (codes "xy") half_read ≡ none
unfolding write
cannot_grow = refl

grown :
    write 64 (codes "xy") half_read
    ≡ some (record { store = codes "bcxy" ++ 0 ∷ 0 ∷ 0 ∷ 0 ∷ 0 ∷ 0 ∷ []; len = 4; off = 0 }, 2)
unfolding write
grown = refl

abbrev roomy : DenoBuffer
roomy = record {
  store = codes "bc" ++ 0 ∷ 0 ∷ 0 ∷ 0 ∷ 0 ∷ 0 ∷ 0 ∷ 0 ∷ 0 ∷ 0 ∷ 0 ∷ [];
  len = 2;
  off = 0;
}
