-- ===== src/DataBuffer/Tests.antt =====
-- The queue of bytes on concrete buffers, and the theorems at inputs that meet their hypotheses.
use nats_deno.Base.{◌≡◌, refl, some, [], ◌∷◌, codes}
use nats_deno.DataBuffer.{DataBuffer, drain, pack, fill}
use nats_deno.DataBuffer.Laws.{IsValid}

abbrev two_held : DataBuffer
two_held = record { buffers = codes "ab" ∷ codes "cde" ∷ []; byte_length = 5 }

two_held-IsValid : IsValid two_held
two_held-IsValid = refl

drains_three :
    drain (some 3) two_held ≡ (codes "abc", record { buffers = codes "de" ∷ []; byte_length = 2 })
unfolding drain pack
drains_three = refl

fills_past_empty :
    fill (codes "x") ([] ∷ codes "y" ∷ []) two_held
    ≡ record { buffers = codes "ab" ∷ codes "cde" ∷ codes "x" ∷ codes "y" ∷ []; byte_length = 7 }
unfolding fill
fills_past_empty = refl
