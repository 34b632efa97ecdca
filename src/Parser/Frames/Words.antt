-- ===== src/Parser/Frames/Words.antt =====
-- Argument lists: words with a space between them.
use mathlib.Core.List.{append-nil, append_assoc}
use nats_deno.Base.{◌≡◌, ◌≢◌, refl, ◌∙◌, false, none, some, List, [], ◌∷◌, ◌++◌, Bytes, arith}
use nats_deno.Parser.Args.{is_separator, split_args, split_args_from}

-- Nothing but bytes that end no argument.
abbrev pub IsWord : Bytes → Type 0
IsWord [] = Unit
IsWord (b ∷ bs) = (is_separator b ≡ false) × IsWord bs

-- A word of at least one byte.
abbrev pub IsToken : Bytes → Type 0
IsToken t = (t ≢ []) × IsWord t

split_args-word :
    (args : List Bytes) (w t rest : Bytes)
    → IsWord t
    → split_args_from args (some w) (t ++ rest) ≡ split_args_from args (some (w ++ t)) rest
unfolding split_args_from
split_args-word args w [] rest h = rw append-nil
split_args-word args w (b ∷ bs) rest h =
    ground (arith, split_args-word args (w ++ b ∷ []) bs rest h.1, append_assoc w (b ∷ []) bs)

-- A token and the space behind it.
split_args-token :
    (args : List Bytes) (t rest : Bytes)
    → IsToken t
    → split_args_from args none (t ++ b' ' ∷ rest) ≡ split_args_from (args ++ t ∷ []) none rest
unfolding split_args_from
split_args-token args [] rest h = absurd (h.0 refl)
split_args-token args (b ∷ bs) rest h =
    ground (arith, split_args-word args (b ∷ []) bs (b' ' ∷ rest) h.1.1)

split_args-last :
    (args : List Bytes) (t : Bytes) → IsToken t → split_args_from args none t ≡ args ++ t ∷ []
unfolding split_args_from
split_args-last args [] h = absurd (h.0 refl)
split_args-last args (b ∷ bs) h =
    ground (arith, split_args-word args (b ∷ []) bs [] h.1.1, append-nil bs)

abbrev pub AreTokens : List Bytes → Type 0
AreTokens [] = Unit
AreTokens (t ∷ ts) = IsToken t × AreTokens ts

-- Words with one space between two.
abbrev pub spaced : Bytes → List Bytes → Bytes
spaced t [] = t
spaced t (u ∷ us) = t ++ b' ' ∷ spaced u us

split_args-spaced_from :
    (args : List Bytes) (t : Bytes) (ts : List Bytes)
    → IsToken t
    → AreTokens ts
    → split_args_from args none (spaced t ts) ≡ args ++ t ∷ ts
split_args-spaced_from args t [] h k = split_args-last args t h
split_args-spaced_from args t (u ∷ us) h k =
    split_args-token args t (spaced u us) h
    ∙ split_args-spaced_from (args ++ t ∷ []) u us k.0 k.1
    ∙ append_assoc args (t ∷ []) (u ∷ us)

-- Splitting words that are joined by a space gives back the words.
pub split_args-spaced :
    (t : Bytes) (ts : List Bytes) → IsToken t → AreTokens ts → split_args (spaced t ts) ≡ t ∷ ts
unfolding split_args
split_args-spaced t ts h k = split_args-spaced_from [] t ts h k
