-- ===== src/JetStream/Objects/Sample.antt =====
-- A stream in memory and a hash, for tests.
use nats_deno.Base.{
  ℕ, ◌+◌, ◌≡◌, refl, Bool, true, false, Option, none, some, List, [], ◌∷◌, ◌++◌, Bytes, length,
  ◌==◌, bytes_eq, bytes_eq_refl, if◌then◌else◌, arith,
}
use nats_deno.JetStream.Objects.Server.{Info, Stream, Sha, numbered}

pub record Memory : Type 0 where
  pub held : Bytes → List Bytes
  pub entries : Bytes → Option Info

-- Chunks that begin with a zero are refused.
abbrev pub picky : Bytes → Bool
picky [] = false
picky (x ∷ p) = x == 0

abbrev pub set_chunks : Bytes → List Bytes → Memory → Memory
set_chunks id cs m = record m { held = λ (j : Bytes). if bytes_eq id j then cs else m.held j }

abbrev pub set_entry : Bytes → Option Info → Memory → Memory
set_entry n o m = record m { entries = λ (j : Bytes). if bytes_eq n j then o else m.entries j }

abbrev pub publish : (Bytes → Bool) → Bytes → Bytes → Memory → Bool × Memory
publish refused id p m =
    if refused p then (false, m) else (true, set_chunks id (m.held id ++ p ∷ []) m)

abbrev pub store : (Bytes → Bool) → Stream
store refused = record {
  State = Memory;
  publish_chunk = publish refused;
  purge_chunks = λ id m. (true, set_chunks id [] m);
  late = λ id m. m;
  publish_meta = λ n last i m. (true, set_entry n (some i) m);
  purge_meta = λ n m. (true, set_entry n none m);
  chunks = λ id m. m.held id;
  entry = λ n m. m.entries n;
  answers = λ n m. true;
  deliveries = λ id m. numbered (m.held id);
  chunk_stored = λ id payload s e. stored id payload s e;
  chunk_others = λ id payload j s d. others id payload j s d;
  chunk_entries = λ id payload n s. entries_stay id payload n s;
  purged = λ id s e. rw (bytes_eq_refl id) refl;
  purge_others = λ id j s d. rw d refl;
  purge_entries = λ id n s. refl;
  late_others = λ id j s d. refl;
  late_entries = λ id n s. refl;
  entry_stored = λ n last i s e. rw (bytes_eq_refl n) refl;
  entry_others = λ n last i m s d. rw d refl;
  entry_chunks = λ n last i j s. refl;
  entry_purged = λ n s e. rw (bytes_eq_refl n) refl;
  purge_other_entries = λ n m s d. rw d refl;
  purge_meta_chunks = λ n j s. refl;
  delivered = λ id s. refl;
}
  where
    stored :
        (id payload : Bytes) (s : Memory)
        → (publish refused id payload s).0 ≡ true
        → (publish refused id payload s).1.held id ≡ s.held id ++ payload ∷ []
    stored id p s e = ground (arith, bytes_eq_refl id, e)

    others :
        (id payload j : Bytes) (s : Memory)
        → bytes_eq id j ≡ false
        → (publish refused id payload s).1.held j ≡ s.held j
    others id p j s d = ground (arith, d)

    entries_stay :
        (id payload n : Bytes) (s : Memory)
        → (publish refused id payload s).1.entries n ≡ s.entries n
    entries_stay id p n s = ground arith

abbrev pub memory : Stream
memory = store picky

-- A hash that remembers how much it has seen.
abbrev pub counting : Sha
counting = record {
  State = ℕ;
  create = 0;
  update = λ p n. n + length p;
  digest = λ n.
      n ∷ 1 ∷ 2 ∷ 3 ∷ 4 ∷ 5 ∷ 6 ∷ 7 ∷ 8 ∷ 9 ∷ 10 ∷ 11 ∷ 12 ∷ 13 ∷ 14 ∷ 15 ∷ 16 ∷ 17 ∷ 18 ∷ 19 ∷ 20
      ∷ 21 ∷ 22 ∷ 23 ∷ 24 ∷ 25 ∷ 26 ∷ 27 ∷ 28 ∷ 29 ∷ 30 ∷ 31 ∷ [];
  length_digest = λ n. refl;
}
