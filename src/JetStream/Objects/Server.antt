-- ===== src/JetStream/Objects/Server.antt =====
-- What the object store keeps in its stream, and the stream as the store uses it. Descriptions, headers,
-- times and revisions go through unread, and are left out.
use nats_deno.Base.{
  ℕ, ◌≡◌, Bool, true, false, Option, none, some, List, [], ◌∷◌, ◌++◌, Bytes, length, bytes_eq, ◌==◌,
  if◌then◌else◌,
}

pub record Link : Type 0 where
  pub bucket : Bytes
  pub name : Option Bytes

-- `ServerObjectInfo`
pub record Info : Type 0 where
  pub name : Bytes
  pub nuid : Bytes
  pub size : ℕ
  pub chunks : ℕ
  pub digest : Bytes
  pub deleted : Bool
  pub link : Option Link
  pub max_chunk_size : Option ℕ

-- `ObjectStoreMeta`
pub record Meta : Type 0 where
  pub name : Bytes
  pub link : Option Link
  pub max_chunk_size : Option ℕ

-- A message of a consumer, with the number of those that follow.
pub record Delivery : Type 0 where
  pub body : Bytes
  pub pending : ℕ

abbrev pub numbered : List Bytes → List Delivery
numbered [] = []
numbered (c ∷ cs) = record { body = c; pending = length cs } ∷ numbered cs

-- The stream behind a bucket, on the server. The subject of chunks is named by an id, that of metadata by
-- an object's name. A request changes the stream and says whether it was acknowledged; one that was not may
-- or may not have been stored; `late` is the stream once the chunks of an id that were published but not yet
-- stored have arrived. An entry is the last metadata that was published under its name.
pub record Stream : Type 1 where
  pub State : Type 0
  pub publish_chunk : Bytes → Bytes → State → Bool × State
  pub purge_chunks : Bytes → State → Bool × State
  pub late : Bytes → State → State
  pub publish_meta : Bytes → Option ℕ → Info → State → Bool × State
  pub purge_meta : Bytes → State → Bool × State
  pub chunks : Bytes → State → List Bytes
  pub entry : Bytes → State → Option Info
  pub answers : Bytes → State → Bool
  pub deliveries : Bytes → State → List Delivery
  pub chunk_stored :
      (id payload : Bytes) (s : State)
      → (publish_chunk id payload s).0 ≡ true
      → chunks id (publish_chunk id payload s).1 ≡ chunks id s ++ payload ∷ []
  pub chunk_others :
      (id payload j : Bytes) (s : State)
      → bytes_eq id j ≡ false
      → chunks j (publish_chunk id payload s).1 ≡ chunks j s
  pub chunk_entries :
      (id payload n : Bytes) (s : State) → entry n (publish_chunk id payload s).1 ≡ entry n s
  pub purged :
      (id : Bytes) (s : State) → (purge_chunks id s).0 ≡ true → chunks id (purge_chunks id s).1 ≡ []
  pub purge_others :
      (id j : Bytes) (s : State)
      → bytes_eq id j ≡ false
      → chunks j (purge_chunks id s).1 ≡ chunks j s
  pub purge_entries : (id n : Bytes) (s : State) → entry n (purge_chunks id s).1 ≡ entry n s
  pub late_others :
      (id j : Bytes) (s : State) → bytes_eq id j ≡ false → chunks j (late id s) ≡ chunks j s
  pub late_entries : (id n : Bytes) (s : State) → entry n (late id s) ≡ entry n s
  pub entry_stored :
      (n : Bytes) (last : Option ℕ) (i : Info) (s : State)
      → (publish_meta n last i s).0 ≡ true
      → entry n (publish_meta n last i s).1 ≡ some i
  pub entry_others :
      (n : Bytes) (last : Option ℕ) (i : Info) (m : Bytes) (s : State)
      → bytes_eq n m ≡ false
      → entry m (publish_meta n last i s).1 ≡ entry m s
  pub entry_chunks :
      (n : Bytes) (last : Option ℕ) (i : Info) (j : Bytes) (s : State)
      → chunks j (publish_meta n last i s).1 ≡ chunks j s
  pub entry_purged :
      (n : Bytes) (s : State) → (purge_meta n s).0 ≡ true → entry n (purge_meta n s).1 ≡ none
  pub purge_other_entries :
      (n m : Bytes) (s : State) → bytes_eq n m ≡ false → entry m (purge_meta n s).1 ≡ entry m s
  pub purge_meta_chunks : (n j : Bytes) (s : State) → chunks j (purge_meta n s).1 ≡ chunks j s
  pub delivered : (id : Bytes) (s : State) → deliveries id s ≡ numbered (chunks id s)

-- js-sha256: a digest is 32 bytes.
pub record Sha : Type 1 where
  pub State : Type 0
  pub create : State
  pub update : Bytes → State → State
  pub digest : State → Bytes
  pub length_digest : (h : State) → length (digest h) ≡ 32

-- What a promise comes to, if it comes to anything.
pub data Promised {ℓ} (A : Type ℓ) : Type ℓ where
  resolved : A → Promised A
  rejected : Promised A
  waiting : Promised A

module _ (b : Stream) where
  open b use {State, entry, answers}

  -- `rawInfo`: a missing entry is null, any other failure rejects.
  unfoldable pub raw_info : Bytes → State → Promised (Option Info)
  raw_info name s =
      if length name == 0
      then rejected
      else (if answers name s then resolved (entry name s) else rejected)
