-- ===== src/Session/Laws.antt =====
-- What `session.Store` promises in its comments, and what `encoding/json` does.
use tuti_server.Base.{
  String, ◌≡◌, true, false, List, [], ◌==◌, ◌&&◌, ◌↔◌, contains, is_plain, is_name,
}
use tuti_server.Errors.{Error, ok, err, sentinel, session_not_found}
use tuti_server.Session.{Bytes, Store, Codec}

pub record IsStore {S : Type 0} (store : Store S) : Type 0 where
  -- Load reads back data previously written via Save
  pub load-save :
      (kind id : String) (bytes : Bytes) (s : S)
      → (store.save kind id bytes s).0 ≡ ok tt
      → store.load kind id (store.save kind id bytes s).1 ≡ ok bytes
  -- records are addressed by (kind, id); a Save, failed or not, leaves all others, where kinds and ids
  -- are names
  pub load-save_ne :
      (kind id kind' id' : String) (bytes : Bytes) (s : S)
      → (is_name kind && is_name kind') ≡ true
      → (is_plain id && is_plain id') ≡ true
      → (kind == kind' && id == id') ≡ false
      → store.load kind' id' (store.save kind id bytes s).1 ≡ store.load kind' id' s
  -- List returns the ids of every record saved under kind
  pub list_complete :
      (kind id : String) (s : S) (ids : List String) (bytes : Bytes)
      → is_plain id ≡ true
      → store.list kind s ≡ ok ids
      → store.load kind id s ≡ ok bytes
      → contains id ids ≡ true
  -- which are names
  pub list_plain :
      (kind id : String) (s : S) (ids : List String)
      → store.list kind s ≡ ok ids
      → contains id ids ≡ true
      → is_plain id ≡ true

-- What is not there: Load returns ErrNotFound for the names that List does not return, and for no other
-- name, while the records of the kind are the store's own; and where nothing was ever saved under a kind,
-- it has the empty list.
pub record TellsMissing {S : Type 0} (IsOwn IsGone : String → S → Type 0) (store : Store S)
    : Type 0 where
  pub load_missing :
      (kind id : String) (s : S) (ids : List String)
      → IsOwn kind s
      → is_plain id ≡ true
      → store.list kind s ≡ ok ids
      → (store.load kind id s ≡ err (sentinel session_not_found)) ↔ (contains id ids ≡ false)
  pub list_gone : (kind : String) (s : S) → IsGone kind s → store.list kind s ≡ ok []
  pub load_gone :
      (kind id : String) (s : S)
      → IsGone kind s
      → is_plain id ≡ true
      → store.load kind id s ≡ err (sentinel session_not_found)

-- A Save that fails leaves the record that was there. The comments of `Store` do not promise this.
pub record IsAtomic {S : Type 0} (store : Store S) : Type 0 where
  pub load-save_failed :
      (kind id : String) (bytes : Bytes) (s : S) (e : Error)
      → (store.save kind id bytes s).0 ≡ err e
      → store.load kind id (store.save kind id bytes s).1 ≡ store.load kind id s

pub record IsCodec {A : Type 0} (codec : Codec A) : Type 0 where
  pub unmarshal-marshal :
      (a : A) (bytes : Bytes) → codec.marshal a ≡ ok bytes → codec.unmarshal bytes ≡ ok a
