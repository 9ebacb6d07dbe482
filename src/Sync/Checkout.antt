-- ===== src/Sync/Checkout.antt =====
-- packages/sync/src/checkout.ts: what a device knows of its working tree. The tree is a map from a
-- pathname to a file's bytes and its modification time in milliseconds; `now` is the value that
-- `Date.now()` gives the operation. An operation sees one state of the tree: a write between the stat
-- and the read of one `hash_of` is not modelled. `load` is the first read of the index file, and the
-- operations here work on the index that it gives.
pub mod Honest
use arxhub.Base.{
  Bool, Bytes, List, Option, Result, Text, err, false, file_not_found, if◌then◌else◌, length, ltb,
  none, ok, some, text_eq, true, ℕ, ◌&&◌, ◌+◌, ◌==◌,
}
use arxhub.Base.Dict.{Dict, erase, insert, is_some, keys, lookup}

pub record Blob : Type 0 where
  pub content : Bytes
  pub mtime : ℕ

abbrev pub Tree : Type 0
Tree = Dict Blob

pub record CheckoutEntry : Type 0 where
  pub size : ℕ
  pub mtime : ℕ
  pub hash : Text
  pub checked_at : ℕ

-- `CheckoutIndex`
pub record Index : Type 0 where
  pub entries : Dict CheckoutEntry
  pub pending : Dict Text

-- The index in memory, and what the index file holds.
pub record Checkout : Type 0 where
  pub index : Index
  pub dirty : Bool
  pub saved : Index

abbrev pub racy_ms : ℕ
racy_ms = 2000

-- The stat that was recorded still matches, and is not racy.
abbrev pub is_trusted : CheckoutEntry → Blob → Bool
is_trusted known file =
    (known.size == length file.content)
    && ((known.mtime == file.mtime) && ltb (known.mtime + racy_ms) known.checked_at)

-- `index.entries[pathname] = entry`
unfoldable pub set_entry : Text → CheckoutEntry → Checkout → Checkout
set_entry pathname entry c = record c {
  index = record c.index { entries = insert pathname entry c.index.entries };
  dirty = true;
}

unfoldable pub forget : Text → Checkout → Checkout
forget pathname c =
    if is_some (lookup pathname c.index.entries)
    then record c {
      index = record c.index { entries = erase pathname c.index.entries };
      dirty = true;
    }
    else c

unfoldable pub knows : Text → Checkout → Bool
knows pathname c = is_some (lookup pathname c.index.entries)

unfoldable pub is_pending : Text → Checkout → Bool
is_pending pathname c = is_some (lookup pathname c.index.pending)

-- `index.pending[pathname] === hash`
abbrev pub marked : Option Text → Text → Bool
marked none hash = false
marked (some other) hash = text_eq other hash

unfoldable pub mark_pending : Text → Text → Checkout → Checkout
mark_pending pathname hash c =
    if marked (lookup pathname c.index.pending) hash then c else record c {
      index = record {
        entries = erase pathname c.index.entries;
        pending = insert pathname hash c.index.pending;
      };
      dirty = true;
    }

unfoldable pub clear_pending : Text → Checkout → Checkout
clear_pending pathname c =
    if is_some (lookup pathname c.index.pending)
    then record c {
      index = record c.index { pending = erase pathname c.index.pending };
      dirty = true;
    }
    else c

unfoldable pub pending_paths : Checkout → List Text
pending_paths c = keys c.index.pending

unfoldable pub flush : Checkout → Checkout
flush c = if c.dirty then record c { dirty = false; saved = c.index } else c

module _ (sha256 : Bytes → Text) where
  -- The read that `hash_of` falls back to.
  unfoldable pub rehash : Text → Blob → ℕ → Checkout → Option Text × Checkout
  unfolding set_entry
  rehash pathname file now c =
      let hash = sha256 file.content in
      (
        some hash,
        set_entry pathname
            (record {
              size = length file.content;
              mtime = file.mtime;
              hash = hash;
              checked_at = now;
            })
            c,
      )

  unfoldable pub hash_known :
      Text → Blob → ℕ → Checkout → Option CheckoutEntry → Option Text × Checkout
  unfolding rehash
  hash_known pathname file now c none = rehash pathname file now c
  hash_known pathname file now c (some known) =
      if is_trusted known file then (some known.hash, c) else rehash pathname file now c

  unfoldable pub hash_of_file : Text → Option Blob → ℕ → Checkout → Option Text × Checkout
  unfolding hash_known
  hash_of_file pathname none now c = (none, c)
  hash_of_file pathname (some file) now c =
      hash_known pathname file now c (lookup pathname c.index.entries)

  unfoldable pub hash_of : Tree → ℕ → Text → Checkout → Option Text × Checkout
  unfolding hash_of_file
  hash_of tree now pathname c = hash_of_file pathname (lookup pathname tree) now c

-- `record`: `none` where the file is gone, and `head` throws.
unfoldable pub record_file : Option Blob → ℕ → Text → Text → Checkout → Result Checkout
unfolding set_entry
record_file none now pathname hash c = err file_not_found
record_file (some file) now pathname hash c = ok (
    set_entry pathname
      (record { size = length file.content; mtime = file.mtime; hash = hash; checked_at = now }) c)

unfoldable pub record_hash : Tree → ℕ → Text → Text → Checkout → Result Checkout
unfolding record_file
record_hash tree now pathname hash c = record_file (lookup pathname tree) now pathname hash c
