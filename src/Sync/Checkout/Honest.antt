-- ===== src/Sync/Checkout/Honest.antt =====
-- About the index entries of checkout.ts under the steps that a device and its user take.
use mathlib.Core.Option
use mathlib.Core.Path.{subst}
use arxhub.Base.{
  Bool-cases, Bytes, Option, Text, [], ap, arith, inl, inr, none, ok, ok_injective, refl, some, sym,
  text_eq, text_eq_iff, true, ℕ, ◌+◌, ◌∙◌, ◌≡◌, ◌≤◌,
}
use arxhub.Base.Dict.{erase, insert, is_some, lookup, lookup-erase, lookup-insert}
use arxhub.Sync.Checkout.{
  Blob, Checkout, CheckoutEntry, Tree, clear_pending, flush, forget, hash_known, hash_of,
  hash_of_file, is_trusted, mark_pending, marked, racy_ms, record_hash, rehash, set_entry,
}

-- The tree, the clock and the index of one device.
pub record World : Type 0 where
  pub tree : Tree
  pub now : ℕ
  pub checkout : Checkout

some_injective {ℓ} : {A : Type ℓ} {a b : A} → some a ≡ some b → a ≡ b
some_injective h = cc

-- Every entry was checked in the past, and where it is trusted it has a hash that names the content of the
-- file.
pub record IsTelling (Names : Text → Bytes → Type 0) (w : World) : Type 0 where
  pub past :
      (p : Text) (e : CheckoutEntry)
      → lookup p w.checkout.index.entries ≡ some e
      → e.checked_at ≤ w.now
  pub truth :
      (p : Text) (e : CheckoutEntry) (file : Blob)
      → lookup p w.checkout.index.entries ≡ some e
      → lookup p w.tree ≡ some file
      → is_trusted e file ≡ true
      → Names e.hash file.content

-- The entries that are trusted have the hashes of the files' contents.
abbrev pub IsHonest : (Bytes → Text) → World → Type 0
IsHonest sha256 w = IsTelling (λ hash content. hash ≡ sha256 content) w

-- An answer that names the content of a file, or none where there is no file.
pub IsTold : (Text → Bytes → Type 0) → Option Text → Option Blob → Type 0
IsTold Names none none = Unit
IsTold Names (some hash) (some file) = Names hash file.content
IsTold Names _ _ = ⊥

-- `Names` is any relation of hashes and contents in which each content has its own hash.
module _ (sha256 : Bytes → Text) (Names : Text → Bytes → Type 0)
    (own : (content : Bytes) → Names (sha256 content) content) where
  -- What the device and its user may do. A write leaves a modification time that lags behind the clock
  -- by the resolution of the file system's stamps at most, which is `racy_ms`. What the device records
  -- for a file that it wrote is a hash that names the content, such as that of a manifest: it is not computed.
  pub data Step : World → World → Type 0 where
    tick : (w : World) (later : ℕ) → w.now ≤ later → Step w (record w { now = later })
    write :
        (w : World) (p : Text) (file : Blob)
        → w.now ≤ file.mtime + racy_ms
        → Step w (record w { tree = insert p file w.tree })
    remove : (w : World) (p : Text) → Step w (record w { tree = erase p w.tree })
    look :
        (w : World) (p : Text)
        → Step w (record w { checkout = (hash_of sha256 w.tree w.now p w.checkout).1 })
    record_written :
        (w : World) (p hash : Text) (file : Blob) (c : Checkout)
        → lookup p w.tree ≡ some file
        → Names hash file.content
        → record_hash w.tree w.now p hash w.checkout ≡ ok c
        → Step w (record w { checkout = c })
    forget_file : (w : World) (p : Text) → Step w (record w { checkout = forget p w.checkout })
    mark :
        (w : World) (p hash : Text)
        → Step w (record w { checkout = mark_pending p hash w.checkout })
    clear : (w : World) (p : Text) → Step w (record w { checkout = clear_pending p w.checkout })
    save : (w : World) → Step w (record w { checkout = flush w.checkout })

  pub data Reach (start : World) : World → Type 0 where
    here : Reach start start
    next : {v w : World} → Reach start v → Step v w → Reach start w

  set_entry-IsTelling :
      (w : World) (p : Text) (e : CheckoutEntry)
      → IsTelling Names w
      → e.checked_at ≤ w.now
      → ((file : Blob) → lookup p w.tree ≡ some file → Names e.hash file.content)
      → IsTelling Names (record w { checkout = set_entry p e w.checkout })
  unfolding set_entry
  set_entry-IsTelling w p e h l t = record {
    past = λ q d i. ground (arith, lookup-insert p q e w.checkout.index.entries, h.past q d);
    truth = λ q d file i j k. elim (Bool-cases (text_eq p q)) [
      | inl same ↦
          let at_q : e ≡ d =
            some_injective
              (ground (arith, lookup-insert p q e w.checkout.index.entries, same, i)) in
          let at_p : lookup p w.tree ≡ some file =
            (ap (λ x. lookup x w.tree) ((text_eq_iff p q).0 same) ∙ j) in
          subst (λ x. Names x.hash file.content) at_q (t file at_p)
      | inr other ↦
          h.truth q d file (ground (arith, lookup-insert p q e w.checkout.index.entries, other, i))
            j k
    ];
  }

  -- An index with fewer entries, and none that is new.
  erase-IsTelling :
      (w : World) (p : Text) (c : Checkout)
      → IsTelling Names w
      → c.index.entries ≡ erase p w.checkout.index.entries
      → IsTelling Names (record w { checkout = c })
  erase-IsTelling w p c h e = record {
    past = λ q d i.
        ground (arith, lookup-erase p q w.checkout.index.entries, h.past q d, ap (lookup q) e);
    truth = λ q d file i j k.
        h.truth q d file
          (ground (arith, i, lookup-erase p q w.checkout.index.entries, ap (lookup q) e)) j k;
  }

  -- The same entries.
  same-IsTelling :
      (w : World) (c : Checkout)
      → IsTelling Names w
      → c.index.entries ≡ w.checkout.index.entries
      → IsTelling Names (record w { checkout = c })
  same-IsTelling w c h e = record {
    past = λ q d i. ground (arith, h.past q d, ap (lookup q) e);
    truth = λ q d file i j k. h.truth q d file (sym (ap (lookup q) e) ∙ i) j k;
  }

  rehash-IsTelling :
      (w : World) (p : Text) (file : Blob)
      → IsTelling Names w
      → lookup p w.tree ≡ some file
      → IsTelling Names (record w { checkout = (rehash sha256 p file w.now w.checkout).1 })
  unfolding rehash
  rehash-IsTelling w p file h i = set_entry-IsTelling w p _ h (omega arith) (λ other j.
      subst (λ x. Names (sha256 file.content) x.content) (some_injective (sym i ∙ j))
        (own file.content))

  hash_known-IsTelling :
      (w : World) (p : Text) (file : Blob) (known : Option CheckoutEntry)
      → IsTelling Names w
      → lookup p w.tree ≡ some file
      → IsTelling Names
          (record w { checkout = (hash_known sha256 p file w.now w.checkout known).1 })
  unfolding hash_known
  hash_known-IsTelling w p file none h i = rehash-IsTelling w p file h i
  hash_known-IsTelling w p file (some known) h i = elim (Bool-cases (is_trusted known file)) [
    | inl t ↦ rw (t, hash_known) (same-IsTelling w w.checkout h refl)
    | inr u ↦ rw (u, hash_known) (rehash-IsTelling w p file h i)
  ]

  hash_of-IsTelling :
      (w : World) (p : Text)
      → IsTelling Names w
      → IsTelling Names (record w { checkout = (hash_of sha256 w.tree w.now p w.checkout).1 })
  unfolding hash_of
  hash_of-IsTelling w p h = go (lookup p w.tree) refl
    where
      go :
          (found : Option Blob)
          → lookup p w.tree ≡ found
          → IsTelling Names
              (record w { checkout = (hash_of_file sha256 p found w.now w.checkout).1 })
      go none i = same-IsTelling w w.checkout h refl
      go (some file) i = hash_known-IsTelling w p file (lookup p w.checkout.index.entries) h i

  Step-IsTelling : {v w : World} → Step v w → IsTelling Names v → IsTelling Names w
  unfolding forget mark_pending clear_pending flush record_hash
  Step-IsTelling (tick v later le) h = record {
    past = λ p e i. ground (arith, h.past p e);
    truth = h.truth;
  }
  Step-IsTelling (write v p file recent) h = record {
    past = h.past;
    truth = λ q e found i j k. elim (Bool-cases (text_eq p q)) [
      | inl same ↦
          absurd (ground (arith, lookup-insert p q file v.tree, same, h.past q e i, i, j, k))
      | inr other ↦ h.truth q e found i (ground (arith, lookup-insert p q file v.tree, other, j)) k
    ];
  }
  Step-IsTelling (remove v p) h = record {
    past = h.past;
    truth = λ q e found i j k. h.truth q e found i (ground (arith, lookup-erase p q v.tree, j)) k;
  }
  Step-IsTelling (look v p) h = hash_of-IsTelling v p h
  Step-IsTelling (record_written v p hash file c there named done) h =
      let e = ok_injective (rw (there, record_hash) at done) in
      subst (λ (d : Checkout). IsTelling Names (record v { checkout = d })) e
        (set_entry-IsTelling v p _ h (omega arith)
          (λ other j. subst (λ x. Names hash x.content) (some_injective (sym there ∙ j)) named))
  Step-IsTelling (forget_file v p) h =
      elim (Bool-cases (is_some (lookup p v.checkout.index.entries))) [
        | inl b ↦ rw (b, forget) (erase-IsTelling v p _ h refl)
        | inr b ↦ rw (b, forget) (same-IsTelling v v.checkout h refl)
      ]
  Step-IsTelling (mark v p hash) h =
      elim (Bool-cases (marked (lookup p v.checkout.index.pending) hash)) [
        | inl b ↦ rw (b, mark_pending) (same-IsTelling v v.checkout h refl)
        | inr b ↦ rw (b, mark_pending) (erase-IsTelling v p _ h refl)
      ]
  Step-IsTelling (clear v p) h = same-IsTelling v (clear_pending p v.checkout) h (ground arith)
  Step-IsTelling (save v) h = same-IsTelling v (flush v.checkout) h (ground arith)

  empty-IsTelling : (w : World) → w.checkout.index.entries ≡ [] → IsTelling Names w
  unfolding lookup
  empty-IsTelling w e = record {
    past = λ q d i. cc (ap (lookup q) e);
    truth = λ q d file i j k. cc (ap (lookup q) e);
  }

  Reach-IsTelling : {v w : World} → IsTelling Names v → Reach v w → IsTelling Names w
  Reach-IsTelling h here = h
  Reach-IsTelling h (next r st) = Step-IsTelling st (Reach-IsTelling h r)

  hash_of_file-IsTold :
      (w : World) (p : Text) (found : Option Blob)
      → IsTelling Names w
      → lookup p w.tree ≡ found
      → IsTold Names (hash_of_file sha256 p found w.now w.checkout).0 found
  unfolding hash_of_file IsTold
  hash_of_file-IsTold w p none h i = tt
  hash_of_file-IsTold w p (some file) h i = go (lookup p w.checkout.index.entries) refl
    where
      go :
          (known : Option CheckoutEntry)
          → lookup p w.checkout.index.entries ≡ known
          → IsTold Names (hash_known sha256 p file w.now w.checkout known).0 (some file)
      go none j = own file.content
      go (some known) j = elim (Bool-cases (is_trusted known file)) [
        | inl trusted ↦ rw (trusted, hash_known) (h.truth p known file j i trusted)
        | inr stale ↦ rw (stale, hash_known) (own file.content)
      ]

  hash_of-IsTold_now :
      (w : World) (p : Text)
      → IsTelling Names w
      → IsTold Names (hash_of sha256 w.tree w.now p w.checkout).0 (lookup p w.tree)
  unfolding hash_of
  hash_of-IsTold_now w p h = hash_of_file-IsTold w p (lookup p w.tree) h refl

  -- A device that starts with an empty index, with a clock that never goes back, where every write of the
  -- user is stamped at most `racy_ms` behind the clock, and every hash that the device records for
  -- a file that it wrote names the content of the file, by any relation in which the hash of a content
  -- names it too. Whatever the user and the device's own operations do in any order, `hash_of` answers
  -- with a hash that names what is in the file now, and with nothing if there is no file.
  pub hash_of-IsTold :
      (start w : World) (p : Text)
      → start.checkout.index.entries ≡ []
      → Reach start w
      → IsTold Names (hash_of sha256 w.tree w.now p w.checkout).0 (lookup p w.tree)
  hash_of-IsTold start w p e r =
      hash_of-IsTold_now w p (Reach-IsTelling (empty-IsTelling start e) r)

IsTold-eq :
    (sha256 : Bytes → Text) (answer : Option Text) (found : Option Blob)
    → IsTold (λ hash content. hash ≡ sha256 content) answer found
    → answer ≡ Option.map (λ (file : Blob). sha256 file.content) found
unfolding IsTold
IsTold-eq sha256 none none told = refl
IsTold-eq sha256 (some hash) (some file) told = ap some told
IsTold-eq sha256 none (some file) told = absurd told
IsTold-eq sha256 (some hash) none told = absurd told

pub hash_of-IsHonest :
    (sha256 : Bytes → Text) (w : World) (p : Text)
    → IsHonest sha256 w
    → IsHonest sha256 (record w { checkout = (hash_of sha256 w.tree w.now p w.checkout).1 })
hash_of-IsHonest sha256 w p h =
    hash_of-IsTelling sha256 (λ hash content. hash ≡ sha256 content) (λ content. refl) w p h

pub hash_of-truth :
    (sha256 : Bytes → Text) (w : World) (p : Text)
    → IsHonest sha256 w
    → (hash_of sha256 w.tree w.now p w.checkout).0
      ≡ Option.map (λ (file : Blob). sha256 file.content) (lookup p w.tree)
hash_of-truth sha256 w p h =
    IsTold-eq sha256 _ _
      (hash_of-IsTold_now sha256 (λ hash content. hash ≡ sha256 content) (λ content. refl) w p h)
