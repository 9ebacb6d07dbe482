-- ===== src/Tests/Devices.antt =====
-- A device with one file. The hash of these tests is the content itself.
use arxhub.Base.{
  Bytes, Text, [], arith, codes, false, inl, inr, refl, some, text_eq, true, ◌∷◌, ◌≡◌, ◌⊎◌,
}
use arxhub.Base.Dict.{insert, lookup}
use arxhub.Sync.Checkout.{Index, hash_of, record_hash}
use arxhub.Sync.Checkout.Honest.{
  IsTold, World, hash_of-IsTold, here, look, next, record_written, write,
}

abbrev same_hash : Bytes → Text
same_hash content = content

abbrev empty_index : Index
empty_index = record { entries = []; pending = [] }

abbrev note : Text
note = codes "vault/note"

abbrev device : World
device = record {
  tree = (note, record { content = 7 ∷ []; mtime = 5000 }) ∷ [];
  now = 9000;
  checkout = record { index = empty_index; dirty = false; saved = empty_index };
}

-- The device looks at the file, and the user then writes it anew at once.
abbrev looked : World
looked = record device { checkout = (hash_of same_hash device.tree 9000 note device.checkout).1 }

abbrev edited : World
edited = record looked {
  tree = insert note (record { content = 8 ∷ []; mtime = 8000 }) looked.tree;
}

edit_is_seen : (hash_of same_hash edited.tree 9000 note edited.checkout).0 ≡ some (8 ∷ [])
unfolding hash_of insert text_eq lookup
edit_is_seen = refl

-- The hash in these tests is the content, and another name that manifests give the edit's content.
abbrev NamesHere : Text → Bytes → Type 0
NamesHere hash content = (hash ≡ content) ⊎ ((hash ≡ codes "h8") × (content ≡ 8 ∷ []))

abbrev recorded : World
recorded = record edited {
  checkout = record edited.checkout {
    index = record edited.checkout.index {
      entries =
          insert note (record { hash = codes "h8"; size = 1; mtime = 8000; checked_at = 9000 })
            edited.checkout.index.entries;
    };
    dirty = true;
  };
}

hash_of-IsTold_example :
    IsTold NamesHere
      (hash_of same_hash recorded.tree recorded.now note recorded.checkout).0
      (lookup note recorded.tree)
unfolding record_hash lookup insert text_eq
hash_of-IsTold_example =
    hash_of-IsTold same_hash NamesHere (λ content. inl refl) device recorded note refl
      (next
        (next (next here (look device note))
          (write looked note (record { content = 8 ∷ []; mtime = 8000 }) (omega arith)))
        (record_written edited note (codes "h8") (record { content = 8 ∷ []; mtime = 8000 })
          recorded.checkout refl (inr (refl, refl)) refl))
