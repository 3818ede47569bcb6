-- ===== src/Hamt/Persist/Tests.antt =====
-- The theorem about snapshots at a concrete trie over the store in memory.
use kelvin.Prelude.{ℕ, ◌<◌, ◌^◌, none, [], ◌∷◌, ◌≡◌, refl, arith}
use kelvin.Prelude.Outcome.{ok}
use kelvin.Content.{Bytes, u8, number, pair}
use kelvin.Content.Codecs.{u8-IsPlain, number-IsPlain, pair-IsPlain}
use kelvin.Content.Samples.{sample_hash, sample_hash-IsHasher, big_endian, big_endian-IsByteOrder}
use kelvin.Store.{store_persist, get_hash}
use kelvin.Store.Mem.{MemBackend, mem_new, mem_backend, mem_backend-IsBackend}
use kelvin.Handle.{Node, empty, leaf, node, compound, nil, cons}
use kelvin.Hamt.Persist.{node_content, root_hash}
use kelvin.Hamt.Persist.Encoding.{Codecs, node_bytes, node_digest}
use kelvin.Hamt.Persist.Snapshot.{root_hash-store_persist}

-- Keys and values of one byte, and the number of leaves as the annotation.
abbrev codecs : Codecs Bytes MemBackend (ℕ × ℕ) ℕ
codecs = record {
  hash = sample_hash;
  leaves = pair (u8 sample_hash) (u8 sample_hash);
  annotations = number sample_hash big_endian 8;
  masks = number sample_hash big_endian 2;
  fits_leaf = λ l. Unit {0} × Unit {0};
  fits_annotation = λ a. a < 256 ^ 8;
  fits_mask = λ m. m < 256 ^ 2;
  plain_leaf =
      pair-IsPlain sample_hash sample_hash-IsHasher (u8 sample_hash) (u8 sample_hash)
        (λ t. Unit {0}) (λ t. Unit {0}) (u8-IsPlain sample_hash sample_hash-IsHasher)
        (u8-IsPlain sample_hash sample_hash-IsHasher);
  plain_annotation =
      number-IsPlain sample_hash sample_hash-IsHasher big_endian 8 big_endian-IsByteOrder;
  plain_mask = number-IsPlain sample_hash sample_hash-IsHasher big_endian 2 big_endian-IsByteOrder;
}

-- A leaf, and a node in memory with two.
abbrev trie : Node (ℕ × ℕ) ℕ (Unit {0})
trie = compound tt (
    cons (leaf (1, 2)) (
      cons (node (compound tt (cons (leaf (3, 4)) (cons empty (cons (leaf (5, 6)) nil)))) 2 none)
        (cons empty nil)))

root_hash-store_persist_example :
    (hashed kept : Node (ℕ × ℕ) ℕ (Unit {0})) × (gen' : MemBackend) × (root_hash sample_hash
        mem_backend codecs.leaves codecs.annotations codecs.masks trie
        (mem_new ∷ [])
      ≡ ok (hashed, node_digest codecs trie))
    × (store_persist mem_backend sample_hash
          (node_content sample_hash mem_backend codecs.leaves codecs.annotations codecs.masks 3)
          trie
          (mem_new ∷ [])
        ≡ ok (kept, node_digest codecs trie, gen' ∷ []))
    × (get_hash mem_backend
          (node_content sample_hash mem_backend codecs.leaves codecs.annotations codecs.masks 3)
          (node_digest codecs trie)
          (gen' ∷ [])
        ≡ ok kept)
    × (node_bytes codecs hashed ≡ node_bytes codecs trie)
    × (node_bytes codecs kept ≡ node_bytes codecs trie)
unfolding kelvin.Hamt.Persist.mask_of
root_hash-store_persist_example =
    root_hash-store_persist codecs sample_hash-IsHasher mem_backend mem_backend-IsBackend trie 3
      mem_new []
      (
        omega arith,
        ((tt, tt), ((omega arith, (omega arith, ((tt, tt), (tt, ((tt, tt), tt))))), (tt, tt))),
      )
      refl
