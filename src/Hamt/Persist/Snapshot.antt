-- ===== src/Hamt/Persist/Snapshot.antt =====
-- A snapshot of a trie: its digest, and what a store restores from it.
use kelvin.Prelude.{
  ℕ, ◌++◌, ◌+◌, ◌*◌, ◌/◌, ◌%◌, none, List, [], ◌∷◌, ◌≡◌, refl, sym, ◌∙◌, append-nil, append_assoc,
  arith,
}
use kelvin.Prelude.Outcome.{Outcome, ok}
use kelvin.Content.{Bytes, dry_run, writing, write_all, read_byte}
use kelvin.Content.Laws.{IsHasher, read_exact-append}
use kelvin.Store.{Backend, sink_fin, store_persist, get_hash, get_from}
use kelvin.Store.Laws.{IsBackend}
use kelvin.Handle.{
  Handle, Node, Handles, empty, leaf, node, persisted, compound, nil, cons, count_handles, children,
}
use kelvin.Hamt.Persist.{
  mask_of, restore_handle, restore_handles, restore_tagged, restore_reference, node_content,
  root_hash,
}
use kelvin.Hamt.Persist.Encoding.{
  Codecs, handle_bytes, node_bytes, handles_bytes, node_digest, IsSound, IsSoundNode,
  IsSoundHandles, AreStored,
}
use kelvin.Hamt.Persist.Written.{sink_fin-ok}
use kelvin.Hamt.Persist.Writes.{compound_written}

module _ {S B L A : Type 0} (c : Codecs S B L A) (hasher : IsHasher c.hash) where
  abbrev restore_all : ℕ → ℕ → Bytes → Outcome (Handles L A (Unit {0}) × Bytes)
  restore_all = restore_handles c.hash c.leaves c.annotations

  restore_reference-stored :
      (d : Bytes) (a : A) (rest : Bytes)
      → IsSound c (persisted d a)
      → restore_handle c.hash c.leaves c.annotations (handle_bytes c (persisted d a) ++ rest)
        ≡ ok (persisted d a, rest)
  unfolding restore_handle restore_tagged restore_reference read_byte handle_bytes
  restore_reference-stored d a rest (e, f) =
      rw
        (
          append_assoc d (c.plain_annotation.bytes a) rest,
          read_exact-append d (c.plain_annotation.bytes a ++ rest) c.hash.len e,
          c.plain_annotation.restore_lem a rest f,
        )
        refl

  restore_leaf-stored :
      (l : L) (rest : Bytes)
      → c.fits_leaf l
      → restore_handle c.hash c.leaves c.annotations (handle_bytes c (leaf l) ++ rest)
        ≡ ok (leaf l, rest)
  unfolding restore_handle restore_tagged read_byte handle_bytes
  restore_leaf-stored l rest f = rw (c.plain_leaf.restore_lem l rest f) refl

  restore_present :
      (h : Handle L A (Unit {0})) (hs : Handles L A (Unit {0})) (rest : Bytes)
      → mask_of (cons h hs) ≡ 1 + 2 * mask_of hs
      → handles_bytes c (cons h hs) ≡ handle_bytes c h ++ handles_bytes c hs
      → restore_handle c.hash c.leaves c.annotations
          (handle_bytes c h ++ (handles_bytes c hs ++ rest))
        ≡ ok (h, handles_bytes c hs ++ rest)
      → restore_all (count_handles hs) (mask_of hs) (handles_bytes c hs ++ rest) ≡ ok (hs, rest)
      → restore_all
          (count_handles (cons h hs))
          (mask_of (cons h hs))
          (handles_bytes c (cons h hs) ++ rest)
        ≡ ok (cons h hs, rest)
  unfolding restore_handles
  restore_present h hs rest mask bytes here there =
      let odd : (1 + 2 * mask_of hs) % 2 ≡ 1 = omega arith in
      let half : (1 + 2 * mask_of hs) / 2 ≡ mask_of hs = omega arith in
      rw
        (
          mask,
          odd,
          half,
          bytes,
          append_assoc (handle_bytes c h) (handles_bytes c hs) rest,
          here,
          there,
        )
        refl

  -- Handles that are stored are restored from their encoding as they are.
  restore_handles-stored :
      (hs : Handles L A (Unit {0})) (rest : Bytes)
      → IsSoundHandles c hs
      → AreStored hs
      → restore_all (count_handles hs) (mask_of hs) (handles_bytes c hs ++ rest) ≡ ok (hs, rest)
  unfolding restore_handles handle_bytes mask_of
  restore_handles-stored nil rest i s = refl
  restore_handles-stored (cons empty hs) rest (_, i) (_, s) =
      let even : (2 * mask_of hs) % 2 ≡ 0 = omega arith in
      let half : (2 * mask_of hs) / 2 ≡ mask_of hs = omega arith in
      rw (even, half, restore_handles-stored hs rest i s) refl
  restore_handles-stored (cons (leaf l) hs) rest (f, i) (_, s) =
      restore_present (leaf l) hs rest refl refl
        (restore_leaf-stored l (handles_bytes c hs ++ rest) f) (restore_handles-stored hs rest i s)
  restore_handles-stored (cons (persisted d a) hs) rest (f, i) (_, s) =
      restore_present (persisted d a) hs rest refl refl
        (restore_reference-stored d a (handles_bytes c hs ++ rest) f)
        (restore_handles-stored hs rest i s)
  restore_handles-stored (cons (node n a d) hs) rest i s = absurd s.0

  restore_node-stored :
      (n : Node L A (Unit {0})) (backend : Backend B) (width : ℕ)
      → IsSoundNode c n
      → AreStored (children n)
      → count_handles (children n) ≡ width
      → (node_content c.hash backend c.leaves c.annotations c.masks width).restore (node_bytes c n)
        ≡ ok (n, [])
  unfolding node_content handle_bytes
  restore_node-stored (compound x hs) backend width (f, i) s e =
      rw
        (
          sym e,
          c.plain_mask.restore_lem (mask_of hs) (handles_bytes c hs) f,
          sym (append-nil (handles_bytes c hs)),
          restore_handles-stored hs [] i s,
        )
        refl

  module _ (backend : Backend B) (law : IsBackend backend) where
    -- On a trie whose values fit their codecs and whose cached hashes are right, over a backend that
    -- never fails to put: a dry run returns the digest of the trie's encoding, `Store::persist` succeeds
    -- with the same digest, and the store then restores under it the trie that this leaves in memory.
    -- Both leave a trie of the same encoding.
    pub root_hash-store_persist :
        (n : Node L A (Unit {0})) (width : ℕ) (gen : B) (gens : List B)
        → IsSoundNode c n
        → count_handles (children n) ≡ width
        → (hashed kept : Node L A (Unit {0})) × (gen' : B) × (root_hash c.hash backend c.leaves
              c.annotations c.masks n
              (gen ∷ gens)
            ≡ ok (hashed, node_digest c n))
          × (store_persist backend c.hash
                (node_content c.hash backend c.leaves c.annotations c.masks width)
                n
                (gen ∷ gens)
              ≡ ok (kept, node_digest c n, gen' ∷ gens))
          × (get_hash backend
                (node_content c.hash backend c.leaves c.annotations c.masks width)
                (node_digest c n)
                (gen' ∷ gens)
              ≡ ok kept)
          × (node_bytes c hashed ≡ node_bytes c n)
          × (node_bytes c kept ≡ node_bytes c n)
    unfolding root_hash store_persist get_hash get_from sink_fin write_all node_content node_bytes
    root_hash-store_persist n width gen gens i e =
        let (hashed, g, dry, same, _, _, _) =
          compound_written c hasher backend law n (dry_run c.hash.state) gen gens i in
        let (kept, g', wet, same', sound, stored, count) =
          compound_written c hasher backend law n (writing []) gen gens i in
        let (gen', ended, got) =
          sink_fin-ok c hasher backend law (node_bytes c n) none g' gens (λ d p. absurd (cc)) in
        (
          hashed,
          kept,
          gen',
          rw (dry, sink_fin, write_all) refl,
          rw (wet, ended) refl,
          rw (got, sym same', restore_node-stored kept backend width sound (stored tt) (count ∙ e))
              refl,
          same,
          same',
        )
