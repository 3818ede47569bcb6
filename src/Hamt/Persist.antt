-- ===== src/Hamt/Persist.antt =====
-- `Content for Handle` in src/handle.rs, `Content for HAMT` and for `NarrowHAMT` in
-- structures/hamt/src/lib.rs, and `root_hash` in src/compound.rs.
--
-- A node that a sink with a store meets is written on its own, through a sink of its own, and the
-- handle becomes a reference to its digest. A dry run writes the digest only, and caches it. The
-- checks of cached hashes by `debug_assert!` are not modelled.
pub mod Encoding
mod Written
mod Sequence
mod Writes
pub mod Snapshot
mod Tests
use kelvin.Prelude.{
  ℕ, zero, suc, ◌+◌, ◌*◌, ◌/◌, ◌%◌, Option, none, some, List, [], ◌∷◌, if◌then◌else◌, ◌==◌,
}
use kelvin.Prelude.Outcome.{Outcome, ok, failed, panicked, exhausted, ◌>>=◌, invalid_data}
use kelvin.Content.{
  Bytes, ByteHash, Sink, dry_run, writing, writing_cached, Content, write_all, read_exact,
  read_byte,
}
use kelvin.Store.{Backend, Store, sink_fin}
use kelvin.Handle.{Digest, Handle, Node, Handles, empty, leaf, node, persisted, compound, nil, cons}

module _ {L A : Type 0} where
  -- The bits of the handles that are not empty, the first handle's the lowest.
  unfoldable pub mask_of : Handles L A (Unit {0}) → ℕ
  mask_of nil = 0
  mask_of (cons empty hs) = 2 * mask_of hs
  mask_of (cons h hs) = 1 + 2 * mask_of hs

module _ {S : Type 0} where
  -- The sink for a node of its own, with the cached hash if there is one.
  unfoldable pub sub_sink : Option Digest → Sink S
  sub_sink none = writing []
  sub_sink (some digest) = writing_cached [] digest

module _ {S B A : Type 0} (hash : ByteHash S) (annotations : Content S (Store B) A) where
  -- The arm for a persisted handle.
  unfoldable pub persist_reference : Digest → A → Sink S → Store B → Outcome (A × Sink S × Store B)
  unfolding write_all
  persist_reference digest a sink store =
      annotations.persist a (write_all hash digest (write_all hash (2 ∷ []) sink)) store

  unfoldable pub finish_dry :
      {L : Type 0}
      → A
      → Sink S
      → Node L A (Unit {0})
      → Outcome (Bytes × Store B)
      → Outcome (Handle L A (Unit {0}) × Sink S × Store B)
  unfolding persist_reference
  finish_dry a sink n r =
      r >>= λ d. persist_reference d.0 a sink d.1 >>= λ w. ok (node n w.0 (some d.0), w.1, w.2)

  unfoldable pub finish_write :
      {L : Type 0}
      → A
      → Sink S
      → Outcome (Bytes × Store B)
      → Outcome (Handle L A (Unit {0}) × Sink S × Store B)
  unfolding persist_reference
  finish_write a sink r =
      r >>= λ d. persist_reference d.0 a sink d.1 >>= λ w. ok (persisted d.0 w.0, w.1, w.2)

-- `Result::expect`
unfoldable pub expect : {R : Type 0} → Outcome R → Outcome R
expect (failed e) = panicked
expect r = r

module _ {S B L A : Type 0} (hash : ByteHash S) (leaves : Content S (Store B) L)
    (annotations : Content S (Store B) A) where
  unfoldable pub restore_reference : Bytes × Bytes → Outcome (Handle L A (Unit {0}) × Bytes)
  restore_reference (digest, rest) =
      annotations.restore rest >>= λ r. ok (persisted digest r.0, r.1)

  unfoldable pub restore_tagged : Bytes → ℕ → Outcome (Handle L A (Unit {0}) × Bytes)
  unfolding restore_reference read_exact
  restore_tagged rest zero = ok (empty, rest)
  restore_tagged rest (suc zero) = leaves.restore rest >>= λ r. ok (leaf r.0, r.1)
  restore_tagged rest (suc (suc zero)) = read_exact hash.len rest >>= restore_reference
  restore_tagged rest _ = failed invalid_data

  -- `Handle::restore`
  unfoldable pub restore_handle : Bytes → Outcome (Handle L A (Unit {0}) × Bytes)
  unfolding restore_tagged read_byte
  restore_handle source = read_byte source >>= λ r. restore_tagged r.1 r.0

  -- The loop of `HAMT::restore` over `width` handles; the mask loses a bit with each.
  unfoldable pub restore_handles : ℕ → ℕ → Bytes → Outcome (Handles L A (Unit {0}) × Bytes)
  unfolding restore_handle
  restore_handles zero mask source = ok (nil, source)
  restore_handles (suc width) mask source =
      (if mask % 2 == 0 then ok (empty, source) else restore_handle source) >>= λ q.
      restore_handles width (mask / 2) q.1 >>= λ r. ok (cons q.0 r.0, r.1)

module _ {S B L A : Type 0} (hash : ByteHash S) (backend : Backend B)
    (leaves : Content S (Store B) L) (annotations : Content S (Store B) A)
    (masks : Content S (Store B) ℕ) where
  unfoldable mutual
    unfolding persist_reference finish_dry finish_write sub_sink sink_fin write_all mask_of

    -- `Handle::persist`
    pub persist_handle :
        Handle L A (Unit {0})
        → Sink S
        → Store B
        → Outcome (Handle L A (Unit {0}) × Sink S × Store B)
    persist_handle empty sink store = ok (empty, write_all hash (0 ∷ []) sink, store)
    persist_handle (leaf l) sink store =
        leaves.persist l (write_all hash (1 ∷ []) sink) store >>= λ r. ok (leaf r.0, r.1, r.2)
    persist_handle (persisted digest a) sink store =
        persist_reference hash annotations digest a sink store >>= λ r.
        ok (persisted digest r.0, r.1, r.2)
    persist_handle (node n a (some digest)) (dry_run s) store =
        finish_dry hash annotations a (dry_run s) n (ok (digest, store))
    persist_handle (node n a none) (dry_run s) store =
        persist_node n (dry_run hash.state) store >>= λ r.
        finish_dry hash annotations a (dry_run s) r.0 (sink_fin backend hash r.1 r.2)
    persist_handle (node n a cached) sink store = persist_node n (sub_sink cached) store >>= λ r.
        finish_write hash annotations a sink (sink_fin backend hash r.1 r.2)

    -- `HAMT::persist`
    pub persist_node :
        Node L A (Unit {0}) → Sink S → Store B → Outcome (Node L A (Unit {0}) × Sink S × Store B)
    persist_node (compound x hs) sink store = masks.persist (mask_of hs) sink store >>= λ r.
        persist_handles hs r.1 r.2 >>= λ q. ok (compound x q.0, q.1, q.2)

    -- The second loop of `HAMT::persist`: an empty handle has no bit in the mask.
    pub persist_handles :
        Handles L A (Unit {0})
        → Sink S
        → Store B
        → Outcome (Handles L A (Unit {0}) × Sink S × Store B)
    persist_handles nil sink store = ok (nil, sink, store)
    persist_handles (cons empty hs) sink store =
        persist_handles hs sink store >>= λ r. ok (cons empty r.0, r.1, r.2)
    persist_handles (cons h hs) sink store = persist_handle h sink store >>= λ q.
        persist_handles hs q.1 q.2 >>= λ r. ok (cons q.0 r.0, r.1, r.2)

  -- `Content for HAMT` and for `NarrowHAMT`
  unfoldable pub node_content : ℕ → Content S (Store B) (Node L A (Unit {0}))
  unfolding persist_node restore_handles
  node_content width = record {
    persist = persist_node;
    restore = λ source. masks.restore source >>= λ r.
        restore_handles hash leaves annotations width r.0 r.1 >>= λ q. ok (compound tt q.0, q.1);
  }

  -- `Compound::root_hash`; a dry run leaves the store alone.
  unfoldable pub root_hash : Node L A (Unit {0}) → Store B → Outcome (Node L A (Unit {0}) × Digest)
  unfolding persist_node sink_fin expect
  root_hash n store = expect (persist_node n (dry_run hash.state) store) >>= λ r.
      expect (sink_fin backend hash r.1 r.2) >>= λ q. ok (r.0, q.0)
