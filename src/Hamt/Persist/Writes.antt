-- ===== src/Hamt/Persist/Writes.antt =====
-- What is written for a trie is its encoding, and what is left of it is the same trie.
use kelvin.Prelude.{◌++◌, none, some, List, [], ◌∷◌, refl, sym, append-nil, subst}
use kelvin.Content.{Bytes, Sink, dry_run, writing, writing_cached, write_all}
use kelvin.Content.Laws.{IsHasher}
use kelvin.Store.{Backend}
use kelvin.Store.Laws.{IsBackend}
use kelvin.Handle.{Handle, Node, Handles, empty, leaf, node, persisted, compound, nil, cons}
use kelvin.Hamt.Persist.{mask_of, sub_sink, persist_handle, persist_node}
use kelvin.Hamt.Persist.Encoding.{Codecs, handle_bytes, IsSound, IsSoundNode, IsSoundHandles}
use kelvin.Hamt.Persist.Written.{
  HandleWritten, NodeWritten, HandlesWritten, persist_all, node_dry, node_cached, node_stored,
  persist,
}
use kelvin.Hamt.Persist.Sequence.{cons_written, empty_written, leaf_written, persisted_written}

module _ {S B L A : Type 0} (c : Codecs S B L A) (hasher : IsHasher c.hash) (backend : Backend B)
    (law : IsBackend backend) where
  mutual
    unfolding persist_handle handle_bytes mask_of sub_sink

    handle_written :
        (h : Handle L A (Unit {0})) (sink : Sink S) (gen : B) (gens : List B)
        → IsSound c h
        → HandleWritten c hasher backend law h sink gens
            (persist c hasher backend law h sink (gen ∷ gens))
    handle_written empty sink gen gens i =
        (empty, gen, refl, refl, tt, λ _. tt, λ hs hs' e. rw e refl, λ hs hs' e. e)
    handle_written (leaf l) sink gen gens f = leaf_written c hasher backend law l sink gen gens f
    handle_written (persisted d a) sink gen gens i =
        persisted_written c hasher backend law d a sink gen gens i
    handle_written (node n a none) (dry_run s) gen gens (f, i) =
        node_dry c hasher backend law n a s gen gens f
          (compound_written n (dry_run c.hash.state) gen gens i)
    handle_written (node n a (some d)) (dry_run s) gen gens i =
        node_cached c hasher backend law n a d s gen gens i
    handle_written (node n a none) (writing w) gen gens (f, i) =
        node_stored c hasher backend law n a none (writing w) gen gens f (λ d e. absurd (cc))
          (compound_written n (writing []) gen gens i)
    handle_written (node n a (some d)) (writing w) gen gens (f, known, i) =
        node_stored c hasher backend law n a (some d) (writing w) gen gens f (λ d' e. cc)
          (compound_written n (writing_cached [] d) gen gens i)
    handle_written (node n a none) (writing_cached w x) gen gens (f, i) =
        node_stored c hasher backend law n a none (writing_cached w x) gen gens f
          (λ d e. absurd (cc)) (compound_written n (writing []) gen gens i)
    handle_written (node n a (some d)) (writing_cached w x) gen gens (f, known, i) =
        node_stored c hasher backend law n a (some d) (writing_cached w x) gen gens f (λ d' e. cc)
          (compound_written n (writing_cached [] d) gen gens i)

    pub compound_written :
        (n : Node L A (Unit {0})) (sink : Sink S) (gen : B) (gens : List B)
        → IsSoundNode c n
        → NodeWritten c hasher backend law n sink gens
            (persist_node c.hash backend c.leaves c.annotations c.masks n sink (gen ∷ gens))
    compound_written (compound x hs) sink gen gens (f, i) =
        let (hs', gen', done, same, mask, sound, stored, count) =
          handles_written hs (c.plain_mask.bytes (mask_of hs)) sink gen gens i in
        (
          compound x hs',
          gen',
          rw (c.plain_mask.persist_lem (mask_of hs) sink (gen ∷ gens) f, done) refl,
          rw (mask, same) refl,
          (subst c.fits_mask (sym mask) f, sound),
          stored,
          count,
        )

    handles_written :
        (hs : Handles L A (Unit {0})) (before : Bytes) (sink : Sink S) (gen : B) (gens : List B)
        → IsSoundHandles c hs
        → HandlesWritten c hasher backend law hs before sink gens
            (persist_all c hasher backend law hs (write_all c.hash before sink) (gen ∷ gens))
    handles_written nil before sink gen gens i =
        (nil, gen, rw (append-nil before) refl, refl, refl, tt, λ _. tt, refl)
    handles_written (cons empty hs) before sink gen gens (_, i) =
        empty_written c hasher backend law hs before sink gen gens
          (handles_written hs before sink gen gens i)
    handles_written (cons (leaf l) hs) before sink gen gens (f, i) =
        cons_written c hasher backend law (leaf l) hs before sink gen gens tt
          (handle_written (leaf l) (write_all c.hash before sink) gen gens f)
          (λ gen'. handles_written hs (before ++ handle_bytes c (leaf l)) sink gen' gens i)
    handles_written (cons (persisted d a) hs) before sink gen gens (f, i) =
        cons_written c hasher backend law (persisted d a) hs before sink gen gens tt
          (handle_written (persisted d a) (write_all c.hash before sink) gen gens f)
          (λ gen'. handles_written hs (before ++ handle_bytes c (persisted d a)) sink gen' gens i)
    handles_written (cons (node n a d) hs) before sink gen gens (f, i) =
        cons_written c hasher backend law (node n a d) hs before sink gen gens tt
          (handle_written (node n a d) (write_all c.hash before sink) gen gens f)
          (λ gen'. handles_written hs (before ++ handle_bytes c (node n a d)) sink gen' gens i)
