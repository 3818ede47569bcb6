-- ===== src/Hamt/Persist/Written.antt =====
-- What it is for a handle, a node or the handles of a node to be written, and the node arms of
-- `Handle::persist` by what their own sink comes to.
use kelvin.Prelude.{◌++◌, Option, none, some, List, [], ◌∷◌, ◌≡◌, refl, ap, sym}
use kelvin.Prelude.Outcome.{Outcome, ok, ◌>>=◌}
use kelvin.Content.{Bytes, Sink, dry_run, write_all}
use kelvin.Content.Laws.{IsHasher, write_all-append}
use kelvin.Store.{Backend, Store, store_put, sink_fin}
use kelvin.Store.Laws.{IsBackend}
use kelvin.Handle.{Handle, Node, Handles, node, persisted, cons, count_handles, children}
use kelvin.Hamt.Persist.{
  mask_of, sub_sink, persist_reference, finish_dry, finish_write, persist_handle, persist_node,
  persist_handles,
}
use kelvin.Hamt.Persist.Encoding.{
  Codecs, handle_bytes, node_bytes, handles_bytes, node_digest, IsSound, IsSoundNode,
  IsSoundHandles, IsStored, AreStored, HasStore,
}

module _ {S B L A : Type 0} (c : Codecs S B L A) (hasher : IsHasher c.hash) (backend : Backend B)
    (law : IsBackend backend) where
  -- A handle that is persisted leaves one with the same encoding, which is stored if the sink has a
  -- store.
  abbrev pub HandleWritten :
      Handle L A (Unit {0})
      → Sink S
      → List B
      → Outcome (Handle L A (Unit {0}) × Sink S × Store B)
      → Type 0
  HandleWritten h sink gens run =
      (h' : Handle L A (Unit {0})) × (gen' : B) × (run
        ≡ ok (h', write_all c.hash (handle_bytes c h) sink, gen' ∷ gens))
      × (handle_bytes c h' ≡ handle_bytes c h)
      × IsSound c h'
      × (HasStore sink → IsStored h')
      × ((hs hs' : Handles L A (Unit {0}))
          → mask_of hs' ≡ mask_of hs
          → mask_of (cons h' hs') ≡ mask_of (cons h hs))
      × ((hs hs' : Handles L A (Unit {0}))
          → handles_bytes c hs' ≡ handles_bytes c hs
          → handles_bytes c (cons h' hs') ≡ handles_bytes c (cons h hs))

  pub persist_reference-ok :
      (digest : Bytes) (a : A) (sink : Sink S) (store : Store B)
      → c.fits_annotation a
      → persist_reference c.hash c.annotations digest a sink store
        ≡ ok (a, write_all c.hash (2 ∷ (digest ++ c.plain_annotation.bytes a)) sink, store)
  unfolding persist_reference
  persist_reference-ok digest a sink store f =
      rw
        (
          persist_reference,
          write_all-append c.hash hasher (2 ∷ []) digest sink,
          c.plain_annotation.persist_lem a (write_all c.hash (2 ∷ digest) sink) store f,
          write_all-append c.hash hasher (2 ∷ digest) (c.plain_annotation.bytes a) sink,
        )
        refl

  -- The node of its own ends under the digest of its bytes.
  pub sink_fin-ok :
      (bytes : Bytes) (cached : Option Bytes) (gen : B) (gens : List B)
      → ((digest : Bytes)
          → cached ≡ some digest
          → digest ≡ c.hash.fin (c.hash.write c.hash.state bytes))
      → (gen' : B) × (sink_fin backend c.hash
            (write_all c.hash bytes (sub_sink cached))
            (gen ∷ gens)
          ≡ ok (c.hash.fin (c.hash.write c.hash.state bytes), gen' ∷ gens))
        × (backend.get (c.hash.fin (c.hash.write c.hash.state bytes)) gen' ≡ ok bytes)
  unfolding sink_fin sub_sink write_all store_put
  sink_fin-ok bytes none gen gens known =
      let (r, done) = law.puts (c.hash.fin (c.hash.write c.hash.state bytes)) bytes gen in
      (r.1, rw done refl, law.get_put _ bytes gen r done)
  sink_fin-ok bytes (some digest) gen gens known =
      let (r, done) = law.puts (c.hash.fin (c.hash.write c.hash.state bytes)) bytes gen in
      (r.1, rw (known digest refl, done) refl, law.get_put _ bytes gen r done)

  abbrev pub persist :
      Handle L A (Unit {0}) → Sink S → Store B → Outcome (Handle L A (Unit {0}) × Sink S × Store B)
  persist = persist_handle c.hash backend c.leaves c.annotations c.masks

  abbrev pub NodeWritten :
      Node L A (Unit {0})
      → Sink S
      → List B
      → Outcome (Node L A (Unit {0}) × Sink S × Store B)
      → Type 0
  NodeWritten n sink gens run =
      (n' : Node L A (Unit {0})) × (gen' : B) × (run
        ≡ ok (n', write_all c.hash (node_bytes c n) sink, gen' ∷ gens))
      × (node_bytes c n' ≡ node_bytes c n)
      × IsSoundNode c n'
      × (HasStore sink → AreStored (children n'))
      × (count_handles (children n') ≡ count_handles (children n))

  abbrev pub HandlesWritten :
      Handles L A (Unit {0})
      → Bytes
      → Sink S
      → List B
      → Outcome (Handles L A (Unit {0}) × Sink S × Store B)
      → Type 0
  HandlesWritten hs before sink gens run =
      (hs' : Handles L A (Unit {0})) × (gen' : B) × (run
        ≡ ok (hs', write_all c.hash (before ++ handles_bytes c hs) sink, gen' ∷ gens))
      × (handles_bytes c hs' ≡ handles_bytes c hs)
      × (mask_of hs' ≡ mask_of hs)
      × IsSoundHandles c hs'
      × (HasStore sink → AreStored hs')
      × (count_handles hs' ≡ count_handles hs)

  pub node_dry :
      (n : Node L A (Unit {0})) (a : A) (s : S) (gen : B) (gens : List B)
      → c.fits_annotation a
      → NodeWritten n (dry_run c.hash.state) gens (
          persist_node c.hash backend c.leaves c.annotations c.masks n
            (dry_run c.hash.state)
            (gen ∷ gens))
      → HandleWritten
          (node n a none)
          (dry_run s)
          gens
          (persist (node n a none) (dry_run s) (gen ∷ gens))
  unfolding persist_handle finish_dry handle_bytes mask_of sink_fin write_all
  node_dry n a s gen gens f (n', gen', done, same, sound, _, _) = (
    node n' a (some (node_digest c n)),
    gen',
    rw (done, persist_reference-ok (node_digest c n) a (dry_run s) (gen' ∷ gens) f) refl,
    rw same refl,
    (f, ap (λ bytes. c.hash.fin (c.hash.write c.hash.state bytes)) (sym same), sound),
    λ impossible. absurd impossible,
    λ hs hs' e. rw e refl,
    λ hs hs' e. rw (e, same) refl,
  )

  pub node_cached :
      (n : Node L A (Unit {0})) (a : A) (digest : Bytes) (s : S) (gen : B) (gens : List B)
      → IsSound c (node n a (some digest))
      → HandleWritten
          (node n a (some digest))
          (dry_run s)
          gens
          (persist (node n a (some digest)) (dry_run s) (gen ∷ gens))
  unfolding persist_handle finish_dry handle_bytes mask_of write_all
  node_cached n a digest s gen gens (f, known, sound) = (
    node n a (some digest),
    gen,
    rw (persist_reference-ok digest a (dry_run s) (gen ∷ gens) f, known) refl,
    refl,
    (f, known, sound),
    λ impossible. absurd impossible,
    λ hs hs' e. rw e refl,
    λ hs hs' e. rw e refl,
  )

  -- With a store, whichever its sink.
  pub node_stored :
      (n : Node L A (Unit {0})) (a : A) (cached : Option Bytes) (sink : Sink S) (gen : B)
      (gens : List B)
      → c.fits_annotation a
      → ((digest : Bytes) → cached ≡ some digest → digest ≡ node_digest c n)
      → NodeWritten n (sub_sink cached) gens (
          persist_node c.hash backend c.leaves c.annotations c.masks n
            (sub_sink cached)
            (gen ∷ gens))
      → HandleWritten (node n a cached) sink gens (
          persist_node c.hash backend c.leaves c.annotations c.masks n
            (sub_sink cached)
            (gen ∷ gens)
          >>= λ r. finish_write c.hash c.annotations a sink (sink_fin backend c.hash r.1 r.2))
  unfolding finish_write handle_bytes mask_of
  node_stored n a cached sink gen gens f known (n', gen', done, same, sound, _, _) =
      let (gen'', ended, _) = sink_fin-ok (node_bytes c n) cached gen' gens known in
      (
        persisted (node_digest c n) a,
        gen'',
        rw (done, ended, persist_reference-ok (node_digest c n) a sink (gen'' ∷ gens) f) refl,
        refl,
        (hasher.length_fin _, f),
        λ _. tt,
        λ hs hs' e. rw e refl,
        λ hs hs' e. rw e refl,
      )

  abbrev pub persist_all :
      Handles L A (Unit {0})
      → Sink S
      → Store B
      → Outcome (Handles L A (Unit {0}) × Sink S × Store B)
  persist_all = persist_handles c.hash backend c.leaves c.annotations c.masks
