-- ===== src/Hamt/Persist/Sequence.antt =====
-- The handles of a node are written one after the other, without those that are empty.
use kelvin.Prelude.{suc, ◌++◌, List, [], ◌∷◌, ◌≡◌, refl, ap, ◌∙◌, append_assoc}
use kelvin.Prelude.Outcome.{ok, ◌>>=◌}
use kelvin.Content.{Bytes, Sink, dry_run, writing, writing_cached, write_all}
use kelvin.Content.Laws.{IsHasher, write_all-append}
use kelvin.Store.{Backend, Store}
use kelvin.Store.Laws.{IsBackend}
use kelvin.Handle.{Handle, Handles, empty, leaf, node, persisted, cons}
use kelvin.Hamt.Persist.{mask_of, persist_handle}
use kelvin.Hamt.Persist.Encoding.{Codecs, handle_bytes, handles_bytes, IsSound, HasStore}
use kelvin.Hamt.Persist.Written.{
  HandleWritten, HandlesWritten, persist_all, persist_reference-ok, persist,
}

module _ {S B L A : Type 0} (c : Codecs S B L A) (hasher : IsHasher c.hash) (backend : Backend B)
    (law : IsBackend backend) where
  abbrev IsPresent : Handle L A (Unit {0}) → Type 0
  IsPresent empty = ⊥
  IsPresent _ = Unit

  HasStore-write_all :
      (bytes : Bytes) (sink : Sink S) → HasStore sink → HasStore (write_all c.hash bytes sink)
  unfolding write_all
  HasStore-write_all bytes (dry_run s) h = h
  HasStore-write_all bytes (writing w) h = h
  HasStore-write_all bytes (writing_cached w d) h = h

  handles_bytes-cons :
      (h : Handle L A (Unit {0})) (hs : Handles L A (Unit {0}))
      → IsPresent h
      → handles_bytes c (cons h hs) ≡ handle_bytes c h ++ handles_bytes c hs
  unfolding handle_bytes
  handles_bytes-cons empty hs p = absurd p
  handles_bytes-cons (leaf l) hs p = refl
  handles_bytes-cons (persisted d a) hs p = refl
  handles_bytes-cons (node n a d) hs p = refl

  persist_handles-cons :
      (h : Handle L A (Unit {0})) (hs : Handles L A (Unit {0})) (sink : Sink S) (store : Store B)
      → IsPresent h
      → persist_all c hasher backend law (cons h hs) sink store ≡ (
          persist c hasher backend law h sink store >>= λ q.
          persist_all c hasher backend law hs q.1 q.2 >>= λ r. ok (cons q.0 r.0, r.1, r.2))
  unfolding persist_handle
  persist_handles-cons empty hs sink store p = absurd p
  persist_handles-cons (leaf l) hs sink store p = refl
  persist_handles-cons (persisted d a) hs sink store p = refl
  persist_handles-cons (node n a d) hs sink store p = refl

  pub cons_written :
      (h : Handle L A (Unit {0})) (hs : Handles L A (Unit {0})) (before : Bytes) (sink : Sink S)
      (gen : B) (gens : List B)
      → IsPresent h
      → HandleWritten c hasher backend law h
          (write_all c.hash before sink)
          gens
          (persist c hasher backend law h (write_all c.hash before sink) (gen ∷ gens))
      → ((gen' : B)
          → HandlesWritten c hasher backend law hs (before ++ handle_bytes c h) sink gens (
              persist_all c hasher backend law hs
                (write_all c.hash (before ++ handle_bytes c h) sink)
                (gen' ∷ gens)))
      → HandlesWritten c hasher backend law
          (cons h hs)
          before
          sink
          gens
          (persist_all c hasher backend law (cons h hs) (write_all c.hash before sink) (gen ∷ gens))
  cons_written h hs before sink gen gens present (h', gen', done, _, sound, stored, masked, written)
        rest =
      let (hs', gen'', done', same', mask', sound', stored', count') = rest gen' in
      (
        cons h' hs',
        gen'',
        persist_handles-cons h hs (write_all c.hash before sink) (gen ∷ gens) present
            ∙ rw
                (
                  done,
                  write_all-append c.hash hasher before (handle_bytes c h) sink,
                  done',
                  handles_bytes-cons h hs present,
                  append_assoc before (handle_bytes c h) (handles_bytes c hs),
                )
                refl,
        written hs hs' same',
        masked hs hs' mask',
        (sound, sound'),
        λ has. (stored (HasStore-write_all before sink has), stored' has),
        ap suc count',
      )

  pub empty_written :
      (hs : Handles L A (Unit {0})) (before : Bytes) (sink : Sink S) (gen : B) (gens : List B)
      → HandlesWritten c hasher backend law hs before sink gens
          (persist_all c hasher backend law hs (write_all c.hash before sink) (gen ∷ gens))
      → HandlesWritten c hasher backend law (cons empty hs) before sink gens (
          persist_all c hasher backend law
            (cons empty hs)
            (write_all c.hash before sink)
            (gen ∷ gens))
  unfolding persist_handle handle_bytes mask_of
  empty_written hs before sink gen gens (hs', gen', done, same, mask, sound, stored, count) = (
    cons empty hs',
    gen',
    rw done refl,
    same,
    rw mask refl,
    (tt, sound),
    λ has. (tt, stored has),
    ap suc count,
  )

  pub leaf_written :
      (l : L) (sink : Sink S) (gen : B) (gens : List B)
      → c.fits_leaf l
      → HandleWritten c hasher backend law
          (leaf l)
          sink
          gens
          (persist c hasher backend law (leaf l) sink (gen ∷ gens))
  unfolding persist_handle handle_bytes mask_of
  leaf_written l sink gen gens f = (
    leaf l,
    gen,
    rw
        (
          c.plain_leaf.persist_lem l (write_all c.hash (1 ∷ []) sink) (gen ∷ gens) f,
          write_all-append c.hash hasher (1 ∷ []) (c.plain_leaf.bytes l) sink,
        )
        refl,
    refl,
    f,
    λ _. tt,
    λ hs hs' e. rw e refl,
    λ hs hs' e. rw e refl,
  )

  pub persisted_written :
      (d : Bytes) (a : A) (sink : Sink S) (gen : B) (gens : List B)
      → IsSound c (persisted d a)
      → HandleWritten c hasher backend law
          (persisted d a)
          sink
          gens
          (persist c hasher backend law (persisted d a) sink (gen ∷ gens))
  unfolding persist_handle handle_bytes mask_of
  persisted_written d a sink gen gens (e, f) = (
    persisted d a,
    gen,
    rw (persist_reference-ok c hasher backend law d a sink (gen ∷ gens) f) refl,
    refl,
    (e, f),
    λ _. tt,
    λ hs hs' e. rw e refl,
    λ hs hs' e. rw e refl,
  )
