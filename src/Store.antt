-- ===== src/Store.antt =====
-- src/backend/mod.rs, src/backend/mem.rs, src/store.rs, src/erased.rs and `Sink::fin`: bytes kept under
-- their digests, and values persisted and restored by them.
--
-- A store is the list of its generations; the locks are not modelled, as each is held for one call.
-- A snapshot is its digest, the store it refers to being passed along.
pub mod Mem
pub mod Laws
mod Tests
use kelvin.Prelude.{ℕ, ◌+◌, ◌%◌, ◌^◌, List, [], ◌∷◌}
use kelvin.Prelude.Outcome.{Outcome, ok, failed, panicked, exhausted, ◌>>=◌, not_found}
use kelvin.Content.{Bytes, ByteHash, Sink, dry_run, writing, writing_cached, Content, write_all}

-- `PutResult`
pub data PutResult : Type 0 where
  put_ok already_there : PutResult

-- `Backend`: a reader is the bytes it gives.
pub record Backend (B : Type 0) : Type 0 where
  pub get : Bytes → B → Outcome Bytes
  pub put : Bytes → Bytes → B → Outcome (PutResult × B)
  pub flush : B → Outcome B
  pub size : B → ℕ

abbrev pub Store : Type 0 → Type 0
Store B = List B

module _ {B : Type 0} (backend : Backend B) where
  -- `Store::put`: `generations[0]`
  unfoldable pub store_put : Bytes → Bytes → Store B → Outcome (PutResult × Store B)
  store_put digest bytes [] = panicked
  store_put digest bytes (gen ∷ gens) = backend.put digest bytes gen >>= λ r. ok (r.0, r.1 ∷ gens)

  -- `Store::flush`
  unfoldable pub store_flush : Store B → Outcome (Store B)
  store_flush [] = ok []
  store_flush (gen ∷ gens) =
      backend.flush gen >>= λ gen'. store_flush gens >>= λ gens'. ok (gen' ∷ gens')

  -- `Store::size`
  unfoldable pub store_size : Store B → ℕ → ℕ
  store_size [] size = size
  store_size (gen ∷ gens) size = store_size gens ((size + backend.size gen) % 2 ^ 64)

  -- The arms of `Store::get_hash` for one generation; `next` is the rest of the loop.
  unfoldable pub get_from :
      {S T : Type 0} → Content S (Store B) T → Outcome T → Outcome Bytes → Outcome T
  get_from c next (ok source) = c.restore source >>= λ r. ok r.0
  get_from c next (failed e) = next
  get_from c next panicked = panicked
  get_from c next exhausted = exhausted

  -- `Store::get_hash` and `Store::restore`
  unfoldable pub get_hash : {S T : Type 0} → Content S (Store B) T → Bytes → Store B → Outcome T
  unfolding get_from
  get_hash c digest [] = failed not_found
  get_hash c digest (gen ∷ gens) = get_from c (get_hash c digest gens) (backend.get digest gen)

  module _ {S : Type 0} (hash : ByteHash S) where
    -- `Sink::fin`
    unfoldable pub sink_fin : Sink S → Store B → Outcome (Bytes × Store B)
    unfolding store_put
    sink_fin (dry_run state) store = ok (hash.fin state, store)
    sink_fin (writing bytes) store =
        let digest = hash.fin (hash.write hash.state bytes) in
        store_put digest bytes store >>= λ r. ok (digest, r.1)
    sink_fin (writing_cached bytes digest) store =
        store_put digest bytes store >>= λ r. ok (digest, r.1)

    -- `Store::persist`: the content as it leaves it, the digest of the snapshot, and the store.
    unfoldable pub store_persist :
        {T : Type 0} → Content S (Store B) T → T → Store B → Outcome (T × Bytes × Store B)
    unfolding sink_fin
    store_persist c t store =
        c.persist t (writing []) store >>= λ r. sink_fin r.1 r.2 >>= λ q. ok (r.0, q.0, q.1)

    -- `Erased::wrap`
    unfoldable pub wrap :
        {T : Type 0} → Content S (Store B) T → T → Store B → Outcome (Bytes × Store B)
    unfolding store_persist
    wrap c t store = store_persist c t store >>= λ r. ok (r.1, r.2)

    -- `Erased::query` and `Erased::transaction`: both restore the value under the wrapper's digest.
    unfoldable pub query : {T : Type 0} → Content S (Store B) T → Bytes → Store B → Outcome T
    unfolding get_hash
    query c digest store = get_hash c digest store

    -- `Transaction::commit`: the wrapper's new digest.
    unfoldable pub commit :
        {T : Type 0} → Content S (Store B) T → T → Store B → Outcome (Bytes × Store B)
    unfolding store_persist
    commit c t store = store_persist c t store >>= λ r. ok (r.1, r.2)

    -- `Content for Erased<H>`
    unfoldable pub erased : Content S (Store B) Bytes
    erased = record {
      persist = λ digest sink store. ok (digest, write_all hash digest sink, store);
      restore = kelvin.Content.read_exact hash.len;
    }
