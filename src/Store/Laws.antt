-- ===== src/Store/Laws.antt =====
-- What a value persisted in a store is restored as.
use kelvin.Prelude.{List, [], ◌∷◌, ◌≡◌, refl, append-nil, bytes_eq, false, sym}
use kelvin.Prelude.Outcome.{ok}
use kelvin.Content.{Bytes, ByteHash, writing, Content, write_all}
use kelvin.Content.Laws.{IsPlain}
use kelvin.Store.{
  PutResult, Backend, Store, store_put, get_hash, get_from, sink_fin, store_persist, wrap, query,
  commit,
}

-- A backend that never fails to put, and gives back what was put last.
pub record IsBackend {B : Type 0} (backend : Backend B) : Type 0 where
  pub puts :
      (digest bytes : Bytes) (b : B) → (r : PutResult × B) × (backend.put digest bytes b ≡ ok r)
  pub get_put :
      (digest bytes : Bytes) (b : B) (r : PutResult × B)
      → backend.put digest bytes b ≡ ok r
      → backend.get digest r.1 ≡ ok bytes
  pub get_other :
      (digest other bytes : Bytes) (b : B) (r : PutResult × B)
      → bytes_eq digest other ≡ false
      → backend.put digest bytes b ≡ ok r
      → backend.get other r.1 ≡ backend.get other b

module _ {S B T : Type 0} (hash : ByteHash S) (backend : Backend B) (law : IsBackend backend) where
  -- A plain value that fits is persisted under the digest of its bytes, in a store that has a
  -- generation, over a backend that never fails to put, and the store then restores it.
  pub store_persist-get_hash :
      (c : Content S (Store B) T) (fits : T → Type 0) (p : IsPlain hash c fits) (t : T) (gen : B)
      (gens : List B)
      → fits t
      → (gen' : B) × (store_persist backend hash c t (gen ∷ gens)
          ≡ ok (t, hash.fin (hash.write hash.state (p.bytes t)), gen' ∷ gens))
        × (get_hash backend c (hash.fin (hash.write hash.state (p.bytes t))) (gen' ∷ gens) ≡ ok t)
  unfolding store_persist sink_fin store_put get_hash get_from write_all
  store_persist-get_hash c fits p t gen gens f =
      let digest = hash.fin (hash.write hash.state (p.bytes t)) in
      let (r, done) = law.puts digest (p.bytes t) gen in
      (
        r.1,
        rw (p.persist_lem t (writing []) (gen ∷ gens) f, done) refl,
        rw
            (
              law.get_put digest (p.bytes t) gen r done,
              sym (append-nil (p.bytes t)),
              p.restore_lem t [] f,
            )
            refl,
      )

  -- Over such a backend a wrapper for a plain value that fits answers a query with that value; after a commit of another value of
  -- the same type to the wrapper, it answers with that one.
  pub wrap-query :
      (c : Content S (Store B) T) (fits : T → Type 0)
      → IsPlain hash c fits
      → (t u : T) (gen : B) (gens : List B) → fits t
      → fits u
      → (digest digest' : Bytes) × (store store' : Store B) × (wrap backend hash c t (gen ∷ gens)
          ≡ ok (digest, store))
        × (query backend hash c digest store ≡ ok t)
        × (commit backend hash c u store ≡ ok (digest', store'))
        × (query backend hash c digest' store' ≡ ok u)
  unfolding wrap query commit
  wrap-query c fits p t u gen gens f g =
      let (gen', put, got) = store_persist-get_hash c fits p t gen gens f in
      let (gen'', put', got') = store_persist-get_hash c fits p u gen' gens g in
      (
        hash.fin (hash.write hash.state (p.bytes t)),
        hash.fin (hash.write hash.state (p.bytes u)),
        gen' ∷ gens,
        gen'' ∷ gens,
        rw put refl,
        got,
        rw put' refl,
        got',
      )
