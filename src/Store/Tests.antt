-- ===== src/Store/Tests.antt =====
-- Runs of the store, and the theorems about it at concrete stores.
use kelvin.Prelude.{ℕ, [], ◌∷◌, ◌≡◌, Option, some}
use kelvin.Prelude.Outcome.{ok}
use kelvin.Content.{Bytes, Content, u8, option}
use kelvin.Content.Laws.{IsPlain}
use kelvin.Content.Codecs.{u8-IsPlain, option-IsPlain, FitsOption}
use kelvin.Content.Samples.{sample_hash, sample_hash-IsHasher}
use kelvin.Store.{Store, store_persist, get_hash, wrap, query, commit}
use kelvin.Store.Mem.{MemBackend, mem_new, mem_backend, mem_backend-IsBackend}
use kelvin.Store.Laws.{store_persist-get_hash, wrap-query}

abbrev maybe : Content Bytes (Store MemBackend) (Option ℕ)
maybe = option sample_hash (u8 sample_hash)

abbrev maybe-plain : IsPlain sample_hash maybe (FitsOption (λ t. Unit {0}))
maybe-plain =
    option-IsPlain sample_hash sample_hash-IsHasher (u8 sample_hash) (λ t. Unit {0})
      (u8-IsPlain sample_hash sample_hash-IsHasher)

store_persist-get_hash_example :
    (gen' : MemBackend) × (store_persist mem_backend sample_hash maybe (some 7) (mem_new ∷ [])
      ≡ ok (
        some 7,
        sample_hash.fin (sample_hash.write sample_hash.state (maybe-plain.bytes (some 7))),
        gen' ∷ [],
      ))
    × (get_hash mem_backend maybe
          (sample_hash.fin (sample_hash.write sample_hash.state (maybe-plain.bytes (some 7))))
          (gen' ∷ [])
        ≡ ok (some 7))
store_persist-get_hash_example =
    store_persist-get_hash sample_hash mem_backend mem_backend-IsBackend maybe
      (FitsOption (λ t. Unit {0})) maybe-plain (some 7) mem_new [] tt

wrap-query_example :
    (digest digest' : Bytes) × (store store' : Store MemBackend) × (wrap mem_backend sample_hash
        maybe
        (some 77)
        (mem_new ∷ [])
      ≡ ok (digest, store))
    × (query mem_backend sample_hash maybe digest store ≡ ok (some 77))
    × (commit mem_backend sample_hash maybe (some 78) store ≡ ok (digest', store'))
    × (query mem_backend sample_hash maybe digest' store' ≡ ok (some 78))
wrap-query_example =
    wrap-query sample_hash mem_backend mem_backend-IsBackend maybe (FitsOption (λ t. Unit {0}))
      maybe-plain (some 77) (some 78) mem_new [] tt tt
