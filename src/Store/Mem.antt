-- ===== src/Store/Mem.antt =====
-- src/backend/mem.rs: the backend in memory. The map is a list of entries, the newest first.
use kelvin.Prelude.{
  ℕ, ◌+◌, ◌%◌, ◌^◌, Option, none, some, List, [], ◌∷◌, if◌then◌else◌, length, bytes_eq, ◌≡◌, refl,
  bytes_eq_refl, subst,
}
use kelvin.Prelude.Outcome.{Outcome, ok, failed, not_found}
use kelvin.Content.{Bytes}
use kelvin.Store.{PutResult, put_ok, already_there, Backend}
use kelvin.Store.Laws.{IsBackend}

-- `MemBackend`
pub record MemBackend : Type 0 where
  pub size : ℕ
  pub data_map : List (Bytes × Bytes)

-- `MemBackend::new`
unfoldable pub mem_new : MemBackend
mem_new = record { size = 0; data_map = [] }

-- `HashMap::get`
unfoldable pub map_get : Bytes → List (Bytes × Bytes) → Option Bytes
map_get digest [] = none
map_get digest ((d, bytes) ∷ entries) =
    if bytes_eq d digest then some bytes else map_get digest entries

unfoldable pub found : Option Bytes → Outcome Bytes
found (some bytes) = ok bytes
found none = failed not_found

unfoldable pub put_result : Option Bytes → PutResult
put_result (some _) = already_there
put_result none = put_ok

-- `Backend for MemBackend`; the size counts again what is already there.
unfoldable pub mem_put : Bytes → Bytes → MemBackend → Outcome (PutResult × MemBackend)
unfolding map_get put_result
mem_put digest bytes b =
    let size = (b.size + length bytes) % 2 ^ 64 in
    ok (
      put_result (map_get digest b.data_map),
      record { size = size; data_map = (digest, bytes) ∷ b.data_map },
    )

unfoldable pub mem_backend : Backend MemBackend
unfolding map_get found mem_put
mem_backend = record {
  get = λ digest b. found (map_get digest b.data_map);
  put = mem_put;
  flush = λ b. ok b;
  size = λ b. b.size;
}

abbrev after : Bytes → Bytes → MemBackend → PutResult × MemBackend
after digest bytes b = (
  put_result (map_get digest b.data_map),
  record { size = (b.size + length bytes) % 2 ^ 64; data_map = (digest, bytes) ∷ b.data_map },
)

-- The backend in memory always takes what is put, gives it back, and leaves the other entries alone.
pub mem_backend-IsBackend : IsBackend mem_backend
unfolding mem_backend mem_put map_get found
mem_backend-IsBackend = record {
  puts = λ digest bytes b. (after digest bytes b, refl);
  get_put = λ digest bytes b r e.
      subst (λ (q : PutResult × MemBackend). found (map_get digest q.1.data_map) ≡ ok bytes)
        {x = after digest bytes b} {y = r} (cc) (rw (bytes_eq_refl digest) refl);
  get_other = λ digest other bytes b r differ e.
      subst
        (λ (q : PutResult × MemBackend).
          found (map_get other q.1.data_map) ≡ found (map_get other b.data_map))
        {x = after digest bytes b} {y = r} (cc) (rw differ refl);
}
