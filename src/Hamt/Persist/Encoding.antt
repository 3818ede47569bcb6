-- ===== src/Hamt/Persist/Encoding.antt =====
-- The bytes that a trie is written as, whatever of it is in memory and whatever in a store.
use kelvin.Prelude.{ℕ, ◌++◌, none, some, [], ◌∷◌, ◌≡◌, length}
use kelvin.Content.{Bytes, ByteHash, Content, Sink, dry_run, writing, writing_cached}
use kelvin.Content.Laws.{IsPlain}
use kelvin.Store.{Store}
use kelvin.Handle.{Handle, Node, Handles, empty, leaf, node, persisted, compound, nil, cons}
use kelvin.Hamt.Persist.{mask_of}

-- The parameters of the persistence of a trie, and what is used of them.
pub record Codecs (S B L A : Type 0) : Type 1 where
  pub hash : ByteHash S
  pub leaves : Content S (Store B) L
  pub annotations : Content S (Store B) A
  pub masks : Content S (Store B) ℕ
  pub fits_leaf : L → Type 0
  pub fits_annotation : A → Type 0
  pub fits_mask : ℕ → Type 0
  pub plain_leaf : IsPlain hash leaves fits_leaf
  pub plain_annotation : IsPlain hash annotations fits_annotation
  pub plain_mask : IsPlain hash masks fits_mask

module _ {S B L A : Type 0} (c : Codecs S B L A) where
  unfoldable mutual
    pub handle_bytes : Handle L A (Unit {0}) → Bytes
    handle_bytes empty = 0 ∷ []
    handle_bytes (leaf l) = 1 ∷ c.plain_leaf.bytes l
    handle_bytes (persisted digest a) = 2 ∷ (digest ++ c.plain_annotation.bytes a)
    handle_bytes (node n a cached) =
        2 ∷ (c.hash.fin (c.hash.write c.hash.state (node_bytes n)) ++ c.plain_annotation.bytes a)

    pub node_bytes : Node L A (Unit {0}) → Bytes
    node_bytes (compound x hs) = c.plain_mask.bytes (mask_of hs) ++ handles_bytes hs

    pub handles_bytes : Handles L A (Unit {0}) → Bytes
    handles_bytes nil = []
    handles_bytes (cons empty hs) = handles_bytes hs
    handles_bytes (cons h hs) = handle_bytes h ++ handles_bytes hs

  abbrev pub node_digest : Node L A (Unit {0}) → Bytes
  node_digest n = c.hash.fin (c.hash.write c.hash.state (node_bytes n))

  -- Every value fits its codec, every digest has its length, and a cached hash is that of the node.
  abbrev mutual
    pub IsSound : Handle L A (Unit {0}) → Type 0
    IsSound empty = Unit
    IsSound (leaf l) = c.fits_leaf l
    IsSound (persisted digest a) = (length digest ≡ c.hash.len) × c.fits_annotation a
    IsSound (node n a none) = c.fits_annotation a × IsSoundNode n
    IsSound (node n a (some digest)) =
        c.fits_annotation a × (digest ≡ node_digest n) × IsSoundNode n

    pub IsSoundNode : Node L A (Unit {0}) → Type 0
    IsSoundNode (compound x hs) = c.fits_mask (mask_of hs) × IsSoundHandles hs

    pub IsSoundHandles : Handles L A (Unit {0}) → Type 0
    IsSoundHandles nil = Unit
    IsSoundHandles (cons h hs) = IsSound h × IsSoundHandles hs

-- No handle is a node in memory.
abbrev pub IsStored : {L A : Type 0} → Handle L A (Unit {0}) → Type 0
IsStored (node n a cached) = ⊥
IsStored _ = Unit

abbrev pub AreStored : {L A : Type 0} → Handles L A (Unit {0}) → Type 0
AreStored nil = Unit
AreStored (cons h hs) = IsStored h × AreStored hs

abbrev pub HasStore : {S : Type 0} → Sink S → Type 0
HasStore (dry_run s) = ⊥
HasStore (writing bytes) = Unit
HasStore (writing_cached bytes digest) = Unit
