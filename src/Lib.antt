-- ===== src/Lib.antt =====
-- Kelvin: compound structures whose nodes are kept by the digest of their bytes.
--
-- The program's parts. A structure is a node that holds handles (src/handle.rs, src/compound.rs):
-- a handle is empty, a leaf, a node in memory with its annotation, or the digest of a node in a
-- store, which is restored when the handle is followed. An annotation (src/annotations) sums up
-- the leaves below a handle. A search (src/search.rs, src/raw_branch.rs, src/branch.rs) asks a
-- method for an offset at each level and keeps the levels on a stack. The hash array mapped trie
-- (structures/hamt/src/lib.rs), the 2-3 tree (structures/two3/src/lib.rs) and the radix tree
-- (structures/radix/src/lib.rs) are maps built from these; the iterators (src/iter.rs) and the map
-- traits (src/map.rs) serve all of them.
--
-- Which file models which part.
--   Prelude      Boolean tests, lists by native numbers, and Outcome: io::Result with the panics.
--   Annotation   Combine, Associative, Void, Cardinality over u64 with its wrap-around, MaxKey. Product:
--                what the macro annotation! makes. Laws and Greatest are proofs: combining in pieces, and
--                what MaxKey combines to.
--   Handle       HandleInner as `Handle`, Compound as `Node`, HandleRef, HandleMut, and the functions
--                of Handle under their names. A mutable reference to a child is the child left in its
--                place beside the reference; `drop_mut` is the drop of that reference.
--   Search       Level::search, NodeRef::handle, RawBranch::search and Branch::new.
--   Hamt         HAMTTrait: sub_insert, sub_remove, remove_singleton; insert, remove. Get: HAMTSearch
--                and get. Widths: HAMT and NarrowHAMT with their select_slot. The other files under
--                Hamt are proofs: Invariant, Keeps and KeepsRemove the well-formed tries; Insert,
--                Singleton and Remove what the operations do to the reading of a trie; Total and
--                TotalRemove that they return; Search that get is that reading; Root the collapse at
--                the root; Map the trie against functions from keys to values; Entries, Iteration and
--                Listed what the iterators of src/iter.rs list of a trie.
--   Content      The trait Content and its implementations in src/content.rs; Sink and Source (src/sink.rs,
--                src/source.rs). Content/Laws says what it is to be written and read back.
--   Store        Backend, Store (src/store.rs), Sink::fin and Erased (src/erased.rs); Store/Mem is the
--                backend in memory (src/backend/mem.rs).
--   Hamt/Persist Content for Handle (src/handle.rs) and for the two tries, and Compound::root_hash. The
--                files under it are proofs: Encoding the bytes of a trie, Written, Sequence and Writes
--                what is written for it, Snapshot what is restored.
--   Nibbles      Nibbles of structures/radix/src/nibbles.rs: get, pop_nibble, the trims, common_prefix.
--                Buf: NibbleBuf with its encoding. Halves, Digits, Laws, Prefix,
--                Growth, Appends and Written are proofs; Digits says what get reads of the bytes.
--   Nth          Count and Nth of src/annotations/cardinality.rs, and First of src/search.rs.
--   Calls        The calls of the model test src/tests/quickcheck_map.rs, and a function as the map they act on.
--   Two3         The 2-3 tree: Two3TreeSearch::select, _insert and insert; Removal: _remove and remove; Get:
--                get. The other files under Two3 are proofs: Entries and Update the sorted lists that the
--                trees stand for; Invariant the well-formed trees; Selects what select finds; Greatest
--                and MaxKey the annotations; Place, Inserts, Leaves, Insertion and Trees the insertion;
--                Rounds and Lookup the search; Merges, Removes, Neighbours, Merging, Deletion, AfterRemove
--                and Erasure the removal; Map the tree against functions from keys to values;
--                Iteration its iterator; Annotated the annotation of its model test.
--   Radix        The radix tree: select, _insert and insert; Removal: _remove, remove_singleton and remove;
--                Get: get. Root is a proof: the collapse at the root. Radix/Tests runs it on small trees.
--   Iter         LeafIter, its next and the iterators of src/map.rs; val_path is ValPath::new. Iter/Walk is
--                the recursive walk over the leaves, up to the first error of the store. Firsts, Rounds and
--                Leaves are proofs: what First selects, one round of the search, all calls of next.
--   Branch       RawBranch and BranchMut over NodeRef: a level owns its node once something is written
--                below it, and pop_level puts owned nodes back. modify is Map::get_mut, a write, and the
--                drop of its path. Iter: LeafIterMut; update_all is a client's loop over it. Unlinks, Finds,
--                Plain and Writes are proofs: what relinking leaves, what a search keeps, that it is the
--                immutable search, and a write. So are Turns, Steps, Updates and Maps: the search for the
--                next leaf, a write at it, the loop, and the loop from the start.
--
-- State and errors. A function that takes `&mut self` returns the node it leaves beside its
-- outcome, since an error keeps what was done before it. Content is the exception: once a store
-- fails, persist returns the error alone. An outcome is a result, an io::Error by its kind, a
-- panic (an index out of bounds, an unreachable!(), a failed expect), or spent fuel. A Rc is the
-- value it points at: Rc::make_mut copies a shared node, so no two handles are ever seen to change
-- together.
--
-- Bounds and fuel. The recursion of insert, remove, get and of the search takes fuel. A digest of
-- `len` bytes has 2 * len slots in HAMT and 4 * len in NarrowHAMT; `hash[ofs]` past them is a
-- panic, so one step more than the number of slots is enough: the search opens at most one level
-- for each slot, and the recursion goes down at most one level for each. A 2-3 tree of height h takes
-- h + 1 steps down, and a search of it as many up again, so fuel past the height is enough; an
-- insertion raises the height by one at most.
--
-- Parameters. The 2-3 tree keeps its handles in an ArrayVec (the crate arrayvec), of which is used
-- what its documentation says of insert, push, pop and remove within the capacity. The hash
-- function of the trie (the crate bytehash) is a function from keys to bytes; what is used of it
-- is that its digests are bytes, all of one length. For contents it is a Hasher, of which is used
-- that it may be fed in pieces and that its digests have one length. The crate byteorder is what
-- writes and reads numbers. The store of a trie in use is a function from digests to nodes; that
-- of contents is a list of backends. Keys are compared by a Boolean test that decides equality.
-- Two keys whose digests agree at every slot cannot both be held: the split runs past the digest
-- and panics. The results on insertion therefore ask for keys whose digests differ at a slot.
--
-- Not modelled. The encoding of the radix tree and of the 2-3 tree, proofs
-- (src/proof.rs), src/root.rs, the disk backend, the locks and the unused cache of the store,
-- strings and signed numbers as contents, the wrapping of references by the crate owning_ref, the
-- browser's backend, src/debug_draw.rs, and the tests.
pub mod Annotation
pub mod Branch
pub mod Calls
pub mod Content
pub mod Hamt
pub mod Handle
pub mod Iter
pub mod Nibbles
pub mod Nth
pub mod Prelude
pub mod Radix
pub mod Search
pub mod Store
pub mod Two3
