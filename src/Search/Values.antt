-- ===== src/Search/Values.antt =====
-- src/search.rs and src/branch.rs: the value at the leaf that a search has reached.
use mathlib.Core.Option
use kelvin.Prelude.{ℕ, [], ◌∷◌, Option, inl, inr, ◌≡◌, refl, Option-cases}
use kelvin.Prelude.Outcome.{Outcome, ok, failed, panicked, exhausted, ◌>>=◌}
use kelvin.Handle.{Digest, Node}
use kelvin.Search.{Method, RawBranch, branch_leaf, branch_new, search_from}

module _ {K V A X S : Type 0} where
  abbrev pub shown : Outcome (RawBranch (Node (K × V) A X) × S) → Outcome (Option V)
  shown o = o >>= λ r. ok (Option.map (λ kv. kv.1) (branch_leaf r.0))

  regroup :
      (o : Outcome (RawBranch (Node (K × V) A X) × S))
      → ((o >>= λ r. ok (
            Option.map {B = RawBranch (Node (K × V) A X) × (K × V)}
              (λ l. (r.0, l))
              (branch_leaf r.0)))
          >>= λ r. ok (Option.map (λ found. found.1.1) r))
        ≡ shown o
  regroup (ok (b, s)) = elim (Option-cases (branch_leaf b)) [ inl e ↦ rw e | inr (l, e) ↦ rw e ]
  regroup (failed x) = refl
  regroup panicked = refl
  regroup exhausted = refl

  -- The value that a branch shows is that of the leaf its search ends at.
  pub branch_new-shown :
      (load : Digest → Outcome (Node (K × V) A X)) (m : Method (Node (K × V) A X) S) (fuel : ℕ)
      (n : Node (K × V) A X) (s : S)
      → (branch_new load m fuel n s >>= λ r. ok (Option.map (λ found. found.1.1) r))
        ≡ shown (search_from load m fuel (record { ofs = 0; at = n } ∷ []) s)
  unfolding branch_new
  branch_new-shown load m fuel n s = regroup _
