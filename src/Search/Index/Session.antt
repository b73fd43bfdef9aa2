-- ===== src/Search/Index/Session.antt =====
-- Many stores in the index of assign2/index.c, one after the other.
use cs.Prelude.{
  ◌≡◌, ap, Bool, true, false, Option, none, some, List, [], ◌∷◌, if◌then◌else◌, Bool-cases, inl,
  inr, eq_of_some, arith, same_text,
}
use mathlib.Core.Path.{subst}
use cs.Search.Index.{
  Text, IndexLocation, Lhash, Index, index_create, index_store_entry, location_list_at,
  index_retrieve_entry,
}
use cs.Search.Index.Entries.{put}
use cs.Search.Index.Refinement.{
  IsLhash, Implements, IsStored, index_store_entry-IsStored, index_retrieve_entry-Implements,
}

-- A word and its location.
abbrev pub Occurrence : Type 0
Occurrence = Text × IndexLocation

-- The locations of a word among the occurrences, the last one first, and then others.
unfoldable pub newest : List Occurrence → (Text → List IndexLocation) → Text → List IndexLocation
newest [] f k = f k
newest ((k', new) ∷ calls) f k = newest calls (λ k. if same_text k' k then new ∷ f k else f k) k

module _ {Table : Type 0} (lh : Lhash Table) (allocated : Index Table → Bool) where
  -- The stores, as long as they return true.
  unfoldable pub store_all : List Occurrence → Index Table → Option (Index Table)
  unfolding index_store_entry
  store_all [] ind = some ind
  store_all ((k, new) ∷ calls) ind =
      let (ok, ind') = index_store_entry lh (allocated ind) k new.pathname new.offset ind in
      let rest = store_all calls ind' in if ok then rest else none

  IsStored-true :
      (laws : IsLhash lh) (k : Text) (new : IndexLocation) (f : Text → List IndexLocation)
      (r : Bool × Index Table)
      → r.0 ≡ true
      → IsStored lh laws k new f r
      → Implements lh laws r.1 (put lh k new f)
  IsStored-true laws k new f (true, ind) e h = h
  IsStored-true laws k new f (false, ind) e h = ground (arith, e)

  -- With a hash table that does what OpenSSL documents: where all the stores return true, the index
  -- that they make of one that implements a function implements the function with the locations put
  -- before the others of their words, the last one first.
  pub store_all-Implements :
      (laws : IsLhash lh) (calls : List Occurrence) (ind ind' : Index Table)
      (f : Text → List IndexLocation)
      → store_all calls ind ≡ some ind'
      → Implements lh laws ind f
      → Implements lh laws ind' (newest calls f)
  unfolding store_all newest
  store_all-Implements laws [] ind ind' f e h = subst (λ i. Implements lh laws i f) (eq_of_some e) h
  store_all-Implements laws ((k, new) ∷ calls) ind ind' f e h =
      elim (Bool-cases (index_store_entry lh (allocated ind) k new.pathname new.offset ind).0) [
        | inl ok ↦
            store_all-Implements laws calls
              (index_store_entry lh (allocated ind) k new.pathname new.offset ind).1 ind'
              (put lh k new f) (rw ok at e)
              (IsStored-true laws k new f _ ok (
                index_store_entry-IsStored lh laws (allocated ind) k new.pathname new.offset ind f
                  h))
        | inr bad ↦ ground (arith, rw bad at e)
      ]

  -- With a hash table that does what OpenSSL documents: after `Index_Create` and stores that all return
  -- true, `Index_RetrieveEntry` returns the locations stored for the word, the last one first.
  pub index_retrieve_entry-store_all :
      (laws : IsLhash lh) (calls : List Occurrence) (ind ind' : Index Table) (k : Text)
      → index_create lh true ≡ some ind
      → store_all calls ind ≡ some ind'
      → (index_retrieve_entry lh k ind').0 ≡ newest calls (λ k'. []) k
  unfolding index_create
  index_retrieve_entry-store_all laws calls ind ind' k c e =
      let empty : Implements lh laws ind (λ k'. []) =
        subst (λ i. Implements lh laws i (λ k'. [])) (eq_of_some c)
          (
            λ k' a r. ground (arith, r, laws.retrieve-new k'),
            λ k'. ap (λ o. location_list_at o []) (laws.retrieve-new k'),
          ) in
      (index_retrieve_entry-Implements lh laws k ind' (newest calls (λ k'. []))
        (store_all-Implements laws calls ind ind' (λ k'. []) e empty)).0
