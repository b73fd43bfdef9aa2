-- ===== src/Search/Index/Entries.antt =====
-- The entries that Index_StoreEntry of assign2/index.c changes or adds.
use cs.Prelude.{
  ℕ, zero, suc, ◌≡◌, ◌≢◌, refl, sym, ◌∙◌, ap, true, false, none, some, List, [], ◌∷◌, ◌++◌,
  if◌then◌else◌, length, get_elem?, Bool-cases, Option-cases, inl, inr, eq_of_some, arith,
  same_text, same_text_iff,
}
use mathlib.Core.Path.{subst}
use cs.Search.Index.{
  Text, IndexLocation, IndexHashEntry, Lhash, Index, add_location, location_list_at,
}

get_elem?-append_last :
    (es : List IndexHashEntry) (e : IndexHashEntry) → get_elem? (es ++ e ∷ []) (length es) ≡ some e
get_elem?-append_last [] e = refl
get_elem?-append_last (x ∷ es) e = get_elem?-append_last es e

get_elem?-append_old :
    (es : List IndexHashEntry) (e e' : IndexHashEntry) (a : ℕ)
    → get_elem? es a ≡ some e'
    → get_elem? (es ++ e ∷ []) a ≡ some e'
get_elem?-append_old [] e e' a h = ground (arith, h)
get_elem?-append_old (x ∷ es) e e' zero h = h
get_elem?-append_old (x ∷ es) e e' (suc a) h = get_elem?-append_old es e e' a h

get_elem?-add_location_self :
    (new : IndexLocation) (a : ℕ) (es : List IndexHashEntry) (e : IndexHashEntry)
    → get_elem? es a ≡ some e
    → get_elem? (add_location new a es) a
      ≡ some (record e { location_list = new ∷ e.location_list })
unfolding add_location
get_elem?-add_location_self new a [] e h = ground (arith, h)
get_elem?-add_location_self new zero (x ∷ es) e h =
    ap (λ (o : IndexHashEntry). some (record o { location_list = new ∷ o.location_list }))
      (eq_of_some h)
get_elem?-add_location_self new (suc a) (x ∷ es) e h = get_elem?-add_location_self new a es e h

get_elem?-add_location_ne :
    (new : IndexLocation) (a b : ℕ) (es : List IndexHashEntry)
    → a ≢ b
    → get_elem? (add_location new a es) b ≡ get_elem? es b
unfolding add_location
get_elem?-add_location_ne new a b [] ne = refl
get_elem?-add_location_ne new zero zero (x ∷ es) ne = absurd (ne refl)
get_elem?-add_location_ne new zero (suc b) (x ∷ es) ne = refl
get_elem?-add_location_ne new (suc a) zero (x ∷ es) ne = refl
get_elem?-add_location_ne new (suc a) (suc b) (x ∷ es) ne =
    get_elem?-add_location_ne new a b es (λ e. ne (ap suc e))

module _ {Table : Type 0} (lh : Lhash Table) where
  -- Every address in the hash table is that of an entry with the keyword.
  abbrev pub IsIndex : Index Table → Type 0
  IsIndex ind =
      (k : Text) (a : ℕ)
      → lh.lh_retrieve ind.table k ≡ some a
      → (e : IndexHashEntry) × (get_elem? ind.entries a ≡ some e) × (e.keyword ≡ k)

  -- The locations of a word.
  abbrev pub locations : Index Table → Text → List IndexLocation
  locations ind k = location_list_at (lh.lh_retrieve ind.table k) ind.entries

  -- A function from words, with a location put before the others of one word.
  abbrev pub put : Text → IndexLocation → (Text → List IndexLocation) → Text → List IndexLocation
  put k new f k' = if same_text k k' then new ∷ f k' else f k'

  -- Different words have different addresses.
  addresses-apart :
      (ind : Index Table) (k k' : Text) (a b : ℕ)
      → IsIndex ind
      → lh.lh_retrieve ind.table k ≡ some a
      → lh.lh_retrieve ind.table k' ≡ some b
      → same_text k k' ≡ false
      → a ≢ b
  addresses-apart ind k k' a b h r r' other same =
      let (e, at, word) = h k a r in
      let (e', at', word') = h k' b r' in
      let one : e ≡ e' = eq_of_some (sym at ∙ ap (get_elem? ind.entries) same ∙ at') in
      let words : k ≡ k' = sym word ∙ ap {A = IndexHashEntry} (λ o. o.keyword) one ∙ word' in
      let both : same_text k k' ≡ true = (same_text_iff k k').1 words in ground (arith, other, both)

  -- One more location at an address that the table has.
  pub add_location-IsIndex :
      (k : Text) (new : IndexLocation) (ind : Index Table) (a : ℕ)
      → IsIndex ind
      → lh.lh_retrieve ind.table k ≡ some a
      → IsIndex (record ind { entries = add_location new a ind.entries })
  add_location-IsIndex k new ind a h r k' b r' = elim (Bool-cases (same_text k k')) [
    | inl same ↦
        let (e, at, word) = h k a r in
        let words : k ≡ k' = (same_text_iff k k').0 same in
        let one : a ≡ b = eq_of_some (sym r ∙ ap (lh.lh_retrieve ind.table) words ∙ r') in
        (
          record e { location_list = new ∷ e.location_list },
          ap (get_elem? (add_location new a ind.entries)) (sym one)
              ∙ get_elem?-add_location_self new a ind.entries e at,
          word ∙ words,
        )
    | inr other ↦
        let (e', at', word') = h k' b r' in
        (
          e',
          get_elem?-add_location_ne new a b ind.entries (addresses-apart ind k k' a b h r r' other)
              ∙ at',
          word',
        )
  ]

  pub add_location-locations :
      (k : Text) (new : IndexLocation) (ind : Index Table) (a : ℕ)
      → IsIndex ind
      → lh.lh_retrieve ind.table k ≡ some a
      → (k' : Text)
      → locations (record ind { entries = add_location new a ind.entries }) k'
        ≡ put k new (locations ind) k'
  add_location-locations k new ind a h r k' = elim (Bool-cases (same_text k k')) [
    | inl same ↦
        let (e, at, word) = h k a r in
        let words : k ≡ k' = (same_text_iff k k').0 same in
        let r' : lh.lh_retrieve ind.table k' ≡ some a =
          ap (lh.lh_retrieve ind.table) (sym words) ∙ r in
        rw (same, r', get_elem?-add_location_self new a ind.entries e at, at) refl
    | inr other ↦ elim (Option-cases (lh.lh_retrieve ind.table k')) [
      | inl none' ↦ rw (other, none') refl
      | inr (b, r') ↦
          rw
            (
              other,
              r',
              get_elem?-add_location_ne new a b ind.entries
                  (addresses-apart ind k k' a b h r r' other),
            )
            refl
    ]
  ]

  -- A new entry at the end, whose address the table holds for its word.
  pub append-IsIndex :
      (k : Text) (new : IndexLocation) (ind : Index Table) (t : Table)
      → IsIndex ind
      → ((k' : Text)
          → lh.lh_retrieve t k'
            ≡ (if same_text k k' then some (length ind.entries) else lh.lh_retrieve ind.table k'))
      → IsIndex (record ind {
        table = t;
        entries = ind.entries ++ record { keyword = k; location_list = new ∷ [] } ∷ [];
      })
  append-IsIndex k new ind t h found k' b r' = elim (Bool-cases (same_text k k')) [
    | inl same ↦
        let one : length ind.entries ≡ b = eq_of_some (sym (rw same at (found k')) ∙ r') in
        (
          record { keyword = k; location_list = new ∷ [] },
          subst
              (λ a.
                get_elem? (ind.entries ++ record { keyword = k; location_list = new ∷ [] } ∷ []) a
                ≡ some (record { keyword = k; location_list = new ∷ [] }))
              one
              (get_elem?-append_last ind.entries
                (record { keyword = k; location_list = new ∷ [] })),
          (same_text_iff k k').0 same,
        )
    | inr other ↦
        let (e, at, word) = h k' b (sym (rw other at (found k')) ∙ r') in
        (e, get_elem?-append_old ind.entries _ e b at, word)
  ]

  pub append-locations :
      (k : Text) (new : IndexLocation) (ind : Index Table) (t : Table)
      → IsIndex ind
      → lh.lh_retrieve ind.table k ≡ none
      → ((k' : Text)
          → lh.lh_retrieve t k'
            ≡ (if same_text k k' then some (length ind.entries) else lh.lh_retrieve ind.table k'))
      → (k' : Text)
      → location_list_at
          (lh.lh_retrieve t k')
          (ind.entries ++ record { keyword = k; location_list = new ∷ [] } ∷ [])
        ≡ put k new (locations ind) k'
  append-locations k new ind t h r found k' = elim (Bool-cases (same_text k k')) [
    | inl same ↦
        let r' : lh.lh_retrieve ind.table k' ≡ none =
          ap (lh.lh_retrieve ind.table) (sym ((same_text_iff k k').0 same)) ∙ r in
        let last =
          get_elem?-append_last ind.entries (record { keyword = k; location_list = new ∷ [] }) in
        rw (rw same at (found k'), same, r', last) refl
    | inr other ↦ elim (Option-cases (lh.lh_retrieve ind.table k')) [
      | inl none' ↦ rw (rw other at (found k'), other, none') refl
      | inr (b, r') ↦
          let (e, at, word) = h k' b r' in
          let old =
            get_elem?-append_old ind.entries (record { keyword = k; location_list = new ∷ [] }) e b
              at in
          rw (rw other at (found k'), other, r', old, at) refl
    ]
  ]
