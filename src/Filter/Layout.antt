-- ===== src/Filter/Layout.antt =====
-- The filter block as a list of groups of keys, each with its filter.
use yubindb.Prelude.{
  ℕ, zero, suc, ◌+◌, ◌%◌, ◌^◌, ◌≡◌, refl, sym, ap, ap₂, ◌∙◌, List, [], ◌∷◌, ◌++◌, length,
  length-append, append_assoc, append-nil, take-append, drop-append, arith, pos→nonzero,
}
use yubindb.Bloom.{BloomFilter, create_filter}
use yubindb.Filter.{FilterBuilder, add_key, split_keys, create_new_filter, create_filters}

-- Keys are split as they were joined.
abbrev joined : List (List ℕ) → List ℕ
joined [] = []
joined (k ∷ ks) = k ++ joined ks

abbrev pub sizes : List (List ℕ) → List ℕ
sizes [] = []
sizes (k ∷ ks) = length k ∷ sizes ks

joined-append : (ks ls : List (List ℕ)) → joined (ks ++ ls) ≡ joined ks ++ joined ls
joined-append [] ls = refl
joined-append (k ∷ ks) ls =
    ap (λ t. k ++ t) (joined-append ks ls) ∙ sym (append_assoc k (joined ks) (joined ls))

sizes-append : (ks ls : List (List ℕ)) → sizes (ks ++ ls) ≡ sizes ks ++ sizes ls
sizes-append [] ls = refl
sizes-append (k ∷ ks) ls = ap (λ t. length k ∷ t) (sizes-append ks ls)

split_keys-joined : (ks : List (List ℕ)) → split_keys (sizes ks) (joined ks) ≡ ks
unfolding split_keys
split_keys-joined [] = refl
split_keys-joined (k ∷ ks) =
    ap₂ (λ x y. x ∷ y) (take-append (length k) k (joined ks) refl)
      (ap (split_keys (sizes ks)) (drop-append (length k) k (joined ks) refl)
        ∙ split_keys-joined ks)

-- The groups after some filters are made: the pending keys are one, those behind it are empty.
abbrev pub closed : ℕ → List (List (List ℕ)) → List (List ℕ) → List (List (List ℕ)) × List (List ℕ)
closed zero done pending = (done, pending)
closed (suc n) done pending = closed n (done ++ pending ∷ []) []

module _ (hash : List ℕ → ℕ) (bloom : BloomFilter) where
  -- The filter of a group: none for a group without keys.
  abbrev pub filter_of : List (List ℕ) → List ℕ
  filter_of [] = []
  filter_of (k ∷ ks) = create_filter hash bloom (k ∷ ks) []

  abbrev pub filters : List (List (List ℕ)) → List ℕ
  filters [] = []
  filters (g ∷ gs) = filter_of g ++ filters gs

  -- Where the filters begin, the first at `from`.
  abbrev pub offsets : ℕ → List (List (List ℕ)) → List ℕ
  offsets from [] = []
  offsets from (g ∷ gs) = from % 2 ^ 32 ∷ offsets (from + length (filter_of g)) gs

  -- The builder that has made the filters of some groups, and holds the keys since.
  abbrev pub builder_of : List (List (List ℕ)) → List (List ℕ) → FilterBuilder
  builder_of done pending = record {
    keys = joined pending;
    start = sizes pending;
    result = filters done;
    filter_offsets = offsets 0 done;
  }

  abbrev made : FilterBuilder → List ℕ → List ℕ → FilterBuilder
  made b result places = record {
    keys = b.keys;
    start = b.start;
    result = result;
    filter_offsets = places;
  }

  abbrev with_keys : List (List (List ℕ)) → List ℕ → List ℕ → FilterBuilder
  with_keys done keys start = record {
    keys = keys;
    start = start;
    result = filters done;
    filter_offsets = offsets 0 done;
  }

  pub add_key-builder_of :
      (done : List (List (List ℕ))) (pending : List (List ℕ)) (key : List ℕ)
      → add_key key (builder_of done pending) ≡ builder_of done (pending ++ key ∷ [])
  unfolding add_key
  add_key-builder_of done pending key =
      let keys : joined pending ++ key ≡ joined (pending ++ key ∷ []) =
        ap (λ t. joined pending ++ t) (sym (append-nil key))
        ∙ sym (joined-append pending (key ∷ [])) in
      let start : sizes pending ++ length key ∷ [] ≡ sizes (pending ++ key ∷ []) =
        sym (sizes-append pending (key ∷ [])) in
      ap₂ (λ x y. with_keys done x y) keys start

  pub filters-append :
      (gs hs : List (List (List ℕ))) → filters (gs ++ hs) ≡ filters gs ++ filters hs
  filters-append [] hs = refl
  filters-append (g ∷ gs) hs =
      ap (λ t. filter_of g ++ t) (filters-append gs hs)
      ∙ sym (append_assoc (filter_of g) (filters gs) (filters hs))

  offsets-append :
      (from : ℕ) (gs : List (List (List ℕ))) (g : List (List ℕ))
      → offsets from (gs ++ g ∷ [])
        ≡ offsets from gs ++ ((from + length (filters gs)) % 2 ^ 32) ∷ []
  offsets-append from [] g = ap (λ n. n % 2 ^ 32 ∷ []) (omega arith)
  offsets-append from (f ∷ gs) g =
      ap (λ t. from % 2 ^ 32 ∷ t)
        (offsets-append (from + length (filter_of f)) gs g
          ∙ ap (λ n. offsets (from + length (filter_of f)) gs ++ n % 2 ^ 32 ∷ [])
              (omega (arith, length-append (filter_of f) (filters gs))))

  offsets-next :
      (done : List (List (List ℕ))) (g : List (List ℕ))
      → offsets 0 done ++ length (filters done) % 2 ^ 32 ∷ [] ≡ offsets 0 (done ++ g ∷ [])
  offsets-next done g =
      ap (λ n. offsets 0 done ++ n % 2 ^ 32 ∷ []) (omega arith) ∙ sym (offsets-append 0 done g)

  create_filter-append :
      (keys : List (List ℕ)) (result : List ℕ)
      → create_filter hash bloom keys result ≡ result ++ create_filter hash bloom keys []
  unfolding create_filter
  create_filter-append keys result = refl

  pub create_new_filter-builder_of :
      (done : List (List (List ℕ))) (pending : List (List ℕ))
      → create_new_filter hash bloom (builder_of done pending)
        ≡ builder_of (done ++ pending ∷ []) []
  unfolding create_new_filter
  create_new_filter-builder_of done [] =
      ap₂ (λ x y. made (builder_of done []) x y)
        (sym (filters-append done ([] ∷ []) ∙ append-nil (filters done))) (offsets-next done [])
  create_new_filter-builder_of done (k ∷ ks) =
      let result : create_filter hash bloom (split_keys (length k ∷ sizes ks) (k ++ joined ks))
            (filters done)
          ≡ filters (done ++ (k ∷ ks) ∷ []) =
        ap (λ t. create_filter hash bloom t (filters done)) (split_keys-joined (k ∷ ks))
        ∙ create_filter-append (k ∷ ks) (filters done)
        ∙ ap (λ t. filters done ++ t) (sym (append-nil (create_filter hash bloom (k ∷ ks) [])))
        ∙ sym (filters-append done ((k ∷ ks) ∷ [])) in
      rw (pos→nonzero (suc (length (sizes ks))) (omega arith))
        (ap₂ (λ x y. made (builder_of done []) x y) result (offsets-next done (k ∷ ks)))

  pub create_filters-builder_of :
      (n : ℕ) (done : List (List (List ℕ))) (pending : List (List ℕ))
      → create_filters hash bloom n (builder_of done pending)
        ≡ builder_of (closed n done pending).0 (closed n done pending).1
  unfolding create_filters
  create_filters-builder_of zero done pending = refl
  create_filters-builder_of (suc n) done pending =
      ap (create_filters hash bloom n) (create_new_filter-builder_of done pending)
      ∙ create_filters-builder_of n (done ++ pending ∷ []) []
