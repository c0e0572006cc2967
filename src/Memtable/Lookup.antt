-- ===== src/Memtable/Lookup.antt =====
-- Memtable::Get after Memtable::Add: the newest entry of a user key is found.
use mathlib.Core.Option
use Prim.Native.Nat.{Ordering}
use yubindb.Prelude.{
  ℕ, ◌+◌, ◌^◌, ◌≤◌, ◌<◌, ◌≡◌, ◌≢◌, ◌⊎◌, inl, inr, refl, ap, sym, subst, ◌∙◌, true, some,
  Option-cases, List, [], length, arith,
}
use yubindb.State.{State}
use yubindb.Key.{
  ValueType, deletion, value, type_code, max_sequence_number, InternalKey, internal_key,
  extract_user_key, compare_views, compare_tags, then_by, cmp, lookey, inter_key,
}
use yubindb.Key.Order.{compare_views_refl}
use yubindb.Key.Pack.{type_code-lt, extract_user_key-internal_key, get_tag-internal_key, lookey_lem}
use yubindb.Memtable.{Node, Skiplist, IsSkiplist, entry_bytes, node_of, add, seek, get}
use yubindb.Memtable.Entry.{answer, node_of-entry_bytes, read_node-node_of}

-- A later sequence number stands in front of the entry, or is the entry's own.
not_below_lookup :
    (key : List ℕ) (seq snapshot : ℕ) (t : ValueType)
    → seq ≤ snapshot
    → snapshot ≤ max_sequence_number
    → cmp (internal_key key seq t) (internal_key key snapshot value) ≢ Ordering.lt
unfolding cmp then_by compare_tags type_code
not_below_lookup key seq snapshot t le h lt = ground (
  arith,
  type_code-lt t,
  extract_user_key-internal_key key seq t,
  extract_user_key-internal_key key snapshot value,
  get_tag-internal_key key seq t (omega arith),
  get_tag-internal_key key snapshot value h,
  compare_views_refl key,
)

module _ {T : Type 0} (table : Skiplist T) (Holds : Node → T → Type 0)
    (ok : IsSkiplist table Holds) where
  -- No node of the table lies between the lookup key and the entry, or at the entry.
  abbrev pub IsNewest : InternalKey → InternalKey → T → Type 0
  IsNewest lookup entry m =
      (n : Node) → Holds n m → (cmp n.key lookup ≡ Ordering.lt) ⊎ (cmp entry n.key ≡ Ordering.lt)

  module _ (n : Node) (k : InternalKey) (m : T) (ge : cmp n.key k ≢ Ordering.lt)
      (newest : IsNewest k n.key m) where
    find_ge-insert : table.find_ge k (table.insert n m) ≡ some n
    find_ge-insert = elim (Option-cases (table.find_ge k (table.insert n m))) [
      | inl missing ↦
          absurd
            (ge (ok.all_below k (table.insert n m) n missing ((ok.inserted n n m).1 (inl refl))))
      | inr (x, found) ↦ elim ((ok.inserted n x m).0 (ok.held k (table.insert n m) x found)) [
        | inl same ↦ found ∙ ap some same
        | inr older ↦ elim (newest x older) [
          | inl below ↦ absurd (ok.not_below k (table.insert n m) x found below)
          | inr before ↦
              absurd (
                ok.first k (table.insert n m) x n found ((ok.inserted n n m).1 (inl refl)) ge
                  before)
        ]
      ]
    ]

    -- Seek returns it, as its user key is that of the key.
    seek-insert :
        compare_views (extract_user_key k) (extract_user_key n.key) ≡ Ordering.eq
        → seek table k (table.insert n m) ≡ some n
    unfolding seek
    seek-insert same = rw (find_ge-insert, seek, same)

  -- A value that Add is given: none with a deletion.
  abbrev pub IsEntry : ValueType → List ℕ → Type 0
  IsEntry deletion v = v ≡ []
  IsEntry value v = length v < 2 ^ 32

  entry-short : (t : ValueType) (v : List ℕ) → IsEntry t v → length v < 2 ^ 32
  entry-short deletion v h = rw h (omega arith)
  entry-short value v h = h

  pub get-add :
      (key v old : List ℕ) (seq snapshot : ℕ) (t : ValueType) (s : State) (m : T)
      → length key + 8 < 2 ^ 32
      → IsEntry t v
      → seq ≤ snapshot
      → snapshot ≤ max_sequence_number
      → IsNewest (internal_key key snapshot value) (internal_key key seq t) m
      → get table (lookey key snapshot) old s (add table seq t key v m)
        ≡ Option.map (λ r. (true, r.0, r.1)) (answer t v old s)
  unfolding get add
  get-add key v old seq snapshot t s m hk entry le h newest =
      let hv = entry-short t v entry in
      let n = node_of (entry_bytes seq t key v) in
      let lookup = internal_key key snapshot value in
      let n_key = (node_of-entry_bytes seq t key v hk hv).0 in
      let same : compare_views (extract_user_key lookup) (extract_user_key n.key) ≡ Ordering.eq =
        rw
          (
            n_key,
            extract_user_key-internal_key key snapshot value,
            extract_user_key-internal_key key seq t,
          )
          (compare_views_refl key) in
      let found =
        seek-insert n lookup m (rw n_key (not_below_lookup key seq snapshot t le h))
          (subst (λ k. IsNewest lookup k m) (sym n_key) newest) same in
      let sought : seek table (inter_key (lookey key snapshot)) (table.insert n m) ≡ some n =
        ap (λ k. seek table k (table.insert n m)) (lookey_lem key snapshot).0 ∙ found in
      rw (sought, get, read_node-node_of seq t key v hk hv (omega arith) old s)
