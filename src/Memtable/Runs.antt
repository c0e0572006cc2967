-- ===== src/Memtable/Runs.antt =====
-- A table of nodes in a list, and the memtable over it at concrete inputs.
use Prim.Native.Nat.{Ordering}
use yubindb.Prelude.{
  ℕ, ◌≡◌, ◌≢◌, ◌⊎◌, inl, inr, refl, ap, subst, Bool, Bool-cases, true, false, Option, none, some,
  List, [], ◌∷◌, ◌++◌, length, arith, if◌then◌else◌,
}
use yubindb.State.{State}
use yubindb.Coding.{get_varint32_ptr, varint_length, encode_fixed64, encode_varint32}
use yubindb.Key.{get_size, skiplist_val, value, InternalKey, internal_key, cmp, lookey}
use yubindb.Key.Order.{cmp-flip, cmp_refl, cmp_trans_le}
use yubindb.Memtable.{Node, Skiplist, IsSkiplist, entry_bytes, node_of, add, get}
use yubindb.Memtable.Entry.{node_of-entry_bytes}
use yubindb.Memtable.Lookup.{get-add}

is_lt : Ordering → Bool
is_lt Ordering.lt = true
is_lt Ordering.eq = false
is_lt Ordering.gt = false

is_lt→lt : (o : Ordering) → is_lt o ≡ true → o ≡ Ordering.lt
unfolding is_lt
is_lt→lt o h = ground arith

not-is_lt→ge : (o : Ordering) → is_lt o ≡ false → o ≢ Ordering.lt
unfolding is_lt
not-is_lt→ge o h e = ground arith

-- The first of the two that is not below the key.
unfoldable pick : InternalKey → Node → Option Node → Option Node
pick k x none = if is_lt (cmp x.key k) then none else some x
pick k x (some y) =
    if is_lt (cmp x.key k) then some y else if is_lt (cmp y.key x.key) then some y else some x

unfoldable find : InternalKey → List Node → Option Node
find k [] = none
find k (x ∷ xs) = pick k x (find k xs)

abbrev Holds : Node → List Node → Type 0
Holds n [] = ⊥
Holds n (x ∷ xs) = (n ≡ x) ⊎ Holds n xs

abbrev list_table : Skiplist (List Node)
list_table = record { insert = λ n t. n ∷ t; find_ge = find }

abbrev Found : InternalKey → List Node → Option Node → Type 0
Found k t none = (m : Node) → Holds m t → cmp m.key k ≡ Ordering.lt
Found k t (some n) =
    Holds n t
    × (cmp n.key k ≢ Ordering.lt)
    × ((m : Node) → Holds m t → cmp m.key k ≢ Ordering.lt → cmp m.key n.key ≢ Ordering.lt)

cmp_irrefl : (a b : InternalKey) → a ≡ b → cmp a b ≡ Ordering.lt → ⊥
cmp_irrefl a b e h = ground (arith, cmp_refl b, ap (λ k. cmp k b) e)

cmp-asym : (a b : InternalKey) → cmp a b ≡ Ordering.lt → cmp b a ≡ Ordering.lt → ⊥
cmp-asym a b h k = ground (arith, cmp-flip a b)

cmp-between :
    (m y x : InternalKey)
    → cmp m y ≢ Ordering.lt
    → cmp m x ≡ Ordering.lt
    → cmp y x ≢ Ordering.lt
    → ⊥
cmp-between m y x h k n = n (cmp_trans_le y m x (λ e. ground (arith, cmp-flip y m)) k)

pick-Found :
    (k : InternalKey) (x : Node) (xs : List Node) (o : Option Node)
    → Found k xs o
    → Found k (x ∷ xs) (pick k x o)
unfolding pick
pick-Found k x xs none h = elim (Bool-cases (is_lt (cmp x.key k))) [
  | inl below ↦
      rw below (λ m held. elim held [ inl e ↦ rw e (is_lt→lt _ below) | inr later ↦ h m later ])
  | inr above ↦ rw above (
    inl refl,
    not-is_lt→ge _ above,
    λ m held ge lt. elim held [
      | inl e ↦ cmp_irrefl m.key x.key (ap (λ n. n.key) e) lt
      | inr later ↦ ge (h m later)
    ],
  )
]
pick-Found k x xs (some y) h = elim (Bool-cases (is_lt (cmp x.key k))) [
  | inl below ↦ rw below (
    inr h.0,
    h.1,
    λ m held ge. elim held [
      | inl e ↦ absurd (ge (rw e (is_lt→lt _ below)))
      | inr later ↦ h.2 m later ge
    ],
  )
  | inr above ↦ elim (Bool-cases (is_lt (cmp y.key x.key))) [
    | inl before ↦
        rw (above, before)
          (
            inr h.0,
            h.1,
            λ m held ge lt. elim held [
              | inl e ↦
                  cmp-asym y.key x.key (is_lt→lt _ before)
                    (subst (λ n. cmp n.key y.key ≡ Ordering.lt) e lt)
              | inr later ↦ h.2 m later ge lt
            ],
          )
    | inr behind ↦
        rw (above, behind)
          (
            inl refl,
            not-is_lt→ge _ above,
            λ m held ge lt. elim held [
              | inl e ↦ cmp_irrefl m.key x.key (ap (λ n. n.key) e) lt
              | inr later ↦
                  cmp-between m.key y.key x.key (h.2 m later ge) lt (not-is_lt→ge _ behind)
            ],
          )
  ]
]

find-Found : (k : InternalKey) (t : List Node) → Found k t (find k t)
unfolding find
find-Found k [] = λ m held. absurd held
find-Found k (x ∷ xs) = pick-Found k x xs (find k xs) (find-Found k xs)

list_table-IsSkiplist : IsSkiplist list_table Holds
list_table-IsSkiplist = record {
  inserted = λ n m t. (λ h. h, λ h. h);
  held = λ k t n e. (subst (Found k t) e (find-Found k t)).0;
  not_below = λ k t n e. (subst (Found k t) e (find-Found k t)).1;
  first = λ k t n m e. (subst (Found k t) e (find-Found k t)).2 m;
  all_below = λ k t m e. subst (Found k t) e (find-Found k t) m;
}

abbrev k1 : List ℕ
k1 = 107 ∷ 49 ∷ []

abbrev v1 : List ℕ
v1 = 1 ∷ 2 ∷ 3 ∷ []

node_of-entry_bytes_example :
    let n = node_of (entry_bytes 7 value k1 v1) in
    (n.key ≡ internal_key k1 7 value)
    × (length n.stored.val ≡ 3)
    × (n.stored.val ++ n.stored.past ≡ encode_varint32 3 ++ v1)
node_of-entry_bytes_example = node_of-entry_bytes 7 value k1 v1 (omega arith) (omega arith)

-- The string of the node: the length, and the value without its last byte.
short_value : (node_of (entry_bytes 7 value k1 v1)).stored.val ≡ 3 ∷ 1 ∷ 2 ∷ []
unfolding node_of entry_bytes skiplist_val get_size get_varint32_ptr encode_varint32 varint_length
    encode_fixed64
short_value = refl

-- A value of three bytes is read behind the end of its string.
get_three : get list_table (lookey k1 9) [] State.ok (add list_table 7 value k1 v1 []) ≡ none
get_three =
    get-add list_table Holds list_table-IsSkiplist k1 v1 [] 7 9 value State.ok [] (omega arith)
      (omega arith) (omega arith) (omega arith) (λ n held. absurd held)
