-- ===== src/Block/Build.antt =====
-- What Blockbuilder writes: a row of entries, each with the prefix it shares, then the restarts.
use yubindb.Prelude.{
  ℕ, ◌-◌, ◌*◌, ◌%◌, ◌^◌, ◌≤◌, ◌<◌, ◌≡◌, refl, ap, ap₂, sym, subst, ◌∙◌, Bool-cases, inl, inr, List,
  [], ◌∷◌, ◌++◌, ◌==◌, ltb, length, length-append, take, drop, take-append-drop, append_assoc,
  append-nil, arith,
}
use yubindb.Coding.{put_varint32, put_fixed32, encode_fixed32}
use yubindb.Coding.Fixed.{length-encode_fixed32}
use yubindb.Block.{BlockBuilder, shared_length, start_entry, add, put_restarts, finish}
use yubindb.Block.Entry.{size_bytes}

abbrev pub Pairs : Type 0
Pairs = List (List ℕ × List ℕ)

-- `Encoded last es bytes`: behind an entry with key `last`, `bytes` hold the entries `es`.
pub data Encoded : List ℕ → Pairs → List ℕ → Type 0 where
  done : (last : List ℕ) → Encoded last [] []
  entry :
      (last key v : List ℕ) (shared : ℕ) (es : Pairs) (bytes : List ℕ)
      → shared ≤ length last
      → shared ≤ length key
      → take shared last ≡ take shared key
      → length key < 2 ^ 32
      → length v < 2 ^ 32
      → Encoded key es bytes
      → Encoded last
          ((key, v) ∷ es)
          (size_bytes shared (length key - shared) (length v) ((drop shared key ++ v) ++ bytes))

shared_length_lem :
    (xs ys : List ℕ)
    → (shared_length xs ys ≤ length xs)
      × (shared_length xs ys ≤ length ys)
      × (take (shared_length xs ys) xs ≡ take (shared_length xs ys) ys)
unfolding shared_length
shared_length_lem [] ys = (omega arith, omega arith, refl)
shared_length_lem (x ∷ xs) [] = (omega arith, omega arith, refl)
shared_length_lem (x ∷ xs) (y ∷ ys) =
    let (a, b, c) = shared_length_lem xs ys in
    elim (Bool-cases (x == y)) [
      | inl same ↦ rw same (omega arith, omega arith, ap₂ (λ h t. h ∷ t) (ground arith) c)
      | inr differ ↦ rw differ (omega arith, omega arith, refl)
    ]

-- The first branch of Add shares a prefix with the last key, the second shares nothing.
record Started (b : BlockBuilder) (key : List ℕ) (r : ℕ × BlockBuilder) : Type 0 where
  in_last : r.0 ≤ length b.last_key
  in_key : r.0 ≤ length key
  agrees : take r.0 b.last_key ≡ take r.0 key
  last_kept : r.1.last_key ≡ b.last_key
  buffer_kept : r.1.buffer ≡ b.buffer
  first_kept : (rs : List ℕ) → b.restarts ≡ 0 ∷ rs → (rs' : List ℕ) × (r.1.restarts ≡ 0 ∷ rs')

start_entry-Started : (b : BlockBuilder) (key : List ℕ) → Started b key (start_entry b key)
unfolding start_entry
start_entry-Started b key = elim (Bool-cases (ltb b.entrynum b.interval)) [
  | inl shares ↦ rw shares (
      let (a, c, d) = shared_length_lem b.last_key key in
      record {
        in_last = a;
        in_key = c;
        agrees = d;
        last_kept = refl;
        buffer_kept = refl;
        first_kept = λ rs e. (rs, e);
      })
  | inr restart ↦ rw restart (record {
    in_last = omega arith;
    in_key = omega arith;
    agrees = refl;
    last_kept = refl;
    buffer_kept = refl;
    first_kept = λ rs e.
        (rs ++ (length b.buffer % 2 ^ 32) ∷ [], ap (λ t. t ++ (length b.buffer % 2 ^ 32) ∷ []) e);
  })
]

-- Adding entries one after the other.
abbrev pub add_all : Pairs → BlockBuilder → BlockBuilder
add_all [] b = b
add_all ((key, v) ∷ es) b = add_all es (add b key v)

abbrev pub Small : Pairs → Type 0
Small [] = Unit {0}
Small ((key, v) ∷ es) = (length key < 2 ^ 32) × (length v < 2 ^ 32) × Small es

add_lem :
    (b : BlockBuilder) (key v : List ℕ)
    → length key < 2 ^ 32
    → length v < 2 ^ 32
    → let (shared, c) = start_entry b key in
      ((add b key v).last_key ≡ key)
      × ((add b key v).restarts ≡ c.restarts)
      × ((add b key v).buffer
          ≡ b.buffer ++ size_bytes shared (length key - shared) (length v) (drop shared key ++ v))
unfolding add put_varint32
add_lem b key v hk hv =
    let s = start_entry-Started b key in
    let shared = (start_entry b key).0 in
    let w1 : shared % 2 ^ 32 ≡ shared = omega (arith, s.in_key) in
    let w2 : (length key - shared) % 2 ^ 32 ≡ length key - shared = omega arith in
    let w3 : length v % 2 ^ 32 ≡ length v = omega arith in
    (
      rw (s.last_kept, s.agrees) (take-append-drop shared key),
      refl,
      rw (w1, w2, w3, s.buffer_kept) (simp append_assoc refl),
    )

-- The builder's buffer after a row of entries.
pub add_all-Encoded :
    (es : Pairs) (b : BlockBuilder) (rs : List ℕ)
    → Small es
    → b.restarts ≡ 0 ∷ rs
    → (bytes : List ℕ) × (rs' : List ℕ) × ((add_all es b).buffer ≡ b.buffer ++ bytes)
      × ((add_all es b).restarts ≡ 0 ∷ rs')
      × Encoded b.last_key es bytes
add_all-Encoded [] b rs small first = ([], rs, sym (append-nil b.buffer), first, done b.last_key)
add_all-Encoded ((key, v) ∷ es) b rs small first =
    let s = start_entry-Started b key in
    let shared = (start_entry b key).0 in
    let (last, restarts, buffer) = add_lem b key v small.0 small.1 in
    let (rs1, first1) = s.first_kept rs first in
    let (bytes, rs', whole, firsts, later) =
      add_all-Encoded es (add b key v) rs1 small.2 (restarts ∙ first1) in
    (
      size_bytes shared (length key - shared) (length v) ((drop shared key ++ v) ++ bytes),
      rs',
      whole ∙ ap (λ t. t ++ bytes) buffer ∙ simp append_assoc refl,
      firsts,
      entry b.last_key key v shared es bytes s.in_last s.in_key s.agrees small.0 small.1
          (subst (λ k. Encoded k es bytes) last later),
    )

pub put_restarts-append : (rs dst : List ℕ) → put_restarts dst rs ≡ dst ++ put_restarts [] rs
unfolding put_restarts put_fixed32
put_restarts-append [] dst = sym (append-nil dst)
put_restarts-append (r ∷ rs) dst =
    put_restarts-append rs (dst ++ encode_fixed32 r)
    ∙ append_assoc dst (encode_fixed32 r) (put_restarts [] rs)
    ∙ ap (λ t. dst ++ t) (sym (put_restarts-append rs (encode_fixed32 r)))

pub length-put_restarts : (rs : List ℕ) → length (put_restarts [] rs) ≡ length rs * 4
unfolding put_restarts put_fixed32
length-put_restarts [] = refl
length-put_restarts (r ∷ rs) = omega (
  arith,
  length-put_restarts rs,
  ap length (put_restarts-append rs (encode_fixed32 r)),
  length-append (encode_fixed32 r) (put_restarts [] rs),
  length-encode_fixed32 r,
)

-- Finish puts the restarts and their number behind the entries.
pub finish_lem :
    (b : BlockBuilder)
    → (finish b).0
      ≡ b.buffer ++ (put_restarts [] b.restarts ++ encode_fixed32 (length b.restarts % 2 ^ 32))
unfolding finish put_fixed32
finish_lem b =
    ap (λ t. t ++ encode_fixed32 (length b.restarts % 2 ^ 32))
      (put_restarts-append b.restarts b.buffer)
    ∙ append_assoc b.buffer (put_restarts [] b.restarts)
        (encode_fixed32 (length b.restarts % 2 ^ 32))
