-- ===== src/Message/GlobalId/Order.antt =====
-- message/idgen.go: `Compare`, `Equal` and the order of the sixteen bytes.
use live_chat_room.Prelude.{
  dec_lt, ℕ, zero, suc, ◌+◌, ◌*◌, ◌^◌, ◌≤◌, ◌<◌, Ordering, ◌≡◌, refl, ◌↔◌, true, List, [], ◌∷◌,
  ◌++◌, arith, be_bytes, be_from, length, take, All, ◌∙◌, ap, sym,
}
use live_chat_room.Message.GlobalId.{
  GlobalId, epoch, last_part, build_id_with_seq, extract_timestamp, compare_bytes, compare_id,
  equal_id, global_id_length,
}
use live_chat_room.Message.GlobalId.RoundTrip.{extract_timestamp-in_range}

abbrev pub IsByte : ℕ → Type 0
IsByte b = b < 256

-- An array of 16 bytes.
pub record IsGlobalId (id : GlobalId) : Type 0 where
  pub sixteen : length id ≡ global_id_length
  pub bytes : All IsByte id

from-lt :
    (xs ys : List ℕ) (acc acc' n : ℕ)
    → All IsByte xs
    → All IsByte ys
    → length xs ≡ length ys
    → acc < acc'
    → be_from acc (take n xs) < be_from acc' (take n ys)
from-lt xs ys acc acc' zero hx hy e h = h
from-lt [] [] acc acc' (suc n) hx hy e h = h
from-lt [] (y ∷ ys) acc acc' (suc n) hx hy e h = absurd (omega arith)
from-lt (x ∷ xs) [] acc acc' (suc n) hx hy e h = absurd (omega arith)
from-lt (x ∷ xs) (y ∷ ys) acc acc' (suc n) hx hy e h =
    from-lt xs ys (acc * 256 + x) (acc' * 256 + y) n hx.1 hy.1 (omega arith) (omega arith)

from-le-compare_bytes :
    (xs ys : List ℕ) (acc n : ℕ)
    → All IsByte xs
    → All IsByte ys
    → length xs ≡ length ys
    → compare_bytes xs ys ≡ Ordering.gt
    → be_from acc (take n ys) ≤ be_from acc (take n xs)
unfolding compare_bytes
from-le-compare_bytes xs ys acc zero hx hy e h = omega arith
from-le-compare_bytes [] ys acc (suc n) hx hy e h = cc
from-le-compare_bytes (x ∷ xs) [] acc (suc n) hx hy e h = absurd (omega arith)
from-le-compare_bytes (x ∷ xs) (y ∷ ys) acc (suc n) hx hy e h = ground (
  arith,
  from-le-compare_bytes xs ys (acc * 256 + x) n,
  from-lt ys xs (acc * 256 + y) (acc * 256 + x) n,
)

abbrev pub flip : Ordering → Ordering
flip Ordering.lt = Ordering.gt
flip Ordering.eq = Ordering.eq
flip Ordering.gt = Ordering.lt

pub compare_bytes-flip : (xs ys : List ℕ) → compare_bytes ys xs ≡ flip (compare_bytes xs ys)
unfolding compare_bytes
compare_bytes-flip [] [] = refl
compare_bytes-flip [] (y ∷ ys) = refl
compare_bytes-flip (x ∷ xs) [] = refl
compare_bytes-flip (x ∷ xs) (y ∷ ys) = ground (arith, compare_bytes-flip xs ys)

eq_of_compare_bytes :
    (xs ys : List ℕ) → length xs ≡ length ys → compare_bytes xs ys ≡ Ordering.eq → xs ≡ ys
unfolding compare_bytes
eq_of_compare_bytes [] [] e h = refl
eq_of_compare_bytes [] (y ∷ ys) e h = absurd (omega arith)
eq_of_compare_bytes (x ∷ xs) [] e h = absurd (omega arith)
eq_of_compare_bytes (x ∷ xs) (y ∷ ys) e h = ground (arith, eq_of_compare_bytes xs ys)

compare_bytes_self : (xs : List ℕ) → compare_bytes xs xs ≡ Ordering.eq
unfolding compare_bytes
compare_bytes_self [] = refl
compare_bytes_self (x ∷ xs) = ground (arith, compare_bytes_self xs)

compare_bytes_trans :
    (xs ys zs : List ℕ)
    → compare_bytes xs ys ≡ Ordering.lt
    → compare_bytes ys zs ≡ Ordering.lt
    → compare_bytes xs zs ≡ Ordering.lt
unfolding compare_bytes
compare_bytes_trans [] ys zs h k = cc
compare_bytes_trans (x ∷ xs) [] zs h k = cc
compare_bytes_trans (x ∷ xs) (y ∷ ys) [] h k = cc
compare_bytes_trans (x ∷ xs) (y ∷ ys) (z ∷ zs) h k = ground (arith, compare_bytes_trans xs ys zs)

compare_bytes-append :
    (ps xs ys : List ℕ) → compare_bytes (ps ++ xs) (ps ++ ys) ≡ compare_bytes xs ys
unfolding compare_bytes
compare_bytes-append [] xs ys = refl
compare_bytes-append (p ∷ ps) xs ys = ground (arith, compare_bytes-append ps xs ys)

module _ (a b : GlobalId) (va : IsGlobalId a) (vb : IsGlobalId b) where
  timestamp-le : compare_bytes a b ≡ Ordering.gt → extract_timestamp b ≤ extract_timestamp a
  unfolding extract_timestamp
  timestamp-le h =
      omega (arith, from-le-compare_bytes a b 0 8 va.bytes vb.bytes (va.sixteen ∙ sym vb.sixteen) h)

timestamp-eq :
    (a b : GlobalId)
    → IsGlobalId a
    → IsGlobalId b
    → compare_bytes a b ≡ Ordering.eq
    → extract_timestamp a ≡ extract_timestamp b
timestamp-eq a b va vb h =
    ap extract_timestamp (eq_of_compare_bytes a b (va.sixteen ∙ sym vb.sixteen) h)

-- On arrays of 16 bytes, comparing the timestamps before the bytes is the lexicographic order of
-- the bytes.
pub compare_id-eq-compare_bytes :
    (a b : GlobalId) → IsGlobalId a → IsGlobalId b → compare_id a b ≡ compare_bytes a b
unfolding compare_id
compare_id-eq-compare_bytes a b va vb = ground (
  arith,
  timestamp-le a b va vb,
  timestamp-le b a vb va,
  timestamp-eq a b va vb,
  compare_bytes-flip a b,
)

-- `Equal` holds of two arrays of 16 bytes exactly when they are the same.
pub equal_id_iff : (a b : GlobalId) → IsGlobalId a → IsGlobalId b → (equal_id a b ≡ true) ↔ (a ≡ b)
unfolding equal_id
equal_id_iff a b va vb = (
  λ h.
      eq_of_compare_bytes a b (va.sixteen ∙ sym vb.sixteen)
        (ground (arith, compare_id-eq-compare_bytes a b va vb)),
  λ e. rw e (ground (arith, compare_id-eq-compare_bytes b b vb vb, compare_bytes_self b)),
)

-- On arrays of 16 bytes, `Compare` turns round when its arguments are exchanged, and "less than" is
-- transitive.
pub compare_id_order :
    (a b c : GlobalId)
    → IsGlobalId a
    → IsGlobalId b
    → IsGlobalId c
    → (compare_id b a ≡ flip (compare_id a b))
      × (compare_id a b ≡ Ordering.lt → compare_id b c ≡ Ordering.lt → compare_id a c ≡ Ordering.lt)
compare_id_order a b c va vb vc =
    rw
      (
        compare_id-eq-compare_bytes b a vb va,
        compare_id-eq-compare_bytes a b va vb,
        compare_id-eq-compare_bytes b c vb vc,
        compare_id-eq-compare_bytes a c va vc,
      )
      (compare_bytes-flip a b, compare_bytes_trans a b c)

-- Equal times: the sequence numbers decide.
module _ (now user_id room_id login_id custom s s' : ℕ) where
  abbrev prefix : List ℕ
  prefix = take 14 (build_id_with_seq now user_id room_id login_id custom s)

  abbrev tail_of : ℕ → List ℕ
  tail_of n = be_bytes 2 (last_part login_id custom n)

  prefix-tail :
      compare_bytes
        (build_id_with_seq now user_id room_id login_id custom s)
        (build_id_with_seq now user_id room_id login_id custom s')
      ≡ compare_bytes (prefix ++ tail_of s) (prefix ++ tail_of s')
  unfolding build_id_with_seq
  prefix-tail = refl

  tail-lt : s < s' → s' < 64 → compare_bytes (tail_of s) (tail_of s') ≡ Ordering.lt
  unfolding compare_bytes last_part
  tail-lt h k = ground arith

  compare_bytes-build :
      s < s'
      → s' < 64
      → compare_bytes
          (build_id_with_seq now user_id room_id login_id custom s)
          (build_id_with_seq now user_id room_id login_id custom s')
        ≡ Ordering.lt
  compare_bytes-build h k =
      prefix-tail ∙ compare_bytes-append prefix (tail_of s) (tail_of s') ∙ tail-lt h k

-- Of two identifiers of one sender, the one with the earlier time, or at one time with the smaller
-- sequence number, compares as less.
pub compare_id-build :
    (t t' user_id room_id login_id custom s s' : ℕ)
    → epoch ≤ t
    → t' < epoch + 2 ^ 48
    → s < 64
    → s' < 64
    → t * 64 + s < t' * 64 + s'
    → compare_id
        (build_id_with_seq t user_id room_id login_id custom s)
        (build_id_with_seq t' user_id room_id login_id custom s')
      ≡ Ordering.lt
unfolding compare_id
compare_id-build t t' u r l c s s' h k hs hs' o = elim (dec_lt t t') [
  | yes p ↦ ground (
    arith,
    extract_timestamp-in_range t u r l c s h (omega arith),
    extract_timestamp-in_range t' u r l c s' (omega arith) k,
  )
  | no p ↦
      let e : t ≡ t' = omega arith in
      rw e (
        ground (
          arith,
          compare_bytes-build t' u r l c s s',
          extract_timestamp-in_range t' u r l c s,
          extract_timestamp-in_range t' u r l c s',
        ))
]
