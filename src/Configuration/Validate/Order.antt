-- ===== src/Configuration/Validate/Order.antt =====
-- What an accepted execution order is (validateExecutionOrder in config.go): each extension once.
use mihomo_extension_sidecar.Common.{
  ℕ, suc, ◌≤◌, ◌<◌, true, false, List, [], ◌∷◌, some, Bytes, bytes_eq, bytes_eq_iff, bytes_eq_refl,
  if◌then◌else◌, length, set_mem, set_remove, ◌≡◌, refl, ap, arith,
}
use mihomo_extension_sidecar.Configuration.Types.{Extension}
use mihomo_extension_sidecar.Configuration.Validate.Documents.{
  ids, valid_order, validate_execution_order,
}

-- How often an id stands in an order.
unfoldable pub occurrences : Bytes → List Bytes → ℕ
occurrences x [] = 0
occurrences x (y ∷ ys) = let rest = occurrences x ys in if bytes_eq y x then suc rest else rest

length-set_remove :
    (x : Bytes) (xs : List Bytes)
    → (length (set_remove x xs) ≤ length xs)
      × (set_mem x xs ≡ true → length (set_remove x xs) < length xs)
unfolding set_remove set_mem
length-set_remove x [] = ground arith
length-set_remove x (y ∷ ys) = ground (arith, length-set_remove x ys)

set_mem-set_remove_ne :
    (x y : Bytes) (xs : List Bytes)
    → bytes_eq x y ≡ false
    → set_mem y (set_remove x xs) ≡ set_mem y xs
unfolding set_remove set_mem
set_mem-set_remove_ne x y [] n = refl
set_mem-set_remove_ne x y (z ∷ zs) n =
    ground
      (arith, set_mem-set_remove_ne x y zs n, bytes_eq_iff z x, bytes_eq_iff z y, bytes_eq_iff x y)

mem_of_eq : (x y : Bytes) (xs : List Bytes) → bytes_eq x y ≡ true → set_mem x xs ≡ set_mem y xs
mem_of_eq x y xs e = rw ((bytes_eq_iff x y).0 e) refl

-- What was seen does not stand in the order again.
seen_absent :
    (members seen order : List Bytes) (x : Bytes)
    → valid_order members seen order ≡ true
    → set_mem x seen ≡ true
    → occurrences x order ≡ 0
unfolding valid_order occurrences set_mem
seen_absent members seen [] x v s = refl
seen_absent members seen (y ∷ order) x v s = ground (
  arith,
  seen_absent members (y ∷ seen) order x (ground arith) (ground (arith, s)),
  mem_of_eq y x seen,
)

once :
    (members order seen : List Bytes) (x : Bytes)
    → valid_order members seen order ≡ true
    → occurrences x order ≤ 1
unfolding valid_order occurrences set_mem
once members [] seen x v = omega arith
once members (y ∷ order) seen x v = ground (
  arith,
  once members order (y ∷ seen) x (ground arith),
  seen_absent members (y ∷ seen) order x (ground arith),
)

-- An id that the order does not have can be taken out of the members.
shrink :
    (members order seen : List Bytes) (x : Bytes)
    → valid_order members seen order ≡ true
    → occurrences x order ≡ 0
    → valid_order (set_remove x members) seen order ≡ true
unfolding valid_order occurrences
shrink members [] seen x v n = refl
shrink members (y ∷ order) seen x v n = ground (
  arith,
  v,
  n,
  shrink members order (y ∷ seen) x (ground arith) (ground (arith, n)),
  set_mem-set_remove_ne x y members,
  bytes_eq_iff x y,
  bytes_eq_iff y x,
)

-- An order is no longer than its members.
order_short :
    (order members seen : List Bytes)
    → valid_order members seen order ≡ true
    → length order ≤ length members
unfolding valid_order set_mem
order_short [] members seen v = omega arith
order_short (y ∷ order) members seen v =
    let rest : valid_order members (y ∷ seen) order ≡ true = ground (arith, v) in
    let absent = seen_absent members (y ∷ seen) order y rest (ground (arith, bytes_eq_refl y)) in
    let short =
      order_short order (set_remove y members) (y ∷ seen)
        (shrink members order (y ∷ seen) y rest absent) in
    ground (arith, v, short, length-set_remove y members)

members_only :
    (members order seen : List Bytes) (x : Bytes)
    → valid_order members seen order ≡ true
    → 0 < occurrences x order
    → set_mem x members ≡ true
unfolding valid_order occurrences
members_only members [] seen x v p = absurd (omega arith)
members_only members (y ∷ order) seen x v p =
    ground (arith, v, p, members_only members order (y ∷ seen) x, mem_of_eq y x members)

length-ids : (modules : List Extension) → length (ids modules) ≡ length modules
length-ids [] = refl
length-ids (m ∷ modules) = ap suc (length-ids modules)

-- In an order that is accepted, every id of an extension stands exactly once, and nothing else stands.
pub execution_order-once :
    (modules : List Extension) (order : List Bytes)
    → validate_execution_order modules (some order) ≡ true
    → (id : Bytes) → occurrences id order ≡ (if set_mem id (ids modules) then 1 else 0)
unfolding validate_execution_order
execution_order-once modules order v id =
    let valid : valid_order (ids modules) [] order ≡ true = ground (arith, v) in
    let size : length order ≡ length (ids modules) = ground (arith, v, length-ids modules) in
    ground (
      arith,
      once (ids modules) order [] id valid,
      members_only (ids modules) order [] id valid,
      order_short order (set_remove id (ids modules)) [],
      shrink (ids modules) order [] id valid,
      length-set_remove id (ids modules),
      size,
    )
