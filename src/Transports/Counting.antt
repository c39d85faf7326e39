-- ===== src/Transports/Counting.antt =====
-- How many leases of a generation are not released, and the list of closes that wait.
use mihomo_extension_sidecar.Common.{
  ℕ, suc, zero, ◌+◌, ◌<◌, ◌==◌, true, false, not, ◌&&◌, List, [], ◌∷◌, ◌++◌, some, if◌then◌else◌,
  set, get_elem?, ◌≡◌, ◌≢◌, refl, arith,
}
use mihomo_extension_sidecar.Transports.{Lease, remove_first, is_in}

unfoldable pub live_leases : ℕ → List Lease → ℕ
live_leases a [] = 0
live_leases a (l ∷ ls) =
    let rest = live_leases a ls in if not l.released && l.address == a then suc rest else rest

pub live_leases-append :
    (a : ℕ) (ls : List Lease) (l : Lease)
    → live_leases a (ls ++ l ∷ []) ≡ live_leases a ls + live_leases a (l ∷ [])
unfolding live_leases
live_leases-append a [] l = ground arith
live_leases-append a (k ∷ ls) l = ground (arith, live_leases-append a ls l)

-- Releasing a lease takes one off the count of its generation.
pub live_leases-set :
    (a i : ℕ) (ls : List Lease) (l : Lease)
    → get_elem? ls i ≡ some l
    → l.released ≡ false
    → live_leases a (set ls i (record { address = l.address; released = true }))
        + (if l.address == a then 1 else 0)
      ≡ live_leases a ls
unfolding live_leases
live_leases-set a i [] l e h = cc
live_leases-set a zero (k ∷ ls) l e h = ground (arith, e, h)
live_leases-set a (suc i) (k ∷ ls) l e h = ground (arith, live_leases-set a i ls l e h)

pub live_leases-held :
    (i : ℕ) (ls : List Lease) (l : Lease)
    → get_elem? ls i ≡ some l
    → l.released ≡ false
    → 0 < live_leases l.address ls
unfolding live_leases
live_leases-held i [] l e h = cc
live_leases-held zero (k ∷ ls) l e h = ground (arith, e, h)
live_leases-held (suc i) (k ∷ ls) l e h = ground (arith, live_leases-held i ls l e h)

pub is_in-append :
    (a b : ℕ) (bs : List ℕ) → is_in a (bs ++ b ∷ []) ≡ (if b == a then true else is_in a bs)
unfolding is_in
is_in-append a b [] = ground arith
is_in-append a b (c ∷ bs) = ground (arith, is_in-append a b bs)

pub is_in-remove_first : (a b : ℕ) (bs : List ℕ) → a ≢ b → is_in a (remove_first b bs) ≡ is_in a bs
unfolding is_in remove_first
is_in-remove_first a b [] n = refl
is_in-remove_first a b (c ∷ bs) n = ground (arith, is_in-remove_first a b bs n)

pub is_in_removed : (a b : ℕ) (bs : List ℕ) → is_in a (remove_first b bs) ≡ true → is_in a bs ≡ true
unfolding is_in remove_first
is_in_removed a b [] h = h
is_in_removed a b (c ∷ bs) h = ground (arith, is_in_removed a b bs)
