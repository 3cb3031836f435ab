-- ===== src/Netstack/Arp.antt =====
-- The ARP cache of src/lib/netstack_driver.c, and what one stack learns from the answer of another.
use vros.Base.{
  ℕ, ◌≡◌, refl, ◌⊎◌, inl, inr, true, none, some, List, [], ◌∷◌, ◌==◌, if◌then◌else◌, arith,
  Bool-cases, All,
}
use vros.Netstack.{MacAddr, ArpEntry, update_cache, find_mac}

-- Every place is taken, and none by the address.
pub record IsFull (ip : ℕ) (es : List ArpEntry) : Type 0 where
  pub taken : All (λ (e : ArpEntry). e.valid ≡ true) es
  pub other : find_mac ip es ≡ none

-- As a map from IP to MAC addresses, the cache after an entry is the old one with the address of
-- the sender set, and only if every place is taken by other addresses it stays as it is.
pub find-update_cache :
    (ip : ℕ) (mac : MacAddr) (es : List ArpEntry)
    → (IsFull ip es × (update_cache ip mac es ≡ es))
      ⊎ ((q : ℕ)
          → find_mac q (update_cache ip mac es) ≡ (if ip == q then some mac else find_mac q es))
unfolding update_cache find_mac
find-update_cache ip mac [] = inl (record { taken = tt; other = refl }, refl)
find-update_cache ip mac (e ∷ es) = elim (Bool-cases e.valid) [
  | inr free ↦ inr (λ q. rw (free) refl)
  | inl used ↦ elim (Bool-cases (e.ip == ip)) [
    | inl same ↦ inr (λ q. rw (used, same) (ground (arith, same)))
    | inr apart ↦ elim (find-update_cache ip mac es) [
      | inl (k, e1) ↦ inl (
        record { taken = (used, k.taken); other = rw (used, apart) k.other },
        rw (used, apart, e1) refl,
      )
      | inr views ↦ inr (λ q. rw (used, apart) (ground (arith, views q, apart, used)))
    ]
  ]
]
