-- ===== src/Netif/Table.antt =====
-- Registration and search in the table of netif.c.
use vros.Base.{
  Bool-cases, ℕ, zero, suc, ◌+◌, ◌≤◌, ◌<◌, ◌≡◌, refl, ap, ◌∙◌, ◌≢◌, ◌⊎◌, inl, inr, true, false,
  none, some, List, [], ◌∷◌, arith, length, get_or, set, take, All, leb,
}
use vros.Base.{get_or-set_self, get_or-set_ne, All-at}
use vros.CString.{strcmp, strcpy, text, strcmp_lem, text-strcpy}
use vros.Netif.{Netif, NetifOps, Netifs, max_netif, no_netif, find_netif, netif_register, netif_get}

module _ {W : Type 0} where
  -- None of the first `n` interfaces has the name.
  abbrev pub Unnamed : List ℕ → ℕ → List (Netif W) → Type 0
  Unnamed name n ns = All (λ x. strcmp x.name name ≡ false) (take n ns)

  find_netif-set :
      (name : List ℕ) (x : Netif W) (n k : ℕ) (ns : List (Netif W))
      → Unnamed name n ns
      → n < length ns
      → strcmp x.name name ≡ true
      → find_netif name (n + 1) k (set ns n x) ≡ some (k + n)
  unfolding find_netif
  find_netif-set name x n k [] fresh lt hit = absurd (omega arith)
  find_netif-set name x zero k (y ∷ ns) fresh lt hit = rw hit (ap some (omega arith))
  find_netif-set name x (suc n) k (y ∷ ns) fresh lt hit =
      let ih = find_netif-set name x n (k + 1) ns fresh.1 (omega arith) hit in
      let rounds : suc n + 1 ≡ suc (n + 1) = omega arith in
      rw rounds (rw (fresh.0) (ih ∙ ap some (omega arith)))

  -- Where the table and every name array have their size and no registered interface has the name:
  -- registering an interface under a name of fewer than 16 characters fails with four interfaces
  -- and changes nothing, else it succeeds, and netif_get then leads from the name to the interface
  -- with the functions given, and the other places stay.
  pub get_netif-register :
      (name : List ℕ) (ops : NetifOps W) (private_data : ℕ) (s : Netifs W)
      → length (text name) < 16
      → length s.netifs ≡ max_netif
      → All (λ (n : Netif W). length n.name ≡ 16) s.netifs
      → Unnamed name s.netif_count s.netifs
      → let (ok, s') = netif_register name ops private_data s in
        ((max_netif ≤ s.netif_count) × (ok ≡ false) × (s' ≡ s))
        ⊎ ((ok ≡ true)
            × (netif_get name s' ≡ some s.netif_count)
            × ((get_or s'.netifs s.netif_count no_netif).ops ≡ some ops)
            × ((j : ℕ)
                → s.netif_count ≢ j
                → get_or s'.netifs j no_netif ≡ get_or s.netifs j no_netif))
  unfolding netif_register netif_get
  get_netif-register name ops private_data s short table arrays fresh =
      let k = s.netif_count in
      let n = get_or s.netifs k no_netif in
      elim (Bool-cases (leb max_netif k)) [
        | inl full ↦
            let call : netif_register name ops private_data s ≡ (false, s) = rw full refl in
            rw call (inl (ground (arith, full), refl, refl))
        | inr room ↦
            let lt : k < max_netif = ground (arith, room) in
            let x : Netif W = record n {
              name = strcpy n.name name;
              ops = some ops;
              private_data = private_data;
              mac_addr = elim ops.get_mac [ none ↦ n.mac_addr | some mac ↦ mac ];
            } in
            let s' : Netifs W = record { netifs = set s.netifs k x; netif_count = k + 1 } in
            let call : netif_register name ops private_data s ≡ (true, s') = rw room refl in
            let within : k < length s.netifs = omega (arith, table) in
            let sized : length n.name ≡ 16 =
              All-at (λ (m : Netif W). length m.name ≡ 16) s.netifs k no_netif arrays within in
            let hit : strcmp x.name name ≡ true =
              (strcmp_lem (strcpy n.name name) name).1
                (text-strcpy n.name name (omega (arith, sized, short))) in
            rw call (
              inr (
                refl,
                find_netif-set name x k 0 s.netifs fresh within hit ∙ ap some (omega arith),
                ap (λ (m : Netif W). m.ops) (get_or-set_self s.netifs k x no_netif within),
                λ j ne. get_or-set_ne s.netifs k j x no_netif ne,
              ))
      ]
