-- ===== src/Discovery/Results.antt =====
-- Which addresses `discover_addresses` finds.
use uip.Base.{
  ◌↔◌, ℕ, zero, suc, ◌-◌, ◌≤◌, ◌≡◌, refl, ap, sym, Elem, here, there, not-Elem-nil, Elem-append,
  Elem-cons, Elem-append_left, Elem-append_right, List, [], ◌∷◌, ◌++◌, Option, none, some, ok, Bool,
  true, false, not, ◌&&◌, length, length-append, length-take, length-replicate, take, min, arith,
  inl, inr, Bool-cases, replicate,
}
use uip.Data.Address.{SocketAddr, SocketAddrV6, v4, v6}
use uip.Discovery.{
  Interfaces, LocalAddress, copy_from_slice, new, local_address, local_addresses, collect,
  discover_addresses,
}

take_padded : (n : ℕ) (s pad : List ℕ) → n ≤ length s → take n (take n s ++ pad) ≡ take n s
take_padded zero s pad h = refl
take_padded (suc n) [] pad h = absurd (omega arith)
take_padded (suc n) (x ∷ s) pad h = ap (◌∷◌ x) (take_padded n s pad (omega arith))

-- An interface name has 16 bytes; it begins with the slice where that fits, and else is its first
-- 16 bytes.
pub copy_from_slice_lem :
    (s : List ℕ)
    → (length (copy_from_slice s).bytes ≡ 16)
      × (take (min (length s) 16) (copy_from_slice s).bytes ≡ take (min (length s) 16) s)
unfolding copy_from_slice
copy_from_slice_lem s = (
  omega (
    arith,
    length-append (take (min (length s) 16) s) (replicate (16 - min (length s) 16) 0),
    length-take (min (length s) 16) s,
    length-replicate {A = ℕ} (16 - min (length s) 16) 0,
  ),
  take_padded (min (length s) 16) s (replicate (16 - min (length s) 16) 0) (omega arith),
)

module _ (api : Interfaces) (is_global : ℕ → Bool) where
  open api use {Interface, is_loopback, is_running, name, addresses}

  -- `l` stands for the global IPv6 address `a` of a running interface that is no loopback.
  pub record Stands (l : LocalAddress) (i : Interface) (a : SocketAddrV6) : Type 0 where
    pub member : Elem (some (v6 a)) (addresses i)
    pub global : is_global a.ip ≡ true
    pub outside : is_loopback i ≡ false
    pub running : is_running i ≡ true
    pub named : l ≡ new (name i) a

  Elem-local_addresses :
      (l : LocalAddress) (interface : List ℕ) (entries : List (Option SocketAddr))
      → Elem l (local_addresses api is_global interface entries)
      → (a : SocketAddrV6) × Elem (some (v6 a)) entries
        × (is_global a.ip ≡ true)
        × (l ≡ new interface a)
  unfolding local_addresses local_address
  Elem-local_addresses l interface [] e = absurd (not-Elem-nil e)
  Elem-local_addresses l interface (none ∷ more) e =
      let (a, m, g, n) = Elem-local_addresses l interface more e in (a, there m, g, n)
  Elem-local_addresses l interface (some (v4 b) ∷ more) e =
      let (a, m, g, n) = Elem-local_addresses l interface more e in (a, there m, g, n)
  Elem-local_addresses l interface (some (v6 b) ∷ more) e = elim (Bool-cases (is_global b.ip)) [
    | inl t ↦ elim (Elem-cons (rw (t, local_addresses, local_address) at e)) [
      | inl p ↦ (b, here, t, p)
      | inr r ↦ let (a, m, g, n) = Elem-local_addresses l interface more r in (a, there m, g, n)
    ]
    | inr f ↦
        let (a, m, g, n) =
          Elem-local_addresses l interface more (rw (f, local_addresses, local_address) at e) in
        (a, there m, g, n)
  ]

  local_addresses-Elem :
      (a : SocketAddrV6) (interface : List ℕ) (entries : List (Option SocketAddr))
      → Elem (some (v6 a)) entries
      → is_global a.ip ≡ true
      → Elem (new interface a) (local_addresses api is_global interface entries)
  unfolding local_addresses local_address
  local_addresses-Elem a interface [] m g = absurd (not-Elem-nil m)
  local_addresses-Elem a interface (x ∷ more) here g = rw (g, local_addresses, local_address) here
  local_addresses-Elem a interface (none ∷ more) (there m) g =
      local_addresses-Elem a interface more m g
  local_addresses-Elem a interface (some (v4 b) ∷ more) (there m) g =
      local_addresses-Elem a interface more m g
  local_addresses-Elem a interface (some (v6 b) ∷ more) (there m) g =
      let found = local_addresses-Elem a interface more m g in
      elim (Bool-cases (is_global b.ip)) [
        | inl t ↦ rw (t, local_addresses, local_address) (there found)
        | inr f ↦ rw (f, local_addresses, local_address) found
      ]

  Elem-collect :
      (l : LocalAddress) (all : List Interface)
      → Elem l (collect api is_global all)
      → (i : Interface) × (a : SocketAddrV6) × Elem i all × Stands l i a
  unfolding collect
  Elem-collect l [] e = absurd (not-Elem-nil e)
  Elem-collect l (i ∷ more) e = elim (Bool-cases (not (is_loopback i) && is_running i)) [
    | inl t ↦
        elim (Elem-append (local_addresses api is_global (name i) (addresses i)) _
          (rw (t, collect) at e)) [
            | inl p ↦
                let (a, m, g, n) = Elem-local_addresses l (name i) (addresses i) p in
                (
                  i,
                  a,
                  here,
                  record {
                    member = m;
                    global = g;
                    outside = ground arith;
                    running = ground arith;
                    named = n;
                  },
                )
            | inr r ↦ let (k, a, m, s) = Elem-collect l more r in (k, a, there m, s)
          ]
    | inr f ↦ let (k, a, m, s) = Elem-collect l more (rw (f, collect) at e) in (k, a, there m, s)
  ]

  collect-Elem :
      (l : LocalAddress) (all : List Interface) (i : Interface) (a : SocketAddrV6)
      → Elem i all
      → Stands l i a
      → Elem l (collect api is_global all)
  unfolding collect
  collect-Elem l [] i a m s = absurd (not-Elem-nil m)
  collect-Elem l (i ∷ more) _ a here s =
      rw (s.outside, s.running)
        (Elem-append_left (collect api is_global more)
          (rw s.named (local_addresses-Elem a (name i) (addresses i) s.member s.global)))
  collect-Elem l (k ∷ more) i a (there m) s =
      let found = collect-Elem l more i a m s in
      elim (Bool-cases (not (is_loopback k) && is_running k)) [
        | inl t ↦
            rw t (Elem-append_right (local_addresses api is_global (name k) (addresses k)) found)
        | inr f ↦ rw f found
      ]

  -- The addresses that `discover_addresses` finds are exactly those of the global IPv6 addresses of
  -- running interfaces that are no loopback, each under its interface's name.
  pub discover_addresses-Elem :
      (all : List Interface) (found : List LocalAddress) (l : LocalAddress)
      → discover_addresses api is_global (ok all) ≡ ok found
      → Elem l found ↔ ((i : Interface) × (a : SocketAddrV6) × Elem i all × Stands l i a)
  unfolding discover_addresses
  discover_addresses-Elem all found l e =
      let z : collect api is_global all ≡ found = cc in
      rw (sym z) (Elem-collect l all, λ (i, a, m, s). collect-Elem l all i a m s)
