-- ===== src/Proxy/Mdns/HostName.antt =====
-- register_service and local_ipv4 of mdns.rs.
use atemproxy.Prelude.{
  ℕ, ◌-◌, ◌≡◌, refl, ap, sym, subst, ◌∙◌, true, false, ◌&&◌, ◌⊎◌, inl, inr, none, some, List, [],
  ◌∷◌, ◌++◌, arith, Bool-cases, Option-cases, length, take, drop, take-append-drop, bytes_eq,
  bytes_eq_iff, append_assoc,
}
use atemproxy.Prelude.Text.{Text, codes, ends_with}
use atemproxy.Proxy.Mdns.{
  IpAddr, v4, v6, Interface, first_v4, ServiceInfo, Outside, local_ipv4, host_or_default,
  host_name_of, service_type, sanitize_instance_name, props_of, register_service,
}

ends_with-elim :
    (suffix s : Text) → ends_with suffix s ≡ true → (stem : Text) × (s ≡ stem ++ suffix)
unfolding ends_with
ends_with-elim suffix s h =
    let n : ℕ = length s - length suffix in
    let e : bytes_eq (drop n s) suffix ≡ true = ground arith in
    (
      take n s,
      sym (take-append-drop n s) ∙ ap (◌++◌ (take n s)) ((bytes_eq_iff (drop n s) suffix).0 e),
    )

-- A host's name, and the same name in the domain of mDNS.
pub record IsLocal (host name : Text) : Type 0 where
  pub stem : Text
  pub in_local : name ≡ stem ++ codes ".local."
  pub of_host : (host ≡ stem) ⊎ ((host ≡ stem ++ codes ".local") ⊎ (host ≡ stem ++ codes ".local."))

host_name_of-IsLocal : (host : Text) → IsLocal host (host_name_of host)
unfolding host_name_of
host_name_of-IsLocal host = elim (Bool-cases (ends_with (codes ".local.") host)) [
  | inl e ↦
      let (stem, h) = ends_with-elim (codes ".local.") host e in
      rw e (record { stem = stem; in_local = h; of_host = inr (inr h) })
  | inr e ↦ elim (Bool-cases (ends_with (codes ".local") host)) [
    | inl k ↦
        let (stem, h) = ends_with-elim (codes ".local") host k in
        rw (e, k)
          (record {
            stem = stem;
            in_local = ap (λ t. t ++ codes ".") h ∙ append_assoc stem (codes ".local") (codes ".");
            of_host = inr (inl h);
          })
    | inr k ↦ rw (e, k) (record { stem = host; in_local = refl; of_host = inl refl })
  ]
]

abbrev pub Has : Interface → List Interface → Type 0
Has a [] = ⊥
Has a (b ∷ addrs) = (a ≡ b) ⊎ Has a addrs

-- An address of the host that others can reach.
pub record IsReachable (o : Outside) (ip : IpAddr) : Type 0 where
  pub addrs : List Interface
  pub listed : o.get_if_addrs ≡ some addrs
  pub interface : Interface
  pub among : Has interface addrs
  pub no_loopback : interface.is_loopback ≡ false
  pub same_ip : interface.ip ≡ ip
  pub number : ℕ
  pub is_v4 : ip ≡ v4 number

IpAddr-cases : (ip : IpAddr) → ((n : ℕ) × (ip ≡ v4 n)) ⊎ ((n : ℕ) × (ip ≡ v6 n))
IpAddr-cases (v4 n) = inl (n, refl)
IpAddr-cases (v6 n) = inr (n, refl)

abbrev Found : List Interface → IpAddr → Type 0
Found addrs ip =
    (a : Interface) × Has a addrs × (a.is_loopback ≡ false) × (a.ip ≡ ip) × ((n : ℕ) × (ip ≡ v4 n))

Found-later :
    (a : Interface) (addrs : List Interface) (ip : IpAddr) → Found addrs ip → Found (a ∷ addrs) ip
Found-later a addrs ip (b, among, l, s, n) = (b, inr among, l, s, n)

first_v4-Found : (addrs : List Interface) (ip : IpAddr) → first_v4 addrs ≡ some ip → Found addrs ip
unfolding first_v4
first_v4-Found [] ip e = absurd (cc)
first_v4-Found (a ∷ addrs) ip e = elim (Bool-cases a.is_loopback) [
  | inl l ↦ Found-later a addrs ip (first_v4-Found addrs ip (rw (l, first_v4) at e))
  | inr l ↦ elim (IpAddr-cases a.ip) [
    | inl (m, k) ↦
        let found : some (v4 m) ≡ some ip = rw (l, first_v4, k) at e in
        (a, inl refl, l, cc (k, found), (m, cc found))
    | inr (m, k) ↦ Found-later a addrs ip (first_v4-Found addrs ip (rw (l, first_v4, k) at e))
  ]
]

-- What is registered.
pub record IsRegistered (o : Outside) (product_name : Text) (port : ℕ) (service : ServiceInfo)
    : Type 0 where
  pub kind : service.service_type ≡ codes "_blackmagic._tcp.local."
  pub instance_of : service.instance_name ≡ sanitize_instance_name product_name
  pub same_port : service.port ≡ port
  pub reachable : IsReachable o service.ip
  pub named : IsLocal (host_or_default o.hostname) service.host_name
  pub accepted : (o.has_daemon ≡ true) × (o.accepts service ≡ true) × (o.registers service ≡ true)

abbrev candidate : Outside → Text → Text → ℕ → IpAddr → ServiceInfo
candidate o product_name release_version port ip = record {
  service_type = service_type;
  instance_name = sanitize_instance_name product_name;
  host_name = host_name_of (host_or_default o.hostname);
  ip = ip;
  port = port;
  props = props_of o product_name release_version ip;
}

local_ipv4-IsReachable : (o : Outside) (ip : IpAddr) → local_ipv4 o ≡ some ip → IsReachable o ip
unfolding local_ipv4
local_ipv4-IsReachable o ip e = elim (Option-cases o.get_if_addrs) [
  | inl h ↦ let no_list : none ≡ some ip = rw (h, local_ipv4) at e in absurd (cc)
  | inr (addrs, h) ↦
      let (a, among, no_loopback, same_ip, (n, is_v4)) =
        first_v4-Found addrs ip (rw (h, local_ipv4) at e) in
      record {
        addrs = addrs;
        listed = h;
        interface = a;
        among = among;
        no_loopback = no_loopback;
        same_ip = same_ip;
        number = n;
        is_v4 = is_v4;
      }
]

-- If a service is registered, it is of the type that control panels look for, with the name made of
-- the product's name, the port, the IPv4 address of an interface of the host that is no loopback, and
-- the host's name in the domain "local"; a daemon was there and took the service.
pub register_service-IsRegistered :
    (o : Outside) (product_name release_version : Text) (port : ℕ) (service : ServiceInfo)
    → register_service o product_name release_version port ≡ some service
    → IsRegistered o product_name port service
unfolding register_service local_ipv4
register_service-IsRegistered o product_name release_version port service e =
    elim (Bool-cases o.has_daemon) [
      | inr d ↦ let no_daemon : none ≡ some service = rw (d, register_service) at e in absurd (cc)
      | inl d ↦ elim (Option-cases (local_ipv4 o)) [
        | inl h ↦ let no_ip : none ≡ some service = rw (d, register_service, h) at e in absurd (cc)
        | inr (ip, h) ↦ taken d ip h
      ]
    ]
  where
    taken :
        o.has_daemon ≡ true
        → (ip : IpAddr) → local_ipv4 o ≡ some ip
        → IsRegistered o product_name port service
    taken d ip h =
        let found = candidate o product_name release_version port ip in
        elim (Bool-cases (o.accepts found && o.registers found)) [
          | inr k ↦
              let refused : none ≡ some service = rw (d, register_service, h, k) at e in absurd (cc)
          | inl k ↦
              let same : some found ≡ some service = rw (d, register_service, h, k) at e in
              let service_is : found ≡ service = cc in
              subst (IsRegistered o product_name port) service_is (record {
                kind = refl;
                instance_of = refl;
                same_port = refl;
                reachable = local_ipv4-IsReachable o ip h;
                named = host_name_of-IsLocal (host_or_default o.hostname);
                accepted = (d, ground arith, ground arith);
              })
        ]
