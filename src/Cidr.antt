-- ===== src/Cidr.antt =====
-- src/scan/cidr.cpp: expand_cidr. std::stoi, inet_pton with ntohl, and inet_ntop with htonl are
-- parameters; log lines are left out.
use zero_trust_public.Base.{
  ℕ, zero, suc, ◌+◌, ◌-◌, ◌*◌, ◌/◌, ◌%◌, ◌^◌, Bool, true, false, ◌||◌, List, [], ◌∷◌, Bytes, Option,
  none, some, if◌then◌else◌, ltb, ◌==◌, split_first,
}
pub mod Laws

-- An `int`; `negsuc n` is -(n + 1).
pub data ℤ : Type 0 where
  pos : ℕ → ℤ
  negsuc : ℕ → ℤ

abbrev max_hosts : ℕ
max_hosts = 65536

-- The library functions: `stoi` is none where it throws, `inet_pton` gives the address in the host's
-- byte order, and none where it does not return 1.
pub record Network : Type 0 where
  pub stoi : Bytes → Option ℤ
  pub inet_pton : Bytes → Option ℕ
  pub inet_ntop : ℕ → Bytes

-- `base_ip & mask`: the mask keeps all but the low 32 - prefix_len bits, and none for the length 0.
unfoldable pub network_of : ℕ → ℕ → ℕ
network_of base_ip prefix_len =
    if prefix_len == 0 then 0 else base_ip / 2 ^ (32 - prefix_len) * 2 ^ (32 - prefix_len)

-- `count`, limited to MAX_HOSTS.
unfoldable pub host_count : ℕ → ℕ
host_count prefix_len =
    let count = if prefix_len == 32 then 1 else 2 ^ (32 - prefix_len) in
    if ltb max_hosts count then max_hosts else count

module _ (net : Network) where
  -- The loop, from `i` on for `count` rounds; the sum wraps around at 32 bits.
  unfoldable pub hosts_loop : ℕ → ℕ → ℕ → List Bytes
  hosts_loop network i zero = []
  hosts_loop network i (suc count) =
      net.inet_ntop ((network + i) % 2 ^ 32) ∷ hosts_loop network (i + 1) count

  hosts_at : ℕ → Option ℕ → List Bytes
  hosts_at prefix_len none = []
  hosts_at prefix_len (some base_ip) =
      hosts_loop (network_of base_ip prefix_len) 0 (host_count prefix_len)

  -- The range check of the prefix length, and what follows.
  hosts_in : Bytes → Option ℤ → List Bytes
  hosts_in base none = []
  hosts_in base (some (negsuc n)) = []
  hosts_in base (some (pos n)) = if ltb 32 n then [] else hosts_at n (net.inet_pton base)

  expand_split : Bytes → Option (Bytes × Bytes) → List Bytes
  expand_split input none = input ∷ []
  expand_split input (some (base, len)) = hosts_in base (net.stoi len)

  unfoldable pub expand_cidr : Bytes → List Bytes
  unfolding expand_split hosts_in hosts_at
  expand_cidr input = expand_split input (split_first b'/' input)
