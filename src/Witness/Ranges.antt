-- ===== src/Witness/Ranges.antt =====
-- The theorems on CIDR ranges at a concrete range, with simple functions in place of the network
-- library's.
use zero_trust_public.Base.{
  ℕ, ◌^◌, ◌-◌, ◌/◌, ◌%◌, ◌≡◌, refl, codes, some, split_first, get_elem?, to_string, arith,
}
use zero_trust_public.Cidr.{pos, Network, expand_cidr}
use zero_trust_public.Cidr.Laws.{expand_cidr_hosts}

-- Every base is 10.0.0.5, and every prefix length 24.
abbrev one_range : Network
one_range = record {
  stoi = λ s. some (pos 24);
  inet_pton = λ s. some 167772165;
  inet_ntop = λ a. to_string a;
}

expand_cidr_hosts_example :
    (a : ℕ) × (get_elem? (expand_cidr one_range (codes "10.0.0.5/24")) 3 ≡ some (to_string a))
    × (a / 2 ^ (32 - 24) ≡ 167772165 / 2 ^ (32 - 24))
    × (a % 2 ^ (32 - 24) ≡ 3)
unfolding split_first
expand_cidr_hosts_example =
    expand_cidr_hosts one_range (codes "10.0.0.5/24") (codes "10.0.0.5") (codes "24") 24 167772165 3
      refl refl (omega arith) refl (omega arith) (omega arith)
