-- ===== src/Cidr/Laws.antt =====
-- The hosts of a CIDR range: how many, and which.
use zero_trust_public.Base.{
  ℕ, zero, suc, ◌+◌, ◌-◌, ◌*◌, ◌/◌, ◌%◌, ◌^◌, ◌≤◌, ◌<◌, ◌≡◌, refl, sym, ap, ◌∙◌, false, Bytes, some,
  ltb, ◌==◌, split_first, length, get_elem?, arith, min, Bool-cases, inl, inr,
}
use native.Mathlib.Nat.{
  div-lt_iff_lt-mul, mul-le-mul_right, mod-eq_of_lt, mul-add-div_right, div-eq_of_lt,
  mul-add-mod_self_right, pow-succ',
}
use zero_trust_public.Cidr.{pos, Network, network_of, host_count, hosts_loop, expand_cidr}

host_count-min : (n : ℕ) → n ≤ 32 → host_count n ≡ min (2 ^ (32 - n)) 65536
unfolding host_count
host_count-min n h = elim (Bool-cases (n == 32)) [
  | inl e ↦ let same : n ≡ 32 = ground arith in rw (e, same) refl
  | inr e ↦ rw e (ground arith)
]

within_bound : (n : ℕ) → n ≤ 32 → ltb 32 n ≡ false
within_bound n h = ground arith

-- The addresses of a block of P, of which Q fill the address space, stay in the space and the
-- block.
block_kept :
    (ip P Q j : ℕ)
    → ip < Q * P
    → j < P
    → ((ip / P * P + j) % (Q * P) / P ≡ ip / P) × ((ip / P * P + j) % (Q * P) % P ≡ j)
block_kept ip P Q j h k =
    let positive : 0 < P = omega arith in
    let blocks = (div-lt_iff_lt-mul positive).1 h in
    let room = mul-le-mul_right P blocks in
    let fits : ip / P * P + j < Q * P = omega arith in
    rw
      (
        mod-eq_of_lt fits,
        mul-add-div_right positive (ip / P) j,
        div-eq_of_lt k,
        mul-add-mod_self_right (ip / P) P j,
        mod-eq_of_lt k,
      )
      ((omega arith), refl)

pow_sum : (a b : ℕ) → 2 ^ a * 2 ^ b ≡ 2 ^ (a + b)
pow_sum zero b = grind arith
pow_sum (suc a) b =
    let step : 2 ^ suc a ≡ 2 * 2 ^ a = pow-succ' 2 a in
    let steps : 2 ^ (suc a + b) ≡ 2 * 2 ^ (a + b) =
      ap (λ k. 2 ^ k) (omega arith) ∙ pow-succ' 2 (a + b) in
    let smaller = pow_sum a b in rw (step, steps, ← smaller) (grind arith)

network_of-block : (ip n : ℕ) → ip < 2 ^ 32 → network_of ip n ≡ ip / 2 ^ (32 - n) * 2 ^ (32 - n)
unfolding network_of
network_of-block ip n h = elim (Bool-cases (n == 0)) [
  | inl e ↦
      let same : n ≡ 0 = ground arith in rw (e, same) (sym (ap (λ q. q * 2 ^ 32) (div-eq_of_lt h)))
  | inr e ↦ rw e refl
]

module _ (net : Network) where
  length-hosts_loop : (network i count : ℕ) → length (hosts_loop net network i count) ≡ count
  unfolding hosts_loop
  length-hosts_loop network i zero = refl
  length-hosts_loop network i (suc count) = ap suc (length-hosts_loop network (i + 1) count)

  get_elem-hosts_loop :
      (network i count j : ℕ)
      → j < count
      → get_elem? (hosts_loop net network i count) j
        ≡ some (net.inet_ntop ((network + (i + j)) % 2 ^ 32))
  unfolding hosts_loop
  get_elem-hosts_loop network i zero j h = absurd (omega arith)
  get_elem-hosts_loop network i (suc count) zero h =
      ap (λ k. some (net.inet_ntop ((network + k) % 2 ^ 32))) (omega arith)
  get_elem-hosts_loop network i (suc count) (suc j) h =
      get_elem-hosts_loop network (i + 1) count j (omega arith)
      ∙ ap (λ k. some (net.inet_ntop ((network + k) % 2 ^ 32))) (omega arith)

  -- A range with a prefix length from 0 to 32 and a valid base gives min(2^(32 - length), 65536)
  -- hosts.
  length-expand_cidr :
      (input base len : Bytes) (n ip : ℕ)
      → split_first b'/' input ≡ some (base, len)
      → net.stoi len ≡ some (pos n)
      → n ≤ 32
      → net.inet_pton base ≡ some ip
      → length (expand_cidr net input) ≡ min (2 ^ (32 - n)) 65536
  unfolding expand_cidr
  length-expand_cidr input base len n ip s t h b =
      rw (s, t, within_bound n h, b)
        (length-hosts_loop (network_of ip n) 0 (host_count n) ∙ host_count-min n h)

  -- In a range with a prefix length from 0 to 32 and a base address of 32 bits, the j-th host is
  -- the address of the network's block whose number in the block is j: the high bits are those of
  -- the base address, and no address wraps around.
  pub expand_cidr_hosts :
      (input base len : Bytes) (n ip j : ℕ)
      → split_first b'/' input ≡ some (base, len)
      → net.stoi len ≡ some (pos n)
      → n ≤ 32
      → net.inet_pton base ≡ some ip
      → ip < 2 ^ 32
      → j < min (2 ^ (32 - n)) 65536
      → (a : ℕ) × (get_elem? (expand_cidr net input) j ≡ some (net.inet_ntop a))
        × (a / 2 ^ (32 - n) ≡ ip / 2 ^ (32 - n))
        × (a % 2 ^ (32 - n) ≡ j)
  unfolding expand_cidr
  expand_cidr_hosts input base len n ip j s t h b small k =
      let exponent : n + (32 - n) ≡ 32 = omega arith in
      let space : 2 ^ n * 2 ^ (32 - n) ≡ 2 ^ 32 = pow_sum n (32 - n) ∙ ap (λ e. 2 ^ e) exponent in
      let kept = block_kept ip (2 ^ (32 - n)) (2 ^ n) j (rw space small) (omega arith) in
      let network = network_of-block ip n small in
      let first : 0 + j ≡ j = omega arith in
      (
        (network_of ip n + j) % 2 ^ 32,
        rw (s, t, within_bound n h, b)
            (get_elem-hosts_loop (network_of ip n) 0 (host_count n) j (rw (host_count-min n h) k)
              ∙ ap (λ i. some (net.inet_ntop ((network_of ip n + i) % 2 ^ 32))) first),
        rw network (rw space at kept.0),
        rw network (rw space at kept.1),
      )
