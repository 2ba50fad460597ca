-- ===== src/Network/Types/Usable.antt =====
-- What `BridgeConfig.Validate` accepts: two distinct host addresses of the subnet.
use native.Mathlib.Nat.{one-le-pow}
use bcs_zc241t_study_project.Prelude.{
  ℕ, zero, suc, ◌+◌, ◌-◌, ◌*◌, ◌/◌, ◌%◌, ◌^◌, ◌<◌, ◌≤◌, ◌≡◌, ◌≢◌, refl, ap, ◌∙◌, Bool, true, false,
  not, ◌&&◌, ◌||◌, some, none, ok, >>=-eq-ok, reject, reject-eq-ok, Option, ltb, ◌==◌, arith,
}
use bcs_zc241t_study_project.Prelude.Int.{ℤ, pos, negsuc, ltb_ℤ}
use bcs_zc241t_study_project.Prelude.Bits.{bit_and_low_ones, bit_and_blocks, bit_or_low_ones}
use bcs_zc241t_study_project.Network.Address.{
  Prefix, parse_addr, parse_prefix, masked, block, parse_prefix_bounds,
}
use bcs_zc241t_study_project.Network.Types.{
  BridgeConfig, BridgeError, validate_bridge, validate_hosts, network_value, last_address,
  canonical, or_fail, invalid_subnet, no_usable_hosts, invalid_gateway, invalid_container,
  mtu_out_of_range,
}

passes_up_to : (ℕ → Bool) → ℕ → Bool
passes_up_to test zero = true
passes_up_to test (suc top) = passes_up_to test top && test top

passes_up_to_sound :
    (test : ℕ → Bool) (top k : ℕ) → k < top → passes_up_to test top ≡ true → test k ≡ true
unfolding passes_up_to
passes_up_to_sound test zero k l passed = elim l [ ]
passes_up_to_sound test (suc top) k l passed = ground (arith, passes_up_to_sound test top k)

-- The masks of the source at every prefix length, by evaluation: `bits` ones in front, and the block
-- less one behind.
mask_table :
    passes_up_to
      (λ b.
        ((2 ^ 32 - 1) * 2 ^ (32 - b) % 2 ^ 32 == (2 ^ b - 1) * 2 ^ (32 - b))
        && ((2 ^ 32 - 1) / 2 ^ b == 2 ^ (32 - b) - 1)
        && (2 ^ b * 2 ^ (32 - b) == 2 ^ 32))
      33
    ≡ true
unfolding passes_up_to
mask_table = refl

masks :
    (b : ℕ)
    → b < 33
    → ((2 ^ 32 - 1) * 2 ^ (32 - b) % 2 ^ 32 ≡ (2 ^ b - 1) * 2 ^ (32 - b))
      × ((2 ^ 32 - 1) / 2 ^ b ≡ 2 ^ (32 - b) - 1)
      × (2 ^ b * 2 ^ (32 - b) ≡ 2 ^ 32)
masks b h = ground (arith, passes_up_to_sound _ 33 b h mask_table)

-- A 32-bit number has at most `bits` digits in front of the block.
front_digits : (a b c : ℕ) → 0 < c → a < b * c → a / c < b
front_digits a b c h k = grind arith

network_value_lem : (p : Prefix) → p.addr < 2 ^ 32 → p.bits < 33 → network_value p ≡ (masked p).addr
unfolding network_value
network_value_lem p ha hb =
    let (high, low, whole) = masks p.bits hb in
    let k = 32 - p.bits in
    let short : p.addr / 2 ^ k < 2 ^ p.bits =
      front_digits p.addr (2 ^ p.bits) (2 ^ k) (one-le-pow k 2 (omega arith)) (rw whole ha) in
    rw high (
      bit_and_blocks k (p.addr / 2 ^ k) (2 ^ p.bits - 1)
      ∙ ap (λ (t : ℕ). t * 2 ^ k) (bit_and_low_ones p.bits (p.addr / 2 ^ k) short))

-- `last` is the address at the end of the block: the bit operations of the source agree with the
-- arithmetic of the block.
pub last_address_lem :
    (p : Prefix) → p.addr < 2 ^ 32 → p.bits < 33 → last_address p ≡ (masked p).addr + (block p - 1)
unfolding last_address
last_address_lem p ha hb =
    let (high, low, whole) = masks p.bits hb in
    rw (network_value_lem p ha hb, low) (bit_or_low_ones (32 - p.bits) (p.addr / 2 ^ (32 - p.bits)))

-- A host address of the prefix: inside its block, and neither its first nor its last address.
pub record IsHost (p : Prefix) (ip : ℕ) : Type 0 where
  pub above : p.addr < ip
  pub below : ip < p.addr + (2 ^ (32 - p.bits) - 1)

-- Between the first and the last address of the block.
block_bounds : (a b n : ℕ) → 0 < n → a / n ≡ b / n → b / n * n ≤ a × (a ≤ b / n * n + (n - 1))
block_bounds a b n h e = (rw (← e) (grind arith), rw (← e) (grind arith))

validate_hosts-IsHost :
    (p : Prefix) (g c : ℕ)
    → p.addr < 2 ^ 32
    → p.bits < 33
    → canonical p ≡ true
    → validate_hosts p g c ≡ ok tt
    → IsHost p g × IsHost p c × (g ≢ c)
unfolding validate_hosts canonical
validate_hosts-IsHost p g c ha hb hc h =
    let low =
      block_bounds g p.addr (2 ^ (32 - p.bits)) (one-le-pow (32 - p.bits) 2 (omega arith)) in
    let low' =
      block_bounds c p.addr (2 ^ (32 - p.bits)) (one-le-pow (32 - p.bits) 2 (omega arith)) in
    ground (arith, last_address_lem p ha hb, low, low')

or_fail-eq-ok :
    {A : Type 0} (o : Option A) (e : BridgeError) {a : A} → or_fail o e ≡ ok a → o ≡ some a
unfolding or_fail
or_fail-eq-ok none e h = cc
or_fail-eq-ok (some a) e h = cc

mtu_range :
    (m : ℤ)
    → (ltb_ℤ m (pos 576) || ltb_ℤ (pos 65535) m) ≡ false
    → (n : ℕ) × (m ≡ pos n) × (576 ≤ n) × (n ≤ 65535)
mtu_range (pos n) h = (n, refl, ground arith, ground arith)
mtu_range (negsuc n) h = absurd (ground arith)

-- What the theorem below says of a configuration.
pub record IsUsable (c : BridgeConfig) (p : Prefix) (g h mtu : ℕ) : Type 0 where
  pub subnet_read : parse_prefix c.subnet ≡ some p
  pub gateway_read : parse_addr c.gateway_ip ≡ some g
  pub container_read : parse_addr c.container_ip ≡ some h
  pub aligned : p.addr ≡ (masked p).addr
  pub bits_low : 1 ≤ p.bits
  pub bits_high : p.bits ≤ 30
  pub gateway_host : IsHost p g
  pub container_host : IsHost p h
  pub distinct : g ≢ h
  pub mtu_read : c.mtu ≡ pos mtu
  pub mtu_low : 576 ≤ mtu
  pub mtu_high : mtu ≤ 65535

-- If `BridgeConfig.Validate` accepts, the subnet is a canonical IPv4 prefix of 1 to 30 bits, the
-- gateway and the container have distinct addresses strictly between the first and the last address
-- of its block, and the MTU lies in 576 to 65535.
pub validate_bridge-IsUsable :
    (c : BridgeConfig)
    → validate_bridge c ≡ ok tt
    → (p : Prefix) × (g : ℕ) × (h : ℕ) × (mtu : ℕ) × IsUsable c p g h mtu
unfolding validate_bridge
validate_bridge-IsUsable c ok_c =
    let (p, ep, r₁) = >>=-eq-ok (or_fail (parse_prefix c.subnet) invalid_subnet) _ ok_c in
    let (_, e₁, r₂) = >>=-eq-ok (reject (not (canonical p)) invalid_subnet) _ r₁ in
    let (_, e₂, r₃) = >>=-eq-ok (reject (ltb p.bits 1 || ltb 30 p.bits) no_usable_hosts) _ r₂ in
    let (g, eg, r₄) = >>=-eq-ok (or_fail (parse_addr c.gateway_ip) invalid_gateway) _ r₃ in
    let (h, eh, r₅) = >>=-eq-ok (or_fail (parse_addr c.container_ip) invalid_container) _ r₄ in
    let (_, e₃, e₄) = >>=-eq-ok (validate_hosts p g h) _ r₅ in
    let subnet_read = or_fail-eq-ok (parse_prefix c.subnet) invalid_subnet ep in
    let (ha, hb) = parse_prefix_bounds c.subnet subnet_read in
    let aligned : canonical p ≡ true = ground arith in
    let (hg, hh, apart) = validate_hosts-IsHost p g h ha hb aligned e₃ in
    let (mtu, em, lo, hi) = mtu_range c.mtu (reject-eq-ok _ mtu_out_of_range e₄) in
    (
      p,
      g,
      h,
      mtu,
      record {
        subnet_read = subnet_read;
        gateway_read = or_fail-eq-ok (parse_addr c.gateway_ip) invalid_gateway eg;
        container_read = or_fail-eq-ok (parse_addr c.container_ip) invalid_container eh;
        aligned = unfold canonical in ground arith;
        bits_low = ground arith;
        bits_high = ground arith;
        gateway_host = hg;
        container_host = hh;
        distinct = apart;
        mtu_read = em;
        mtu_low = lo;
        mtu_high = hi;
      },
    )
