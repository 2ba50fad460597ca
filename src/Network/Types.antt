-- ===== src/Network/Types.antt =====
-- sandbox/sandbox/network/types.go and network.go: `BridgeConfig`, its validation, and the modes.
pub mod Usable
use Prim.Native.Nat.{bit_and, bit_or}
use bcs_zc241t_study_project.Prelude.{
  ℕ, ◌-◌, ◌*◌, ◌/◌, ◌%◌, ◌^◌, ◌+◌, Bool, not, ◌&&◌, ◌||◌, Option, none, some, List, Result, ok, err,
  reject, ◌>>=◌, ◌>>◌, ltb, ◌==◌, ◌=?◌, if◌then◌else◌, codes,
}
use bcs_zc241t_study_project.Prelude.Int.{ℤ, pos, ltb_ℤ}
use bcs_zc241t_study_project.Text.{Text}
use bcs_zc241t_study_project.Network.Address.{Prefix, parse_addr, parse_prefix, masked, contains_ip}

-- `NetworkMode`, a string type.
abbrev pub mode_host : Text
mode_host = codes "host"

abbrev pub mode_none : Text
mode_none = codes "none"

abbrev pub mode_bridge : Text
mode_bridge = codes "bridge"

unfoldable pub mode_is_valid : Text → Bool
unfolding ◌=?◌
mode_is_valid n = n =? mode_host || n =? mode_none || n =? mode_bridge

unfoldable pub requires_net_ns : Text → Bool
unfolding ◌=?◌
requires_net_ns n = n =? mode_none || n =? mode_bridge

pub record BridgeConfig : Type 0 where
  pub subnet : Text
  pub gateway_ip : Text
  pub container_ip : Text
  pub mtu : ℤ

abbrev pub default_bridge_config : BridgeConfig
default_bridge_config = record {
  subnet = codes "10.0.100.0/24";
  gateway_ip = codes "10.0.100.1";
  container_ip = codes "10.0.100.2";
  mtu = pos 1500;
}

pub data BridgeError : Type 0 where
  invalid_subnet no_usable_hosts invalid_gateway invalid_container : BridgeError
  outside_subnet not_distinct reserved_address mtu_out_of_range : BridgeError

unfoldable pub or_fail : {A : Type 0} → Option A → BridgeError → Result BridgeError A
or_fail none e = err e
or_fail (some a) e = ok a

unfoldable pub canonical : Prefix → Bool
canonical p = p.addr == (masked p).addr

-- `networkValue`: the address, and-ed with the high ones. The shift drops what leaves 32 bits.
unfoldable pub network_value : Prefix → ℕ
network_value p = bit_and (masked p).addr ((2 ^ 32 - 1) * 2 ^ (32 - p.bits) % 2 ^ 32)

-- `last`: or-ed with the low ones.
unfoldable pub last_address : Prefix → ℕ
last_address p = bit_or (network_value p) ((2 ^ 32 - 1) / 2 ^ p.bits)

-- The tests on the parsed prefix and addresses.
unfoldable pub validate_hosts : Prefix → ℕ → ℕ → Result BridgeError (Unit {0})
validate_hosts p gateway container = do
  reject (not (contains_ip p gateway) || not (contains_ip p container)) outside_subnet
  reject (gateway == container) not_distinct
  let first = (masked p).addr
  let last = last_address p
  reject (gateway == first || gateway == last || container == first || container == last)
      reserved_address

-- `BridgeConfig.Validate`.
unfoldable pub validate_bridge : BridgeConfig → Result BridgeError (Unit {0})
validate_bridge c = do
  p ← or_fail (parse_prefix c.subnet) invalid_subnet
  reject (not (canonical p)) invalid_subnet
  reject (ltb p.bits 1 || ltb 30 p.bits) no_usable_hosts
  gateway ← or_fail (parse_addr c.gateway_ip) invalid_gateway
  container ← or_fail (parse_addr c.container_ip) invalid_container
  validate_hosts p gateway container
  reject (ltb_ℤ c.mtu (pos 576) || ltb_ℤ (pos 65535) c.mtu) mtu_out_of_range
