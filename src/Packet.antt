-- ===== src/Packet.antt =====
-- include/ge/cpp/packet.h: the packet that the edges carry.
use Prim.Native.Nat.{bit_and}
use ge.Prelude.{ℕ, ◌==◌, Bool, not, Option, none, some, false}
use ge.Prelude.Int.{ℤ}

pub record PacketHeader : Type 0 where
  pub seq : ℕ
  pub pts_ns : ℤ
  pub dts_ns : ℤ
  pub flags : ℕ
  pub topology_version : ℕ
  pub parameter_version : ℕ
  pub type_tag : ℕ

-- The shared metadata and the payload buffer are only passed along: a number names each.
pub record Packet : Type 0 where
  pub header : PacketHeader
  pub metadata : Option ℕ
  pub payload : Option ℕ
  pub ingress_ns : ℤ

-- A shared pointer, which may be null.
abbrev pub PacketRef : Type 0
PacketRef = Option Packet

-- GE_PACKET_FLAG_EOS, GE_PACKET_FLAG_EVENT and GE_PACKET_FLAG_DROPPED of ge_abi.h.
abbrev pub flag_eos : ℕ
flag_eos = 0x2

abbrev pub flag_event : ℕ
flag_event = 0x4

unfoldable pub is_eos : Packet → Bool
is_eos p = not (bit_and p.header.flags flag_eos == 0)

unfoldable pub is_event : Packet → Bool
is_event p = not (bit_and p.header.flags flag_event == 0)

-- `packet && packet->is_eos()`
unfoldable pub ref_is_eos : PacketRef → Bool
ref_is_eos none = false
ref_is_eos (some p) = is_eos p
