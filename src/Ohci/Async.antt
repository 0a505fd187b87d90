-- ===== src/Ohci/Async.antt =====
-- include/uf/ohci/async.hpp: the headers of the asynchronous requests, on the bus and as the controller
-- takes them, and of the responses.
pub mod Fields
use userface.Base.{
  ℕ, ◌+◌, ◌*◌, ◌/◌, ◌%◌, ◌^◌, Bool, true, false, ◌||◌, List, [], length, bit_and, bit_or, u16, u32,
  u64, ◌<<◌, ◌>>◌, ◌==◌, if◌then◌else◌, replicate,
}
use userface.Protocol.Endian.{host_to_le32}

abbrev pub write_quadlet_req : ℕ
write_quadlet_req = 0

abbrev pub write_block_req : ℕ
write_block_req = 1

abbrev pub read_quadlet_req : ℕ
read_quadlet_req = 4

abbrev pub read_block_req : ℕ
read_block_req = 5

abbrev pub read_quadlet_resp : ℕ
read_quadlet_resp = 6

abbrev pub read_block_resp : ℕ
read_block_resp = 7

abbrev pub lock_req : ℕ
lock_req = 9

abbrev pub lock_resp : ℕ
lock_resp = 11

abbrev pub ext_compare_swap : ℕ
ext_compare_swap = 2

abbrev pub retry_x : ℕ
retry_x = 1

-- The four quadlets of a header.
pub record Header : Type 0 where
  pub q0 : ℕ
  pub q1 : ℕ
  pub q2 : ℕ
  pub q3 : ℕ

pub record Packet : Type 0 where
  pub header : Header
  pub count : ℕ
  pub payload : List ℕ

unfoldable pub local_node_id : ℕ → ℕ
local_node_id phy_id = u16 (bit_or 0xffc0 (bit_and phy_id 0x3f))

unfoldable pub hdr_tcode : Header → ℕ
hdr_tcode h = bit_and h.q0 0xf0 >> 4

unfoldable pub hdr_tlabel : Header → ℕ
hdr_tlabel h = bit_and h.q0 0xfc00 >> 10

unfoldable pub hdr_retry : Header → ℕ
hdr_retry h = bit_and h.q0 0x300 >> 8

unfoldable pub hdr_destination : Header → ℕ
hdr_destination h = bit_and h.q0 0xffff_0000 >> 16

unfoldable pub hdr_source : Header → ℕ
hdr_source h = bit_and h.q1 0xffff_0000 >> 16

unfoldable pub hdr_rcode : Header → ℕ
hdr_rcode h = bit_and h.q1 0xf000 >> 12

unfoldable pub hdr_offset : Header → ℕ
hdr_offset h = bit_or (u64 (bit_and h.q1 0xffff << 32)) h.q2

unfoldable pub hdr_quadlet_data : Header → ℕ
hdr_quadlet_data h = h.q3

unfoldable pub hdr_data_length : Header → ℕ
hdr_data_length h = bit_and h.q3 0xffff_0000 >> 16

unfoldable pub hdr_extended_tcode : Header → ℕ
hdr_extended_tcode h = bit_and h.q3 0xffff

-- `addr_hi` and `addr_lo` of registers.hpp.
unfoldable pub addr_hi : ℕ → ℕ
addr_hi a = u16 (bit_and (a >> 32) 0xffff)

unfoldable pub addr_lo : ℕ → ℕ
addr_lo a = u32 (bit_and a 0xffff_ffff)

-- The first three quadlets; the fourth is 0 in a packet that was just made.
unfoldable pub set_request_common : ℕ → ℕ → ℕ → ℕ → Header
set_request_common dest tlabel tcode offset = record {
  q0 =
      bit_or
        (bit_or (bit_or (u32 (dest << 16)) (u32 (bit_and tlabel 0x3f << 10))) (u32 (retry_x << 8)))
        (u32 (bit_and tcode 0xf << 4));
  q1 = addr_hi offset;
  q2 = addr_lo offset;
  q3 = 0;
}

unfoldable pub read_quadlet_request : ℕ → ℕ → ℕ → Packet
read_quadlet_request dest tlabel offset = record {
  header = set_request_common dest tlabel read_quadlet_req offset;
  count = 3;
  payload = [];
}

unfoldable pub write_quadlet_request : ℕ → ℕ → ℕ → ℕ → Packet
write_quadlet_request dest tlabel offset value = record {
  header = record (set_request_common dest tlabel write_quadlet_req offset) { q3 = value };
  count = 4;
  payload = [];
}

unfoldable pub read_block_request : ℕ → ℕ → ℕ → ℕ → Packet
read_block_request dest tlabel offset len = record {
  header = record (set_request_common dest tlabel read_block_req offset) {
    q3 = u32 (bit_and len 0xffff << 16);
  };
  count = 4;
  payload = [];
}

unfoldable pub write_block_request : ℕ → ℕ → ℕ → List ℕ → Packet
write_block_request dest tlabel offset bytes = record {
  header = record (set_request_common dest tlabel write_block_req offset) {
    q3 = u32 (bit_and (u32 (length bytes)) 0xffff << 16);
  };
  count = 4;
  payload = bytes;
}

unfoldable pub lock_compare_swap_request : ℕ → ℕ → ℕ → ℕ → ℕ → Packet
lock_compare_swap_request dest tlabel offset arg value = record {
  header = record (set_request_common dest tlabel lock_req offset) {
    q3 = bit_or (8 << 16) ext_compare_swap;
  };
  count = 4;
  payload = host_to_le32 value (host_to_le32 arg (replicate 8 0) 0) 4;
}

pub record AtHeader : Type 0 where
  pub quads : Header
  pub quad_count : ℕ

-- A speed code is below 4.
unfoldable pub build_at_header : Packet → ℕ → AtHeader
build_at_header pkt speed =
    let h = pkt.header in
    record {
      quads = record {
        q0 =
            bit_or
              (bit_or (bit_or (u32 (bit_and speed 0x7 << 16)) (u32 (hdr_tlabel h << 10)))
                (u32 (hdr_retry h << 8)))
              (u32 (hdr_tcode h << 4));
        q1 = bit_or (u32 (hdr_destination h << 16)) (u32 (bit_and (hdr_offset h >> 32) 0xffff));
        q2 = u32 (bit_and (hdr_offset h) 0xffff_ffff);
        q3 = h.q3;
      };
      quad_count = pkt.count;
    }

pub record Response : Type 0 where
  pub tcode : ℕ
  pub rcode : ℕ
  pub tlabel : ℕ
  pub quadlet : ℕ
  pub data_length : ℕ

unfoldable pub parse_response : Header → Response
parse_response h = record {
  tcode = hdr_tcode h;
  rcode = hdr_rcode h;
  tlabel = hdr_tlabel h;
  quadlet = if hdr_tcode h == read_quadlet_resp then hdr_quadlet_data h else 0;
  data_length =
      if (hdr_tcode h == read_block_resp) || (hdr_tcode h == lock_resp)
      then hdr_data_length h
      else 0;
}
